-- ===== src/AvlTree/Rotate.antt =====
-- The rotations and the end of `avl_insert`, by the shapes on which they act.
use radix_os.Base.{ℕ, ◌+◌, ◌-◌, ◌%◌, ◌^◌, ◌≤◌, ◌<◌, ◌≡◌, refl, true, false, some, arith}
use radix_os.AvlTree.{
  Node, Tree, node, refresh, get_node_balance, above_one, below_minus_one, avl_rotate_right,
  avl_rotate_left, rebalance_insert,
}
use radix_os.AvlTree.Shape.{depth, IsCached, fresh, refresh-fresh, balance-fresh}

-- A subtree whose cached fields are right and whose depth cannot overflow.
pub record IsSmall (t : Tree) : Type 0 where
  pub cached : IsCached t
  pub shallow : depth t < 2 ^ 30

pub refresh-small :
    (l : Tree) (n : Node) (r : Tree) → IsSmall l → IsSmall r → refresh l n r ≡ fresh l n r
refresh-small l n r sl sr = refresh-fresh l n r sl.cached sr.cached (omega arith) (omega arith)

module _ (a : Tree) (x : Node) (b : Tree) (n : Node) (r : Tree) (sa : IsSmall a) (sb : IsSmall b)
    (sr : IsSmall r) where
  pub rotate_right-fresh : avl_rotate_right (node (node a x b) n r) ≡ some (fresh a x (fresh b n r))
  unfolding avl_rotate_right
  rotate_right-fresh = rw (
    refresh-small b n r sb sr,
    refresh-fresh a x (fresh b n r) sa.cached (sb.cached, sr.cached, refl, refl) (omega arith)
        (omega arith),
  )

  pub rotate_left-fresh : avl_rotate_left (node a x (node b n r)) ≡ some (fresh (fresh a x b) n r)
  unfolding avl_rotate_left
  rotate_left-fresh = rw (
    refresh-small a x b sa sb,
    refresh-fresh (fresh a x b) n r (sa.cached, sb.cached, refl, refl) sr.cached (omega arith)
        (omega arith),
  )

-- The balance that the code computes, read as the difference of the depths.
module _ (l : Tree) (n : Node) (r : Tree) (sl : IsSmall l) (sr : IsSmall r) where
  pub balance-word : get_node_balance (refresh l n r) ≡ (depth l + 2 ^ 32 - depth r) % 2 ^ 32
  balance-word = rw (refresh-small l n r sl sr) (balance-fresh l _ r sl.cached sr.cached)

  pub left_heavy : depth l ≡ depth r + 2 → above_one (get_node_balance (refresh l n r)) ≡ true
  left_heavy h = rw balance-word (ground arith)

  pub not_left_heavy : depth l ≤ depth r + 1 → above_one (get_node_balance (refresh l n r)) ≡ false
  not_left_heavy h = rw balance-word (ground arith)

  pub right_heavy :
      depth r ≡ depth l + 2 → below_minus_one (get_node_balance (refresh l n r)) ≡ true
  right_heavy h = rw balance-word (ground arith)

  pub not_right_heavy :
      depth r ≤ depth l + 1 → below_minus_one (get_node_balance (refresh l n r)) ≡ false
  not_right_heavy h = rw balance-word (ground arith)

  pub rebalance_insert-even :
      (k : ℕ)
      → depth l ≤ depth r + 1
      → depth r ≤ depth l + 1
      → rebalance_insert k l n r ≡ some (fresh l n r)
  unfolding rebalance_insert
  rebalance_insert-even k h h' =
      rw (not_left_heavy h, not_right_heavy h', refresh-small l n r sl sr)
