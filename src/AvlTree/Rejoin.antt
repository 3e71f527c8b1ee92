-- ===== src/AvlTree/Rejoin.antt =====
-- `rebalance_remove` on children whose depths differ by at most two: where it does not come to the
-- branch that rotates the wrong subtree, it puts the node and both children together again.
use radix_os.Base.{
  ℕ, suc, ◌+◌, ◌-◌, ◌^◌, ◌%◌, ◌≤◌, ◌<◌, ◌≡◌, refl, max, Bool, true, false, not, ◌&&◌, some, ◌∷◌,
  ◌++◌, arith, append_assoc, ◌==◌, if◌then◌else◌, ◌>>=◌,
}
use native.Mathlib.Decide.{dec_le}
use radix_os.AvlTree.{
  Node, Tree, leaf, node, refresh, get_node_balance, below_minus_one, not_positive, not_negative,
  rebalance_remove, areas, avl_rotate_left, avl_rotate_right,
}
use radix_os.AvlTree.Shape.{depth, IsCached, IsBalanced, fresh, balance-fresh}
use radix_os.AvlTree.Areas.{owns}
use radix_os.AvlTree.Rotate.{
  IsSmall, refresh-small, left_heavy, not_left_heavy, right_heavy, not_right_heavy,
}
use radix_os.AvlTree.Rebalance.{single_right, single_left, double_right}

-- the test under which `avl_remove` rotates `root->left` in place of `root`
unfoldable pub bad_rotation : Tree → Node → Tree → Bool
bad_rotation l n r =
    below_minus_one (get_node_balance (refresh l n r)) && not (not_positive (get_node_balance r))

-- The node `n` between `l` and `r` has become `t`.
pub record Rejoined (l : Tree) (n : Node) (r t : Tree) : Type 0 where
  pub cached : IsCached t
  pub balanced : IsBalanced t
  pub content : areas t ≡ areas l ++ (n.area ∷ areas r)
  pub owned : (p : ℕ) → owns p t ≡ owns p l + (if n.ptr == p then 1 else 0) + owns p r
  pub depth_le : depth t ≤ suc (max (depth l) (depth r))
  pub depth_ge : suc (max (depth l) (depth r)) ≤ depth t + 1
  pub even : depth l ≤ depth r + 1 → depth r ≤ depth l + 1 → depth t ≡ suc (max (depth l) (depth r))

abbrev pub Rejoins : Tree → Node → Tree → Type 0
Rejoins l n r = (t : Tree) × (rebalance_remove l n r ≡ some t) × Rejoined l n r t

-- the balance of a child, read as a comparison of depths
module _ (a : Tree) (x : Node) (b : Tree) (s : IsSmall (node a x b)) where
  balance_child : get_node_balance (node a x b) ≡ (depth a + 2 ^ 32 - depth b) % 2 ^ 32
  balance_child = balance-fresh a x b s.cached.0 s.cached.1

  not_negative-child : depth b ≤ depth a → not_negative (get_node_balance (node a x b)) ≡ true
  not_negative-child h = rw balance_child (ground arith)

  negative-child : depth a < depth b → not_negative (get_node_balance (node a x b)) ≡ false
  negative-child h = rw balance_child (ground arith)

  not_positive-child : depth a ≤ depth b → not_positive (get_node_balance (node a x b)) ≡ true
  not_positive-child h = rw balance_child (ground arith)

  positive-child : depth b < depth a → not_positive (get_node_balance (node a x b)) ≡ false
  positive-child h = rw balance_child (ground arith)

-- A right child that is too deep, and deeper on its own left, is sent to that branch.
pub bad_rotation-inward :
    (l : Tree) (n : Node) (a : Tree) (x : Node) (b : Tree)
    → IsSmall l
    → IsSmall (node a x b)
    → depth (node a x b) ≡ depth l + 2
    → depth b < depth a
    → bad_rotation l n (node a x b) ≡ true
unfolding bad_rotation
bad_rotation-inward l n a x b sl sr h p =
    rw (right_heavy l n (node a x b) sl sr h, positive-child a x b sr p)

outward :
    (l : Tree) (n : Node) (a : Tree) (x : Node) (b : Tree)
    → IsSmall l
    → IsSmall (node a x b)
    → depth (node a x b) ≡ depth l + 2
    → bad_rotation l n (node a x b) ≡ false
    → depth a ≤ depth b
outward l n a x b sl sr h good = elim (dec_le (depth a) (depth b)) [
  | yes p ↦ p
  | no p ↦ absurd (cc (bad_rotation-inward l n a x b sl sr h (omega arith)))
]

module _ (n : Node) where
  pub rejoin_even :
      (l r : Tree)
      → IsSmall l
      → IsSmall r
      → IsBalanced l
      → IsBalanced r
      → depth l ≤ depth r + 1
      → depth r ≤ depth l + 1
      → Rejoins l n r
  unfolding rebalance_remove
  rejoin_even l r sl sr bl br h h' = (
    fresh l n r,
    rw (not_left_heavy l n r sl sr h, not_right_heavy l n r sl sr h', refresh-small l n r sl sr),
    record {
      cached = (sl.cached, sr.cached, refl, refl);
      balanced = (bl, br, h, h');
      content = refl;
      owned = λ p. refl;
      depth_le = omega arith;
      depth_ge = omega arith;
      even = λ _ _. refl;
    },
  )

  rejoin_left :
      (l r : Tree)
      → IsSmall l
      → IsSmall r
      → IsBalanced l
      → IsBalanced r
      → depth l ≡ depth r + 2
      → Rejoins l n r
  unfolding rebalance_remove
  rejoin_left leaf r sl sr bl br h = absurd (omega arith)
  rejoin_left (node a x b) r sl sr bl br h = elim (dec_le (depth b) (depth a)) [
    | yes p ↦ (
      fresh a x (fresh b n r),
      rw (left_heavy (node a x b) n r sl sr h, not_negative-child a x b sl p)
          (single_right n a x b r sl sr),
      record {
        cached = (sl.cached.0, (sl.cached.1, sr.cached, refl, refl), refl, refl);
        balanced = (bl.0, (bl.1, br, omega arith, omega arith), omega arith, omega arith);
        content = simp append_assoc;
        owned = λ p. omega arith;
        depth_le = omega arith;
        depth_ge = omega arith;
        even = λ near _. absurd (omega arith);
      },
    )
    | no p ↦ twice b sl bl h (omega arith)
  ]
    where
      twice :
          (b : Tree)
          → IsSmall (node a x b)
          → IsBalanced (node a x b)
          → depth (node a x b) ≡ depth r + 2
          → depth a < depth b
          → Rejoins (node a x b) n r
      twice leaf sl bl h p = absurd (omega arith)
      twice (node b y c) sl bl h p = (
        fresh (fresh a x b) y (fresh c n r),
        rw (left_heavy _ n r sl sr h, negative-child a x (node b y c) sl p)
            (double_right n a x b y c r sl sr),
        record {
          cached = (
            (sl.cached.0, sl.cached.1.0, refl, refl),
            (sl.cached.1.1, sr.cached, refl, refl),
            refl,
            refl,
          );
          balanced = (
            (bl.0, bl.1.0, omega arith, omega arith),
            (bl.1.1, br, omega arith, omega arith),
            omega arith,
            omega arith,
          );
          content = simp append_assoc;
          owned = λ p. omega arith;
          depth_le = omega arith;
          depth_ge = omega arith;
          even = λ near _. absurd (omega arith);
        },
      )

  rejoin_right :
      (l r : Tree)
      → IsSmall l
      → IsSmall r
      → IsBalanced l
      → IsBalanced r
      → depth r ≡ depth l + 2
      → bad_rotation l n r ≡ false
      → Rejoins l n r
  unfolding rebalance_remove
  rejoin_right l leaf sl sr bl br h good = absurd (omega arith)
  rejoin_right l (node a x b) sl sr bl br h good =
      let flat = outward l n a x b sl sr h good in
      (
        fresh (fresh l n a) x b,
        rw
            (
              not_left_heavy l n (node a x b) sl sr (omega arith),
              right_heavy l n (node a x b) sl sr h,
              not_positive-child a x b sr flat,
            )
            (single_left n l a x b sl sr),
        record {
          cached = ((sl.cached, sr.cached.0, refl, refl), sr.cached.1, refl, refl);
          balanced = ((bl, br.0, omega arith, omega arith), br.1, omega arith, omega arith);
          content = simp append_assoc;
          owned = λ p. omega arith;
          depth_le = omega arith;
          depth_ge = omega arith;
          even = λ _ near. absurd (omega arith);
        },
      )

  -- All together: any children that a removal can leave.
  pub rejoin :
      (l r : Tree)
      → IsSmall l
      → IsSmall r
      → IsBalanced l
      → IsBalanced r
      → depth l ≤ depth r + 2
      → depth r ≤ depth l + 2
      → bad_rotation l n r ≡ false
      → Rejoins l n r
  rejoin l r sl sr bl br h h' good = elim (dec_le (depth l) (depth r + 1)) [
    | yes p ↦ elim (dec_le (depth r) (depth l + 1)) [
      | yes q ↦ rejoin_even l r sl sr bl br p q
      | no q ↦ rejoin_right l r sl sr bl br (omega arith) good
    ]
    | no p ↦ rejoin_left l r sl sr bl br (omega arith)
  ]

-- The bad branch: of the node and its right subtree nothing is left.
pub rebalance_remove-bad :
    (l : Tree) (n : Node) (r : Tree)
    → bad_rotation l n r ≡ true
    → rebalance_remove l n r ≡ (avl_rotate_right r >>= λ _. avl_rotate_left l)
unfolding rebalance_remove bad_rotation
rebalance_remove-bad l n r h = ground arith
