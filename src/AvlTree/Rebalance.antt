-- ===== src/AvlTree/Rebalance.antt =====
-- The rotations that `rebalance_insert` and `rebalance_remove` make, and which of them
-- `rebalance_insert` chooses on a tree that one insertion has put out of balance.
use radix_os.Base.{ℕ, ◌+◌, ◌^◌, ◌<◌, ◌≡◌, refl, some, arith, lt→ltb, le→ltb, ◌>>=◌}
use radix_os.AvlTree.{
  Node, Tree, node, key_of, avl_rotate_right, avl_rotate_left, set_left, set_right, refresh,
  rebalance_insert,
}
use radix_os.AvlTree.Shape.{depth, fresh}
use radix_os.AvlTree.Rotate.{
  IsSmall, refresh-small, rotate_right-fresh, rotate_left-fresh, left_heavy, not_left_heavy,
  right_heavy,
}

pub IsSmall-left : (a : Tree) (x : Node) (b : Tree) → IsSmall (node a x b) → IsSmall a
IsSmall-left a x b s = record { cached = s.cached.0; shallow = omega arith }

pub IsSmall-right : (a : Tree) (x : Node) (b : Tree) → IsSmall (node a x b) → IsSmall b
IsSmall-right a x b s = record { cached = s.cached.1; shallow = omega arith }

pub IsSmall-fresh :
    (a : Tree) (x : Node) (b : Tree)
    → IsSmall a
    → IsSmall b
    → depth (fresh a x b) < 2 ^ 30
    → IsSmall (fresh a x b)
IsSmall-fresh a x b sa sb h = record { cached = (sa.cached, sb.cached, refl, refl); shallow = h }

module _ (n : Node) where
  pub single_right :
      (a : Tree) (x : Node) (b r : Tree)
      → IsSmall (node a x b)
      → IsSmall r
      → avl_rotate_right (refresh (node a x b) n r) ≡ some (fresh a x (fresh b n r))
  single_right a x b r s sr =
      rw (refresh-small (node a x b) n r s sr)
        (rotate_right-fresh a x b _ r (IsSmall-left a x b s) (IsSmall-right a x b s) sr)

  pub single_left :
      (l a : Tree) (x : Node) (b : Tree)
      → IsSmall l
      → IsSmall (node a x b)
      → avl_rotate_left (refresh l n (node a x b)) ≡ some (fresh (fresh l n a) x b)
  single_left l a x b sl s =
      rw (refresh-small l n (node a x b) sl s)
        (rotate_left-fresh l _ a x b sl (IsSmall-left a x b s) (IsSmall-right a x b s))

  pub double_right :
      (a : Tree) (x : Node) (b : Tree) (y : Node) (c r : Tree)
      → IsSmall (node a x (node b y c))
      → IsSmall r
      → (avl_rotate_left (node a x (node b y c)) >>= λ l'.
          avl_rotate_right (set_left (refresh (node a x (node b y c)) n r) l'))
        ≡ some (fresh (fresh a x b) y (fresh c n r))
  unfolding set_left refresh
  double_right a x b y c r s sr =
      let inner = IsSmall-right a x (node b y c) s in
      let sa = IsSmall-left a x (node b y c) s in
      let sb = IsSmall-left b y c inner in
      let sc = IsSmall-right b y c inner in
      rw (rotate_left-fresh a x b y c sa sb sc)
        (rotate_right-fresh (fresh a x b) _ c _ r (IsSmall-fresh a x b sa sb (omega arith)) sc sr)

  pub double_left :
      (l a : Tree) (y : Node) (b : Tree) (x : Node) (c : Tree)
      → IsSmall l
      → IsSmall (node (node a y b) x c)
      → (avl_rotate_right (node (node a y b) x c) >>= λ r'.
          avl_rotate_left (set_right (refresh l n (node (node a y b) x c)) r'))
        ≡ some (fresh (fresh l n a) y (fresh b x c))
  unfolding set_right refresh
  double_left l a y b x c sl s =
      let inner = IsSmall-left (node a y b) x c s in
      let sa = IsSmall-left a y b inner in
      let sb = IsSmall-right a y b inner in
      let sc = IsSmall-right (node a y b) x c s in
      rw (rotate_right-fresh a y b x c sa sb sc)
        (rotate_left-fresh l _ a _ (fresh b x c) sl sa (IsSmall-fresh b x c sb sc (omega arith)))

-- With the inserted key `k` on the outer or on the inner side of the heavy child.
module _ (k : ℕ) (n : Node) where
  pub rebalance_insert-left_left :
      (a : Tree) (x : Node) (b r : Tree)
      → IsSmall (node a x b)
      → IsSmall r
      → depth (node a x b) ≡ depth r + 2
      → k < key_of x
      → rebalance_insert k (node a x b) n r ≡ some (fresh a x (fresh b n r))
  unfolding rebalance_insert
  rebalance_insert-left_left a x b r s sr heavy h =
      rw (left_heavy (node a x b) n r s sr heavy, lt→ltb _ _ h) (single_right n a x b r s sr)

  pub rebalance_insert-left_right :
      (a : Tree) (x : Node) (b : Tree) (y : Node) (c r : Tree)
      → IsSmall (node a x (node b y c))
      → IsSmall r
      → depth (node a x (node b y c)) ≡ depth r + 2
      → key_of x < k
      → rebalance_insert k (node a x (node b y c)) n r ≡ some (fresh (fresh a x b) y (fresh c n r))
  unfolding rebalance_insert
  rebalance_insert-left_right a x b y c r s sr heavy h =
      rw
        (
          left_heavy (node a x (node b y c)) n r s sr heavy,
          le→ltb k (key_of x) (omega arith),
          lt→ltb _ _ h,
        )
        (double_right n a x b y c r s sr)

  pub rebalance_insert-right_right :
      (l a : Tree) (x : Node) (b : Tree)
      → IsSmall l
      → IsSmall (node a x b)
      → depth (node a x b) ≡ depth l + 2
      → key_of x < k
      → rebalance_insert k l n (node a x b) ≡ some (fresh (fresh l n a) x b)
  unfolding rebalance_insert
  rebalance_insert-right_right l a x b sl s heavy h =
      rw
        (
          not_left_heavy l n (node a x b) sl s (omega arith),
          right_heavy l n (node a x b) sl s heavy,
          lt→ltb _ _ h,
        )
        (single_left n l a x b sl s)

  pub rebalance_insert-right_left :
      (l a : Tree) (y : Node) (b : Tree) (x : Node) (c : Tree)
      → IsSmall l
      → IsSmall (node (node a y b) x c)
      → depth (node (node a y b) x c) ≡ depth l + 2
      → k < key_of x
      → rebalance_insert k l n (node (node a y b) x c) ≡ some (fresh (fresh l n a) y (fresh b x c))
  unfolding rebalance_insert
  rebalance_insert-right_left l a y b x c sl s heavy h =
      rw
        (
          not_left_heavy l n (node (node a y b) x c) sl s (omega arith),
          right_heavy l n (node (node a y b) x c) sl s heavy,
          le→ltb (key_of x) k (omega arith),
          lt→ltb _ _ h,
        )
        (double_left n l a y b x c sl s)
