-- ===== src/AvlTree/Insert.antt =====
-- `avl_insert` on a well-formed tree: it does not fault, it inserts in order, and it keeps the tree
-- balanced and its cached fields right.
use radix_os.Base.{
  ℕ, suc, ◌+◌, ◌^◌, ◌≤◌, ◌<◌, ◌≡◌, refl, max, some, List, ◌∷◌, ◌++◌, append_assoc, arith,
  compare-cases, length, inl, inr, ◌⊎◌,
}
use native.Mathlib.Decide.{dec_le, dec_lt}
use radix_os.AvlTree.{Node, Tree, leaf, node, key_of, rebalance_insert, avl_insert, areas}
use radix_os.AvlTree.Shape.{depth, IsCached, IsBalanced, fresh, depth-le-length}
use radix_os.AvlTree.Cells.{
  Cell, cell_of, cells, IsSorted, insert_cell, IsSorted-Split, insert_cell-left, insert_cell-right,
  insert_cell-duplicate, insert_cell-IsSorted,
}
use radix_os.AvlTree.Rotate.{IsSmall, rebalance_insert-even}
use radix_os.AvlTree.Rebalance.{
  rebalance_insert-left_left, rebalance_insert-left_right, rebalance_insert-right_right,
  rebalance_insert-right_left,
}

-- An insertion of `k` that made the tree deeper went to its deeper side.
abbrev Leans : ℕ → Tree → Type 0
Leans k leaf = ⊥
Leans k (node a x b) =
    ((k < key_of x) × (depth a ≡ depth b + 1))
    ⊎ ((key_of x < k) × (depth b ≡ depth a + 1))
    ⊎ ((depth a ≡ 0) × (depth b ≡ 0))

abbrev Grown : ℕ → ℕ → Tree → Type 0
Grown k d t' = (depth t' ≡ d) ⊎ ((depth t' ≡ d + 1) × Leans k t')

-- What an insertion of `k` leaves, from a tree of depth `d`, where it should hold `cs`.
record Inserted (k d : ℕ) (cs : List Cell) (t' : Tree) : Type 0 where
  cached : IsCached t'
  balanced : IsBalanced t'
  content : cells t' ≡ cs
  grown : Grown k d t'

module _ (k : ℕ) (n : Node) where
  -- Both ways to have no rotation.
  keep_shape :
      (l r : Tree) (d : ℕ)
      → IsSmall l
      → IsSmall r
      → IsBalanced l
      → IsBalanced r
      → depth l ≤ depth r + 1
      → depth r ≤ depth l + 1
      → Grown k d (fresh l n r)
      → (t' : Tree) × (rebalance_insert k l n r ≡ some t')
        × Inserted k d (cells l ++ (cell_of n ∷ cells r)) t'
  keep_shape l r d sl sr bl br h h' g = (
    fresh l n r,
    rebalance_insert-even l n r sl sr k h h',
    record {
      cached = (sl.cached, sr.cached, refl, refl);
      balanced = (bl, br, h, h');
      content = refl;
      grown = g;
    },
  )

  heavy_left :
      (l r : Tree)
      → IsSmall l
      → IsSmall r
      → IsBalanced l
      → IsBalanced r
      → depth l ≡ depth r + 2
      → Leans k l
      → (t' : Tree) × (rebalance_insert k l n r ≡ some t')
        × Inserted k (depth r + 2) (cells l ++ (cell_of n ∷ cells r)) t'
  heavy_left leaf r sl sr bl br h lean = absurd lean
  heavy_left (node a x b) r sl sr bl br h (inl (side, deep)) = (
    fresh a x (fresh b n r),
    rebalance_insert-left_left k n a x b r sl sr h side,
    record {
      cached = (sl.cached.0, (sl.cached.1, sr.cached, refl, refl), refl, refl);
      balanced = (bl.0, (bl.1, br, omega arith, omega arith), omega arith, omega arith);
      content = simp append_assoc;
      grown = inl (omega arith);
    },
  )
  heavy_left (node a x leaf) r sl sr bl br h (inr (inl (side, deep))) = absurd (omega arith)
  heavy_left (node a x (node b y c)) r sl sr bl br h (inr (inl (side, deep))) = (
    fresh (fresh a x b) y (fresh c n r),
    rebalance_insert-left_right k n a x b y c r sl sr h side,
    record {
      cached = (
        (sl.cached.0, sl.cached.1.0, refl, refl),
        (sl.cached.1.1, sr.cached, refl, refl),
        refl,
        refl,
      );
      balanced = (
        (bl.0, bl.1.0, omega arith, omega arith),
        (bl.1.1, br, omega arith, omega arith),
        omega arith,
        omega arith,
      );
      content = simp append_assoc;
      grown = inl (omega arith);
    },
  )
  heavy_left (node a x b) r sl sr bl br h (inr (inr flat)) = absurd (omega arith)

  heavy_right :
      (l r : Tree)
      → IsSmall l
      → IsSmall r
      → IsBalanced l
      → IsBalanced r
      → depth r ≡ depth l + 2
      → Leans k r
      → (t' : Tree) × (rebalance_insert k l n r ≡ some t')
        × Inserted k (depth l + 2) (cells l ++ (cell_of n ∷ cells r)) t'
  heavy_right l leaf sl sr bl br h lean = absurd lean
  heavy_right l (node a x b) sl sr bl br h (inr (inl (side, deep))) = (
    fresh (fresh l n a) x b,
    rebalance_insert-right_right k n l a x b sl sr h side,
    record {
      cached = ((sl.cached, sr.cached.0, refl, refl), sr.cached.1, refl, refl);
      balanced = ((bl, br.0, omega arith, omega arith), br.1, omega arith, omega arith);
      content = simp append_assoc;
      grown = inl (omega arith);
    },
  )
  heavy_right l (node leaf x b) sl sr bl br h (inl (side, deep)) = absurd (omega arith)
  heavy_right l (node (node a y b) x c) sl sr bl br h (inl (side, deep)) = (
    fresh (fresh l n a) y (fresh b x c),
    rebalance_insert-right_left k n l a y b x c sl sr h side,
    record {
      cached = (
        (sl.cached, sr.cached.0.0, refl, refl),
        (sr.cached.0.1, sr.cached.1, refl, refl),
        refl,
        refl,
      );
      balanced = (
        (bl, br.0.0, omega arith, omega arith),
        (br.0.1, br.1, omega arith, omega arith),
        omega arith,
        omega arith,
      );
      content = simp append_assoc;
      grown = inl (omega arith);
    },
  )
  heavy_right l (node a x b) sl sr bl br h (inr (inr flat)) = absurd (omega arith)

  grow_left :
      (l l' r : Tree) (cs : List Cell)
      → Inserted k (depth l) cs l'
      → IsSmall r
      → IsBalanced r
      → depth l ≤ depth r + 1
      → depth r ≤ depth l + 1
      → depth l + 1 < 2 ^ 30
      → k < key_of n
      → (t' : Tree) × (rebalance_insert k l' n r ≡ some t')
        × Inserted k (suc (max (depth l) (depth r))) (cs ++ (cell_of n ∷ cells r)) t'
  grow_left l l' r cs i sr br h h' small side = rw (← i.content) (by_growth i.grown)
    where
      by_growth :
          Grown k (depth l) l'
          → (t' : Tree) × (rebalance_insert k l' n r ≡ some t')
            × Inserted k (suc (max (depth l) (depth r))) (cells l' ++ (cell_of n ∷ cells r)) t'
      by_growth (inl same) =
          keep_shape l' r _ (record { cached = i.cached; shallow = omega arith }) sr i.balanced br
            (omega arith) (omega arith) (inl (omega arith))
      by_growth (inr (deep, lean)) =
          let sl' : IsSmall l' = record { cached = i.cached; shallow = omega arith } in
          elim (dec_lt (depth l) (depth r)) [
            | yes p ↦
                keep_shape l' r _ sl' sr i.balanced br (omega arith) (omega arith)
                  (inl (omega arith))
            | no p ↦ elim (dec_le (depth l) (depth r)) [
              | yes q ↦
                  keep_shape l' r _ sl' sr i.balanced br (omega arith) (omega arith)
                    (inr (omega arith, inl (side, omega arith)))
              | no q ↦
                  let e : suc (max (depth l) (depth r)) ≡ depth r + 2 = omega arith in
                  rw e (heavy_left l' r sl' sr i.balanced br (omega arith) lean)
            ]
          ]

  grow_right :
      (l r r' : Tree) (cs : List Cell)
      → Inserted k (depth r) cs r'
      → IsSmall l
      → IsBalanced l
      → depth l ≤ depth r + 1
      → depth r ≤ depth l + 1
      → depth r + 1 < 2 ^ 30
      → key_of n < k
      → (t' : Tree) × (rebalance_insert k l n r' ≡ some t')
        × Inserted k (suc (max (depth l) (depth r))) (cells l ++ (cell_of n ∷ cs)) t'
  grow_right l r r' cs i sl bl h h' small side = rw (← i.content) (by_growth i.grown)
    where
      by_growth :
          Grown k (depth r) r'
          → (t' : Tree) × (rebalance_insert k l n r' ≡ some t')
            × Inserted k (suc (max (depth l) (depth r))) (cells l ++ (cell_of n ∷ cells r')) t'
      by_growth (inl same) =
          keep_shape l r' _ sl (record { cached = i.cached; shallow = omega arith }) bl i.balanced
            (omega arith) (omega arith) (inl (omega arith))
      by_growth (inr (deep, lean)) =
          let sr' : IsSmall r' = record { cached = i.cached; shallow = omega arith } in
          elim (dec_lt (depth r) (depth l)) [
            | yes p ↦
                keep_shape l r' _ sl sr' bl i.balanced (omega arith) (omega arith)
                  (inl (omega arith))
            | no p ↦ elim (dec_le (depth r) (depth l)) [
              | yes q ↦
                  keep_shape l r' _ sl sr' bl i.balanced (omega arith) (omega arith)
                    (inr (omega arith, inr (inl (side, omega arith))))
              | no q ↦
                  let e : suc (max (depth l) (depth r)) ≡ depth l + 2 = omega arith in
                  rw e (heavy_right l r' sl sr' bl i.balanced (omega arith) lean)
            ]
          ]

module _ (ins : Node) (one : ins.height ≡ 1) (end : ins.max_addr ≡ ins.area.end_addr) where
  insert_loop :
      (t : Tree)
      → IsCached t
      → IsBalanced t
      → IsSorted (cells t)
      → depth t + 1 < 2 ^ 30
      → (t' : Tree) × (avl_insert t ins ≡ some t')
        × Inserted (key_of ins) (depth t) (insert_cell (cell_of ins) (cells t)) t'
  unfolding avl_insert insert_cell
  insert_loop leaf c b s small = (
    node leaf ins leaf,
    refl,
    record {
      cached = (tt, tt, one, omega arith);
      balanced = (tt, tt, omega arith, omega arith);
      content = refl;
      grown = inr (refl, inr (inr (refl, refl)));
    },
  )
  insert_loop (node l n r) c b s small =
      let parts = IsSorted-Split (cells l) (cell_of n) (cells r) s in
      let sl : IsSmall l = record { cached = c.0; shallow = omega arith } in
      let sr : IsSmall r = record { cached = c.1; shallow = omega arith } in
      elim (compare-cases (key_of ins) (key_of n)) [
        | inl (e, lt) ↦
            let (l', done, i) = insert_loop l c.0 b.0 parts.left (omega arith) in
            rw
              (
                e,
                avl_insert,
                done,
                insert_cell-left (cell_of ins) (cells l) (cell_of n) (cells r) lt,
              )
              (grow_left (key_of ins) n l l' r _ i sr b.1 b.2 b.3 (omega arith) lt)
        | inr (inl (e, eq)) ↦
            rw
              (
                e,
                avl_insert,
                insert_cell-duplicate (cell_of ins) (cells l) (cell_of n) (cells r) parts.below eq,
              )
              (
                node l n r,
                refl,
                record { cached = c; balanced = b; content = refl; grown = inl refl },
              )
        | inr (inr (e, gt)) ↦
            let (r', done, i) = insert_loop r c.1 b.1 parts.right (omega arith) in
            rw
              (
                e,
                avl_insert,
                done,
                insert_cell-right (cell_of ins) (cells l) (cell_of n) (cells r) parts.below gt,
              )
              (grow_right (key_of ins) n l r r' _ i sl b.0 b.2 b.3 (omega arith) gt)
      ]

-- What `avl_insert` keeps, for every tree that holds fewer nodes than memory has room for.
pub record IsAvl (t : Tree) : Type 0 where
  pub cached : IsCached t
  pub balanced : IsBalanced t
  pub sorted : IsSorted (cells t)

-- On a well-formed tree of fewer than 2^29 nodes `avl_insert` dereferences no null pointer. The
-- tree that it returns is well-formed (sorted, balanced, with the right heights and maxima), and
-- holds the old nodes and the new one in its place, unless its start address was there already.
pub avl_insert_lem :
    (t : Tree) (ins : Node)
    → IsAvl t
    → ins.height ≡ 1
    → ins.max_addr ≡ ins.area.end_addr
    → length (areas t) < 2 ^ 29
    → (t' : Tree) × (avl_insert t ins ≡ some t')
      × IsAvl t'
      × (cells t' ≡ insert_cell (cell_of ins) (cells t))
avl_insert_lem t ins avl one end few =
    let (t', done, i) =
      insert_loop ins one end t avl.cached avl.balanced avl.sorted
        (omega (arith, depth-le-length t)) in
    (
      t',
      done,
      record {
        cached = i.cached;
        balanced = i.balanced;
        sorted = rw i.content (insert_cell-IsSorted (cell_of ins) (cells t) avl.sorted);
      },
      i.content,
    )
