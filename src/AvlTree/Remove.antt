-- ===== src/AvlTree/Remove.antt =====
-- `avl_remove` on a well-formed tree.
use radix_os.AvlTree.Insert.{IsAvl}
use radix_os.Base.{
  inr, inl, compare-cases, ◌>>=◌, append-nil, ◌==◌, [], length-append, suc, List, length, ℕ, ◌+◌,
  ◌^◌, ◌≤◌, ◌<◌, ◌≡◌, refl, sym, ◌∙◌, ap, compare, Ordering, Bool, true, false, ◌||◌, Option, some,
  none, ◌∷◌, ◌++◌, arith, if◌then◌else◌,
}
use radix_os.VmArea.{VmArea}
use radix_os.AvlTree.{
  adopt, Node, Tree, leaf, node, key_of, is_null, get_node_min_value, rebalance_remove, avl_remove,
  areas,
}
use radix_os.AvlTree.Shape.{depth-le-length, depth, IsCached, IsBalanced}
use radix_os.AvlTree.Cells.{cell_of, cells, IsSorted, IsSorted-Split}
use radix_os.AvlTree.Areas.{
  IsSorted-cells, erase_area-IsSorted, erase_area-absent, get_node_min_value_lem, erase_area-middle,
  sorted_areas, IsSortedAreas, erase_area-right, erase_area, owns, owns_out, Below, Above,
  erase_area-left, All-areas,
}
use radix_os.AvlTree.Rotate.{IsSmall}
use radix_os.AvlTree.Rejoin.{rejoin_even, bad_rotation, rejoin}

-- whether the bad branch is taken with the child that a removal returned
after : Option (Tree × Option Node) → (Tree → Bool) → Bool
after none f = false
after (some (t, out)) f = f t

-- Whether `avl_remove` comes to that branch, here or further down.
unfoldable pub goes_wrong : Tree → VmArea → Bool
unfolding after
goes_wrong leaf a = false
goes_wrong (node l n r) a = elim (compare a.start_addr (key_of n)) [
  | Ordering.lt ↦ goes_wrong l a || after (avl_remove l a) (λ l'. bad_rotation l' n r)
  | Ordering.gt ↦ goes_wrong r a || after (avl_remove r a) (λ r'. bad_rotation l n r')
  | Ordering.eq ↦
      let inner = λ (m : Node).
        goes_wrong r m.area
        || after (avl_remove r m.area) (λ r'. bad_rotation l (record n { area = m.area }) r') in
      if is_null l || is_null r
      then false
      else elim (get_node_min_value r) [ none ↦ false | some m ↦ inner m ]
]

abbrev pub taken : Option Node → ℕ
taken none = 0
taken (some n) = 1

-- What removing the area that starts at `k` from `t` leaves.
pub record Removed (k : ℕ) (t t' : Tree) (out : Option Node) : Type 0 where
  pub cached : IsCached t'
  pub balanced : IsBalanced t'
  pub content : areas t' ≡ erase_area k (areas t)
  pub owned : (p : ℕ) → owns p t ≡ owns p t' + owns_out p out
  pub size : length (areas t) ≡ length (areas t') + taken out
  pub depth_le : depth t' ≤ depth t
  pub depth_ge : depth t ≤ depth t' + 1

abbrev pub Removes : Tree → VmArea → Type 0
Removes t a =
    (t' : Tree) × (out : Option Node) × (avl_remove t a ≡ some (t', out))
    × Removed a.start_addr t t' out

or-false : (b c : Bool) → (b || c) ≡ false → (b ≡ false) × (c ≡ false)
or-false true c h = absurd (cc)
or-false false c h = (refl, h)

-- The parts of a sorted tree, over its areas.
pub record Parts (l : Tree) (n : Node) (r : Tree) : Type 0 where
  pub left : IsSorted (cells l)
  pub right : IsSorted (cells r)
  pub below : Below (key_of n) (areas l)
  pub above : Above (key_of n) (areas r)

parts : (l : Tree) (n : Node) (r : Tree) → IsSorted (cells (node l n r)) → Parts l n r
parts l n r s =
    let p = IsSorted-Split (cells l) (cell_of n) (cells r) s in
    record {
      left = p.left;
      right = p.right;
      below = All-areas (λ x. x.start_addr < key_of n) l p.below;
      above = All-areas (λ x. key_of n < x.start_addr) r p.above;
    }

IsSmall-left_child :
    (l : Tree) (n : Node) (r : Tree)
    → IsCached (node l n r)
    → depth (node l n r) < 2 ^ 30
    → IsSmall l
IsSmall-left_child l n r c d = record { cached = c.0; shallow = omega arith }

IsSmall-right_child :
    (l : Tree) (n : Node) (r : Tree)
    → IsCached (node l n r)
    → depth (node l n r) < 2 ^ 30
    → IsSmall r
IsSmall-right_child l n r c d = record { cached = c.1; shallow = omega arith }

size_node :
    (l : Tree) (n : Node) (r : Tree)
    → length (areas (node l n r)) ≡ suc (length (areas l) + length (areas r))
size_node l n r = omega (arith, length-append {0} (areas l) (n.area ∷ areas r))

size_joined :
    (l : Tree) (n : Node) (r t : Tree)
    → areas t ≡ areas l ++ (n.area ∷ areas r)
    → length (areas t) ≡ suc (length (areas l) + length (areas r))
size_joined l n r t e = ap length e ∙ size_node l n r

-- A removal in the left subtree, and one in the right.
module _ (k : ℕ) (l : Tree) (n : Node) (r : Tree) (c : IsCached (node l n r))
    (b : IsBalanced (node l n r)) (ps : Parts l n r) (d : depth (node l n r) < 2 ^ 30) where
  Removed-left :
      (l' : Tree) (out : Option Node)
      → k < key_of n
      → Removed k l l' out
      → bad_rotation l' n r ≡ false
      → (t : Tree) × (rebalance_remove l' n r ≡ some t) × Removed k (node l n r) t out
  Removed-left l' out h i good =
      let sl' : IsSmall l' = record { cached = i.cached; shallow = omega arith } in
      let (t, done, j) =
        rejoin n l' r sl' (IsSmall-right_child l n r c d) i.balanced b.1 (omega arith) (omega arith)
          good in
      (
        t,
        done,
        record {
          cached = j.cached;
          balanced = j.balanced;
          content =
              j.content
              ∙ ap (λ xs. xs ++ (n.area ∷ areas r)) i.content
              ∙ sym (erase_area-left k n.area (areas r) (areas l) h ps.above);
          owned = λ p. omega (arith, i.owned p, j.owned p);
          size = omega (arith, i.size, size_joined l' n r t j.content, size_node l n r);
          depth_le = grind arith;
          depth_ge = grind arith;
        },
      )

  Removed-right :
      (r' : Tree) (out : Option Node)
      → key_of n < k
      → Removed k r r' out
      → bad_rotation l n r' ≡ false
      → (t : Tree) × (rebalance_remove l n r' ≡ some t) × Removed k (node l n r) t out
  Removed-right r' out h i good =
      let sr' : IsSmall r' = record { cached = i.cached; shallow = omega arith } in
      let (t, done, j) =
        rejoin n l r' (IsSmall-left_child l n r c d) sr' b.0 i.balanced (omega arith) (omega arith)
          good in
      (
        t,
        done,
        record {
          cached = j.cached;
          balanced = j.balanced;
          content =
              j.content
              ∙ ap (λ xs. areas l ++ (n.area ∷ xs)) i.content
              ∙ sym (erase_area-right k n.area (areas r) (areas l) h ps.below);
          owned = λ p. omega (arith, i.owned p, j.owned p);
          size = omega (arith, i.size, size_joined l n r' t j.content, size_node l n r);
          depth_le = grind arith;
          depth_ge = grind arith;
        },
      )

  -- the node itself, its contents taken from its successor `m`
  Removed-root :
      (m : Node) (rest : List VmArea) (r' : Tree) (removed : Node)
      → k ≡ key_of n
      → areas r ≡ m.area ∷ rest
      → Removed (key_of m) r r' (some removed)
      → bad_rotation l (record n { area = m.area }) r' ≡ false
      → (t : Tree) × (rebalance_remove l (record n { area = m.area }) r' ≡ some t)
        × Removed k (node l n r) t (some (record removed { area = n.area }))
  Removed-root m rest r' removed h split i good =
      let sr' : IsSmall r' = record { cached = i.cached; shallow = omega arith } in
      let n' : Node = record n { area = m.area } in
      let (t, done, j) =
        rejoin n' l r' (IsSmall-left_child l n r c d) sr' b.0 i.balanced (omega arith) (omega arith)
          good in
      let sorted : IsSortedAreas (m.area ∷ rest) = rw split at (sorted_areas r ps.right) in
      let shrunk : areas r' ≡ rest =
        i.content
        ∙ ap (erase_area (key_of m)) split
        ∙ erase_area-middle (key_of m) m.area rest [] refl tt sorted.0 in
      (
        t,
        done,
        record {
          cached = j.cached;
          balanced = j.balanced;
          content =
              j.content
              ∙ ap (λ xs. areas l ++ (m.area ∷ xs)) shrunk
              ∙ ap (λ xs. areas l ++ xs) (sym split)
              ∙ sym (erase_area-middle k n.area (areas r) (areas l) h ps.below ps.above);
          owned = λ p. omega (arith, i.owned p, j.owned p);
          size = omega (arith, i.size, size_joined l n' r' t j.content, size_node l n r);
          depth_le = grind arith;
          depth_ge = grind arith;
        },
      )

-- the one child of a node whose other child is null
adopt_lem :
    (n a : Node) (x y : Tree)
    → IsCached (node x a y)
    → IsBalanced (node x a y)
    → depth (node x a y) < 2 ^ 30
    → (t : Tree) × (adopt n (node x a y) ≡ some (t, some (record n { ptr = a.ptr })))
      × IsCached t
      × IsBalanced t
      × (areas t ≡ areas (node x a y))
      × ((p : ℕ)
          → owns p (node x a y) + (if n.ptr == p then 1 else 0)
            ≡ owns p t + (if a.ptr == p then 1 else 0))
      × (depth t ≡ depth (node x a y))
unfolding adopt
adopt_lem n a x y c b d =
    let a' : Node = record a { ptr = n.ptr } in
    let sx = IsSmall-left_child x a y c d in
    let sy = IsSmall-right_child x a y c d in
    let (t, done, j) = rejoin_even a' x y sx sy b.0 b.1 b.2 b.3 in
    (t, rw done, j.cached, j.balanced, j.content, λ p. omega (arith, j.owned p), j.even b.2 b.3)

successor_gone :
    (m : VmArea) (rest : List VmArea) (r : Tree)
    → IsSorted (cells r)
    → areas r ≡ m ∷ rest
    → erase_area m.start_addr (areas r) ≡ rest
successor_gone m rest r s split =
    let sorted : IsSortedAreas (m ∷ rest) = rw split at (sorted_areas r s) in
    ap (erase_area m.start_addr) split ∙ erase_area-middle m.start_addr m rest [] refl tt sorted.0

-- The removal of the successor finds it.
found_some :
    (m : Node) (rest : List VmArea) (r r' : Tree) (out : Option Node)
    → IsSorted (cells r)
    → areas r ≡ m.area ∷ rest
    → Removed (key_of m) r r' out
    → (removed : Node) × (out ≡ some removed)
found_some m rest r r' none s split i = absurd (
    omega (
      arith,
      i.size,
      ap length split,
      ap length (i.content ∙ successor_gone m.area rest r s split),
    ))
found_some m rest r r' (some removed) s split i = (removed, refl)

-- One level of `goes_wrong` and of `avl_remove` at a node with two children.
module _ (l : Tree) (n : Node) (r : Tree) (a : VmArea) (m : Node)
    (e : compare a.start_addr (key_of n) ≡ Ordering.eq) (el : is_null l ≡ false)
    (er : is_null r ≡ false) (found : get_node_min_value r ≡ some m) where
  goes_wrong-two :
      goes_wrong (node l n r) a ≡ false
      → (goes_wrong r m.area
          || after (avl_remove r m.area) (λ r'. bad_rotation l (record n { area = m.area }) r'))
        ≡ false
  unfolding goes_wrong
  goes_wrong-two good = rw (e, goes_wrong, el, er, found) at good

  avl_remove-two :
      (r' : Tree) (removed : Node) (t : Tree)
      → avl_remove r m.area ≡ some (r', some removed)
      → rebalance_remove l (record n { area = m.area }) r' ≡ some t
      → avl_remove (node l n r) a ≡ some (t, some (record removed { area = n.area }))
  unfolding avl_remove
  avl_remove-two r' removed t done joined = rw (e, avl_remove, el, er, found, ◌>>=◌, done, joined)

-- The area to remove is that of a node with two children; `inner` removes the successor.
two_children :
    (l : Tree) (n : Node) (r : Tree) (a : VmArea)
    → IsCached (node l n r)
    → IsBalanced (node l n r)
    → Parts l n r
    → depth (node l n r) < 2 ^ 30
    → compare a.start_addr (key_of n) ≡ Ordering.eq
    → a.start_addr ≡ key_of n
    → is_null l ≡ false
    → is_null r ≡ false
    → goes_wrong (node l n r) a ≡ false
    → ((m : Node) → goes_wrong r m.area ≡ false → Removes r m.area)
    → Removes (node l n r) a
unfolding after
two_children l n r a c b ps d e k el er good inner =
    let (m, rest, found, split) = get_node_min_value_lem r er in
    let (g, g') = or-false (goes_wrong r m.area) _ (goes_wrong-two l n r a m e el er found good) in
    let (r', out, done, i) = inner m g in
    let (removed, got) = found_some m rest r r' out ps.right split i in
    let (t, joined, j) =
      Removed-root a.start_addr l n r c b ps d m rest r' removed k split (rw got at i)
        (rw done at g') in
    (
      t,
      some (record removed { area = n.area }),
      avl_remove-two l n r a m e el er found r' removed t (done ∙ ap (λ o. some (r', o)) got)
          joined,
      j,
    )

-- The area to remove is that of the node `n`; `inner` is the removal of the successor.
root_case :
    (l : Tree) (n : Node) (r : Tree) (a : VmArea)
    → IsCached (node l n r)
    → IsBalanced (node l n r)
    → Parts l n r
    → depth (node l n r) < 2 ^ 30
    → compare a.start_addr (key_of n) ≡ Ordering.eq
    → a.start_addr ≡ key_of n
    → goes_wrong (node l n r) a ≡ false
    → ((m : Node) → goes_wrong r m.area ≡ false → Removes r m.area)
    → Removes (node l n r) a
unfolding avl_remove
root_case leaf n leaf a c b ps d e k good inner = (
  leaf,
  some n,
  rw (e, avl_remove),
  record {
    cached = tt;
    balanced = tt;
    content = sym (erase_area-middle a.start_addr n.area [] [] k tt tt);
    owned = λ p. omega arith;
    size = refl;
    depth_le = omega arith;
    depth_ge = omega arith;
  },
)
root_case leaf n (node x m y) a c b ps d e k good inner =
    let (t, done, cached, balanced, content, owned, deep) =
      adopt_lem n m x y c.1 b.1 (omega arith) in
    (
      t,
      some (record n { ptr = m.ptr }),
      rw (e, avl_remove) done,
      record {
        cached = cached;
        balanced = balanced;
        content =
            content
            ∙ sym (erase_area-middle a.start_addr n.area (areas (node x m y)) [] k tt ps.above);
        owned = λ p. omega (arith, owned p);
        size = omega (arith, ap length content);
        depth_le = omega arith;
        depth_ge = omega arith;
      },
    )
root_case (node x m y) n leaf a c b ps d e k good inner =
    let (t, done, cached, balanced, content, owned, deep) =
      adopt_lem n m x y c.0 b.0 (omega arith) in
    (
      t,
      some (record n { ptr = m.ptr }),
      rw (e, avl_remove) done,
      record {
        cached = cached;
        balanced = balanced;
        content =
            content
            ∙ sym (
                erase_area-middle a.start_addr n.area [] (areas (node x m y)) k ps.below tt
                ∙ append-nil (areas (node x m y)));
        owned = λ p. omega (arith, owned p);
        size = omega (arith, ap length content, size_node (node x m y) n leaf);
        depth_le = omega arith;
        depth_ge = omega arith;
      },
    )
root_case (node la ln lb) n (node ra rn rb) a c b ps d e k good inner =
    two_children (node la ln lb) n (node ra rn rb) a c b ps d e k refl refl good inner

remove_loop :
    (t : Tree) (a : VmArea)
    → IsCached t
    → IsBalanced t
    → IsSorted (cells t)
    → depth t < 2 ^ 30
    → goes_wrong t a ≡ false
    → Removes t a
unfolding avl_remove goes_wrong after
remove_loop leaf a c b s d good = (
  leaf,
  none,
  refl,
  record {
    cached = tt;
    balanced = tt;
    content = sym (erase_area-absent a.start_addr [] tt);
    owned = λ p. refl;
    size = refl;
    depth_le = omega arith;
    depth_ge = omega arith;
  },
)
remove_loop (node l n r) a c b s d good =
    let ps = parts l n r s in
    elim (compare-cases a.start_addr (key_of n)) [
      | inl (e, lt) ↦
          let (g, g') = or-false (goes_wrong l a) _ (rw (e, goes_wrong) at good) in
          let (l', out, done, i) = remove_loop l a c.0 b.0 ps.left (omega arith) g in
          let (t, joined, j) =
            Removed-left a.start_addr l n r c b ps d l' out lt i (rw (done, after) at g') in
          (t, out, rw (e, avl_remove, done, joined), j)
      | inr (inl (e, k)) ↦
          root_case l n r a c b ps d e k good
            (λ m. remove_loop r m.area c.1 b.1 ps.right (omega arith))
      | inr (inr (e, gt)) ↦
          let (g, g') = or-false (goes_wrong r a) _ (rw (e, goes_wrong) at good) in
          let (r', out, done, i) = remove_loop r a c.1 b.1 ps.right (omega arith) g in
          let (t, joined, j) =
            Removed-right a.start_addr l n r c b ps d r' out gt i (rw (done, after) at g') in
          (t, out, rw (e, avl_remove, done, joined), j)
    ]

-- On a well-formed tree of fewer than 2^29 nodes, and unless it comes to its bad branch,
-- `avl_remove` dereferences no null pointer, and the tree that it returns is well-formed and holds
-- all areas but the one that starts where `a` does. Every node that the tree owned is still owned
-- as often, by the new tree or by `*removed_node`, and there is such a node just where an area is
-- gone.
pub avl_remove_lem :
    (t : Tree) (a : VmArea)
    → IsAvl t
    → length (areas t) < 2 ^ 29
    → goes_wrong t a ≡ false
    → (t' : Tree) × (out : Option Node) × (avl_remove t a ≡ some (t', out))
      × IsAvl t'
      × (areas t' ≡ erase_area a.start_addr (areas t))
      × ((p : ℕ) → owns p t ≡ owns p t' + owns_out p out)
      × (length (areas t) ≡ length (areas t') + taken out)
avl_remove_lem t a avl few good =
    let (t', out, done, i) =
      remove_loop t a avl.cached avl.balanced avl.sorted (omega (arith, depth-le-length t)) good in
    let sorted = erase_area-IsSorted a.start_addr (areas t) (sorted_areas t avl.sorted) in
    (
      t',
      out,
      done,
      record {
        cached = i.cached;
        balanced = i.balanced;
        sorted = IsSorted-cells t' (rw i.content sorted);
      },
      i.content,
      i.owned,
      i.size,
    )
