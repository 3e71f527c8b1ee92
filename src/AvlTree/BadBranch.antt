-- ===== src/AvlTree/BadBranch.antt =====
-- The bad branch of `avl_remove`: it rotates and returns `root->left` in place of `root`.
use radix_os.AvlTree.Rotate.{IsSmall}
use radix_os.AvlTree.Shape.{IsCached}
use radix_os.AvlTree.Rejoin.{bad_rotation-inward, rebalance_remove-bad, bad_rotation}
use radix_os.AvlTree.{
  avl_rotate_right, key_of, leaf, rebalance_remove, node, areas, refresh, Node, avl_rotate_left,
  Tree, avl_remove,
}
use radix_os.Base.{
  Option, append_assoc, arith, compare-cases, inl, inr, none, refl, some, sym, true, ◌<◌, ◌>>=◌,
  ◌∙◌, ◌≡◌,
}

avl_rotate_left-areas : (l t : Tree) → avl_rotate_left l ≡ some t → areas t ≡ areas l
unfolding avl_rotate_left refresh
avl_rotate_left-areas leaf t h = cc
avl_rotate_left-areas (node l n leaf) t h = cc
avl_rotate_left-areas (node l n (node x y b)) t h =
    let e : refresh (refresh l n x) y b ≡ t = cc in rw (← e) (simp append_assoc)

>>=_ignored : (o : Option Tree) (p : Option Tree) (t : Tree) → (o >>= λ _. p) ≡ some t → p ≡ some t
>>=_ignored none p t h = cc
>>=_ignored (some x) p t h = h

-- In the bad branch of `avl_remove` the node and its right subtree are lost: what is returned, if
-- anything, holds the areas of the left subtree alone.
pub bad_rotation_loses :
    (l : Tree) (n : Node) (r t : Tree)
    → bad_rotation l n r ≡ true
    → rebalance_remove l n r ≡ some t
    → areas t ≡ areas l
bad_rotation_loses l n r t bad h = avl_rotate_left-areas l t (
    >>=_ignored (avl_rotate_right r) (avl_rotate_left l) t
      (sym (rebalance_remove-bad l n r bad) ∙ h))

remove_only : (m : Node) → avl_remove (node leaf m leaf) m.area ≡ some (leaf, some m)
unfolding avl_remove
remove_only m = ground arith

-- A left child with no children of its own, and a right child that has only a left one: taking out
-- the left child dereferences a null pointer, whatever the areas are.
pub avl_remove-faults :
    (m n y x : Node)
    → IsCached (node (node leaf m leaf) n (node (node leaf y leaf) x leaf))
    → key_of m < key_of n
    → avl_remove (node (node leaf m leaf) n (node (node leaf y leaf) x leaf)) m.area ≡ none
unfolding avl_remove avl_rotate_left avl_rotate_right
avl_remove-faults m n y x c h =
    let r = node (node leaf y leaf) x leaf in
    let sl : IsSmall leaf = record { cached = tt; shallow = omega arith } in
    let sr : IsSmall r = record { cached = c.1; shallow = omega arith } in
    elim (compare-cases (key_of m) (key_of n)) [
      | inl (e, _) ↦
          rw (e, avl_remove, remove_only m, rebalance_remove-bad leaf n r (bad sl sr)) refl
      | inr (inl (_, k)) ↦ absurd (omega arith)
      | inr (inr (_, k)) ↦ absurd (omega arith)
    ]
  where
    bad :
        IsSmall leaf
        → IsSmall (node (node leaf y leaf) x leaf)
        → bad_rotation leaf n (node (node leaf y leaf) x leaf) ≡ true
    bad sl sr =
        bad_rotation-inward leaf n (node leaf y leaf) x leaf sl sr (omega arith) (omega arith)
