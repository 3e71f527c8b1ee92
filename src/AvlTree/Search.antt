-- ===== src/AvlTree/Search.antt =====
-- `interval_intersect` walks down one branch and still finds an intersecting area whenever there is
-- one.
use radix_os.Base.{
  ℕ, sym, ap, ◌∙◌, ◌≤◌, ◌<◌, ◌≡◌, refl, true, false, none, some, ◌∷◌, arith, inl, inr, ◌⊎◌, All,
  All-append, All-middle, Any, Any-left, Any-right,
}
use native.Mathlib.Decide.{dec_le}
use radix_os.VmArea.{VmArea, vm_area_intersect}
use radix_os.AvlTree.{
  Node, Tree, leaf, node, key_of, is_null, get_node_max, interval_intersect, areas,
}
use radix_os.AvlTree.Shape.{high, IsCached, max-eq-high}
use radix_os.AvlTree.Cells.{Cell, cell_of, key, cells, IsSorted, IsSorted-Split}

abbrev pub Misses : VmArea → VmArea → Type 0
Misses a x = vm_area_intersect x a ≡ false

module _ (a : VmArea) where
  -- a tree that ends before `a` starts
  miss_below : (t : Tree) → high t < a.start_addr → All (Misses a) (areas t)
  unfolding vm_area_intersect
  miss_below leaf h = tt
  miss_below (node l n r) h =
      All-append (Misses a) (areas l) (n.area ∷ areas r) (miss_below l (omega arith))
        (ground arith, miss_below r (omega arith))

  -- a tree that starts behind the end of `a`
  miss_above :
      (m : ℕ) (t : Tree)
      → a.end_addr < m
      → All (λ c. m < key c) (cells t)
      → All (Misses a) (areas t)
  unfolding vm_area_intersect
  miss_above m leaf h s = tt
  miss_above m (node l n r) h s =
      let (sl, sn, sr) = All-middle (λ c. m < key c) (cells l) (cell_of n) (cells r) s in
      All-append (Misses a) (areas l) (n.area ∷ areas r) (miss_above m l h sl)
        (ground arith, miss_above m r h sr)

  -- If a tree that all misses `a` reaches up to the start of `a`, it has an area behind `a`.
  behind :
      (m : ℕ) (t : Tree)
      → is_null t ≡ false
      → a.start_addr ≤ high t
      → All (λ c. key c < m) (cells t)
      → All (Misses a) (areas t)
      → a.end_addr < m
  unfolding vm_area_intersect
  behind m leaf e h s miss = cc
  behind m (node l n r) e h s miss =
      let (sl, sn, sr) = All-middle (λ c. key c < m) (cells l) (cell_of n) (cells r) s in
      let (ml, mn, mr) = All-middle (Misses a) (areas l) n.area (areas r) miss in
      elim (dec_le a.start_addr n.area.end_addr) [
        | yes p ↦ ground arith
        | no p ↦ elim (dec_le a.start_addr (high l)) [
          | yes q ↦ behind m l (not_null l (omega arith)) q sl ml
          | no q ↦ behind m r (not_null r (omega arith)) (omega arith) sr mr
        ]
      ]
    where
      not_null : (u : Tree) → 0 < high u → is_null u ≡ false
      not_null leaf h = absurd (omega arith)
      not_null (node _ _ _) h = refl

  -- The three ways that the search takes at a node.
  step :
      (l : Tree) (n : Node) (r : Tree)
      → ((vm_area_intersect n.area a ≡ true) × (interval_intersect (node l n r) a ≡ some n))
        ⊎ (Misses a n.area
            × (is_null l ≡ false)
            × (a.start_addr ≤ get_node_max l)
            × (interval_intersect (node l n r) a ≡ interval_intersect l a))
        ⊎ (Misses a n.area
            × ((is_null l ≡ true) ⊎ (get_node_max l < a.start_addr))
            × (interval_intersect (node l n r) a ≡ interval_intersect r a))
  unfolding interval_intersect
  step l n r = ground arith

  miss_left :
      (l : Tree)
      → IsCached l
      → (is_null l ≡ true) ⊎ (get_node_max l < a.start_addr)
      → All (Misses a) (areas l)
  miss_left leaf c h = tt
  miss_left (node l n r) c (inl e) = cc
  miss_left (node l n r) c (inr h) =
      miss_below (node l n r) (omega (arith, max-eq-high (node l n r) c))

  -- Where `interval_intersect` finds nothing, no area of the tree intersects `a`.
  pub interval_intersect-none :
      (t : Tree)
      → IsCached t
      → IsSorted (cells t)
      → interval_intersect t a ≡ none
      → All (Misses a) (areas t)
  interval_intersect-none leaf c s h = tt
  interval_intersect-none (node l n r) c s h =
      let parts = IsSorted-Split (cells l) (cell_of n) (cells r) s in
      elim (step l n r) [
        | inl (hit, e) ↦ cc
        | inr (inl (miss, some_left, reach, e)) ↦
            let ml = interval_intersect-none l c.0 parts.left (sym e ∙ h) in
            let gap =
              behind (key_of n) l some_left (omega (arith, max-eq-high l c.0)) parts.below ml in
            All-append (Misses a) (areas l) (n.area ∷ areas r) ml
              (miss, miss_above (key_of n) r gap parts.above)
        | inr (inr (miss, short, e)) ↦
            All-append (Misses a) (areas l) (n.area ∷ areas r) (miss_left l c.0 short)
              (miss, interval_intersect-none r c.1 parts.right (sym e ∙ h))
      ]

  -- What it finds is a node of the tree, and its area intersects `a`.
  pub interval_intersect-some :
      (t : Tree) {n : Node}
      → interval_intersect t a ≡ some n
      → (vm_area_intersect n.area a ≡ true) × Any (λ c. c ≡ cell_of n) (cells t)
  unfolding interval_intersect
  interval_intersect-some leaf h = cc
  interval_intersect-some (node l m r) {n} h =
      let here = λ (c : Cell). c ≡ cell_of n in
      elim (step l m r) [
        | inl (hit, e) ↦
            let same : m ≡ n = cc in
            (rw (← same) hit, Any-right here (cells l) _ (inl (ap cell_of same)))
        | inr (inl (miss, some_left, reach, e)) ↦
            let (hit, found) = interval_intersect-some l (sym e ∙ h) in
            (hit, Any-left here (cells l) _ found)
        | inr (inr (miss, short, e)) ↦
            let (hit, found) = interval_intersect-some r (sym e ∙ h) in
            (hit, Any-right here (cells l) _ (inr found))
      ]
