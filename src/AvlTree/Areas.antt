-- ===== src/AvlTree/Areas.antt =====
-- The areas of a tree as a sorted list, what removing one leaves, and who owns the nodes.
use radix_os.Base.{
  ℕ, suc, ◌+◌, ◌<◌, ◌≡◌, ◌≢◌, refl, ap, map, Option, none, some, List, [], ◌∷◌, ◌++◌, arith, ◌==◌,
  if◌then◌else◌, All, All-append, All-middle,
}
use mathlib.Core.List.{map-append}
use radix_os.VmArea.{VmArea}
use radix_os.AvlTree.{Node, Tree, leaf, node, get_node_min_value, is_null, areas}
use radix_os.AvlTree.Cells.{Cell, cell_of, key, cells, IsSorted}
use radix_os.Base.{false, true}

-- strictly, by start address
abbrev pub IsSortedAreas : List VmArea → Type 0
IsSortedAreas [] = Unit
IsSortedAreas (x ∷ xs) = All (λ y. x.start_addr < y.start_addr) xs × IsSortedAreas xs

-- the areas but those that start at `k`
unfoldable pub erase_area : ℕ → List VmArea → List VmArea
erase_area k [] = []
erase_area k (x ∷ xs) = if k == x.start_addr then erase_area k xs else x ∷ erase_area k xs

-- how often the address `p` is owned by the tree, and by a node that was taken out
abbrev pub owns : ℕ → Tree → ℕ
owns p leaf = 0
owns p (node l n r) = owns p l + (if n.ptr == p then 1 else 0) + owns p r

abbrev pub owns_out : ℕ → Option Node → ℕ
owns_out p none = 0
owns_out p (some n) = if n.ptr == p then 1 else 0

module _ {ℓ} (P : VmArea → Type ℓ) where
  pub All-areas : (t : Tree) → All (λ (c : Cell). P c.1) (cells t) → All P (areas t)
  All-areas leaf h = tt
  All-areas (node l n r) h =
      let (hl, hn, hr) = All-middle (λ (c : Cell). P c.1) (cells l) (cell_of n) (cells r) h in
      All-append P (areas l) (n.area ∷ areas r) (All-areas l hl) (hn, All-areas r hr)

  pub All-cells : (t : Tree) → All P (areas t) → All (λ (c : Cell). P c.1) (cells t)
  All-cells leaf h = tt
  All-cells (node l n r) h =
      let (hl, hn, hr) = All-middle P (areas l) n.area (areas r) h in
      All-append (λ (c : Cell). P c.1) (cells l) (cell_of n ∷ cells r) (All-cells l hl)
        (hn, All-cells r hr)

pub erase_area-absent :
    (k : ℕ) (xs : List VmArea) → All (λ x. k ≢ x.start_addr) xs → erase_area k xs ≡ xs
unfolding erase_area
erase_area-absent k [] h = refl
erase_area-absent k (x ∷ xs) h = ground (arith, erase_area-absent k xs h.1)

abbrev pub Below : ℕ → List VmArea → Type 0
Below k xs = All (λ x. x.start_addr < k) xs

abbrev pub Above : ℕ → List VmArea → Type 0
Above k xs = All (λ x. k < x.start_addr) xs

absent-Above :
    (k m : ℕ) (xs : List VmArea) → k < suc m → Above m xs → All (λ x. k ≢ x.start_addr) xs
absent-Above k m [] h a = tt
absent-Above k m (x ∷ xs) h a = (omega arith, absent-Above k m xs h a.1)

absent-Below :
    (k m : ℕ) (xs : List VmArea) → m < suc k → Below m xs → All (λ x. k ≢ x.start_addr) xs
absent-Below k m [] h a = tt
absent-Below k m (x ∷ xs) h a = (omega arith, absent-Below k m xs h a.1)

module _ (k : ℕ) (d : VmArea) (ys : List VmArea) where
  pub erase_area-left :
      (xs : List VmArea)
      → k < d.start_addr
      → Above d.start_addr ys
      → erase_area k (xs ++ (d ∷ ys)) ≡ erase_area k xs ++ (d ∷ ys)
  unfolding erase_area
  erase_area-left [] h a =
      ground (arith, erase_area-absent k ys (absent-Above k d.start_addr ys (omega arith) a))
  erase_area-left (x ∷ xs) h a = ground (arith, erase_area-left xs h a)

  pub erase_area-right :
      (xs : List VmArea)
      → d.start_addr < k
      → Below d.start_addr xs
      → erase_area k (xs ++ (d ∷ ys)) ≡ xs ++ (d ∷ erase_area k ys)
  unfolding erase_area
  erase_area-right [] h b = ground arith
  erase_area-right (x ∷ xs) h b = ground (arith, erase_area-right xs h b.1)

  pub erase_area-middle :
      (xs : List VmArea)
      → k ≡ d.start_addr
      → Below d.start_addr xs
      → Above d.start_addr ys
      → erase_area k (xs ++ (d ∷ ys)) ≡ xs ++ ys
  unfolding erase_area
  erase_area-middle [] h b a =
      ground (arith, erase_area-absent k ys (absent-Above k d.start_addr ys (omega arith) a))
  erase_area-middle (x ∷ xs) h b a = ground (arith, erase_area-middle xs h b.1 a)

pub All-erase_area {ℓ} :
    (P : VmArea → Type ℓ) (k : ℕ) (xs : List VmArea) → All P xs → All P (erase_area k xs)
unfolding erase_area
All-erase_area P k [] h = tt
All-erase_area P k (x ∷ xs) h =
    elim (k == x.start_addr) as (λ b. All P (if b then erase_area k xs else x ∷ erase_area k xs)) [
      | true ↦ All-erase_area P k xs h.1
      | false ↦ (h.0, All-erase_area P k xs h.1)
    ]

pub erase_area-IsSorted :
    (k : ℕ) (xs : List VmArea) → IsSortedAreas xs → IsSortedAreas (erase_area k xs)
unfolding erase_area
erase_area-IsSorted k [] s = tt
erase_area-IsSorted k (x ∷ xs) s = ground (
  arith,
  erase_area-IsSorted k xs s.1,
  All-erase_area (λ y. x.start_addr < y.start_addr) k xs s.0,
)

-- The two readings of "sorted" agree.
module _ {ℓ} (P : VmArea → Type ℓ) where
  All-map : (cs : List Cell) → All (λ c. P c.1) cs → All P (map (λ c. c.1) cs)
  All-map [] h = tt
  All-map (c ∷ cs) h = (h.0, All-map cs h.1)

  All-of_map : (cs : List Cell) → All P (map (λ c. c.1) cs) → All (λ c. P c.1) cs
  All-of_map [] h = tt
  All-of_map (c ∷ cs) h = (h.0, All-of_map cs h.1)

sorted_map : (cs : List Cell) → IsSorted cs → IsSortedAreas (map (λ c. c.1) cs)
sorted_map [] s = tt
sorted_map (c ∷ cs) s = (All-map (λ y. key c < y.start_addr) cs s.0, sorted_map cs s.1)

IsSorted-of_map : (cs : List Cell) → IsSortedAreas (map (λ c. c.1) cs) → IsSorted cs
IsSorted-of_map [] s = tt
IsSorted-of_map (c ∷ cs) s = (All-of_map (λ y. key c < y.start_addr) cs s.0, IsSorted-of_map cs s.1)

pub map-cells : (t : Tree) → map (λ c. c.1) (cells t) ≡ areas t
map-cells leaf = refl
map-cells (node l n r) = simp (map-append, map-cells l, map-cells r)

pub sorted_areas : (t : Tree) → IsSorted (cells t) → IsSortedAreas (areas t)
sorted_areas t s = rw map-cells at (sorted_map (cells t) s)

pub IsSorted-cells : (t : Tree) → IsSortedAreas (areas t) → IsSorted (cells t)
IsSorted-cells t s = IsSorted-of_map (cells t) (rw map-cells s)

-- A tree that is not null has a least area, and `get_node_min_value` returns its node.
pub get_node_min_value_lem :
    (t : Tree)
    → is_null t ≡ false
    → (m : Node) × (rest : List VmArea) × (get_node_min_value t ≡ some m)
      × (areas t ≡ m.area ∷ rest)
unfolding get_node_min_value
get_node_min_value_lem leaf h = cc
get_node_min_value_lem (node leaf n r) h = (n, areas r, refl, refl)
get_node_min_value_lem (node (node a x b) n r) h =
    let (m, rest, found, split) = get_node_min_value_lem (node a x b) refl in
    (m, rest ++ (n.area ∷ areas r), found, ap (λ xs. xs ++ (n.area ∷ areas r)) split)
