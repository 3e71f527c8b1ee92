-- ===== src/VmContract/Invariant.antt =====
-- What the functions on a contract keep: a well-formed tree of usable areas of which no two
-- intersect.
use radix_os.AvlTree.{areas}
use radix_os.AvlTree.Search.{Misses}
use radix_os.AvlTree.Insert.{IsAvl}
use radix_os.AvlTree.Cells.{key, insert_cell, Cell}
use radix_os.VmArea.{vm_area_intersect, vm_area_is_ok, VmArea}
use radix_os.VmContract.{VmContract}
use radix_os.AvlTree.Areas.{All-erase_area, erase_area}
use radix_os.Base.{All, List, [], arith, length, map, refl, suc, true, ℕ, ◌∷◌, ◌≡◌, ◌≢◌}

abbrev pub IsOk : VmArea → Type 0
IsOk a = vm_area_is_ok a ≡ true

-- no two areas of the list intersect
abbrev pub Apart : List VmArea → Type 0
Apart [] = Unit
Apart (x ∷ xs) = All (Misses x) xs × Apart xs

pub record IsValid (c : VmContract) : Type 0 where
  pub avl : IsAvl c.root
  pub usable : All IsOk (areas c.root)
  pub apart : Apart (areas c.root)

-- `vm_area_intersect` is symmetric.
pub Misses-symm : (a b : VmArea) → Misses a b → Misses b a
unfolding vm_area_intersect
Misses-symm a b h = ground arith

-- Usable areas that miss one another start at different addresses.
pub starts_differ : (a b : VmArea) → IsOk a → IsOk b → Misses a b → a.start_addr ≢ b.start_addr
unfolding vm_area_is_ok vm_area_intersect
starts_differ a b oa ob h = ground arith

module _ (c : Cell) where
  -- A cell that starts elsewhere than all others is inserted for good.
  pub length-insert_cell :
      (xs : List Cell) → All (λ x. key c ≢ key x) xs → length (insert_cell c xs) ≡ suc (length xs)
  unfolding insert_cell
  length-insert_cell [] h = refl
  length-insert_cell (x ∷ xs) h = ground (arith, length-insert_cell xs h.1)

  module _ (P : VmArea → Type 0) where
    pub All-map-insert_cell :
        (xs : List Cell)
        → P c.1
        → All P (map (λ x. x.1) xs)
        → All P (map (λ x. x.1) (insert_cell c xs))
    unfolding insert_cell
    All-map-insert_cell [] p h = (p, tt)
    All-map-insert_cell (x ∷ xs) p h = ground (arith, All-map-insert_cell xs p h.1)

  pub Apart-insert_cell :
      (xs : List Cell)
      → All (Misses c.1) (map (λ x. x.1) xs)
      → Apart (map (λ x. x.1) xs)
      → Apart (map (λ x. x.1) (insert_cell c xs))
  unfolding insert_cell
  Apart-insert_cell [] m h = (tt, tt)
  Apart-insert_cell (x ∷ xs) m h = ground (
    arith,
    Apart-insert_cell xs m.1 h.1,
    All-map-insert_cell (Misses x.1) xs (Misses-symm c.1 x.1 m.0) h.0,
  )

pub Apart-erase_area : (k : ℕ) (xs : List VmArea) → Apart xs → Apart (erase_area k xs)
unfolding erase_area
Apart-erase_area k [] h = tt
Apart-erase_area k (x ∷ xs) h =
    ground (arith, Apart-erase_area k xs h.1, All-erase_area (Misses x) k xs h.0)
