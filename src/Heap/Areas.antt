-- ===== src/Heap/Areas.antt =====
-- What the user of the heap sees: the areas of the used blocks.
use radix_os.Base.{
  Bool-cases, List, [], ap, arith, false, inl, inr, length, ltb, refl, true, ℕ, ◌+◌, ◌<◌, ◌∙◌, ◌∷◌,
  ◌≡◌, ◌≤◌,
}
use radix_os.Heap.{HeapBlock}
use radix_os.Heap.Chain.{Seg, Chain}
use radix_os.Heap.Merge.{absorb}

-- an address with the number of bytes from there on
abbrev pub Area : Type 0
Area = ℕ × ℕ

-- the areas of the used blocks of the chain that starts at `p`
abbrev pub areas : ℕ → List Seg → List Area
areas p [] = []
areas p ((true, n) ∷ l) = (p + 8, n) ∷ areas (p + 8 + n) l
areas p ((false, n) ∷ l) = areas (p + 8 + n) l

-- The areas lie one behind the other between `lo` and `hi`, with room for a header before each.
abbrev pub IsApart : ℕ → ℕ → List Area → Type 0
IsApart lo hi [] = lo ≤ hi
IsApart lo hi ((a, n) ∷ l) = (lo + 8 ≤ a) × IsApart (a + n) hi l

IsApart-from : (lo lo' hi : ℕ) (l : List Area) → lo ≤ lo' → IsApart lo' hi l → IsApart lo hi l
IsApart-from lo lo' hi [] d h = omega arith
IsApart-from lo lo' hi ((a, n) ∷ l) d (p, h) = (omega arith, h)

pub IsApart-areas :
    (m : ℕ → HeapBlock) (e p : ℕ) (l : List Seg) → Chain m e p l → IsApart p e (areas p l)
IsApart-areas m e p [] h = omega arith
IsApart-areas m e p ((true, n) ∷ l) (b, h) = (omega arith, IsApart-areas m e (p + 8 + n) l h)
IsApart-areas m e p ((false, n) ∷ l) (b, h) =
    IsApart-from p (p + 8 + n) e _ (omega arith) (IsApart-areas m e (p + 8 + n) l h)

-- The first block, if there is one, is used.
abbrev pub StartsUsed : List Seg → Type 0
StartsUsed [] = Unit
StartsUsed ((u, n) ∷ l) = u ≡ true

-- Each free block has less than `r` bytes, and no two of them are neighbours.
abbrev pub IsFull : ℕ → List Seg → Type 0
IsFull r [] = Unit
IsFull r ((true, n) ∷ l) = IsFull r l
IsFull r ((false, n) ∷ l) = (n < r) × StartsUsed l × IsFull r l

pub areas-at : (p q : ℕ) (l : List Seg) → p ≡ q → areas p l ≡ areas q l
areas-at p q l d = ap (λ x. areas x l) d

pub absorb-areas :
    (r p n : ℕ) (l : List Seg)
    → areas (p + 8 + (absorb r n l).0) (absorb r n l).1 ≡ areas (p + 8 + n) l
absorb-areas r p n [] = refl
absorb-areas r p n ((true, m) ∷ l) = refl
absorb-areas r p n ((false, m) ∷ l) = elim (Bool-cases (ltb n r)) [
  | inl small ↦
      let shift : p + 8 + (n + 8 + m) ≡ p + 8 + n + 8 + m = omega arith in
      rw small (absorb-areas r p (n + 8 + m) l ∙ areas-at _ _ l shift)
  | inr large ↦ rw large refl
]

pub absorb-StartsUsed :
    (r n : ℕ) (l : List Seg) → (absorb r n l).0 < r → StartsUsed (absorb r n l).1
absorb-StartsUsed r n [] h = tt
absorb-StartsUsed r n ((true, m) ∷ l) h = refl
absorb-StartsUsed r n ((false, m) ∷ l) h = elim (Bool-cases (ltb n r)) [
  | inl small ↦ rw small (absorb-StartsUsed r (n + 8 + m) l (rw small at h))
  | inr large ↦ absurd (ground (arith, (rw large at h)))
]

pub length-absorb : (r n : ℕ) (l : List Seg) → length (absorb r n l).1 ≤ length l
length-absorb r n [] = omega arith
length-absorb r n ((true, m) ∷ l) = omega arith
length-absorb r n ((false, m) ∷ l) = elim (Bool-cases (ltb n r)) [
  | inl small ↦ rw small (omega (arith, length-absorb r (n + 8 + m) l))
  | inr large ↦ rw large (omega arith)
]
