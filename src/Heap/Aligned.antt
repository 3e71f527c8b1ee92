-- ===== src/Heap/Aligned.antt =====
-- `heap_alloc_a` and `heap_free_a`, which keep the padding of an aligned area in the word before it.
-- `words` gives the 32-bit words that the kernel has stored in the areas.
use native.Mathlib.Decide.{ℕ_discrete}
use native.Mathlib.Nat.{mod-add-mod, mod-lt, mod_self}
use radix_os.Base.{
  ◌⊎◌, Bool-cases, List, Option, [], ap, arith, false, if◌then◌else◌, inl, inr, not, refl, some,
  subst, sym, true, ℕ, ◌%◌, ◌++◌, ◌+◌, ◌-◌, ◌<◌, ◌==◌, ◌^◌, ◌∙◌, ◌∷◌, ◌≡◌, ◌≤◌,
}
use radix_os.Exec.{Run, done, panicked, ◌>>=◌}
use radix_os.Heap.{Heap, heap_alloc, heap_free}
use radix_os.Heap.Chain.{Seg}
use radix_os.Heap.Areas.{Area, areas, IsApart}
use radix_os.Heap.Fit.{IsHeap, Fit, failed, placed, heap_alloc_lem}

-- A division by 0 is a fault.
pub heap_alloc_a : Option Heap → (ℕ → ℕ) → ℕ → ℕ → Run (ℕ × Option Heap × (ℕ → ℕ))
heap_alloc_a h words r_size align = heap_alloc h ((r_size + align + 4) % 2 ^ 32) >>= λ (mem, t).
    let rem = (mem + 4) % 2 ^ 32 % align in
    let padding = if not (rem == 0) then align - rem else 0 in
    let ret_ptr = ((mem + 4) % 2 ^ 32 + padding) % 2 ^ 32 in
    let slot = (ret_ptr + 2 ^ 32 - 4) % 2 ^ 32 in
    if align == 0 then panicked else done (ret_ptr, t, λ q. if q == slot then padding else words q)

pub heap_free_a : Option Heap → (ℕ → ℕ) → ℕ → ℕ × Option Heap
heap_free_a h words address =
    let pad = words ((address + 2 ^ 32 - 4) % 2 ^ 32) in
    heap_free h ((address + 2 ^ 32 + 2 ^ 32 - pad - 4) % 2 ^ 32)

padded : (m d : ℕ) → 0 < d → (m + (if not (m % d == 0) then d - m % d else 0)) % d ≡ 0
padded m d pos = elim (Bool-cases (m % d == 0)) [
  | inl zero_rem ↦ let same : m + 0 ≡ m = omega arith in rw (zero_rem, same) (ground arith)
  | inr some_rem ↦
      let sum : m % d + (d - m % d) ≡ d = omega (arith, mod-lt m pos) in
      rw some_rem (sym (mod-add-mod m d (d - m % d)) ∙ ap (λ x. x % d) sum ∙ mod_self d)
]

padding_le : (m d : ℕ) → 0 < d → (if not (m % d == 0) then d - m % d else 0) ≤ d
padding_le m d pos = ground arith

IsApart-le : (lo hi : ℕ) (l : List Area) → IsApart lo hi l → lo ≤ hi
IsApart-le lo hi [] h = h
IsApart-le lo hi ((a, n) ∷ l) (p, h) = omega (arith, IsApart-le (a + n) hi l h)

IsApart-end : (lo hi a k : ℕ) (xs ys : List Area) → IsApart lo hi (xs ++ (a, k) ∷ ys) → a + k ≤ hi
IsApart-end lo hi a k [] ys (p, h) = IsApart-le (a + k) hi ys h
IsApart-end lo hi a k ((b, n) ∷ xs) ys (p, h) = IsApart-end (b + n) hi a k xs ys h

Fit-end :
    (r lo hi a : ℕ) (before after : List Area) (l : List Seg)
    → Fit r before after l a
    → IsApart lo hi after
    → 0 < a
    → a + r ≤ hi
Fit-end r lo hi a before after l (failed z _ _) apart pos = absurd (omega arith)
Fit-end r lo hi a before after l (placed xs ys k _ fits _ e) apart pos =
    omega (arith, IsApart-end lo hi a k xs ys (subst (IsApart lo hi) e apart))

-- The padding that `heap_alloc_a` computes for a block at `a`.
abbrev padding_at : ℕ → ℕ → ℕ
padding_at a align =
    if not ((a + 4) % 2 ^ 32 % align == 0) then align - (a + 4) % 2 ^ 32 % align else 0

-- What holds of an aligned address `ret` in the area at `a`.
abbrev pub Kept : ℕ → ℕ → ℕ → ℕ → (ℕ → ℕ) → Type 0
Kept r align a ret w =
    (ret % align ≡ 0)
    × (a + 4 ≤ ret)
    × (ret + r ≤ a + (r + align + 4))
    × ((u : Option Heap) → heap_free_a u w ret ≡ heap_free u a)

Kept-padded :
    (r align a pad ret : ℕ) (words : ℕ → ℕ)
    → a + (r + align + 4) < 2 ^ 32
    → pad ≤ align
    → ret ≡ a + 4 + pad
    → ret % align ≡ 0
    → Kept r align a ret (λ q. if q == (ret + 2 ^ 32 - 4) % 2 ^ 32 then pad else words q)
unfolding heap_free_a
Kept-padded r align a pad ret words room le e aligned =
    let slot : ((ret + 2 ^ 32 - 4) % 2 ^ 32 == (ret + 2 ^ 32 - 4) % 2 ^ 32) ≡ true = ground arith in
    let back : (ret + 2 ^ 32 + 2 ^ 32 - pad - 4) % 2 ^ 32 ≡ a = omega arith in
    (aligned, omega arith, omega arith, λ u. rw (slot, back) refl)

-- On a proper chain, for an alignment other than 0, with a request that does not overflow together
-- with the alignment, `heap_alloc_a` comes back. Unless it got none, the area
-- that `heap_alloc` has made for it holds a word and, behind that, the returned address, which is
-- aligned, and `r` bytes from there on; and `heap_free_a` of the returned address is then
-- `heap_free` of that area.
pub heap_alloc_a_lem :
    (h : Heap) (l : List Seg) (words : ℕ → ℕ) (r align : ℕ)
    → IsHeap h l
    → 0 < align
    → r + align + 4 < 2 ^ 32
    → (a ret : ℕ) × (t : Heap) × (l' : List Seg) × (w : ℕ → ℕ) × (heap_alloc_a
          (some h)
          words
          r
          align
        ≡ done (ret, some t, w))
      × IsHeap t l'
      × Fit (r + align + 4) (areas h.start_address l) (areas h.start_address l') l' a
      × ((a ≡ 0) ⊎ Kept r align a ret w)
unfolding heap_alloc_a
heap_alloc_a_lem h l words r align v pos small =
    let (a, t, l', got, v', start, size, fit, apart) =
      heap_alloc_lem h l (r + align + 4) v (omega arith) in
    let request : (r + align + 4) % 2 ^ 32 ≡ r + align + 4 = omega arith in
    let some_align : (align == 0) ≡ false = ground arith in
    (
      a,
      _,
      t,
      l',
      _,
      rw (request, got, some_align) refl,
      v',
      fit,
      elim (ℕ_discrete a 0) [
        | yes failure ↦ inl failure
        | no success ↦
            let end = Fit-end (r + align + 4) h.start_address _ a _ _ l' fit apart (omega arith) in
            let e : ((a + 4) % 2 ^ 32 + padding_at a align) % 2 ^ 32 ≡ a + 4 + padding_at a align =
              omega (arith, v.blocks.small, padding_le ((a + 4) % 2 ^ 32) align pos) in
            let base : (a + 4) % 2 ^ 32 ≡ a + 4 = omega (arith, v.blocks.small) in
            inr (
              Kept-padded r align a (padding_at a align)
                (((a + 4) % 2 ^ 32 + padding_at a align) % 2 ^ 32) words
                (omega (arith, v.blocks.small)) (padding_le ((a + 4) % 2 ^ 32) align pos) e
                (ap (λ x. x % align) (e ∙ ap (λ x. x + padding_at a align) (sym base))
                  ∙ padded ((a + 4) % 2 ^ 32) align pos))
      ],
    )
