-- ===== src/Heap/Fit.antt =====
-- `heap_alloc` on the areas of the heap.
use radix_os.Base.{
  Bool-cases, List, [], ap, ap₂, arith, false, inl, inr, ltb, ltb→lt, refl, some, subst, suc, sym,
  true, ℕ, ◌++◌, ◌+◌, ◌-◌, ◌<◌, ◌==◌, ◌∙◌, ◌∷◌, ◌≡◌, ◌≤◌,
}
use radix_os.Exec.{done}
use radix_os.Heap.{Heap, alloc_loop, heap_alloc}
use radix_os.Heap.Chain.{Seg, next_of, Suffix, Past, Chain-le}
use radix_os.Heap.Merge.{absorb}
use radix_os.Heap.Take.{taken}
use radix_os.Heap.Areas.{
  Area, areas, areas-at, IsApart, IsApart-areas, StartsUsed, IsFull, absorb-areas,
  absorb-StartsUsed,
}
use radix_os.Heap.Alloc.{Allocates, ended, skipped, Allocates-next, took, too_small, alloc_loop_lem}

-- The heap is the chain of the blocks of the list, from its start to its end.
pub record IsHeap (h : Heap) (l : List Seg) : Type 0 where
  pub start : h.start_address ≡ next_of h.start_address l
  pub blocks : Suffix h (h.start_address + h.size) h.start_address 0 l

-- What an allocation of `r` bytes does to the areas. Either the address is 0, the areas are as
-- before, and there is no free run of `r` bytes; or there is one area more, of `r` bytes or more.
pub data Fit (r : ℕ) (before after : List Area) (l : List Seg) (a : ℕ) : Type 0 where
  failed : a ≡ 0 → after ≡ before → IsFull r l → Fit r before after l a
  placed :
      (xs ys : List Area) (k : ℕ)
      → 0 < a
      → r ≤ k
      → before ≡ xs ++ ys
      → after ≡ xs ++ (a, k) ∷ ys
      → Fit r before after l a

areas-taken :
    (r p n : ℕ) (l : List Seg)
    → r ≤ n
    → (k : ℕ) × (r ≤ k) × (areas p (taken r n l) ≡ (p + 8, k) ∷ areas (p + 8 + n) l)
areas-taken r p n l fits = elim (Bool-cases (ltb (r + 8) n)) [
  | inl cut ↦
      let d : r + 8 < n = ltb→lt (r + 8) n cut in
      let shift : p + 8 + r + 8 + (n - r - 8) ≡ p + 8 + n = omega arith in
      rw cut (r, omega arith, ap (λ x. (p + 8, r) ∷ x) (areas-at _ _ l shift))
  | inr whole ↦ rw whole (n, fits, refl)
]

Allocates-StartsUsed :
    (r p a : ℕ) (l l' : List Seg) → Allocates r p l a l' → StartsUsed l → StartsUsed l'
Allocates-StartsUsed r p a l l' (ended _) h = tt
Allocates-StartsUsed r p a l l' (skipped _ n _ _ _ _) h = refl
Allocates-StartsUsed r p a l l' (took _ n k _) h = absurd (ground (arith, h))
Allocates-StartsUsed r p a l l' (too_small _ n _ _ _ _ _) h = absurd (ground (arith, h))

Fit-after_used :
    (r a : ℕ) (x : Area) (before after : List Area) (n : ℕ) (l : List Seg)
    → Fit r before after l a
    → Fit r (x ∷ before) (x ∷ after) ((true, n) ∷ l) a
Fit-after_used r a x before after n l (failed z e full) = failed z (ap (λ t. x ∷ t) e) full
Fit-after_used r a x before after n l (placed xs ys k pos fits b c) =
    placed (x ∷ xs) ys k pos fits (ap (λ t. x ∷ t) b) (ap (λ t. x ∷ t) c)

Fit-after_free :
    (r a : ℕ) (before after : List Area) (n : ℕ) (l : List Seg)
    → n < r
    → StartsUsed l
    → Fit r before after l a
    → Fit r before after ((false, n) ∷ l) a
Fit-after_free r a before after n l small next (failed z e full) = failed z e (small, next, full)
Fit-after_free r a before after n l small next (placed xs ys k pos fits b c) =
    placed xs ys k pos fits b c

Allocates-Fit :
    (r p a : ℕ) (l l' : List Seg) → Allocates r p l a l' → Fit r (areas p l) (areas p l') l' a
Allocates-Fit r p a l l' (ended _) = failed refl refl tt
Allocates-Fit r p a l l' (skipped _ n _ k k' h) =
    Fit-after_used r a (p + 8, n) _ _ n k' (Allocates-Fit r (p + 8 + n) a k k' h)
Allocates-Fit r p a l l' (took _ n k fits) =
    let (size, enough, e) = areas-taken r p (absorb r n k).0 (absorb r n k).1 fits in
    placed [] (areas (p + 8 + n) k) size (omega arith) enough refl
      (e ∙ ap (λ x. (p + 8, size) ∷ x) (absorb-areas r p n k))
Allocates-Fit r p a l l' (too_small _ n _ k k' small h) =
    Fit-after_free r a (areas (p + 8 + n) k) _ (absorb r n k).0 k' small
      (Allocates-StartsUsed r _ a _ k' h (absorb-StartsUsed r n k small))
      (subst (λ x. Fit r x (areas (p + 8 + (absorb r n k).0) k') k' a) (absorb-areas r p n k)
        (Allocates-Fit r (p + 8 + (absorb r n k).0) a (absorb r n k).1 k' h))

pub IsHeap-again :
    (h t : Heap) (l l' : List Seg)
    → IsHeap h l
    → Past h.start_address h t
    → Suffix t (h.start_address + h.size) h.start_address 0 l'
    → next_of h.start_address l' ≡ next_of h.start_address l
    → IsHeap t l'
IsHeap-again h t l l' v past s same =
    let bottom : h.start_address ≡ t.start_address = sym past.start in
    let top : h.start_address + h.size ≡ t.start_address + t.size =
      ap₂ (λ x y. x + y) bottom (sym past.size) in
    record {
      start = past.start ∙ v.start ∙ sym same ∙ ap (λ q. next_of q l') bottom;
      blocks =
          subst (λ q. Suffix t (t.start_address + t.size) q 0 l') bottom
            (subst (λ q. Suffix t q h.start_address 0 l') top s);
    }

-- On a heap that is a proper chain of blocks, and for a request of at least one byte, `heap_alloc`
-- comes back, and leaves a proper chain in the same place. If it returns 0, the used areas are as
-- before and nowhere are there so many bytes free in a run. Else it returns the address of a new
-- area of at least so many bytes, the others being as before; the areas do not overlap, and lie in
-- the heap.
pub heap_alloc_lem :
    (h : Heap) (l : List Seg) (r : ℕ)
    → IsHeap h l
    → 0 < r
    → (a : ℕ) × (t : Heap) × (l' : List Seg) × (heap_alloc (some h) r ≡ done (a, some t))
      × IsHeap t l'
      × (t.start_address ≡ h.start_address)
      × (t.size ≡ h.size)
      × Fit r (areas h.start_address l) (areas h.start_address l') l' a
      × IsApart h.start_address (h.start_address + h.size) (areas h.start_address l')
unfolding heap_alloc alloc_loop
heap_alloc_lem h l r v pos =
    let le = Chain-le h.mem (h.start_address + h.size) h.start_address l v.blocks.chain in
    let e = h.start_address + h.size in
    let (a, t, l', got, s, past, how) =
      alloc_loop_lem (suc h.size) h e h.start_address 0 r l v.blocks (omega arith) (omega arith) in
    let some_bytes : (r == 0) ≡ false = ground arith in
    let loop : alloc_loop (suc h.size) h h.start_address r ≡ done (a, t) =
      ap (λ q. alloc_loop (suc h.size) h q r) v.start ∙ got in
    (
      a,
      t,
      l',
      rw (some_bytes, loop) refl,
      IsHeap-again h t l l' v past s (Allocates-next r h.start_address h.start_address a l l' how),
      past.start,
      past.size,
      Allocates-Fit r h.start_address a l l' how,
      IsApart-areas t.mem e h.start_address l' s.chain,
    )
