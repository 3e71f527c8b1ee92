-- ===== src/Heap/Take.antt =====
-- The cut of a block in two, and what `heap_alloc` makes of a block that it takes.
use radix_os.Base.{
  Bool-cases, List, ap, arith, false, if◌then◌else◌, inl, inr, length, ltb, ltb→lt, refl, suc, true,
  ℕ, ◌%◌, ◌+◌, ◌-◌, ◌<◌, ◌==◌, ◌^◌, ◌∙◌, ◌∷◌, ◌≡◌, ◌≤◌,
}
use radix_os.Heap.{Heap, heap_block_magic, put, squeeze, take_block, heap_block_t_create}
use radix_os.Heap.Chain.{
  Seg, Suffix, Past, Past-refl, Past-trans, Chain-le, Chain-at, next_of-cong, heap_block_t_size_lem,
}
use radix_os.Heap.Merge.{put_at, put_at-Suffix, put_at-Past}

-- What becomes of a free block of `n` bytes of which `r` are taken.
abbrev pub taken : ℕ → ℕ → List Seg → List Seg
taken r n l = if ltb (r + 8) n then (true, r) ∷ (false, n - r - 8) ∷ l else (true, n) ∷ l

-- the heap with the new header written
abbrev new_header : Heap → ℕ → ℕ → Heap
new_header h p r = heap_block_t_create h (p + 8 + r) 0 (h.mem p).next (h.mem p).flags

module _ (h : Heap) (e p c r n : ℕ) (l : List Seg) (s : Suffix h e p c ((false, n) ∷ l)) where
  wrap : r ≤ n → (r + 8) % 2 ^ 32 ≡ r + 8
  wrap fits = omega (arith, s.small, s.pos, Chain-le h.mem e (p + 8 + n) l s.chain.1)

  address : r ≤ n → (p + 8 + r) % 2 ^ 32 ≡ p + 8 + r
  address fits = omega (arith, s.small, s.pos, Chain-le h.mem e (p + 8 + n) l s.chain.1)

  squeeze-cut :
      r ≤ n
      → ltb (r + 8) n ≡ true
      → squeeze h p r
        ≡ put p (record ((new_header h p r).mem p) { next = p + 8 + r }) (new_header h p r)
  unfolding squeeze
  squeeze-cut fits cut =
      rw (heap_block_t_size_lem h e p c false n l s, wrap fits, address fits, cut) refl

  squeeze-whole : r ≤ n → ltb (r + 8) n ≡ false → squeeze h p r ≡ h
  unfolding squeeze
  squeeze-whole fits whole = rw (heap_block_t_size_lem h e p c false n l s, wrap fits, whole) refl

  -- The new header is written first, then the link to it.
  squeeze-Suffix :
      r + 8 < n
      → let t = new_header h p r in
        Suffix
          (put p (record (t.mem p) { next = p + 8 + r }) t)
          e
          p
          c
          ((false, r) ∷ (false, n - r - 8) ∷ l)
        × Past p h (put p (record (t.mem p) { next = p + 8 + r }) t)
  unfolding put_at heap_block_t_create put
  squeeze-Suffix d =
      let t = new_header h p r in
      let other : (p == p + 8 + r) ≡ false = ground arith in
      let same : t.mem p ≡ h.mem p = rw other refl in
      let shift : p + 8 + n ≡ p + 8 + r + 8 + (n - r - 8) = omega arith in
      let rest =
        put_at-Suffix h e (p + 8 + r) 0 false (n - r - 8) l
          (record {
            magic = heap_block_magic;
            used = 0;
            flags = (h.mem p).flags;
            next = (h.mem p).next;
          })
          (suc (length l)) s.ends s.small (omega arith) (omega arith)
          (record { magic = refl; used = refl; next = s.chain.0.next ∙ next_of-cong _ _ l shift })
          (Chain-at h.mem e _ _ l shift s.chain.1) (omega arith) in
      (
        put_at-Suffix t e p c false r ((false, n - r - 8) ∷ l)
            (record (t.mem p) { next = p + 8 + r }) ((h.current_blocks + 1) % 2 ^ 32) s.ends s.small
            s.pos s.before
            (record {
              magic = ap (λ b. b.magic) same ∙ s.chain.0.magic;
              used = ap (λ b. b.used) same ∙ s.chain.0.used;
              next = refl;
            })
            rest.chain
            (omega (arith, s.counted, s.before, s.small, Chain-le h.mem e (p + 8 + n) l s.chain.1)),
        Past-trans p p h t _ (omega arith)
            (record { start = refl; size = refl; same = λ q d. ground arith })
            (put_at-Past t p _ _),
      )

set_used :
    (h : Heap) (e p c n : ℕ) (l : List Seg)
    → Suffix h e p c ((false, n) ∷ l)
    → Suffix (put p (record (h.mem p) { used = 1 }) h) e p c ((true, n) ∷ l)
      × Past p h (put p (record (h.mem p) { used = 1 }) h)
unfolding put_at
set_used h e p c n l s = (
  put_at-Suffix h e p c true n l (record (h.mem p) { used = 1 }) h.current_blocks s.ends s.small
      s.pos s.before (record { magic = s.chain.0.magic; used = refl; next = s.chain.0.next })
      s.chain.1 s.counted,
  put_at-Past h p _ _,
)

take_whole :
    (h : Heap) (e p c r n : ℕ) (l : List Seg) (t : Heap)
    → Suffix t e p c ((false, n) ∷ l)
    → squeeze h p r ≡ t
    → Past p h t
    → (u : Heap) × (take_block h p r ≡ (p + 8, u)) × Suffix u e p c ((true, n) ∷ l) × Past p h u
unfolding take_block
take_whole h e p c r n l t s eq past =
    let sum : (p + 8) % 2 ^ 32 ≡ p + 8 =
      omega (arith, s.small, Chain-le t.mem e (p + 8 + n) l s.chain.1) in
    let (s', past') = set_used t e p c n l s in
    (
      put p (record (t.mem p) { used = 1 }) t,
      rw (eq, sum) refl,
      s',
      Past-trans p p h t _ (omega arith) past past',
    )

-- Taking `r` bytes of a free block that has so many.
pub take_block_lem :
    (h : Heap) (e p c r n : ℕ) (l : List Seg)
    → Suffix h e p c ((false, n) ∷ l)
    → r ≤ n
    → (t : Heap) × (take_block h p r ≡ (p + 8, t)) × Suffix t e p c (taken r n l) × Past p h t
take_block_lem h e p c r n l s fits = elim (Bool-cases (ltb (r + 8) n)) [
  | inl cut ↦
      let (s', past) = squeeze-Suffix h e p c r n l s (ltb→lt (r + 8) n cut) in
      rw cut (
        take_whole h e p c r r ((false, n - r - 8) ∷ l) _ s' (squeeze-cut h e p c r n l s fits cut)
          past)
  | inr whole ↦
      rw whole
        (take_whole h e p c r n l h s (squeeze-whole h e p c r n l s fits whole) (Past-refl p h))
]
