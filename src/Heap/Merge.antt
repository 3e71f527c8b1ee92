-- ===== src/Heap/Merge.antt =====
-- Writing a header, merging a block with the ones after it, and cutting a block in two.
use radix_os.Base.{
  Bool, Bool-cases, List, [], ap, arith, false, if◌then◌else◌, inl, inr, leb, length, ltb, not,
  refl, subst, suc, true, zero, ℕ, ◌%◌, ◌&&◌, ◌*◌, ◌+◌, ◌-◌, ◌<◌, ◌==◌, ◌^◌, ◌∙◌, ◌∷◌, ◌≡◌, ◌≤◌,
}
use radix_os.Exec.{Run, done}
use radix_os.Heap.{
  HeapBlock, Heap, put, heap_front_merge_block, heap_is_next_unused, merge_loop,
  heap_front_merge_size_fit,
}
use radix_os.Heap.Chain.{
  Seg, flag, next_of, IsHeader, Chain, Suffix, Past, Past-refl, Past-trans, Chain-frame, Chain-le,
  Chain-at, next_of-cong, heap_block_t_size_lem,
}

-- `put`, with a counter
unfoldable pub put_at : Heap → ℕ → HeapBlock → ℕ → Heap
unfolding put
put_at h p b k = record (put p b h) { current_blocks = k }

pub put_at-Suffix :
    (h : Heap) (e p c : ℕ) (u : Bool) (n : ℕ) (l : List Seg) (b : HeapBlock) (k : ℕ)
    → h.start_address + h.size ≡ e
    → e < 2 ^ 32
    → 0 < p
    → 8 * c ≤ p
    → IsHeader b u (next_of (p + 8 + n) l)
    → Chain h.mem e (p + 8 + n) l
    → k ≡ c + suc (length l)
    → Suffix (put_at h p b k) e p c ((u, n) ∷ l)
unfolding put_at
put_at-Suffix h e p c u n l b k ends small pos before head chain counted = record {
  ends = ends;
  small = small;
  pos = pos;
  before = before;
  counted = counted;
  chain = (
    subst (λ x. IsHeader x u (next_of (p + 8 + n) l)) (ground arith) head,
    Chain-frame h.mem (put_at h p b k).mem e (p + 8 + n) l (λ q d. ground arith) chain,
  );
}

pub put_at-Past : (h : Heap) (p : ℕ) (b : HeapBlock) (k : ℕ) → Past p h (put_at h p b k)
unfolding put_at
put_at-Past h p b k = record { start = refl; size = refl; same = λ q d. ground arith }

-- A block and the unused one after it become one.
pub heap_front_merge_block_lem :
    (h : Heap) (e p c : ℕ) (u v : Bool) (n m : ℕ) (l : List Seg)
    → Suffix h e p c ((u, n) ∷ (v, m) ∷ l)
    → Suffix (heap_front_merge_block h p) e p c ((u, n + 8 + m) ∷ l)
      × Past p h (heap_front_merge_block h p)
unfolding heap_front_merge_block put_at
heap_front_merge_block_lem h e p c u v n m l s =
    let le = Chain-le h.mem e p ((u, n) ∷ (v, m) ∷ l) s.chain in
    let shift : p + 8 + n + 8 + m ≡ p + 8 + (n + 8 + m) = omega arith in
    (
      put_at-Suffix h e p c u (n + 8 + m) l
          (record (h.mem p) { next = (h.mem (h.mem p).next).next })
          ((h.current_blocks + 2 ^ 32 - 1) % 2 ^ 32) s.ends s.small s.pos s.before
          (record {
            magic = s.chain.0.magic;
            used = s.chain.0.used;
            next =
                ap (λ q. (h.mem q).next) s.chain.0.next
                ∙ s.chain.1.0.next
                ∙ next_of-cong _ _ l shift;
          })
          (Chain-at h.mem e _ _ l shift s.chain.1.1) (omega (arith, s.counted, s.before, s.small)),
      put_at-Past h p _ _,
    )

-- The size that a free block of `n` bytes comes to when it takes in the free ones after it while
-- `r` bytes do not fit, and what is left after it.
abbrev pub absorb : ℕ → ℕ → List Seg → ℕ × List Seg
absorb r n [] = (n, [])
absorb r n ((true, m) ∷ l) = (n, (true, m) ∷ l)
absorb r n ((false, m) ∷ l) =
    let rest = absorb r (n + 8 + m) l in if ltb n r then rest else (n, (false, m) ∷ l)

abbrev Merged : Heap → ℕ → ℕ → ℕ → ℕ → ℕ × List Seg → Run (Bool × Heap) → Type 0
Merged h e p c r a o =
    (t : Heap) × (o ≡ done (leb r a.0, t)) × Suffix t e p c ((false, a.0) ∷ a.1) × Past p h t

heap_is_next_unused_lem :
    (h : Heap) (e p c : ℕ) (u v : Bool) (n m : ℕ) (l : List Seg)
    → Suffix h e p c ((u, n) ∷ (v, m) ∷ l)
    → heap_is_next_unused h p ≡ not v
unfolding heap_is_next_unused
heap_is_next_unused_lem h e p c u v n m l s =
    let some_next : (p + 8 + n == 0) ≡ false = ground arith in
    rw (s.chain.0.next, some_next, s.chain.1.0.used) (unused v)
  where
    unused : (v : Bool) → (flag v == 0) ≡ not v
    unused true = refl
    unused false = refl

merge_loop-step :
    (k : ℕ) (h : Heap) (e p c r : ℕ) (v : Bool) (n m : ℕ) (l : List Seg)
    → Suffix h e p c ((false, n) ∷ (v, m) ∷ l)
    → merge_loop (suc k) h p r ≡ (
        if ltb n r && not v
        then merge_loop k (heap_front_merge_block h p) p r
        else done (leb r n, h))
unfolding merge_loop
merge_loop-step k h e p c r v n m l s =
    let some_next : (p + 8 + n == 0) ≡ false = ground arith in
    rw
      (
        s.chain.0.next,
        some_next,
        heap_block_t_size_lem h e p c false n ((v, m) ∷ l) s,
        heap_is_next_unused_lem h e p c false v n m l s,
      )
      (ground arith)

pub merge_loop_lem :
    (l : List Seg) (k : ℕ) (h : Heap) (e p c r n : ℕ)
    → Suffix h e p c ((false, n) ∷ l)
    → length l < k
    → Merged h e p c r (absorb r n l) (merge_loop k h p r)
unfolding merge_loop
merge_loop_lem l zero h e p c r n s f = absurd (omega arith)
merge_loop_lem [] (suc k) h e p c r n s f =
    (h, rw (s.chain.0.next, heap_block_t_size_lem h e p c false n [] s) refl, s, Past-refl p h)
merge_loop_lem ((true, m) ∷ l) (suc k) h e p c r n s f =
    (h, merge_loop-step k h e p c r true n m l s ∙ ground arith, s, Past-refl p h)
merge_loop_lem ((false, m) ∷ l) (suc k) h e p c r n s f = elim (Bool-cases (ltb n r)) [
  | inl small ↦
      let (s', past) = heap_front_merge_block_lem h e p c false false n m l s in
      let (t, got, s'', past') =
        merge_loop_lem l k (heap_front_merge_block h p) e p c r (n + 8 + m) s' (omega arith) in
      rw small (
        t,
        merge_loop-step k h e p c r false n m l s ∙ rw small got,
        s'',
        Past-trans p p h _ t (omega arith) past past',
      )
  | inr large ↦
      rw large (h, merge_loop-step k h e p c r false n m l s ∙ rw large refl, s, Past-refl p h)
]

pub heap_front_merge_size_fit_lem :
    (l : List Seg) (h : Heap) (e p c r n : ℕ)
    → Suffix h e p c ((false, n) ∷ l)
    → h.start_address ≤ p
    → Merged h e p c r (absorb r n l) (heap_front_merge_size_fit h p r)
unfolding heap_front_merge_size_fit merge_loop
heap_front_merge_size_fit_lem l h e p c r n s first =
    merge_loop_lem l h.size h e p c r n s
      (omega (arith, Chain-le h.mem e p ((false, n) ∷ l) s.chain, s.ends))
