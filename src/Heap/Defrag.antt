-- ===== src/Heap/Defrag.antt =====
-- `heap_defrag`
use radix_os.Base.{
  Bool, List, [], ap, arith, false, length, not, refl, some, suc, true, zero, ℕ, ◌%◌, ◌&&◌, ◌+◌,
  ◌<◌, ◌==◌, ◌^◌, ◌∙◌, ◌∷◌, ◌≡◌,
}
use radix_os.Exec.{Run, done}
use radix_os.Heap.{Heap, heap_defrag, defrag_loop, heap_front_merge_block}
use radix_os.Heap.Chain.{Seg, next_of, Suffix, Past, Past-refl, Past-trans, Chain-le}
use radix_os.Heap.Merge.{heap_front_merge_block_lem}
use radix_os.Heap.Areas.{areas, areas-at, StartsUsed}
use radix_os.Heap.Alloc.{tail, rejoin}
use radix_os.Heap.Fit.{IsHeap, IsHeap-again}

-- No two free blocks are neighbours.
abbrev pub IsMerged : List Seg → Type 0
IsMerged [] = Unit
IsMerged ((true, n) ∷ l) = IsMerged l
IsMerged ((false, n) ∷ l) = StartsUsed l × IsMerged l

-- `l` has become `l'` by merges, of which there were `d`.
pub record Merges (p d : ℕ) (l l' : List Seg) : Type 0 where
  pub same_areas : areas p l' ≡ areas p l
  pub merged : IsMerged l'
  pub fewer : d + length l' ≡ length l
  pub starts : StartsUsed l → StartsUsed l'
  pub same_next : (q : ℕ) → next_of q l' ≡ next_of q l

abbrev Looped : Heap → ℕ → ℕ → ℕ → ℕ → List Seg → Run (ℕ × Heap) → Type 0
Looped h e p c n l o =
    (d : ℕ) × (t : Heap) × (l' : List Seg) × (o ≡ done (n + d, t))
    × Suffix t e p c l'
    × Past p h t
    × Merges p d l l'

-- past a block that stays
skip :
    (k : ℕ) (h : Heap) (e p c n : ℕ) (u : Bool) (m : ℕ) (l : List Seg)
    → Suffix h e p c ((u, m) ∷ l)
    → (u ≡ false → StartsUsed l)
    → defrag_loop (suc k) h p n ≡ defrag_loop k h (next_of (p + 8 + m) l) n
    → Looped h e (p + 8 + m) (suc c) n l (defrag_loop k h (next_of (p + 8 + m) l) n)
    → Looped h e p c n ((u, m) ∷ l) (defrag_loop (suc k) h p n)
skip k h e p c n u m l s stops step (d, t, l', got, s', past, r) = (
  d,
  t,
  (u, m) ∷ l',
  step ∙ got,
  rejoin h t e p c u m l l' s s' past (r.same_next (p + 8 + m)),
  Past-trans p (p + 8 + m) h h t (omega arith) (Past-refl p h) past,
  kept u stops,
)
  where
    kept : (u : Bool) → (u ≡ false → StartsUsed l) → Merges p d ((u, m) ∷ l) ((u, m) ∷ l')
    kept true stops = record {
      same_areas = ap (λ z. (p + 8, m) ∷ z) r.same_areas;
      merged = r.merged;
      fewer = omega (arith, r.fewer);
      starts = λ z. z;
      same_next = λ q. refl;
    }
    kept false stops = record {
      same_areas = r.same_areas;
      merged = (r.starts (stops refl), r.merged);
      fewer = omega (arith, r.fewer);
      starts = λ z. z;
      same_next = λ q. refl;
    }

-- past a merge
merge :
    (k : ℕ) (h h' : Heap) (e p c n m i : ℕ) (l : List Seg)
    → Past p h h'
    → defrag_loop (suc k) h p n ≡ defrag_loop k h' p (n + 1)
    → Looped h' e p c (n + 1) ((false, m + 8 + i) ∷ l) (defrag_loop k h' p (n + 1))
    → Looped h e p c n ((false, m) ∷ (false, i) ∷ l) (defrag_loop (suc k) h p n)
merge k h h' e p c n m i l past step (d, t, l', got, s, past', r) =
    let total : n + 1 + d ≡ n + suc d = omega arith in
    let shift : p + 8 + (m + 8 + i) ≡ p + 8 + m + 8 + i = omega arith in
    (
      suc d,
      t,
      l',
      step ∙ got ∙ ap (λ x. done (x, t)) total,
      s,
      Past-trans p p h h' t (omega arith) past past',
      record {
        same_areas = r.same_areas ∙ areas-at _ _ l shift;
        merged = r.merged;
        fewer = omega (arith, r.fewer);
        starts = λ z. r.starts z;
        same_next = r.same_next;
      },
    )

defrag_loop_lem :
    (k : ℕ) (h : Heap) (e p c n : ℕ) (l : List Seg)
    → Suffix h e p c l
    → length l < k
    → n + length l < 2 ^ 32
    → Looped h e p c n l (defrag_loop k h (next_of p l) n)
unfolding defrag_loop heap_front_merge_block
defrag_loop_lem zero h e p c n l s f b = absurd (omega arith)
defrag_loop_lem (suc k) h e p c n [] s f b = (
  0,
  h,
  [],
  ap (λ x. done (x, h)) (omega arith),
  s,
  Past-refl p h,
  record { same_areas = refl; merged = tt; fewer = refl; starts = λ z. z; same_next = λ q. refl },
)
defrag_loop_lem (suc k) h e p c n ((true, m) ∷ l) s f b =
    let some_block : (p == 0) ≡ false = ground (arith, s.pos) in
    skip k h e p c n true m l s (λ z. absurd (ground (arith, z)))
      (rw (some_block, s.chain.0.used, s.chain.0.next) refl)
      (defrag_loop_lem k h e (p + 8 + m) (suc c) n l (tail h e p c true m l s) (omega arith)
        (omega arith))
defrag_loop_lem (suc k) h e p c n ((false, m) ∷ []) s f b =
    let some_block : (p == 0) ≡ false = ground (arith, s.pos) in
    skip k h e p c n false m [] s (λ z. tt) (rw (some_block, s.chain.0.used, s.chain.0.next) refl)
      (defrag_loop_lem k h e (p + 8 + m) (suc c) n [] (tail h e p c false m [] s) (omega arith)
        (omega arith))
defrag_loop_lem (suc k) h e p c n ((false, m) ∷ (true, i) ∷ l) s f b =
    let some_block : (p == 0) ≡ false = ground (arith, s.pos) in
    let some_next : (p + 8 + m == 0) ≡ false = ground arith in
    skip k h e p c n false m ((true, i) ∷ l) s (λ z. refl)
      (rw (some_block, s.chain.0.used, s.chain.0.next, some_next, s.chain.1.0.used) refl)
      (defrag_loop_lem k h e (p + 8 + m) (suc c) n ((true, i) ∷ l)
        (tail h e p c false m ((true, i) ∷ l) s) (omega arith) (omega arith))
defrag_loop_lem (suc k) h e p c n ((false, m) ∷ (false, i) ∷ l) s f b =
    let some_block : (p == 0) ≡ false = ground (arith, s.pos) in
    let some_next : (p + 8 + m == 0) ≡ false = ground arith in
    let more : (n + 1) % 2 ^ 32 ≡ n + 1 = omega arith in
    let test : (((h.mem p).used == 0)
          && (not ((h.mem p).next == 0) && ((h.mem (h.mem p).next).used == 0)))
        ≡ true =
      rw (s.chain.0.used, s.chain.0.next, s.chain.1.0.used, some_next) refl in
    let (s', past) = heap_front_merge_block_lem h e p c false false m i l s in
    merge k h (heap_front_merge_block h p) e p c n m i l past (rw (some_block, test, more) refl) (
      defrag_loop_lem k (heap_front_merge_block h p) e p c (n + 1) ((false, m + 8 + i) ∷ l) s'
        (omega arith) (omega arith))

-- On a proper chain `heap_defrag` comes back, keeps all used areas where they are and merges the
-- free blocks, so that no two of them are neighbours any more; it returns by how many blocks the
-- chain is shorter.
pub heap_defrag_lem :
    (h : Heap) (l : List Seg)
    → IsHeap h l
    → (d : ℕ) × (t : Heap) × (l' : List Seg) × (heap_defrag (some h) ≡ done (d, some t))
      × IsHeap t l'
      × (t.start_address ≡ h.start_address)
      × (t.size ≡ h.size)
      × Merges h.start_address d l l'
unfolding heap_defrag
heap_defrag_lem h l v =
    let le = Chain-le h.mem (h.start_address + h.size) h.start_address l v.blocks.chain in
    let (d, t, l', got, s, past, r) =
      defrag_loop_lem (suc h.size) h (h.start_address + h.size) h.start_address 0 0 l v.blocks
        (omega arith) (omega (arith, v.blocks.small)) in
    let zero_add : 0 + d ≡ d = omega arith in
    let loop : defrag_loop (suc h.size) h h.start_address 0 ≡ done (d, t) =
      ap (λ q. defrag_loop (suc h.size) h q 0) v.start ∙ got ∙ ap (λ x. done (x, t)) zero_add in
    (
      d,
      t,
      l',
      rw loop refl,
      IsHeap-again h t l l' v past s (r.same_next h.start_address),
      past.start,
      past.size,
      r,
    )
