-- ===== src/Heap/Free.antt =====
-- `heap_create` and `heap_free`
use radix_os.Base.{
  List, [], ap, ap₂, arith, false, not, refl, some, subst, suc, sym, true, ℕ, ◌%◌, ◌&&◌, ◌++◌, ◌+◌,
  ◌-◌, ◌<◌, ◌==◌, ◌^◌, ◌∙◌, ◌∷◌, ◌≡◌, ◌≤◌,
}
use radix_os.Heap.{
  Heap, HeapBlock, put, heap_free, heap_create, heap_block_t_create, heap_front_merge_block,
}
use radix_os.Heap.Chain.{Seg, next_of, Suffix, Past, Past-refl, Past-trans, Chain-le}
use radix_os.Heap.{merge_next}
use radix_os.Heap.Merge.{put_at, put_at-Suffix, put_at-Past, heap_front_merge_block_lem}
use radix_os.Heap.Areas.{Area, areas, areas-at}
use radix_os.Heap.Alloc.{tail, rejoin}
use radix_os.Heap.Fit.{IsHeap, IsHeap-again}

-- A new heap of at least 20 bytes is a chain of one free block, which has all bytes but those of
-- the two headers.
pub heap_create_lem :
    (base size : ℕ) (mem : ℕ → HeapBlock)
    → 20 ≤ size
    → base + size < 2 ^ 32
    → IsHeap (heap_create base size mem) ((false, size - 20) ∷ [])
unfolding heap_create heap_block_t_create put_at
heap_create_lem base size mem enough fits =
    let first : (base + 12) % 2 ^ 32 ≡ base + 12 = omega arith in
    let bytes : (size + 2 ^ 32 - 12) % 2 ^ 32 ≡ size - 12 = omega arith in
    let new_heap : Heap = record {
      start_address = base + 12;
      size = size - 12;
      current_blocks = 0;
      mem = mem;
    } in
    record {
      start = refl;
      blocks =
          rw (first, bytes)
            (put_at-Suffix new_heap (base + 12 + (size - 12)) (base + 12) 0 false (size - 20) []
              (record { magic = 0x1f2e; used = 0; flags = 0; next = 0 }) 1 refl (omega arith)
              (omega arith) (omega arith) (record { magic = refl; used = refl; next = refl })
              (omega arith) refl);
    }

-- the header at `p` marked as free
abbrev unused : Heap → ℕ → Heap
unused h p = put p (record (h.mem p) { used = 0 }) h

unused_lem :
    (h : Heap) (e p c : ℕ) (n : ℕ) (l : List Seg)
    → Suffix h e p c ((true, n) ∷ l)
    → Suffix (unused h p) e p c ((false, n) ∷ l) × Past p h (unused h p)
unfolding put_at
unused_lem h e p c n l s = (
  put_at-Suffix h e p c false n l (record (h.mem p) { used = 0 }) h.current_blocks s.ends s.small
      s.pos s.before (record { magic = s.chain.0.magic; used = refl; next = s.chain.0.next })
      s.chain.1 s.counted,
  put_at-Past h p _ _,
)

-- The block at `p` has become free, and perhaps larger.
abbrev Freed : Heap → ℕ → ℕ → ℕ → List Area → List Seg → Heap → Type 0
Freed h e p c after l t =
    (l' : List Seg) × Suffix t e p c l'
    × Past p h t
    × (areas p l' ≡ after)
    × ((q : ℕ) → next_of q l' ≡ next_of q l)

merge_next_lem :
    (h : Heap) (e p c n : ℕ) (l : List Seg)
    → Suffix h e p c ((false, n) ∷ l)
    → Freed h e p c (areas (p + 8 + n) l) ((false, n) ∷ l) (merge_next h p)
unfolding merge_next heap_front_merge_block
merge_next_lem h e p c n [] s =
    rw s.chain.0.next ((false, n) ∷ [], s, Past-refl p h, refl, λ q. refl)
merge_next_lem h e p c n ((true, m) ∷ l) s =
    let test : (not ((h.mem p).next == 0) && ((h.mem (h.mem p).next).used == 0)) ≡ false =
      rw (s.chain.0.next, s.chain.1.0.used) (ground arith) in
    rw test ((false, n) ∷ (true, m) ∷ l, s, Past-refl p h, refl, λ q. refl)
merge_next_lem h e p c n ((false, m) ∷ l) s =
    let (s', past) = heap_front_merge_block_lem h e p c false false n m l s in
    let some_next : (p + 8 + n == 0) ≡ false = ground arith in
    let shift : p + 8 + (n + 8 + m) ≡ p + 8 + n + 8 + m = omega arith in
    let test : (not ((h.mem p).next == 0) && ((h.mem (h.mem p).next).used == 0)) ≡ true =
      rw (s.chain.0.next, s.chain.1.0.used, some_next) refl in
    rw test ((false, n + 8 + m) ∷ l, s', past, areas-at _ _ l shift, λ q. refl)

heap_free_at :
    (h : Heap) (e p c n : ℕ) (l : List Seg)
    → Suffix h e p c ((true, n) ∷ l)
    → (t : Heap) × (heap_free (some h) (p + 8) ≡ (0, some t))
      × Freed h e p c (areas (p + 8 + n) l) ((true, n) ∷ l) t
unfolding heap_free
heap_free_at h e p c n l s =
    let le = Chain-le h.mem e (p + 8 + n) l s.chain.1 in
    let block : (p + 8 + 2 ^ 32 - 8) % 2 ^ 32 ≡ p = omega (arith, s.small) in
    let address : (p + 8 == 0) ≡ false = ground arith in
    let magic : ((h.mem p).magic == 0x1f2e) ≡ true = rw s.chain.0.magic refl in
    let (s', past) = unused_lem h e p c n l s in
    let (l', s'', past', same, next) = merge_next_lem (unused h p) e p c n l s' in
    (
      merge_next (unused h p) p,
      rw (block, address, magic) refl,
      (l', s'', Past-trans p p h _ _ (omega arith) past past', same, next),
    )

abbrev HeadTail : Area → List Area → List Area → Type 0
HeadTail x xs [] = ⊥
HeadTail x xs (y ∷ ys) = (x ≡ y) × (xs ≡ ys)

head_tail : (x : Area) (xs l : List Area) → x ∷ xs ≡ l → HeadTail x xs l
head_tail x xs l e = subst (HeadTail x xs) e (refl, refl)

heap_free_from :
    (h : Heap) (e p c a k : ℕ) (l : List Seg) (xs ys : List Area)
    → Suffix h e p c l
    → areas p l ≡ xs ++ (a, k) ∷ ys
    → (t : Heap) × (heap_free (some h) a ≡ (0, some t)) × Freed h e p c (xs ++ ys) l t
heap_free_from h e p c a k [] [] ys s eq = absurd (head_tail (a, k) ys [] (sym eq))
heap_free_from h e p c a k [] (x ∷ xs) ys s eq = absurd (head_tail x _ [] (sym eq))
heap_free_from h e p c a k ((false, n) ∷ l) xs ys s eq =
    let (t, got, (l', s', past, same, next)) =
      heap_free_from h e (p + 8 + n) (suc c) a k l xs ys (tail h e p c false n l s) eq in
    (
      t,
      got,
      (
        (false, n) ∷ l',
        rejoin h t e p c false n l l' s s' past (next (p + 8 + n)),
        Past-trans p (p + 8 + n) h h t (omega arith) (Past-refl p h) past,
        same,
        λ q. refl,
      ),
    )
heap_free_from h e p c a k ((true, n) ∷ l) [] ys s eq =
    let (head, rest) = head_tail (p + 8, n) (areas (p + 8 + n) l) ((a, k) ∷ ys) eq in
    let (t, got, (l', s', past, same, next)) = heap_free_at h e p c n l s in
    (t, ap (λ x. heap_free (some h) x.0) (sym head) ∙ got, (l', s', past, same ∙ rest, next))
heap_free_from h e p c a k ((true, n) ∷ l) (x ∷ xs) ys s eq =
    let (head, rest) = head_tail (p + 8, n) (areas (p + 8 + n) l) (x ∷ (xs ++ (a, k) ∷ ys)) eq in
    let (t, got, (l', s', past, same, next)) =
      heap_free_from h e (p + 8 + n) (suc c) a k l xs ys (tail h e p c true n l s) rest in
    (
      t,
      got,
      (
        (true, n) ∷ l',
        rejoin h t e p c true n l l' s s' past (next (p + 8 + n)),
        Past-trans p (p + 8 + n) h h t (omega arith) (Past-refl p h) past,
        ap₂ (λ y z. y ∷ z) head same,
        λ q. refl,
      ),
    )

-- On a proper chain, giving the address of a used area to `heap_free` returns 0 and leaves a proper
-- chain in the same place, which has all the areas but this one.
pub heap_free_lem :
    (h : Heap) (l : List Seg) (a k : ℕ) (xs ys : List Area)
    → IsHeap h l
    → areas h.start_address l ≡ xs ++ (a, k) ∷ ys
    → (t : Heap) × (l' : List Seg) × (heap_free (some h) a ≡ (0, some t))
      × IsHeap t l'
      × (t.start_address ≡ h.start_address)
      × (t.size ≡ h.size)
      × (areas h.start_address l' ≡ xs ++ ys)
heap_free_lem h l a k xs ys v eq =
    let (t, got, (l', s, past, same, next)) =
      heap_free_from h (h.start_address + h.size) h.start_address 0 a k l xs ys v.blocks eq in
    (t, l', got, IsHeap-again h t l l' v past s (next h.start_address), past.start, past.size, same)
