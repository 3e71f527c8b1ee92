-- ===== src/Heap/Tests.antt =====
-- The theorems on the heap at small heaps, and runs of the code.
use radix_os.Base.{
  ◌⊎◌, Bool, List, [], arith, false, if◌then◌else◌, refl, some, true, ℕ, ◌+◌, ◌==◌, ◌∷◌, ◌≡◌,
}
use radix_os.Exec.{done}
use radix_os.Heap.{Heap, heap_alloc, heap_free, heap_defrag, heap_create}
use radix_os.Heap.Chain.{Seg, flag}
use radix_os.Heap.Areas.{areas, IsApart}
use radix_os.Heap.Fit.{IsHeap, Fit, heap_alloc_lem}
use radix_os.Heap.Free.{heap_create_lem, heap_free_lem}
use radix_os.Heap.Aligned.{heap_alloc_a, Kept, heap_alloc_a_lem}
use radix_os.Heap.Defrag.{Merges, heap_defrag_lem}

-- a heap of two blocks of 10 and 62 bytes, of which the first is used or not
abbrev two_blocks : Bool → Heap
two_blocks u = record {
  start_address = 4108;
  size = 88;
  current_blocks = 2;
  mem = λ q.
      if q == 4108
      then record { magic = 0x1f2e; used = flag u; flags = 0; next = 4126 }
      else record { magic = 0x1f2e; used = 0; flags = 0; next = 0 };
}

two_blocks-IsHeap : (u : Bool) → IsHeap (two_blocks u) ((u, 10) ∷ (false, 62) ∷ [])
two_blocks-IsHeap u = record {
  start = refl;
  blocks = record {
    ends = refl;
    small = omega arith;
    pos = omega arith;
    before = omega arith;
    counted = refl;
    chain = (
      record { magic = refl; used = refl; next = refl },
      (record { magic = refl; used = refl; next = refl }, refl),
    );
  };
}

heap_create_lem_example : IsHeap (heap_create 4096 100 (two_blocks true).mem) ((false, 80) ∷ [])
heap_create_lem_example = heap_create_lem 4096 100 (two_blocks true).mem (omega arith) (omega arith)

heap_alloc_lem_example :
    (a : ℕ) × (t : Heap) × (l' : List Seg) × (heap_alloc (some (two_blocks true)) 20
      ≡ done (a, some t))
    × IsHeap t l'
    × (t.start_address ≡ 4108)
    × (t.size ≡ 88)
    × Fit 20 ((4116, 10) ∷ []) (areas 4108 l') l' a
    × IsApart 4108 (4108 + 88) (areas 4108 l')
heap_alloc_lem_example =
    heap_alloc_lem (two_blocks true) ((true, 10) ∷ (false, 62) ∷ []) 20 (two_blocks-IsHeap true)
      (omega arith)

heap_free_lem_example :
    (t : Heap) × (l' : List Seg) × (heap_free (some (two_blocks true)) 4116 ≡ (0, some t))
    × IsHeap t l'
    × (t.start_address ≡ 4108)
    × (t.size ≡ 88)
    × (areas 4108 l' ≡ [])
heap_free_lem_example =
    heap_free_lem (two_blocks true) ((true, 10) ∷ (false, 62) ∷ []) 4116 10 [] []
      (two_blocks-IsHeap true) refl

heap_defrag_lem_example :
    (d : ℕ) × (t : Heap) × (l' : List Seg) × (heap_defrag (some (two_blocks false))
      ≡ done (d, some t))
    × IsHeap t l'
    × (t.start_address ≡ 4108)
    × (t.size ≡ 88)
    × Merges 4108 d ((false, 10) ∷ (false, 62) ∷ []) l'
heap_defrag_lem_example =
    heap_defrag_lem (two_blocks false) ((false, 10) ∷ (false, 62) ∷ []) (two_blocks-IsHeap false)

heap_alloc_a_lem_example :
    (a ret : ℕ) × (t : Heap) × (l' : List Seg) × (w : ℕ → ℕ) × (heap_alloc_a
        (some (two_blocks true))
        (λ q. 0)
        20
        16
      ≡ done (ret, some t, w))
    × IsHeap t l'
    × Fit 40 ((4116, 10) ∷ []) (areas 4108 l') l' a
    × ((a ≡ 0) ⊎ Kept 20 16 a ret w)
heap_alloc_a_lem_example =
    heap_alloc_a_lem (two_blocks true) ((true, 10) ∷ (false, 62) ∷ []) (λ q. 0) 20 16
      (two_blocks-IsHeap true) (omega arith) (omega arith)
