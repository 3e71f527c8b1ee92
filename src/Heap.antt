-- ===== src/Heap.antt =====
-- kernel/heap_manager.c: the kernel heap, a chain of headers in the managed memory itself.
-- A pointer is an address, 0 the null pointer. `mem` gives the header that stands at an address;
-- it has a header at each address on its own, so that what the kernel stores between the headers
-- is not in it.
pub mod Chain
pub mod Merge
pub mod Take
pub mod Areas
pub mod Alloc
pub mod Fit
pub mod Free
pub mod Aligned
pub mod Defrag
pub mod Tests
use radix_os.Base.{
  Bool, Option, if◌then◌else◌, leb, ltb, none, not, some, suc, zero, ℕ, ◌%◌, ◌&&◌, ◌+◌, ◌-◌, ◌==◌,
  ◌^◌,
}
use radix_os.Exec.{Run, done, hung, ◌>>=◌}

pub record HeapBlock : Type 0 where
  pub magic : ℕ
  pub used : ℕ
  pub flags : ℕ
  pub next : ℕ

pub record Heap : Type 0 where
  pub start_address : ℕ
  pub size : ℕ
  pub current_blocks : ℕ
  pub mem : ℕ → HeapBlock

abbrev pub heap_block_magic : ℕ
heap_block_magic = 0x1f2e

-- sizeof(heap_block_t) and sizeof(heap_t)
abbrev pub header_size : ℕ
header_size = 8

abbrev pub heap_size : ℕ
heap_size = 12

pub put : ℕ → HeapBlock → Heap → Heap
put p b h = record h { mem = λ q. if q == p then b else h.mem q }

pub heap_block_t_size : Heap → ℕ → ℕ
heap_block_t_size h b =
    if (h.mem b).next == 0
    then (h.start_address + h.size + 2 ^ 32 - b - header_size) % 2 ^ 32
    else ((h.mem b).next + 2 ^ 32 - b - header_size) % 2 ^ 32

abbrev pub heap_block_t_start_address : ℕ → ℕ
heap_block_t_start_address b = (b + header_size) % 2 ^ 32

pub heap_front_merge_block : Heap → ℕ → Heap
unfolding put
heap_front_merge_block h b =
    let next = (h.mem b).next in
    let t = put b (record (h.mem b) { next = (h.mem next).next }) h in
    record t { current_blocks = (h.current_blocks + 2 ^ 32 - 1) % 2 ^ 32 }

pub heap_is_next_unused : Heap → ℕ → Bool
heap_is_next_unused h prev = not ((h.mem prev).next == 0) && ((h.mem (h.mem prev).next).used == 0)

pub heap_block_t_create : Heap → ℕ → ℕ → ℕ → ℕ → Heap
unfolding put
heap_block_t_create h base used next flags =
    let block : HeapBlock = record {
      magic = heap_block_magic;
      used = used;
      flags = flags;
      next = next;
    } in
    let t = put base block h in record t { current_blocks = (h.current_blocks + 1) % 2 ^ 32 }

-- The loop of `heap_front_merge_size_fit`, which comes back with the result of its last test.
pub merge_loop : ℕ → Heap → ℕ → ℕ → Run (Bool × Heap)
merge_loop zero h prev r_size = hung
merge_loop (suc k) h prev r_size =
    let rest = merge_loop k (heap_front_merge_block h prev) prev r_size in
    if not ((h.mem prev).next == 0) && ltb (heap_block_t_size h prev) r_size
    then (if heap_is_next_unused h prev
        then rest
        else done (leb r_size (heap_block_t_size h prev), h))
    else done (leb r_size (heap_block_t_size h prev), h)

-- As many rounds as the heap has bytes.
pub heap_front_merge_size_fit : Heap → ℕ → ℕ → Run (Bool × Heap)
unfolding merge_loop
heap_front_merge_size_fit h prev r_size = merge_loop h.size h prev r_size

pub heap_create : ℕ → ℕ → (ℕ → HeapBlock) → Heap
unfolding heap_block_t_create
heap_create base size mem =
    let new_heap : Heap = record {
      start_address = (base + heap_size) % 2 ^ 32;
      size = (size + 2 ^ 32 - heap_size) % 2 ^ 32;
      current_blocks = 0;
      mem = mem;
    } in
    heap_block_t_create new_heap new_heap.start_address 0 0 0

-- What `heap_alloc` does to a block that fits: the rest of it becomes a block if there is room.
pub squeeze : Heap → ℕ → ℕ → Heap
unfolding put heap_block_t_create heap_block_t_size
squeeze h block r_size =
    let new_block = (block + header_size + r_size) % 2 ^ 32 in
    let t = heap_block_t_create h new_block 0 (h.mem block).next (h.mem block).flags in
    if ltb ((r_size + header_size) % 2 ^ 32) (heap_block_t_size h block)
    then put block (record (t.mem block) { next = new_block }) t
    else h

pub take_block : Heap → ℕ → ℕ → ℕ × Heap
unfolding squeeze
take_block h block r_size =
    let t = squeeze h block r_size in
    (heap_block_t_start_address block, put block (record (t.mem block) { used = 1 }) t)

pub alloc_loop : ℕ → Heap → ℕ → ℕ → Run (ℕ × Heap)
alloc_loop zero h block r_size = hung
alloc_loop (suc k) h block r_size =
    if block == 0
    then done (0, h)
    else (if not ((h.mem block).magic == heap_block_magic)
        then done (0, h)
        else (if (h.mem block).used == 1
            then alloc_loop k h (h.mem block).next r_size
            else (heap_front_merge_size_fit h block r_size >>= λ (fits, t).
                if fits
                then done (take_block t block r_size)
                else alloc_loop k t (t.mem block).next r_size)))

-- The pointer to the heap may be null, and then there is no heap.
pub heap_alloc : Option Heap → ℕ → Run (ℕ × Option Heap)
unfolding alloc_loop
heap_alloc none r_size = done (0, none)
heap_alloc (some h) r_size =
    if r_size == 0
    then done (0, some h)
    else (alloc_loop (suc h.size) h h.start_address r_size >>= λ (a, t). done (a, some t))

-- the merge at the end of `heap_free`
pub merge_next : Heap → ℕ → Heap
unfolding put
merge_next h block =
    let next = (h.mem block).next in
    if not (next == 0) && ((h.mem next).used == 0)
    then record (put block (record (h.mem block) { next = (h.mem next).next }) h) {
      current_blocks = (h.current_blocks + 2 ^ 32 - 1) % 2 ^ 32;
    }
    else h

pub heap_free : Option Heap → ℕ → ℕ × Option Heap
unfolding merge_next
heap_free none address = (1, none)
heap_free (some h) address =
    let block = (address + 2 ^ 32 - header_size) % 2 ^ 32 in
    if address == 0
    then (1, some h)
    else (if not ((h.mem block).magic == heap_block_magic)
        then (1, some h)
        else (0, some (merge_next (put block (record (h.mem block) { used = 0 }) h) block)))

pub defrag_loop : ℕ → Heap → ℕ → ℕ → Run (ℕ × Heap)
defrag_loop zero h block merged = hung
defrag_loop (suc k) h block merged =
    let next = (h.mem block).next in
    let t = record (put block (record (h.mem block) { next = (h.mem next).next }) h) {
      current_blocks = (h.current_blocks + 2 ^ 32 - 1) % 2 ^ 32;
    } in
    if block == 0
    then done (merged, h)
    else (if ((h.mem block).used == 0) && (not (next == 0) && ((h.mem next).used == 0))
        then defrag_loop k t block ((merged + 1) % 2 ^ 32)
        else defrag_loop k h next merged)

pub heap_defrag : Option Heap → Run (ℕ × Option Heap)
unfolding defrag_loop
heap_defrag none = done (0, none)
heap_defrag (some h) = defrag_loop (suc h.size) h h.start_address 0 >>= λ (n, t). done (n, some t)
