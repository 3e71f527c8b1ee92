-- ===== src/PhysMem.antt =====
-- kernel/mem_manager_phys.c: the physical memory manager, a bitmap with a bit for each block of
-- 4096 bytes, set where the block is in use.
pub mod Blocks
pub mod Bitmap
pub mod Alloc
pub mod Dealloc
pub mod Init
pub mod Invariant
pub mod Region
pub mod Tests
pub mod FirstFree
use Prim.Native.Nat.{bit_and, bit_or}
use radix_os.Base.{
  Bool, List, Option, [], false, get_or, if◌then◌else◌, leb, length, ltb, none, not, set, some, suc,
  true, zero, ℕ, ◌%◌, ◌*◌, ◌+◌, ◌-◌, ◌/◌, ◌==◌, ◌^◌, ◌||◌, ◌∷◌,
}
use radix_os.Types.{ErrorT, error_ok}
use radix_os.Exec.{Run, done, panicked, hung, ◌>>=◌}
use radix_os.Utility.{ceil_division}

-- The static variables. The bitmap lists the 32-bit words from `phys_mem_bitmap` on; a word beyond
-- it reads as 0, and a write there is lost.
pub record PhysMem : Type 0 where
  pub memory_size : ℕ
  pub used_blocks : ℕ
  pub max_blocks : ℕ
  pub bitmap : List ℕ
  pub lock : Bool

abbrev pub block_size : ℕ
block_size = 4096

abbrev pub word_ones : ℕ
word_ones = 0xffff_ffff

abbrev pub word_at : PhysMem → ℕ → ℕ
word_at s i = get_or s.bitmap i 0

pub mmap_set : ℕ → PhysMem → PhysMem
mmap_set i s = record s {
  bitmap = set s.bitmap (i / 32) (bit_or (word_at s (i / 32)) (2 ^ (i % 32)));
}

pub mmap_unset : ℕ → PhysMem → PhysMem
mmap_unset i s = record s {
  bitmap = set s.bitmap (i / 32) (bit_and (word_at s (i / 32)) (2 ^ 32 - 1 - 2 ^ (i % 32)));
}

pub mmap_test : ℕ → PhysMem → Bool
mmap_test i s = not (bit_and (word_at s (i / 32)) (2 ^ (i % 32)) == 0)

pub phys_mem_get_free_blocks_count : PhysMem → ℕ
phys_mem_get_free_blocks_count s = (s.max_blocks + 2 ^ 32 - s.used_blocks) % 2 ^ 32

pub phys_mem_get_bitmap_size : PhysMem → ℕ
phys_mem_get_bitmap_size s = s.max_blocks / 8

-- The inner loop of `mmap_first_free`, with the rounds left: `bit` is `1 << j`.
pub scan_bits : ℕ → ℕ → ℕ → Option ℕ
scan_bits zero w j = none
scan_bits (suc k) w j =
    let rest = scan_bits k w (j + 1) in if bit_and w (2 ^ j) == 0 then some j else rest

-- The outer loop.
pub scan_words : ℕ → PhysMem → ℕ → ℕ
scan_words zero s i = 0
scan_words (suc k) s i =
    let rest = scan_words k s (i + 1) in
    if word_at s i == word_ones
    then rest
    else elim (scan_bits 32 (word_at s i) 0) [ some j ↦ i * 32 + j | none ↦ rest ]

pub mmap_first_free : ℕ → PhysMem → ℕ
unfolding scan_words scan_bits
mmap_first_free blk_index s = scan_words (s.max_blocks / 32 - blk_index) s blk_index

-- `memset` of `n` bytes to 0xff, on little-endian words (see PhysMem/Bitmap for the bytes)
pub memset_ones : ℕ → List ℕ → List ℕ
memset_ones n [] = []
memset_ones n (w ∷ ws) =
    (if ltb 3 n then word_ones else w / 256 ^ n * 256 ^ n + (256 ^ n - 1)) ∷ memset_ones (n - 4) ws

-- `storage` is what stands at `base`.
pub phys_mem_init : ℕ → List ℕ → PhysMem → PhysMem
unfolding memset_ones
phys_mem_init size storage s =
    let blocks = size * 1024 % 2 ^ 32 / block_size in
    record s {
      memory_size = size;
      bitmap = memset_ones (blocks / 8) storage;
      max_blocks = blocks;
      used_blocks = blocks;
    }

pub acquire : PhysMem → Run PhysMem
acquire s = if s.lock then hung else done (record s { lock = true })

pub release : PhysMem → PhysMem
release s = record s { lock = false }

-- One round of the loops of the two functions on regions.
pub reserve_step : ℕ → PhysMem → ℕ × PhysMem
reserve_step addr s =
    if not (mmap_test addr s)
    then (
      addr + 1,
      let t = mmap_set addr s in record t { used_blocks = (t.used_blocks + 1) % 2 ^ 32 },
    )
    else (addr, s)

pub free_step : ℕ → PhysMem → ℕ × PhysMem
free_step addr s =
    if mmap_test addr s
    then (
      addr + 1,
      let t = mmap_unset addr s in record t { used_blocks = (t.used_blocks + 2 ^ 32 - 1) % 2 ^ 32 },
    )
    else (addr, s)

pub region_loop : (ℕ → PhysMem → ℕ × PhysMem) → ℕ → ℕ → PhysMem → PhysMem
region_loop step zero addr s = s
region_loop step (suc k) addr s = let (addr', s') = step addr s in region_loop step k addr' s'

pub on_region : (ℕ → PhysMem → ℕ × PhysMem) → ℕ → ℕ → PhysMem → Run (ErrorT × PhysMem)
unfolding region_loop acquire release
on_region step base length s =
    if not (length % block_size == 0) || not (base % block_size == 0)
    then panicked
    else (acquire s >>= λ t.
        done (error_ok, release (region_loop step (length / block_size) (base / block_size) t)))

pub phys_mem_reserve_region : ℕ → ℕ → PhysMem → Run (ErrorT × PhysMem)
unfolding on_region reserve_step mmap_set mmap_test
phys_mem_reserve_region = on_region reserve_step

pub phys_mem_free_region : ℕ → ℕ → PhysMem → Run (ErrorT × PhysMem)
unfolding on_region free_step mmap_unset mmap_test
phys_mem_free_region = on_region free_step

-- The lock is not released on the way out that finds no frame.
pub phys_mem_alloc_above : ℕ → PhysMem → Run (ℕ × PhysMem)
unfolding acquire release
phys_mem_alloc_above addr s =
    if leb (phys_mem_get_free_blocks_count s) 0
    then done (0, s)
    else (acquire s >>= λ t.
        let frame = mmap_first_free (ceil_division (addr / 4096 * 4096) (4096 * 32)) t in
        if frame == 0
        then done (0, t)
        else (let u = mmap_set frame t in
            done (
              frame * block_size % 2 ^ 32,
              release (record u { used_blocks = (u.used_blocks + 1) % 2 ^ 32 }),
            )))

pub phys_mem_alloc : PhysMem → Run (ℕ × PhysMem)
phys_mem_alloc = phys_mem_alloc_above 0

unfoldable pub phys_mem_alloc_above_1mb : PhysMem → Run (ℕ × PhysMem)
phys_mem_alloc_above_1mb = phys_mem_alloc_above 0x100000

pub phys_mem_dealloc : ℕ → PhysMem → Run (ErrorT × PhysMem)
unfolding acquire release
phys_mem_dealloc block s = acquire s >>= λ t.
    let u = mmap_unset (block / block_size) t in
    done (error_ok, release (record u { used_blocks = (u.used_blocks + 2 ^ 32 - 1) % 2 ^ 32 }))
