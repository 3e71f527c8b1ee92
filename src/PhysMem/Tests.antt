-- ===== src/PhysMem/Tests.antt =====
-- The theorems on the physical memory manager at concrete states.
use radix_os.Utility.{ceil_division}
use radix_os.Base.{[], arith, false, refl, true, ℕ, ◌*◌, ◌<◌, ◌∷◌, ◌≡◌}
use radix_os.Bits.{bit}
use radix_os.Exec.{done, hung}
use radix_os.Types.{error_ok}
use radix_os.PhysMem.{
  PhysMem, block_size, mmap_set, phys_mem_alloc_above, phys_mem_dealloc, phys_mem_init,
  phys_mem_reserve_region, phys_mem_free_region, phys_mem_get_free_blocks_count, mmap_first_free,
  scan_words, scan_bits,
}
use radix_os.PhysMem.Blocks.{used, IsValid}
use radix_os.PhysMem.Alloc.{Allocated, phys_mem_alloc_above_lem}
use radix_os.PhysMem.Dealloc.{phys_mem_dealloc-alloc, phys_mem_alloc_above-locked}
use radix_os.PhysMem.Init.{phys_mem_init_lem}
use radix_os.PhysMem.Region.{Turned, phys_mem_reserve_region_lem, phys_mem_free_region_lem}

-- 32 blocks, of which only the first is in use
abbrev one_used : PhysMem
one_used = record {
  memory_size = 128;
  used_blocks = 1;
  max_blocks = 32;
  bitmap = 1 ∷ [];
  lock = false;
}

one_used-IsValid : IsValid one_used
unfolding bit
one_used-IsValid = record {
  words = (omega arith, tt);
  covered = omega arith;
  small = omega arith;
  counted = refl;
}

-- 32 blocks, of which only the first is free
abbrev first_free : PhysMem
first_free = record {
  memory_size = 128;
  used_blocks = 31;
  max_blocks = 32;
  bitmap = 0xffff_fffe ∷ [];
  lock = false;
}

first_free-IsValid : IsValid first_free
unfolding bit
first_free-IsValid = record {
  words = (omega arith, tt);
  covered = omega arith;
  small = omega arith;
  counted = refl;
}

phys_mem_alloc_above_lem_example :
    (a : ℕ) × (s' : PhysMem) × (phys_mem_alloc_above 0x100 one_used ≡ done (a, s'))
    × Allocated 0x100 one_used a s'
phys_mem_alloc_above_lem_example =
    phys_mem_alloc_above_lem 0x100 one_used one_used-IsValid refl (omega arith)

abbrev two_used : PhysMem
two_used = record (mmap_set 1 one_used) { used_blocks = 2; lock = false }

one_used-alloc : phys_mem_alloc_above 0x100 one_used ≡ done (0x1000, two_used)
unfolding phys_mem_alloc_above phys_mem_get_free_blocks_count mmap_first_free scan_words scan_bits
    ceil_division mmap_set
one_used-alloc = refl

-- 40 blocks, of which the last 8 are free: they are behind the last whole word.
abbrev last_free : PhysMem
last_free = record {
  memory_size = 160;
  used_blocks = 32;
  max_blocks = 40;
  bitmap = 0xffff_ffff ∷ 0 ∷ [];
  lock = false;
}

last_free-locked : phys_mem_alloc_above 0 last_free ≡ done (0, record last_free { lock = true })
unfolding phys_mem_alloc_above phys_mem_get_free_blocks_count mmap_first_free scan_words scan_bits
    ceil_division
last_free-locked = refl

phys_mem_dealloc-alloc_example :
    (used one_used 1 ≡ 0)
    × (used two_used 1 ≡ 1)
    × (t' : PhysMem) × (phys_mem_dealloc 0x1000 two_used ≡ done (error_ok, t'))
    × IsValid t'
    × (t'.lock ≡ false)
    × ((j : ℕ) → used t' j ≡ used one_used j)
phys_mem_dealloc-alloc_example =
    phys_mem_dealloc-alloc 0x100 one_used 0x1000 two_used one_used-IsValid refl (omega arith)
      one_used-alloc (λ e. omega arith)

first_free-locked : phys_mem_alloc_above 0 first_free ≡ done (0, record first_free { lock = true })
unfolding phys_mem_alloc_above phys_mem_get_free_blocks_count mmap_first_free scan_words scan_bits
    ceil_division
first_free-locked = refl

phys_mem_alloc_above-locked_example :
    ((addr : ℕ) → phys_mem_alloc_above addr (record first_free { lock = true }) ≡ hung)
    × ((b : ℕ) → phys_mem_dealloc b (record first_free { lock = true }) ≡ hung)
    × ((base n : ℕ)
        → phys_mem_reserve_region
            (base * block_size)
            (n * block_size)
            (record first_free { lock = true })
          ≡ hung)
    × ((base n : ℕ)
        → phys_mem_free_region
            (base * block_size)
            (n * block_size)
            (record first_free { lock = true })
          ≡ hung)
phys_mem_alloc_above-locked_example =
    phys_mem_alloc_above-locked 0 first_free (record first_free { lock = true }) first_free-IsValid
      refl (omega arith) (omega arith) first_free-locked

phys_mem_reserve_region_lem_example :
    (s' : PhysMem) × (phys_mem_reserve_region (0 * block_size) (4 * block_size) one_used
      ≡ done (error_ok, s'))
    × Turned 1 0 4 one_used s'
phys_mem_reserve_region_lem_example =
    phys_mem_reserve_region_lem 0 4 one_used one_used-IsValid refl (omega arith)

phys_mem_free_region_lem_example :
    (s' : PhysMem) × (phys_mem_free_region (1 * block_size) (3 * block_size) first_free
      ≡ done (error_ok, s'))
    × Turned 0 1 3 first_free s'
phys_mem_free_region_lem_example =
    phys_mem_free_region_lem 1 3 first_free first_free-IsValid refl (omega arith)

phys_mem_init_lem_example :
    let t = phys_mem_init 128 (7 ∷ []) one_used in
    IsValid t
    × (t.max_blocks ≡ 32)
    × ((j : ℕ) → j < 32 → used t j ≡ 1)
    × (phys_mem_get_free_blocks_count t ≡ 0)
    × (t.lock ≡ false)
phys_mem_init_lem_example =
    phys_mem_init_lem 128 (7 ∷ []) one_used (omega arith) refl (omega arith, tt) (omega arith)
