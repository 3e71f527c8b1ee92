-- ===== src/PhysMem/Alloc.antt =====
-- `phys_mem_alloc_above` and `phys_mem_dealloc`
use radix_os.Base.{
  Bool-cases, arith, false, if◌then◌else◌, inl, inr, leb, refl, suc, true, zero, ℕ, ◌%◌, ◌*◌, ◌+◌,
  ◌/◌, ◌<◌, ◌==◌, ◌^◌, ◌∙◌, ◌≡◌, ◌≤◌,
}
use radix_os.Exec.{done}
use radix_os.Utility.{ceil_division}
use radix_os.PhysMem.{
  PhysMem, block_size, mmap_set, mmap_first_free, phys_mem_get_free_blocks_count,
  phys_mem_alloc_above,
}
use radix_os.PhysMem.Blocks.{used, IsValid, used-lt, used-mmap_set, count_le}
use radix_os.PhysMem.FirstFree.{mmap_first_free_lem}
use radix_os.PhysMem.Invariant.{bound, mmap_set-IsValid}

-- the first block that the search from `addr` looks at
abbrev pub first_block : ℕ → ℕ
first_block addr = 32 * ceil_division (addr / 4096 * 4096) (4096 * 32)

-- The ways in which `phys_mem_alloc_above` comes back.
pub data Allocated (addr : ℕ) (s : PhysMem) (a : ℕ) (s' : PhysMem) : Type 0 where
  -- all blocks are in use
  exhausted : s.used_blocks ≡ s.max_blocks → a ≡ 0 → s' ≡ s → Allocated addr s a s'
  -- none is free in the whole words from the first one above `addr` on; the lock stays held
  none_above :
      s.used_blocks < s.max_blocks
      → a ≡ 0
      → s' ≡ record s { lock = true }
      → ((j : ℕ) → first_block addr ≤ j → j < 32 * (s.max_blocks / 32) → used s j ≡ 1)
      → Allocated addr s a s'
  -- block 0 is free and in the range, and is taken for a failure; the lock stays held
  zero_block :
      s.used_blocks < s.max_blocks
      → a ≡ 0
      → s' ≡ record s { lock = true }
      → first_block addr ≡ 0
      → used s 0 ≡ 0
      → Allocated addr s a s'
  -- block `f` was free, the first one above, and is now in use, as the only change
  block :
      (f : ℕ)
      → 0 < f
      → f < s.max_blocks
      → addr / 4096 ≤ f
      → a ≡ f * block_size
      → used s f ≡ 0
      → ((j : ℕ) → first_block addr ≤ j → j < f → used s j ≡ 1)
      → ((j : ℕ) → used s' j ≡ (if f == j then 1 else used s j))
      → s'.max_blocks ≡ s.max_blocks
      → s'.lock ≡ false
      → IsValid s'
      → Allocated addr s a s'

pub ceil_division-ge : (v d : ℕ) → 0 < d → v < 2 ^ 31 → v ≤ ceil_division v d * d
unfolding ceil_division
ceil_division-ge v d p h = elim (Bool-cases (v % d == 0)) [
  | inl exact ↦ rw exact (grind arith)
  | inr more ↦ rw more (grind arith)
]

-- the frame that the search from `addr` returns
abbrev pub frame_of : ℕ → PhysMem → ℕ
frame_of addr s =
    mmap_first_free (ceil_division (addr / 4096 * 4096) (4096 * 32)) (record s { lock = true })

mmap_set-max_blocks : (f : ℕ) (s : PhysMem) → (mmap_set f s).max_blocks ≡ s.max_blocks
unfolding mmap_set
mmap_set-max_blocks f s = refl

module _ (addr : ℕ) (s : PhysMem) (unlocked : s.lock ≡ false)
    (room : leb (phys_mem_get_free_blocks_count s) 0 ≡ false) where
  pub alloc_none :
      (frame_of addr s == 0) ≡ true
      → phys_mem_alloc_above addr s ≡ done (0, record s { lock = true })
  unfolding phys_mem_alloc_above
  alloc_none e = rw (room, unlocked, e)

  pub alloc_some :
      (frame_of addr s == 0) ≡ false
      → phys_mem_alloc_above addr s
        ≡ done (
          frame_of addr s * block_size % 2 ^ 32,
          record (mmap_set (frame_of addr s) s) {
            used_blocks = (s.used_blocks + 1) % 2 ^ 32;
            lock = false;
          },
        )
  unfolding phys_mem_alloc_above mmap_set
  alloc_some e = rw (room, unlocked, e)

free_count-lt :
    (s : PhysMem)
    → IsValid s
    → leb (phys_mem_get_free_blocks_count s) 0 ≡ false
    → s.used_blocks < s.max_blocks
unfolding phys_mem_get_free_blocks_count
free_count-lt s v h = ground (arith, v.counted, v.small, count_le s.max_blocks (used s) (used-lt s))

free_count-eq :
    (s : PhysMem)
    → IsValid s
    → leb (phys_mem_get_free_blocks_count s) 0 ≡ true
    → s.used_blocks ≡ s.max_blocks
unfolding phys_mem_get_free_blocks_count
free_count-eq s v h = ground (arith, v.counted, v.small, count_le s.max_blocks (used s) (used-lt s))

abbrev Outcome : ℕ → PhysMem → Type 0
Outcome addr s =
    (a : ℕ) × (s' : PhysMem) × (phys_mem_alloc_above addr s ≡ done (a, s')) × Allocated addr s a s'

module _ (addr : ℕ) (s : PhysMem) (v : IsValid s) (unlocked : s.lock ≡ false)
    (small : addr < 2 ^ 31) (room : leb (phys_mem_get_free_blocks_count s) 0 ≡ false) where
  alloc_found :
      (f : ℕ)
      → frame_of addr s ≡ f
      → first_block addr ≤ f
      → f < 32 * (s.max_blocks / 32)
      → used s f ≡ 0
      → ((j : ℕ) → first_block addr ≤ j → j < f → used s j ≡ 1)
      → Outcome addr s
  alloc_found zero e lo hi free before = (
    0,
    record s { lock = true },
    alloc_none addr s unlocked room (rw e),
    zero_block (free_count-lt s v room) refl refl (omega arith) free,
  )
  alloc_found (suc g) e lo hi free before =
      let f = suc g in
      let inside : f < s.max_blocks = omega arith in
      let fits : suc g * block_size % 2 ^ 32 ≡ suc g * block_size = omega (arith, v.small) in
      let above : addr / 4096 * 4096 ≤ first_block addr * 4096 =
        omega
          (arith, ceil_division-ge (addr / 4096 * 4096) (4096 * 32) (omega arith) (omega arith)) in
      (
        f * block_size,
        record (mmap_set f s) { used_blocks = (s.used_blocks + 1) % 2 ^ 32; lock = false },
        alloc_some addr s unlocked room (rw e (ground arith)) ∙ rw (e, fits),
        block f (omega arith) inside (omega arith) refl free before
            (used-mmap_set s f (bound s f v inside)) (mmap_set-max_blocks f s) refl
            (mmap_set-IsValid s f v inside false free),
      )

-- On a valid state with the lock free, and for an address below 2^31, `phys_mem_alloc_above` comes
-- back, in one of four ways. All blocks are in use, the address is 0 and nothing has changed. Or
-- all blocks are in use from the first word of 32 blocks above the address on to the end of the
-- last word that is a whole one, block 32 * (max_blocks / 32) - 1, the blocks behind which are not
-- looked at; then the address is 0, and the lock stays held. Or block 0 is what the search found,
-- with the same outcome. Or the block that is returned was free, is the first such that the search
-- looks at, does not lie below the page of the address, and is in use now, which is all that changes
-- in the blocks, the lock being free again and the counter right.
pub phys_mem_alloc_above_lem :
    (addr : ℕ) (s : PhysMem)
    → IsValid s
    → s.lock ≡ false
    → addr < 2 ^ 31
    → (a : ℕ) × (s' : PhysMem) × (phys_mem_alloc_above addr s ≡ done (a, s'))
      × Allocated addr s a s'
unfolding phys_mem_alloc_above
phys_mem_alloc_above_lem addr s v unlocked small =
    elim (Bool-cases (leb (phys_mem_get_free_blocks_count s) 0)) [
      | inl full ↦
          (0, s, rw (full, phys_mem_alloc_above), exhausted (free_count-eq s v full) refl refl)
      | inr room ↦
          elim (mmap_first_free_lem (record s { lock = true }) v.words
            (ceil_division (addr / 4096 * 4096) (4096 * 32))) [
              | inl (lo, hi, free, before) ↦
                  alloc_found addr s v unlocked small room (frame_of addr s) refl lo hi free before
              | inr (none_free, taken) ↦ (
                0,
                record s { lock = true },
                alloc_none addr s unlocked room (rw none_free),
                none_above (free_count-lt s v room) refl refl taken,
              )
            ]
    ]
