-- ===== src/PhysMem/Dealloc.antt =====
-- `phys_mem_dealloc`, and the lock that a failed allocation keeps.
use radix_os.Base.{
  ap, ap₂, arith, false, if◌then◌else◌, leb, refl, subst, sym, true, ℕ, ◌%◌, ◌*◌, ◌+◌, ◌-◌, ◌/◌,
  ◌<◌, ◌==◌, ◌^◌, ◌∙◌, ◌≡◌, ◌≢◌,
}
use radix_os.Exec.{done, hung}
use radix_os.Types.{error_ok}
use radix_os.PhysMem.{
  on_region, reserve_step, free_step, phys_mem_reserve_region, phys_mem_free_region, PhysMem,
  block_size, mmap_unset, phys_mem_get_free_blocks_count, phys_mem_alloc_above, phys_mem_dealloc,
}
use radix_os.PhysMem.Blocks.{used, IsValid, used-mmap_unset}
use radix_os.PhysMem.Alloc.{
  block, zero_block, none_above, exhausted, Allocated, phys_mem_alloc_above_lem,
}
use radix_os.PhysMem.Invariant.{bound, mmap_unset-IsValid}

-- Giving back the address of a block in use clears that block and nothing else, and leaves the
-- lock free and the counter right.
pub phys_mem_dealloc_lem :
    (f : ℕ) (s : PhysMem)
    → IsValid s
    → s.lock ≡ false
    → f < s.max_blocks
    → used s f ≡ 1
    → (s' : PhysMem) × (phys_mem_dealloc (f * block_size) s ≡ done (error_ok, s'))
      × IsValid s'
      × (s'.lock ≡ false)
      × ((j : ℕ) → used s' j ≡ (if f == j then 0 else used s j))
unfolding phys_mem_dealloc mmap_unset
phys_mem_dealloc_lem f s v unlocked inside taken =
    let same : f * block_size / block_size ≡ f = omega arith in
    (
      record (mmap_unset f s) { used_blocks = (s.used_blocks + 2 ^ 32 - 1) % 2 ^ 32; lock = false },
      rw (unlocked, same),
      mmap_unset-IsValid s f v inside false taken,
      refl,
      used-mmap_unset s f (bound s f v inside),
    )

-- An address in a block stands for the block.
pub dealloc-block :
    (a : ℕ) (s : PhysMem) → phys_mem_dealloc a s ≡ phys_mem_dealloc (a / block_size * block_size) s
unfolding phys_mem_dealloc
dealloc-block a s =
    let same : a / block_size * block_size / block_size ≡ a / block_size = omega arith in
    rw same refl

-- The block of the address was free and is in use.
Allocated-taken :
    (addr : ℕ) (s : PhysMem) (a : ℕ) (t : PhysMem)
    → Allocated addr s a t
    → a ≢ 0
    → (used s (a / block_size) ≡ 0) × (used t (a / block_size) ≡ 1)
Allocated-taken addr s a t (exhausted _ z _) ne = absurd (ne z)
Allocated-taken addr s a t (none_above _ z _ _) ne = absurd (ne z)
Allocated-taken addr s a t (zero_block _ z _ _ _) ne = absurd (ne z)
Allocated-taken addr s a t (block f pos inside above e free before change same unlocked v) ne =
    let same_block : a / block_size ≡ f = omega (arith, e) in
    (ap (used s) same_block ∙ free, ap (used t) same_block ∙ change f ∙ ground arith)

-- `phys_mem_dealloc` of the address undoes an allocation.
pub Allocated-undone :
    (addr : ℕ) (s : PhysMem) (a : ℕ) (t : PhysMem)
    → Allocated addr s a t
    → a ≢ 0
    → (t' : PhysMem) × (phys_mem_dealloc a t ≡ done (error_ok, t'))
      × IsValid t'
      × (t'.lock ≡ false)
      × ((j : ℕ) → used t' j ≡ used s j)
Allocated-undone addr s a t (exhausted _ z _) ne = absurd (ne z)
Allocated-undone addr s a t (none_above _ z _ _) ne = absurd (ne z)
Allocated-undone addr s a t (zero_block _ z _ _ _) ne = absurd (ne z)
Allocated-undone addr s a t (block f pos inside above e free before change same unlocked v) ne =
    let (t', got, v', unlocked', back) =
      phys_mem_dealloc_lem f t v unlocked (omega (arith, same)) (change f ∙ ground arith) in
    (
      t',
      ap (λ x. phys_mem_dealloc x t) e ∙ got,
      v',
      unlocked',
      λ j. ground (arith, back j, change j),
    )

-- Where `phys_mem_alloc_above`, on a valid state with the lock free and for an address below 2^31,
-- comes back with an address other than 0, then that block was free before and is in use after
-- the call, and `phys_mem_dealloc` of the address comes back with exactly the blocks in use that were
-- before the allocation, in a valid state with the lock free.
pub phys_mem_dealloc-alloc :
    (addr : ℕ) (s : PhysMem) (a : ℕ) (t : PhysMem)
    → IsValid s
    → s.lock ≡ false
    → addr < 2 ^ 31
    → phys_mem_alloc_above addr s ≡ done (a, t)
    → a ≢ 0
    → (used s (a / block_size) ≡ 0)
      × (used t (a / block_size) ≡ 1)
      × (t' : PhysMem) × (phys_mem_dealloc a t ≡ done (error_ok, t'))
      × IsValid t'
      × (t'.lock ≡ false)
      × ((j : ℕ) → used t' j ≡ used s j)
phys_mem_dealloc-alloc addr s a t v unlocked small run ne =
    let (b, u, run', how) = phys_mem_alloc_above_lem addr s v unlocked small in
    let e : b ≡ a = cc in
    let e' : u ≡ t = cc in
    let how' : Allocated addr s a t =
      subst (λ (r : ℕ × PhysMem). Allocated addr s r.0 r.1) (ap₂ (λ x y. (x, y)) e e') how in
    let (free, taken) = Allocated-taken addr s a t how' ne in
    let (t', got, v', unlocked', back) = Allocated-undone addr s a t how' ne in
    (free, taken, t', got, v', unlocked', back)

module _ (s : PhysMem) (held : s.lock ≡ true) where
  alloc_hung :
      leb (phys_mem_get_free_blocks_count s) 0 ≡ false
      → (addr : ℕ) → phys_mem_alloc_above addr s ≡ hung
  unfolding phys_mem_alloc_above
  alloc_hung room addr = rw (room, held, phys_mem_alloc_above)

  dealloc_hung : (b : ℕ) → phys_mem_dealloc b s ≡ hung
  unfolding phys_mem_dealloc
  dealloc_hung b = rw (held, phys_mem_dealloc)

  on_region_hung :
      (step : ℕ → PhysMem → ℕ × PhysMem) (base n : ℕ)
      → on_region step (base * block_size) (n * block_size) s ≡ hung
  unfolding on_region
  on_region_hung step base n =
      let one : n * block_size % block_size ≡ 0 = omega arith in
      let other : base * block_size % block_size ≡ 0 = omega arith in
      rw (one, other, held, on_region)

free_count-pos :
    (s : PhysMem)
    → IsValid s
    → s.used_blocks < s.max_blocks
    → leb (phys_mem_get_free_blocks_count s) 0 ≡ false
unfolding phys_mem_get_free_blocks_count
free_count-pos s v room = ground (arith, v.small)

Allocated-locked :
    (addr : ℕ) (s : PhysMem) (a : ℕ) (t : PhysMem)
    → Allocated addr s a t
    → a ≡ 0
    → s.used_blocks < s.max_blocks
    → t ≡ record s { lock = true }
Allocated-locked addr s a t (exhausted full _ _) z room = absurd (omega arith)
Allocated-locked addr s a t (none_above _ _ e _) z room = e
Allocated-locked addr s a t (zero_block _ _ e _ _) z room = e
Allocated-locked addr s a t (block f pos inside above e free before change same unlocked v) z room =
    absurd (omega arith)

-- Where `phys_mem_alloc_above` comes back without a block although some blocks are free, it has
-- kept the lock: from then on every call of it, every `phys_mem_dealloc` and every
-- `phys_mem_reserve_region` or `phys_mem_free_region` of whole blocks spins for ever.
pub phys_mem_alloc_above-locked :
    (addr : ℕ) (s s' : PhysMem)
    → IsValid s
    → s.lock ≡ false
    → addr < 2 ^ 31
    → s.used_blocks < s.max_blocks
    → phys_mem_alloc_above addr s ≡ done (0, s')
    → ((addr' : ℕ) → phys_mem_alloc_above addr' s' ≡ hung)
      × ((b : ℕ) → phys_mem_dealloc b s' ≡ hung)
      × ((base n : ℕ) → phys_mem_reserve_region (base * block_size) (n * block_size) s' ≡ hung)
      × ((base n : ℕ) → phys_mem_free_region (base * block_size) (n * block_size) s' ≡ hung)
unfolding phys_mem_reserve_region phys_mem_free_region phys_mem_get_free_blocks_count
phys_mem_alloc_above-locked addr s s' v unlocked small room h =
    let (a, t, run, how) = phys_mem_alloc_above_lem addr s v unlocked small in
    let z : a ≡ 0 = cc in
    let e : t ≡ s' = cc in
    let kept : s' ≡ record s { lock = true } = sym e ∙ Allocated-locked addr s a t how z room in
    let held : s'.lock ≡ true = ap (λ x. x.lock) kept in
    let r : leb (phys_mem_get_free_blocks_count s') 0 ≡ false =
      ap (λ x. leb (phys_mem_get_free_blocks_count x) 0) kept ∙ free_count-pos s v room in
    (
      alloc_hung s' held r,
      dealloc_hung s' held,
      on_region_hung s' held reserve_step,
      on_region_hung s' held free_step,
    )
