-- ===== src/PhysMem/Region.antt =====
-- `phys_mem_reserve_region` and `phys_mem_free_region`
use native.Mathlib.Decide.{ℕ_discrete}
use radix_os.Base.{
  Bool, Bool-cases, ap, arith, false, if◌then◌else◌, inl, inr, leb, ltb, refl, suc, sym, true, zero,
  ℕ, ◌%◌, ◌&&◌, ◌*◌, ◌+◌, ◌/◌, ◌<◌, ◌==◌, ◌∙◌, ◌≡◌, ◌≢◌, ◌≤◌, ◌⊎◌,
}
use radix_os.Exec.{done}
use radix_os.Types.{error_ok}
use radix_os.PhysMem.{
  PhysMem, block_size, mmap_set, mmap_unset, mmap_test, on_region, region_loop, reserve_step,
  free_step, phys_mem_reserve_region, phys_mem_free_region,
}
use radix_os.PhysMem.Blocks.{used, IsValid, mmap_test_lem, used-lt, used-mmap_set, used-mmap_unset}
use radix_os.PhysMem.Invariant.{bound, mmap_set-IsValid, mmap_unset-IsValid}

-- Whether block `j` is one of the `m` blocks from `i` on.
abbrev pub within : ℕ → ℕ → ℕ → Bool
within i m j = leb i j && ltb j (i + m)

-- Of the `n` blocks from `i` on, the first `m` have been turned from 1 - `u` to `u`, no other block
-- has changed, and if `m` is less than `n` then block `i + m` stood at `u` before.
pub record Turned (u i n : ℕ) (s s' : PhysMem) : Type 0 where
  pub turned : ℕ
  pub at_most : turned ≤ n
  pub before : (j : ℕ) → within i turned j ≡ true → used s j ≢ u
  pub after : (j : ℕ) → used s' j ≡ (if within i turned j then u else used s j)
  pub stopped : turned < n → used s (i + turned) ≡ u
  pub valid : IsValid s'
  pub kept : s'.max_blocks ≡ s.max_blocks
  pub locked : s'.lock ≡ s.lock

-- What a step of the loop does for block `i`: it turns it, or finds it as it should be.
abbrev StepTurns : (ℕ → PhysMem → ℕ × PhysMem) → ℕ → Type 0
StepTurns step u =
    (i : ℕ) (s : PhysMem)
    → IsValid s
    → i < s.max_blocks
    → ((used s i ≡ u) × (step i s ≡ (i, s)))
      ⊎ ((used s i ≢ u)
          × (s' : PhysMem) × (step i s ≡ (i + 1, s'))
          × IsValid s'
          × (s'.max_blocks ≡ s.max_blocks)
          × (s'.lock ≡ s.lock)
          × ((j : ℕ) → used s' j ≡ (if i == j then u else used s j)))

reserve_step_lem : StepTurns reserve_step 1
unfolding reserve_step mmap_set
reserve_step_lem i s v inside = elim (Bool-cases (mmap_test i s)) [
  | inl taken ↦ inl (ground (arith, mmap_test_lem i s), rw taken refl)
  | inr free ↦ inr (
    ground (arith, mmap_test_lem i s),
    _,
    rw free refl,
    mmap_set-IsValid s i v inside s.lock (ground (arith, mmap_test_lem i s, used-lt s i)),
    refl,
    refl,
    used-mmap_set s i (bound s i v inside),
  )
]

free_step_lem : StepTurns free_step 0
unfolding free_step mmap_unset
free_step_lem i s v inside = elim (Bool-cases (mmap_test i s)) [
  | inr free ↦ inl (ground (arith, mmap_test_lem i s, used-lt s i), rw free refl)
  | inl taken ↦ inr (
    ground (arith, mmap_test_lem i s),
    _,
    rw taken refl,
    mmap_unset-IsValid s i v inside s.lock (ground (arith, mmap_test_lem i s)),
    refl,
    refl,
    used-mmap_unset s i (bound s i v inside),
  )
]

module _ (step : ℕ → PhysMem → ℕ × PhysMem) (u : ℕ) (turns : StepTurns step u) where
  -- Once the block is as it should be, the loop never gets past it.
  region_loop-stuck : (n i : ℕ) (s : PhysMem) → step i s ≡ (i, s) → region_loop step n i s ≡ s
  unfolding region_loop
  region_loop-stuck zero i s e = refl
  region_loop-stuck (suc n) i s e = rw e (region_loop-stuck n i s e)

  unchanged : (n i : ℕ) (s : PhysMem) → IsValid s → (0 < n → used s i ≡ u) → Turned u i n s s
  unchanged n i s v h = record {
    turned = 0;
    at_most = omega arith;
    before = λ j p. absurd (ground arith);
    after = λ j. ground arith;
    stopped = λ p. (ap (used s) (omega arith) ∙ h p);
    valid = v;
    kept = refl;
    locked = refl;
  }

  one_more :
      (n i : ℕ) (s t s' : PhysMem)
      → used s i ≢ u
      → t.max_blocks ≡ s.max_blocks
      → t.lock ≡ s.lock
      → ((j : ℕ) → used t j ≡ (if i == j then u else used s j))
      → Turned u (i + 1) n t s'
      → Turned u i (suc n) s s'
  one_more n i s t s' ne k l first r = record {
    turned = suc r.turned;
    at_most = omega (arith, r.at_most);
    before = λ j p q. elim (ℕ_discrete i j) [
      | yes e ↦ ne (ap (used s) e ∙ q)
      | no d ↦ r.before j (ground arith) (first j ∙ ground arith)
    ];
    after = λ j. ground (arith, r.after j, first j);
    stopped = λ p.
        let shift : i + suc r.turned ≡ i + 1 + r.turned = omega arith in
        ap (used s) shift ∙ sym (first (i + 1 + r.turned) ∙ ground arith) ∙ r.stopped (omega arith);
    valid = r.valid;
    kept = r.kept ∙ k;
    locked = r.locked ∙ l;
  }

  region_loop_lem :
      (n i : ℕ) (s : PhysMem)
      → IsValid s
      → i + n ≤ s.max_blocks
      → Turned u i n s (region_loop step n i s)
  unfolding region_loop
  region_loop_lem zero i s v h = unchanged 0 i s v (λ p. absurd (omega arith))
  region_loop_lem (suc n) i s v h = elim (turns i s v (omega arith)) [
    | inl (same, e) ↦ rw (e, region_loop-stuck n i s e) (unchanged (suc n) i s v (λ p. same))
    | inr (ne, t, e, v', k, l, first) ↦
        rw e (one_more n i s t _ ne k l first (region_loop_lem n (i + 1) t v' (omega arith)))
  ]

module _ (step : ℕ → PhysMem → ℕ × PhysMem) (u : ℕ) (turns : StepTurns step u) where
  on_region_lem :
      (b n : ℕ) (s : PhysMem)
      → IsValid s
      → s.lock ≡ false
      → b + n ≤ s.max_blocks
      → (s' : PhysMem) × (on_region step (b * block_size) (n * block_size) s ≡ done (error_ok, s'))
        × Turned u b n s s'
  unfolding on_region
  on_region_lem b n s v unlocked h =
      let t = record s { lock = true } in
      let one : n * block_size % block_size ≡ 0 = omega arith in
      let other : b * block_size % block_size ≡ 0 = omega arith in
      let many : n * block_size / block_size ≡ n = omega arith in
      let first : b * block_size / block_size ≡ b = omega arith in
      let r =
        region_loop_lem step u turns n b t
          (record { words = v.words; covered = v.covered; small = v.small; counted = v.counted })
          h in
      (
        record (region_loop step n b t) { lock = false },
        rw (one, other, many, first, unlocked, on_region) refl,
        record {
          turned = r.turned;
          at_most = r.at_most;
          before = r.before;
          after = r.after;
          stopped = r.stopped;
          valid = record {
            words = r.valid.words;
            covered = r.valid.covered;
            small = r.valid.small;
            counted = r.valid.counted;
          };
          kept = r.kept;
          locked = sym unlocked;
        },
      )

-- On a valid state with the lock free, reserving `n` blocks from block `b` on, all of them existing,
-- returns ERROR_OK. Of these blocks the loop marks the ones before the first that is already in use,
-- and there it stays: no later block is marked, and all `n` are only if all were free. Nothing else
-- changes, the counter is right and the lock is free again.
pub phys_mem_reserve_region_lem :
    (b n : ℕ) (s : PhysMem)
    → IsValid s
    → s.lock ≡ false
    → b + n ≤ s.max_blocks
    → (s' : PhysMem) × (phys_mem_reserve_region (b * block_size) (n * block_size) s
        ≡ done (error_ok, s'))
      × Turned 1 b n s s'
unfolding phys_mem_reserve_region
phys_mem_reserve_region_lem = on_region_lem reserve_step 1 reserve_step_lem

-- The same of freeing: only the blocks before the first one that is already free are freed.
pub phys_mem_free_region_lem :
    (b n : ℕ) (s : PhysMem)
    → IsValid s
    → s.lock ≡ false
    → b + n ≤ s.max_blocks
    → (s' : PhysMem) × (phys_mem_free_region (b * block_size) (n * block_size) s
        ≡ done (error_ok, s'))
      × Turned 0 b n s s'
unfolding phys_mem_free_region
phys_mem_free_region_lem = on_region_lem free_step 0 free_step_lem
