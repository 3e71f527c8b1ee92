-- ===== src/VirtMem/Alloc.antt =====
-- `virt_mem_alloc_page_f`, and that `virt_mem_free_page` undoes it.
use native.Mathlib.Decide.{ℕ_discrete}
use radix_os.VirtMem.Free.{virt_mem_free_page_lem, IsFreed}
use radix_os.Base.{
  ap, arith, false, if◌then◌else◌, inl, inr, none, refl, some, sym, true, ℕ, ◌%◌, ◌*◌, ◌+◌, ◌/◌,
  ◌<◌, ◌==◌, ◌^◌, ◌∙◌, ◌≡◌, ◌≢◌, ◌⊎◌,
}
use radix_os.Exec.{done}
use radix_os.Types.{ErrorT, error_ok, error_occur}
use radix_os.PhysMem.{PhysMem, phys_mem_alloc_above, phys_mem_alloc_above_1mb}
use radix_os.PhysMem.Blocks.{used}
use radix_os.PhysMem.Blocks as Blocks
use radix_os.PhysMem.Alloc.{
  Allocated, exhausted, none_above, zero_block, block, phys_mem_alloc_above_lem,
}
use radix_os.VirtMem.{virt_mem_free_page, VirtMem, dir_entry, walk, virt_mem_alloc_page_f}
use radix_os.VirtMem.Store.{IsSpace, IsSpace-phys, walk-phys}
use radix_os.VirtMem.Map.{IsMapped, Mapped, no_table, with_page, virt_mem_map_page_lem}

-- The page of `addr` has the frame `f`, which was free, is in use, and has no table in it.
pub record IsAllocated (addr f : ℕ) (s t : VirtMem) : Type 0 where
  pub pos : 0 < f
  pub inside : f < t.phys.max_blocks
  pub free : used s.phys f ≡ 0
  pub taken : used t.phys f ≡ 1
  pub apart : (i : ℕ) → i < 1024 → dir_entry t i % 2 ≡ 1 → dir_entry t i / 4096 ≢ f
  pub space : IsSpace t
  pub unlocked : t.phys.lock ≡ false
  pub walks :
      (b : ℕ)
      → b < 2 ^ 32
      → b / 2 ^ 22 ≢ 768
      → walk t b ≡ (if b / 4096 == addr / 4096 then some (f * 4096 + b % 4096) else walk s b)

-- The ways in which `virt_mem_alloc_page_f` comes back.
pub data AllocatedPage (addr : ℕ) (s : VirtMem) (error : ErrorT) (t : VirtMem) : Type 0 where
  -- no frame was found, and nothing was taken
  no_frame :
      (p : PhysMem)
      → error ≡ error_occur
      → t ≡ record s { phys = p }
      → ((j : ℕ) → used p j ≡ used s.phys j)
      → AllocatedPage addr s error t
  -- a frame was taken, but none was found for the table; the frame stays in use
  lost_frame :
      (f : ℕ) (p : PhysMem)
      → error ≡ error_occur
      → t ≡ record s { phys = p }
      → used s.phys f ≡ 0
      → ((j : ℕ) → used p j ≡ (if f == j then 1 else used s.phys j))
      → AllocatedPage addr s error t
  with_frame : (f : ℕ) → error ≡ error_ok → IsAllocated addr f s t → AllocatedPage addr s error t

module _ (s : VirtMem) (v : IsSpace s) (addr : ℕ) (h : addr < 2 ^ 32) (other : addr / 2 ^ 22 ≢ 768)
    (flags : ℕ) (few : flags < 4096) (odd : flags % 2 ≡ 1) where
  abbrev Outcome : Type 0
  Outcome =
      (error : ErrorT) × (t : VirtMem) × (virt_mem_alloc_page_f addr flags s ≡ done (error, t))
      × AllocatedPage addr s error t

  failed :
      (p : PhysMem)
      → ((j : ℕ) → used p j ≡ used s.phys j)
      → phys_mem_alloc_above 0x10_0000 s.phys ≡ done (0, p)
      → Outcome
  unfolding virt_mem_alloc_page_f phys_mem_alloc_above_1mb
  failed p same got = (error_occur, record s { phys = p }, rw got refl, no_frame p refl refl same)

  module _ (p : PhysMem) (f : ℕ) (pos : 0 < f) (inside : f < s.phys.max_blocks)
      (free : used s.phys f ≡ 0)
      (change : (j : ℕ) → used p j ≡ (if f == j then 1 else used s.phys j))
      (size : p.max_blocks ≡ s.phys.max_blocks) (valid : Blocks.IsValid p) where
    abbrev taken_space : VirtMem
    taken_space = record s { phys = p }

    taken_space-IsSpace : IsSpace taken_space
    taken_space-IsSpace =
        IsSpace-phys s p v valid
          (λ i d o. change (dir_entry s i / 4096) ∙ ground (arith, v.taken i d o))

    used_now : used p f ≡ 1
    used_now = change f ∙ ground arith

    mapped : (t : VirtMem) → IsMapped addr f taken_space t → IsAllocated addr f s t
    mapped t m = record {
      pos = pos;
      inside = omega (arith, m.grown.max_blocks, size);
      free = free;
      taken = m.grown.kept f used_now;
      apart = λ i d o e. apart_from i d e (m.grown.tables i d o);
      space = m.space;
      unlocked = m.unlocked;
      walks = λ b d ne. m.walks b d ne ∙ rw (walk-phys s p b) refl;
    }
      where
        apart_from :
            (i : ℕ)
            → i < 1024
            → dir_entry t i / 4096 ≡ f
            → (used p (dir_entry t i / 4096) ≡ 0)
              ⊎ ((dir_entry s i % 2 ≡ 1) × (dir_entry t i / 4096 ≡ dir_entry s i / 4096))
            → ⊥
        apart_from i d e (inl new) =
            let none_used : used p f ≡ 0 = ap (used p) (sym e) ∙ new in
            omega (arith, none_used, used_now)
        apart_from i d e (inr (o, same)) =
            let one_used : used s.phys f ≡ 1 = ap (used s.phys) (sym e ∙ same) ∙ v.taken i d o in
            omega (arith, one_used, free)

    by_map :
        (error : ErrorT) (t : VirtMem)
        → Mapped addr f taken_space error t
        → AllocatedPage addr s error t
    by_map error t (no_table q e absent same frames) =
        lost_frame f q e same free (λ j. frames j ∙ change j)
    by_map error t (with_page e m) = with_frame f e (mapped t m)

    found : p.lock ≡ false → phys_mem_alloc_above 0x10_0000 s.phys ≡ done (f * 4096, p) → Outcome
    unfolding virt_mem_alloc_page_f phys_mem_alloc_above_1mb
    found unlocked got =
        let some_frame : (f * 4096 == 0) ≡ false = ground arith in
        let (error, t, run, way) =
          virt_mem_map_page_lem taken_space addr f flags taken_space-IsSpace unlocked h other
            (omega (arith, v.phys.small)) few odd in
        (error, t, rw (got, some_frame) run, by_map error t way)

  by_way :
      (a : ℕ) (p : PhysMem)
      → phys_mem_alloc_above 0x10_0000 s.phys ≡ done (a, p)
      → Allocated 0x10_0000 s.phys a p
      → Outcome
  by_way a p got (exhausted _ e same) =
      failed p (λ j. ap (λ q. used q j) same) (got ∙ ap (λ x. done (x, p)) e)
  by_way a p got (none_above _ e same _) =
      failed p (λ j. ap (λ q. used q j) same) (got ∙ ap (λ x. done (x, p)) e)
  by_way a p got (zero_block _ e same _ _) =
      failed p (λ j. ap (λ q. used q j) same) (got ∙ ap (λ x. done (x, p)) e)
  by_way a p got (block f pos inside _ e free _ change size freed valid) =
      found p f pos inside free change size valid freed (got ∙ ap (λ x. done (x, p)) e)

-- `virt_mem_free_page` after it brings the walks back.
abbrev pub Undone : ℕ → VirtMem → VirtMem → Type 0
Undone addr s t =
    (u : VirtMem) × (virt_mem_free_page addr t ≡ done (error_ok, u))
    × IsSpace u
    × (u.phys.lock ≡ false)
    × ((b : ℕ) → b < 2 ^ 32 → b / 2 ^ 22 ≢ 768 → walk u b ≡ walk s b)

-- In an address space with the lock of physical memory free, for an address below 2^32 that is not
-- in the part of the recursive map and flags below 4096 with the present bit,
-- `virt_mem_alloc_page_f` comes back. On ERROR_OK the walks of the page give a frame other than 0
-- that was free, is in use now and has no table in it; the walks of all other addresses outside the
-- part of the recursive map are what they were, it is still an address space, and the lock is free.
-- On ERROR_OCCUR no mapping changed, and at most one frame was taken and stays so.
pub virt_mem_alloc_page_f_lem :
    (s : VirtMem) (addr flags : ℕ)
    → IsSpace s
    → s.phys.lock ≡ false
    → addr < 2 ^ 32
    → addr / 2 ^ 22 ≢ 768
    → flags < 4096
    → flags % 2 ≡ 1
    → (error : ErrorT) × (t : VirtMem) × (virt_mem_alloc_page_f addr flags s ≡ done (error, t))
      × AllocatedPage addr s error t
virt_mem_alloc_page_f_lem s addr flags v unlocked h other few odd =
    let (a, p, got, way) =
      phys_mem_alloc_above_lem 0x10_0000 s.phys v.phys unlocked (omega arith) in
    by_way s v addr h other flags few odd a p got way

-- On the conditions of `virt_mem_alloc_page_f_lem`, and if no address of the page had a mapping:
-- `virt_mem_alloc_page_f` comes back and either returns ERROR_OCCUR, or a `virt_mem_free_page` of
-- the address after it returns ERROR_OK, and then the walks of all addresses outside the part of the
-- recursive map are what they were before, it is an address space, and the lock is free.
pub virt_mem_free_page-alloc :
    (s : VirtMem) (addr flags : ℕ)
    → IsSpace s
    → s.phys.lock ≡ false
    → addr < 2 ^ 32
    → addr / 2 ^ 22 ≢ 768
    → flags < 4096
    → flags % 2 ≡ 1
    → ((b : ℕ) → b / 4096 ≡ addr / 4096 → walk s b ≡ none)
    → (error : ErrorT) × (t : VirtMem) × (virt_mem_alloc_page_f addr flags s ≡ done (error, t))
      × ((error ≡ error_occur) ⊎ Undone addr s t)
virt_mem_free_page-alloc s addr flags v unlocked h other few odd none_there =
    let (error, t, run, way) = virt_mem_alloc_page_f_lem s addr flags v unlocked h other few odd in
    (error, t, run, freed t way)
  where
    back :
        (f : ℕ) (t u : VirtMem)
        → IsAllocated addr f s t
        → IsFreed addr (f * 4096 + addr % 4096) t u
        → (b : ℕ) → b < 2 ^ 32
        → b / 2 ^ 22 ≢ 768
        → walk u b ≡ walk s b
    back f t u m g b d ne = g.walks b d ∙ elim (ℕ_discrete (b / 4096) (addr / 4096)) [
      | yes same ↦
          let here : (b / 4096 == addr / 4096) ≡ true = ground arith in
          rw here (sym (none_there b same))
      | no apart ↦
          let there : (b / 4096 == addr / 4096) ≡ false = ground arith in
          rw there (m.walks b d ne ∙ rw there refl)
    ]

    freed :
        {error : ErrorT} (t : VirtMem)
        → AllocatedPage addr s error t
        → (error ≡ error_occur) ⊎ Undone addr s t
    freed t (no_frame _ e _ _) = inl e
    freed t (lost_frame _ _ e _ _ _) = inl e
    freed t (with_frame f _ m) =
        let a = f * 4096 + addr % 4096 in
        let frame : a / 4096 ≡ f = omega arith in
        let there : walk t addr ≡ some a = m.walks addr h other ∙ ground arith in
        let (u, got, g) =
          virt_mem_free_page_lem t addr a m.space m.unlocked h other there (omega (arith, m.pos))
            (omega (arith, frame, m.inside)) (ap (used t.phys) frame ∙ m.taken)
            (λ i d o e. m.apart i d o (e ∙ frame)) in
        inr (u, got, g.space, g.unlocked, back f t u m g)
