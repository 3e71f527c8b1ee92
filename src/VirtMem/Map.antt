-- ===== src/VirtMem/Map.antt =====
-- `virt_mem_map_page`, in the current address space.
use radix_os.Paging.Directory.{dir_present-value}
use native.Mathlib.Decide.{ℕ_discrete}
use radix_os.Paging.Recursive.{self_entry, self_dir_entry}
use radix_os.VirtMem.Create.{with_new, virt_mem_create_table_lem, no_memory, Created}
use radix_os.Paging.{virt_mem_get_self_recursive_table}
use radix_os.Base.{
  ap, arith, false, if◌then◌else◌, refl, set, some, ℕ, ◌%◌, ◌*◌, ◌+◌, ◌/◌, ◌<◌, ◌==◌, ◌^◌, ◌∙◌, ◌≡◌,
  ◌≢◌,
}
use radix_os.Exec.{done}
use radix_os.Types.{ErrorT, error_ok, error_occur}
use radix_os.PhysMem.{PhysMem}
use radix_os.PhysMem.Blocks.{used}
use radix_os.VirtMem.{
  VirtMem, page_at, dir_entry, walk, load, set_page, virt_mem_create_table, virt_mem_map_page,
}
use radix_os.VirtMem.Walk.{dir_entry_at, entry_at, walk-dir_entry_at, load-at}
use radix_os.VirtMem.Store.{IsGrown, IsGrown-refl, IsGrown-same, IsSpace}
use radix_os.VirtMem.Page.{set_page_lem}

-- The page of `virt` has the frame `f`, and the others what they had.
pub record IsMapped (virt f : ℕ) (s t : VirtMem) : Type 0 where
  pub space : IsSpace t
  pub walks :
      (b : ℕ)
      → b < 2 ^ 32
      → b / 2 ^ 22 ≢ 768
      → walk t b ≡ (if b / 4096 == virt / 4096 then some (f * 4096 + b % 4096) else walk s b)
  pub unlocked : t.phys.lock ≡ false
  pub grown : IsGrown s t
  pub cr3 : t.cr3 ≡ s.cr3

pub data Mapped (virt f : ℕ) (s : VirtMem) (error : ErrorT) (t : VirtMem) : Type 0 where
  no_table :
      (p : PhysMem)
      → error ≡ error_occur
      → dir_entry s (virt / 2 ^ 22) % 2 ≡ 0
      → t ≡ record s { phys = p }
      → ((j : ℕ) → used p j ≡ used s.phys j)
      → Mapped virt f s error t
  with_page : error ≡ error_ok → IsMapped virt f s t → Mapped virt f s error t

page_at-frame : (w f b : ℕ) → w / 4096 ≡ f → w % 2 ≡ 1 → page_at w b ≡ some (f * 4096 + b % 4096)
page_at-frame w f b frame odd = rw (odd, frame) refl

module _ (s : VirtMem) (v : IsSpace s) (virt : ℕ) (h : virt < 2 ^ 32) (other : virt / 2 ^ 22 ≢ 768)
    (f : ℕ) (d : f < 2 ^ 20) (flags : ℕ) (few : flags < 4096) (odd : flags % 2 ≡ 1) where
  abbrev Outcome : Type 0
  Outcome =
      (error : ErrorT) × (t : VirtMem) × (virt_mem_map_page 0xc000_0000 (f * 4096) virt flags s
        ≡ done (error, t))
      × Mapped virt f s error t

  dir_load : load (dir_entry_at (virt / 2 ^ 22)) s ≡ done (dir_entry s (virt / 2 ^ 22))
  dir_load =
      load-at s (dir_entry_at (virt / 2 ^ 22)) (s.cr3 + 4 * (virt / 2 ^ 22))
        (walk-dir_entry_at s (virt / 2 ^ 22) v.self (omega arith))

  page_set :
      (t : VirtMem)
      → IsSpace t
      → dir_entry t (virt / 2 ^ 22) % 2 ≡ 1
      → t.phys.lock ≡ false
      → IsGrown s t
      → t.cr3 ≡ s.cr3
      → ((b : ℕ) → b < 2 ^ 32 → b / 2 ^ 22 ≢ 768 → walk t b ≡ walk s b)
      → (u : VirtMem) × (set_page (entry_at virt) (f * 4096) flags t ≡ done (error_ok, u))
        × IsMapped virt f s u
  page_set t space present unlocked grown cr3 walks =
      let (w, u, got, c, frame, low) =
        set_page_lem virt h other t space present f flags d few odd in
      (
        u,
        got,
        record {
          space = c.space;
          walks = λ b e ne. c.pages b e ∙ rw (page_at-frame w f b frame low, walks b e ne) refl;
          unlocked = ap (λ p. p.lock) c.phys ∙ unlocked;
          grown = IsGrown-same s t u grown c.phys c.dir;
          cr3 = c.cr3 ∙ cr3;
        },
      )

  old_table : dir_entry s (virt / 2 ^ 22) % 2 ≡ 1 → s.phys.lock ≡ false → Outcome
  unfolding virt_mem_map_page
  old_table present unlocked =
      let (u, got, c) = page_set s v present unlocked (IsGrown-refl s) refl (λ b e ne. refl) in
      (
        error_ok,
        u,
        rw
            (
              self_dir_entry virt h,
              dir_load,
              dir_present-value (dir_entry s (virt / 2 ^ 22)),
              present,
            )
            (rw (self_entry virt h) got),
        with_page refl c,
      )

  new_table :
      dir_entry s (virt / 2 ^ 22) % 2 ≡ 0
      → (error : ErrorT) (t : VirtMem)
      → virt_mem_create_table 0xc000_0000 virt flags s ≡ done (error, t)
      → Created (virt / 2 ^ 22) s error t
      → Outcome
  unfolding virt_mem_map_page
  new_table absent error t got (no_memory p e same frames) = (
    error_occur,
    t,
    rw
        (
          self_dir_entry virt h,
          dir_load,
          dir_present-value (dir_entry s (virt / 2 ^ 22)),
          absent,
          got,
          e,
        )
        refl,
    no_table p refl absent same frames,
  )
  new_table absent error t got (with_new e c) =
      let (u, set, m) = page_set t c.space c.present c.unlocked c.grown c.cr3 c.walks in
      (
        error_ok,
        u,
        rw
            (
              self_dir_entry virt h,
              dir_load,
              dir_present-value (dir_entry s (virt / 2 ^ 22)),
              absent,
              got,
              e,
            )
            (rw (self_entry virt h) set),
        with_page refl m,
      )

-- In an address space whose lock of physical memory is free, for a frame below 2^20, an address
-- below 2^32 that is not in the part of the recursive map, and flags below 4096 with the present
-- bit, `virt_mem_map_page` comes back. Either there is a page now: the walk of an address of the
-- page gives the frame with the offset, the walks of all other addresses outside the part of the
-- recursive map are what they were, and it is still an address space with the lock free. Or the
-- code fails: the part had no table, and memory and the frames in use are what they were.
pub virt_mem_map_page_lem :
    (s : VirtMem) (virt f flags : ℕ)
    → IsSpace s
    → s.phys.lock ≡ false
    → virt < 2 ^ 32
    → virt / 2 ^ 22 ≢ 768
    → f < 2 ^ 20
    → flags < 4096
    → flags % 2 ≡ 1
    → (error : ErrorT) × (t : VirtMem) × (virt_mem_map_page virt_mem_get_self_recursive_table
          (f * 4096)
          virt
          flags
          s
        ≡ done (error, t))
      × Mapped virt f s error t
virt_mem_map_page_lem s virt f flags v unlocked h other d few odd =
    elim (ℕ_discrete (dir_entry s (virt / 2 ^ 22) % 2) 1) [
      | yes present ↦ old_table s v virt h other f d flags few odd present unlocked
      | no ne ↦
          let absent : dir_entry s (virt / 2 ^ 22) % 2 ≡ 0 = omega arith in
          let (error, t, got, c) =
            virt_mem_create_table_lem s v virt h other absent flags few odd unlocked in
          new_table s v virt h other f d flags few odd absent error t got c
    ]
