-- ===== src/VirtMem/Free.antt =====
-- `virt_mem_unmap_page` and `virt_mem_free_page`.
use radix_os.Base.{
  ap, arith, false, if◌then◌else◌, none, refl, some, sym, ℕ, ◌%◌, ◌/◌, ◌<◌, ◌==◌, ◌^◌, ◌∙◌, ◌≡◌,
  ◌≢◌, ◌≤◌,
}
use radix_os.Exec.{done}
use radix_os.Types.{error_ok}
use radix_os.PhysMem.Blocks.{used}
use radix_os.PhysMem.Dealloc.{phys_mem_dealloc_lem, dealloc-block}
use radix_os.Paging.Recursive.{self_entry}
use radix_os.VirtMem.{VirtMem, dir_entry, walk, write, virt_mem_unmap_page, virt_mem_free_page}
use radix_os.VirtMem.Walk.{slot, entry_at, walk-entry_at, store-at}
use radix_os.VirtMem.Store.{IsSpace, IsSpace-phys, walk-phys, walk-some}
use radix_os.VirtMem.Page.{IsChange, write-IsChange}
use radix_os.VirtMem.Lookup.{virt_mem_get_phys_addr_lem}

-- The page of `addr` is gone, and its frame is free.
pub record IsFreed (addr a : ℕ) (s t : VirtMem) : Type 0 where
  pub space : IsSpace t
  pub walks : (b : ℕ) → b < 2 ^ 32 → walk t b ≡ (if b / 4096 == addr / 4096 then none else walk s b)
  pub frames : (j : ℕ) → used t.phys j ≡ (if a / 4096 == j then 0 else used s.phys j)
  pub unlocked : t.phys.lock ≡ false

unmap_present :
    (s : VirtMem) (addr : ℕ)
    → IsSpace s
    → addr < 2 ^ 32
    → addr / 2 ^ 22 ≢ 768
    → dir_entry s (addr / 2 ^ 22) % 2 ≡ 1
    → (virt_mem_unmap_page 0xc000_0000 addr s ≡ done (error_ok, write (slot s addr) 0 s))
      × IsChange addr 0 s (write (slot s addr) 0 s)
unfolding virt_mem_unmap_page
unmap_present s addr v h other present = (
  rw
      (
        self_entry addr h,
        store-at s (entry_at addr) (slot s addr) (walk-entry_at s addr v.self h present) 0,
      )
      refl,
  write-IsChange addr h other s v present 0 (omega arith),
)

-- In an address space with the lock of physical memory free, for an address that the walk takes to
-- the physical address `a` outside the frame 0, in a frame in use that no table is in, and that is
-- not in the part of the recursive map, `virt_mem_free_page` returns ERROR_OK: the walks of the
-- page fail, those of all other addresses are what they were, and the frame is free, as the
-- only one that changed.
pub virt_mem_free_page_lem :
    (s : VirtMem) (addr a : ℕ)
    → IsSpace s
    → s.phys.lock ≡ false
    → addr < 2 ^ 32
    → addr / 2 ^ 22 ≢ 768
    → walk s addr ≡ some a
    → 4096 ≤ a
    → a / 4096 < s.phys.max_blocks
    → used s.phys (a / 4096) ≡ 1
    → ((i : ℕ) → i < 1024 → dir_entry s i % 2 ≡ 1 → dir_entry s i / 4096 ≢ a / 4096)
    → (t : VirtMem) × (virt_mem_free_page addr s ≡ done (error_ok, t)) × IsFreed addr a s t
unfolding virt_mem_free_page
virt_mem_free_page_lem s addr a v unlocked h other e some_frame inside taken no_table =
    let (present, _, _) = walk-some s addr a e in
    let (unmapped, c) = unmap_present s addr v h other present in
    let u = write (slot s addr) 0 s in
    let (p, freed, valid, open_lock, frames) =
      phys_mem_dealloc_lem (a / 4096) s.phys v.phys unlocked inside taken in
    let frame : (a == 0) ≡ false = ground arith in
    (
      record u { phys = p },
      rw (virt_mem_get_phys_addr_lem s addr a v h e, frame, unmapped, dealloc-block a s.phys, freed)
          refl,
      record {
        space = IsSpace-phys u p c.space valid (λ i d odd.
            let same = c.dir i d in
            let there = ap (λ w. w % 2) (sym same) ∙ odd in
            let apart = no_table i d there in
            ap (λ w. used p (w / 4096)) same
            ∙ frames (dir_entry s i / 4096)
            ∙ ground (arith, apart, v.taken i d there));
        walks = λ b d. walk-phys u p b ∙ c.pages b d;
        frames = frames;
        unlocked = open_lock;
      },
    )
