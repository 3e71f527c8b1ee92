-- ===== src/VirtMem/Lookup.antt =====
-- `virt_mem_get_phys_addr` and `virt_mem_is_page_present`, which read through the recursive map what
-- the processor walks.
use native.Mathlib.Decide.{ℕ_discrete}
use radix_os.Base.{
  if◌then◌else◌, Bool, Bool-cases, Option, ap, arith, false, inl, inr, none, not, refl, some, sym,
  true, ℕ, ◌%◌, ◌*◌, ◌+◌, ◌/◌, ◌<◌, ◌==◌, ◌^◌, ◌∙◌, ◌≡◌,
}
use radix_os.Exec.{done, panicked}
use radix_os.Paging.{virt_mem_get_page_table}
use radix_os.Paging.Entry.{present-value, get_frame-value}
use radix_os.Paging.Directory.{dir_present-value}
use radix_os.Paging.Recursive.{self_entry, self_table, current_dir_entry}
use radix_os.VirtMem.{
  VirtMem, page_at, dir_entry, walk, load, virt_mem_get_phys_addr, virt_mem_is_page_present,
}
use radix_os.VirtMem.Walk.{
  load-fault, walk-entry_absent, slot, dir_entry_at, entry_at, walk-dir_entry_at, walk-entry_at,
  load-at,
}
use radix_os.VirtMem.Store.{IsSpace, walk-absent, walk-present, walk-some}

module _ (s : VirtMem) (v : IsSpace s) (addr : ℕ) (h : addr < 2 ^ 32) where
  dir_load : load (dir_entry_at (addr / 2 ^ 22)) s ≡ done (dir_entry s (addr / 2 ^ 22))
  dir_load =
      load-at s (dir_entry_at (addr / 2 ^ 22)) (s.cr3 + 4 * (addr / 2 ^ 22))
        (walk-dir_entry_at s (addr / 2 ^ 22) v.self (omega arith))

  page_load :
      dir_entry s (addr / 2 ^ 22) % 2 ≡ 1 → load (entry_at addr) s ≡ done (s.ram (slot s addr))
  page_load present =
      load-at s (entry_at addr) (slot s addr) (walk-entry_at s addr v.self h present)

  some_dir_entry : (dir_entry_at (addr / 2 ^ 22) == 0) ≡ false
  some_dir_entry = ground arith

  some_entry : (entry_at addr == 0) ≡ false
  some_entry = ground arith

  some_table : (0xc000_0000 + addr / 2 ^ 22 * 4096 == 0) ≡ false
  some_table = ground arith

  -- what is loaded, present or not
  phys_addr_present :
      dir_entry s (addr / 2 ^ 22) % 2 ≡ 1
      → virt_mem_get_phys_addr addr s ≡ done (s.ram (slot s addr) / 4096 * 4096 + addr % 4096)
  unfolding virt_mem_get_phys_addr
  phys_addr_present present =
      let w = s.ram (slot s addr) in
      let small : w < 2 ^ 32 = v.words (slot s addr) in
      let fits : (w / 4096 * 4096 + addr % 4096) % 2 ^ 32 ≡ w / 4096 * 4096 + addr % 4096 =
        omega arith in
      rw
        (current_dir_entry addr h, some_dir_entry, self_entry addr h, some_entry, page_load present)
        (ap (λ x. done ((x + addr % 4096) % 2 ^ 32)) (get_frame-value w small) ∙ ap done fits)

  phys_addr_absent : dir_entry s (addr / 2 ^ 22) % 2 ≡ 0 → virt_mem_get_phys_addr addr s ≡ panicked
  unfolding virt_mem_get_phys_addr
  phys_addr_absent absent =
      let fault : load (entry_at addr) s ≡ panicked =
        load-fault s (entry_at addr) (walk-entry_absent s addr v.self h absent) in
      rw (current_dir_entry addr h, some_dir_entry, self_entry addr h, some_entry, fault) refl

  is_present :
      dir_entry s (addr / 2 ^ 22) % 2 ≡ 1
      → (w : ℕ) → s.ram (slot s addr) ≡ w
      → virt_mem_is_page_present addr s ≡ done (not (w % 2 == 0))
  unfolding virt_mem_is_page_present
  is_present present w e =
      let table_cond : (virt_mem_get_page_table 0xc000_0000 addr == 0) ≡ false =
        ap (λ x. x == 0) (self_table addr h) ∙ some_table in
      rw
        (
          current_dir_entry addr h,
          some_dir_entry,
          dir_load,
          dir_present-value (dir_entry s (addr / 2 ^ 22)),
          present,
          table_cond,
        )
        (rw (self_entry addr h, some_entry, page_load present, e)
          (ap (λ x. done (not (x == 0))) (present-value w)))

  is_absent : dir_entry s (addr / 2 ^ 22) % 2 ≡ 0 → virt_mem_is_page_present addr s ≡ done false
  unfolding virt_mem_is_page_present
  is_absent absent =
      rw
        (
          current_dir_entry addr h,
          some_dir_entry,
          dir_load,
          dir_present-value (dir_entry s (addr / 2 ^ 22)),
          absent,
        )
        refl

-- what `virt_mem_is_page_present` is for a walk
abbrev pub is_walk : Option ℕ → Bool
is_walk none = false
is_walk (some a) = true

is_walk-page_at : (w addr : ℕ) → is_walk (page_at w addr) ≡ not (w % 2 == 0)
is_walk-page_at w addr = elim (Bool-cases (w % 2 == 0)) [ inl e ↦ rw e refl | inr e ↦ rw e refl ]

-- In an address space and for an address below 2^32, `virt_mem_is_page_present` comes back, and
-- returns whether the walk gets to an address.
pub virt_mem_is_page_present_lem :
    (s : VirtMem) (addr : ℕ)
    → IsSpace s
    → addr < 2 ^ 32
    → virt_mem_is_page_present addr s ≡ done (is_walk (walk s addr))
virt_mem_is_page_present_lem s addr v h = elim (ℕ_discrete (dir_entry s (addr / 2 ^ 22) % 2) 1) [
  | yes e ↦
      is_present s v addr h e (s.ram (slot s addr)) refl
      ∙ ap done (
          sym (is_walk-page_at (s.ram (slot s addr)) addr)
          ∙ ap is_walk (sym (walk-present s addr e)))
  | no ne ↦
      let e : dir_entry s (addr / 2 ^ 22) % 2 ≡ 0 = omega arith in
      is_absent s v addr h e ∙ ap (λ x. done (is_walk x)) (sym (walk-absent s addr e))
]

-- In an address space and for an address below 2^32 that the walk takes to a physical address,
-- `virt_mem_get_phys_addr` returns that.
pub virt_mem_get_phys_addr_lem :
    (s : VirtMem) (addr a : ℕ)
    → IsSpace s
    → addr < 2 ^ 32
    → walk s addr ≡ some a
    → virt_mem_get_phys_addr addr s ≡ done a
virt_mem_get_phys_addr_lem s addr a v h e =
    let (present, _, value) = walk-some s addr a e in
    phys_addr_present s v addr h present ∙ ap done value

-- In an address space and for an address below 2^32 without a table, it makes a page fault; without
-- a page, it returns what is in the entry all the same.
pub virt_mem_get_phys_addr-entry :
    (s : VirtMem) (addr : ℕ)
    → IsSpace s
    → addr < 2 ^ 32
    → virt_mem_get_phys_addr addr s ≡ (
        if dir_entry s (addr / 2 ^ 22) % 2 == 0
        then panicked
        else done (s.ram (slot s addr) / 4096 * 4096 + addr % 4096))
virt_mem_get_phys_addr-entry s addr v h = elim (ℕ_discrete (dir_entry s (addr / 2 ^ 22) % 2) 0) [
  | yes e ↦ phys_addr_absent s v addr h e ∙ rw e refl
  | no ne ↦
      let e : dir_entry s (addr / 2 ^ 22) % 2 ≡ 1 = omega arith in
      phys_addr_present s v addr h e ∙ rw e refl
]
