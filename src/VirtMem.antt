-- ===== src/VirtMem.antt =====
-- kernel/mem_manager_virt.c: the virtual memory manager of one address space. All accesses to page
-- tables go through the recursive map, so that the model has the processor's walk over the tables
-- (the chain described in kernel/include/mem_manager_virt.h) and a page fault where it fails; the
-- handler of the page fault panics. No translation is cached, and a page can be written if it is
-- present. Physical memory is words by the address of their first byte.
pub mod Walk
pub mod Store
pub mod Page
pub mod Table
pub mod Zero
pub mod Create
pub mod Map
pub mod Lookup
pub mod Free
pub mod Alloc
pub mod Tests
use radix_os.Base.{
  ==_iff, All, All-append, All-get_or, All-imp, All-middle, All-set, Any, Any-left, Any-right, Bool,
  Bool-cases, List, Option, Option-cases, Ordering, [], ap, append-nil, append_assoc, ap₂, arith,
  compare, compare-cases, drop, false, get_elem?, get_elem?-set_ne, get_elem?-set_self, get_or,
  get_or-set, if◌then◌else◌, inl, inr, leb, length, length-append, length-drop, length-map,
  length-replicate, length-set, length-take, le→ltb, ltb, ltb→le, ltb→lt, lt→ltb, map, max, min,
  none, not, refl, replicate, set, some, subst, suc, sym, take, take-append-drop, true, zero, ℕ,
  ◌%◌, ◌&&◌, ◌*◌, ◌++◌, ◌+◌, ◌-◌, ◌/◌, ◌<◌, ◌==◌, ◌^◌, ◌||◌, ◌↔◌, ◌∙◌, ◌∷◌, ◌≡◌, ◌≢◌, ◌≤◌, ◌⊎◌,
}
use radix_os.Exec.{Run, done, panicked, ◌>>=◌}
use radix_os.Types.{ErrorT, error_ok, error_occur}
use radix_os.PhysMem.{PhysMem, phys_mem_alloc_above_1mb, phys_mem_dealloc}
use radix_os.Paging.{
  pt_entry_set_frame, pt_entry_add_attrib, pt_entry_get_frame, pt_entry_is_present,
  pd_entry_set_frame, pd_entry_add_attrib, pd_entry_is_present, virt_mem_get_self_recursive_table,
  virt_mem_get_foreign_recursive_table, virt_mem_get_page_table, virt_mem_get_directory,
  virt_mem_get_current_directory, virt_mem_get_foreign_directory, virt_mem_get_page_directory_entry,
  virt_mem_get_page_table_entry, virt_mem_get_page_directory_entry_by_addr,
}

pub record VirtMem : Type 0 where
  pub ram : ℕ → ℕ
  pub cr3 : ℕ
  pub phys : PhysMem

-- what a present entry of a table makes of an address
abbrev pub page_at : ℕ → ℕ → Option ℕ
page_at entry addr = if entry % 2 == 0 then none else some (entry / 4096 * 4096 + addr % 4096)

-- the entry of the directory that covers an address, and the walk over both tables
abbrev pub dir_entry : VirtMem → ℕ → ℕ
dir_entry s i = s.ram (s.cr3 + 4 * i)

pub walk : VirtMem → ℕ → Option ℕ
walk s addr =
    let e = dir_entry s (addr / 2 ^ 22) in
    if e % 2 == 0 then none else page_at (s.ram (e / 4096 * 4096 + 4 * (addr / 4096 % 1024))) addr

pub load : ℕ → VirtMem → Run ℕ
load addr s = elim (walk s addr) [ none ↦ panicked | some a ↦ done (s.ram a) ]

abbrev pub write : ℕ → ℕ → VirtMem → VirtMem
write a w s = record s { ram = λ b. if b == a then w else s.ram b }

pub store : ℕ → ℕ → VirtMem → Run VirtMem
store addr w s = elim (walk s addr) [ none ↦ panicked | some a ↦ done (write a w s) ]

-- `*e = f(*e)`
pub update_entry : (ℕ → ℕ) → ℕ → VirtMem → Run VirtMem
update_entry f e s = load e s >>= λ w. store e (f w) s

-- `memset` of words to 0
pub zero_words : ℕ → ℕ → VirtMem → Run VirtMem
zero_words zero addr s = done s
zero_words (suc n) addr s = store addr 0 s >>= λ t. zero_words n (addr + 4) t

pub virt_mem_create_table : ℕ → ℕ → ℕ → VirtMem → Run (ErrorT × VirtMem)
virt_mem_create_table base addr flags s =
    let entry = virt_mem_get_page_directory_entry (virt_mem_get_directory base) addr in
    if entry == 0
    then done (error_occur, s)
    else (phys_mem_alloc_above_1mb s.phys >>= λ (table_phys, phys).
        let t = record s { phys = phys } in
        if table_phys == 0
        then done (error_occur, t)
        else (update_entry (λ w. pd_entry_set_frame w table_phys) entry t >>= λ u.
            update_entry (λ w. pd_entry_add_attrib w flags) entry u >>= λ x.
            zero_words 1024 (virt_mem_get_page_table base addr) x >>= λ y. done (error_ok, y)))

-- The end of `virt_mem_map_page`, when there is a table.
pub set_page : ℕ → ℕ → ℕ → VirtMem → Run (ErrorT × VirtMem)
set_page page phys flags s =
    if page == 0
    then done (error_occur, s)
    else (store page 0 s >>= λ t. update_entry (λ w. pt_entry_set_frame w phys) page t >>= λ u.
        update_entry (λ w. pt_entry_add_attrib w flags) page u >>= λ x. done (error_ok, x))

pub virt_mem_map_page : ℕ → ℕ → ℕ → ℕ → VirtMem → Run (ErrorT × VirtMem)
virt_mem_map_page base phys virt flags s =
    let e = virt_mem_get_page_directory_entry (virt_mem_get_directory base) virt in
    let page = virt_mem_get_page_table_entry (virt_mem_get_page_table base virt) virt in
    load e s >>= λ w.
    (if pd_entry_is_present w == 0
      then virt_mem_create_table base virt flags s
      else done (error_ok, s))
    >>= λ (error, t). elim error [
      | error_ok ↦ set_page page phys flags t
      | error_occur ↦ done (error_occur, t)
    ]

pub virt_mem_unmap_page : ℕ → ℕ → VirtMem → Run (ErrorT × VirtMem)
virt_mem_unmap_page base virt s =
    store (virt_mem_get_page_table_entry (virt_mem_get_page_table base virt) virt) 0 s >>= λ t.
    done (error_ok, t)

pub virt_mem_alloc_page_f : ℕ → ℕ → VirtMem → Run (ErrorT × VirtMem)
virt_mem_alloc_page_f addr flags s = phys_mem_alloc_above_1mb s.phys >>= λ (phys, p).
    let t = record s { phys = p } in
    if phys == 0
    then done (error_occur, t)
    else virt_mem_map_page virt_mem_get_self_recursive_table phys addr flags t

-- With VIRT_MEM_DEFAULT_PTE_FLAGS, present and writable.
pub virt_mem_alloc_page : ℕ → VirtMem → Run (ErrorT × VirtMem)
virt_mem_alloc_page addr = virt_mem_alloc_page_f addr 3

pub virt_mem_get_phys_addr : ℕ → VirtMem → Run ℕ
virt_mem_get_phys_addr addr s =
    let e = virt_mem_get_page_directory_entry virt_mem_get_current_directory addr in
    let page =
      virt_mem_get_page_table_entry (virt_mem_get_page_table virt_mem_get_self_recursive_table addr)
        addr in
    if e == 0
    then done 0
    else (if page == 0
        then done 0
        else (load page s >>= λ w. done ((pt_entry_get_frame w + addr % 4096) % 2 ^ 32)))

pub virt_mem_is_page_present : ℕ → VirtMem → Run Bool
virt_mem_is_page_present addr s =
    let e = virt_mem_get_page_directory_entry virt_mem_get_current_directory addr in
    let table = virt_mem_get_page_table virt_mem_get_self_recursive_table addr in
    let page = virt_mem_get_page_table_entry table addr in
    if e == 0
    then done false
    else (load e s >>= λ w.
        if pd_entry_is_present w == 0
        then done false
        else (if table == 0
            then done false
            else (if page == 0
                then done false
                else (load page s >>= λ x. done (not (pt_entry_is_present x == 0))))))

pub virt_mem_free_page : ℕ → VirtMem → Run (ErrorT × VirtMem)
virt_mem_free_page addr s = virt_mem_get_phys_addr addr s >>= λ phys.
    if phys == 0
    then done (error_occur, s)
    else (virt_mem_unmap_page virt_mem_get_self_recursive_table addr s >>= λ (error, t).
        elim error [
          | error_occur ↦ done (error_occur, t)
          | error_ok ↦ phys_mem_dealloc phys t.phys >>= λ (error', p).
              let u = record t { phys = p } in
              elim error' [ error_occur ↦ done (error_occur, u) | error_ok ↦ done (error_ok, u) ]
        ])
