-- ===== src/Paging.antt =====
-- Page directory and page table entries (kernel/vmmngr_pde.c and kernel/vmmngr_pte.c), and the
-- recursive map of the tables (kernel/mem_manager_virt_aux.c).
pub mod Entry
pub mod Directory
pub mod Recursive
pub mod Tests
use Prim.Native.Nat.{bit_and, bit_or}
use radix_os.Base.{
  ==_iff, All, All-append, All-get_or, All-imp, All-middle, All-set, Any, Any-left, Any-right, Bool,
  Bool-cases, List, Option, Option-cases, Ordering, [], ap, append-nil, append_assoc, ap₂, arith,
  compare, compare-cases, drop, false, get_elem?, get_elem?-set_ne, get_elem?-set_self, get_or,
  get_or-set, if◌then◌else◌, inl, inr, leb, length, length-append, length-drop, length-map,
  length-replicate, length-set, length-take, le→ltb, ltb, ltb→le, ltb→lt, lt→ltb, map, max, min,
  none, not, refl, replicate, set, some, subst, suc, sym, take, take-append-drop, true, zero, ℕ,
  ◌%◌, ◌&&◌, ◌*◌, ◌++◌, ◌+◌, ◌-◌, ◌/◌, ◌<◌, ◌==◌, ◌>>=◌, ◌^◌, ◌||◌, ◌↔◌, ◌∙◌, ◌∷◌, ◌≡◌, ◌≢◌, ◌≤◌,
  ◌⊎◌,
}

-- the mask of the frame, and its complement
abbrev pub i86_pte_frame : ℕ
i86_pte_frame = 0xffff_f000

-- `~x` in 32 bits
pub complement : ℕ → ℕ
complement x = 2 ^ 32 - 1 - x

pub pt_entry_add_attrib : ℕ → ℕ → ℕ
pt_entry_add_attrib entry attrib = bit_or entry attrib

pub pt_entry_del_attrib : ℕ → ℕ → ℕ
unfolding complement
pt_entry_del_attrib entry attrib = bit_and entry (complement attrib)

pub pt_entry_test_attrib : ℕ → ℕ → Bool
pt_entry_test_attrib entry attrib = bit_and entry attrib == attrib

pub pt_entry_set_frame : ℕ → ℕ → ℕ
unfolding complement
pt_entry_set_frame entry addr = bit_or (bit_and entry (complement i86_pte_frame)) addr

pub pt_entry_is_present : ℕ → ℕ
pt_entry_is_present entry = bit_and entry 1

pub pt_entry_is_writable : ℕ → ℕ
pt_entry_is_writable entry = bit_and entry 2

pub pt_entry_get_frame : ℕ → ℕ
pt_entry_get_frame entry = bit_and entry i86_pte_frame

abbrev pub virt_mem_get_self_recursive_table : ℕ
virt_mem_get_self_recursive_table = 0xc000_0000

abbrev pub virt_mem_get_foreign_recursive_table : ℕ
virt_mem_get_foreign_recursive_table = 0xc040_0000

pub virt_mem_get_page_index : ℕ → ℕ
virt_mem_get_page_index addr = bit_and addr 0x003f_f000 / 2 ^ 12

pub virt_mem_get_page_table_index : ℕ → ℕ
virt_mem_get_page_table_index addr = bit_and addr 0xffc0_0000 / 2 ^ 22

pub virt_mem_get_page_table : ℕ → ℕ → ℕ
unfolding virt_mem_get_page_table_index
virt_mem_get_page_table base address =
    (base + virt_mem_get_page_table_index address * 2 ^ 12) % 2 ^ 32

pub virt_mem_get_directory : ℕ → ℕ
unfolding virt_mem_get_page_table
virt_mem_get_directory base = virt_mem_get_page_table base base

pub virt_mem_get_current_directory : ℕ
unfolding virt_mem_get_page_table
virt_mem_get_current_directory =
    virt_mem_get_page_table virt_mem_get_self_recursive_table virt_mem_get_self_recursive_table

pub virt_mem_get_foreign_directory : ℕ
unfolding virt_mem_get_page_table
virt_mem_get_foreign_directory =
    virt_mem_get_page_table virt_mem_get_self_recursive_table virt_mem_get_foreign_recursive_table

-- `&p->entries[i]`, entries being of 4 bytes, or null
pub virt_mem_get_page_directory_entry : ℕ → ℕ → ℕ
unfolding virt_mem_get_page_table_index
virt_mem_get_page_directory_entry p addr =
    if not (p == 0) then (p + 4 * virt_mem_get_page_table_index addr) % 2 ^ 32 else 0

pub virt_mem_get_page_table_entry : ℕ → ℕ → ℕ
unfolding virt_mem_get_page_index
virt_mem_get_page_table_entry p addr =
    if not (p == 0) then (p + 4 * virt_mem_get_page_index addr) % 2 ^ 32 else 0

pub virt_mem_get_page_directory_entry_by_addr : ℕ → ℕ → ℕ
unfolding virt_mem_get_directory virt_mem_get_page_directory_entry
virt_mem_get_page_directory_entry_by_addr base addr =
    virt_mem_get_page_directory_entry (virt_mem_get_directory base) addr

pub virt_mem_get_page_table_entry_by_addr : ℕ → ℕ → ℕ
unfolding virt_mem_get_page_table virt_mem_get_page_table_entry
virt_mem_get_page_table_entry_by_addr base addr =
    virt_mem_get_page_table_entry (virt_mem_get_page_table base addr) addr

pub pd_entry_add_attrib : ℕ → ℕ → ℕ
pd_entry_add_attrib e attrib = bit_or e attrib

pub pd_entry_del_attrib : ℕ → ℕ → ℕ
unfolding complement
pd_entry_del_attrib e attrib = bit_and e (complement attrib)

pub pd_entry_test_attrib : ℕ → ℕ → Bool
pd_entry_test_attrib e attrib = bit_and e attrib == attrib

pub pd_entry_set_frame : ℕ → ℕ → ℕ
unfolding complement
pd_entry_set_frame e addr = bit_or (bit_and e (complement 0xffff_f000)) addr

pub pd_entry_is_present : ℕ → ℕ
pd_entry_is_present e = bit_and e 1

pub pd_entry_is_writable : ℕ → ℕ
pd_entry_is_writable e = bit_and e 2

pub pd_entry_is_user : ℕ → ℕ
pd_entry_is_user e = bit_and e 4

pub pd_entry_is_4mb : ℕ → ℕ
pd_entry_is_4mb e = bit_and e 0x80

pub pd_entry_get_frame : ℕ → ℕ
pd_entry_get_frame e = bit_and e 0xffff_f000
