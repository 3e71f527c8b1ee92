-- ===== src/VmArea.antt =====
-- kernel/vm_area.c: the areas of a process's memory map.
use radix_os.Base.{
  ℕ, ◌+◌, ◌-◌, ◌%◌, ◌^◌, Bool, true, false, not, ◌||◌, ltb, leb, ◌==◌, if◌then◌else◌,
}

-- `vm_area_t`; both addresses belong to the area
pub record VmArea : Type 0 where
  pub start_addr : ℕ
  pub end_addr : ℕ
  pub flags : ℕ
  pub fd : ℕ
  pub offset : ℕ

-- `PAGE_SIZE`, by way of `virt_mem_get_page_size`
abbrev pub page_size : ℕ
page_size = 4096

-- `end - start + 1` in 32 bits
abbrev pub span32 : ℕ → ℕ → ℕ
span32 start last = (last + 2 ^ 32 - start + 1) % 2 ^ 32

pub vm_area_check_bounds : ℕ → ℕ → Bool
vm_area_check_bounds start last =
    not (not (start % page_size == 0) || not (span32 start last % page_size == 0) || leb last start)

-- what `memset(&a, 0, sizeof(a))` leaves
abbrev pub zero_area : VmArea
zero_area = record { start_addr = 0; end_addr = 0; flags = 0; fd = 0; offset = 0 }

pub vm_area_create : ℕ → ℕ → ℕ → ℕ → ℕ → VmArea
unfolding vm_area_check_bounds
vm_area_create start last flags fd offset =
    if vm_area_check_bounds start last
    then record { start_addr = start; end_addr = last; flags = flags; fd = fd; offset = offset }
    else zero_area

unfoldable pub vm_area_intersect : VmArea → VmArea → Bool
vm_area_intersect a b =
    if ltb a.end_addr b.start_addr || ltb b.end_addr a.start_addr then false else true

pub vm_area_get_length : VmArea → ℕ
vm_area_get_length a = span32 a.start_addr a.end_addr

unfoldable pub vm_area_is_removable : VmArea → Bool
vm_area_is_removable a = true

pub vm_area_grows_down : VmArea → Bool
vm_area_grows_down a = false

unfoldable pub vm_area_is_ok : VmArea → Bool
vm_area_is_ok a = if ltb a.start_addr a.end_addr then true else false
