-- ===== src/VirtMem/Tests.antt =====
-- The theorems at an address space whose directory, in the frame 256 of 288, has only itself.
use radix_os.VirtMem.Map.{virt_mem_map_page_lem, Mapped}
use radix_os.VirtMem.Free.{virt_mem_free_page_lem, IsFreed}
use native.Mathlib.Decide.{ℕ_discrete}
use radix_os.VirtMem.Alloc.{
  virt_mem_free_page-alloc, Undone, virt_mem_alloc_page_f_lem, AllocatedPage,
}
use radix_os.Paging.{virt_mem_get_self_recursive_table}
use radix_os.VirtMem.Lookup.{virt_mem_is_page_present_lem, is_walk}
use radix_os.Base.{
  [], ap, arith, false, if◌then◌else◌, inl, inr, refl, sym, ℕ, ◌%◌, ◌*◌, ◌/◌, ◌<◌, ◌==◌, ◌∙◌, ◌∷◌,
  ◌≡◌, ◌≢◌, ◌⊎◌,
}
use radix_os.Bits.{bit}
use radix_os.Exec.{done}
use radix_os.Types.{ErrorT, error_ok, error_occur}
use radix_os.PhysMem.{PhysMem}
use radix_os.PhysMem.Blocks.{used}
use radix_os.PhysMem.Blocks as Blocks
use radix_os.VirtMem.{
  VirtMem, dir_entry, walk, virt_mem_map_page, virt_mem_alloc_page_f, virt_mem_free_page,
  virt_mem_is_page_present,
}
use radix_os.VirtMem.Store.{IsSpace}

abbrev some_phys : PhysMem
some_phys = record {
  memory_size = 1152;
  used_blocks = 1;
  max_blocks = 288;
  bitmap = 0 ∷ 0 ∷ 0 ∷ 0 ∷ 0 ∷ 0 ∷ 0 ∷ 0 ∷ 1 ∷ [];
  lock = false;
}

some_phys-IsValid : Blocks.IsValid some_phys
unfolding bit
some_phys-IsValid = record {
  words = (
    omega arith,
    (
      omega arith,
      (
        omega arith,
        (
          omega arith,
          (omega arith, (omega arith, (omega arith, (omega arith, (omega arith, tt))))),
        ),
      ),
    ),
  );
  covered = omega arith;
  small = omega arith;
  counted = refl;
}

abbrev some_space : VirtMem
some_space = record {
  ram = λ a. if a == 0x10_0c00 then 0x10_0003 else 0;
  cr3 = 0x10_0000;
  phys = some_phys;
}

only_self : (i : ℕ) → dir_entry some_space i % 2 ≡ 1 → i ≡ 768
only_self i e = ground (arith, e)

some_space-IsSpace : IsSpace some_space
unfolding bit
some_space-IsSpace = record {
  self = record { aligned = refl; small = omega arith; present = refl; frame = refl };
  words = λ a. ground arith;
  distinct = λ i j _ _ e e' _. only_self i e ∙ sym (only_self j e');
  taken = λ i _ e. ap (λ j. used some_phys (dir_entry some_space j / 4096)) (only_self i e) ∙ refl;
  phys = some_phys-IsValid;
}

-- a page of the frame 5 at 4 MiB, and then a page of the same table
virt_mem_map_page_lem_example :
    (error : ErrorT) × (t : VirtMem) × (virt_mem_map_page virt_mem_get_self_recursive_table
        (5 * 4096)
        0x40_0000
        3
        some_space
      ≡ done (error, t))
    × Mapped 0x40_0000 5 some_space error t
virt_mem_map_page_lem_example =
    virt_mem_map_page_lem some_space 0x40_0000 5 3 some_space-IsSpace refl (omega arith)
      (omega arith) (omega arith) (omega arith) refl

virt_mem_alloc_page_f_lem_example :
    (error : ErrorT) × (t : VirtMem) × (virt_mem_alloc_page_f 0x40_0000 3 some_space
      ≡ done (error, t))
    × AllocatedPage 0x40_0000 some_space error t
virt_mem_alloc_page_f_lem_example =
    virt_mem_alloc_page_f_lem some_space 0x40_0000 3 some_space-IsSpace refl (omega arith)
      (omega arith) (omega arith) refl

-- the walk of an address of the recursive map
virt_mem_is_page_present_lem_example :
    virt_mem_is_page_present 0xc030_0004 some_space ≡ done (is_walk (walk some_space 0xc030_0004))
virt_mem_is_page_present_lem_example =
    virt_mem_is_page_present_lem some_space 0xc030_0004 some_space-IsSpace (omega arith)

-- With a table in the frame 257 that has the frame 258 for a page, of which all are in use.
abbrev full_phys : PhysMem
full_phys = record {
  memory_size = 1152;
  used_blocks = 3;
  max_blocks = 288;
  bitmap = 0 ∷ 0 ∷ 0 ∷ 0 ∷ 0 ∷ 0 ∷ 0 ∷ 0 ∷ 7 ∷ [];
  lock = false;
}

full_phys-IsValid : Blocks.IsValid full_phys
unfolding bit
full_phys-IsValid = record {
  words = (
    omega arith,
    (
      omega arith,
      (
        omega arith,
        (
          omega arith,
          (omega arith, (omega arith, (omega arith, (omega arith, (omega arith, tt))))),
        ),
      ),
    ),
  );
  covered = omega arith;
  small = omega arith;
  counted = refl;
}

abbrev full_space : VirtMem
full_space = record {
  ram = λ a.
      if a == 0x10_0c00
      then 0x10_0003
      else (if a == 0x10_0004 then 0x10_1003 else (if a == 0x10_1000 then 0x10_2003 else 0));
  cr3 = 0x10_0000;
  phys = full_phys;
}

two_tables : (i : ℕ) → i < 1024 → dir_entry full_space i % 2 ≡ 1 → ((i ≡ 768) ⊎ (i ≡ 1))
two_tables i d e = elim (ℕ_discrete i 768) [
  | yes same ↦ inl same
  | no ne ↦ inr (ground (arith, d, e, ne))
]

full_space-IsSpace : IsSpace full_space
unfolding bit
full_space-IsSpace = record {
  self = record { aligned = refl; small = omega arith; present = refl; frame = refl };
  words = λ a. ground arith;
  distinct = λ i j d d' e e' same. apart i j (two_tables i d e) (two_tables j d' e') same;
  taken = λ i d e. in_use i (two_tables i d e);
  phys = full_phys-IsValid;
}
  where
    apart :
        (i j : ℕ)
        → ((i ≡ 768) ⊎ (i ≡ 1))
        → ((j ≡ 768) ⊎ (j ≡ 1))
        → dir_entry full_space i / 4096 ≡ dir_entry full_space j / 4096
        → i ≡ j
    apart i j (inl e) (inl e') same = e ∙ sym e'
    apart i j (inr e) (inr e') same = e ∙ sym e'
    apart i j (inl e) (inr e') same = ground (arith, e, e', same)
    apart i j (inr e) (inl e') same = ground (arith, e, e', same)

    in_use : (i : ℕ) → ((i ≡ 768) ⊎ (i ≡ 1)) → used full_phys (dir_entry full_space i / 4096) ≡ 1
    in_use i (inl e) = ap (λ j. used full_phys (dir_entry full_space j / 4096)) e
    in_use i (inr e) = ap (λ j. used full_phys (dir_entry full_space j / 4096)) e

virt_mem_free_page_lem_example :
    (t : VirtMem) × (virt_mem_free_page 0x40_0008 full_space ≡ done (error_ok, t))
    × IsFreed 0x40_0008 0x10_2008 full_space t
unfolding walk bit
virt_mem_free_page_lem_example =
    virt_mem_free_page_lem full_space 0x40_0008 0x10_2008 full_space-IsSpace refl (omega arith)
      (omega arith) refl (omega arith) (omega arith) refl (λ i d e. no_table i (two_tables i d e))
  where
    no_table : (i : ℕ) → ((i ≡ 768) ⊎ (i ≡ 1)) → dir_entry full_space i / 4096 ≢ 0x10_2008 / 4096
    no_table i (inl e) = ground (arith, e)
    no_table i (inr e) = ground (arith, e)

virt_mem_free_page-alloc_example :
    (error : ErrorT) × (t : VirtMem) × (virt_mem_alloc_page_f 0x40_1000 3 full_space
      ≡ done (error, t))
    × ((error ≡ error_occur) ⊎ Undone 0x40_1000 full_space t)
unfolding walk
virt_mem_free_page-alloc_example =
    virt_mem_free_page-alloc full_space 0x40_1000 3 full_space-IsSpace refl (omega arith)
      (omega arith) (omega arith) refl (λ b same. ground (arith, same))
