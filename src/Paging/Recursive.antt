-- ===== src/Paging/Recursive.antt =====
-- The tables seen through the directory's entry for itself: the entries of all pages stand in one
-- array, which starts at the recursive table.
use Prim.Native.Nat.{bit_and}
use radix_os.Base.{ap, arith, false, sym, ℕ, ◌%◌, ◌*◌, ◌+◌, ◌-◌, ◌/◌, ◌<◌, ◌==◌, ◌^◌, ◌∙◌, ◌≡◌}
use radix_os.Bits.Fields.{shifted, bit_and-shifted, bit_and-lowest}
use radix_os.Paging.{
  virt_mem_get_current_directory, virt_mem_get_page_index, virt_mem_get_page_table_index,
  virt_mem_get_page_table, virt_mem_get_directory, virt_mem_get_page_table_entry_by_addr,
  virt_mem_get_page_table_entry, virt_mem_get_page_directory_entry,
  virt_mem_get_page_directory_entry_by_addr,
}

page_index-value : (a : ℕ) → virt_mem_get_page_index a ≡ a / 4096 % 1024
unfolding virt_mem_get_page_index
page_index-value a =
    let low : bit_and (shifted 12 a) (2 ^ 10 - 1) ≡ a / 4096 % 1024 =
      bit_and-lowest 10 (shifted 12 a) ∙ omega arith in
    let field = bit_and-shifted 12 a (2 ^ 10 - 1) ∙ ap (λ t. t * 4096) low in
    ap (λ t. t / 4096) field ∙ omega arith

page_table_index-value : (a : ℕ) → a < 2 ^ 32 → virt_mem_get_page_table_index a ≡ a / 2 ^ 22
unfolding virt_mem_get_page_table_index
page_table_index-value a h =
    let low : bit_and (shifted 22 a) (2 ^ 10 - 1) ≡ a / 2 ^ 22 =
      bit_and-lowest 10 (shifted 22 a) ∙ omega arith in
    let field = bit_and-shifted 22 a (2 ^ 10 - 1) ∙ ap (λ t. t * 2 ^ 22) low in
    ap (λ t. t / 2 ^ 22) field ∙ omega arith

page_table-value :
    (n a : ℕ)
    → n < 1024
    → a < 2 ^ 32
    → virt_mem_get_page_table (n * 2 ^ 22) a ≡ n * 2 ^ 22 + a / 2 ^ 22 * 4096
unfolding virt_mem_get_page_table
page_table-value n a small h = rw (page_table_index-value a h) (omega arith)

page_entry-value :
    (n a : ℕ)
    → 0 < n
    → n < 1024
    → a < 2 ^ 32
    → virt_mem_get_page_table_entry_by_addr (n * 2 ^ 22) a ≡ n * 2 ^ 22 + 4 * (a / 4096)
unfolding virt_mem_get_page_table_entry_by_addr virt_mem_get_page_table_entry
page_entry-value n a pos small h =
    let some_table : (n * 2 ^ 22 + a / 2 ^ 22 * 4096 == 0) ≡ false = ground arith in
    rw (page_table-value n a small h, some_table, page_index-value a) (omega arith)

directory_entry-value :
    (n a : ℕ)
    → 0 < n
    → n < 1024
    → a < 2 ^ 32
    → virt_mem_get_page_directory_entry_by_addr (n * 2 ^ 22) a
      ≡ n * 2 ^ 22 + n * 4096 + 4 * (a / 2 ^ 22)
unfolding virt_mem_get_page_directory_entry_by_addr virt_mem_get_page_directory_entry
    virt_mem_get_directory
directory_entry-value n a pos small h =
    let own : n * 2 ^ 22 / 2 ^ 22 ≡ n = omega arith in
    let some_table : (n * 2 ^ 22 + n * 4096 == 0) ≡ false = ground arith in
    rw
      (
        page_table-value n (n * 2 ^ 22) small (omega arith),
        own,
        some_table,
        page_table_index-value a h,
      )
      (omega arith)

-- For a recursive table at a multiple of 4 MiB other than 0, the entry of the page of an address
-- stands at 4 times the number of the page from there on, and the entry of its table in the
-- directory is the entry of the page that has that entry.
pub recursive_table_lem :
    (n a : ℕ)
    → 0 < n
    → n < 1024
    → a < 2 ^ 32
    → (virt_mem_get_page_table_entry_by_addr (n * 2 ^ 22) a ≡ n * 2 ^ 22 + 4 * (a / 4096))
      × (virt_mem_get_page_directory_entry_by_addr (n * 2 ^ 22) a
          ≡ virt_mem_get_page_table_entry_by_addr
              (n * 2 ^ 22)
              (virt_mem_get_page_table_entry_by_addr (n * 2 ^ 22) a))
recursive_table_lem n a pos small h =
    let entry = page_entry-value n a pos small h in
    (
      entry,
      directory_entry-value n a pos small h
          ∙ sym (
              ap (virt_mem_get_page_table_entry_by_addr (n * 2 ^ 22)) entry
              ∙ page_entry-value n (n * 2 ^ 22 + 4 * (a / 4096)) pos small (omega arith)
              ∙ omega arith),
    )

-- The same by the functions that the code combines, at the table of the current directory.
module _ (a : ℕ) (h : a < 2 ^ 32) where
  pub self_entry :
      virt_mem_get_page_table_entry (virt_mem_get_page_table 0xc000_0000 a) a
      ≡ 0xc000_0000 + 4 * (a / 4096)
  unfolding virt_mem_get_page_table_entry_by_addr
  self_entry = page_entry-value 768 a (omega arith) (omega arith) h

  pub self_dir_entry :
      virt_mem_get_page_directory_entry (virt_mem_get_directory 0xc000_0000) a
      ≡ 0xc030_0000 + 4 * (a / 2 ^ 22)
  unfolding virt_mem_get_page_directory_entry_by_addr
  self_dir_entry = directory_entry-value 768 a (omega arith) (omega arith) h

  pub current_dir_entry :
      virt_mem_get_page_directory_entry virt_mem_get_current_directory a
      ≡ 0xc030_0000 + 4 * (a / 2 ^ 22)
  unfolding virt_mem_get_current_directory virt_mem_get_directory virt_mem_get_page_table
  current_dir_entry = self_dir_entry

  pub self_table : virt_mem_get_page_table 0xc000_0000 a ≡ 0xc000_0000 + a / 2 ^ 22 * 4096
  self_table = page_table-value 768 a (omega arith) h
