-- ===== src/Paging/Tests.antt =====
-- The theorems on paging at concrete addresses.
use radix_os.Base.{arith, ◌≡◌}
use radix_os.Paging.{
  virt_mem_get_page_table_entry_by_addr, virt_mem_get_page_directory_entry_by_addr,
}
use radix_os.Paging.Recursive.{recursive_table_lem}

recursive_table_lem_example :
    (virt_mem_get_page_table_entry_by_addr 0xc000_0000 0x0040_1000 ≡ 0xc000_1004)
    × (virt_mem_get_page_directory_entry_by_addr 0xc000_0000 0x0040_1000
        ≡ virt_mem_get_page_table_entry_by_addr 0xc000_0000
            (virt_mem_get_page_table_entry_by_addr 0xc000_0000 0x0040_1000))
recursive_table_lem_example =
    recursive_table_lem 768 0x0040_1000 (omega arith) (omega arith) (omega arith)
