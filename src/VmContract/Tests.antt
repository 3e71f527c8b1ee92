-- ===== src/VmContract/Tests.antt =====
-- The theorems on memory maps at small maps, and runs of the code.
use radix_os.AvlTree.BadBranch.{bad_rotation_loses, avl_remove-faults}
use radix_os.VmContract.Remove.{vm_contract_remove_area_lem, Taken}
use radix_os.VmContract.Invariant.{IsValid}
use radix_os.AvlTree.Areas.{owns_out, owns, erase_area}
use radix_os.VmContract.Add.{vm_contract_add_area_lem, Added}
use radix_os.AvlTree.Cells.{insert_cell, cells}
use radix_os.AvlTree.Remove.{avl_remove_lem, taken, goes_wrong}
use radix_os.VmContract.Find.{vm_contract_find_area_lem, Found}
use radix_os.AvlTree.Insert.{avl_insert_lem, IsAvl}
use radix_os.AvlTree.Rejoin.{bad_rotation}
use radix_os.VmArea.{vm_area_intersect, VmArea, vm_area_is_ok}
use radix_os.Types.{error_ok, ErrorT}
use radix_os.AvlTree.Search.{interval_intersect-none, Misses}
use radix_os.VmContract.{
  vm_contract_remove_area, vm_contract_add_area, vm_contract_find_area, vm_contract_init,
  VmContract,
}
use radix_os.AvlTree.{
  avl_rotate_right, avl_rotate_left, leaf, get_node_balance, rebalance_insert, get_node_max,
  get_node_height, refresh, node, avl_insert, areas, Tree, avl_remove, interval_intersect,
  rebalance_remove, Node,
}
use radix_os.Base.{
  All, Option, arith, false, length, none, refl, some, true, ℕ, ◌*◌, ◌+◌, ◌>>=◌, ◌≡◌,
}

abbrev page : ℕ → VmArea
page k = record { start_addr = k * 4096; end_addr = k * 4096 + 4095; flags = 0; fd = 0; offset = 0 }

abbrev single : ℕ → ℕ → Node
single p k = record { ptr = p; height = 1; max_addr = k * 4096 + 4095; area = page k }

-- pages 2 and 4, at the nodes 100 and 101
abbrev two_pages : Tree
two_pages =
    node leaf (record (single 100 2) { height = 2; max_addr = 4 * 4096 + 4095 })
      (node leaf (single 101 4) leaf)

two_pages-IsAvl : IsAvl two_pages
two_pages-IsAvl = record { cached = omega arith; balanced = omega arith; sorted = omega arith }

abbrev contract : VmContract
contract = record { root = two_pages }

contract-IsValid : IsValid contract
unfolding vm_area_is_ok vm_area_intersect
contract-IsValid = record {
  avl = two_pages-IsAvl;
  usable = (refl, (refl, tt));
  apart = ((refl, tt), (tt, tt));
}

-- Pages 1 to 6 in ascending order, by way of the public functions.
add_page : Option VmContract → ℕ → Option VmContract
add_page c k = c >>= λ c'. vm_contract_add_area c' (page k) (100 + k) >>= λ r. some r.1

height_of : Option VmContract → Option ℕ
height_of c = c >>= λ c'. some (get_node_height c'.root)

six_pages : Option VmContract
unfolding add_page vm_contract_init vm_contract_add_area vm_area_is_ok interval_intersect
    vm_area_intersect avl_insert rebalance_insert refresh get_node_balance avl_rotate_left
    avl_rotate_right get_node_height get_node_max
six_pages =
    add_page
      (add_page (add_page (add_page (add_page (add_page (some vm_contract_init) 1) 2) 3) 4) 5) 6

-- Inserting in ascending order leaves a tree of height 3.
six_pages_height : height_of six_pages ≡ some 3
unfolding six_pages height_of
six_pages_height = refl

avl_insert_lem_example :
    (t' : Tree) × (avl_insert two_pages (single 102 7) ≡ some t')
    × IsAvl t'
    × (cells t' ≡ insert_cell (102, page 7) (cells two_pages))
avl_insert_lem_example =
    avl_insert_lem two_pages (single 102 7) two_pages-IsAvl refl refl (omega arith)

two_pages_good : goes_wrong two_pages (page 2) ≡ false
unfolding goes_wrong avl_remove rebalance_remove refresh get_node_balance bad_rotation
two_pages_good = refl

avl_remove_lem_example :
    (t' : Tree) × (out : Option Node) × (avl_remove two_pages (page 2) ≡ some (t', out))
    × IsAvl t'
    × (areas t' ≡ erase_area (2 * 4096) (areas two_pages))
    × ((p : ℕ) → owns p two_pages ≡ owns p t' + owns_out p out)
    × (length (areas two_pages) ≡ length (areas t') + taken out)
avl_remove_lem_example =
    avl_remove_lem two_pages (page 2) two_pages-IsAvl (omega arith) two_pages_good

vm_contract_add_area_lem_example :
    (s : ErrorT) × (c' : VmContract) × (vm_contract_add_area contract (page 3) 102 ≡ some (s, c'))
    × Added contract (page 3) 102 s c'
vm_contract_add_area_lem_example =
    vm_contract_add_area_lem contract (page 3) 102 contract-IsValid (omega arith)

vm_contract_remove_area_lem_example :
    (c' : VmContract) × (freed : Option ℕ) × (vm_contract_remove_area contract (page 2)
      ≡ some (error_ok, c', freed))
    × Taken contract (page 2) c' freed
vm_contract_remove_area_lem_example =
    vm_contract_remove_area_lem contract (page 2) contract-IsValid (omega arith) two_pages_good

vm_contract_find_area_lem_example : Found contract 8200 (vm_contract_find_area contract 8200)
vm_contract_find_area_lem_example = vm_contract_find_area_lem contract 8200 contract-IsValid

page_three_free : interval_intersect two_pages (page 3) ≡ none
unfolding interval_intersect vm_area_intersect get_node_max
page_three_free = refl

interval_intersect-none_example : All (Misses (page 3)) (areas two_pages)
interval_intersect-none_example =
    interval_intersect-none (page 3) two_pages two_pages-IsAvl.cached two_pages-IsAvl.sorted
      page_three_free

-- pages 5 and 4 as a right child with a left child, behind the page 3
abbrev five_four : Tree
five_four = node (node leaf (single 103 4) leaf) (record (single 104 5) { height = 2 }) leaf

avl_remove-faults_example :
    avl_remove
      (node
        (node leaf (single 101 1) leaf)
        (record (single 102 3) { height = 3; max_addr = 5 * 4096 + 4095 })
        five_four)
      (page 1)
    ≡ none
avl_remove-faults_example =
    avl_remove-faults (single 101 1)
      (record (single 102 3) { height = 3; max_addr = 5 * 4096 + 4095 }) (single 103 4)
      (record (single 104 5) { height = 2 }) (omega arith) (omega arith)

-- A left child of depth 2, and a right one of depth 4 that is deeper on its left.
abbrev deep_left : Tree
deep_left = node leaf (record (single 101 1) { height = 2 }) (node leaf (single 102 2) leaf)

abbrev deep_right : Tree
deep_right =
    node
      (node (node leaf (single 103 4) leaf) (record (single 104 5) { height = 3 })
        (node leaf (record (single 105 6) { height = 2 }) (node leaf (single 110 7) leaf)))
      (record (single 106 8) { height = 4 })
      (node leaf (single 107 9) (node leaf (single 108 10) leaf))

deep_bad : bad_rotation deep_left (single 109 3) deep_right ≡ true
unfolding bad_rotation refresh get_node_balance
deep_bad = refl

abbrev lost : Tree
lost =
    node (node leaf (record (single 101 1) { height = 1 }) leaf)
      (record (single 102 2) { height = 2 }) leaf

deep_lost : rebalance_remove deep_left (single 109 3) deep_right ≡ some lost
unfolding rebalance_remove refresh get_node_balance avl_rotate_left avl_rotate_right
deep_lost = refl

-- Of ten areas two are left.
bad_rotation_loses_example : areas lost ≡ areas deep_left
bad_rotation_loses_example =
    bad_rotation_loses deep_left (single 109 3) deep_right lost deep_bad deep_lost
