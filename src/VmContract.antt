-- ===== src/VmContract.antt =====
-- kernel/vm_contract.c, the public functions: the memory map of a process.
pub mod Invariant
pub mod Add
pub mod Find
pub mod Remove
mod Tests
use mathlib.Core.Option
use radix_os.Base.{ℕ, not, Option, none, some, if◌then◌else◌, ◌>>=◌, ◌==◌}
use radix_os.Types.{ErrorT, error_ok, error_occur}
use radix_os.VmArea.{VmArea, vm_area_is_ok, vm_area_is_removable}
use radix_os.AvlTree.{Node, Tree, leaf, avl_insert, avl_remove, interval_intersect}

-- `alloc` is what `heap_alloc(kheap, sizeof(vm_area_node_t))` returns, null where it fails.
pub vm_area_node_create : ℕ → VmArea → Option Node
vm_area_node_create alloc area =
    if alloc == 0
    then none
    else some (record { ptr = alloc; height = 1; max_addr = area.end_addr; area = area })

pub record VmContract : Type 0 where
  pub root : Tree

-- `c->root = 0`
pub vm_contract_init : VmContract
vm_contract_init = record { root = leaf }

pub vm_contract_add_area : VmContract → VmArea → (alloc : ℕ) → Option (ErrorT × VmContract)
unfolding vm_area_node_create
vm_contract_add_area c new_area alloc =
    if not (vm_area_is_ok new_area)
    then some (error_occur, c)
    else elim (interval_intersect c.root new_area) [
      | some _ ↦ some (error_occur, c)
      | none ↦ elim (vm_area_node_create alloc new_area) [
        | none ↦ some (error_occur, c)
        | some new_node ↦ avl_insert c.root new_node >>= λ t. some (error_ok, record { root = t })
      ]
    ]

-- With the address that `heap_free` gets, if it is called.
pub vm_contract_remove_area : VmContract → VmArea → Option (ErrorT × VmContract × Option ℕ)
vm_contract_remove_area c area =
    if not (vm_area_is_removable area)
    then some (error_occur, c, none)
    else (avl_remove c.root area >>= λ (t, out).
        some (error_ok, record { root = t }, Option.map (λ (n : Node). n.ptr) out))

-- `&intersection->area`, or null
pub vm_contract_find_area : VmContract → (address : ℕ) → Option VmArea
vm_contract_find_area c address =
    Option.map (λ n. n.area)
      (interval_intersect c.root
        (record { start_addr = address; end_addr = address; flags = 0; fd = 0; offset = 0 }))

-- The bodies of these two are commented out in the source.
pub vm_contract_expand_area : VmContract → VmArea → (length : ℕ) → ErrorT × VmContract
vm_contract_expand_area c area length = (error_ok, c)

pub vm_contract_get_area_for_length : VmContract → (length : ℕ) → ℕ
vm_contract_get_area_for_length c length = 0
