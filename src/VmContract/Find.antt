-- ===== src/VmContract/Find.antt =====
-- `vm_contract_find_area`
use radix_os.AvlTree.Areas.{map-cells}
use radix_os.AvlTree.Search.{interval_intersect-some, interval_intersect-none, Misses}
use radix_os.VmContract.Invariant.{IsValid}
use radix_os.AvlTree.Cells.{cells, cell_of, Cell}
use radix_os.AvlTree.{interval_intersect, areas, Node}
use radix_os.VmContract.{VmContract, vm_contract_find_area}
use radix_os.VmArea.{vm_area_intersect, VmArea}
use radix_os.Base.{
  All, All-imp, Any, List, Option, Option-cases, [], ap, arith, inl, inr, map, none, some, true, ℕ,
  ◌∷◌, ◌≡◌, ◌≤◌,
}

abbrev pub Contains : ℕ → VmArea → Type 0
Contains address x = (x.start_addr ≤ address) × (address ≤ x.end_addr)

-- What `vm_contract_find_area` returns for an address.
abbrev pub Found : VmContract → ℕ → Option VmArea → Type 0
Found c address none = All (λ x. ¬ Contains address x) (areas c.root)
Found c address (some a) = Contains address a × Any (λ x. x ≡ a) (areas c.root)

abbrev point : ℕ → VmArea
point address = record { start_addr = address; end_addr = address; flags = 0; fd = 0; offset = 0 }

Contains-of_hit :
    (address : ℕ) (x : VmArea) → vm_area_intersect x (point address) ≡ true → Contains address x
unfolding vm_area_intersect
Contains-of_hit address x h = ground arith

not-Contains_of_miss : (address : ℕ) (x : VmArea) → Misses (point address) x → ¬ Contains address x
unfolding vm_area_intersect
not-Contains_of_miss address x h = ground arith

Any-areas :
    (n : Node) (cs : List Cell)
    → Any (λ x. x ≡ cell_of n) cs
    → Any (λ x. x ≡ n.area) (map (λ x. x.1) cs)
Any-areas n [] h = absurd h
Any-areas n (c ∷ cs) (inl e) = inl (ap (λ x. x.1) e)
Any-areas n (c ∷ cs) (inr h) = inr (Any-areas n cs h)

-- In a valid contract `vm_contract_find_area` returns an area of the contract that contains the
-- address, and null only where none does.
pub vm_contract_find_area_lem :
    (c : VmContract) (address : ℕ) → IsValid c → Found c address (vm_contract_find_area c address)
unfolding vm_contract_find_area
vm_contract_find_area_lem c address v =
    elim (Option-cases (interval_intersect c.root (point address))) [
      | inl missed ↦
          rw (missed, vm_contract_find_area)
            (All-imp (not-Contains_of_miss address) (areas c.root)
              (interval_intersect-none (point address) c.root v.avl.cached v.avl.sorted missed))
      | inr (n, hit) ↦
          let (meets, found) = interval_intersect-some (point address) c.root hit in
          rw (hit, vm_contract_find_area)
            (
              Contains-of_hit address n.area meets,
              rw (← map-cells c.root) (Any-areas n (cells c.root) found),
            )
    ]
