-- ===== src/VmContract/Add.antt =====
-- `vm_contract_init` and `vm_contract_add_area`
use radix_os.AvlTree.Areas.{All-cells, map-cells}
use radix_os.AvlTree.Insert.{avl_insert_lem, IsAvl}
use radix_os.AvlTree.Cells.{cell_of, insert_cell, cells}
use radix_os.AvlTree.Search.{interval_intersect-none, interval_intersect-some, Misses}
use radix_os.AvlTree.{Node, interval_intersect, areas, Tree}
use radix_os.Types.{error_ok, error_occur, ErrorT}
use radix_os.VmArea.{vm_area_intersect, vm_area_is_ok, VmArea}
use radix_os.VmContract.Invariant.{
  length-insert_cell, Apart-insert_cell, All-map-insert_cell, starts_differ, IsOk, IsValid,
}
use radix_os.VmContract.{vm_area_node_create, vm_contract_add_area, vm_contract_init, VmContract}
use radix_os.Base.{
  ==_iff, All, Any, Bool-cases, List, Option-cases, [], ap, arith, false, inl, inr, length,
  length-map, map, refl, some, suc, sym, true, ℕ, ◌<◌, ◌==◌, ◌^◌, ◌∙◌, ◌∷◌, ◌≡◌, ◌≢◌, ◌⊎◌,
}

-- The empty contract is valid.
pub vm_contract_init-IsValid : IsValid vm_contract_init
unfolding vm_contract_init
vm_contract_init-IsValid = record {
  avl = record { cached = tt; balanced = tt; sorted = tt };
  usable = tt;
  apart = tt;
}

-- Why an area is refused.
abbrev pub Refused : VmContract → VmArea → ℕ → Type 0
Refused c a alloc =
    (vm_area_is_ok a ≡ false)
    ⊎ Any (λ x. vm_area_intersect x.1 a ≡ true) (cells c.root)
    ⊎ (alloc ≡ 0)

-- What `vm_contract_add_area` returns and leaves.
pub record Added (c : VmContract) (a : VmArea) (alloc : ℕ) (s : ErrorT) (c' : VmContract)
    : Type 0 where
  pub valid : IsValid c'
  pub refused : s ≡ error_occur → (c' ≡ c) × Refused c a alloc
  pub accepted :
      s ≡ error_ok
      → IsOk a
        × All (Misses a) (areas c.root)
        × (alloc ≢ 0)
        × (cells c'.root ≡ insert_cell (alloc, a) (cells c.root))
        × (length (areas c'.root) ≡ suc (length (areas c.root)))

Any-imp :
    {A : Type 0} {P Q : A → Type 0} (f : (a : A) → P a → Q a) (xs : List A) → Any P xs → Any Q xs
Any-imp f [] h = absurd h
Any-imp f (x ∷ xs) (inl h) = inl (f x h)
Any-imp f (x ∷ xs) (inr h) = inr (Any-imp f xs h)

length-areas : (t : Tree) → length (areas t) ≡ length (cells t)
length-areas t = ap length (sym (map-cells t)) ∙ length-map (cells t) (λ x. x.1)

All-differ :
    (a : VmArea) (xs : List VmArea)
    → IsOk a
    → All IsOk xs
    → All (Misses a) xs
    → All (λ x. a.start_addr ≢ x.start_addr) xs
All-differ a [] o os h = tt
All-differ a (x ∷ xs) o os h = (starts_differ a x o os.0 h.0, All-differ a xs o os.1 h.1)

module _ (c : VmContract) (a : VmArea) (alloc : ℕ) (v : IsValid c) where
  refuse : Refused c a alloc → Added c a alloc error_occur c
  refuse why = record { valid = v; refused = λ _. (refl, why); accepted = λ e. absurd (cc) }

  accept :
      (t : Tree)
      → IsOk a
      → All (Misses a) (areas c.root)
      → alloc ≢ 0
      → IsAvl t
      → cells t ≡ insert_cell (alloc, a) (cells c.root)
      → Added c a alloc error_ok (record { root = t })
  accept t ok miss some_ptr avl content =
      let cs = cells c.root in
      let old : map (λ x. x.1) cs ≡ areas c.root = map-cells c.root in
      let inserted : areas t ≡ map (λ x. x.1) (insert_cell (alloc, a) (cells c.root)) =
        sym (map-cells t) ∙ ap (map (λ x. x.1)) content in
      record {
        valid = record {
          avl = avl;
          usable = rw inserted (All-map-insert_cell (alloc, a) IsOk cs ok (rw old v.usable));
          apart = rw inserted (Apart-insert_cell (alloc, a) cs (rw old miss) (rw old v.apart));
        };
        refused = λ e. absurd (cc);
        accepted = λ _. (
          ok,
          miss,
          some_ptr,
          content,
          length-areas t
              ∙ ap length content
              ∙ length-insert_cell (alloc, a) cs
                  (All-cells (λ x. a.start_addr ≢ x.start_addr) c.root
                    (All-differ a (areas c.root) ok v.usable miss))
              ∙ ap suc (sym (length-areas c.root)),
        );
      }

-- On a valid contract of fewer than 2^29 areas `vm_contract_add_area` dereferences no null pointer
-- and leaves a valid contract. Where it returns ERROR_OCCUR it changes nothing, and the area was
-- not usable, intersected one that is there, or got no memory; where it returns ERROR_OK none of
-- that holds, and the contract holds the area besides all areas that it had.
pub vm_contract_add_area_lem :
    (c : VmContract) (a : VmArea) (alloc : ℕ)
    → IsValid c
    → length (areas c.root) < 2 ^ 29
    → (s : ErrorT) × (c' : VmContract) × (vm_contract_add_area c a alloc ≡ some (s, c'))
      × Added c a alloc s c'
unfolding vm_contract_add_area vm_area_node_create
vm_contract_add_area_lem c a alloc v few = elim (Bool-cases (vm_area_is_ok a)) [
  | inr bad ↦ (error_occur, c, rw bad, refuse c a alloc v (inl bad))
  | inl ok ↦ elim (Option-cases (interval_intersect c.root a)) [
    | inr (n, hit) ↦
        let (meets, found) = interval_intersect-some a c.root hit in
        (
          error_occur,
          c,
          rw (ok, hit, vm_contract_add_area),
          refuse c a alloc v
              (inr (inl (Any-imp (λ x (e : x ≡ cell_of n). rw e meets) (cells c.root) found))),
        )
    | inl free ↦ elim (Bool-cases (alloc == 0)) [
      | inl no_memory ↦ (
        error_occur,
        c,
        rw (ok, free, vm_contract_add_area, no_memory, vm_area_node_create),
        refuse c a alloc v (inr (inr ((==_iff alloc 0).0 no_memory))),
      )
      | inr memory ↦
          let ins : Node = record { ptr = alloc; height = 1; max_addr = a.end_addr; area = a } in
          let (t, done, avl, content) = avl_insert_lem c.root ins v.avl refl refl few in
          (
            error_ok,
            record { root = t },
            rw (ok, free, vm_contract_add_area, memory, vm_area_node_create, done),
            accept c a alloc v t ok
                (interval_intersect-none a c.root v.avl.cached v.avl.sorted free)
                (λ e. ground (arith, ==_iff alloc 0)) avl content,
          )
    ]
  ]
]
