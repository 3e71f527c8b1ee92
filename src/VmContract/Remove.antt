-- ===== src/VmContract/Remove.antt =====
-- `vm_contract_remove_area`, outside the bad branch of `avl_remove`.
use mathlib.Core.Option
use radix_os.Types.{error_ok}
use radix_os.AvlTree.Remove.{avl_remove_lem, goes_wrong}
use radix_os.AvlTree.Areas.{owns_out, All-erase_area, owns, erase_area}
use radix_os.VmContract.Invariant.{Apart-erase_area, IsOk, IsValid}
use radix_os.VmArea.{vm_area_is_removable, VmArea}
use radix_os.VmContract.{VmContract, vm_contract_remove_area}
use radix_os.AvlTree.{areas, Node}
use radix_os.Base.{
  Option, arith, false, if◌then◌else◌, length, none, refl, some, ℕ, ◌+◌, ◌<◌, ◌==◌, ◌^◌, ◌≡◌,
}

pub record Taken (c : VmContract) (a : VmArea) (c' : VmContract) (freed : Option ℕ) : Type 0 where
  pub valid : IsValid c'
  pub content : areas c'.root ≡ erase_area a.start_addr (areas c.root)
  pub owned :
      (p : ℕ)
      → owns p c.root ≡ owns p c'.root + elim freed [ none ↦ 0 | some q ↦ if q == p then 1 else 0 ]

freed_owns :
    (p : ℕ) (out : Option Node)
    → owns_out p out
      ≡ elim (Option.map (λ (n : Node). n.ptr) out) [ none ↦ 0 | some q ↦ if q == p then 1 else 0 ]
freed_owns p none = refl
freed_owns p (some n) = refl

-- On a valid contract of fewer than 2^29 areas, and unless `avl_remove` comes to its bad branch,
-- `vm_contract_remove_area` returns ERROR_OK and leaves a valid contract that holds all areas but
-- the one that starts where `a` does. A node is freed once where the tree gives it up, and no
-- other.
pub vm_contract_remove_area_lem :
    (c : VmContract) (a : VmArea)
    → IsValid c
    → length (areas c.root) < 2 ^ 29
    → goes_wrong c.root a ≡ false
    → (c' : VmContract) × (freed : Option ℕ) × (vm_contract_remove_area c a
        ≡ some (error_ok, c', freed))
      × Taken c a c' freed
unfolding vm_contract_remove_area vm_area_is_removable
vm_contract_remove_area_lem c a v few good =
    let (t, out, done, avl, content, owned, size) = avl_remove_lem c.root a v.avl few good in
    (
      record { root = t },
      Option.map (λ (n : Node). n.ptr) out,
      rw done,
      record {
        valid = record {
          avl = avl;
          usable = rw content (All-erase_area IsOk a.start_addr (areas c.root) v.usable);
          apart = rw content (Apart-erase_area a.start_addr (areas c.root) v.apart);
        };
        content = content;
        owned = λ p. omega (arith, owned p, freed_owns p out);
      },
    )
