-- ===== src/Slots.antt =====
-- The search for a free slot in a table, as in kernel/ipc/mailbox.c and kernel/process/process.c: the
-- function that creates what stands in a slot is tried on each slot in turn.
use native.Mathlib.Decide.{ℕ_discrete}
use radix_os.Base.{
  Bool, Bool-cases, Option, arith, false, inl, inr, none, refl, some, subst, suc, true, zero, ℕ,
  ◌+◌, ◌<◌, ◌≡◌, ◌≤◌,
}
use radix_os.Exec.{Run, done, panicked, hung}

-- with the rounds left
pub try_slots {ℓ} : {S : Type ℓ} → (ℕ → S → Run (Option ℕ × S)) → ℕ → ℕ → S → Run (Option ℕ × S)
try_slots create zero i s = done (none, s)
try_slots create (suc n) i s = elim (create i s) [
  | done (some slot, t) ↦ done (some slot, t)
  | done (none, t) ↦ try_slots create n (i + 1) t
  | panicked ↦ panicked
  | hung ↦ hung
]

module _ {ℓ κ} {S : Type ℓ} (IsCreated : ℕ → S → Type κ) (free : ℕ → Bool) (s : S) where
  -- The ways in which the search from slot `i` on comes back.
  pub data Tried (n i : ℕ) (o : Option ℕ) (t : S) : Type (ℓ ⊔ κ) where
    none_free : o ≡ none → t ≡ s → ((j : ℕ) → i ≤ j → j < i + n → free j ≡ false) → Tried n i o t
    first_free :
        (slot : ℕ)
        → o ≡ some slot
        → i ≤ slot
        → slot < i + n
        → free slot ≡ true
        → ((j : ℕ) → i ≤ j → j < slot → free j ≡ false)
        → IsCreated slot t
        → Tried n i o t

  from_here :
      (i k : ℕ)
      → free i ≡ false
      → ((j : ℕ) → i + 1 ≤ j → j < k → free j ≡ false)
      → (j : ℕ) → i ≤ j
      → j < k
      → free j ≡ false
  from_here i k used rest j a b = elim (ℕ_discrete i j) [
    | yes same ↦ subst (λ x. free x ≡ false) same used
    | no ne ↦ rest j (omega arith) b
  ]

  later :
      (n i : ℕ) (o : Option ℕ) (t : S) → free i ≡ false → Tried n (i + 1) o t → Tried (suc n) i o t
  later n i o t used (none_free e same all) =
      none_free e same (λ j a b. from_here i (i + 1 + n) used all j a (omega arith))
  later n i o t used (first_free slot e lo hi is_free before c) =
      first_free slot e (omega arith) (omega arith) is_free (from_here i slot used before) c

  -- If the function refuses a slot in use and creates in a free one, then the search finds the
  -- first free slot.
  pub try_slots_lem :
      (create : ℕ → S → Run (Option ℕ × S))
      → ((i : ℕ) → free i ≡ false → create i s ≡ done (none, s))
      → ((i : ℕ) → free i ≡ true → (t : S) × (create i s ≡ done (some i, t)) × IsCreated i t)
      → (n i : ℕ)
      → (o : Option ℕ) × (t : S) × (try_slots create n i s ≡ done (o, t)) × Tried n i o t
  unfolding try_slots
  try_slots_lem create refuses makes zero i =
      (none, s, refl, none_free refl refl (λ j a b. absurd (omega arith)))
  try_slots_lem create refuses makes (suc n) i = elim (Bool-cases (free i)) [
    | inl is_free ↦
        let (t, got, c) = makes i is_free in
        (
          some i,
          t,
          rw (got, try_slots) refl,
          first_free i refl (omega arith) (omega arith) is_free (λ j a b. absurd (omega arith)) c,
        )
    | inr used ↦
        let (o, t, got, c) = try_slots_lem create refuses makes n (i + 1) in
        (o, t, rw (refuses i used, try_slots) got, later n i o t used c)
  ]
