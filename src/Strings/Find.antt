-- ===== src/Strings/Find.antt =====
-- `strchr` and `strupper`.
use native.Mathlib.Decide.{ℕ_discrete}
use radix_os.Base.{
  Bool-cases, List, [], arith, false, inl, inr, length, map, refl, some, subst, suc, zero, ℕ, ◌+◌,
  ◌-◌, ◌<◌, ◌==◌, ◌∙◌, ◌∷◌, ◌≡◌, ◌≢◌, ◌≤◌, ◌⊎◌,
}
use radix_os.Memory.{Bytes, put_byte}
use radix_os.Strings.{toupper, char_value, strchr, strupper, strupper_loop}
use radix_os.Strings.Length.{IsString, IsString-same}

-- Where `strchr` of a string from `a` on comes to: no byte is `c`, or the first that is.
pub data Found (a : ℕ) (l : List ℕ) (c : ℕ) (m : Bytes) (r : ℕ) : Type 0 where
  not_there : r ≡ 0 → ((i : ℕ) → i < length l → char_value (m (a + i)) ≢ c) → Found a l c m r
  first :
      (i : ℕ)
      → i < length l
      → r ≡ a + i
      → char_value (m r) ≡ c
      → ((j : ℕ) → j < i → char_value (m (a + j)) ≢ c)
      → Found a l c m r

one_more :
    (P : ℕ → Type 0) (n a : ℕ)
    → P a
    → ((i : ℕ) → i < n → P (a + 1 + i))
    → (i : ℕ) → i < n + 1
    → P (a + i)
one_more P n a p rest i d = elim (ℕ_discrete i 0) [
  | yes z ↦ subst P (omega arith) p
  | no ne ↦ subst P (omega arith) (rest (i - 1) (omega arith))
]

Found-later :
    (a x c r : ℕ) (l : List ℕ) (m : Bytes)
    → char_value (m a) ≢ c
    → Found (a + 1) l c m r
    → Found a (x ∷ l) c m r
Found-later a x c r l m ne (not_there z none_is) =
    not_there z
      (λ i d. one_more (λ b. char_value (m b) ≢ c) (length l) a ne none_is i (omega arith))
Found-later a x c r l m ne (first i d e here before) =
    first (i + 1) (omega arith) (omega arith) here
      (one_more (λ b. char_value (m b) ≢ c) i a ne before)

-- `strchr` of a string comes back, on fuel for one round more than the length: with the address of
-- the first byte that is the character, or 0 if there is none.
pub strchr_lem :
    (l : List ℕ) (fuel a c : ℕ) (m : Bytes)
    → IsString a l m
    → length l < fuel
    → (r : ℕ) × (strchr fuel a c m ≡ some r) × Found a l c m r
unfolding strchr
strchr_lem l zero a c m h f = absurd (omega arith)
strchr_lem [] (suc n) a c m h f = (0, rw h refl, not_there refl (λ i d. absurd (omega arith)))
strchr_lem (x ∷ l) (suc n) a c m (e, pos, h) f =
    let some_byte : (m a == 0) ≡ false = ground (arith, e) in
    elim (Bool-cases (char_value (m a) == c)) [
      | inl same ↦
          let byte : char_value (m a) ≡ c = ground arith in
          (
            a,
            rw (some_byte, same) refl,
            first 0 (omega arith) (omega arith) byte (λ j d. absurd (omega arith)),
          )
      | inr other ↦
          let ne : char_value (m a) ≢ c = λ q. ground (arith, q) in
          let (r, got, v) = strchr_lem l n (a + 1) c m h (omega arith) in
          (r, rw (some_byte, other) got, Found-later a x c r l m ne v)
    ]

by_loop :
    (l : List ℕ) (fuel a : ℕ) (m : Bytes)
    → IsString a l m
    → length l < fuel
    → (m' : Bytes) × (strupper_loop fuel a m ≡ some m')
      × IsString a (map toupper l) m'
      × ((b : ℕ) → (b < a) ⊎ (a + length l ≤ b) → m' b ≡ m b)
unfolding strupper_loop put_byte
by_loop l zero a m h f = absurd (omega arith)
by_loop [] (suc n) a m h f = (m, rw h refl, h, λ b o. refl)
by_loop (x ∷ l) (suc n) a m (e, pos, h) f =
    let some_byte : (m a == 0) ≡ false = ground (arith, e) in
    let t = put_byte a (toupper (m a)) m in
    let still = IsString-same l (a + 1) m t (λ b lo hi. ground arith) h in
    let (m', got, there, others) = by_loop l n (a + 1) t still (omega arith) in
    (
      m',
      rw some_byte got,
      (others a (inl (omega arith)) ∙ ground (arith, e), ground (arith, pos), there),
      λ b o. others b (ground (arith, o)) ∙ ground (arith, o),
    )

-- `strupper` of a string returns the string, on fuel for one round more than the length, and each of
-- its lower case letters is then upper case; no other byte has changed.
pub strupper_lem :
    (l : List ℕ) (fuel a : ℕ) (m : Bytes)
    → IsString a l m
    → length l < fuel
    → (m' : Bytes) × (strupper fuel a m ≡ some (a, m'))
      × IsString a (map toupper l) m'
      × ((b : ℕ) → (b < a) ⊎ (a + length l ≤ b) → m' b ≡ m b)
unfolding strupper
strupper_lem l fuel a m h f =
    let (m', got, there, others) = by_loop l fuel a m h f in (m', rw got refl, there, others)
