-- ===== src/Strings/Copy.antt =====
-- `strcpy` and `strcpy_s`.
use radix_os.Base.{
  Bool-cases, List, [], arith, false, inl, inr, length, ltb, ltb→le, ltb→lt, refl, some, suc, zero,
  ℕ, ◌+◌, ◌<◌, ◌==◌, ◌∙◌, ◌∷◌, ◌≡◌, ◌≤◌, ◌⊎◌,
}
use radix_os.Memory.{Bytes, put_byte}
use radix_os.Strings.{strcpy, strcpy_s}
use radix_os.Strings.Length.{IsString, IsString-same, strlen_lem}

-- `m'` is `m` with the string `l` at `d`.
pub record IsCopied (d : ℕ) (l : List ℕ) (m m' : Bytes) : Type 0 where
  pub there : IsString d l m'
  pub others : (b : ℕ) → (b < d) ⊎ (d + length l < b) → m' b ≡ m b

-- `strcpy` of a string to a place that does not begin within it comes back, on fuel for one round
-- more than the string's length; the string is at the destination, and no other byte has changed.
pub strcpy_lem :
    (l : List ℕ) (fuel d s : ℕ) (m : Bytes)
    → IsString s l m
    → length l < fuel
    → (d ≤ s) ⊎ (s + length l < d)
    → (m' : Bytes) × (strcpy fuel d s m ≡ some m') × IsCopied d l m m'
unfolding strcpy put_byte
strcpy_lem l zero d s m h f apart = absurd (omega arith)
strcpy_lem [] (suc n) d s m h f apart = (
  put_byte d (m s) m,
  rw h refl,
  record { there = ground (arith, h); others = λ b o. ground (arith, o) },
)
strcpy_lem (c ∷ l) (suc n) d s m (e, pos, h) f apart =
    let some_byte : (m s == 0) ≡ false = ground (arith, e) in
    let t = put_byte d (m s) m in
    let still = IsString-same l (s + 1) m t (λ b lo hi. ground (arith, apart)) h in
    let (m', got, v) =
      strcpy_lem l n (d + 1) (s + 1) t still (omega arith) (ground (arith, apart)) in
    (
      m',
      rw some_byte got,
      record {
        there = (v.others d (inl (omega arith)) ∙ ground (arith, e), pos, v.there);
        others = λ b o. v.others b (ground (arith, o)) ∙ ground (arith, o);
      },
    )

-- `strcpy_s` of a string to a place that does not begin within it comes back, on fuel for one round
-- more than the string's length. If the string is longer than the size given, the result is 1 and
-- memory is as it was; else the result is 0 and the string is at the destination. No byte below the
-- destination, and none that is more than the size given above it, has changed; the byte that is
-- just so far above it is the last one of a string of that length.
pub strcpy_s_lem :
    (l : List ℕ) (fuel d destsz s : ℕ) (m : Bytes)
    → IsString s l m
    → length l < fuel
    → (d ≤ s) ⊎ (s + length l < d)
    → (r : ℕ) × (m' : Bytes) × (strcpy_s fuel d destsz s m ≡ some (r, m'))
      × (((destsz < length l) × (r ≡ 1) × (m' ≡ m))
          ⊎ ((length l ≤ destsz) × (r ≡ 0) × IsCopied d l m m'))
      × ((b : ℕ) → (b < d) ⊎ (d + destsz < b) → m' b ≡ m b)
unfolding strcpy_s
strcpy_s_lem l fuel d destsz s m h f apart = elim (Bool-cases (ltb destsz (length l))) [
  | inl long ↦ (
    1,
    m,
    rw (strlen_lem l fuel s m h f, long) refl,
    inl (ltb→lt destsz (length l) long, refl, refl),
    λ b o. refl,
  )
  | inr fits ↦
      let (m', got, v) = strcpy_lem l fuel d s m h f apart in
      let short = ltb→le destsz (length l) fits in
      (
        0,
        m',
        rw (strlen_lem l fuel s m h f, fits, got) refl,
        inr (short, refl, v),
        λ b o. v.others b (ground (arith, o)),
      )
]
