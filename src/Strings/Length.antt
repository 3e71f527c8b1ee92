-- ===== src/Strings/Length.antt =====
-- What a string is, and `strlen`.
use radix_os.Base.{
  List, [], ap, arith, false, length, refl, some, subst, suc, zero, ℕ, ◌+◌, ◌<◌, ◌==◌, ◌∙◌, ◌∷◌,
  ◌≡◌, ◌≤◌,
}
use radix_os.Memory.{Bytes}
use radix_os.Strings.{strlen_from, strlen}

-- The bytes at `a` are those of `l`, none of them 0, and then a 0.
abbrev pub IsString : ℕ → List ℕ → Bytes → Type 0
IsString a [] m = m a ≡ 0
IsString a (c ∷ l) m = (m a ≡ c) × (0 < c) × IsString (a + 1) l m

strlen_from-value :
    (l : List ℕ) (fuel i a : ℕ) (m : Bytes)
    → IsString (a + i) l m
    → length l < fuel
    → strlen_from fuel i a m ≡ some (i + length l)
unfolding strlen_from
strlen_from-value l zero i a m h d = absurd (omega arith)
strlen_from-value [] (suc n) i a m h d = rw h (ap some (omega arith))
strlen_from-value (c ∷ l) (suc n) i a m (e, pos, h) d =
    let some_byte : (c == 0) ≡ false = ground arith in
    let next : a + i + 1 ≡ a + (i + 1) = omega arith in
    rw (e, some_byte)
      (strlen_from-value l n (i + 1) a m (subst (λ b. IsString b l m) next h) (omega arith)
        ∙ ap some (omega arith))

-- `strlen` of a string comes back with its length, on fuel for one round more.
pub strlen_lem :
    (l : List ℕ) (fuel a : ℕ) (m : Bytes)
    → IsString a l m
    → length l < fuel
    → strlen fuel a m ≡ some (length l)
unfolding strlen
strlen_lem l fuel a m h d =
    strlen_from-value l fuel 0 a m (subst (λ b. IsString b l m) (omega arith) h) d
    ∙ ap some (omega arith)

-- The same by the places of the bytes.
abbrev bytes_from : Bytes → ℕ → ℕ → List ℕ
bytes_from m a zero = []
bytes_from m a (suc n) = m a ∷ bytes_from m (a + 1) n

length-bytes_from : (m : Bytes) (a n : ℕ) → length (bytes_from m a n) ≡ n
length-bytes_from m a zero = refl
length-bytes_from m a (suc n) = ap suc (length-bytes_from m (a + 1) n)

bytes_from-IsString :
    (m : Bytes) (a n : ℕ)
    → ((j : ℕ) → j < n → 0 < m (a + j))
    → m (a + n) ≡ 0
    → IsString a (bytes_from m a n) m
bytes_from-IsString m a zero pos last = ap m (omega arith) ∙ last
bytes_from-IsString m a (suc n) pos last = (
  refl,
  subst (λ b. 0 < m b) (omega arith) (pos 0 (omega arith)),
  bytes_from-IsString m (a + 1) n
      (λ j d. subst (λ b. 0 < m b) (omega arith) (pos (suc j) (omega arith)))
      (ap m (omega arith) ∙ last),
)

pub strlen-at :
    (n fuel a : ℕ) (m : Bytes)
    → ((j : ℕ) → j < n → 0 < m (a + j))
    → m (a + n) ≡ 0
    → n < fuel
    → strlen fuel a m ≡ some n
strlen-at n fuel a m pos last d =
    let size = length-bytes_from m a n in
    strlen_lem (bytes_from m a n) fuel a m (bytes_from-IsString m a n pos last)
      (omega (arith, size))
    ∙ ap some size

-- A string stays one as long as its bytes do.
pub IsString-same :
    (l : List ℕ) (a : ℕ) (m m' : Bytes)
    → ((b : ℕ) → a ≤ b → b < a + length l + 1 → m' b ≡ m b)
    → IsString a l m
    → IsString a l m'
IsString-same [] a m m' same h = same a (omega arith) (omega arith) ∙ h
IsString-same (c ∷ l) a m m' same (e, pos, h) = (
  same a (omega arith) (omega arith) ∙ e,
  pos,
  IsString-same l (a + 1) m m' (λ b lo hi. same b (omega arith) (omega arith)) h,
)
