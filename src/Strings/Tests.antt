-- ===== src/Strings/Tests.antt =====
-- The theorems on strings, at "aB" from 10 on and "b" from 20 on.
use radix_os.Base.{
  List, [], arith, if◌then◌else◌, inr, refl, some, ℕ, ◌-◌, ◌<◌, ◌==◌, ◌^◌, ◌↔◌, ◌∷◌, ◌≡◌, ◌≤◌, ◌⊎◌,
}
use radix_os.Memory.{Bytes}
use radix_os.Strings.{strcpy_s, strcmp, strcmp_insensitive}
use radix_os.Strings.Length.{IsString}
use radix_os.Strings.Copy.{IsCopied, strcpy_s_lem}
use radix_os.Strings.Compare.{strcmp_lem}

abbrev some_bytes : Bytes
some_bytes = λ a. if a == 10 then 97 else if a == 11 then 66 else if a == 20 then 98 else 0

abbrev two_bytes : List ℕ
two_bytes = 97 ∷ 66 ∷ []

abbrev one_byte : List ℕ
one_byte = 98 ∷ []

some_bytes-lt : (a : ℕ) → some_bytes a < 256
some_bytes-lt a = ground arith

two_bytes-IsString : IsString 10 two_bytes some_bytes
two_bytes-IsString = (refl, omega arith, (refl, omega arith, refl))

one_byte-IsString : IsString 20 one_byte some_bytes
one_byte-IsString = (refl, omega arith, refl)

-- into a buffer of two bytes
strcpy_s_lem_example :
    (r : ℕ) × (m' : Bytes) × (strcpy_s 3 30 2 10 some_bytes ≡ some (r, m'))
    × (((2 < 2) × (r ≡ 1) × (m' ≡ some_bytes))
        ⊎ ((2 ≤ 2) × (r ≡ 0) × IsCopied 30 two_bytes some_bytes m'))
    × ((b : ℕ) → (b < 30) ⊎ (32 < b) → m' b ≡ some_bytes b)
strcpy_s_lem_example =
    strcpy_s_lem two_bytes 3 30 2 10 some_bytes two_bytes-IsString (omega arith) (inr (omega arith))

strcmp_lem_example :
    (r : ℕ) × (strcmp 3 10 20 some_bytes ≡ some r) × ((r ≡ 0) ↔ (two_bytes ≡ one_byte))
strcmp_lem_example =
    strcmp_lem two_bytes one_byte 3 10 20 some_bytes two_bytes-IsString one_byte-IsString
      some_bytes-lt (omega arith)

-- upper and lower case
strcmp_insensitive_same : strcmp_insensitive 2 11 20 some_bytes ≡ some 0
unfolding strcmp_insensitive
strcmp_insensitive_same = refl

strcmp_insensitive_less : strcmp_insensitive 2 10 20 some_bytes ≡ some (2 ^ 32 - 1)
unfolding strcmp_insensitive
strcmp_insensitive_less = refl
