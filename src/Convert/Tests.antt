-- ===== src/Convert/Tests.antt =====
-- The theorems on numbers as strings, and the functions at work, on a memory of zeros.
use radix_os.Strings.{strlen_from, strlen}
use radix_os.Base.{List, Option, [], arith, none, refl, some, suc, zero, ℕ, ◌+◌, ◌∷◌, ◌≡◌, ◌≤◌}
use radix_os.Memory.{Bytes, put_byte}
use radix_os.Convert.{reverse_bytes, end_string, write_digits, uitoa, uitoalpha, itoa, atoui}
use radix_os.Convert.Write.{IsNumeral, uitoa_lem}
use radix_os.Convert.Read.{atoui-uitoa}

abbrev zeros : Bytes
zeros = λ a. 0

uitoa_lem_example :
    (n : ℕ) × (u : Bytes) × (uitoa 33 0xbeef 10 16 zeros ≡ some u)
    × (n ≤ 32)
    × IsNumeral 16 0xbeef n 10 zeros u
uitoa_lem_example = uitoa_lem 0xbeef 16 10 zeros (omega arith) (omega arith) (omega arith)

atoui-uitoa_example :
    (u : Bytes) × (uitoa 33 4_294_967_295 10 10 zeros ≡ some u)
    × (atoui 33 10 u ≡ some 4_294_967_295)
atoui-uitoa_example = atoui-uitoa 4_294_967_295 10 zeros (omega arith)

-- the first `n` bytes
abbrev bytes_at : ℕ → ℕ → Option Bytes → List ℕ
bytes_at a zero o = []
bytes_at a (suc n) o = elim o [ none ↦ 0 | some m ↦ m a ] ∷ bytes_at (a + 1) n o

-- "-0xff", and "z" of 25
itoa_negative : bytes_at 10 6 (itoa 33 0xffff_ff01 10 16 zeros) ≡ 45 ∷ 48 ∷ 120 ∷ 70 ∷ 70 ∷ 0 ∷ []
unfolding itoa write_digits end_string reverse_bytes put_byte strlen strlen_from
itoa_negative = refl

uitoalpha_letter : bytes_at 10 2 (uitoalpha 33 25 10 zeros) ≡ 122 ∷ 0 ∷ []
unfolding uitoalpha write_digits end_string reverse_bytes put_byte strlen strlen_from
uitoalpha_letter = refl
