-- ===== src/Convert/Write.antt =====
-- `uitoa`: the string that it leaves has the digits of the number.
use radix_os.Memory.Set.{within}
use native.Mathlib.Decide.{dec_le}
use radix_os.Base.{
  Bool-cases, ap, arith, false, if◌then◌else◌, inl, inr, refl, some, subst, suc, zero, ℕ, ◌%◌, ◌*◌,
  ◌+◌, ◌-◌, ◌/◌, ◌<◌, ◌==◌, ◌^◌, ◌∙◌, ◌≡◌, ◌≤◌, ◌⊎◌,
}
use radix_os.Bits.{pow_double}
use radix_os.Memory.{Bytes, put_byte}
use radix_os.Convert.{write_digits, hexes, uitoa}
use radix_os.Convert.Reverse.{end_string_lem}
use radix_os.Convert.Digits.{rest, digit, half_le}

-- The `n` digits of `val` that matter, or the one of 0.
pub record IsSize (base val n : ℕ) : Type 0 where
  pub pos : 0 < n
  pub all : rest base n val ≡ 0
  pub more : (j : ℕ) → 0 < j → j < n → 0 < rest base j val

-- They stand from `p` on, the lowest first.
pub record IsWritten (chars : ℕ → ℕ) (base val n p : ℕ) (m t : Bytes) : Type 0 where
  pub digits : (j : ℕ) → j < n → t (p + j) ≡ chars (digit base j val)
  pub others : (b : ℕ) → (b < p) ⊎ (p + n ≤ b) → t b ≡ m b

IsSize-more :
    (base val n : ℕ) → 0 < val / base → IsSize base (val / base) n → IsSize base val (suc n)
IsSize-more base val n left v = record {
  pos = omega arith;
  all = v.all;
  more = λ j p d. above j p d;
}
  where
    above : (j : ℕ) → 0 < j → j < suc n → 0 < rest base j val
    above zero p d = absurd (omega arith)
    above (suc zero) p d = left
    above (suc (suc j)) p d = v.more (suc j) (omega arith) (omega arith)

IsWritten-more :
    (chars : ℕ → ℕ) (base val n p : ℕ) (m t : Bytes)
    → IsWritten chars base (val / base) n (p + 1) (put_byte p (chars (val % base)) m) t
    → IsWritten chars base val (suc n) p m t
unfolding put_byte
IsWritten-more chars base val n p m t v = record {
  digits = λ j d. at j d;
  others = λ b o. v.others b (ground (arith, o)) ∙ ground (arith, o);
}
  where
    at : (j : ℕ) → j < suc n → t (p + j) ≡ chars (digit base j val)
    at zero d =
        let same : p + 0 ≡ p = omega arith in
        ap t same ∙ v.others p (inl (omega arith)) ∙ ground arith
    at (suc j) d =
        let same : p + suc j ≡ p + 1 + j = omega arith in ap t same ∙ v.digits j (omega arith)

-- how the loop comes back
abbrev Outcome : (ℕ → ℕ) → ℕ → ℕ → ℕ → ℕ → ℕ → Bytes → Type 0
Outcome chars fuel i val base buffer m =
    (n : ℕ) × (t : Bytes) × (write_digits chars fuel i val base buffer m ≡ some (i + n, t))
    × (n ≤ fuel)
    × IsSize base val n
    × IsWritten chars base val n (buffer + i) m t

one_round :
    (chars : ℕ → ℕ) (k i val base buffer : ℕ) (m : Bytes)
    → i + suc k < 2 ^ 16
    → val / base ≡ 0
    → (n : ℕ) × (t : Bytes) × (write_digits chars (suc k) i val base buffer m ≡ some (i + n, t))
      × (n ≤ suc k)
      × IsSize base val n
      × IsWritten chars base val n (buffer + i) m t
unfolding write_digits put_byte
one_round chars k i val base buffer m room last =
    let fits : (i + 1) % 2 ^ 16 ≡ i + 1 = omega arith in
    (
      1,
      put_byte (buffer + i) (chars (val % base)) m,
      rw (last, fits) refl,
      omega arith,
      record { pos = omega arith; all = last; more = λ j p d. absurd (omega arith) },
      record { digits = λ j d. digit_at j d; others = λ b o. ground (arith, o) },
    )
  where
    digit_at :
        (j : ℕ)
        → j < 1
        → put_byte (buffer + i) (chars (val % base)) m (buffer + i + j) ≡ chars (digit base j val)
    digit_at zero d = ground arith
    digit_at (suc j) d = absurd (omega arith)

more_rounds :
    (chars : ℕ → ℕ) (k i val base buffer : ℕ) (m : Bytes)
    → i + suc k < 2 ^ 16
    → (val / base == 0) ≡ false
    → Outcome chars k
        (i + 1)
        (val / base)
        base
        buffer
        (put_byte (buffer + i) (chars (val % base)) m)
    → Outcome chars (suc k) i val base buffer m
unfolding write_digits
more_rounds chars k i val base buffer m room more (n, u, got, bound, size, v) =
    let fits : (i + 1) % 2 ^ 16 ≡ i + 1 = omega arith in
    let place : i + 1 + n ≡ i + suc n = omega arith in
    let t = put_byte (buffer + i) (chars (val % base)) m in
    (
      suc n,
      u,
      rw (more, fits) (got ∙ ap (λ x. some (x, u)) place),
      omega arith,
      IsSize-more base val n (ground arith) size,
      IsWritten-more chars base val n (buffer + i) m u
          (subst (λ q. IsWritten chars base (val / base) n q t u) (omega arith) v),
    )

-- For a number below 2^(k + 1), the loop comes back on k + 1 rounds of fuel.
pub write_digits_lem :
    (chars : ℕ → ℕ) (k i val base buffer : ℕ) (m : Bytes)
    → 2 ≤ base
    → val < 2 ^ suc k
    → i + suc k < 2 ^ 16
    → (n : ℕ) × (t : Bytes) × (write_digits chars (suc k) i val base buffer m ≡ some (i + n, t))
      × (n ≤ suc k)
      × IsSize base val n
      × IsWritten chars base val n (buffer + i) m t
unfolding write_digits
write_digits_lem chars zero i val base buffer m two small room =
    one_round chars 0 i val base buffer m room (omega (arith, half_le base val two))
write_digits_lem chars (suc k) i val base buffer m two small room =
    elim (Bool-cases (val / base == 0)) [
      | inl last ↦ one_round chars (suc k) i val base buffer m room (ground arith)
      | inr more ↦ more_rounds chars (suc k) i val base buffer m room more (
          write_digits_lem chars k (i + 1) (val / base) base buffer
            (put_byte (buffer + i) (chars (val % base)) m) two
            (omega (arith, half_le base val two, pow_double (suc k))) (omega arith))
    ]

rest-zero : (base j val : ℕ) → 2 ≤ base → val < 2 ^ j → rest base j val ≡ 0
rest-zero base zero val two small = omega arith
rest-zero base (suc j) val two small =
    rest-zero base j (val / base) two (omega (arith, half_le base val two, pow_double j))

-- A number below 2^j has at most j digits.
pub size_le : (base val n j : ℕ) → IsSize base val n → 2 ≤ base → val < 2 ^ j → 0 < j → n ≤ j
size_le base val n j v two small pos = elim (dec_le n j) [
  | yes le ↦ le
  | no gt ↦
      let some_left : 0 < rest base j val = v.more j pos (omega arith) in
      let none_left = rest-zero base j val two small in absurd (omega (arith, some_left, none_left))
]

-- At `p` there is the string of the digits of `val`, the highest first.
pub record IsNumeral (base val n p : ℕ) (m u : Bytes) : Type 0 where
  pub size : IsSize base val n
  pub digits : (j : ℕ) → j < n → u (p + j) ≡ hexes (digit base (n - 1 - j) val)
  pub ends : u (p + n) ≡ 0
  pub others : (b : ℕ) → (b < p) ⊎ (p + n < b) → u b ≡ m b

-- the string turned round
numeral :
    (base val n p : ℕ) (m t u : Bytes)
    → IsSize base val n
    → IsWritten hexes base val n p m t
    → ((b : ℕ)
        → u b ≡ (if within p n b then t (2 * p + n - 1 - b) else if b == p + n then 0 else t b))
    → IsNumeral base val n p m (put_byte (p + n) 0 u)
unfolding put_byte
numeral base val n p m t u size v value = record {
  size = size;
  digits = λ j d.
      let place : 2 * p + n - 1 - (p + j) ≡ p + (n - 1 - j) = omega arith in
      let at = value (p + j) in
      let read = ap t place ∙ v.digits (n - 1 - j) (omega arith) in ground (arith, at, read);
  ends = ground arith;
  others = λ b o. ground (arith, value b, v.others b (ground (arith, o)), o);
}

turned :
    (base val n buffer : ℕ) (m t : Bytes)
    → (base == 0) ≡ false
    → write_digits hexes 33 0 val base buffer m ≡ some (0 + n, t)
    → n ≤ 32
    → IsSize base val n
    → IsWritten hexes base val n buffer m t
    → (u : Bytes) × (uitoa 33 val buffer base m ≡ some u) × IsNumeral base val n buffer m u
unfolding uitoa
turned base val n buffer m t some_base wrote bound size v =
    let (u, ended, value) =
      end_string_lem 33 n buffer t (λ j d. ground (arith, v.digits j d)) (omega arith)
        (omega arith) in
    let run : write_digits hexes 33 0 val base buffer m ≡ some (n, t) =
      wrote ∙ ap (λ x. some (x, t)) (omega arith) in
    (
      put_byte (buffer + n) 0 u,
      rw (some_base, run, ended) refl,
      numeral base val n buffer m t u size v value,
    )

-- For a number of 32 bits and a base from 2 to 16, `uitoa` comes back, on fuel for 33 rounds. At
-- the buffer is then the string of the digits that matter, at most 32, the highest first; the last
-- quotient by the base is 0 and no earlier one is. No other byte has changed.
pub uitoa_lem :
    (val base buffer : ℕ) (m : Bytes)
    → val < 2 ^ 32
    → 2 ≤ base
    → base ≤ 16
    → (n : ℕ) × (u : Bytes) × (uitoa 33 val buffer base m ≡ some u)
      × (n ≤ 32)
      × IsNumeral base val n buffer m u
uitoa_lem val base buffer m small two most =
    let some_base : (base == 0) ≡ false = ground arith in
    let (n, t, wrote, _, size, w) =
      write_digits_lem hexes 32 0 val base buffer m two (omega arith) (omega arith) in
    let bound = size_le base val n 32 size two small (omega arith) in
    let v = subst (λ q. IsWritten hexes base val n q m t) (omega arith) w in
    let (u, run, numeral_there) = turned base val n buffer m t some_base wrote bound size v in
    (n, u, run, bound, numeral_there)
