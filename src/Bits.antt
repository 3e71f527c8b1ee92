-- ===== src/Bits.antt =====
-- The bits of a number, and what `&`, `|` and `<<` do to them.
pub mod Fields
use Prim.Native.Nat.{digits, bitwise, bit_and-bitwise, bit_or-bitwise, bit_and, bit_or}
use native.Mathlib.Nat.{pow-suc}
use radix_os.Base.{
  ap, arith, if◌then◌else◌, max, min, refl, suc, sym, zero, ℕ, ◌%◌, ◌*◌, ◌+◌, ◌-◌, ◌/◌, ◌<◌, ◌==◌,
  ◌^◌, ◌∙◌, ◌≡◌, ◌≤◌,
}

-- bit `j` of `w`
unfoldable pub bit : ℕ → ℕ → ℕ
bit w zero = w % 2
bit w (suc j) = bit (w / 2) j

-- How much fuel the recursion on digits gets makes no difference, if it is enough.
module _ (rest : ℕ → ℕ) (op : ℕ → ℕ → ℕ) where
  any_fuel : (k m a b : ℕ) → a ≤ k → a ≤ m → digits rest op k a b ≡ digits rest op m a b
  any_fuel k m zero b p q = (of_zero k) ∙ sym (of_zero m)
    where
      of_zero : (i : ℕ) → digits rest op i zero b ≡ rest b
      of_zero zero = refl
      of_zero (suc i) = refl
  any_fuel zero m (suc a) b p q = absurd (omega arith)
  any_fuel (suc k) zero (suc a) b p q = absurd (omega arith)
  any_fuel (suc k) (suc m) (suc a) b p q =
      ap (λ d. d * 2 + op (suc a % 2) (b % 2))
        (any_fuel k m (suc a / 2) (b / 2) (omega arith) (omega arith))

  lowest_digit :
      (a b : ℕ)
      → bitwise rest op (suc a) b ≡ bitwise rest op (suc a / 2) (b / 2) * 2 + op (suc a % 2) (b % 2)
  lowest_digit a b =
      ap (λ d. d * 2 + op (suc a % 2) (b % 2))
        (any_fuel a (suc a / 2) (suc a / 2) (b / 2) (omega arith) (omega arith))

pub or_digit : (a b : ℕ) → bit_or a b ≡ bit_or (a / 2) (b / 2) * 2 + max (a % 2) (b % 2)
or_digit zero b = simp bit_or-bitwise (omega arith)
or_digit (suc a) b = simp bit_or-bitwise (lowest_digit (λ y. y) max a b)

pub and_digit : (a b : ℕ) → bit_and a b ≡ bit_and (a / 2) (b / 2) * 2 + min (a % 2) (b % 2)
and_digit zero b = simp bit_and-bitwise (omega arith)
and_digit (suc a) b = simp bit_and-bitwise (lowest_digit (λ y. 0) min a b)

pub bit-bit_or : (a b j : ℕ) → bit (bit_or a b) j ≡ max (bit a j) (bit b j)
unfolding bit
bit-bit_or a b zero = omega (arith, or_digit a b)
bit-bit_or a b (suc j) =
    let half : bit_or a b / 2 ≡ bit_or (a / 2) (b / 2) = omega (arith, or_digit a b) in
    rw half (bit-bit_or (a / 2) (b / 2) j)

pub bit-bit_and : (a b j : ℕ) → bit (bit_and a b) j ≡ min (bit a j) (bit b j)
unfolding bit
bit-bit_and a b zero = omega (arith, and_digit a b)
bit-bit_and a b (suc j) =
    let half : bit_and a b / 2 ≡ bit_and (a / 2) (b / 2) = omega (arith, and_digit a b) in
    rw half (bit-bit_and (a / 2) (b / 2) j)

pub bit-lt : (w j : ℕ) → bit w j < 2
unfolding bit
bit-lt w zero = omega arith
bit-lt w (suc j) = bit-lt (w / 2) j

bit-zero : (j : ℕ) → bit 0 j ≡ 0
unfolding bit
bit-zero zero = refl
bit-zero (suc j) = bit-zero j

pub pow_double : (k : ℕ) → 2 ^ suc k ≡ 2 ^ k + 2 ^ k
pow_double k = omega (arith, pow-suc 2 k)

pub pow_pos : (k : ℕ) → 0 < 2 ^ k
pow_pos zero = omega arith
pow_pos (suc k) = omega (arith, pow_pos k, pow_double k)

pub pow_lt : (k m : ℕ) → k < m → 2 ^ k < 2 ^ m
pow_lt k zero h = absurd (omega arith)
pow_lt zero (suc m) h = omega (arith, pow_pos m, pow_double m)
pow_lt (suc k) (suc m) h = omega (arith, pow_lt k m (omega arith), pow_double k, pow_double m)

-- `1 << k` has the one bit `k`.
pub bit-pow : (k j : ℕ) → bit (2 ^ k) j ≡ (if k == j then 1 else 0)
unfolding bit
bit-pow zero zero = refl
bit-pow zero (suc j) = ground (arith, bit-zero j)
bit-pow (suc k) zero = ground (arith, pow_double k)
bit-pow (suc k) (suc j) =
    let half : 2 ^ suc k / 2 ≡ 2 ^ k = omega (arith, pow_double k) in
    rw half (ground (arith, bit-pow k j))

-- all bits below `m`
pub bit-ones : (m j : ℕ) → j < m → bit (2 ^ m - 1) j ≡ 1
unfolding bit
bit-ones zero j p = absurd (omega arith)
bit-ones (suc m) zero p = omega (arith, pow_double m, pow_pos m)
bit-ones (suc m) (suc j) p =
    let half : (2 ^ suc m - 1) / 2 ≡ 2 ^ m - 1 = omega (arith, pow_double m, pow_pos m) in
    rw half (bit-ones m j (omega arith))

-- `~(1 << k)` in `m` bits has all but that one.
pub bit-complement :
    (m k j : ℕ) → k < m → j < m → bit (2 ^ m - 1 - 2 ^ k) j ≡ (if k == j then 0 else 1)
unfolding bit
bit-complement zero k j p q = absurd (omega arith)
bit-complement (suc m) zero zero p q = omega (arith, pow_double m, pow_pos m)
bit-complement (suc m) zero (suc j) p q =
    let half : (2 ^ suc m - 1 - 1) / 2 ≡ 2 ^ m - 1 = omega (arith, pow_double m, pow_pos m) in
    rw half (ground (arith, bit-ones m j (omega arith)))
bit-complement (suc m) (suc k) zero p q =
    ground (arith, pow_double m, pow_double k, pow_lt k m (omega arith))
bit-complement (suc m) (suc k) (suc j) p q =
    let half : (2 ^ suc m - 1 - 2 ^ suc k) / 2 ≡ 2 ^ m - 1 - 2 ^ k =
      omega (arith, pow_double m, pow_double k, pow_lt k m (omega arith)) in
    rw half (ground (arith, bit-complement m k j (omega arith) (omega arith)))

pub bit_and-zero : (k a : ℕ) → a ≤ k → bit_and a 0 ≡ 0
bit_and-zero k zero h = refl
bit_and-zero zero (suc a) h = absurd (omega arith)
bit_and-zero (suc k) (suc a) h =
    omega (arith, and_digit (suc a) 0, bit_and-zero k (suc a / 2) (omega arith))

-- `w & (1 << k)` is zero just where bit `k` is.
pub bit_and-pow : (w k : ℕ) → bit_and w (2 ^ k) ≡ bit w k * 2 ^ k
unfolding bit
bit_and-pow w zero = omega (arith, and_digit w 1, bit_and-zero (w / 2) (w / 2) (omega arith))
bit_and-pow w (suc k) =
    let half : 2 ^ suc k / 2 ≡ 2 ^ k = omega (arith, pow_double k) in
    let even : 2 ^ suc k % 2 ≡ 0 = omega (arith, pow_double k) in
    let digit : bit_and w (2 ^ suc k) ≡ bit_and (w / 2) (2 ^ k) * 2 =
      omega (arith, and_digit w (2 ^ suc k), even, ap (bit_and (w / 2)) half) in
    rw digit (omega (arith, bit_and-pow (w / 2) k, ap (λ t. bit (w / 2) k * t) (pow_double k)))

-- A word of which all bits are set is the word of ones.
pub eq_ones : (m w : ℕ) → w < 2 ^ m → ((j : ℕ) → j < m → bit w j ≡ 1) → w ≡ 2 ^ m - 1
unfolding bit
eq_ones zero w p h = omega arith
eq_ones (suc m) w p h = omega (
  arith,
  pow_double m,
  pow_pos m,
  h 0 (omega arith),
  eq_ones m (w / 2) (omega (arith, pow_double m)) (λ j q. h (suc j) (omega arith)),
)

-- `|` of two `m`-bit words is one, and `&` is no more than its first operand.
pub bit_or-lt : (m a b : ℕ) → a < 2 ^ m → b < 2 ^ m → bit_or a b < 2 ^ m
bit_or-lt zero a b p q =
    let e : a ≡ 0 = omega arith in let e' : b ≡ 0 = omega arith in rw (e, e') (omega arith)
bit_or-lt (suc m) a b p q = omega (
  arith,
  or_digit a b,
  pow_double m,
  bit_or-lt m (a / 2) (b / 2) (omega (arith, pow_double m)) (omega (arith, pow_double m)),
)

pub bit_and-lt : (m a b : ℕ) → a < 2 ^ m → bit_and a b < 2 ^ m
bit_and-lt zero a b p =
    let e : a ≡ 0 = omega arith in rw e (omega (arith, and_digit 0 b, zero_bit_and (b / 2)))
  where
    zero_bit_and : (b : ℕ) → bit_and 0 b ≡ 0
    zero_bit_and b = bit_and-bitwise 0 b
bit_and-lt (suc m) a b p =
    omega (
      arith,
      and_digit a b,
      pow_double m,
      bit_and-lt m (a / 2) (b / 2) (omega (arith, pow_double m)),
    )

-- Ones put below a number
pub bit-low_ones : (m q j : ℕ) → j < m → bit (q * 2 ^ m + (2 ^ m - 1)) j ≡ 1
unfolding bit
bit-low_ones zero q j p = absurd (omega arith)
bit-low_ones (suc m) q zero p =
    let e : q * 2 ^ suc m ≡ 2 * (q * 2 ^ m) = ap (λ t. q * t) (pow_double m) ∙ omega arith in
    omega (arith, e, pow_double m, pow_pos m)
bit-low_ones (suc m) q (suc j) p =
    let e : q * 2 ^ suc m ≡ 2 * (q * 2 ^ m) = ap (λ t. q * t) (pow_double m) ∙ omega arith in
    let half : (q * 2 ^ suc m + (2 ^ suc m - 1)) / 2 ≡ q * 2 ^ m + (2 ^ m - 1) =
      omega (arith, e, pow_double m, pow_pos m) in
    rw half (bit-low_ones m q j (omega arith))
