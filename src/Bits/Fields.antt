-- ===== src/Bits/Fields.antt =====
-- Fields of bits: masks of ones, moved up, and a field put above another.
use Prim.Native.Nat.{bit_and, bit_or, bit_or-bitwise}
use radix_os.Base.{
  ap, arith, max, refl, suc, zero, ℕ, ◌%◌, ◌*◌, ◌+◌, ◌-◌, ◌/◌, ◌<◌, ◌^◌, ◌∙◌, ◌≡◌, ◌≤◌,
}
use radix_os.Bits.{bit_and-zero, and_digit, or_digit, pow_double, pow_pos}

-- `a >> k`
abbrev pub shifted : ℕ → ℕ → ℕ
shifted zero a = a
shifted (suc k) a = shifted k (a / 2)

-- the lowest `k` bits of `a`
abbrev pub lowest : ℕ → ℕ → ℕ
lowest zero a = 0
lowest (suc k) a = lowest k (a / 2) * 2 + a % 2

-- A mask with `k` zeros below.
pub bit_and-shifted : (k a m : ℕ) → bit_and a (m * 2 ^ k) ≡ bit_and (shifted k a) m * 2 ^ k
bit_and-shifted zero a m = let e : m * 1 ≡ m = omega arith in rw e (omega arith)
bit_and-shifted (suc k) a m =
    let e : m * 2 ^ suc k ≡ 2 * (m * 2 ^ k) = ap (λ t. m * t) (pow_double k) ∙ omega arith in
    let half : m * 2 ^ suc k / 2 ≡ m * 2 ^ k = omega (arith, e) in
    let even : m * 2 ^ suc k % 2 ≡ 0 = omega (arith, e) in
    let r = bit_and (shifted k (a / 2)) m in
    let e' : r * 2 ^ suc k ≡ 2 * (r * 2 ^ k) = ap (λ t. r * t) (pow_double k) ∙ omega arith in
    omega (
      arith,
      and_digit a (m * 2 ^ suc k),
      ap (bit_and (a / 2)) half,
      even,
      bit_and-shifted k (a / 2) m,
      e',
    )

-- A mask of `k` ones.
pub bit_and-lowest : (k a : ℕ) → bit_and a (2 ^ k - 1) ≡ lowest k a
bit_and-lowest zero a = bit_and-zero a a (omega arith)
bit_and-lowest (suc k) a =
    let half : (2 ^ suc k - 1) / 2 ≡ 2 ^ k - 1 = omega (arith, pow_double k, pow_pos k) in
    omega (
      arith,
      and_digit a (2 ^ suc k - 1),
      ap (bit_and (a / 2)) half,
      pow_double k,
      pow_pos k,
      bit_and-lowest k (a / 2),
    )

-- A field put above one of `k` bits.
pub bit_or-above : (k x y : ℕ) → x < 2 ^ k → bit_or x (y * 2 ^ k) ≡ x + y * 2 ^ k
bit_or-above zero x y h =
    let z : x ≡ 0 = omega arith in
    let e : y * 1 ≡ y = omega arith in rw (z, e) (bit_or-bitwise 0 y ∙ omega arith)
bit_or-above (suc k) x y h =
    let e : y * 2 ^ suc k ≡ 2 * (y * 2 ^ k) = ap (λ t. y * t) (pow_double k) ∙ omega arith in
    let half : y * 2 ^ suc k / 2 ≡ y * 2 ^ k = omega (arith, e) in
    omega (
      arith,
      or_digit x (y * 2 ^ suc k),
      ap (bit_or (x / 2)) half,
      e,
      bit_or-above k (x / 2) y (omega (arith, pow_double k)),
    )

bit_or-zero : (k a : ℕ) → a ≤ k → bit_or a 0 ≡ a
bit_or-zero k zero h = omega (arith, or_digit 0 0)
bit_or-zero zero (suc a) h = absurd (omega arith)
bit_or-zero (suc k) (suc a) h =
    omega (arith, or_digit (suc a) 0, bit_or-zero k (suc a / 2) (omega arith))

-- `|` of two numbers above their lowest `k` bits.
pub shifted-bit_or : (k a b : ℕ) → shifted k (bit_or a b) ≡ bit_or (shifted k a) (shifted k b)
shifted-bit_or zero a b = refl
shifted-bit_or (suc k) a b =
    let half : bit_or a b / 2 ≡ bit_or (a / 2) (b / 2) = omega (arith, or_digit a b) in
    ap (shifted k) half ∙ shifted-bit_or k (a / 2) (b / 2)

-- The flags of an entry leave the frame as it is, and the lowest bits are put together.
pub bit_or-flags :
    (a b : ℕ) → b < 4096 → (bit_or a b / 4096 ≡ a / 4096) × (bit_or a b % 2 ≡ max (a % 2) (b % 2))
bit_or-flags a b h =
    let none_above : shifted 12 b ≡ 0 = omega arith in
    let above : shifted 12 (bit_or a b) ≡ shifted 12 a =
      shifted-bit_or 12 a b
      ∙ ap (bit_or (shifted 12 a)) none_above
      ∙ bit_or-zero (shifted 12 a) (shifted 12 a) (omega arith) in
    (omega (arith, above), omega (arith, or_digit a b))
