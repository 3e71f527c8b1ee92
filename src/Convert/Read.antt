-- ===== src/Convert/Read.antt =====
-- `atoui` of what `uitoa` writes.
use native.Mathlib.Decide.{dec_lt}
use radix_os.Strings.{tolower, strlen}
use native.Mathlib.Nat.{
  pow-zero, one-le-pow, pow-suc, mul_assoc, mul_comm, le-mul_of_pos_right, div-mul-le_self,
  mul-le-mul_right,
}
use radix_os.Base.{
  Bool, ap, arith, false, refl, some, suc, sym, true, zero, ℕ, ◌%◌, ◌&&◌, ◌*◌, ◌+◌, ◌-◌, ◌/◌, ◌<◌,
  ◌==◌, ◌^◌, ◌∙◌, ◌≡◌, ◌≤◌,
}
use radix_os.Memory.{Bytes}
use radix_os.Strings.Length.{strlen-at}
use radix_os.Convert.{pow_loop, pow, dec_value, read_digits, atoui_dec, atoui, uitoa, hexes}
use radix_os.Convert.Digits.{rest, digit, low, low-high, low-all}
use radix_os.Convert.Write.{IsSize, IsNumeral, uitoa_lem}

pow_loop-value :
    (n base res : ℕ) → 0 < base → res * base ^ n < 2 ^ 32 → pow_loop n base res ≡ res * base ^ n
unfolding pow_loop
pow_loop-value zero base res pos h = sym (ap (λ t. res * t) (pow-zero base) ∙ omega arith)
pow_loop-value (suc n) base res pos h =
    let q = res * base in
    let same : res * base ^ suc n ≡ q * base ^ n =
      ap (λ t. res * t) (pow-suc base n ∙ mul_comm (base ^ n) base)
      ∙ sym (mul_assoc res base (base ^ n)) in
    let bound : q ≤ q * base ^ n = le-mul_of_pos_right q (one-le-pow n base pos) in
    let fits : q % 2 ^ 32 ≡ q = omega (arith, same, bound) in
    rw fits (pow_loop-value n base q pos (omega (arith, same)) ∙ sym same)

-- where a digit is left, the power is not above the number
power_le : (base j val : ℕ) → 0 < rest base j val → base ^ j ≤ val
power_le base zero val h = omega (arith, pow-zero base)
power_le base (suc j) val h =
    let q = val / base in
    let below = power_le base j q h in
    let up : base ^ j * base ≤ q * base = mul-le-mul_right base below in
    omega (arith, up, div-mul-le_self val base, pow-suc base j)

pow-value :
    (base k val : ℕ)
    → 0 < base
    → val < 2 ^ 32
    → (0 < k → 0 < rest base k val)
    → pow base k ≡ base ^ k
unfolding pow
pow-value base zero val pos small left = sym (pow-zero base)
pow-value base (suc k) val pos small left =
    let below = power_le base (suc k) val (left (omega arith)) in
    let one : 1 * base ^ suc k ≡ base ^ suc k = omega arith in
    pow_loop-value (suc k) base 1 pos (omega (arith, one)) ∙ one

read_digits-value :
    (value : ℕ → ℕ) (base n val input : ℕ) (m : Bytes)
    → 0 < base
    → val < 2 ^ 32
    → IsSize base val n
    → ((j : ℕ) → j < n → value (m (input + j)) ≡ digit base (n - 1 - j) val)
    → (k i res : ℕ) → i + k ≡ n
    → res + low base k val ≡ val
    → read_digits value base k i input n res m ≡ val
unfolding read_digits pow
read_digits-value value base n val input m pos small size at zero i res sum total =
    omega (arith, total)
read_digits-value value base n val input m pos small size at (suc k) i res sum total =
    let place : n - 1 - i ≡ k = omega arith in
    let d = digit base k val in
    let power = pow-value base k val pos small (λ p. size.more k p (omega arith)) in
    let split = low-high base k val in
    let fits : (res + d * base ^ k) % 2 ^ 32 ≡ res + d * base ^ k = omega (arith, split, total) in
    rw (at i (omega arith), place, power, fits)
      (read_digits-value value base n val input m pos small size at k (i + 1) (res + d * base ^ k)
        (omega arith) (omega (arith, split, total)))

dec_value-hexes : (d : ℕ) → d < 10 → dec_value (hexes d) ≡ d
dec_value-hexes d h = ground arith

and_false : (b : Bool) {c : Bool} → c ≡ false → (b && c) ≡ false
and_false true e = e
and_false false e = refl

-- the second byte is a digit or the end
second : (val n buffer : ℕ) (m u : Bytes) → IsNumeral 10 val n buffer m u → u (buffer + 1) < 58
second val n buffer m u v = elim (dec_lt 1 n) [
  | yes more ↦
      let at = v.digits 1 more in
      let small : digit 10 (n - 1 - 1) val < 10 = omega arith in ground (arith, at, small)
  | no one ↦
      let place : buffer + n ≡ buffer + 1 = omega (arith, v.size.pos) in
      let ended = ap u (sym place) ∙ v.ends in omega (arith, ended)
]

-- Of the string of the digits of a number in base 10, `atoui` makes the number.
atoui-numeral :
    (val n buffer : ℕ) (m u : Bytes)
    → val < 2 ^ 32
    → n ≤ 32
    → IsNumeral 10 val n buffer m u
    → atoui 33 buffer u ≡ some val
unfolding atoui atoui_dec
atoui-numeral val n buffer m u small bound v =
    let long : strlen 33 buffer u ≡ some n =
      strlen-at n 33 buffer u (λ j d. ground (arith, v.digits j d)) v.ends (omega arith) in
    let fits : n % 2 ^ 16 ≡ n = omega arith in
    let not_hex : (tolower (u (buffer + 1)) == 120) ≡ false =
      ground (arith, second val n buffer m u v) in
    let not_hex_string = and_false (u buffer == 48) not_hex in
    rw (long, fits, not_hex_string)
      (ap some (
        read_digits-value dec_value 10 n val buffer u (omega arith) small v.size
          (λ j d.
            ap dec_value (v.digits j d) ∙ dec_value-hexes (digit 10 (n - 1 - j) val) (omega arith))
          n 0 0 (omega arith) (omega (arith, low-all 10 n val v.size.all))))

-- For a number of 32 bits, on fuel for 33 rounds: of the string that `uitoa` writes in base 10,
-- `atoui` makes the number again.
pub atoui-uitoa :
    (val buffer : ℕ) (m : Bytes)
    → val < 2 ^ 32
    → (u : Bytes) × (uitoa 33 val buffer 10 m ≡ some u) × (atoui 33 buffer u ≡ some val)
atoui-uitoa val buffer m small =
    let (n, u, run, bound, v) = uitoa_lem val 10 buffer m small (omega arith) (omega arith) in
    (u, run, atoui-numeral val n buffer m u small bound v)
