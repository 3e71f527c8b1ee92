-- ===== src/Convert/Digits.antt =====
-- The digits of a number, from the lowest on, and the number that they make.
use native.Mathlib.Nat.{
  pow-zero, div-add-mod', mul-le-mul_right, mul-div-le, pow-suc, add-mul, mul_assoc, add_assoc,
}
use radix_os.Base.{ap, arith, suc, sym, zero, ℕ, ◌%◌, ◌*◌, ◌+◌, ◌/◌, ◌^◌, ◌∙◌, ◌≡◌, ◌≤◌}

-- what is left of `val` without its lowest `j` digits, and the digit `j`
abbrev pub rest : ℕ → ℕ → ℕ → ℕ
rest base zero val = val
rest base (suc j) val = rest base j (val / base)

abbrev pub digit : ℕ → ℕ → ℕ → ℕ
digit base j val = rest base j val % base

-- the number that the lowest `n` digits make
abbrev pub low : ℕ → ℕ → ℕ → ℕ
low base zero val = 0
low base (suc n) val = low base n (val / base) * base + val % base

-- In a base from 2 on, a division by the base halves at least.
pub half_le : (base val : ℕ) → 2 ≤ base → val / base ≤ val / 2
half_le base val h =
    let twice = mul-le-mul_right (val / base) h in
    let below = mul-div-le val base in omega (arith, twice, below)

pub low-high :
    (base n val : ℕ) → low base (suc n) val ≡ digit base n val * base ^ n + low base n val
low-high base zero val =
    let one : digit base 0 val * base ^ 0 ≡ digit base 0 val =
      ap (λ t. digit base 0 val * t) (pow-zero base) ∙ omega arith in
    omega (arith, one)
low-high base (suc n) val =
    let d = digit base n (val / base) in
    let l = low base n (val / base) in
    let split : (d * base ^ n + l) * base ≡ d * base ^ n * base + l * base =
      add-mul (d * base ^ n) l base in
    let power : d * base ^ suc n ≡ d * base ^ n * base =
      ap (λ t. d * t) (pow-suc base n) ∙ sym (mul_assoc d (base ^ n) base) in
    ap (λ t. t * base + val % base) (low-high base n (val / base))
    ∙ ap (λ t. t + val % base) split
    ∙ ap (λ t. t + l * base + val % base) (sym power)
    ∙ add_assoc (d * base ^ suc n) (l * base) (val % base)

pub low-all : (base n val : ℕ) → rest base n val ≡ 0 → low base n val ≡ val
low-all base zero val h = sym h
low-all base (suc n) val h =
    ap (λ t. t * base + val % base) (low-all base n (val / base) h) ∙ div-add-mod' val base
