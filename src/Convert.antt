-- ===== src/Convert.antt =====
-- kernel/libk/utility.c: numbers as strings. A loop runs on fuel, and is `none` where the fuel is not
-- enough or the code divides by 0. The digits are written from the lowest on, and then turned round.
pub mod Digits
pub mod Reverse
pub mod Write
pub mod Read
pub mod Tests
use radix_os.Base.{
  ==_iff, All, All-append, All-get_or, All-imp, All-middle, All-set, Any, Any-left, Any-right, Bool,
  Bool-cases, List, Option, Option-cases, Ordering, [], ap, append-nil, append_assoc, ap₂, arith,
  compare, compare-cases, drop, false, get_elem?, get_elem?-set_ne, get_elem?-set_self, get_or,
  get_or-set, if◌then◌else◌, inl, inr, leb, length, length-append, length-drop, length-map,
  length-replicate, length-set, length-take, le→ltb, ltb, ltb→le, ltb→lt, lt→ltb, map, max, min,
  none, not, refl, replicate, set, some, subst, suc, sym, take, take-append-drop, true, zero, ℕ,
  ◌%◌, ◌&&◌, ◌*◌, ◌++◌, ◌+◌, ◌-◌, ◌/◌, ◌<◌, ◌==◌, ◌>>=◌, ◌^◌, ◌||◌, ◌↔◌, ◌∙◌, ◌∷◌, ◌≡◌, ◌≢◌, ◌≤◌,
  ◌⊎◌,
}
use radix_os.Memory.{Bytes, put_byte}
use radix_os.Strings.{char_value, isupper, islower, tolower, strlen}

-- the arrays of digits, of which the code reads the places below the base
abbrev pub hexes : ℕ → ℕ
hexes d = if ltb d 10 then 48 + d else 55 + d

abbrev pub alphabet : ℕ → ℕ
alphabet d = 97 + d

-- the digits in an array of characters, and the place after them
pub write_digits : (ℕ → ℕ) → ℕ → ℕ → ℕ → ℕ → ℕ → Bytes → Option (ℕ × Bytes)
write_digits chars zero i val base buffer m = none
write_digits chars (suc n) i val base buffer m =
    let t = put_byte (buffer + i) (chars (val % base)) m in
    let j = (i + 1) % 2 ^ 16 in
    let rest = write_digits chars n j (val / base) base buffer t in
    if val / base == 0 then some (j, t) else rest

pub reverse_bytes : ℕ → ℕ → ℕ → ℕ → Bytes → Bytes
reverse_bytes zero i length buffer m = m
reverse_bytes (suc n) i length buffer m =
    let temp = m (buffer + i) in
    let t = put_byte (buffer + i) (m (buffer + length - 1 - i)) m in
    reverse_bytes n (i + 1) length buffer (put_byte (buffer + length - 1 - i) temp t)

-- the ends of the three functions: `buffer[i] = 0`, and the string turned round
pub end_string : ℕ → ℕ → ℕ → Bytes → Option (ℕ × Bytes)
unfolding reverse_bytes
end_string fuel i buffer m =
    let t = put_byte (buffer + i) 0 m in
    strlen fuel buffer t >>= λ len.
    let length = len % 2 ^ 16 in some (length, reverse_bytes (length / 2) 0 length buffer t)

pub uitoa : ℕ → ℕ → ℕ → ℕ → Bytes → Option Bytes
unfolding write_digits end_string
uitoa fuel val buffer base m =
    if base == 0
    then none
    else (write_digits hexes fuel 0 val base buffer m >>= λ (i, t).
        end_string fuel i buffer t >>= λ (length, u). some (put_byte (buffer + length) 0 u))

pub uitoalpha : ℕ → ℕ → ℕ → Bytes → Option Bytes
unfolding write_digits end_string
uitoalpha fuel val buffer m = write_digits alphabet fuel 0 val 26 buffer m >>= λ (i, t).
    end_string fuel i buffer t >>= λ (length, u). some u

-- A negative number is above 2^31; the code cannot change the sign of 2^31 itself.
pub itoa : ℕ → ℕ → ℕ → ℕ → Bytes → Option Bytes
unfolding write_digits end_string
itoa fuel val buffer base m =
    if leb base 1 || leb 17 base
    then some m
    else (if val == 2 ^ 31
        then none
        else (let negative = leb (2 ^ 31) val in
            let size = if negative then 2 ^ 32 - val else val in
            write_digits hexes fuel 0 size base buffer m >>= λ (i, t).
            let j = if base == 16 then i + 2 else i in
            let u =
              if base == 16
              then put_byte (buffer + i + 1) 48 (put_byte (buffer + i) 120 t)
              else t in
            let k = if negative then j + 1 else j in
            let x = if negative then put_byte (buffer + j) 45 u else u in
            end_string fuel k buffer x >>= λ (length, y). some (put_byte (buffer + length) 0 y)))

pub pow_loop : ℕ → ℕ → ℕ → ℕ
pow_loop zero base res = res
pow_loop (suc n) base res = pow_loop n base (res * base % 2 ^ 32)

pub pow : ℕ → ℕ → ℕ
unfolding pow_loop
pow base exp = pow_loop exp base 1

-- what a character stands for
abbrev pub dec_value : ℕ → ℕ
dec_value c = (char_value c + 2 ^ 32 - 48) % 2 ^ 32

abbrev pub hex_value : ℕ → ℕ
hex_value c = if isupper c || islower c then 10 + tolower c - 97 else dec_value c

-- the loops of the two functions, with the rounds left
pub read_digits : (ℕ → ℕ) → ℕ → ℕ → ℕ → ℕ → ℕ → ℕ → Bytes → ℕ
unfolding pow
read_digits value base zero i input length res m = res
read_digits value base (suc n) i input length res m =
    read_digits value base n (i + 1) input length
      ((res + value (m (input + i)) * pow base (length - 1 - i)) % 2 ^ 32) m

pub atoui_hex : ℕ → ℕ → Bytes → ℕ
unfolding read_digits
atoui_hex input length m = read_digits hex_value 16 length 0 input length 0 m

pub atoui_dec : ℕ → ℕ → Bytes → ℕ
unfolding read_digits
atoui_dec input length m = read_digits dec_value 10 length 0 input length 0 m

pub atoui : ℕ → ℕ → Bytes → Option ℕ
unfolding atoui_hex atoui_dec
atoui fuel input m = strlen fuel input m >>= λ len. some (
    if (m input == 48) && (tolower (m (input + 1)) == 120)
    then atoui_hex (input + 2) ((len - 2) % 2 ^ 16) m
    else atoui_dec input (len % 2 ^ 16) m)
