-- ===== src/Convert/Reverse.antt =====
-- A string turned round in its place.
use radix_os.Base.{
  arith, if◌then◌else◌, length, refl, some, suc, zero, ℕ, ◌%◌, ◌*◌, ◌+◌, ◌-◌, ◌/◌, ◌<◌, ◌==◌, ◌^◌,
  ◌||◌, ◌∙◌, ◌≡◌, ◌≤◌,
}
use radix_os.Memory.{Bytes, put_byte}
use radix_os.Memory.Set.{within}
use radix_os.Convert.{reverse_bytes, end_string}
use radix_os.Strings.Length.{strlen-at}

reverse_from :
    (n i length buffer : ℕ) (m : Bytes) (b : ℕ)
    → 2 * (i + n) ≤ length
    → reverse_bytes n i length buffer m b ≡ (
        if within (buffer + i) n b || within (buffer + length - i - n) n b
        then m (2 * buffer + length - 1 - b)
        else m b)
unfolding reverse_bytes put_byte
reverse_from zero i length buffer m b h = ground arith
reverse_from (suc n) i length buffer m b h =
    reverse_from n (i + 1) length buffer
      (put_byte (buffer + length - 1 - i) (m (buffer + i))
        (put_byte (buffer + i) (m (buffer + length - 1 - i)) m))
      b (omega arith)
    ∙ ground arith

pub reverse_bytes_lem :
    (length buffer : ℕ) (m : Bytes) (b : ℕ)
    → reverse_bytes (length / 2) 0 length buffer m b
      ≡ (if within buffer length b then m (2 * buffer + length - 1 - b) else m b)
reverse_bytes_lem length buffer m b =
    reverse_from (length / 2) 0 length buffer m b (omega arith) ∙ ground arith

-- `i` bytes that are not 0 are turned round, and ended.
pub end_string_lem :
    (fuel i buffer : ℕ) (m : Bytes)
    → ((j : ℕ) → j < i → 0 < m (buffer + j))
    → i < fuel
    → i < 2 ^ 16
    → (u : Bytes) × (end_string fuel i buffer m ≡ some (i, u))
      × ((b : ℕ)
          → u b ≡ (
              if within buffer i b
              then m (2 * buffer + i - 1 - b)
              else if b == buffer + i
              then 0
              else m b))
unfolding end_string put_byte
end_string_lem fuel i buffer m pos d small =
    let t = put_byte (buffer + i) 0 m in
    let still : (j : ℕ) → j < i → 0 < t (buffer + j) = λ j e. ground (arith, pos j e) in
    let ended : t (buffer + i) ≡ 0 = ground arith in
    let fits : i % 2 ^ 16 ≡ i = omega arith in
    (
      reverse_bytes (i / 2) 0 i buffer t,
      rw (strlen-at i fuel buffer t still ended d, fits) refl,
      λ b. reverse_bytes_lem i buffer t b ∙ ground arith,
    )
