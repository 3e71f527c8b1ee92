-- ===== src/Memory/Copy.antt =====
-- `memcpy` against its description.
use radix_os.Base.{
  arith, if◌then◌else◌, inl, inr, length, suc, zero, ℕ, ◌%◌, ◌*◌, ◌+◌, ◌-◌, ◌/◌, ◌<◌, ◌^◌, ◌∙◌, ◌≡◌,
  ◌≤◌, ◌⊎◌,
}
use radix_os.Memory.{Bytes, put_byte, put_word, get_word, copy_bytes, copy_words, memcpy}
use radix_os.Memory.Set.{within}

copy_bytes-value :
    (n d s : ℕ) (m : Bytes) (b : ℕ)
    → (d ≤ s) ⊎ (s + n ≤ d)
    → copy_bytes n d s m b ≡ (if within d n b then m (b - d + s) else m b)
unfolding copy_bytes put_byte
copy_bytes-value zero d s m b h = ground arith
copy_bytes-value (suc n) d s m b (inl h) =
    copy_bytes-value n (d + 1) (s + 1) (put_byte d (m s) m) b (inl (omega arith)) ∙ ground arith
copy_bytes-value (suc n) d s m b (inr h) =
    copy_bytes-value n (d + 1) (s + 1) (put_byte d (m s) m) b (inr (omega arith)) ∙ ground arith

-- the bytes of a word that was read
word_bytes :
    (a : ℕ) (m : Bytes)
    → ((b : ℕ) → m b < 256)
    → (get_word a m % 256 ≡ m a)
      × (get_word a m / 2 ^ 8 % 256 ≡ m (a + 1))
      × (get_word a m / 2 ^ 16 % 256 ≡ m (a + 2))
      × (get_word a m / 2 ^ 24 % 256 ≡ m (a + 3))
unfolding get_word
word_bytes a m h =
    let d0 = h a in
    let d1 = h (a + 1) in
    let d2 = h (a + 2) in let d3 = h (a + 3) in (omega arith, omega arith, omega arith, omega arith)

copied_word :
    (d s : ℕ) (m : Bytes) (b : ℕ)
    → ((b : ℕ) → m b < 256)
    → put_word d (get_word s m) m b ≡ (if within d 4 b then m (b - d + s) else m b)
unfolding put_word put_byte
copied_word d s m b h =
    let (e0, e1, e2, e3) = word_bytes s m h in rw (e0, e1, e2, e3) (ground arith)

copied_word-lt :
    (d s : ℕ) (m : Bytes) (b : ℕ) → ((b : ℕ) → m b < 256) → put_word d (get_word s m) m b < 256
copied_word-lt d s m b h = rw (copied_word d s m b h) (ground (arith, h b, h (b - d + s)))

copy_words-value :
    (n i d s : ℕ) (m : Bytes) (b : ℕ)
    → ((b : ℕ) → m b < 256)
    → (d ≤ s) ⊎ (s + 4 * (i + n) ≤ d)
    → copy_words n i d s m b ≡ (if within (d + 4 * i) (4 * n) b then m (b - d + s) else m b)
unfolding copy_words
copy_words-value zero i d s m b small h = ground arith
copy_words-value (suc n) i d s m b small h =
    let m' = put_word (d + 4 * i) (get_word (s + 4 * i) m) m in
    copy_words-value n (i + 1) d s m' b (λ a. copied_word-lt (d + 4 * i) (s + 4 * i) m a small)
      (ground (arith, h))
    ∙ rw
        (
          copied_word (d + 4 * i) (s + 4 * i) m b small,
          copied_word (d + 4 * i) (s + 4 * i) m (b - d + s) small,
        )
        (ground (arith, h))

-- If memory is bytes, and the source begins at the destination or above or ends at it or below,
-- then `memcpy` writes to each address of the destination what stood at the same place of the
-- source, and to no other address.
pub memcpy_lem :
    (dest source length : ℕ) (m : Bytes) (b : ℕ)
    → ((a : ℕ) → m a < 256)
    → (dest ≤ source) ⊎ (source + length ≤ dest)
    → memcpy dest source length m b ≡ (if within dest length b then m (b - dest + source) else m b)
unfolding memcpy
memcpy_lem dest source length m b small h =
    let index = length % 4 in
    let n = (length - index) / 4 in
    let m' = copy_bytes index dest source m in
    copy_words-value n 0 (dest + index) (source + index) m' b
      (λ a.
        rw (copy_bytes-value index dest source m a (ground (arith, h)))
          (ground (arith, small a, small (a - dest + source))))
      (ground (arith, h))
    ∙ rw
        (
          copy_bytes-value index dest source m b (ground (arith, h)),
          copy_bytes-value index dest source m (b - (dest + index) + (source + index))
              (ground (arith, h)),
        )
        (ground (arith, h))
