-- ===== src/Memory/Set.antt =====
-- `memset` against its description.
use Prim.Native.Nat.{bit_and, bit_or}
use radix_os.Base.{
  Bool, ap, arith, if◌then◌else◌, leb, length, ltb, suc, zero, ℕ, ◌%◌, ◌&&◌, ◌*◌, ◌+◌, ◌-◌, ◌/◌,
  ◌<◌, ◌^◌, ◌∙◌, ◌≡◌,
}
use radix_os.Bits.Fields.{shifted, bit_and-shifted, bit_and-lowest, bit_or-above}
use radix_os.Memory.{Bytes, put_byte, put_word, set_bytes, set_words, word_of, memset}

-- whether an address is one of the `n` from `base` on
abbrev pub within : ℕ → ℕ → ℕ → Bool
within base n b = leb base b && ltb b (base + n)

field :
    (k v : ℕ)
    → v < 256
    → shifted k (v * 2 ^ k % 2 ^ 32) ≡ v
    → bit_and (v * 2 ^ k % 2 ^ 32) (255 * 2 ^ k) ≡ v * 2 ^ k
field k v h e =
    bit_and-shifted k (v * 2 ^ k % 2 ^ 32) 255
    ∙ ap (λ t. t * 2 ^ k) (ap (λ t. bit_and t 255) e ∙ bit_and-lowest 8 v ∙ omega arith)

word_of-value : (v : ℕ) → v < 256 → word_of v ≡ v * 0x101_0101
unfolding word_of
word_of-value v h =
    let low : bit_and v 255 ≡ v = bit_and-lowest 8 v ∙ omega arith in
    rw (low, field 8 v h (omega arith), field 16 v h (omega arith), field 24 v h (omega arith))
      (ap (λ t. bit_or (bit_or t (v * 2 ^ 16)) (v * 2 ^ 24)) (bit_or-above 8 v v (omega arith))
        ∙ ap (λ t. bit_or t (v * 2 ^ 24)) (bit_or-above 16 (v + v * 2 ^ 8) v (omega arith))
        ∙ bit_or-above 24 (v + v * 2 ^ 8 + v * 2 ^ 16) v (omega arith)
        ∙ omega arith)

pub set_bytes-value :
    (n ptr val : ℕ) (m : Bytes) (b : ℕ)
    → set_bytes n ptr val m b ≡ (if within ptr n b then val else m b)
unfolding set_bytes put_byte
set_bytes-value zero ptr val m b = ground arith
set_bytes-value (suc n) ptr val m b =
    set_bytes-value n (ptr + 1) val (put_byte ptr val m) b ∙ ground arith

set_words-value :
    (n i ptr v : ℕ) (m : Bytes) (b : ℕ)
    → v < 256
    → set_words n i ptr (v * 0x101_0101) m b ≡ (if within (ptr + 4 * i) (4 * n) b then v else m b)
unfolding set_words put_word put_byte
set_words-value zero i ptr v m b h = ground arith
set_words-value (suc n) i ptr v m b h =
    set_words-value n (i + 1) ptr v (put_word (ptr + 4 * i) (v * 0x101_0101) m) b h
    ∙ bytes (v * 0x101_0101) (omega arith) (omega arith) (omega arith) (omega arith)
  where
    bytes :
        (w : ℕ)
        → w % 256 ≡ v
        → w / 2 ^ 8 % 256 ≡ v
        → w / 2 ^ 16 % 256 ≡ v
        → w / 2 ^ 24 % 256 ≡ v
        → (if within (ptr + 4 * (i + 1)) (4 * n) b then v else put_word (ptr + 4 * i) w m b)
          ≡ (if within (ptr + 4 * i) (4 * suc n) b then v else m b)
    bytes w e0 e1 e2 e3 = rw (e0, e1, e2, e3) (ground arith)

-- For a value below 256, `memset` writes it to the addresses of the range, whatever the range's
-- length is modulo four, and to no other.
pub memset_lem :
    (base val length : ℕ) (m : Bytes) (b : ℕ)
    → val < 256
    → memset base val length m b ≡ (if within base length b then val else m b)
unfolding memset
memset_lem base val length m b h =
    let index = length % 4 in
    ap (λ w. set_words ((length - index) / 4) 0 (base + index) w (set_bytes index base val m) b)
      (word_of-value val h)
    ∙ set_words-value ((length - index) / 4) 0 (base + index) val (set_bytes index base val m) b h
    ∙ rw (set_bytes-value index base val m b) (ground arith)
