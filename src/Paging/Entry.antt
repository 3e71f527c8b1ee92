-- ===== src/Paging/Entry.antt =====
-- The frame and the attributes of an entry do not disturb each other.
use Prim.Native.Nat.{bit_or, bit_and}
use radix_os.Base.{
  ap, arith, false, if◌then◌else◌, sym, true, ℕ, ◌%◌, ◌*◌, ◌+◌, ◌-◌, ◌/◌, ◌<◌, ◌==◌, ◌^◌, ◌∙◌, ◌≡◌,
}
use radix_os.Bits.{bit_or-lt}
use radix_os.Bits.Fields.{bit_or-flags, shifted, bit_and-shifted, bit_and-lowest, bit_or-above}
use radix_os.Bits.{
  bit, bit-lt, bit-bit_or, bit-bit_and, bit-pow, bit-complement, bit_and-pow, pow_pos,
}
use radix_os.Paging.{
  pt_entry_is_writable, pt_entry_is_present, pt_entry_test_attrib, pt_entry_add_attrib,
  pt_entry_del_attrib, complement, pt_entry_set_frame, pt_entry_get_frame,
}

pub set_frame-sum : (e f : ℕ) → pt_entry_set_frame e (f * 4096) ≡ e % 4096 + f * 4096
unfolding pt_entry_set_frame complement
set_frame-sum e f =
    let low : bit_and e 4095 ≡ e % 4096 = bit_and-lowest 12 e ∙ omega arith in
    rw low (bit_or-above 12 (e % 4096) f (omega arith))

pub get_frame-value : (e : ℕ) → e < 2 ^ 32 → pt_entry_get_frame e ≡ e / 4096 * 4096
unfolding pt_entry_get_frame
get_frame-value e h =
    let mask : bit_and (shifted 12 e) (2 ^ 20 - 1) ≡ e / 4096 =
      bit_and-lowest 20 (shifted 12 e) ∙ omega arith in
    bit_and-shifted 12 e (2 ^ 20 - 1) ∙ ap (λ t. t * 4096) mask

pub present-value : (e : ℕ) → pt_entry_is_present e ≡ e % 2
unfolding pt_entry_is_present
present-value e = bit_and-lowest 1 e ∙ omega arith

writable-value : (e : ℕ) → pt_entry_is_writable e ≡ e / 2 % 2 * 2
unfolding pt_entry_is_writable
writable-value e =
    let low : bit_and (e / 2) 1 ≡ e / 2 % 2 = bit_and-lowest 1 (e / 2) ∙ omega arith in
    bit_and-shifted 1 e 1 ∙ ap (λ t. t * 2) low

-- With the frame set to an address that is aligned to a page, that address is the frame, and the
-- entry is present, or writable, just where it was before.
pub pt_entry_set_frame_lem :
    (e f : ℕ)
    → f < 2 ^ 20
    → (pt_entry_get_frame (pt_entry_set_frame e (f * 4096)) ≡ f * 4096)
      × (pt_entry_is_present (pt_entry_set_frame e (f * 4096)) ≡ pt_entry_is_present e)
      × (pt_entry_is_writable (pt_entry_set_frame e (f * 4096)) ≡ pt_entry_is_writable e)
pt_entry_set_frame_lem e f h =
    let s = pt_entry_set_frame e (f * 4096) in
    let sum : s ≡ e % 4096 + f * 4096 = set_frame-sum e f in
    (
      get_frame-value s (omega arith) ∙ omega arith,
      present-value s ∙ sym (present-value e ∙ omega arith),
      writable-value s ∙ sym (writable-value e ∙ omega arith),
    )

test-bit : (e i : ℕ) → pt_entry_test_attrib e (2 ^ i) ≡ (bit e i == 1)
unfolding pt_entry_test_attrib
test-bit e i = ground (arith, bit_and-pow e i, bit-lt e i, pow_pos i)

-- Of the attributes with one bit each, adding one sets that one and deleting it clears it; all
-- others are as before.
pub pt_entry_attrib_lem :
    (e i j : ℕ)
    → i < 32
    → j < 32
    → (pt_entry_test_attrib (pt_entry_add_attrib e (2 ^ i)) (2 ^ j)
        ≡ (if i == j then true else pt_entry_test_attrib e (2 ^ j)))
      × (pt_entry_test_attrib (pt_entry_del_attrib e (2 ^ i)) (2 ^ j)
          ≡ (if i == j then false else pt_entry_test_attrib e (2 ^ j)))
unfolding pt_entry_add_attrib pt_entry_del_attrib complement
pt_entry_attrib_lem e i j p q = (
  test-bit (bit_or e (2 ^ i)) j
      ∙ rw (test-bit e j) (ground (arith, bit-bit_or e (2 ^ i) j, bit-pow i j, bit-lt e j)),
  test-bit (bit_and e (2 ^ 32 - 1 - 2 ^ i)) j
      ∙ rw (test-bit e j) (
          ground
            (arith, bit-bit_and e (2 ^ 32 - 1 - 2 ^ i) j, bit-complement 32 i j p q, bit-lt e j)),
)

-- An entry with a frame, to which flags are added that have the lowest bit.
pub added_flags :
    (x f flags : ℕ)
    → x ≡ f * 4096
    → f < 2 ^ 20
    → flags < 4096
    → flags % 2 ≡ 1
    → (pt_entry_add_attrib x flags < 2 ^ 32)
      × (pt_entry_add_attrib x flags / 4096 ≡ f)
      × (pt_entry_add_attrib x flags % 2 ≡ 1)
unfolding pt_entry_add_attrib
added_flags x f flags e d d' odd =
    let (above, low) = bit_or-flags x flags d' in
    (bit_or-lt 32 x flags (omega arith) (omega arith), omega (arith, above), omega (arith, low))
