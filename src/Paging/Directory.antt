-- ===== src/Paging/Directory.antt =====
-- The same for the entries of a directory, which have two attributes more.
use Prim.Native.Nat.{bit_and}
use radix_os.Base.{
  ap, arith, false, if◌then◌else◌, sym, true, ℕ, ◌%◌, ◌*◌, ◌/◌, ◌<◌, ◌==◌, ◌^◌, ◌∙◌, ◌≡◌,
}
use radix_os.Bits.{bit_or-lt}
use radix_os.Bits.Fields.{bit_or-flags, shifted, bit_and-shifted, bit_and-lowest}
use radix_os.Paging.{
  pt_entry_set_frame, pt_entry_get_frame, pt_entry_is_present, pt_entry_is_writable,
  pt_entry_test_attrib, pt_entry_add_attrib, pt_entry_del_attrib, pd_entry_set_frame,
  pd_entry_get_frame, pd_entry_is_present, pd_entry_is_writable, pd_entry_is_user, pd_entry_is_4mb,
  pd_entry_test_attrib, pd_entry_add_attrib, pd_entry_del_attrib,
}
use radix_os.Paging.Entry.{pt_entry_set_frame_lem, pt_entry_attrib_lem, set_frame-sum}

user-value : (e : ℕ) → pd_entry_is_user e ≡ e / 4 % 2 * 4
unfolding pd_entry_is_user
user-value e =
    let low : bit_and (shifted 2 e) 1 ≡ e / 4 % 2 = bit_and-lowest 1 (shifted 2 e) ∙ omega arith in
    bit_and-shifted 2 e 1 ∙ ap (λ t. t * 4) low

large-value : (e : ℕ) → pd_entry_is_4mb e ≡ e / 128 % 2 * 128
unfolding pd_entry_is_4mb
large-value e =
    let low : bit_and (shifted 7 e) 1 ≡ e / 128 % 2 =
      bit_and-lowest 1 (shifted 7 e) ∙ omega arith in
    bit_and-shifted 7 e 1 ∙ ap (λ t. t * 128) low

-- With the frame of a directory's entry set to an address that is aligned to a page, that address
-- is the frame, and whether the entry is present, writable, for users, and for a page of 4 MiB is as
-- before.
pub pd_entry_set_frame_lem :
    (e f : ℕ)
    → f < 2 ^ 20
    → let s = pd_entry_set_frame e (f * 4096) in
      (pd_entry_get_frame s ≡ f * 4096)
      × (pd_entry_is_present s ≡ pd_entry_is_present e)
      × (pd_entry_is_writable s ≡ pd_entry_is_writable e)
      × (pd_entry_is_user s ≡ pd_entry_is_user e)
      × (pd_entry_is_4mb s ≡ pd_entry_is_4mb e)
unfolding pt_entry_set_frame pt_entry_get_frame pt_entry_is_present pt_entry_is_writable
    pd_entry_set_frame pd_entry_get_frame pd_entry_is_present pd_entry_is_writable
pd_entry_set_frame_lem e f h =
    let s = pt_entry_set_frame e (f * 4096) in
    let (frame, present, writable) = pt_entry_set_frame_lem e f h in
    let sum = set_frame-sum e f in
    (
      frame,
      present,
      writable,
      user-value s ∙ sym (user-value e ∙ omega arith),
      large-value s ∙ sym (large-value e ∙ omega arith),
    )

-- Adding an attribute of one bit to a directory's entry sets it and deleting it clears it; the
-- other attributes are as before.
pub pd_entry_attrib_lem :
    (e i j : ℕ)
    → i < 32
    → j < 32
    → (pd_entry_test_attrib (pd_entry_add_attrib e (2 ^ i)) (2 ^ j)
        ≡ (if i == j then true else pd_entry_test_attrib e (2 ^ j)))
      × (pd_entry_test_attrib (pd_entry_del_attrib e (2 ^ i)) (2 ^ j)
          ≡ (if i == j then false else pd_entry_test_attrib e (2 ^ j)))
unfolding pt_entry_test_attrib pt_entry_add_attrib pt_entry_del_attrib pd_entry_test_attrib
    pd_entry_add_attrib pd_entry_del_attrib
pd_entry_attrib_lem = pt_entry_attrib_lem

-- A directory's entry with a new frame and flags that have the lowest bit.
pub new_table_entry :
    (e f flags : ℕ)
    → f < 2 ^ 20
    → flags < 4096
    → flags % 2 ≡ 1
    → let w = pd_entry_add_attrib (pd_entry_set_frame e (f * 4096)) flags in
      (pd_entry_set_frame e (f * 4096) < 2 ^ 32) × (w < 2 ^ 32) × (w / 4096 ≡ f) × (w % 2 ≡ 1)
unfolding pd_entry_add_attrib pd_entry_set_frame pt_entry_set_frame
new_table_entry e f flags d d' odd =
    let sum = set_frame-sum e f in
    let x = pt_entry_set_frame e (f * 4096) in
    let small : x < 2 ^ 32 = omega (arith, sum) in
    let (above, low) = bit_or-flags x flags d' in
    (small, bit_or-lt 32 x flags small (omega arith), omega (arith, above, sum), omega (arith, low))

-- The bit by which the walk goes on.
pub dir_present-value : (e : ℕ) → pd_entry_is_present e ≡ e % 2
unfolding pd_entry_is_present
dir_present-value e = bit_and-lowest 1 e ∙ omega arith
