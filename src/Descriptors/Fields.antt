-- ===== src/Descriptors/Fields.antt =====
-- What is read from the entries is what was put into them.
use Prim.Native.Nat.{bit_and, bit_or}
use radix_os.Base.{
  ap, arith, false, refl, sym, true, ℕ, ◌%◌, ◌*◌, ◌+◌, ◌/◌, ◌<◌, ◌==◌, ◌^◌, ◌∙◌, ◌≡◌, ◌≢◌,
}
use radix_os.Bits.{bit, bit-bit_or, bit-lt}
use radix_os.Bits.Fields.{shifted, bit_and-shifted, bit_and-lowest, bit_or-above}
use radix_os.Descriptors.{GdtEntry, gdt_set_gate, gate_base, gate_limit, gate_flags, tss_init_entry}

-- the masks of the code
low16 : (a : ℕ) → bit_and a 0xffff ≡ a % 2 ^ 16
low16 a = bit_and-lowest 16 a ∙ omega arith

low8 : (a : ℕ) → bit_and a 0xff ≡ a % 2 ^ 8
low8 a = bit_and-lowest 8 a ∙ omega arith

low4 : (a : ℕ) → bit_and a 0x0f ≡ a % 2 ^ 4
low4 a = bit_and-lowest 4 a ∙ omega arith

high4 : (a : ℕ) → bit_and a 0xf0 ≡ a / 2 ^ 4 % 2 ^ 4 * 2 ^ 4
high4 a =
    let field = bit_and-lowest 4 (shifted 4 a) in
    bit_and-shifted 4 a 15 ∙ ap (λ t. t * 2 ^ 4) field ∙ omega arith

base_parts :
    (base : ℕ)
    → base < 2 ^ 32
    → bit_or
        (bit_or (bit_and base 0xffff) (bit_and (base / 2 ^ 16) 0xff * 2 ^ 16))
        (bit_and (base / 2 ^ 24) 0xff * 2 ^ 24)
      ≡ base
base_parts base h =
    let m = base / 2 ^ 16 % 2 ^ 8 in
    let t = base / 2 ^ 24 % 2 ^ 8 in
    rw (low16 base, low8 (base / 2 ^ 16), low8 (base / 2 ^ 24))
      (ap (λ x. bit_or x (t * 2 ^ 24)) (bit_or-above 16 (base % 2 ^ 16) m (omega arith))
        ∙ bit_or-above 24 (base % 2 ^ 16 + m * 2 ^ 16) t (omega arith)
        ∙ omega arith)

limit_parts :
    (limit f : ℕ)
    → limit < 2 ^ 20
    → f % 2 ^ 4 ≡ limit / 2 ^ 16
    → bit_or (bit_and limit 0xffff) (bit_and f 0x0f * 2 ^ 16) ≡ limit
limit_parts limit f h e =
    rw (low16 limit, low4 f, e)
      (bit_or-above 16 (limit % 2 ^ 16) (limit / 2 ^ 16) (omega arith) ∙ omega arith)

flag_parts :
    (limit flags : ℕ)
    → bit_or (bit_and (limit / 2 ^ 16) 0x0f) (bit_and flags 0xf0)
      ≡ limit / 2 ^ 16 % 2 ^ 4 + flags / 2 ^ 4 % 2 ^ 4 * 2 ^ 4
flag_parts limit flags =
    rw (low4 (limit / 2 ^ 16), high4 flags)
      (bit_or-above 4 (limit / 2 ^ 16 % 2 ^ 4) (flags / 2 ^ 4 % 2 ^ 4) (omega arith))

top_bit : bit 0x80 7 ≡ 1
unfolding bit
top_bit = refl

other_bit : bit 0x10 7 ≡ 0
unfolding bit
other_bit = refl

present : (a : ℕ) → bit (bit_or (bit_or a 0x80) 0x10) 7 ≡ 1
present a =
    omega (
      arith,
      bit-bit_or (bit_or a 0x80) 0x10 7,
      bit-bit_or a 0x80 7,
      bit-lt a 7,
      top_bit,
      other_bit,
    )

-- For a base of 32 bits, a limit of 20 bits and flags of 8 bits: from the entry that
-- `gdt_set_gate` writes, the base, the limit and the upper four bits of the flags are read back, the
-- present bit is set, and no other entry has changed.
pub gdt_set_gate_lem :
    (gdt : ℕ → GdtEntry) (num base limit access flags : ℕ)
    → base < 2 ^ 32
    → limit < 2 ^ 20
    → flags < 2 ^ 8
    → let e = gdt_set_gate gdt num base limit access flags num in
      (gate_base e ≡ base)
      × (gate_limit e ≡ limit)
      × (gate_flags e ≡ flags / 2 ^ 4)
      × (bit e.access 7 ≡ 1)
      × ((i : ℕ) → i ≢ num → gdt_set_gate gdt num base limit access flags i ≡ gdt i)
unfolding gdt_set_gate gate_base gate_limit gate_flags
gdt_set_gate_lem gdt num base limit access flags h h' h'' =
    let here : (num == num) ≡ true = ground arith in
    let parts = flag_parts limit flags in
    let f = bit_or (bit_and (limit / 2 ^ 16) 0x0f) (bit_and flags 0xf0) in
    let low : f % 2 ^ 4 ≡ limit / 2 ^ 16 = omega (arith, parts) in
    let high : bit_and f 0xf0 / 2 ^ 4 ≡ flags / 2 ^ 4 = omega (arith, high4 f, parts) in
    (
      rw here (base_parts base h),
      rw here (limit_parts limit f h' low),
      rw here high,
      rw here (present access),
      λ i ne. let there : (i == num) ≡ false = ground (arith, ne) in rw there refl,
    )

-- From the entry of a task state segment that does not run past the last address, the base is read
-- back, but the limit is the lower part of the address behind the segment.
pub tss_init_entry_lem :
    (gdt : ℕ → GdtEntry) (tss num : ℕ)
    → tss + 104 < 2 ^ 32
    → let e = tss_init_entry gdt tss num num in
      (gate_base e ≡ tss) × (gate_limit e ≡ (tss + 104) % 2 ^ 20)
unfolding tss_init_entry gate_base gate_limit
tss_init_entry_lem gdt tss num h =
    let here : (num == num) ≡ true = ground arith in
    let limit = (tss + 104) % 2 ^ 32 in
    let l = limit % 2 ^ 20 in
    let same_low : bit_and limit 0xffff ≡ bit_and l 0xffff =
      low16 limit ∙ omega arith ∙ sym (low16 l) in
    let f = bit_and (limit / 2 ^ 16) 0x0f in
    let e : f % 2 ^ 4 ≡ l / 2 ^ 16 = omega (arith, low4 (limit / 2 ^ 16)) in
    (
      rw here (base_parts tss (omega arith)),
      rw (here, same_low) (limit_parts l f (omega arith) e ∙ omega arith),
    )
