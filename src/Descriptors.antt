-- ===== src/Descriptors.antt =====
-- The entries of the descriptor tables: kernel/gdt.c, kernel/tss.c and the gates of kernel/idt.c. A
-- table is a function of the index; assignments to a field keep the field's width.
pub mod Fields
pub mod Tests
use Prim.Native.Nat.{bit_and, bit_or}
use radix_os.Base.{
  ==_iff, All, All-append, All-get_or, All-imp, All-middle, All-set, Any, Any-left, Any-right, Bool,
  Bool-cases, List, Option, Option-cases, Ordering, [], ap, append-nil, append_assoc, ap₂, arith,
  compare, compare-cases, drop, false, get_elem?, get_elem?-set_ne, get_elem?-set_self, get_or,
  get_or-set, if◌then◌else◌, inl, inr, leb, length, length-append, length-drop, length-map,
  length-replicate, length-set, length-take, le→ltb, ltb, ltb→le, ltb→lt, lt→ltb, map, max, min,
  none, not, refl, replicate, set, some, subst, suc, sym, take, take-append-drop, true, zero, ℕ,
  ◌%◌, ◌&&◌, ◌*◌, ◌++◌, ◌+◌, ◌-◌, ◌/◌, ◌<◌, ◌==◌, ◌>>=◌, ◌^◌, ◌||◌, ◌↔◌, ◌∙◌, ◌∷◌, ◌≡◌, ◌≢◌, ◌≤◌,
  ◌⊎◌,
}

pub record GdtEntry : Type 0 where
  pub limit_low : ℕ
  pub base_low : ℕ
  pub base_middle : ℕ
  pub access : ℕ
  pub flags : ℕ
  pub base_high : ℕ

pub record IdtEntry : Type 0 where
  pub base_low : ℕ
  pub selector : ℕ
  pub always0 : ℕ
  pub flags : ℕ
  pub base_high : ℕ

pub gdt_set_gate : (ℕ → GdtEntry) → ℕ → ℕ → ℕ → ℕ → ℕ → ℕ → GdtEntry
gdt_set_gate gdt_base num base limit access flags i =
    if i == num
    then record {
      base_low = bit_and base 0xffff;
      base_middle = bit_and (base / 2 ^ 16) 0xff;
      base_high = bit_and (base / 2 ^ 24) 0xff;
      limit_low = bit_and limit 0xffff;
      flags = bit_or (bit_and (limit / 2 ^ 16) 0x0f) (bit_and flags 0xf0);
      access = bit_or (bit_or access 0x80) 0x10;
    }
    else gdt_base i

-- What `gdt_print_gate` reads.
pub gate_base : GdtEntry → ℕ
gate_base e = bit_or (bit_or e.base_low (e.base_middle * 2 ^ 16)) (e.base_high * 2 ^ 24)

pub gate_limit : GdtEntry → ℕ
gate_limit e = bit_or e.limit_low (bit_and e.flags 0x0f * 2 ^ 16)

pub gate_flags : GdtEntry → ℕ
gate_flags e = bit_and e.flags 0xf0 / 2 ^ 4

-- The entry of the task state segment, of 104 bytes, at `tss`; its own fields, which the code sets
-- afterwards, are left out.
pub tss_init_entry : (ℕ → GdtEntry) → ℕ → ℕ → ℕ → GdtEntry
tss_init_entry gdt_base tss num i =
    let limit = (tss + 104) % 2 ^ 32 in
    if i == num
    then record {
      base_low = bit_and tss 0xffff;
      base_middle = bit_and (tss / 2 ^ 16) 0xff;
      base_high = bit_and (tss / 2 ^ 24) 0xff;
      limit_low = bit_and limit 0xffff;
      flags = bit_and (limit / 2 ^ 16) 0x0f;
      access = 0xe9;
    }
    else gdt_base i

pub idt_set_gate : ℕ → ℕ → ℕ → ℕ → (ℕ → IdtEntry) → ℕ → IdtEntry
idt_set_gate num base selector flags entries i =
    if i == num
    then record {
      base_low = bit_and base 0xffff;
      base_high = bit_and (base / 2 ^ 16) 0xffff;
      selector = selector;
      always0 = 0;
      flags = bit_or flags 0x80;
    }
    else entries i
