-- ===== src/Descriptors/Tests.antt =====
-- The theorem on entries at the segment of a processor's own data, and one of a segment at 2 MiB.
use radix_os.Base.{arith, refl, ℕ, ◌≡◌, ◌≢◌}
use radix_os.Bits.{bit}
use radix_os.Descriptors.{
  GdtEntry, IdtEntry, gdt_set_gate, gate_base, gate_limit, gate_flags, idt_set_gate,
}
use radix_os.Descriptors.Fields.{gdt_set_gate_lem}

abbrev empty_entry : GdtEntry
empty_entry = record {
  limit_low = 0;
  base_low = 0;
  base_middle = 0;
  access = 0;
  flags = 0;
  base_high = 0;
}

gdt_set_gate_lem_example :
    let e = gdt_set_gate (λ _. empty_entry) 6 0xdead_beef 0xf_fff0 2 0xc0 6 in
    (gate_base e ≡ 0xdead_beef)
    × (gate_limit e ≡ 0xf_fff0)
    × (gate_flags e ≡ 0xc)
    × (bit e.access 7 ≡ 1)
    × ((i : ℕ)
        → i ≢ 6
        → gdt_set_gate (λ _. empty_entry) 6 0xdead_beef 0xf_fff0 2 0xc0 i ≡ empty_entry)
gdt_set_gate_lem_example =
    gdt_set_gate_lem (λ _. empty_entry) 6 0xdead_beef 0xf_fff0 2 0xc0 (omega arith) (omega arith)
      (omega arith)

abbrev empty_gate : IdtEntry
empty_gate = record { base_low = 0; selector = 0; always0 = 0; flags = 0; base_high = 0 }

idt_gate_flags : (idt_set_gate 14 0x10_2030 8 0x0e (λ _. empty_gate) 14).flags ≡ 0x8e
unfolding idt_set_gate
idt_gate_flags = refl
