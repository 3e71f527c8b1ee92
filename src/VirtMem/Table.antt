-- ===== src/VirtMem/Table.antt =====
-- `virt_mem_create_table`: a new table for a part of the space that has none.
use native.Mathlib.Decide.{ℕ_discrete}
use radix_os.Base.{
  ap, arith, false, if◌then◌else◌, inl, inr, refl, sym, ℕ, ◌%◌, ◌*◌, ◌+◌, ◌/◌, ◌<◌, ◌==◌, ◌^◌, ◌∙◌,
  ◌≡◌, ◌≢◌, ◌⊎◌,
}
use radix_os.PhysMem.{PhysMem}
use radix_os.PhysMem.Blocks.{used}
use radix_os.PhysMem.Blocks as Blocks
use radix_os.VirtMem.{VirtMem, page_at, dir_entry, walk, write}
use radix_os.VirtMem.Walk.{HasSelf, slot}
use radix_os.VirtMem.Store.{IsGrown, IsSpace, walk-absent, walk-present}

-- The directory's entry `i` is `w`, and so the entry has changed from not present to the table in
-- the frame `f`, which was free.
module _ (s : VirtMem) (v : IsSpace s) (p : PhysMem) (i f w : ℕ) (d : i < 1024) (other : i ≢ 768)
    (absent : dir_entry s i % 2 ≡ 0) (small : w < 2 ^ 32) (frame : w / 4096 ≡ f)
    (present : w % 2 ≡ 1) (free : used s.phys f ≡ 0)
    (change : (j : ℕ) → used p j ≡ (if f == j then 1 else used s.phys j))
    (valid : Blocks.IsValid p) where
  abbrev pub with_table : VirtMem
  with_table = write (s.cr3 + 4 * i) w (record s { phys = p })

  pub with_table-new : dir_entry with_table i ≡ w
  with_table-new = ground arith

  pub with_table-old : (j : ℕ) → j ≢ i → dir_entry with_table j ≡ dir_entry s j
  with_table-old j ne = ground (arith, ne)

  not_new : (j : ℕ) → j < 1024 → dir_entry s j % 2 ≡ 1 → dir_entry s j / 4096 ≢ f
  not_new j e odd same =
      let one : used s.phys f ≡ 1 = ap (used s.phys) (sym same) ∙ v.taken j e odd in
      omega (arith, one, free)

  -- the old table of each present entry but the new one
  pub old_entry :
      (j : ℕ)
      → j < 1024
      → dir_entry with_table j % 2 ≡ 1
      → ((j ≡ i) × (dir_entry with_table j / 4096 ≡ f))
        ⊎ ((j ≢ i)
            × (dir_entry s j % 2 ≡ 1)
            × (dir_entry with_table j / 4096 ≡ dir_entry s j / 4096))
  old_entry j e odd = elim (ℕ_discrete j i) [
    | yes same ↦ inl (
      same,
      ap (λ x. dir_entry with_table x / 4096) same ∙ ap (λ x. x / 4096) with_table-new ∙ frame,
    )
    | no ne ↦ inr (
      ne,
      ap (λ x. x % 2) (sym (with_table-old j ne)) ∙ odd,
      ap (λ x. x / 4096) (with_table-old j ne),
    )
  ]

  with_table-HasSelf : HasSelf with_table
  with_table-HasSelf =
      let same = with_table-old 768 (λ e. other (sym e)) in
      record {
        aligned = v.self.aligned;
        small = v.self.small;
        present = ap (λ x. x % 2) same ∙ v.self.present;
        frame = ap (λ x. x / 4096 * 4096) same ∙ v.self.frame;
      }

  pub with_table-IsSpace : IsSpace with_table
  with_table-IsSpace = record {
    self = with_table-HasSelf;
    words = λ a. ground (arith, v.words a);
    distinct = λ j k a b e e' same. two j k a b same (old_entry j a e) (old_entry k b e');
    taken = λ j a e. one j a (old_entry j a e);
    phys = valid;
  }
    where
      two :
          (j k : ℕ)
          → j < 1024
          → k < 1024
          → dir_entry with_table j / 4096 ≡ dir_entry with_table k / 4096
          → ((j ≡ i) × (dir_entry with_table j / 4096 ≡ f))
            ⊎ ((j ≢ i)
                × (dir_entry s j % 2 ≡ 1)
                × (dir_entry with_table j / 4096 ≡ dir_entry s j / 4096))
          → ((k ≡ i) × (dir_entry with_table k / 4096 ≡ f))
            ⊎ ((k ≢ i)
                × (dir_entry s k % 2 ≡ 1)
                × (dir_entry with_table k / 4096 ≡ dir_entry s k / 4096))
          → j ≡ k
      two j k a b same (inl (e, _)) (inl (e', _)) = e ∙ sym e'
      two j k a b same (inl (e, x)) (inr (ne, odd, y)) =
          absurd (not_new k b odd (sym y ∙ sym same ∙ x))
      two j k a b same (inr (ne, odd, x)) (inl (e, y)) = absurd (not_new j a odd (sym x ∙ same ∙ y))
      two j k a b same (inr (_, odd, x)) (inr (_, odd', y)) =
          v.distinct j k a b odd odd' (sym x ∙ same ∙ y)

      one :
          (j : ℕ)
          → j < 1024
          → ((j ≡ i) × (dir_entry with_table j / 4096 ≡ f))
            ⊎ ((j ≢ i)
                × (dir_entry s j % 2 ≡ 1)
                × (dir_entry with_table j / 4096 ≡ dir_entry s j / 4096))
          → used p (dir_entry with_table j / 4096) ≡ 1
      one j a (inl (e, x)) = ap (used p) x ∙ change f ∙ ground arith
      one j a (inr (ne, odd, x)) =
          ap (used p) x ∙ change (dir_entry s j / 4096) ∙ ground (arith, v.taken j a odd)

  -- The walks of the other parts of the space.
  pub with_table-walk :
      (b : ℕ) → b < 2 ^ 32 → b / 2 ^ 22 ≢ i → b / 2 ^ 22 ≢ 768 → walk with_table b ≡ walk s b
  with_table-walk b e ne ne' =
      let same = with_table-old (b / 2 ^ 22) ne in
      elim (ℕ_discrete (dir_entry s (b / 2 ^ 22) % 2) 1) [
        | yes odd ↦
            let apart : dir_entry s (b / 2 ^ 22) / 4096 ≢ dir_entry s 768 / 4096 = λ x.
              ne' (v.distinct (b / 2 ^ 22) 768 (omega arith) (omega arith) odd v.self.present x) in
            let elsewhere : (slot s b == s.cr3 + 4 * i) ≡ false =
              ground (arith, apart, v.self.frame, v.self.aligned) in
            walk-present with_table b (ap (λ x. x % 2) same ∙ odd)
            ∙ ap (λ x. page_at (with_table.ram (x / 4096 * 4096 + 4 * (b / 4096 % 1024))) b) same
            ∙ rw elsewhere refl
            ∙ sym (walk-present s b odd)
        | no even ↦
            let zero_bit : dir_entry s (b / 2 ^ 22) % 2 ≡ 0 = omega arith in
            walk-absent with_table b (ap (λ x. x % 2) same ∙ zero_bit)
            ∙ sym (walk-absent s b zero_bit)
      ]

  -- What is in use stays so, and the tables are the old ones or new.
  pub with_table-IsGrown : p.max_blocks ≡ s.phys.max_blocks → IsGrown s with_table
  with_table-IsGrown same = record {
    kept = λ j e. change j ∙ ground (arith, e);
    max_blocks = same;
    tables = λ j e odd. one_of (old_entry j e odd);
  }
    where
      one_of :
          {j : ℕ}
          → ((j ≡ i) × (dir_entry with_table j / 4096 ≡ f))
            ⊎ ((j ≢ i)
                × (dir_entry s j % 2 ≡ 1)
                × (dir_entry with_table j / 4096 ≡ dir_entry s j / 4096))
          → (used s.phys (dir_entry with_table j / 4096) ≡ 0)
            ⊎ ((dir_entry s j % 2 ≡ 1) × (dir_entry with_table j / 4096 ≡ dir_entry s j / 4096))
      one_of (inl (_, e)) = inl (ap (used s.phys) e ∙ free)
      one_of (inr (_, odd, e)) = inr (odd, e)
