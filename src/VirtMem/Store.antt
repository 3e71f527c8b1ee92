-- ===== src/VirtMem/Store.antt =====
-- A write of the entry of a page changes where that page is, and nothing else.
use native.Mathlib.Decide.{ℕ_discrete}
use radix_os.Base.{
  Bool, Bool-cases, ap, ap₂, arith, false, if◌then◌else◌, inl, inr, none, refl, some, subst, sym,
  true, ℕ, ◌%◌, ◌*◌, ◌+◌, ◌/◌, ◌<◌, ◌==◌, ◌^◌, ◌∙◌, ◌≡◌, ◌≢◌, ◌⊎◌,
}
use radix_os.PhysMem.{PhysMem}
use radix_os.PhysMem.Blocks.{used}
use radix_os.PhysMem.Blocks as Blocks
use radix_os.VirtMem.{VirtMem, page_at, dir_entry, walk, write}
use radix_os.VirtMem.Walk.{HasSelf, slot}

-- An address space: the directory has itself as a table, no two of its entries have the same table,
-- and all tables are frames in use.
pub record IsSpace (s : VirtMem) : Type 0 where
  pub self : HasSelf s
  pub words : (a : ℕ) → s.ram a < 2 ^ 32
  pub distinct :
      (i j : ℕ)
      → i < 1024
      → j < 1024
      → dir_entry s i % 2 ≡ 1
      → dir_entry s j % 2 ≡ 1
      → dir_entry s i / 4096 ≡ dir_entry s j / 4096
      → i ≡ j
  pub taken : (i : ℕ) → i < 1024 → dir_entry s i % 2 ≡ 1 → used s.phys (dir_entry s i / 4096) ≡ 1
  pub phys : Blocks.IsValid s.phys

-- Physical memory may change as long as the tables stay in use.
pub IsSpace-phys :
    (s : VirtMem) (p : PhysMem)
    → IsSpace s
    → Blocks.IsValid p
    → ((i : ℕ) → i < 1024 → dir_entry s i % 2 ≡ 1 → used p (dir_entry s i / 4096) ≡ 1)
    → IsSpace (record s { phys = p })
IsSpace-phys s p v valid taken = record {
  self = record {
    aligned = v.self.aligned;
    small = v.self.small;
    present = v.self.present;
    frame = v.self.frame;
  };
  words = v.words;
  distinct = v.distinct;
  taken = taken;
  phys = valid;
}

pub walk-phys : (s : VirtMem) (p : PhysMem) (b : ℕ) → walk (record s { phys = p }) b ≡ walk s b
unfolding walk
walk-phys s p b = refl

-- From `s` to `t`, no frame has become free, and the tables are the old ones or were free.
pub record IsGrown (s t : VirtMem) : Type 0 where
  pub kept : (j : ℕ) → used s.phys j ≡ 1 → used t.phys j ≡ 1
  pub max_blocks : t.phys.max_blocks ≡ s.phys.max_blocks
  pub tables :
      (j : ℕ)
      → j < 1024
      → dir_entry t j % 2 ≡ 1
      → (used s.phys (dir_entry t j / 4096) ≡ 0)
        ⊎ ((dir_entry s j % 2 ≡ 1) × (dir_entry t j / 4096 ≡ dir_entry s j / 4096))

pub IsGrown-refl : (s : VirtMem) → IsGrown s s
IsGrown-refl s = record { kept = λ j e. e; max_blocks = refl; tables = λ j d odd. inr (odd, refl) }

pub IsGrown-same :
    (s t u : VirtMem)
    → IsGrown s t
    → u.phys ≡ t.phys
    → ((j : ℕ) → j < 1024 → dir_entry u j ≡ dir_entry t j)
    → IsGrown s u
IsGrown-same s t u g p same = record {
  kept = λ j e. ap (λ q. used q j) p ∙ g.kept j e;
  max_blocks = ap (λ q. q.max_blocks) p ∙ g.max_blocks;
  tables = λ j d odd.
      subst
        (λ w.
          (used s.phys (w / 4096) ≡ 0)
          ⊎ ((dir_entry s j % 2 ≡ 1) × (w / 4096 ≡ dir_entry s j / 4096)))
        (sym (same j d)) (g.tables j d (ap (λ w. w % 2) (sym (same j d)) ∙ odd));
}

-- A walk goes by the entries of the directory and of the table.
pub walk-absent :
    (s : VirtMem) (addr : ℕ) → dir_entry s (addr / 2 ^ 22) % 2 ≡ 0 → walk s addr ≡ none
unfolding walk
walk-absent s addr e = rw e refl

pub walk-present :
    (s : VirtMem) (addr : ℕ)
    → dir_entry s (addr / 2 ^ 22) % 2 ≡ 1
    → walk s addr ≡ page_at (s.ram (slot s addr)) addr
unfolding walk
walk-present s addr e = rw e refl

page_at-some :
    (w addr a : ℕ) → page_at w addr ≡ some a → (w % 2 ≡ 1) × (w / 4096 * 4096 + addr % 4096 ≡ a)
page_at-some w addr a e = (ground (arith, e), ground (arith, e))

pub walk-some :
    (s : VirtMem) (addr a : ℕ)
    → walk s addr ≡ some a
    → (dir_entry s (addr / 2 ^ 22) % 2 ≡ 1)
      × (s.ram (slot s addr) % 2 ≡ 1)
      × (s.ram (slot s addr) / 4096 * 4096 + addr % 4096 ≡ a)
walk-some s addr a e = elim (ℕ_discrete (dir_entry s (addr / 2 ^ 22) % 2) 1) [
  | yes present ↦
      let (odd, value) =
        page_at-some (s.ram (slot s addr)) addr a (sym (walk-present s addr present) ∙ e) in
      (present, odd, value)
  | no ne ↦
      let absent = walk-absent s addr (omega arith) in
      let none_some : none ≡ some a = sym absent ∙ e in cc
]

-- If the directory is the same, so is the space.
pub IsSpace-same :
    (s t : VirtMem)
    → IsSpace s
    → t.cr3 ≡ s.cr3
    → t.phys ≡ s.phys
    → ((a : ℕ) → t.ram a < 2 ^ 32)
    → ((j : ℕ) → j < 1024 → dir_entry t j ≡ dir_entry s j)
    → IsSpace t
IsSpace-same s t v c p words same = record {
  self = record {
    aligned = ap (λ x. x % 4096) c ∙ v.self.aligned;
    small = omega (arith, v.self.small);
    present = ap (λ x. x % 2) (same 768 (omega arith)) ∙ v.self.present;
    frame = ap (λ x. x / 4096 * 4096) (same 768 (omega arith)) ∙ v.self.frame ∙ sym c;
  };
  words = words;
  distinct = λ i j a b e e' f.
      v.distinct i j a b (ap (λ x. x % 2) (sym (same i a)) ∙ e)
        (ap (λ x. x % 2) (sym (same j b)) ∙ e')
        (ap (λ x. x / 4096) (sym (same i a)) ∙ f ∙ ap (λ x. x / 4096) (same j b));
  taken = λ i a e.
      ap₂ used p (ap (λ x. x / 4096) (same i a))
      ∙ v.taken i a (ap (λ x. x % 2) (sym (same i a)) ∙ e);
  phys = subst Blocks.IsValid (sym p) v.phys;
}

module _ (s : VirtMem) (v : IsSpace s) (addr : ℕ) (h : addr < 2 ^ 32)
    (present : dir_entry s (addr / 2 ^ 22) % 2 ≡ 1) (other : addr / 2 ^ 22 ≢ 768) (w : ℕ) where
  -- no entry of the directory stands there
  not_dir : (j : ℕ) → j < 1024 → (s.cr3 + 4 * j == slot s addr) ≡ false
  not_dir j d =
      let ne : dir_entry s (addr / 2 ^ 22) / 4096 ≢ dir_entry s 768 / 4096 = λ e.
        other
          (v.distinct (addr / 2 ^ 22) 768 (omega arith) (omega arith) present v.self.present e) in
      ground (arith, ne, v.self.frame, v.self.aligned)

  pub written-dir : (j : ℕ) → j < 1024 → dir_entry (write (slot s addr) w s) j ≡ dir_entry s j
  written-dir j d = rw (not_dir j d) refl

  pub written-IsSpace : w < 2 ^ 32 → IsSpace (write (slot s addr) w s)
  written-IsSpace d =
      IsSpace-same s (write (slot s addr) w s) v refl refl (λ a. ground (arith, v.words a))
        written-dir

  same_slot :
      (b : ℕ)
      → b < 2 ^ 32
      → dir_entry s (b / 2 ^ 22) % 2 ≡ 1
      → (slot s b == slot s addr) ≡ (b / 4096 == addr / 4096)
  same_slot b d e = elim (ℕ_discrete (b / 2 ^ 22) (addr / 2 ^ 22)) [
    | yes same ↦
        let f : dir_entry s (b / 2 ^ 22) / 4096 ≡ dir_entry s (addr / 2 ^ 22) / 4096 =
          ap (λ i. dir_entry s i / 4096) same in
        ground (arith, f, same)
    | no ne ↦
        let ne' : dir_entry s (b / 2 ^ 22) / 4096 ≢ dir_entry s (addr / 2 ^ 22) / 4096 = λ f.
          ne (v.distinct (b / 2 ^ 22) (addr / 2 ^ 22) (omega arith) (omega arith) e present f) in
        ground (arith, ne, ne')
  ]

  pub written-walk :
      (b : ℕ)
      → b < 2 ^ 32
      → walk (write (slot s addr) w s) b
        ≡ (if b / 4096 == addr / 4096 then page_at w b else walk s b)
  written-walk b d =
      let t = write (slot s addr) w s in
      let dir : dir_entry t (b / 2 ^ 22) ≡ dir_entry s (b / 2 ^ 22) =
        written-dir (b / 2 ^ 22) (omega arith) in
      elim (ℕ_discrete (dir_entry s (b / 2 ^ 22) % 2) 1) [
        | yes e ↦
            walk-present t b (ap (λ x. x % 2) dir ∙ e)
            ∙ ap (λ x. page_at (t.ram (x / 4096 * 4096 + 4 * (b / 4096 % 1024))) b) dir
            ∙ read b d e
        | no ne ↦
            let zero_bit : dir_entry s (b / 2 ^ 22) % 2 ≡ 0 = omega arith in
            walk-absent t b (ap (λ x. x % 2) dir ∙ zero_bit)
            ∙ absent b ne (walk-absent s b zero_bit)
      ]
    where
      read :
          (b : ℕ)
          → b < 2 ^ 32
          → dir_entry s (b / 2 ^ 22) % 2 ≡ 1
          → page_at (if slot s b == slot s addr then w else s.ram (slot s b)) b
            ≡ (if b / 4096 == addr / 4096 then page_at w b else walk s b)
      read b d e = rw (same_slot b d e, walk-present s b e) (choose (b / 4096 == addr / 4096))
        where
          choose :
              (c : Bool)
              → page_at (if c then w else s.ram (slot s b)) b
                ≡ (if c then page_at w b else page_at (s.ram (slot s b)) b)
          choose true = refl
          choose false = refl

      absent :
          (b : ℕ)
          → dir_entry s (b / 2 ^ 22) % 2 ≢ 1
          → walk s b ≡ none
          → none ≡ (if b / 4096 == addr / 4096 then page_at w b else walk s b)
      absent b ne e = elim (Bool-cases (b / 4096 == addr / 4096)) [
        | inl here ↦
            let same : b / 2 ^ 22 ≡ addr / 2 ^ 22 = ground arith in
            absurd (ne (ap (λ i. dir_entry s i % 2) same ∙ present))
        | inr there ↦ rw there (sym e)
      ]
