-- ===== src/VirtMem/Page.antt =====
-- The entry of a page of a table that is there: `*page = 0`, and then the frame and the flags.
use radix_os.Base.{
  Bool-cases, ap, arith, false, if◌then◌else◌, inl, inr, refl, ℕ, ◌%◌, ◌*◌, ◌+◌, ◌/◌, ◌<◌, ◌==◌,
  ◌^◌, ◌∙◌, ◌≡◌, ◌≢◌,
}
use radix_os.Exec.{done}
use radix_os.Types.{error_ok}
use radix_os.Paging.{pt_entry_set_frame, pt_entry_add_attrib}
use radix_os.Paging.Entry.{set_frame-sum, added_flags}
use radix_os.VirtMem.{VirtMem, page_at, dir_entry, walk, write, update_entry, set_page}
use radix_os.VirtMem.Walk.{slot, entry_at, walk-entry_at, store-at, update_entry-at}
use radix_os.VirtMem.Store.{IsSpace, written-dir, written-IsSpace, written-walk}

-- `t` is `s` with `w` as the entry of the page of `addr`.
pub record IsChange (addr w : ℕ) (s t : VirtMem) : Type 0 where
  pub space : IsSpace t
  pub dir : (j : ℕ) → j < 1024 → dir_entry t j ≡ dir_entry s j
  pub entry : t.ram (slot t addr) ≡ w
  pub pages :
      (b : ℕ) → b < 2 ^ 32 → walk t b ≡ (if b / 4096 == addr / 4096 then page_at w b else walk s b)
  pub phys : t.phys ≡ s.phys
  pub cr3 : t.cr3 ≡ s.cr3

module _ (addr : ℕ) (h : addr < 2 ^ 32) (other : addr / 2 ^ 22 ≢ 768) where
  pub write-IsChange :
      (s : VirtMem)
      → IsSpace s
      → dir_entry s (addr / 2 ^ 22) % 2 ≡ 1
      → (w : ℕ) → w < 2 ^ 32
      → IsChange addr w s (write (slot s addr) w s)
  write-IsChange s v present w d =
      let same = written-dir s v addr h present other w in
      record {
        space = written-IsSpace s v addr h present other w d;
        dir = same;
        entry =
            ap
              (λ x.
                if x / 4096 * 4096 + 4 * (addr / 4096 % 1024) == slot s addr
                then w
                else s.ram (x / 4096 * 4096 + 4 * (addr / 4096 % 1024)))
              (same (addr / 2 ^ 22) (omega arith))
            ∙ ground arith;
        pages = written-walk s v addr h present other w;
        phys = refl;
        cr3 = refl;
      }

  IsChange-twice :
      (w w' : ℕ) (s t u : VirtMem)
      → IsChange addr w s t
      → IsChange addr w' t u
      → IsChange addr w' s u
  IsChange-twice w w' s t u a b = record {
    space = b.space;
    dir = λ j d. b.dir j d ∙ a.dir j d;
    entry = b.entry;
    pages = λ q d. b.pages q d ∙ elim (Bool-cases (q / 4096 == addr / 4096)) [
      | inl here ↦ rw here refl
      | inr there ↦ rw there (a.pages q d ∙ rw there refl)
    ];
    phys = b.phys ∙ a.phys;
    cr3 = b.cr3 ∙ a.cr3;
  }

  -- One update of the entry, with what the code computes from it.
  update-IsChange :
      (s : VirtMem)
      → IsSpace s
      → dir_entry s (addr / 2 ^ 22) % 2 ≡ 1
      → (f : ℕ → ℕ) → f (s.ram (slot s addr)) < 2 ^ 32
      → (t : VirtMem) × (update_entry f (entry_at addr) s ≡ done t)
        × IsChange addr (f (s.ram (slot s addr))) s t
  update-IsChange s v present f d = (
    _,
    update_entry-at s (entry_at addr) (slot s addr) (walk-entry_at s addr v.self h present) f,
    write-IsChange s v present (f (s.ram (slot s addr))) d,
  )

  IsChange-present :
      (w : ℕ) (s t : VirtMem)
      → IsChange addr w s t
      → dir_entry s (addr / 2 ^ 22) % 2 ≡ 1
      → dir_entry t (addr / 2 ^ 22) % 2 ≡ 1
  IsChange-present w s t c present = ap (λ x. x % 2) (c.dir (addr / 2 ^ 22) (omega arith)) ∙ present

  pub set_page_lem :
      (s : VirtMem)
      → IsSpace s
      → dir_entry s (addr / 2 ^ 22) % 2 ≡ 1
      → (f flags : ℕ) → f < 2 ^ 20
      → flags < 4096
      → flags % 2 ≡ 1
      → (w : ℕ) × (t : VirtMem) × (set_page (entry_at addr) (f * 4096) flags s ≡ done (error_ok, t))
        × IsChange addr w s t
        × (w / 4096 ≡ f)
        × (w % 2 ≡ 1)
  unfolding set_page
  set_page_lem s v present f flags d d' odd =
      let some_page : (entry_at addr == 0) ≡ false = ground arith in
      let c1 = write-IsChange s v present 0 (omega arith) in
      let s1 = write (slot s addr) 0 s in
      let frame : pt_entry_set_frame (s1.ram (slot s1 addr)) (f * 4096) ≡ f * 4096 =
        ap (λ x. pt_entry_set_frame x (f * 4096)) c1.entry ∙ set_frame-sum 0 f ∙ omega arith in
      let (s2, got2, c2) =
        update-IsChange s1 c1.space (IsChange-present 0 s s1 c1 present)
          (λ x. pt_entry_set_frame x (f * 4096)) (omega (arith, frame)) in
      let (small, above, low) = added_flags _ f flags (c2.entry ∙ frame) d d' odd in
      let (s3, got3, c3) =
        update-IsChange s2 c2.space
          (IsChange-present _ s1 s2 c2 (IsChange-present 0 s s1 c1 present))
          (λ x. pt_entry_add_attrib x flags) small in
      (
        _,
        s3,
        rw
            (
              some_page,
              store-at s (entry_at addr) (slot s addr) (walk-entry_at s addr v.self h present) 0,
              got2,
              got3,
            )
            refl,
        IsChange-twice _ _ s s2 s3 (IsChange-twice _ _ s s1 s2 c1 c2) c3,
        above,
        low,
      )
