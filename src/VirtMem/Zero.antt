-- ===== src/VirtMem/Zero.antt =====
-- The `memset` of a table to 0 through the recursive map.
use native.Mathlib.Decide.{ℕ_discrete}
use radix_os.Base.{
  ap, arith, false, none, refl, suc, sym, true, zero, ℕ, ◌%◌, ◌*◌, ◌+◌, ◌/◌, ◌<◌, ◌==◌, ◌^◌, ◌∙◌,
  ◌≡◌, ◌≢◌, ◌≤◌,
}
use radix_os.Exec.{done}
use radix_os.VirtMem.{VirtMem, dir_entry, walk, write, store, zero_words}
use radix_os.VirtMem.Walk.{slot, entry_at, walk-entry_at, store-at}
use radix_os.VirtMem.Store.{IsSpace}
use radix_os.VirtMem.Page.{IsChange, write-IsChange}

-- `y` is `x` without the last `n` pages of the table `i`.
pub record IsZeroed (i n : ℕ) (x y : VirtMem) : Type 0 where
  pub space : IsSpace y
  pub dir : (j : ℕ) → j < 1024 → dir_entry y j ≡ dir_entry x j
  pub phys : y.phys ≡ x.phys
  pub cr3 : y.cr3 ≡ x.cr3
  pub gone : (b : ℕ) → b < 2 ^ 32 → b / 2 ^ 22 ≡ i → 1024 ≤ b / 4096 % 1024 + n → walk y b ≡ none
  pub kept :
      (b : ℕ) → b < 2 ^ 32 → (b / 2 ^ 22 ≡ i → b / 4096 % 1024 + n < 1024) → walk y b ≡ walk x b

module _ (i : ℕ) (h : i < 1024) (other : i ≢ 768) where
  IsZeroed-more :
      (m n : ℕ)
      → m + suc n ≡ 1024
      → (x t y : VirtMem) → IsChange (i * 2 ^ 22 + m * 4096) 0 x t
      → IsZeroed i n t y
      → IsZeroed i (suc n) x y
  IsZeroed-more m n sum x t y c z =
      let page = i * 2 ^ 22 + m * 4096 in
      record {
        space = z.space;
        dir = λ j d. z.dir j d ∙ c.dir j d;
        phys = z.phys ∙ c.phys;
        cr3 = z.cr3 ∙ c.cr3;
        gone = λ b d e f. elim (ℕ_discrete (b / 4096) (page / 4096)) [
          | yes same ↦
              let here : (b / 4096 == page / 4096) ≡ true = ground arith in
              z.kept b d (λ _. omega arith) ∙ c.pages b d ∙ rw here refl
          | no ne ↦ z.gone b d e (omega arith)
        ];
        kept = λ b d e.
            let there : (b / 4096 == page / 4096) ≡ false = elim (ℕ_discrete (b / 2 ^ 22) i) [
              | yes same ↦ (let below = e same in ground arith)
              | no ne ↦ ground arith
            ] in
            z.kept b d (λ s. let below = e s in omega arith) ∙ c.pages b d ∙ rw there refl;
      }

  pub zero_words_lem :
      (n m : ℕ)
      → m + n ≡ 1024
      → (x : VirtMem) → IsSpace x
      → dir_entry x i % 2 ≡ 1
      → (y : VirtMem) × (zero_words n (0xc000_0000 + i * 4096 + 4 * m) x ≡ done y)
        × IsZeroed i n x y
  unfolding zero_words
  zero_words_lem zero m sum x v present = (
    x,
    refl,
    record {
      space = v;
      dir = λ j d. refl;
      phys = refl;
      cr3 = refl;
      gone = λ b d e f. absurd (the_lt b f);
      kept = λ b d e. refl;
    },
  )
    where
      the_lt : (b : ℕ) → ¬ 1024 ≤ b / 4096 % 1024 + 0
      the_lt b f = omega arith
  zero_words_lem (suc n) m sum x v present =
      let page = i * 2 ^ 22 + m * 4096 in
      let table : page / 2 ^ 22 ≡ i = omega arith in
      let at : 0xc000_0000 + i * 4096 + 4 * m ≡ entry_at page = omega arith in
      let there = ap (λ j. dir_entry x j % 2) table ∙ present in
      let c =
        write-IsChange page (omega arith) (λ e. other (sym table ∙ e)) x v there 0 (omega arith) in
      let t = write (slot x page) 0 x in
      let (y, got, z) =
        zero_words_lem n (m + 1) (omega arith) t c.space (ap (λ w. w % 2) (c.dir i h) ∙ present) in
      let next : 0xc000_0000 + i * 4096 + 4 * m + 4 ≡ 0xc000_0000 + i * 4096 + 4 * (m + 1) =
        omega arith in
      let stored : store (0xc000_0000 + i * 4096 + 4 * m) 0 x ≡ done t =
        ap (λ a. store a 0 x) at
        ∙ store-at x (entry_at page) (slot x page) (walk-entry_at x page v.self (omega arith) there)
            0 in
      (y, rw (stored, next) got, IsZeroed-more m n sum x t y c z)
