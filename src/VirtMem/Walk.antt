-- ===== src/VirtMem/Walk.antt =====
-- Where the entries of the tables are found through the recursive map.
use radix_os.Base.{ap, ap₂, arith, none, refl, some, ℕ, ◌%◌, ◌*◌, ◌+◌, ◌/◌, ◌<◌, ◌^◌, ◌∙◌, ◌≡◌}
use radix_os.Exec.{panicked, done}
use radix_os.VirtMem.{VirtMem, dir_entry, walk, load, store, write, update_entry}

-- The entry 768 of the directory is for the directory itself.
pub record HasSelf (s : VirtMem) : Type 0 where
  pub aligned : s.cr3 % 4096 ≡ 0
  pub small : s.cr3 < 2 ^ 32
  pub present : dir_entry s 768 % 2 ≡ 1
  pub frame : dir_entry s 768 / 4096 * 4096 ≡ s.cr3

-- the addresses at which the entry of a page and that of a table are seen
abbrev pub entry_at : ℕ → ℕ
entry_at addr = 0xc000_0000 + 4 * (addr / 4096)

abbrev pub dir_entry_at : ℕ → ℕ
dir_entry_at i = 0xc030_0000 + 4 * i

-- where the entry of the page of an address stands in memory
abbrev pub slot : VirtMem → ℕ → ℕ
slot s addr = dir_entry s (addr / 2 ^ 22) / 4096 * 4096 + 4 * (addr / 4096 % 1024)

pub walk-entry_at :
    (s : VirtMem) (addr : ℕ)
    → HasSelf s
    → addr < 2 ^ 32
    → dir_entry s (addr / 2 ^ 22) % 2 ≡ 1
    → walk s (entry_at addr) ≡ some (slot s addr)
unfolding walk
walk-entry_at s addr v h present =
    let dir : entry_at addr / 2 ^ 22 ≡ 768 = omega arith in
    let table : entry_at addr / 4096 % 1024 ≡ addr / 2 ^ 22 = omega arith in
    let offset : entry_at addr % 4096 ≡ 4 * (addr / 4096 % 1024) = omega arith in
    rw (dir, v.present, v.frame, table, present, offset) refl

pub walk-entry_absent :
    (s : VirtMem) (addr : ℕ)
    → HasSelf s
    → addr < 2 ^ 32
    → dir_entry s (addr / 2 ^ 22) % 2 ≡ 0
    → walk s (entry_at addr) ≡ none
unfolding walk
walk-entry_absent s addr v h absent =
    let dir : entry_at addr / 2 ^ 22 ≡ 768 = omega arith in
    let table : entry_at addr / 4096 % 1024 ≡ addr / 2 ^ 22 = omega arith in
    rw (dir, v.present, v.frame, table, absent) refl

pub walk-dir_entry_at :
    (s : VirtMem) (i : ℕ) → HasSelf s → i < 1024 → walk s (dir_entry_at i) ≡ some (s.cr3 + 4 * i)
walk-dir_entry_at s i v h =
    let addr = 0xc000_0000 + 4096 * i in
    let dir : addr / 2 ^ 22 ≡ 768 = omega arith in
    let at : dir_entry_at i ≡ entry_at addr = omega arith in
    let page : addr / 4096 % 1024 ≡ i = omega arith in
    ap (walk s) at
    ∙ walk-entry_at s addr v (omega arith) (ap (λ d. dir_entry s d % 2) dir ∙ v.present)
    ∙ ap (λ d. some (dir_entry s d / 4096 * 4096 + 4 * (addr / 4096 % 1024))) dir
    ∙ ap₂ (λ x y. some (x + 4 * y)) v.frame page

pub load-fault : (s : VirtMem) (addr : ℕ) → walk s addr ≡ none → load addr s ≡ panicked
unfolding load
load-fault s addr e = rw (e, load) refl

-- A load, a store and an update of an entry where the walk comes to a word of memory.
module _ (s : VirtMem) (addr a : ℕ) (at : walk s addr ≡ some a) where
  pub load-at : load addr s ≡ done (s.ram a)
  unfolding load
  load-at = rw (at, load) refl

  pub store-at : (w : ℕ) → store addr w s ≡ done (write a w s)
  unfolding store
  store-at w = rw (at, store) refl

  pub update_entry-at : (f : ℕ → ℕ) → update_entry f addr s ≡ done (write a (f (s.ram a)) s)
  unfolding update_entry
  update_entry-at f = rw load-at (store-at (f (s.ram a)))
