-- ===== src/VirtMem/Create.antt =====
-- `virt_mem_create_table`, which takes a free frame for the table of a part of the space that has
-- none.
use radix_os.Paging.Recursive.{self_table, self_dir_entry}
use radix_os.PhysMem.Alloc.{
  phys_mem_alloc_above_lem, block, zero_block, none_above, exhausted, Allocated,
}
use native.Mathlib.Decide.{ℕ_discrete}
use mathlib.Core.Path.{fun_ext}
use radix_os.Base.{
  ap, arith, false, if◌then◌else◌, refl, sym, true, ℕ, ◌%◌, ◌*◌, ◌+◌, ◌/◌, ◌<◌, ◌==◌, ◌^◌, ◌∙◌, ◌≡◌,
  ◌≢◌,
}
use radix_os.Exec.{bind_assoc, ◌>>=◌, done}
use radix_os.Types.{ErrorT, error_ok, error_occur}
use radix_os.PhysMem.{phys_mem_alloc_above_1mb, phys_mem_alloc_above, PhysMem}
use radix_os.PhysMem.Blocks.{used}
use radix_os.PhysMem.Blocks as Blocks
use radix_os.Paging.{pd_entry_set_frame, pd_entry_add_attrib}
use radix_os.Paging.Directory.{new_table_entry}
use radix_os.VirtMem.{
  virt_mem_create_table, VirtMem, dir_entry, walk, write, update_entry, zero_words,
}
use radix_os.VirtMem.Walk.{HasSelf, dir_entry_at, walk-dir_entry_at, update_entry-at}
use radix_os.VirtMem.Store.{IsGrown, IsGrown-same, IsSpace, walk-absent}
use radix_os.VirtMem.Table.{with_table-new, with_table-IsGrown, with_table-IsSpace, with_table-walk}
use radix_os.VirtMem.Zero.{zero_words_lem}

-- The space has a table for the part `i`, which had none, and its walks are what they were.
pub record IsCreated (i : ℕ) (s y : VirtMem) : Type 0 where
  pub space : IsSpace y
  pub present : dir_entry y i % 2 ≡ 1
  pub walks : (b : ℕ) → b < 2 ^ 32 → b / 2 ^ 22 ≢ 768 → walk y b ≡ walk s b
  pub unlocked : y.phys.lock ≡ false
  pub grown : IsGrown s y
  pub cr3 : y.cr3 ≡ s.cr3

pub data Created (i : ℕ) (s : VirtMem) (error : ErrorT) (t : VirtMem) : Type 0 where
  no_memory :
      (p : PhysMem)
      → error ≡ error_occur
      → t ≡ record s { phys = p }
      → ((j : ℕ) → used p j ≡ used s.phys j)
      → Created i s error t
  with_new : error ≡ error_ok → IsCreated i s t → Created i s error t

write-twice : (a w w' : ℕ) (s : VirtMem) → write a w (write a w' s) ≡ write a w s
write-twice a w w' s = ap (λ r. record s { ram = r }) (fun_ext (λ b. ground arith))

update_dir_entry :
    (i : ℕ)
    → i < 1024
    → (s : VirtMem) → HasSelf s
    → (f : ℕ → ℕ)
    → update_entry f (dir_entry_at i) s ≡ done (write (s.cr3 + 4 * i) (f (dir_entry s i)) s)
update_dir_entry i h s self f =
    update_entry-at s (dir_entry_at i) (s.cr3 + 4 * i) (walk-dir_entry_at s i self h) f

module _ (s : VirtMem) (v : IsSpace s) (addr : ℕ) (h : addr < 2 ^ 32) (other : addr / 2 ^ 22 ≢ 768)
    (absent : dir_entry s (addr / 2 ^ 22) % 2 ≡ 0) (flags : ℕ) (few : flags < 4096)
    (odd : flags % 2 ≡ 1) where
  -- the first of the two writes of the entry leaves that of the directory
  HasSelf-written :
      (p : PhysMem) (w : ℕ)
      → HasSelf (write (s.cr3 + 4 * (addr / 2 ^ 22)) w (record s { phys = p }))
  HasSelf-written p w =
      let same : (s.cr3 + 4 * 768 == s.cr3 + 4 * (addr / 2 ^ 22)) ≡ false = ground (arith, other) in
      record {
        aligned = v.self.aligned;
        small = v.self.small;
        present = rw same v.self.present;
        frame = rw same v.self.frame;
      }

  HasSelf-phys : (p : PhysMem) → HasSelf (record s { phys = p })
  HasSelf-phys p = record {
    aligned = v.self.aligned;
    small = v.self.small;
    present = v.self.present;
    frame = v.self.frame;
  }

  module _ (p : PhysMem) (f : ℕ) (d : f < 2 ^ 20) (free : used s.phys f ≡ 0)
      (change : (j : ℕ) → used p j ≡ (if f == j then 1 else used s.phys j))
      (unlocked : p.lock ≡ false) (valid : Blocks.IsValid p)
      (same_size : p.max_blocks ≡ s.phys.max_blocks) where
    abbrev index : ℕ
    index = addr / 2 ^ 22

    abbrev framed : ℕ
    framed = pd_entry_set_frame (dir_entry s index) (f * 4096)

    abbrev linked : VirtMem
    linked = write (s.cr3 + 4 * index) (pd_entry_add_attrib framed flags) (record s { phys = p })

    link :
        (update_entry
            (λ w. pd_entry_set_frame w (f * 4096))
            (dir_entry_at index)
            (record s { phys = p })
          >>= λ u. update_entry (λ w. pd_entry_add_attrib w flags) (dir_entry_at index) u)
        ≡ done linked
    link =
        let t = record s { phys = p } in
        let a = s.cr3 + 4 * index in
        let u = write a framed t in
        let here : (a == a) ≡ true = ground arith in
        rw
          (update_dir_entry index (omega arith) t (HasSelf-phys p)
            (λ w. pd_entry_set_frame w (f * 4096)))
          (update_dir_entry index (omega arith) u (HasSelf-written p framed)
              (λ w. pd_entry_add_attrib w flags)
            ∙ ap (λ w. done (write a w u)) (rw here refl)
            ∙ ap done (write-twice a (pd_entry_add_attrib framed flags) framed t))

    cleared :
        (y : VirtMem) × (zero_words 1024 (0xc000_0000 + index * 4096) linked ≡ done y)
        × IsCreated index s y
    cleared =
        let (_, small, frame, present) = new_table_entry (dir_entry s index) f flags d few odd in
        let w = pd_entry_add_attrib framed flags in
        let new =
          with_table-new s v p index f w (omega arith) other absent small frame present free change
            valid in
        let is_there = ap (λ x. x % 2) new ∙ present in
        let space =
          with_table-IsSpace s v p index f w (omega arith) other absent small frame present free
            change valid in
        let (y, got, z) =
          zero_words_lem index (omega arith) other 1024 0 refl linked space is_there in
        (
          y,
          ap (λ a. zero_words 1024 a linked) (omega arith) ∙ got,
          record {
            space = z.space;
            present = ap (λ x. x % 2) (z.dir index (omega arith)) ∙ is_there;
            walks = λ b e ne. elim (ℕ_discrete (b / 2 ^ 22) index) [
              | yes same ↦
                  z.gone b e same (omega arith)
                  ∙ sym (walk-absent s b (ap (λ j. dir_entry s j % 2) same ∙ absent))
              | no apart ↦
                  z.kept b e (λ same. absurd (apart same))
                  ∙ with_table-walk s v p index f w (omega arith) other absent small frame present
                      free change valid b e apart ne
            ];
            unlocked = ap (λ q. q.lock) z.phys ∙ unlocked;
            grown =
                IsGrown-same s linked y
                  (with_table-IsGrown s v p index f w (omega arith) other absent small frame present
                    free change valid same_size)
                  z.phys z.dir;
            cr3 = z.cr3;
          },
        )

  abbrev Outcome : Type 0
  Outcome =
      (error : ErrorT) × (t : VirtMem) × (virt_mem_create_table 0xc000_0000 addr flags s
        ≡ done (error, t))
      × Created (addr / 2 ^ 22) s error t

  some_entry : (dir_entry_at (addr / 2 ^ 22) == 0) ≡ false
  some_entry = ground arith

  -- the four ways of the allocator
  failed :
      (p : PhysMem)
      → ((j : ℕ) → used p j ≡ used s.phys j)
      → phys_mem_alloc_above 0x10_0000 s.phys ≡ done (0, p)
      → Outcome
  unfolding virt_mem_create_table phys_mem_alloc_above_1mb
  failed p same got = (
    error_occur,
    record s { phys = p },
    rw (self_dir_entry addr h, some_entry, got) refl,
    no_memory p refl refl same,
  )

  made :
      (p : PhysMem) (f : ℕ)
      → f < 2 ^ 20
      → 0 < f
      → used s.phys f ≡ 0
      → ((j : ℕ) → used p j ≡ (if f == j then 1 else used s.phys j))
      → p.lock ≡ false
      → Blocks.IsValid p
      → p.max_blocks ≡ s.phys.max_blocks
      → phys_mem_alloc_above 0x10_0000 s.phys ≡ done (f * 4096, p)
      → Outcome
  unfolding virt_mem_create_table phys_mem_alloc_above_1mb
  made p f d pos free change unlocked valid same_size got =
      let (y, zeroed, c) = cleared p f d free change unlocked valid same_size in
      let t = record s { phys = p } in
      let some_frame : (f * 4096 == 0) ≡ false = ground arith in
      (
        error_ok,
        y,
        rw (self_dir_entry addr h, some_entry, got, some_frame, self_table addr h)
            (sym (
                bind_assoc
                  (update_entry (λ w. pd_entry_set_frame w (f * 4096))
                    (dir_entry_at (addr / 2 ^ 22)) t)
                  (λ u.
                    update_entry (λ w. pd_entry_add_attrib w flags) (dir_entry_at (addr / 2 ^ 22))
                      u)
                  (λ x. zero_words 1024 (0xc000_0000 + addr / 2 ^ 22 * 4096) x >>= λ z.
                    done (error_ok, z)))
              ∙ ap
                  (λ m. m >>= λ x. zero_words 1024 (0xc000_0000 + addr / 2 ^ 22 * 4096) x >>= λ z.
                    done (error_ok, z))
                  (link p f d free change unlocked valid same_size)
              ∙ rw zeroed refl),
        with_new refl c,
      )

  pub virt_mem_create_table_lem : s.phys.lock ≡ false → Outcome
  virt_mem_create_table_lem unlocked =
      let (a, p, got, way) =
        phys_mem_alloc_above_lem 0x10_0000 s.phys v.phys unlocked (omega arith) in
      by_way a p got way
    where
      by_way :
          (a : ℕ) (p : PhysMem)
          → phys_mem_alloc_above 0x10_0000 s.phys ≡ done (a, p)
          → Allocated 0x10_0000 s.phys a p
          → Outcome
      by_way a p got (exhausted _ e same) =
          failed p (λ j. ap (λ q. used q j) same) (got ∙ ap (λ x. done (x, p)) e)
      by_way a p got (none_above _ e same _) =
          failed p (λ j. ap (λ q. used q j) same) (got ∙ ap (λ x. done (x, p)) e)
      by_way a p got (zero_block _ e same _ _) =
          failed p (λ j. ap (λ q. used q j) same) (got ∙ ap (λ x. done (x, p)) e)
      by_way a p got (block f pos inside _ e free _ change size freed valid) =
          made p f (omega (arith, v.phys.small)) pos free change freed valid size
            (got ∙ ap (λ x. done (x, p)) e)
