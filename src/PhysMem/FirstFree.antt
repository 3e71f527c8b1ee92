-- ===== src/PhysMem/FirstFree.antt =====
-- `mmap_first_free` returns the first free block of its range.
use native.Mathlib.Decide.{dec_le, dec_lt, ℕ_discrete}
use Prim.Native.Nat.{bit_and}
use radix_os.Base.{
  ==_iff, All, All-get_or, Bool-cases, Option, ap, arith, false, inl, inr, none, refl, some, suc,
  zero, ℕ, ◌%◌, ◌*◌, ◌+◌, ◌-◌, ◌/◌, ◌<◌, ◌==◌, ◌^◌, ◌∙◌, ◌≡◌, ◌≤◌, ◌⊎◌,
}
use radix_os.Bits.{bit, bit-lt, bit-ones, bit_and-pow, eq_ones, pow_pos}
use radix_os.PhysMem.{PhysMem, word_at, word_ones, scan_bits, scan_words, mmap_first_free}
use radix_os.PhysMem.Blocks.{used, IsWord}

-- What a scan of the bits from `j` to below `j + k` may return.
abbrev Scanned : ℕ → ℕ → ℕ → Option ℕ → Type 0
Scanned w j e none = (i : ℕ) → j ≤ i → i < e → bit w i ≡ 1
Scanned w j e (some b) = (j ≤ b) × (b < e) × (bit w b ≡ 0) × ((i : ℕ) → j ≤ i → i < b → bit w i ≡ 1)

scan_bits_lem : (k w j e : ℕ) → e ≡ j + k → Scanned w j e (scan_bits k w j)
unfolding scan_bits
scan_bits_lem zero w j e h = λ i p q. absurd (omega arith)
scan_bits_lem (suc k) w j e h = elim (Bool-cases (bit_and w (2 ^ j) == 0)) [
  | inl free ↦ rw free (
    omega arith,
    omega arith,
    ground (arith, bit_and-pow w j, bit-lt w j, pow_pos j),
    λ i p q. absurd (omega arith),
  )
  | inr taken ↦
      let one : bit w j ≡ 1 = ground (arith, bit_and-pow w j, bit-lt w j, pow_pos j) in
      rw taken (extend (scan_bits k w (j + 1)) one (scan_bits_lem k w (j + 1) e (omega arith)))
]
  where
    extend : (o : Option ℕ) → bit w j ≡ 1 → Scanned w (j + 1) e o → Scanned w j e o
    extend none one rest = λ i p q. elim (ℕ_discrete i j) [
      | yes same ↦ rw same one
      | no other ↦ rest i (omega arith) q
    ]
    extend (some b) one (p, q, z, before) = (
      omega arith,
      q,
      z,
      λ i r t. elim (ℕ_discrete i j) [
        | yes same ↦ rw same one
        | no other ↦ before i (omega arith) t
      ],
    )

-- The first free block from `lo` to below `hi` is `f`, or there is none and `f` is 0.
abbrev pub FirstFree : PhysMem → ℕ → ℕ → ℕ → Type 0
FirstFree s lo hi f =
    ((lo ≤ f) × (f < hi) × (used s f ≡ 0) × ((j : ℕ) → lo ≤ j → j < f → used s j ≡ 1))
    ⊎ ((f ≡ 0) × ((j : ℕ) → lo ≤ j → j < hi → used s j ≡ 1))

module _ (s : PhysMem) (words : All IsWord s.bitmap) where
  used_word : (i j : ℕ) → j / 32 ≡ i → used s j ≡ bit (word_at s i) (j % 32)
  used_word i j e = rw e

  pub word_is_word : (i : ℕ) → word_at s i < 2 ^ 32
  word_is_word i = All-get_or IsWord s.bitmap i 0 words (omega arith)

  -- past a word that is full
  skip_word :
      (i hi f : ℕ)
      → 32 * (i + 1) ≤ hi
      → ((r : ℕ) → r < 32 → bit (word_at s i) r ≡ 1)
      → FirstFree s (32 * (i + 1)) hi f
      → FirstFree s (32 * i) hi f
  skip_word i hi f room full (inl (p, q, z, before)) = inl (omega arith, q, z, λ j a b. go j a b)
    where
      go : (j : ℕ) → 32 * i ≤ j → j < f → used s j ≡ 1
      go j a b = elim (dec_lt j (32 * (i + 1))) [
        | yes here ↦ used_word i j (omega arith) ∙ full (j % 32) (omega arith)
        | no later ↦ before j (omega arith) b
      ]
  skip_word i hi f room full (inr (z, rest)) = inr (z, λ j a b. go j a b)
    where
      go : (j : ℕ) → 32 * i ≤ j → j < hi → used s j ≡ 1
      go j a b = elim (dec_lt j (32 * (i + 1))) [
        | yes here ↦ used_word i j (omega arith) ∙ full (j % 32) (omega arith)
        | no later ↦ rest j (omega arith) b
      ]

  -- in a word that is not full
  in_word :
      (i hi f : ℕ) (o : Option ℕ)
      → 32 * (i + 1) ≤ hi
      → Scanned (word_at s i) 0 32 o
      → (word_at s i == word_ones) ≡ false
      → FirstFree s (32 * i) hi (elim o [ some j ↦ i * 32 + j | none ↦ f ])
  in_word i hi f none room full ne = absurd (
      cc (
        (==_iff (word_at s i) word_ones).1
          (eq_ones 32 (word_at s i) (word_is_word i) (λ j q. full j (omega arith) q))))
  in_word i hi f (some b) room (p, q, z, before) ne = inl (
    omega arith,
    omega arith,
    used_word i (i * 32 + b) (omega arith) ∙ ap (bit (word_at s i)) (omega arith) ∙ z,
    λ j a c. used_word i j (omega arith) ∙ before (j % 32) (omega arith) (omega arith),
  )

  scan_words_lem : (k i hi : ℕ) → hi ≡ 32 * (i + k) → FirstFree s (32 * i) hi (scan_words k s i)
  unfolding scan_words
  scan_words_lem zero i hi h = inr (refl, λ j a b. absurd (omega arith))
  scan_words_lem (suc k) i hi h = elim (Bool-cases (word_at s i == word_ones)) [
    | inl full ↦
        let e : word_at s i ≡ word_ones = (==_iff (word_at s i) word_ones).0 full in
        rw full (
          skip_word i hi _ (omega arith) (λ r q. rw e (bit-ones 32 r q))
            (scan_words_lem k (i + 1) hi (omega arith)))
    | inr other ↦ rw other (
        in_word i hi (scan_words k s (i + 1)) (scan_bits 32 (word_at s i) 0) (omega arith)
          (scan_bits_lem 32 (word_at s i) 0 32 refl) other)
  ]

  -- From block `32 * blk_index` to the last whole word of blocks.
  pub mmap_first_free_lem :
      (blk_index : ℕ)
      → FirstFree s (32 * blk_index) (32 * (s.max_blocks / 32)) (mmap_first_free blk_index s)
  unfolding mmap_first_free scan_words
  mmap_first_free_lem i = elim (dec_le i (s.max_blocks / 32)) [
    | yes h ↦ scan_words_lem (s.max_blocks / 32 - i) i _ (omega arith)
    | no h ↦
        let none_left : s.max_blocks / 32 - i ≡ 0 = omega arith in
        rw none_left (inr (refl, λ j a b. absurd (omega arith)))
  ]
