-- ===== src/PhysMem/Blocks.antt =====
-- The bitmap as a set of blocks: what `mmap_set`, `mmap_unset` and `mmap_test` do to it, and the
-- invariant that the counter of used blocks keeps.
use native.Mathlib.Decide.{ℕ_discrete}
use Prim.Native.Nat.{bit_and, bit_or}
use radix_os.Base.{
  All, ap, arith, false, get_or-set, if◌then◌else◌, length, ltb, suc, zero, ℕ, ◌%◌, ◌*◌, ◌+◌, ◌-◌,
  ◌/◌, ◌<◌, ◌==◌, ◌^◌, ◌≡◌, ◌≤◌,
}
use radix_os.Bits.{
  bit, bit-lt, bit-bit_or, bit-bit_and, bit-pow, bit-complement, bit_and-pow, pow_pos,
}
use radix_os.PhysMem.{PhysMem, word_at, mmap_set, mmap_unset, mmap_test}

-- 1 if block `i` is in use, else 0
abbrev pub used : PhysMem → ℕ → ℕ
used s i = bit (word_at s (i / 32)) (i % 32)

-- how many of the blocks below `n` are in use
abbrev pub count : ℕ → (ℕ → ℕ) → ℕ
count zero f = 0
count (suc n) f = count n f + f n

abbrev pub IsWord : ℕ → Type 0
IsWord w = w < 2 ^ 32

-- The blocks fit into the bitmap, which consists of words; there are at most 2^20 of them, and the
-- counter counts those in use.
pub record IsValid (s : PhysMem) : Type 0 where
  pub words : All IsWord s.bitmap
  pub covered : s.max_blocks ≤ 32 * length s.bitmap
  pub small : s.max_blocks ≤ 2 ^ 20
  pub counted : s.used_blocks ≡ count s.max_blocks (used s)

pub used-lt : (s : PhysMem) (i : ℕ) → used s i < 2
used-lt s i = bit-lt (word_at s (i / 32)) (i % 32)

same_block : (i j : ℕ) → (i == j) ≡ (if i / 32 == j / 32 then i % 32 == j % 32 else false)
same_block i j = ground arith

module _ (s : PhysMem) (i : ℕ) (h : i < 32 * length s.bitmap) where
  pub used-mmap_set : (j : ℕ) → used (mmap_set i s) j ≡ (if i == j then 1 else used s j)
  unfolding mmap_set
  used-mmap_set j =
      rw
        (get_or-set s.bitmap (i / 32) (j / 32) (bit_or (word_at s (i / 32)) (2 ^ (i % 32))) 0
          (omega arith))
        (ground (
          arith,
          bit-bit_or (word_at s (i / 32)) (2 ^ (i % 32)) (j % 32),
          bit-pow (i % 32) (j % 32),
          used-lt s j,
        ))

  pub used-mmap_unset : (j : ℕ) → used (mmap_unset i s) j ≡ (if i == j then 0 else used s j)
  unfolding mmap_unset
  used-mmap_unset j =
      rw
        (get_or-set s.bitmap (i / 32) (j / 32)
          (bit_and (word_at s (i / 32)) (2 ^ 32 - 1 - 2 ^ (i % 32))) 0 (omega arith))
        (ground (
          arith,
          bit-bit_and (word_at s (i / 32)) (2 ^ 32 - 1 - 2 ^ (i % 32)) (j % 32),
          bit-complement 32 (i % 32) (j % 32) (omega arith) (omega arith),
          used-lt s j,
        ))

pub mmap_test_lem : (i : ℕ) (s : PhysMem) → mmap_test i s ≡ (used s i == 1)
unfolding mmap_test
mmap_test_lem i s =
    ground (arith, bit_and-pow (word_at s (i / 32)) (i % 32), used-lt s i, pow_pos (i % 32))

-- A change of one block changes the count by as much.
pub count_update :
    (n i : ℕ) (f g : ℕ → ℕ) (v : ℕ)
    → ((j : ℕ) → g j ≡ (if i == j then v else f j))
    → count n g + (if ltb i n then f i else 0) ≡ count n f + (if ltb i n then v else 0)
count_update zero i f g v h = ground arith
count_update (suc n) i f g v h = ground (arith, count_update n i f g v h, h n)

pub count_le : (n : ℕ) (f : ℕ → ℕ) → ((j : ℕ) → f j < 2) → count n f ≤ n
count_le zero f h = omega arith
count_le (suc n) f h = omega (arith, count_le n f h, h n)

pub count_lt : (n i : ℕ) (f : ℕ → ℕ) → ((j : ℕ) → f j < 2) → i < n → f i ≡ 0 → count n f < n
count_lt zero i f h p e = absurd (omega arith)
count_lt (suc n) i f h p e = elim (ℕ_discrete i n) [
  | yes q ↦ omega (arith, count_le n f h, ap f q)
  | no q ↦ omega (arith, count_lt n i f h (omega arith) e, h n)
]

pub count_pos : (n i : ℕ) (f : ℕ → ℕ) → i < n → f i ≡ 1 → 0 < count n f
count_pos zero i f p e = absurd (omega arith)
count_pos (suc n) i f p e = elim (ℕ_discrete i n) [
  | yes q ↦ omega (arith, ap f q)
  | no q ↦ omega (arith, count_pos n i f (omega arith) e)
]
