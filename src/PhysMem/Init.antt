-- ===== src/PhysMem/Init.antt =====
-- `phys_mem_init`
use radix_os.Base.{
  All, List, [], ap, arith, get_or, if◌then◌else◌, length, ltb, refl, suc, sym, true, zero, ℕ, ◌%◌,
  ◌*◌, ◌+◌, ◌-◌, ◌/◌, ◌<◌, ◌^◌, ◌∷◌, ◌≡◌, ◌≤◌,
}
use radix_os.Bits.{bit, bit-ones, bit-low_ones}
use radix_os.PhysMem.{
  PhysMem, block_size, word_ones, memset_ones, phys_mem_init, phys_mem_get_free_blocks_count,
}
use radix_os.PhysMem.Blocks.{used, IsValid, IsWord, count}

-- The word after `n` of its bytes, or all of it, are set.
abbrev ones_below : ℕ → ℕ → ℕ
ones_below n w = if ltb 3 n then word_ones else w / 256 ^ n * 256 ^ n + (256 ^ n - 1)

ones_below-IsWord : (n w : ℕ) → IsWord w → IsWord (ones_below n w)
ones_below-IsWord zero w h = omega arith
ones_below-IsWord (suc zero) w h = omega arith
ones_below-IsWord (suc (suc zero)) w h = omega arith
ones_below-IsWord (suc (suc (suc zero))) w h = omega arith
ones_below-IsWord (suc (suc (suc (suc n)))) w h =
    let more : ltb 3 (suc (suc (suc (suc n)))) ≡ true = ground arith in rw more (omega arith)

bit-ones_below : (n w j : ℕ) → j < 32 → j < 8 * n → bit (ones_below n w) j ≡ 1
bit-ones_below zero w j h p = absurd (omega arith)
bit-ones_below (suc zero) w j h p = bit-low_ones 8 (w / 256) j (omega arith)
bit-ones_below (suc (suc zero)) w j h p = bit-low_ones 16 (w / 256 ^ 2) j (omega arith)
bit-ones_below (suc (suc (suc zero))) w j h p = bit-low_ones 24 (w / 256 ^ 3) j (omega arith)
bit-ones_below (suc (suc (suc (suc n)))) w j h p =
    let more : ltb 3 (suc (suc (suc (suc n)))) ≡ true = ground arith in rw more (bit-ones 32 j h)

memset_ones-words : (n : ℕ) (ws : List ℕ) → All IsWord ws → All IsWord (memset_ones n ws)
unfolding memset_ones
memset_ones-words n [] h = h
memset_ones-words n (w ∷ ws) (p, h) = (ones_below-IsWord n w p, memset_ones-words (n - 4) ws h)

length-memset_ones : (n : ℕ) (ws : List ℕ) → length (memset_ones n ws) ≡ length ws
unfolding memset_ones
length-memset_ones n [] = refl
length-memset_ones n (w ∷ ws) = ap suc (length-memset_ones (n - 4) ws)

-- Bit `r` of word `i` lies in byte `4 i + r / 8`.
memset_ones-bit :
    (n i r : ℕ) (ws : List ℕ)
    → i < length ws
    → r < 32
    → 32 * i + r < 8 * n
    → bit (get_or (memset_ones n ws) i 0) r ≡ 1
unfolding memset_ones
memset_ones-bit n i r [] h p q = absurd (omega arith)
memset_ones-bit n zero r (w ∷ ws) h p q = bit-ones_below n w r p (omega arith)
memset_ones-bit n (suc i) r (w ∷ ws) h p q =
    memset_ones-bit (n - 4) i r ws (omega arith) p (omega arith)

count_all : (n : ℕ) (f : ℕ → ℕ) → ((j : ℕ) → j < n → f j ≡ 1) → count n f ≡ n
count_all zero f h = refl
count_all (suc n) f h = omega (arith, count_all n f (λ j p. h j (omega arith)), h n (omega arith))

-- For a memory of less than 4 GiB, given in KiB, of a whole number of bytes of the bitmap, and a
-- place for the bitmap that is large enough, `phys_mem_init` makes a valid state of `size / 4`
-- blocks that are all in use, so that none is free, and leaves the lock as it is.
pub phys_mem_init_lem :
    (size : ℕ) (storage : List ℕ) (s : PhysMem)
    → size < 2 ^ 22
    → size % 32 ≡ 0
    → All IsWord storage
    → size ≤ 128 * length storage
    → let t = phys_mem_init size storage s in
      IsValid t
      × (t.max_blocks ≡ size / 4)
      × ((j : ℕ) → j < size / 4 → used t j ≡ 1)
      × (phys_mem_get_free_blocks_count t ≡ 0)
      × (t.lock ≡ s.lock)
unfolding phys_mem_init phys_mem_get_free_blocks_count
phys_mem_init_lem size storage s h whole words room =
    let blocks : size * 1024 % 2 ^ 32 / block_size ≡ size / 4 = omega arith in
    let all : (j : ℕ) → j < size / 4 → used (phys_mem_init size storage s) j ≡ 1 = λ j p.
      memset_ones-bit (size * 1024 % 2 ^ 32 / block_size / 8) (j / 32) (j % 32) storage
        (omega arith) (omega arith) (omega arith) in
    (
      record {
        words = memset_ones-words (size * 1024 % 2 ^ 32 / block_size / 8) storage words;
        covered = omega (arith, length-memset_ones (size * 1024 % 2 ^ 32 / block_size / 8) storage);
        small = omega arith;
        counted = sym (count_all _ _ (λ j p. all j (omega arith)));
      },
      blocks,
      all,
      omega arith,
      refl,
    )
