-- ===== src/PhysMem/Invariant.antt =====
-- `mmap_set` and `mmap_unset`, each with the step of the counter that goes with it, keep the
-- invariant of the bitmap.
use radix_os.Bits.{bit_and-lt, pow_lt, bit_or-lt}
use radix_os.Base.{
  All-set, Bool, arith, length, length-set, ℕ, ◌%◌, ◌*◌, ◌+◌, ◌-◌, ◌/◌, ◌<◌, ◌^◌, ◌≡◌,
}
use radix_os.PhysMem.{bit_and, bit_or, PhysMem, word_at, mmap_set, mmap_unset}
use radix_os.PhysMem.Blocks.{
  used, IsValid, IsWord, used-lt, used-mmap_set, used-mmap_unset, count_update, count_le, count_pos,
}
use radix_os.PhysMem.FirstFree.{word_is_word}

module _ (s : PhysMem) (f : ℕ) (v : IsValid s) (inside : f < s.max_blocks) where
  pub bound : f < 32 * length s.bitmap
  bound = omega (arith, v.covered)

  -- A free block that becomes used is counted once more.
  pub mmap_set-IsValid :
      (l : Bool)
      → used s f ≡ 0
      → IsValid (record (mmap_set f s) { used_blocks = (s.used_blocks + 1) % 2 ^ 32; lock = l })
  unfolding mmap_set
  mmap_set-IsValid l free =
      let g = used (mmap_set f s) in
      let more = count_update s.max_blocks f (used s) g 1 (used-mmap_set s f bound) in
      record {
        words = All-set IsWord s.bitmap (f / 32) _ v.words (
            bit_or-lt 32 (word_at s (f / 32)) (2 ^ (f % 32)) (word_is_word s v.words (f / 32))
              (pow_lt (f % 32) 32 (omega arith)));
        covered = omega (
          arith,
          v.covered,
          length-set {0} s.bitmap (f / 32) (bit_or (word_at s (f / 32)) (2 ^ (f % 32))),
        );
        small = v.small;
        counted =
            ground (arith, more, v.counted, v.small, count_le s.max_blocks (used s) (used-lt s));
      }

  -- A used block that becomes free is counted once less.
  pub mmap_unset-IsValid :
      (l : Bool)
      → used s f ≡ 1
      → IsValid (record (mmap_unset f s) {
        used_blocks = (s.used_blocks + 2 ^ 32 - 1) % 2 ^ 32;
        lock = l;
      })
  unfolding mmap_unset
  mmap_unset-IsValid l taken =
      let g = used (mmap_unset f s) in
      let less = count_update s.max_blocks f (used s) g 0 (used-mmap_unset s f bound) in
      record {
        words = All-set IsWord s.bitmap (f / 32) _ v.words (
            bit_and-lt 32 (word_at s (f / 32)) (2 ^ 32 - 1 - 2 ^ (f % 32))
              (word_is_word s v.words (f / 32)));
        covered = omega (
          arith,
          v.covered,
          length-set {0} s.bitmap (f / 32)
              (bit_and (word_at s (f / 32)) (2 ^ 32 - 1 - 2 ^ (f % 32))),
        );
        small = v.small;
        counted = ground (
          arith,
          less,
          v.counted,
          v.small,
          count_le s.max_blocks (used s) (used-lt s),
          count_pos s.max_blocks f (used s) inside taken,
        );
      }
