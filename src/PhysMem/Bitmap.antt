-- ===== src/PhysMem/Bitmap.antt =====
-- The bitmap as words against the bytes of memory: what `phys_mem_init` makes of it by memset of
-- kernel/libk/utility.c.
use radix_os.Base.{
  List, [], arith, if◌then◌else◌, ltb, suc, zero, ℕ, ◌*◌, ◌+◌, ◌-◌, ◌/◌, ◌<◌, ◌^◌, ◌∙◌, ◌∷◌, ◌≡◌,
  ◌≤◌,
}
use radix_os.Memory.{Bytes, get_word, memset}
use radix_os.Memory.Set.{memset_lem}
use radix_os.PhysMem.{memset_ones, word_ones}

-- The words stand in memory from `a` on.
abbrev pub Stands : ℕ → List ℕ → Bytes → Type 0
unfolding get_word
Stands a [] m = Unit
Stands a (w ∷ ws) m = (get_word a m ≡ w) × Stands (a + 4) ws m

-- a word the lowest `n` bytes of which are set
word_after :
    (n w a b c d a' b' c' d' : ℕ)
    → a < 256
    → b < 256
    → c < 256
    → d < 256
    → a + 2 ^ 8 * b + 2 ^ 16 * c + 2 ^ 24 * d ≡ w
    → a' ≡ (if ltb 0 n then 255 else a)
    → b' ≡ (if ltb 1 n then 255 else b)
    → c' ≡ (if ltb 2 n then 255 else c)
    → d' ≡ (if ltb 3 n then 255 else d)
    → a' + 2 ^ 8 * b' + 2 ^ 16 * c' + 2 ^ 24 * d'
      ≡ (if ltb 3 n then word_ones else w / 256 ^ n * 256 ^ n + (256 ^ n - 1))
word_after zero w a b c d a' b' c' d' pa pb pc pd e ea eb ec ed = omega arith
word_after (suc zero) w a b c d a' b' c' d' pa pb pc pd e ea eb ec ed = omega arith
word_after (suc (suc zero)) w a b c d a' b' c' d' pa pb pc pd e ea eb ec ed = omega arith
word_after (suc (suc (suc zero))) w a b c d a' b' c' d' pa pb pc pd e ea eb ec ed = omega arith
word_after (suc (suc (suc (suc n)))) w a b c d a' b' c' d' pa pb pc pd e ea eb ec ed = ground arith

ones_from :
    (n a : ℕ) (ws : List ℕ) (m m' : Bytes)
    → ((i : ℕ) → m i < 256)
    → ((i : ℕ) → a ≤ i → m' i ≡ (if ltb i (a + n) then 255 else m i))
    → Stands a ws m
    → Stands a (memset_ones n ws) m'
unfolding memset_ones get_word
ones_from n a [] m m' small same h = tt
ones_from n a (w ∷ ws) m m' small same (e, h) = (
  word_after n w (m a) (m (a + 1)) (m (a + 2)) (m (a + 3)) (m' a) (m' (a + 1)) (m' (a + 2))
      (m' (a + 3)) (small a) (small (a + 1)) (small (a + 2)) (small (a + 3)) e
      (same a (omega arith) ∙ ground arith) (same (a + 1) (omega arith) ∙ ground arith)
      (same (a + 2) (omega arith) ∙ ground arith) (same (a + 3) (omega arith) ∙ ground arith),
  ones_from (n - 4) (a + 4) ws m m' small (λ i le. same i (omega arith) ∙ ground arith) h,
)

-- Where words stand in memory, `memset` of `n` bytes from there on to 0xff makes the words of
-- `memset_ones` of them.
pub memset_ones-memset :
    (base n : ℕ) (ws : List ℕ) (m : Bytes)
    → ((i : ℕ) → m i < 256)
    → Stands base ws m
    → Stands base (memset_ones n ws) (memset base 0xff n m)
memset_ones-memset base n ws m small =
    ones_from n base ws m (memset base 0xff n m) small
      (λ i le. memset_lem base 0xff n m i (omega arith) ∙ ground arith)
