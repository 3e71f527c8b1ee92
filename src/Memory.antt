-- ===== src/Memory.antt =====
-- kernel/libk/utility.c: memset and memcpy, on memory as bytes by address. Both go by bytes up to a
-- multiple of four and then by words, the lowest byte of a word first.
pub mod Set
pub mod Copy
pub mod Tests
use Prim.Native.Nat.{bit_and, bit_or}
use radix_os.Base.{
  ==_iff, All, All-append, All-get_or, All-imp, All-middle, All-set, Any, Any-left, Any-right, Bool,
  Bool-cases, List, Option, Option-cases, Ordering, [], ap, append-nil, append_assoc, ap₂, arith,
  compare, compare-cases, drop, false, get_elem?, get_elem?-set_ne, get_elem?-set_self, get_or,
  get_or-set, if◌then◌else◌, inl, inr, leb, length, length-append, length-drop, length-map,
  length-replicate, length-set, length-take, le→ltb, ltb, ltb→le, ltb→lt, lt→ltb, map, max, min,
  none, not, refl, replicate, set, some, subst, suc, sym, take, take-append-drop, true, zero, ℕ,
  ◌%◌, ◌&&◌, ◌*◌, ◌++◌, ◌+◌, ◌-◌, ◌/◌, ◌<◌, ◌==◌, ◌>>=◌, ◌^◌, ◌||◌, ◌↔◌, ◌∙◌, ◌∷◌, ◌≡◌, ◌≢◌, ◌≤◌,
  ◌⊎◌,
}

abbrev pub Bytes : Type 0
Bytes = ℕ → ℕ

unfoldable pub put_byte : ℕ → ℕ → Bytes → Bytes
put_byte a c m = λ b. if b == a then c else m b

pub put_word : ℕ → ℕ → Bytes → Bytes
unfolding put_byte
put_word a w m = put_byte (a + 3) (w / 2 ^ 24 % 256) (
    put_byte (a + 2) (w / 2 ^ 16 % 256)
      (put_byte (a + 1) (w / 2 ^ 8 % 256) (put_byte a (w % 256) m)))

unfoldable pub get_word : ℕ → Bytes → ℕ
get_word a m = m a + 2 ^ 8 * m (a + 1) + 2 ^ 16 * m (a + 2) + 2 ^ 24 * m (a + 3)

-- the two loops, with the rounds left
pub set_bytes : ℕ → ℕ → ℕ → Bytes → Bytes
set_bytes zero ptr val m = m
set_bytes (suc n) ptr val m = set_bytes n (ptr + 1) val (put_byte ptr val m)

pub set_words : ℕ → ℕ → ℕ → ℕ → Bytes → Bytes
set_words zero i new_ptr val32 m = m
set_words (suc n) i new_ptr val32 m =
    set_words n (i + 1) new_ptr val32 (put_word (new_ptr + 4 * i) val32 m)

-- the byte in all four places
pub word_of : ℕ → ℕ
word_of val =
    bit_or
      (bit_or (bit_or (bit_and val 0xff) (bit_and (val * 2 ^ 8 % 2 ^ 32) 0xff00))
        (bit_and (val * 2 ^ 16 % 2 ^ 32) 0xff_0000))
      (bit_and (val * 2 ^ 24 % 2 ^ 32) 0xff00_0000)

pub memset : ℕ → ℕ → ℕ → Bytes → Bytes
memset base val length m =
    let index = length % 4 in
    set_words ((length - index) / 4) 0 (base + index) (word_of val) (set_bytes index base val m)

pub copy_bytes : ℕ → ℕ → ℕ → Bytes → Bytes
copy_bytes zero ptr_d ptr_s m = m
copy_bytes (suc n) ptr_d ptr_s m = copy_bytes n (ptr_d + 1) (ptr_s + 1) (put_byte ptr_d (m ptr_s) m)

pub copy_words : ℕ → ℕ → ℕ → ℕ → Bytes → Bytes
copy_words zero i new_ptr_d new_ptr_s m = m
copy_words (suc n) i new_ptr_d new_ptr_s m =
    copy_words n (i + 1) new_ptr_d new_ptr_s
      (put_word (new_ptr_d + 4 * i) (get_word (new_ptr_s + 4 * i) m) m)

pub memcpy : ℕ → ℕ → ℕ → Bytes → Bytes
memcpy dest source length m =
    let index = length % 4 in
    copy_words ((length - index) / 4) 0 (dest + index) (source + index)
      (copy_bytes index dest source m)
