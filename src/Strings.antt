-- ===== src/Strings.antt =====
-- kernel/libk/string.c: strings in memory, each ended by a byte 0. A loop runs on fuel, and is
-- `none` where the fuel is not enough; an `int` is taken modulo 2^32.
pub mod Length
pub mod Compare
pub mod Copy
pub mod Find
pub mod Tests
use radix_os.Base.{
  ==_iff, All, All-append, All-get_or, All-imp, All-middle, All-set, Any, Any-left, Any-right, Bool,
  Bool-cases, List, Option, Option-cases, Ordering, [], ap, append-nil, append_assoc, ap₂, arith,
  compare, compare-cases, drop, false, get_elem?, get_elem?-set_ne, get_elem?-set_self, get_or,
  get_or-set, if◌then◌else◌, inl, inr, leb, length, length-append, length-drop, length-map,
  length-replicate, length-set, length-take, le→ltb, ltb, ltb→le, ltb→lt, lt→ltb, map, max, min,
  none, not, refl, replicate, set, some, subst, suc, sym, take, take-append-drop, true, zero, ℕ,
  ◌%◌, ◌&&◌, ◌*◌, ◌++◌, ◌+◌, ◌-◌, ◌/◌, ◌<◌, ◌==◌, ◌>>=◌, ◌^◌, ◌||◌, ◌↔◌, ◌∙◌, ◌∷◌, ◌≡◌, ◌≢◌, ◌≤◌,
  ◌⊎◌,
}
use radix_os.Memory.{Bytes, put_byte}

-- the macros of kernel/libk/include/utility.h
abbrev pub isupper : ℕ → Bool
isupper c = leb 65 c && leb c 90

abbrev pub islower : ℕ → Bool
islower c = leb 97 c && leb c 122

abbrev pub tolower : ℕ → ℕ
tolower c = if isupper c then c + 32 else c

abbrev pub toupper : ℕ → ℕ
toupper c = if islower c then c - 32 else c

-- a `char` as an `int`
abbrev pub char_value : ℕ → ℕ
char_value c = if ltb c 128 then c else 2 ^ 32 - 256 + c

-- with the place that is looked at
unfoldable pub strlen_from : ℕ → ℕ → ℕ → Bytes → Option ℕ
strlen_from zero i ch m = none
strlen_from (suc n) i ch m =
    let rest = strlen_from n (i + 1) ch m in if m (ch + i) == 0 then some i else rest

unfoldable pub strlen : ℕ → ℕ → Bytes → Option ℕ
unfolding strlen_from
strlen fuel ch m = strlen_from fuel 0 ch m

pub strcmp : ℕ → ℕ → ℕ → Bytes → Option ℕ
strcmp zero s1 s2 m = none
strcmp (suc n) s1 s2 m =
    let rest = strcmp n (s1 + 1) (s2 + 1) m in
    if not (m s1 == 0) && (m s1 == m s2) then rest else some ((m s1 + 2 ^ 32 - m s2) % 2 ^ 32)

pub strcmp_insensitive : ℕ → ℕ → ℕ → Bytes → Option ℕ
strcmp_insensitive zero s1 s2 m = none
strcmp_insensitive (suc n) s1 s2 m =
    let rest = strcmp_insensitive n (s1 + 1) (s2 + 1) m in
    let res = (tolower (char_value (m s1)) + 2 ^ 32 - tolower (char_value (m s2))) % 2 ^ 32 in
    if (res == 0) && not (m s2 == 0)
    then rest
    else some (if res == 0 then 0 else if ltb res (2 ^ 31) then 1 else 2 ^ 32 - 1)

pub strcpy : ℕ → ℕ → ℕ → Bytes → Option Bytes
strcpy zero destination s m = none
strcpy (suc n) destination s m =
    let t = put_byte destination (m s) m in
    let rest = strcpy n (destination + 1) (s + 1) t in if m s == 0 then some t else rest

pub strcpy_s : ℕ → ℕ → ℕ → ℕ → Bytes → Option (ℕ × Bytes)
unfolding strlen strcpy
strcpy_s fuel destination destsz source m = strlen fuel source m >>= λ len.
    if ltb destsz len then some (1, m) else (strcpy fuel destination source m >>= λ t. some (0, t))

pub strchr : ℕ → ℕ → ℕ → Bytes → Option ℕ
strchr zero str c m = none
strchr (suc n) str c m =
    let rest = strchr n (str + 1) c m in
    if m str == 0 then some 0 else if char_value (m str) == c then some str else rest

-- the loop, and the string that is returned
pub strupper_loop : ℕ → ℕ → Bytes → Option Bytes
strupper_loop zero str m = none
strupper_loop (suc n) str m =
    let rest = strupper_loop n (str + 1) (put_byte str (toupper (m str)) m) in
    if m str == 0 then some m else rest

pub strupper : ℕ → ℕ → Bytes → Option (ℕ × Bytes)
unfolding strupper_loop
strupper fuel str m = strupper_loop fuel str m >>= λ t. some (str, t)
