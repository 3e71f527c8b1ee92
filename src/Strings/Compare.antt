-- ===== src/Strings/Compare.antt =====
-- `strcmp` against the equality of strings.
use radix_os.Base.{
  Bool-cases, List, [], ap, ap₂, arith, false, if◌then◌else◌, inl, inr, length, refl, some, subst,
  suc, sym, true, zero, ℕ, ◌%◌, ◌+◌, ◌-◌, ◌<◌, ◌==◌, ◌^◌, ◌↔◌, ◌∙◌, ◌∷◌, ◌≡◌,
}
use radix_os.Memory.{Bytes}
use radix_os.Strings.{strcmp}
use radix_os.Strings.Length.{IsString}

-- the result on two strings, by their bytes
abbrev pub compare_bytes : List ℕ → List ℕ → ℕ
compare_bytes [] [] = 0
compare_bytes [] (c' ∷ l') = 2 ^ 32 - c'
compare_bytes (c ∷ l) [] = c
compare_bytes (c ∷ l) (c' ∷ l') =
    let rest = compare_bytes l l' in if c == c' then rest else (c + 2 ^ 32 - c') % 2 ^ 32

strcmp-value :
    (l l' : List ℕ) (fuel s1 s2 : ℕ) (m : Bytes)
    → IsString s1 l m
    → IsString s2 l' m
    → ((a : ℕ) → m a < 256)
    → length l < fuel
    → strcmp fuel s1 s2 m ≡ some (compare_bytes l l')
unfolding strcmp
strcmp-value l l' zero s1 s2 m h h' small f = absurd (omega arith)
strcmp-value [] [] (suc n) s1 s2 m h h' small f = rw (h, h') refl
strcmp-value [] (c' ∷ l') (suc n) s1 s2 m h (e', pos', h') small f =
    let bound = small s2 in rw h (rw e' (ap some (omega (arith, e'))))
strcmp-value (c ∷ l) [] (suc n) s1 s2 m (e, pos, h) h' small f =
    let bound = small s1 in
    let some_byte : (c == 0) ≡ false = ground arith in
    rw (e, h', some_byte) (ap some (omega (arith, e)))
strcmp-value (c ∷ l) (c' ∷ l') (suc n) s1 s2 m (e, pos, h) (e', pos', h') small f =
    let some_byte : (c == 0) ≡ false = ground arith in
    rw (e, e', some_byte)
      (elim (Bool-cases (c == c')) [
        | inl same ↦ rw same (strcmp-value l l' n (s1 + 1) (s2 + 1) m h h' small (omega arith))
        | inr other ↦ rw other refl
      ])

compare_bytes-zero :
    (l l' : List ℕ) (s1 s2 : ℕ) (m : Bytes)
    → IsString s1 l m
    → IsString s2 l' m
    → ((a : ℕ) → m a < 256)
    → compare_bytes l l' ≡ 0
    → l ≡ l'
compare_bytes-zero [] [] s1 s2 m h h' small z = refl
compare_bytes-zero [] (c' ∷ l') s1 s2 m h (e', pos', _) small z =
    let bound = small s2 in absurd (omega (arith, e', z))
compare_bytes-zero (c ∷ l) [] s1 s2 m (e, pos, _) h' small z = absurd (omega arith)
compare_bytes-zero (c ∷ l) (c' ∷ l') s1 s2 m (e, pos, h) (e', pos', h') small z =
    elim (Bool-cases (c == c')) [
      | inl same ↦
          let byte : c ≡ c' = ground arith in
          let rest : compare_bytes l l' ≡ 0 =
            sym (ap (λ b. if b then compare_bytes l l' else (c + 2 ^ 32 - c') % 2 ^ 32) same) ∙ z in
          ap₂ (λ x y. x ∷ y) byte (compare_bytes-zero l l' (s1 + 1) (s2 + 1) m h h' small rest)
      | inr other ↦
          let bytes_apart : (c + 2 ^ 32 - c') % 2 ^ 32 ≡ 0 =
            sym (ap (λ b. if b then compare_bytes l l' else (c + 2 ^ 32 - c') % 2 ^ 32) other)
            ∙ z in
          let bound = small s1 in
          let bound' = small s2 in absurd (ground (arith, e, e', bytes_apart))
    ]

compare_bytes_refl : (l : List ℕ) → compare_bytes l l ≡ 0
compare_bytes_refl [] = refl
compare_bytes_refl (c ∷ l) =
    let same : (c == c) ≡ true = ground arith in rw same (compare_bytes_refl l)

-- In a memory of bytes and on fuel for one round more than the length of the first string, `strcmp`
-- of two strings comes back, with 0 if they are the same and only then.
pub strcmp_lem :
    (l l' : List ℕ) (fuel s1 s2 : ℕ) (m : Bytes)
    → IsString s1 l m
    → IsString s2 l' m
    → ((a : ℕ) → m a < 256)
    → length l < fuel
    → (r : ℕ) × (strcmp fuel s1 s2 m ≡ some r) × ((r ≡ 0) ↔ (l ≡ l'))
strcmp_lem l l' fuel s1 s2 m h h' small f = (
  compare_bytes l l',
  strcmp-value l l' fuel s1 s2 m h h' small f,
  (
    compare_bytes-zero l l' s1 s2 m h h' small,
    λ e. subst (λ x. compare_bytes l x ≡ 0) e (compare_bytes_refl l),
  ),
)
