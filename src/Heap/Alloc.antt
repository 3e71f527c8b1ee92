-- ===== src/Heap/Alloc.antt =====
-- `heap_alloc`: what its loop does to the list of blocks, and what that means for the areas.
use radix_os.Base.{
  Bool, Bool-cases, List, [], ap, arith, false, inl, inr, leb, length, ltb, refl, suc, sym, true,
  zero, ℕ, ◌+◌, ◌<◌, ◌==◌, ◌∙◌, ◌∷◌, ◌≡◌, ◌≤◌,
}
use radix_os.Exec.{Run, done}
use radix_os.Heap.{Heap, alloc_loop}
use radix_os.Heap.Chain.{Seg, next_of, Suffix, Past, Past-refl, Past-trans}
use radix_os.Heap.Merge.{absorb, heap_front_merge_size_fit_lem}
use radix_os.Heap.Take.{taken, take_block_lem}
use radix_os.Heap.Areas.{length-absorb}

-- What an allocation of `r` bytes makes of the blocks from `p` on, and the address it returns.
pub data Allocates (r : ℕ) : ℕ → List Seg → ℕ → List Seg → Type 0 where
  ended : (p : ℕ) → Allocates r p [] 0 []
  skipped :
      (p n a : ℕ) (l l' : List Seg)
      → Allocates r (p + 8 + n) l a l'
      → Allocates r p ((true, n) ∷ l) a ((true, n) ∷ l')
  took :
      (p n : ℕ) (l : List Seg)
      → r ≤ (absorb r n l).0
      → Allocates r p ((false, n) ∷ l) (p + 8) (taken r (absorb r n l).0 (absorb r n l).1)
  too_small :
      (p n a : ℕ) (l l' : List Seg)
      → (absorb r n l).0 < r
      → Allocates r (p + 8 + (absorb r n l).0) (absorb r n l).1 a l'
      → Allocates r p ((false, n) ∷ l) a ((false, (absorb r n l).0) ∷ l')

pub Allocates-next :
    (r p q a : ℕ) (l l' : List Seg) → Allocates r p l a l' → next_of q l' ≡ next_of q l
Allocates-next r p q a l l' (ended _) = refl
Allocates-next r p q a l l' (skipped _ n _ _ _ h) = refl
Allocates-next r p q a l l' (took _ n k h) = elim (Bool-cases (ltb (r + 8) (absorb r n k).0)) [
  | inl cut ↦ rw cut refl
  | inr whole ↦ rw whole refl
]
Allocates-next r p q a l l' (too_small _ n _ _ _ d h) = refl

pub tail :
    (h : Heap) (e p c : ℕ) (u : Bool) (n : ℕ) (l : List Seg)
    → Suffix h e p c ((u, n) ∷ l)
    → Suffix h e (p + 8 + n) (suc c) l
tail h e p c u n l s = record {
  ends = s.ends;
  small = s.small;
  pos = omega arith;
  before = omega (arith, s.before);
  counted = omega (arith, s.counted);
  chain = s.chain.1;
}

-- A change to the later blocks leaves the block at `p` where it is.
pub rejoin :
    (h t : Heap) (e p c : ℕ) (u : Bool) (n : ℕ) (l l' : List Seg)
    → Suffix h e p c ((u, n) ∷ l)
    → Suffix t e (p + 8 + n) (suc c) l'
    → Past (p + 8 + n) h t
    → next_of (p + 8 + n) l' ≡ next_of (p + 8 + n) l
    → Suffix t e p c ((u, n) ∷ l')
rejoin h t e p c u n l l' s s' past same = record {
  ends = s'.ends;
  small = s'.small;
  pos = s.pos;
  before = s.before;
  counted = omega (arith, s'.counted);
  chain = (
    record {
      magic = ap (λ b. b.magic) (past.same p (omega arith)) ∙ s.chain.0.magic;
      used = ap (λ b. b.used) (past.same p (omega arith)) ∙ s.chain.0.used;
      next = ap (λ b. b.next) (past.same p (omega arith)) ∙ s.chain.0.next ∙ sym same;
    },
    s'.chain,
  );
}

abbrev Looped : Heap → ℕ → ℕ → ℕ → ℕ → List Seg → Run (ℕ × Heap) → Type 0
Looped h e p c r l o =
    (a : ℕ) × (t : Heap) × (l' : List Seg) × (o ≡ done (a, t))
    × Suffix t e p c l'
    × Past p h t
    × Allocates r p l a l'

pub alloc_loop_lem :
    (k : ℕ) (h : Heap) (e p c r : ℕ) (l : List Seg)
    → Suffix h e p c l
    → h.start_address ≤ p
    → length l < k
    → Looped h e p c r l (alloc_loop k h (next_of p l) r)
unfolding alloc_loop
alloc_loop_lem zero h e p c r l s first f = absurd (omega arith)
alloc_loop_lem (suc k) h e p c r [] s first f = (0, h, [], refl, s, Past-refl p h, ended p)
alloc_loop_lem (suc k) h e p c r ((true, n) ∷ l) s first f =
    let (a, t, l', got, s', past, how) =
      alloc_loop_lem k h e (p + 8 + n) (suc c) r l (tail h e p c true n l s) (omega arith)
        (omega arith) in
    let some_block : (p == 0) ≡ false = ground (arith, s.pos) in
    (
      a,
      t,
      (true, n) ∷ l',
      rw (some_block, s.chain.0.magic, s.chain.0.used, s.chain.0.next) got,
      rejoin h t e p c true n l l' s s' past (Allocates-next r _ _ a l l' how),
      Past-trans p (p + 8 + n) h h t (omega arith) (Past-refl p h) past,
      skipped p n a l l' how,
    )
alloc_loop_lem (suc k) h e p c r ((false, n) ∷ l) s first f =
    let (t, got, s', past) = heap_front_merge_size_fit_lem l h e p c r n s first in
    let some_block : (p == 0) ≡ false = ground (arith, s.pos) in
    elim (Bool-cases (leb r (absorb r n l).0)) [
      | inl fits ↦
          let (u, got', s'', past') =
            take_block_lem t e p c r (absorb r n l).0 (absorb r n l).1 s' (ground arith) in
          (
            p + 8,
            u,
            taken r (absorb r n l).0 (absorb r n l).1,
            rw (some_block, s.chain.0.magic, s.chain.0.used, got, fits, got') refl,
            s'',
            Past-trans p p h t u (omega arith) past past',
            took p n l (ground arith),
          )
      | inr small ↦
          let m = (absorb r n l).0 in
          let rest = (absorb r n l).1 in
          let (a, u, l', got', s'', past', how) =
            alloc_loop_lem k t e (p + 8 + m) (suc c) r rest (tail t e p c false m rest s')
              (omega (arith, past.start)) (omega (arith, length-absorb r n l)) in
          (
            a,
            u,
            (false, m) ∷ l',
            rw (some_block, s.chain.0.magic, s.chain.0.used, got, small, s'.chain.0.next) got',
            rejoin t u e p c false m rest l' s' s'' past' (Allocates-next r _ _ a rest l' how),
            Past-trans p (p + 8 + m) h t u (omega arith) past past',
            too_small p n a l l' (ground arith) how,
          )
    ]
