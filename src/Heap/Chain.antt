-- ===== src/Heap/Chain.antt =====
-- The chain of headers as a list of segments, and what the small operations on headers do to it.
use radix_os.Base.{
  Bool, List, [], ap, arith, false, length, refl, subst, sym, true, ℕ, ◌*◌, ◌+◌, ◌<◌, ◌==◌, ◌^◌,
  ◌∙◌, ◌∷◌, ◌≡◌, ◌≤◌,
}
use radix_os.Heap.{HeapBlock, Heap, heap_block_magic, heap_block_t_size}

-- a block: whether it is used, and its bytes without the header
abbrev pub Seg : Type 0
Seg = Bool × ℕ

abbrev pub flag : Bool → ℕ
flag true = 1
flag false = 0

-- The pointer to the chain of `l`, which starts at `q`.
abbrev pub next_of : ℕ → List Seg → ℕ
next_of q [] = 0
next_of q (x ∷ l) = q

pub record IsHeader (b : HeapBlock) (u : Bool) (q : ℕ) : Type 0 where
  pub magic : b.magic ≡ heap_block_magic
  pub used : b.used ≡ flag u
  pub next : b.next ≡ q

-- From `p` to `e` stand the blocks of the list, one right after the other.
abbrev pub Chain : (ℕ → HeapBlock) → ℕ → ℕ → List Seg → Type 0
Chain m e p [] = p ≡ e
Chain m e p ((u, n) ∷ l) = IsHeader (m p) u (next_of (p + 8 + n) l) × Chain m e (p + 8 + n) l

-- The blocks from `p` on are those of the list; there are `c` before them.
pub record Suffix (h : Heap) (e p c : ℕ) (l : List Seg) : Type 0 where
  pub ends : h.start_address + h.size ≡ e
  pub small : e < 2 ^ 32
  pub pos : 0 < p
  pub before : 8 * c ≤ p
  pub counted : h.current_blocks ≡ c + length l
  pub chain : Chain h.mem e p l

-- Nothing before `p` has changed.
pub record Past (p : ℕ) (h t : Heap) : Type 0 where
  pub start : t.start_address ≡ h.start_address
  pub size : t.size ≡ h.size
  pub same : (q : ℕ) → q < p → t.mem q ≡ h.mem q

pub Past-refl : (p : ℕ) (h : Heap) → Past p h h
Past-refl p h = record { start = refl; size = refl; same = λ q d. refl }

pub Past-trans : (p q : ℕ) (h t u : Heap) → p ≤ q → Past p h t → Past q t u → Past p h u
Past-trans p q h t u d a b = record {
  start = b.start ∙ a.start;
  size = b.size ∙ a.size;
  same = λ i lt. b.same i (omega arith) ∙ a.same i lt;
}

pub Chain-frame :
    (m m' : ℕ → HeapBlock) (e p : ℕ) (l : List Seg)
    → ((q : ℕ) → p ≤ q → m' q ≡ m q)
    → Chain m e p l
    → Chain m' e p l
Chain-frame m m' e p [] same h = h
Chain-frame m m' e p ((u, n) ∷ l) same (b, h) = (
  subst (λ x. IsHeader x u (next_of (p + 8 + n) l)) (sym (same p (omega arith))) b,
  Chain-frame m m' e (p + 8 + n) l (λ q d. same q (omega arith)) h,
)

pub Chain-le : (m : ℕ → HeapBlock) (e p : ℕ) (l : List Seg) → Chain m e p l → p + 8 * length l ≤ e
Chain-le m e p [] h = omega arith
Chain-le m e p ((u, n) ∷ l) (b, h) = omega (arith, Chain-le m e (p + 8 + n) l h)

pub Chain-at :
    (m : ℕ → HeapBlock) (e p q : ℕ) (l : List Seg) → p ≡ q → Chain m e p l → Chain m e q l
Chain-at m e p q l d h = subst (λ x. Chain m e x l) d h

pub next_of-cong : (p q : ℕ) (l : List Seg) → p ≡ q → next_of p l ≡ next_of q l
next_of-cong p q l d = ap (λ x. next_of x l) d

pub heap_block_t_size_lem :
    (h : Heap) (e p c : ℕ) (u : Bool) (n : ℕ) (l : List Seg)
    → Suffix h e p c ((u, n) ∷ l)
    → heap_block_t_size h p ≡ n
unfolding heap_block_t_size
heap_block_t_size_lem h e p c u n [] s =
    rw s.chain.0.next (omega (arith, s.ends, s.small, s.chain.1))
heap_block_t_size_lem h e p c u n (x ∷ l) s =
    let le = Chain-le h.mem e (p + 8 + n) (x ∷ l) s.chain.1 in
    let some_next : (p + 8 + n == 0) ≡ false = ground arith in
    rw (s.chain.0.next, some_next) (omega (arith, s.small))
