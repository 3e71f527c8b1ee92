-- ===== src/Sched/Queue.antt =====
-- A ready queue: a doubly linked list of threads of one processor and one priority.
use radix_os.Base.{
  All, All-append, List, [], ap, refl, subst, sym, ℕ, ◌++◌, ◌<◌, ◌∙◌, ◌∷◌, ◌≡◌, ◌≢◌,
}
use radix_os.Sched.{Tcb}

abbrev pub first : List ℕ → ℕ
first [] = 0
first (x ∷ l) = x

abbrev pub last_of : ℕ → List ℕ → ℕ
last_of x [] = x
last_of x (y ∷ l) = last_of y l

abbrev pub last : List ℕ → ℕ
last [] = 0
last (x ∷ l) = last_of x l

pub record IsLinked (b : Tcb) (c q p n : ℕ) : Type 0 where
  pub cpu : b.exec_cpu ≡ c
  pub priority : b.priotity ≡ q
  pub before : b.prev ≡ p
  pub after : b.next ≡ n

-- The threads of the list are linked in this order, the first one behind `p`.
abbrev pub Links : (ℕ → Tcb) → ℕ → ℕ → ℕ → List ℕ → Type 0
Links th c q p [] = Unit
Links th c q p (x ∷ l) = (0 < x) × IsLinked (th x) c q p (first l) × Links th c q x l

abbrev pub Fresh : ℕ → List ℕ → Type 0
Fresh x = All (λ y. y ≢ x)

abbrev pub IsDistinct : List ℕ → Type 0
IsDistinct [] = Unit
IsDistinct (x ∷ l) = Fresh x l × IsDistinct l

pub Links-frame :
    (th th' : ℕ → Tcb) (c q p : ℕ) (l : List ℕ)
    → All (λ y. th' y ≡ th y) l
    → Links th c q p l
    → Links th' c q p l
Links-frame th th' c q p [] same h = tt
Links-frame th th' c q p (x ∷ l) (e, same) (pos, b, h) =
    (pos, subst (λ t. IsLinked t c q p (first l)) (sym e) b, Links-frame th th' c q x l same h)

-- The threads of a queue are of its processor and its priority.
pub Links-owner :
    (th : ℕ → Tcb) (c q p : ℕ) (l : List ℕ)
    → Links th c q p l
    → All (λ y. (0 < y) × ((th y).exec_cpu ≡ c) × ((th y).priotity ≡ q)) l
Links-owner th c q p [] h = tt
Links-owner th c q p (x ∷ l) (pos, b, h) = ((pos, b.cpu, b.priority), Links-owner th c q x l h)

pub last_of-owner : (P : ℕ → Type 0) (x : ℕ) (l : List ℕ) → All P (x ∷ l) → P (last_of x l)
last_of-owner P x [] (p, h) = p
last_of-owner P x (y ∷ l) (p, h) = last_of-owner P y l h

last_of-append : (x y : ℕ) (l : List ℕ) → last_of y (l ++ x ∷ []) ≡ x
last_of-append x y [] = refl
last_of-append x y (z ∷ l) = last_of-append x z l

pub last-append : (x : ℕ) (l : List ℕ) → last (l ++ x ∷ []) ≡ x
last-append x [] = refl
last-append x (y ∷ l) = last_of-append x y l

pub IsDistinct-append : (x : ℕ) (l : List ℕ) → Fresh x l → IsDistinct l → IsDistinct (l ++ x ∷ [])
IsDistinct-append x [] f d = (tt, tt)
IsDistinct-append x (y ∷ l) (ne, f) (g, d) =
    (All-append _ l (x ∷ []) g ((λ e. ne (sym e)), tt), IsDistinct-append x l f d)

-- A thread put behind the last one.
pub Links-append :
    (th th' : ℕ → Tcb) (c q p x y : ℕ) (l : List ℕ)
    → Links th c q p (y ∷ l)
    → IsDistinct (y ∷ l)
    → Fresh x (y ∷ l)
    → 0 < x
    → IsLinked (th' x) c q (last_of y l) 0
    → th' (last_of y l) ≡ record (th (last_of y l)) { next = x }
    → ((z : ℕ) → z ≢ x → z ≢ last_of y l → th' z ≡ th z)
    → Links th' c q p (y ∷ (l ++ x ∷ []))
Links-append th th' c q p x y [] (pos, b, h) d f posx new tail same = (
  pos,
  record {
    cpu = ap (λ t. t.exec_cpu) tail ∙ b.cpu;
    priority = ap (λ t. t.priotity) tail ∙ b.priority;
    before = ap (λ t. t.prev) tail ∙ b.before;
    after = ap (λ t. t.next) tail;
  },
  (posx, new, tt),
)
Links-append th th' c q p x y (z ∷ l) (pos, b, h) (g, d) (ne, f) posx new tail same = (
  pos,
  subst (λ t. IsLinked t c q p z) (sym (same y ne (λ e. last_of-owner (λ w. w ≢ y) z l g (sym e))))
      b,
  Links-append th th' c q y x z l h d f posx new tail same,
)

-- The first thread taken away.
pub Links-rest :
    (th th' : ℕ → Tcb) (c q x : ℕ) (l : List ℕ)
    → Links th c q 0 (x ∷ l)
    → IsDistinct (x ∷ l)
    → (0 < first l → th' (first l) ≡ record (th (first l)) { prev = 0 })
    → ((z : ℕ) → z ≢ x → z ≢ first l → th' z ≡ th z)
    → Links th' c q 0 l
Links-rest th th' c q x [] h d head same = tt
Links-rest th th' c q x (y ∷ l) (pos, b, (posy, by, h)) ((ne, f), (g, d)) head same = (
  posy,
  record {
    cpu = ap (λ t. t.exec_cpu) (head posy) ∙ by.cpu;
    priority = ap (λ t. t.priotity) (head posy) ∙ by.priority;
    before = ap (λ t. t.prev) (head posy);
    after = ap (λ t. t.next) (head posy) ∙ by.after;
  },
  Links-frame th th' c q y l (others l f g) h,
)
  where
    others : (l : List ℕ) → Fresh x l → Fresh y l → All (λ z. th' z ≡ th z) l
    others [] f g = tt
    others (z ∷ l) (p, f) (r, g) = (same z p r, others l f g)
