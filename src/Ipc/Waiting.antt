-- ===== src/Ipc/Waiting.antt =====
-- The queue of a semaphore, which runs through the `next` of the waiting threads, as a list.
use radix_os.Base.{
  All, All-imp, List, [], ap, arith, false, if◌then◌else◌, refl, sym, true, ℕ, ◌++◌, ◌<◌, ◌==◌, ◌∙◌,
  ◌∷◌, ◌≡◌, ◌≢◌,
}
use radix_os.Sched.{with_thread, Tcb}
use radix_os.Sched.Queue.{
  IsDistinct-append, last-append, last_of-owner, first, last, last_of, Fresh, IsDistinct,
}
use radix_os.Ipc.{with_kernel, with_semaphore, Ipc, add_waiting, take_waiting}

-- The threads of the list follow one another.
abbrev pub Follows : (ℕ → Tcb) → List ℕ → Type 0
Follows th [] = Unit
Follows th (x ∷ l) = (0 < x) × ((th x).next ≡ first l) × Follows th l

-- The waiting threads of the semaphore are those of `l`, in this order.
pub record IsWaiting (s : Ipc) (sem : ℕ) (l : List ℕ) : Type 0 where
  pub head : (s.semaphores sem).waiting_head ≡ first l
  pub tail : (s.semaphores sem).waiting_tail ≡ last l
  pub links : Follows s.kernel.threads l
  pub distinct : IsDistinct l

Follows-frame :
    (th th' : ℕ → Tcb) (l : List ℕ) → All (λ y. th' y ≡ th y) l → Follows th l → Follows th' l
Follows-frame th th' [] same h = tt
Follows-frame th th' (x ∷ l) (e, same) (pos, n, h) =
    (pos, ap (λ b. b.next) e ∙ n, Follows-frame th th' l same h)

pub last_of-pos : (th : ℕ → Tcb) (x : ℕ) (l : List ℕ) → Follows th (x ∷ l) → 0 < last_of x l
last_of-pos th x [] (pos, _, _) = pos
last_of-pos th x (y ∷ l) (_, _, h) = last_of-pos th y l h

last_of-ne : (x y : ℕ) (l : List ℕ) → Fresh x (y ∷ l) → x ≢ last_of y l
last_of-ne x y l f e = last_of-owner (λ w. w ≢ x) y l f (sym e)

Follows-append :
    (th th' : ℕ → Tcb) (x y : ℕ) (l : List ℕ)
    → Follows th (y ∷ l)
    → IsDistinct (y ∷ l)
    → Fresh x (y ∷ l)
    → 0 < x
    → (th' x).next ≡ 0
    → (th' (last_of y l)).next ≡ x
    → ((z : ℕ) → z ≢ x → z ≢ last_of y l → (th' z).next ≡ (th z).next)
    → Follows th' (y ∷ l ++ x ∷ [])
Follows-append th th' x y [] (pos, n, h) d (ne, _) xpos ends linked same =
    (pos, linked, (xpos, ends, tt))
Follows-append th th' x y (z ∷ l) (pos, n, h) (f, d) (ne, g) xpos ends linked same = (
  pos,
  same y ne (last_of-ne y z l f) ∙ n,
  Follows-append th th' x z l h d g xpos ends linked same,
)

-- A thread that is not in the queue, and whose `next` is 0 as it is while a thread runs, comes to
-- stand at the end.
pub add_waiting_lem :
    (s : Ipc) (sem x : ℕ) (l : List ℕ)
    → IsWaiting s sem l
    → 0 < x
    → Fresh x l
    → (s.kernel.threads x).next ≡ 0
    → IsWaiting (add_waiting sem x s) sem (l ++ x ∷ [])
unfolding add_waiting with_semaphore with_kernel with_thread
add_waiting_lem s sem x [] w pos f ends =
    let here : (sem == sem) ≡ true = ground arith in
    let empty : ((s.semaphores sem).waiting_tail == 0) ≡ true = ground (arith, w.tail) in
    rw empty record {
      head = rw here refl;
      tail = rw here refl;
      links = (pos, ends, tt);
      distinct = (tt, tt);
    }
add_waiting_lem s sem x (y ∷ l) w pos (ne, f) ends =
    let here : (sem == sem) ≡ true = ground arith in
    let t = last_of y l in
    let tpos = last_of-pos s.kernel.threads y l w.links in
    let some_tail : ((s.semaphores sem).waiting_tail == 0) ≡ false = ground (arith, w.tail) in
    let self : (x == x) ≡ true = ground arith in
    let apart : x ≢ t = λ e. last_of-owner (λ z. z ≢ x) y l (ne, f) (sym e) in
    rw some_tail record {
      head = rw here w.head;
      tail = rw here refl ∙ sym (last-append x (y ∷ l));
      links =
          Follows-append s.kernel.threads (after (s.semaphores sem).waiting_tail s.kernel.threads) x
            y l w.links w.distinct (ne, f) pos (rw self refl)
            (linked (s.semaphores sem).waiting_tail s.kernel.threads w.tail apart)
            (λ z a b. others (s.semaphores sem).waiting_tail s.kernel.threads z w.tail a b);
      distinct = IsDistinct-append x (y ∷ l) (ne, f) w.distinct;
    }
  where
    after : ℕ → (ℕ → Tcb) → ℕ → Tcb
    after tail th z =
        let th1 : ℕ → Tcb = λ z. if z == tail then record (th z) { next = x } else th z in
        if z == x then record (th1 z) { next = 0 } else th1 z

    linked :
        (tail : ℕ) (th : ℕ → Tcb)
        → tail ≡ last_of y l
        → x ≢ last_of y l
        → (after tail th (last_of y l)).next ≡ x
    linked tail th e ne =
        let there : (last_of y l == tail) ≡ true = ground (arith, e) in
        let not_x : (last_of y l == x) ≡ false = ground (arith, ne) in rw (not_x, there) refl

    others :
        (tail : ℕ) (th : ℕ → Tcb) (z : ℕ)
        → tail ≡ last_of y l
        → z ≢ x
        → z ≢ last_of y l
        → (after tail th z).next ≡ (th z).next
    others tail th z e a b =
        let not_tail : (z == tail) ≡ false = ground (arith, e, b) in
        let not_x : (z == x) ≡ false = ground (arith, a) in rw (not_x, not_tail) refl

-- The first of the threads is taken out of the queue, and nothing else of the semaphore, its other
-- fields and the thread has changed.
pub record IsTaken (sem x : ℕ) (l : List ℕ) (s t : Ipc) : Type 0 where
  pub waiting : IsWaiting t sem l
  pub ended : (t.kernel.threads x).next ≡ 0
  pub cpu : (t.kernel.threads x).exec_cpu ≡ (s.kernel.threads x).exec_cpu
  pub count : (t.semaphores sem).count ≡ (s.semaphores sem).count
  pub mailboxes : t.mailbox_slots ≡ s.mailbox_slots
  pub ids : t.cpu_ids ≡ s.cpu_ids

pub take_waiting_lem :
    (s : Ipc) (sem x : ℕ) (l : List ℕ)
    → IsWaiting s sem (x ∷ l)
    → ((take_waiting sem s).0 ≡ x) × IsTaken sem x l s (take_waiting sem s).1
unfolding take_waiting with_semaphore with_kernel with_thread
take_waiting_lem s sem x [] w =
    let (pos, n, _) = w.links in
    let here : (sem == sem) ≡ true = ground arith in
    let one : ((s.semaphores sem).waiting_head == (s.semaphores sem).waiting_tail) ≡ true =
      ground (arith, w.head, w.tail) in
    rw one (
      w.head,
      record {
        waiting = record { head = rw here refl; tail = rw here refl; links = tt; distinct = tt };
        ended = n;
        cpu = refl;
        count = rw here refl;
        mailboxes = refl;
        ids = refl;
      },
    )
take_waiting_lem s sem x (y ∷ l) w =
    let (pos, n, h) = w.links in
    let here : (sem == sem) ≡ true = ground arith in
    let self : (x == x) ≡ true = ground arith in
    let (f, d) = w.distinct in
    let apart = last_of-ne x y l f in
    let more : ((s.semaphores sem).waiting_head == (s.semaphores sem).waiting_tail) ≡ false =
      ground (arith, w.head, w.tail, apart) in
    let after : (s.kernel.threads (s.semaphores sem).waiting_head).next ≡ y =
      ap (λ z. (s.kernel.threads z).next) w.head ∙ n in
    rw more (
      w.head,
      record {
        waiting = record {
          head = rw here after;
          tail = rw here w.tail;
          links =
              Follows-frame s.kernel.threads _ (y ∷ l)
                (All-imp (λ z ne. kept (s.semaphores sem).waiting_head s.kernel.threads z w.head ne)
                  (y ∷ l) f)
                h;
          distinct = d;
        };
        ended = rw (w.head, self) refl;
        cpu = rw (w.head, self) refl;
        count = rw here refl;
        mailboxes = refl;
        ids = refl;
      },
    )
  where
    kept :
        (head : ℕ) (th : ℕ → Tcb) (z : ℕ)
        → head ≡ x
        → z ≢ x
        → (if z == head then record (th z) { next = 0 } else th z) ≡ th z
    kept head th z e ne = let other : (z == head) ≡ false = ground (arith, e, ne) in rw other refl
