-- ===== src/Sched/Schedule.antt =====
-- `scheduler_schedule_thread` takes the first thread of the first queue that is not empty.
use native.Mathlib.Decide.{ℕ_discrete}
use radix_os.Base.{
  Bool-cases, List, [], ap, ap₂, arith, false, if◌then◌else◌, inl, inr, leb, refl, subst, suc, sym,
  true, zero, ℕ, ◌&&◌, ◌+◌, ◌<◌, ◌==◌, ◌∙◌, ◌∷◌, ◌≡◌, ◌≢◌, ◌≤◌, ◌⊎◌,
}
use radix_os.Exec.{Run, done, panicked}
use radix_os.Sched.{
  Tcb, ThreadSched, Kernel, with_thread, with_sched, first_non_empty, scheduler_get_first_non_empty,
  scheduler_remove_ready, scheduler_schedule_thread, ready_heads, ready_tails, current_thread,
  put_current,
}
use radix_os.Sched.Queue.{first, last, Links, Fresh, IsDistinct, Links-rest}
use radix_os.Sched.Ready.{IsReady, with_queue, other-Links}

-- The first of the `n` queues from `i` on that has a head, or 8.
abbrev Found : ℕ → ℕ → ThreadSched → ℕ → Type 0
Found n i s r =
    ((i ≤ r)
      × (r < i + n)
      × (ready_heads s r ≢ 0)
      × ((j : ℕ) → i ≤ j → j < r → ready_heads s j ≡ 0))
    ⊎ ((r ≡ 8) × ((j : ℕ) → i ≤ j → j < i + n → ready_heads s j ≡ 0))

first_non_empty_lem : (n i : ℕ) (s : ThreadSched) → Found n i s (first_non_empty n i s)
unfolding first_non_empty
first_non_empty_lem zero i s = inr (refl, λ j p q. absurd (omega arith))
first_non_empty_lem (suc n) i s = elim (Bool-cases (ready_heads s i == 0)) [
  | inl empty ↦
      rw empty
        (further (first_non_empty n (i + 1) s) (ground arith) (first_non_empty_lem n (i + 1) s))
  | inr some_head ↦
      rw some_head (
        inl (omega arith, omega arith, (λ e. absurd (ground arith)), λ j p q. absurd (omega arith)))
]
  where
    further : (r : ℕ) → ready_heads s i ≡ 0 → Found n (i + 1) s r → Found (suc n) i s r
    further r z (inl (p, q, ne, before)) = inl (
      omega arith,
      omega arith,
      ne,
      λ j a b. elim (ℕ_discrete i j) [
        | yes e ↦ ap (ready_heads s) (sym e) ∙ z
        | no d ↦ before j (omega arith) b
      ],
    )
    further r z (inr (e, before)) = inr (
      e,
      λ j a b. elim (ℕ_discrete i j) [
        | yes e' ↦ ap (ready_heads s) (sym e') ∙ z
        | no d ↦ before j (omega arith) (omega arith)
      ],
    )

module _ (k : Kernel) (c q x n : ℕ) (head : ready_heads (k.scheds c) q ≡ x)
    (next : (k.threads x).next ≡ n) (ne : x ≢ n) where
  abbrev after : Kernel
  after = (scheduler_remove_ready c q k).1

  remove_ready-head : (scheduler_remove_ready c q k).0 ≡ x
  unfolding scheduler_remove_ready
  remove_ready-head = head

  remove_ready-next : 0 < n → after.threads n ≡ record (k.threads n) { prev = 0 }
  unfolding scheduler_remove_ready with_thread with_sched
  remove_ready-next pos =
      let some_next : (n == 0) ≡ false = ground arith in
      let here : (n == n) ≡ true = ground arith in
      let there : (n == x) ≡ false = ground (arith, ne) in
      rw (head, next, some_next, here, there) refl

  remove_ready-taken : after.threads x ≡ record (k.threads x) { next = 0; prev = 0 }
  unfolding scheduler_remove_ready with_thread with_sched
  remove_ready-taken =
      let here : (x == x) ≡ true = ground arith in
      let there : (x == n) ≡ false = ground (arith, ne) in
      elim (Bool-cases (n == 0)) [
        | inl empty ↦ rw (head, next, empty, here) refl
        | inr some_next ↦ rw (head, next, some_next, here, there) refl
      ]

  remove_ready-others : (z : ℕ) → z ≢ x → z ≢ n → after.threads z ≡ k.threads z
  unfolding scheduler_remove_ready with_thread with_sched
  remove_ready-others z nx nn =
      let here : (z == n) ≡ false = ground (arith, nn) in
      let there : (z == x) ≡ false = ground (arith, nx) in
      elim (Bool-cases (n == 0)) [
        | inl empty ↦ rw (head, next, empty, there) refl
        | inr some_next ↦ rw (head, next, some_next, here, there) refl
      ]

  remove_ready-heads :
      (c' q' : ℕ)
      → q' < 8
      → q < 8
      → ready_heads (after.scheds c') q'
        ≡ (if c' == c && q' == q then n else ready_heads (k.scheds c') q')
  unfolding scheduler_remove_ready with_thread with_sched
  remove_ready-heads c' q' small' small = rw (head, next) (ground arith)

  remove_ready-tails :
      (c' q' : ℕ)
      → q' < 8
      → q < 8
      → ready_tails (after.scheds c') q'
        ≡ (if c' == c && q' == q && n == 0 then 0 else ready_tails (k.scheds c') q')
  unfolding scheduler_remove_ready with_thread with_sched
  remove_ready-tails c' q' small' small = rw (head, next) (ground arith)

first-owner :
    (th : ℕ → Tcb) (c q p : ℕ) (l : List ℕ)
    → Links th c q p l
    → (first l ≡ 0) ⊎ (((th (first l)).exec_cpu ≡ c) × ((th (first l)).priotity ≡ q))
first-owner th c q p [] h = inl refl
first-owner th c q p (x ∷ l) (pos, b, h) = inr (b.cpu, b.priority)

first-Fresh : (x : ℕ) (l : List ℕ) → 0 < x → Fresh x l → x ≢ first l
first-Fresh x [] pos f e = omega arith
first-Fresh x (y ∷ l) pos (ne, f) e = ne (sym e)

last-rest :
    (th : ℕ → Tcb) (c q p x : ℕ) (l : List ℕ)
    → Links th c q p l
    → (if first l == 0 then 0 else last (x ∷ l)) ≡ last l
last-rest th c q p x [] h = refl
last-rest th c q p x (y ∷ l) (pos, b, h) =
    let some_first : (y == 0) ≡ false = ground arith in rw some_first refl

-- The first thread of a queue is taken out of it.
pub scheduler_remove_ready_lem :
    (k : Kernel) (ready : ℕ → ℕ → List ℕ) (c q x : ℕ) (l : List ℕ)
    → IsReady k ready
    → q < 8
    → ready c q ≡ x ∷ l
    → (t : Kernel) × (scheduler_remove_ready c q k ≡ (x, t))
      × IsReady t (with_queue c q l ready)
      × (t.threads x ≡ record (k.threads x) { next = 0; prev = 0 })
scheduler_remove_ready_lem k ready c q x l v small at =
    let links : Links k.threads c q 0 (x ∷ l) =
      subst (Links k.threads c q 0) at (v.links c q small) in
    let distinct : IsDistinct (x ∷ l) = subst IsDistinct at (v.distinct c q small) in
    let head : ready_heads (k.scheds c) q ≡ x = v.heads c q small ∙ ap first at in
    let tail : ready_tails (k.scheds c) q ≡ last (x ∷ l) = v.tails c q small ∙ ap last at in
    let next = links.1.after in
    let ne = first-Fresh x l links.0 distinct.0 in
    let n = first l in
    let others = remove_ready-others k c q x n head next ne in
    let rest =
      Links-rest k.threads (scheduler_remove_ready c q k).1.threads c q x l links distinct
        (remove_ready-next k c q x n head next ne) others in
    (
      (scheduler_remove_ready c q k).1,
      ap (λ y. (y, (scheduler_remove_ready c q k).1)) (remove_ready-head k c q x n head next ne),
      record {
        links = λ c' q' p'. elim (Bool-cases (c' == c && q' == q)) [
          | inl here ↦
              let e : c' ≡ c = ground arith in
              let e' : q' ≡ q = ground arith in
              rw here (
                subst (λ i. Links (scheduler_remove_ready c q k).1.threads i q' 0 l) (sym e)
                  (subst (λ i. Links (scheduler_remove_ready c q k).1.threads c i 0 l) (sym e')
                    rest))
          | inr there ↦ rw there (
              other-Links k.threads (scheduler_remove_ready c q k).1.threads c q c' q' 0 x n
                (ready c' q') (v.links c' q' p') there (links.1.cpu, links.1.priority)
                (first-owner k.threads c q x l links.2) (λ z p a b. others z a b))
        ];
        distinct = λ c' q' p'. elim (Bool-cases (c' == c && q' == q)) [
          | inl here ↦ rw here distinct.1
          | inr there ↦ rw there (v.distinct c' q' p')
        ];
        heads = λ c' q' p'.
            remove_ready-heads k c q x n head next ne c' q' p' small
            ∙ elim (Bool-cases (c' == c && q' == q)) [
              | inl here ↦ rw here refl
              | inr there ↦ rw there (v.heads c' q' p')
            ];
        tails = λ c' q' p'.
            remove_ready-tails k c q x n head next ne c' q' p' small
            ∙ elim (Bool-cases (c' == c && q' == q)) [
              | inl here ↦
                  let e : c' ≡ c = ground arith in
                  let e' : q' ≡ q = ground arith in
                  let one : (c' == c) ≡ true = ground arith in
                  let two : (q' == q) ≡ true = ground arith in
                  let old : ready_tails (k.scheds c') q' ≡ last (x ∷ l) =
                    ap₂ (λ i j. ready_tails (k.scheds i) j) e e' ∙ tail in
                  rw (one, two, old) (last-rest k.threads c q x x l links.2)
              | inr there ↦ rw there (ground (arith, there, v.tails c' q' p'))
            ];
      },
      remove_ready-taken k c q x n head next ne,
    )

-- The processor `c` now runs `x`.
IsReady-current :
    (k : Kernel) (ready : ℕ → ℕ → List ℕ) (c x : ℕ)
    → IsReady k ready
    → IsReady (with_sched c (put_current x) k) ready
unfolding with_sched
IsReady-current k ready c x v = record {
  links = v.links;
  distinct = v.distinct;
  heads = λ c' q' p'. ground (arith, v.heads c' q' p');
  tails = λ c' q' p'. ground (arith, v.tails c' q' p');
}

schedule-runs :
    (k : Kernel) (c r x : ℕ) (t : Kernel)
    → first_non_empty 8 0 (k.scheds c) ≡ r
    → r < 8
    → scheduler_remove_ready c r k ≡ (x, t)
    → scheduler_schedule_thread c k ≡ done (x, with_sched c (put_current x) t)
unfolding scheduler_schedule_thread scheduler_get_first_non_empty
schedule-runs k c r x t e hi got =
    let some_queue : leb 8 r ≡ false = ground arith in
    ap (λ q. if leb 8 q then panicked else started (scheduler_remove_ready c q k)) e
    ∙ rw some_queue refl
    ∙ ap started got
  where
    started : ℕ × Kernel → Run (ℕ × Kernel)
    started (y, u) = done (y, with_sched c (put_current y) u)

current-with_sched :
    (c x : ℕ) (t : Kernel) → current_thread ((with_sched c (put_current x) t).scheds c) ≡ x
unfolding with_sched
current-with_sched c x t = ground arith

-- What `scheduler_schedule_thread` does.
pub data Scheduled (k : Kernel) (ready : ℕ → ℕ → List ℕ) (c : ℕ) : Run (ℕ × Kernel) → Type 0 where
  -- no thread is ready
  nothing : ((q : ℕ) → q < 8 → ready c q ≡ []) → Scheduled k ready c panicked
  -- `x` was the first of the first queue that is not empty, and now runs
  runs :
      (q x : ℕ) (l : List ℕ) (t : Kernel)
      → q < 8
      → ready c q ≡ x ∷ l
      → ((j : ℕ) → j < q → ready c j ≡ [])
      → IsReady t (with_queue c q l ready)
      → current_thread (t.scheds c) ≡ x
      → t.threads x ≡ record (k.threads x) { next = 0; prev = 0 }
      → Scheduled k ready c (done (x, t))

queue_empty :
    (k : Kernel) (ready : ℕ → ℕ → List ℕ) (c q : ℕ)
    → IsReady k ready
    → q < 8
    → ready_heads (k.scheds c) q ≡ 0
    → ready c q ≡ []
queue_empty k ready c q v small z = go (ready c q) (v.links c q small) (sym (v.heads c q small) ∙ z)
  where
    go : (l : List ℕ) → Links k.threads c q 0 l → first l ≡ 0 → l ≡ []
    go [] h e = refl
    go (x ∷ l) (pos, b, h) e = absurd (omega arith)

-- The next thread to run is the one that has been ready for longest among those of the highest
-- priority, the lowest number, that any ready thread of the processor has; it leaves its queue, and
-- nothing else changes in the queues. If no thread is ready, the kernel panics.
pub scheduler_schedule_thread_lem :
    (k : Kernel) (ready : ℕ → ℕ → List ℕ) (c : ℕ)
    → IsReady k ready
    → Scheduled k ready c (scheduler_schedule_thread c k)
unfolding scheduler_schedule_thread scheduler_get_first_non_empty first_non_empty
scheduler_schedule_thread_lem k ready c v = elim (first_non_empty_lem 8 0 (k.scheds c)) [
  | inl (lo, hi, some_head, before) ↦
      found (first_non_empty 8 0 (k.scheds c)) refl hi some_head before (ready c _) refl
  | inr (e, empty) ↦
      rw e (nothing (λ q p. queue_empty k ready c q v p (empty q (omega arith) (omega arith))))
]
  where
    found :
        (r : ℕ)
        → first_non_empty 8 0 (k.scheds c) ≡ r
        → r < 8
        → ready_heads (k.scheds c) r ≢ 0
        → ((j : ℕ) → 0 ≤ j → j < r → ready_heads (k.scheds c) j ≡ 0)
        → (l : List ℕ) → ready c r ≡ l
        → Scheduled k ready c (scheduler_schedule_thread c k)
    found r e hi some_head before [] at = absurd (some_head (v.heads c r hi ∙ ap first at))
    found r e hi some_head before (x ∷ l) at =
        let (t, got, v', taken) = scheduler_remove_ready_lem k ready c r x l v hi at in
        subst (Scheduled k ready c) (sym (schedule-runs k c r x t e hi got)) (
          runs r x l (with_sched c (put_current x) t) hi at
            (λ j p. queue_empty k ready c j v (omega arith) (before j (omega arith) p))
            (IsReady-current t (with_queue c r l ready) c x v') (current-with_sched c x t) taken)
