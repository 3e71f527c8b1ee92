-- ===== src/Sched/Timer.antt =====
-- `scheduler_preempt_thread`, and the switch of threads by the timer.
use native.Mathlib.Decide.{dec_le}
use radix_os.Base.{
  Bool-cases, List, [], ap, ap₂, arith, drop, false, if◌then◌else◌, inl, inr, length, length-append,
  not, refl, subst, sym, take, true, ℕ, ◌&&◌, ◌++◌, ◌<◌, ◌==◌, ◌∙◌, ◌∷◌, ◌≡◌, ◌≢◌, ◌≤◌,
}
use radix_os.Exec.{Run, done}
use radix_os.Sched.{
  Kernel, with_thread, with_sched, scheduler_add_ready, scheduler_save_thread,
  scheduler_remove_running, scheduler_evict_thread, scheduler_preempt_thread, preempt_and_schedule,
  current_thread, put_current,
}
use radix_os.Sched.Queue.{first, last, IsLinked, Links, Fresh}
use radix_os.Sched.Ready.{
  IsReady, with_queue, cpu_of, priority_of, scheduler_add_ready_lem, add_ready-current,
  add_ready-context, last-Fresh,
}
use radix_os.Sched.Schedule.{Scheduled, nothing, runs, scheduler_schedule_thread_lem}

-- the kernel after `scheduler_evict_thread` has taken `x` from the processor `c`
abbrev pub evicted : ℕ → ℕ → List ℕ → Kernel → Kernel
evicted c x regs k = scheduler_save_thread x regs (with_sched c (put_current 0) k)

-- Words copied into the context of a thread leave its links as they are.
saved-Links :
    (k : Kernel) (x y c q p n : ℕ) (regs : List ℕ)
    → IsLinked (k.threads y) c q p n
    → IsLinked ((scheduler_save_thread x regs k).threads y) c q p n
unfolding scheduler_save_thread with_thread
saved-Links k x y c q p n regs b = elim (Bool-cases (y == x)) [
  | inl here ↦
      rw here (record { cpu = b.cpu; priority = b.priority; before = b.before; after = b.after })
  | inr there ↦ rw there b
]

saved_queue :
    (k : Kernel) (x c q p : ℕ) (regs l : List ℕ)
    → Links k.threads c q p l
    → Links (scheduler_save_thread x regs k).threads c q p l
saved_queue k x c q p regs [] h = tt
saved_queue k x c q p regs (y ∷ l) (pos, b, h) =
    (pos, saved-Links k x y c q p (first l) regs b, saved_queue k x c q y regs l h)

evicted-IsReady :
    (k : Kernel) (ready : ℕ → ℕ → List ℕ) (c x : ℕ) (regs : List ℕ)
    → IsReady k ready
    → IsReady (evicted c x regs k) ready
unfolding scheduler_save_thread with_sched with_thread
evicted-IsReady k ready c x regs v = record {
  links = λ c' q' p'.
      saved_queue (with_sched c (put_current 0) k) x c' q' 0 regs (ready c' q') (v.links c' q' p');
  distinct = v.distinct;
  heads = λ c' q' p'. ground (arith, v.heads c' q' p');
  tails = λ c' q' p'. ground (arith, v.tails c' q' p');
}

evicted-owner :
    (k : Kernel) (c x : ℕ) (regs : List ℕ)
    → (cpu_of (evicted c x regs k) x ≡ cpu_of k x)
      × (priority_of (evicted c x regs k) x ≡ priority_of k x)
unfolding scheduler_save_thread with_sched with_thread
evicted-owner k c x regs =
    let here : (x == x) ≡ true = ground arith in
    (rw (here, cpu_of) refl, rw (here, priority_of) refl)

evict-running :
    (k : Kernel) (c x : ℕ) (regs : List ℕ)
    → current_thread (k.scheds c) ≡ x
    → 0 < x
    → scheduler_evict_thread c regs k ≡ (x, evicted c x regs k)
unfolding scheduler_evict_thread scheduler_remove_running
evict-running k c x regs e pos =
    let some_thread : (x == 0) ≡ false = ground arith in rw (e, some_thread) refl

preempt-running :
    (k : Kernel) (c x : ℕ) (regs : List ℕ)
    → current_thread (k.scheds c) ≡ x
    → 0 < x
    → scheduler_preempt_thread c regs k ≡ (x, scheduler_add_ready x (evicted c x regs k))
unfolding scheduler_preempt_thread
preempt-running k c x regs e pos =
    let some_thread : (x == 0) ≡ false = ground arith in
    ap back (evict-running k c x regs e pos) ∙ rw some_thread refl
  where
    back : ℕ × Kernel → ℕ × Kernel
    back (y, t) = (y, if not (y == 0) then scheduler_add_ready y t else t)

-- the words of the frame that are saved, by the kind of the thread
abbrev pub frame_words : Kernel → ℕ → ℕ
frame_words k x = if (k.threads x).is_kernel then 17 else 19

-- the frame copied over the first words of the context, for a kernel thread its own part of it
evicted-context :
    (k : Kernel) (c x : ℕ) (regs : List ℕ)
    → ((evicted c x regs k).threads x).context
      ≡ take (frame_words k x) regs ++ drop (frame_words k x) (k.threads x).context
unfolding scheduler_save_thread with_sched with_thread
evicted-context k c x regs = let here : (x == x) ≡ true = ground arith in rw here refl

evicted-others :
    (k : Kernel) (c x y : ℕ) (regs : List ℕ)
    → y ≢ x
    → ((evicted c x regs k).threads y).context ≡ (k.threads y).context
unfolding scheduler_save_thread with_sched with_thread
evicted-others k c x y regs ne = let there : (y == x) ≡ false = ground (arith, ne) in rw there refl

evicted-current :
    (k : Kernel) (c x : ℕ) (regs : List ℕ) → current_thread ((evicted c x regs k).scheds c) ≡ 0
unfolding scheduler_save_thread with_sched with_thread
evicted-current k c x regs = ground arith

-- The running thread of a processor, of one of the 8 priorities and not in its ready queue already,
-- goes to the end of that. The frame is saved over the first words of its context, 17 for a kernel
-- thread and 19 for another, no other thread's context changes, and the processor runs no thread.
pub scheduler_preempt_thread_lem :
    (k : Kernel) (ready : ℕ → ℕ → List ℕ) (c x : ℕ) (regs : List ℕ)
    → IsReady k ready
    → current_thread (k.scheds c) ≡ x
    → 0 < x
    → priority_of k x < 8
    → Fresh x (ready (cpu_of k x) (priority_of k x))
    → (t : Kernel) × (scheduler_preempt_thread c regs k ≡ (x, t))
      × IsReady t (
          with_queue
            (cpu_of k x)
            (priority_of k x)
            (ready (cpu_of k x) (priority_of k x) ++ x ∷ [])
            ready)
      × ((t.threads x).context
          ≡ take (frame_words k x) regs ++ drop (frame_words k x) (k.threads x).context)
      × ((y : ℕ) → y ≢ x → (t.threads y).context ≡ (k.threads y).context)
      × (current_thread (t.scheds c) ≡ 0)
scheduler_preempt_thread_lem k ready c x regs v e pos small fresh =
    let (cpu, priority) = evicted-owner k c x regs in
    let u = evicted c x regs k in
    let ready_u = evicted-IsReady k ready c x regs v in
    let small_u : priority_of u x < 8 = omega (arith, priority) in
    let owner = ap₂ (λ i j. (i, j)) cpu priority in
    let fresh_u : Fresh x (ready (cpu_of u x) (priority_of u x)) =
      subst (λ (i : ℕ × ℕ). Fresh x (ready i.0 i.1)) (sym owner) fresh in
    let tail = ready_u.tails (cpu_of u x) (priority_of u x) small_u in
    let context =
      add_ready-context u x (last (ready (cpu_of u x) (priority_of u x))) tail
        (last-Fresh x (ready (cpu_of u x) (priority_of u x)) pos fresh_u) in
    (
      scheduler_add_ready x u,
      preempt-running k c x regs e pos,
      subst
          (λ (i : ℕ × ℕ).
            IsReady (scheduler_add_ready x u) (with_queue i.0 i.1 (ready i.0 i.1 ++ x ∷ []) ready))
          owner (scheduler_add_ready_lem u ready x ready_u pos small_u fresh_u),
      context x ∙ evicted-context k c x regs,
      λ y ne. context y ∙ evicted-others k c x y regs ne,
      add_ready-current u x _ tail c small_u ∙ evicted-current k c x regs,
    )

append-not_nil : (x : ℕ) (l : List ℕ) → l ++ x ∷ [] ≢ []
append-not_nil x l e = omega (arith, ap length e, length-append l (x ∷ []))

-- What a switch of threads comes to on the processor `c`, where the queues stand as in `ready` when
-- the old thread has joined them: it comes back, with the first thread of the first queue that is
-- not empty, of priority `q` or before, running.
abbrev pub Switched : (ℕ → ℕ → List ℕ) → ℕ → ℕ → Run (ℕ × Kernel) → Type 0
Switched ready c p o =
    (q y : ℕ) × (l : List ℕ) × (t : Kernel) × (o ≡ done (y, t))
    × (q ≤ p)
    × (ready c q ≡ y ∷ l)
    × ((j : ℕ) → j < q → ready c j ≡ [])
    × IsReady t (with_queue c q l ready)
    × (current_thread (t.scheds c) ≡ y)

switched :
    (k : Kernel) (ready : ℕ → ℕ → List ℕ) (c p : ℕ) (o : Run (ℕ × Kernel))
    → p < 8
    → ready c p ≢ []
    → Scheduled k ready c o
    → Switched ready c p o
switched k ready c p o small ne (nothing empty) = absurd (ne (empty p small))
switched k ready c p o small ne (runs q x l t hi at before v current same) = (
  q,
  x,
  l,
  t,
  refl,
  elim (dec_le q p) [ yes d ↦ d | no d ↦ absurd (ne (before p (omega arith))) ],
  at,
  before,
  v,
  current,
)

-- With a thread `x` running on its processor, which is of one of the 8 priorities and not in its
-- ready queue, the switch of threads does not panic. `x` goes to the end of the queue of its
-- priority, and the thread that then runs is the first one of the first queue that is not empty,
-- whose priority is not lower than that of `x`; it leaves its queue, and the other queues are as
-- before.
pub preempt_and_schedule_lem :
    (k : Kernel) (ready : ℕ → ℕ → List ℕ) (x : ℕ) (regs : List ℕ)
    → IsReady k ready
    → current_thread (k.scheds (cpu_of k x)) ≡ x
    → 0 < x
    → priority_of k x < 8
    → Fresh x (ready (cpu_of k x) (priority_of k x))
    → let c = cpu_of k x in
      let p = priority_of k x in
      Switched (with_queue c p (ready c p ++ x ∷ []) ready) c p (preempt_and_schedule c regs k)
unfolding preempt_and_schedule
preempt_and_schedule_lem k ready x regs v e pos small fresh =
    let c = cpu_of k x in
    let p = priority_of k x in
    let (t, got, v', _, _, _) = scheduler_preempt_thread_lem k ready c x regs v e pos small fresh in
    let ready' = with_queue c p (ready c p ++ x ∷ []) ready in
    let here : (c == c && p == p) ≡ true = ground arith in
    let at : ready' c p ≡ ready c p ++ x ∷ [] = rw here refl in
    switched (scheduler_preempt_thread c regs k).1 ready' c p _ small
      (λ z. append-not_nil x (ready c p) (sym at ∙ z))
      (scheduler_schedule_thread_lem (scheduler_preempt_thread c regs k).1 ready' c
        (subst (λ (i : ℕ × Kernel). IsReady i.1 ready') (sym got) v'))
