-- ===== src/Sched.antt =====
-- kernel/thread_sched.c: the scheduler of each processor, with a ready queue for each priority.
-- A thread control block is named by its address, 0 the null pointer; the queues run through the
-- blocks' own `next` and `prev`. A scheduler is named by its processor, and is the words of the
-- record in memory: 8 heads, 8 tails, the lock and the running thread. So an access with a priority
-- that is too large, which the code does not test, goes where it goes in the code: the head of
-- priority 8 is the tail of priority 0, and the tail of priority 9 is the running thread.
pub mod Queue
pub mod Ready
pub mod Schedule
pub mod Timer
pub mod Tests
use radix_os.Base.{
  ==_iff, All, All-append, All-get_or, All-imp, All-middle, All-set, Any, Any-left, Any-right, Bool,
  Bool-cases, List, Option, Option-cases, Ordering, [], ap, append-nil, append_assoc, ap₂, arith,
  compare, compare-cases, drop, false, get_elem?, get_elem?-set_ne, get_elem?-set_self, get_or,
  get_or-set, if◌then◌else◌, inl, inr, leb, length, length-append, length-drop, length-map,
  length-replicate, length-set, length-take, le→ltb, ltb, ltb→le, ltb→lt, lt→ltb, map, max, min,
  none, not, refl, replicate, set, some, subst, suc, sym, take, take-append-drop, true, zero, ℕ,
  ◌%◌, ◌&&◌, ◌*◌, ◌++◌, ◌+◌, ◌-◌, ◌/◌, ◌<◌, ◌==◌, ◌^◌, ◌||◌, ◌↔◌, ◌∙◌, ◌∷◌, ◌≡◌, ◌≢◌, ◌≤◌, ◌⊎◌,
}
use radix_os.Exec.{Run, done, panicked}

-- `context` are the words of the trap frame, which is a prefix of it for a kernel thread.
pub record Tcb : Type 0 where
  pub context : List ℕ
  pub tid : ℕ
  pub is_kernel : Bool
  pub exec_cpu : ℕ
  pub priotity : ℕ
  pub prev : ℕ
  pub next : ℕ

pub record ThreadSched : Type 0 where
  pub words : ℕ → ℕ

pub record Kernel : Type 0 where
  pub threads : ℕ → Tcb
  pub scheds : ℕ → ThreadSched

abbrev pub number_priorities : ℕ
number_priorities = 8

-- the fields of a scheduler; word 16 is `lock`, which none of these functions reads
abbrev pub ready_heads : ThreadSched → ℕ → ℕ
ready_heads s q = s.words q

abbrev pub ready_tails : ThreadSched → ℕ → ℕ
ready_tails s q = s.words (8 + q)

abbrev pub current_thread : ThreadSched → ℕ
current_thread s = s.words 17

-- assignments to a block, to a scheduler, and to a field of one
unfoldable pub with_thread : ℕ → (Tcb → Tcb) → Kernel → Kernel
with_thread x f k = record k { threads = λ y. if y == x then f (k.threads y) else k.threads y }

pub with_sched : ℕ → (ThreadSched → ThreadSched) → Kernel → Kernel
with_sched c f k = record k { scheds = λ d. if d == c then f (k.scheds d) else k.scheds d }

abbrev pub put : ℕ → ℕ → ThreadSched → ThreadSched
put i x s = record { words = λ j. if j == i then x else s.words j }

abbrev pub put_head : ℕ → ℕ → ThreadSched → ThreadSched
put_head q = put q

abbrev pub put_tail : ℕ → ℕ → ThreadSched → ThreadSched
put_tail q = put (8 + q)

abbrev pub put_current : ℕ → ThreadSched → ThreadSched
put_current = put 17

-- with the rounds left
pub first_non_empty : ℕ → ℕ → ThreadSched → ℕ
first_non_empty zero i s = number_priorities
first_non_empty (suc n) i s =
    let rest = first_non_empty n (i + 1) s in if not (ready_heads s i == 0) then i else rest

pub scheduler_get_first_non_empty : ThreadSched → ℕ
unfolding first_non_empty
scheduler_get_first_non_empty s = first_non_empty number_priorities 0 s

pub scheduler_remove_ready : ℕ → ℕ → Kernel → ℕ × Kernel
unfolding with_thread with_sched
scheduler_remove_ready c q_index k =
    let head = ready_heads (k.scheds c) q_index in
    let next = (k.threads head).next in
    let t = with_sched c (put_head q_index next) k in
    let u =
      if next == 0
      then with_sched c (λ s. put_head q_index 0 (put_tail q_index 0 s)) t
      else with_thread next (λ b. record b { prev = 0 }) t in
    (head, with_thread head (λ b. record b { next = 0; prev = 0 }) u)

pub scheduler_remove_running : ℕ → Kernel → ℕ × Kernel
unfolding with_sched
scheduler_remove_running c k = (current_thread (k.scheds c), with_sched c (put_current 0) k)

-- `memcpy` of the first `n` words
abbrev pub copy_words : ℕ → List ℕ → List ℕ → List ℕ
copy_words n source dest = take n source ++ drop n dest

pub scheduler_save_thread : ℕ → List ℕ → Kernel → Kernel
unfolding with_thread
scheduler_save_thread thread current_frame = with_thread thread (λ b. record b {
  context = copy_words (if b.is_kernel then 17 else 19) current_frame b.context;
})

pub scheduler_add_ready : ℕ → Kernel → Kernel
unfolding with_thread with_sched
scheduler_add_ready thread k =
    let c = (k.threads thread).exec_cpu in
    let priority = (k.threads thread).priotity in
    let tail = ready_tails (k.scheds c) priority in
    if tail == 0
    then with_thread thread (λ b. record b { next = 0; prev = 0 })
        (with_sched c (λ s. put_tail priority thread (put_head priority thread s)) k)
    else with_sched c (put_tail priority thread) (
        with_thread thread (λ b. record b { prev = tail; next = 0 })
          (with_thread tail (λ b. record b { next = thread }) k))

pub scheduler_evict_thread : ℕ → List ℕ → Kernel → ℕ × Kernel
unfolding scheduler_remove_running scheduler_save_thread
scheduler_evict_thread c current_frame k =
    if not (current_thread (k.scheds c) == 0)
    then (let (old_thread, t) = scheduler_remove_running c k in
        (old_thread, scheduler_save_thread old_thread current_frame t))
    else (0, k)

pub scheduler_preempt_thread : ℕ → List ℕ → Kernel → ℕ × Kernel
unfolding scheduler_evict_thread scheduler_add_ready
scheduler_preempt_thread c current_frame k =
    let (thread, t) = scheduler_evict_thread c current_frame k in
    (thread, if not (thread == 0) then scheduler_add_ready thread t else t)

pub scheduler_schedule_thread : ℕ → Kernel → Run (ℕ × Kernel)
unfolding scheduler_remove_ready scheduler_get_first_non_empty with_sched
scheduler_schedule_thread c k =
    let q_index = scheduler_get_first_non_empty (k.scheds c) in
    if leb number_priorities q_index
    then panicked
    else (let (to_run, t) = scheduler_remove_ready c q_index k in
        done (to_run, with_sched c (put_current to_run) t))

-- The two calls by which the timer interrupt and the message to reschedule switch threads.
pub preempt_and_schedule : ℕ → List ℕ → Kernel → Run (ℕ × Kernel)
unfolding scheduler_preempt_thread scheduler_schedule_thread
preempt_and_schedule c regs k = scheduler_schedule_thread c (scheduler_preempt_thread c regs k).1
