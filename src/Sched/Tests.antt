-- ===== src/Sched/Tests.antt =====
-- The theorems on the scheduler at a processor with two threads.
use radix_os.Base.{
  Bool-cases, List, [], arith, if◌then◌else◌, inl, inr, refl, true, ℕ, ◌&&◌, ◌==◌, ◌||◌, ◌∷◌, ◌≡◌,
  ◌≢◌,
}
use radix_os.Sched.{
  Tcb, Kernel, scheduler_add_ready, scheduler_remove_ready, scheduler_preempt_thread,
  scheduler_schedule_thread, preempt_and_schedule, current_thread, ready_tails,
}
use radix_os.Sched.Ready.{IsReady, with_queue, scheduler_add_ready_lem}
use radix_os.Sched.Schedule.{Scheduled, scheduler_schedule_thread_lem, scheduler_remove_ready_lem}
use radix_os.Sched.Timer.{Switched, scheduler_preempt_thread_lem, preempt_and_schedule_lem}

abbrev thread : ℕ → Tcb
thread x = record {
  context = [];
  tid = x;
  is_kernel = true;
  exec_cpu = 0;
  priotity = 0;
  prev = 0;
  next = 0;
}

-- Thread 2000 is ready on processor 0, where thread 1000 runs; both have priority 0.
abbrev two_threads : Kernel
two_threads = record {
  threads = thread;
  scheds = λ c. record {
    words =
        λ i. if c == 0 && (i == 0 || i == 8) then 2000 else if c == 0 && i == 17 then 1000 else 0;
  };
}

abbrev one_ready : ℕ → ℕ → List ℕ
one_ready c q = if c == 0 && q == 0 then 2000 ∷ [] else []

two_threads-IsReady : IsReady two_threads one_ready
two_threads-IsReady = record {
  links = λ c q p. elim (Bool-cases (c == 0 && q == 0)) [
    | inl here ↦ rw here (
      omega arith,
      record { cpu = ground arith; priority = ground arith; before = refl; after = refl },
      tt,
    )
    | inr there ↦ rw there tt
  ];
  distinct = λ c q p. elim (Bool-cases (c == 0 && q == 0)) [
    | inl here ↦ rw here (tt, tt)
    | inr there ↦ rw there tt
  ];
  heads = λ c q p. elim (Bool-cases (c == 0 && q == 0)) [
    | inl here ↦ rw here (ground arith)
    | inr there ↦ rw there (ground arith)
  ];
  tails = λ c q p. elim (Bool-cases (c == 0 && q == 0)) [
    | inl here ↦ rw here (ground arith)
    | inr there ↦ rw there (ground arith)
  ];
}

scheduler_add_ready_lem_example :
    IsReady (scheduler_add_ready 3000 two_threads) (with_queue 0 0 (2000 ∷ 3000 ∷ []) one_ready)
scheduler_add_ready_lem_example =
    scheduler_add_ready_lem two_threads one_ready 3000 two_threads-IsReady (omega arith)
      (omega arith) ((λ e. omega arith), tt)

scheduler_schedule_thread_lem_example :
    Scheduled two_threads one_ready 0 (scheduler_schedule_thread 0 two_threads)
scheduler_schedule_thread_lem_example =
    scheduler_schedule_thread_lem two_threads one_ready 0 two_threads-IsReady

scheduler_remove_ready_lem_example :
    (t : Kernel) × (scheduler_remove_ready 0 0 two_threads ≡ (2000, t))
    × IsReady t (with_queue 0 0 [] one_ready)
    × (t.threads 2000 ≡ record (thread 2000) { next = 0; prev = 0 })
scheduler_remove_ready_lem_example =
    scheduler_remove_ready_lem two_threads one_ready 0 0 2000 [] two_threads-IsReady (omega arith)
      refl

scheduler_preempt_thread_lem_example :
    (t : Kernel) × (scheduler_preempt_thread 0 (7 ∷ []) two_threads ≡ (1000, t))
    × IsReady t (with_queue 0 0 (2000 ∷ 1000 ∷ []) one_ready)
    × ((t.threads 1000).context ≡ 7 ∷ [])
    × ((y : ℕ) → y ≢ 1000 → (t.threads y).context ≡ (two_threads.threads y).context)
    × (current_thread (t.scheds 0) ≡ 0)
scheduler_preempt_thread_lem_example =
    scheduler_preempt_thread_lem two_threads one_ready 0 1000 (7 ∷ []) two_threads-IsReady refl
      (omega arith) (omega arith) ((λ e. omega arith), tt)

preempt_and_schedule_lem_example :
    Switched
      (with_queue 0 0 (2000 ∷ 1000 ∷ []) one_ready)
      0
      0
      (preempt_and_schedule 0 (7 ∷ []) two_threads)
preempt_and_schedule_lem_example =
    preempt_and_schedule_lem two_threads one_ready 1000 (7 ∷ []) two_threads-IsReady refl
      (omega arith) (omega arith) ((λ e. omega arith), tt)

-- A thread of priority 8 becomes the tail of the queue of priority 0.
past_the_queues :
    ready_tails
      ((scheduler_add_ready 3000
          (record two_threads { threads = λ x. record (thread x) { priotity = 8 } })).scheds
        0)
      0
    ≡ 3000
unfolding scheduler_add_ready
past_the_queues = refl
