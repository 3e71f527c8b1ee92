-- ===== src/Ipc/Tests.antt =====
-- The theorems on messages at a state with two processors, for whose semaphore 9 the threads 5 and 7
-- wait.
use radix_os.Base.{
  Option, [], arith, false, if◌then◌else◌, ltb, refl, true, ℕ, ◌*◌, ◌/◌, ◌<◌, ◌==◌, ◌∷◌, ◌≡◌, ◌⊎◌,
}
use radix_os.Exec.{done}
use radix_os.Sched.{Tcb}
use radix_os.Slots.{Tried}
use radix_os.Ipc.{
  mailbox_none, mailbox_cpu, mailbox_thread, Ipc, returned, asleep, max_mailbox_slots,
  semaphore_wait, semaphore_signal, mailbox_create,
}
use radix_os.Ipc.Mailboxes.{IsCreated, is_free, mailbox_create_lem}
use radix_os.Ipc.Waiting.{IsWaiting}
use radix_os.Ipc.Semaphores.{IsIdle, Signalled, sleep, semaphore_signal_lem, semaphore_wait_lem}

abbrev some_thread : ℕ → Tcb
some_thread x = record {
  context = [];
  tid = x;
  is_kernel = true;
  exec_cpu = 1;
  priotity = 0;
  prev = 0;
  next = if x == 5 then 7 else 0;
}

abbrev some_ipc : Ipc
some_ipc = record {
  kernel = record { threads = some_thread; scheds = λ c. record { words = λ i. 0 } };
  mailbox_slots = λ i. record {
    type = if ltb i 2 then mailbox_cpu else mailbox_none;
    owner = i * 0x1000;
    message = record { src = 0; dst = 0; func = 0; ptr = 0 };
    msg_lock = false;
  };
  semaphores = λ i. record { lock = false; count = 0; waiting_head = 5; waiting_tail = 7 };
  ms_lock = false;
  cpu_ids = λ a. a / 0x1000;
  interrupts = λ i. false;
}

some_ipc-IsWaiting : IsWaiting some_ipc 9 (5 ∷ 7 ∷ [])
some_ipc-IsWaiting = record {
  head = refl;
  tail = refl;
  links = (omega arith, refl, (omega arith, refl, tt));
  distinct = ((omega arith, tt), (tt, tt));
}

some_ipc-IsIdle : IsIdle some_ipc 1 1
some_ipc-IsIdle = record { type = refl; owner = refl; unlocked = refl }

semaphore_signal_lem_example :
    (t : Ipc) × (semaphore_signal 1 0 9 some_ipc ≡ returned t)
    × ((t.semaphores 9).lock ≡ false)
    × Signalled 0 9 some_ipc t (5 ∷ 7 ∷ [])
semaphore_signal_lem_example =
    semaphore_signal_lem 0 0 9 some_ipc (5 ∷ 7 ∷ []) some_ipc-IsWaiting refl some_ipc-IsIdle

semaphore_wait_lem_example :
    (t : Ipc) × IsWaiting t 9 (5 ∷ 7 ∷ [])
    × (((0 < 0)
          × (semaphore_wait 1 1 9 some_ipc ≡ returned t)
          × ((t.semaphores 9).count ≡ 0)
          × ((t.semaphores 9).lock ≡ false))
        ⊎ ((◌≡◌ {A = ℕ} 0 0)
            × (semaphore_wait 1 1 9 some_ipc ≡ asleep t)
            × ((t.semaphores 9).count ≡ 0)
            × ((t.semaphores 9).lock ≡ true)
            × ((t.mailbox_slots 1).message ≡ sleep 1 9)
            × (t.interrupts 1 ≡ true)))
semaphore_wait_lem_example =
    semaphore_wait_lem 0 1 9 some_ipc (5 ∷ 7 ∷ []) some_ipc-IsWaiting refl some_ipc-IsIdle

mailbox_create_lem_example :
    (o : Option ℕ) × (t : Ipc) × (mailbox_create mailbox_thread 5 some_ipc ≡ done (o, t))
    × Tried
        (λ mid t'. IsCreated mid mailbox_thread 5 some_ipc t')
        (is_free some_ipc)
        some_ipc
        max_mailbox_slots
        0
        o
        t
mailbox_create_lem_example = mailbox_create_lem mailbox_thread 5 some_ipc refl
