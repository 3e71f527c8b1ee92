-- ===== src/Process/Create.antt =====
-- `process_create` and `thread_create`, and what is found in the slots then.
use radix_os.Base.{
  Bool, Bool-cases, List, Option, ap, arith, false, get_elem?, if◌then◌else◌, inl, inr, leb, length,
  none, refl, some, true, ℕ, ◌%◌, ◌+◌, ◌-◌, ◌==◌, ◌^◌, ◌≡◌, ◌≢◌,
}
use radix_os.Exec.{done}
use radix_os.Slots.{Tried, try_slots_lem}
use radix_os.VmContract.{vm_contract_init}
use radix_os.Process.{
  new_one, is_empty, Process, Tables, NewThread, max_process_slots, max_thread_slots, with_process,
  with_slot, new_thread, Thread, trap_frame_init_user, trap_frame_init_kernel,
  process_create_static, process_create, get_process, thread_create_static, thread_create,
  get_thread,
}

abbrev pub free_process : Tables → ℕ → Bool
free_process s i = is_empty (s.processes i).flags

abbrev pub free_thread : Tables → ℕ → Bool
free_thread s i = is_empty (s.threads i).flags

-- The slot has a new process with this id, directory and parent and an empty memory map.
pub record IsProcess (parent : Option ℕ) (pdir : ℕ) (s : Tables) (pid : ℕ) (t : Tables)
    : Type 0 where
  pub found :
      (p : Process) × (get_process pid t ≡ some p)
      × (p.pid ≡ pid)
      × (p.parent ≡ parent)
      × (p.p_page_directory ≡ pdir)
      × (p.memory_contract ≡ vm_contract_init)
  pub others : (i : ℕ) → i ≢ pid → t.processes i ≡ s.processes i
  pub threads : t.threads ≡ s.threads
  pub unlocked : t.ps_lock ≡ false

-- A frame from which a thread starts at its entry point with interrupts enabled, in the code segment
-- and on the stack of the kernel or of the user. The words are counted from the end of the frame
-- that lies lowest.
pub record IsFrame (a : NewThread) (common_stack_top : ℕ) (context : List ℕ) : Type 0 where
  pub entry_point : get_elem? context 14 ≡ some a.entry_point
  pub code_segment : get_elem? context 15 ≡ some (if a.is_kernel then 0x8 else 0x1b)
  pub interrupts : get_elem? context 16 ≡ some 0x200
  pub kernel_esp :
      get_elem? context 7
      ≡ some (
          (if a.is_kernel then a.stack_top + 2 ^ 32 - 52 else common_stack_top + 2 ^ 32 - 60)
          % 2 ^ 32)
  pub user_stack : a.is_kernel ≡ false → get_elem? context 17 ≡ some a.stack_top
  pub user_segment : a.is_kernel ≡ false → get_elem? context 18 ≡ some 0x23

-- The slot has a thread with this id and what was asked for, which is in no queue and has no mailbox,
-- and no other slot has changed.
pub record IsThread (a : NewThread) (s : Tables) (tid : ℕ) (t : Tables) : Type 0 where
  pub found : get_thread tid t ≡ some (t.threads tid)
  pub flags : (t.threads tid).flags ≡ new_one
  pub has_id : (t.threads tid).tcb.tid ≡ tid
  pub parent : (t.threads tid).parent ≡ a.parent
  pub priority : (t.threads tid).tcb.priotity ≡ a.priority
  pub is_kernel : (t.threads tid).tcb.is_kernel ≡ a.is_kernel
  pub exec_cpu : (t.threads tid).tcb.exec_cpu ≡ a.exec_cpu
  pub mailbox : (t.threads tid).mailbox ≡ none
  pub next : (t.threads tid).tcb.next ≡ 0
  pub prev : (t.threads tid).tcb.prev ≡ 0
  pub frame : IsFrame a (s.common_stack_top a.exec_cpu) (t.threads tid).tcb.context
  pub others : (i : ℕ) → i ≢ tid → t.threads i ≡ s.threads i
  pub processes : t.processes ≡ s.processes
  pub unlocked : t.ts_lock ≡ false

free_process-IsProcess :
    (parent : Option ℕ) (pdir : ℕ) (name : List ℕ) (s : Tables) (pid : ℕ)
    → s.ps_lock ≡ false
    → free_process s pid ≡ true
    → (t : Tables) × (process_create_static parent pdir name pid s ≡ done (some pid, t))
      × IsProcess parent pdir s pid t
unfolding process_create_static with_process get_process
free_process-IsProcess parent pdir name s pid unlocked free =
    let here : (pid == pid) ≡ true = ground arith in
    let t =
      with_process pid
        (λ p. record p {
          pid = pid;
          parent = parent;
          p_page_directory = pdir;
          lock = false;
          name = if leb (length name) 16 then name else p.name;
          memory_contract = vm_contract_init;
        })
        (record (with_process pid (λ p. record p { flags = new_one }) s) { ps_lock = false }) in
    (
      t,
      rw (unlocked, free) refl,
      record {
        found =
            (t.processes pid, rw here refl, rw here refl, rw here refl, rw here refl, rw here refl);
        others = λ i ne. let there : (i == pid) ≡ false = ground (arith, ne) in rw there refl;
        threads = refl;
        unlocked = refl;
      },
    )

-- The frame of either kind of thread is such a frame.
context-IsFrame :
    (a : NewThread) (tid : ℕ) (common : ℕ → ℕ) (b : Thread)
    → IsFrame a (common a.exec_cpu) (new_thread a tid common b).tcb.context
unfolding new_thread trap_frame_init_user trap_frame_init_kernel
context-IsFrame a tid common b = elim (Bool-cases a.is_kernel) [
  | inl kernel ↦ rw kernel (record {
    entry_point = refl;
    code_segment = refl;
    interrupts = refl;
    kernel_esp = ap some (omega arith);
    user_stack = λ user. absurd (ground arith);
    user_segment = λ user. absurd (ground arith);
  })
  | inr user ↦ rw user (record {
    entry_point = refl;
    code_segment = refl;
    interrupts = refl;
    kernel_esp = ap some (omega arith);
    user_stack = λ _. refl;
    user_segment = λ _. refl;
  })
]

free_thread-IsThread :
    (a : NewThread) (s : Tables) (tid : ℕ)
    → s.ts_lock ≡ false
    → free_thread s tid ≡ true
    → (t : Tables) × (thread_create_static a tid s ≡ done (some tid, t)) × IsThread a s tid t
unfolding thread_create_static with_slot get_thread new_thread
free_thread-IsThread a s tid unlocked free =
    let here : (tid == tid) ≡ true = ground arith in
    (
      with_slot tid (new_thread a tid s.common_stack_top)
          (record (with_slot tid (λ b. record b { flags = new_one }) s) { ts_lock = false }),
      rw (unlocked, free) refl,
      record {
        found = rw here refl;
        flags = rw here refl;
        has_id = rw here refl;
        parent = rw here refl;
        priority = rw here refl;
        is_kernel = rw here refl;
        exec_cpu = rw here refl;
        mailbox = rw here refl;
        next = rw here refl;
        prev = rw here refl;
        frame =
            rw here (
              context-IsFrame a tid s.common_stack_top
                (record (s.threads tid) { flags = new_one }));
        others = λ i ne. let there : (i == tid) ≡ false = ground (arith, ne) in rw there refl;
        processes = refl;
        unlocked = refl;
      },
    )

process_in_used :
    (parent : Option ℕ) (pdir : ℕ) (name : List ℕ) (s : Tables) (pid : ℕ)
    → s.ps_lock ≡ false
    → free_process s pid ≡ false
    → process_create_static parent pdir name pid s ≡ done (none, s)
unfolding process_create_static
process_in_used parent pdir name s pid unlocked used = rw (unlocked, used) refl

thread_in_used :
    (a : NewThread) (s : Tables) (tid : ℕ)
    → s.ts_lock ≡ false
    → free_thread s tid ≡ false
    → thread_create_static a tid s ≡ done (none, s)
unfolding thread_create_static
thread_in_used a s tid unlocked used = rw (unlocked, used) refl

-- With the lock of the processes free, `process_create` comes back. Either no slot is free, and it
-- returns null and changes nothing; or it returns the first free slot, in which `get_process` then
-- finds a process with the slot's index as its id, the parent, the directory and an empty memory
-- map; no other slot and no thread has changed.
pub process_create_lem :
    (parent : Option ℕ) (pdbr : ℕ) (name : List ℕ) (s : Tables)
    → s.ps_lock ≡ false
    → (o : Option ℕ) × (t : Tables) × (process_create parent pdbr name s ≡ done (o, t))
      × Tried (IsProcess parent pdbr s) (free_process s) s max_process_slots 0 o t
unfolding process_create
process_create_lem parent pdbr name s unlocked =
    try_slots_lem (IsProcess parent pdbr s) (free_process s) s
      (λ i. process_create_static parent pdbr name i)
      (λ i used. process_in_used parent pdbr name s i unlocked used)
      (λ i free. free_process-IsProcess parent pdbr name s i unlocked free) max_process_slots 0

-- With the lock of the threads free, `thread_create` comes back. Either no slot is free, and it
-- returns null and changes nothing; or it returns the first free slot, in which `get_thread` then
-- finds a new thread that has the slot's index as its id, the parent, priority, kind and processor asked
-- for, no mailbox and no neighbours in a queue, and a frame with the entry point, the code segment
-- of its kind, interrupts enabled and its stack; no other slot and no process has changed.
pub thread_create_lem :
    (a : NewThread) (s : Tables)
    → s.ts_lock ≡ false
    → (o : Option ℕ) × (t : Tables) × (thread_create a s ≡ done (o, t))
      × Tried (IsThread a s) (free_thread s) s max_thread_slots 0 o t
unfolding thread_create
thread_create_lem a s unlocked =
    try_slots_lem (IsThread a s) (free_thread s) s (thread_create_static a)
      (λ i used. thread_in_used a s i unlocked used)
      (λ i free. free_thread-IsThread a s i unlocked free) max_thread_slots 0
