-- ===== src/Process.antt =====
-- kernel/process/process.c: the tables of processes and threads, and kernel/trap_frame.c: the frame
-- of a new thread. A slot is named by its index, which is the id of what stands in it. `name` is
-- without the byte 0 at its end.
pub mod Create
pub mod Tests
use radix_os.Base.{
  ==_iff, All, All-append, All-get_or, All-imp, All-middle, All-set, Any, Any-left, Any-right, Bool,
  Bool-cases, List, Option, Option-cases, Ordering, [], ap, append-nil, append_assoc, ap₂, arith,
  compare, compare-cases, drop, false, get_elem?, get_elem?-set_ne, get_elem?-set_self, get_or,
  get_or-set, if◌then◌else◌, inl, inr, leb, length, length-append, length-drop, length-map,
  length-replicate, length-set, length-take, le→ltb, ltb, ltb→le, ltb→lt, lt→ltb, map, max, min,
  none, not, refl, replicate, set, some, subst, suc, sym, take, take-append-drop, true, zero, ℕ,
  ◌%◌, ◌&&◌, ◌*◌, ◌++◌, ◌+◌, ◌-◌, ◌/◌, ◌<◌, ◌==◌, ◌^◌, ◌||◌, ◌↔◌, ◌∙◌, ◌∷◌, ◌≡◌, ◌≢◌, ◌≤◌, ◌⊎◌,
}
use radix_os.Exec.{Run, done, panicked, hung}
use radix_os.Slots.{try_slots}
use radix_os.Sched.{Tcb}
use radix_os.VmContract.{VmContract, vm_contract_init}
use radix_os.Ipc.{Ipc, mailbox_thread, mailbox_create, mailbox_create_static}

pub data SlotFlags : Type 0 where
  runnable : SlotFlags
  slot_empty : SlotFlags
  new_one : SlotFlags

abbrev pub is_empty : SlotFlags → Bool
is_empty runnable = false
is_empty slot_empty = true
is_empty new_one = false

pub record Process : Type 0 where
  pub flags : SlotFlags
  pub pid : ℕ
  pub parent : Option ℕ
  pub p_page_directory : ℕ
  pub lock : Bool
  pub name : List ℕ
  pub memory_contract : VmContract

-- a thread control block, with the fields that the scheduler uses
pub record Thread : Type 0 where
  pub flags : SlotFlags
  pub tcb : Tcb
  pub parent : ℕ
  pub mailbox : Option ℕ

-- `common_stack_top` is that of the storage of each processor.
pub record Tables : Type 0 where
  pub processes : ℕ → Process
  pub threads : ℕ → Thread
  pub ps_lock : Bool
  pub ts_lock : Bool
  pub common_stack_top : ℕ → ℕ

abbrev pub max_process_slots : ℕ
max_process_slots = 32767

abbrev pub max_thread_slots : ℕ
max_thread_slots = 65535

-- The words of the frames, in the order of the record: gs, fs, es, ds, edi, esi, ebp, kernel_esp,
-- ebx, edx, ecx, eax, int_no, err_code, eip, cs, flags, and esp and ss for a user thread.
pub trap_frame_init_user : ℕ → ℕ → ℕ → List ℕ
trap_frame_init_user entry_point kernel_stack_top stack_top =
    0x23
    ∷ 0x23
    ∷ 0x23
    ∷ 0x23
    ∷ 0
    ∷ 0
    ∷ 0
    ∷ (kernel_stack_top + 2 ^ 32 - 76 + 16) % 2 ^ 32
    ∷ 0xdead_baba
    ∷ 0x3bad_b002
    ∷ 0x2bad_b002
    ∷ 0x1bad_b002
    ∷ 0
    ∷ 0
    ∷ entry_point
    ∷ 0x1b
    ∷ 0x200
    ∷ stack_top
    ∷ 0x23
    ∷ []

pub trap_frame_init_kernel : ℕ → ℕ → ℕ → List ℕ
trap_frame_init_kernel entry_point kernel_stack_top exec_cpu =
    (5 + 3 * exec_cpu + 1) * 8
    ∷ 0x10
    ∷ 0x10
    ∷ 0x10
    ∷ 0
    ∷ 0
    ∷ 0
    ∷ (kernel_stack_top + 2 ^ 32 - 68 + 16) % 2 ^ 32
    ∷ 0
    ∷ 0
    ∷ 0
    ∷ 0
    ∷ 0
    ∷ 0
    ∷ entry_point
    ∷ 0x8
    ∷ 0x200
    ∷ []

pub with_process : ℕ → (Process → Process) → Tables → Tables
with_process pid f s = record s {
  processes = λ i. if i == pid then f (s.processes i) else s.processes i;
}

pub with_slot : ℕ → (Thread → Thread) → Tables → Tables
with_slot tid f s = record s { threads = λ i. if i == tid then f (s.threads i) else s.threads i }

-- `strcpy_s` to the 16 bytes of the name leaves it as it is if the other is longer.
pub process_create_static : Option ℕ → ℕ → List ℕ → ℕ → Tables → Run (Option ℕ × Tables)
process_create_static parent pdir name pid s =
    if s.ps_lock
    then hung
    else (let t = record s { ps_lock = true } in
        if not (is_empty (t.processes pid).flags)
        then done (none, record t { ps_lock = false })
        else (let u = with_process pid (λ p. record p { flags = new_one }) t in
            done (
              some pid,
              with_process pid
                  (λ p. record p {
                    pid = pid;
                    parent = parent;
                    p_page_directory = pdir;
                    lock = false;
                    name = if leb (length name) 16 then name else p.name;
                    memory_contract = vm_contract_init;
                  })
                  (record u { ps_lock = false }),
            )))

pub process_create : Option ℕ → ℕ → List ℕ → Tables → Run (Option ℕ × Tables)
process_create parent pdbr name =
    try_slots (λ i. process_create_static parent pdbr name i) max_process_slots 0

pub get_process : ℕ → Tables → Option Process
get_process pid s = if is_empty (s.processes pid).flags then none else some (s.processes pid)

-- A new thread: its process, its entry point, its stack, priority, whether it is in the kernel, and
-- its processor.
pub record NewThread : Type 0 where
  pub parent : ℕ
  pub entry_point : ℕ
  pub stack_top : ℕ
  pub priority : ℕ
  pub is_kernel : Bool
  pub exec_cpu : ℕ

-- The frame is written over the first words of what was there.
pub new_thread : NewThread → ℕ → (ℕ → ℕ) → Thread → Thread
new_thread a tid common_stack_top b = record b {
  parent = a.parent;
  mailbox = none;
  tcb = record {
    context =
        if a.is_kernel
        then trap_frame_init_kernel a.entry_point a.stack_top a.exec_cpu ++ drop 17 b.tcb.context
        else trap_frame_init_user a.entry_point (common_stack_top a.exec_cpu) a.stack_top;
    tid = tid;
    is_kernel = a.is_kernel;
    exec_cpu = a.exec_cpu;
    priotity = a.priority;
    prev = 0;
    next = 0;
  };
}

pub thread_create_static : NewThread → ℕ → Tables → Run (Option ℕ × Tables)
thread_create_static a tid s =
    if s.ts_lock
    then hung
    else (let t = record s { ts_lock = true } in
        if not (is_empty (t.threads tid).flags)
        then done (none, record t { ts_lock = false })
        else (let u = with_slot tid (λ b. record b { flags = new_one }) t in
            done (
              some tid,
              with_slot tid (new_thread a tid s.common_stack_top) (record u { ts_lock = false }),
            )))

pub thread_create : NewThread → Tables → Run (Option ℕ × Tables)
thread_create a = try_slots (thread_create_static a) max_thread_slots 0

pub get_thread : ℕ → Tables → Option Thread
get_thread tid s = if is_empty (s.threads tid).flags then none else some (s.threads tid)

-- The mailbox's owner is the thread.
pub thread_alloc_mailbox : ℕ → Tables → Ipc → Run (Option ℕ × Tables × Ipc)
thread_alloc_mailbox thread s m = elim (mailbox_create mailbox_thread thread m) [
  | done r ↦ done (r.0, with_slot thread (λ b. record b { mailbox = r.0 }) s, r.1)
  | panicked ↦ panicked
  | hung ↦ hung
]

pub thread_alloc_mailbox_static : ℕ → ℕ → Tables → Ipc → Run (Option ℕ × Tables × Ipc)
thread_alloc_mailbox_static thread mid s m =
    elim (mailbox_create_static mid mailbox_thread thread m) [
      | done r ↦ done (r.0, with_slot thread (λ b. record b { mailbox = r.0 }) s, r.1)
      | panicked ↦ panicked
      | hung ↦ hung
    ]
