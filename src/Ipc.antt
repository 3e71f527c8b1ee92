-- ===== src/Ipc.antt =====
-- kernel/ipc and kernel/sync: messages, mailboxes and semaphores. A mailbox is named by its id, and a
-- semaphore by an address. The union in a mailbox is either the two semaphores, for a thread's
-- mailbox, or `msg_lock`, for others; the two stand apart in the model, the semaphores at two
-- addresses that follow from the mailbox's id, and no function reads the one that the type does not
-- call for. The interrupt by which a message comes is a mark on the processor. The message's payload is one
-- pointer.
pub mod Mailboxes
pub mod Waiting
pub mod Semaphores
pub mod Tests
use radix_os.Base.{
  ==_iff, All, All-append, All-get_or, All-imp, All-middle, All-set, Any, Any-left, Any-right, Bool,
  Bool-cases, List, Option, Option-cases, Ordering, [], ap, append-nil, append_assoc, ap₂, arith,
  compare, compare-cases, drop, false, get_elem?, get_elem?-set_ne, get_elem?-set_self, get_or,
  get_or-set, if◌then◌else◌, inl, inr, leb, length, length-append, length-drop, length-map,
  length-replicate, length-set, length-take, le→ltb, ltb, ltb→le, ltb→lt, lt→ltb, map, max, min,
  none, not, refl, replicate, set, some, subst, suc, sym, take, take-append-drop, true, zero, ℕ,
  ◌%◌, ◌&&◌, ◌*◌, ◌++◌, ◌+◌, ◌-◌, ◌/◌, ◌<◌, ◌==◌, ◌^◌, ◌||◌, ◌↔◌, ◌∙◌, ◌∷◌, ◌≡◌, ◌≢◌, ◌≤◌, ◌⊎◌,
}
use radix_os.Slots.{try_slots}
use radix_os.Types.{ErrorT, error_ok, error_occur}
use radix_os.Sched.{
  Tcb, Kernel, with_thread, scheduler_evict_thread, scheduler_preempt_thread,
  scheduler_schedule_thread, scheduler_add_ready, current_thread,
}
use radix_os.Exec.{Run, done, panicked, hung}

pub record Message : Type 0 where
  pub src : ℕ
  pub dst : ℕ
  pub func : ℕ
  pub ptr : ℕ

pub record Semaphore : Type 0 where
  pub lock : Bool
  pub count : ℕ
  pub waiting_head : ℕ
  pub waiting_tail : ℕ

pub data MailboxType : Type 0 where
  mailbox_none : MailboxType
  mailbox_cpu : MailboxType
  mailbox_above_semaphore : MailboxType
  mailbox_thread : MailboxType

pub record Mailbox : Type 0 where
  pub type : MailboxType
  pub owner : ℕ
  pub message : Message
  pub msg_lock : Bool

-- `cpu_ids` is the field `id` of the storage of a processor, by the storage's address, and
-- `interrupts` whether a message's interrupt has been sent to a processor, by its id.
pub record Ipc : Type 0 where
  pub kernel : Kernel
  pub mailbox_slots : ℕ → Mailbox
  pub semaphores : ℕ → Semaphore
  pub ms_lock : Bool
  pub cpu_ids : ℕ → ℕ
  pub interrupts : ℕ → Bool

-- A call comes back, or its thread goes to sleep within it, the rest of the call being left for
-- when it is awake again, or it spins for ever.
pub data Turn {ℓ} (A : Type ℓ) : Type ℓ where
  returned : A → Turn A
  asleep : Ipc → Turn A
  spinning : Turn A

infixl 5 ◌>>=◌
abbrev pub ◌>>=◌ {ℓ κ} : {A : Type ℓ} {B : Type κ} → Turn A → (A → Turn B) → Turn B
returned a >>= f = f a
asleep s >>= f = asleep s
spinning >>= f = spinning

-- enum cpu_message_function_t
abbrev pub cm_reschedule : ℕ
cm_reschedule = 1

abbrev pub cm_sem_wait : ℕ
cm_sem_wait = 2

abbrev pub cm_awaken_thread : ℕ
cm_awaken_thread = 3

abbrev pub max_mailbox_slots : ℕ
max_mailbox_slots = 65535

-- the semaphores of a mailbox
abbrev pub sem_rdy : ℕ → ℕ
sem_rdy mid = 2 * mid

abbrev pub sem_recv : ℕ → ℕ
sem_recv mid = 2 * mid + 1

pub with_mailbox : ℕ → (Mailbox → Mailbox) → Ipc → Ipc
with_mailbox mid f s = record s {
  mailbox_slots = λ i. if i == mid then f (s.mailbox_slots i) else s.mailbox_slots i;
}

pub with_semaphore : ℕ → (Semaphore → Semaphore) → Ipc → Ipc
with_semaphore sem f s = record s {
  semaphores = λ i. if i == sem then f (s.semaphores i) else s.semaphores i;
}

pub with_kernel : (Kernel → Kernel) → Ipc → Ipc
with_kernel f s = record s { kernel = f s.kernel }

pub semaphore_init : ℕ → ℕ → Ipc → Ipc
semaphore_init sem val =
    with_semaphore sem
      (λ _. record { lock = false; count = val; waiting_head = 0; waiting_tail = 0 })

abbrev pub is_none : MailboxType → Bool
is_none mailbox_none = true
is_none mailbox_cpu = false
is_none mailbox_above_semaphore = false
is_none mailbox_thread = false

-- A mailbox by its id, if its slot is in use.
pub get_mailbox : ℕ → Ipc → Option Mailbox
get_mailbox mid s = if is_none (s.mailbox_slots mid).type then none else some (s.mailbox_slots mid)

-- the semaphores of a thread's mailbox, or the lock of another's
pub init_lock : ℕ → MailboxType → Ipc → Ipc
init_lock mid mailbox_thread s = semaphore_init (sem_recv mid) 0 (semaphore_init (sem_rdy mid) 1 s)
init_lock mid mailbox_cpu s = with_mailbox mid (λ b. record b { msg_lock = false }) s
init_lock mid mailbox_above_semaphore s = with_mailbox mid (λ b. record b { msg_lock = false }) s
init_lock mid mailbox_none s = with_mailbox mid (λ b. record b { msg_lock = false }) s

pub mailbox_create_static : ℕ → MailboxType → ℕ → Ipc → Run (Option ℕ × Ipc)
mailbox_create_static mid type owner s =
    if s.ms_lock
    then hung
    else (let t = record s { ms_lock = true } in
        if not (is_none (t.mailbox_slots mid).type)
        then done (none, record t { ms_lock = false })
        else (let u = with_mailbox mid (λ b. record b { type = type }) t in
            let x =
              with_mailbox mid (λ b. record b { owner = owner }) (record u { ms_lock = false }) in
            done (some mid, init_lock mid type x)))

pub mailbox_create : MailboxType → ℕ → Ipc → Run (Option ℕ × Ipc)
mailbox_create type owner = try_slots (λ i. mailbox_create_static i type owner) max_mailbox_slots 0

-- `lapic_send_ipi_std` to the processor that owns the mailbox
pub send_mail_cpu : ℕ → Message → Ipc → Turn (ErrorT × Ipc)
send_mail_cpu dest msg s =
    if (s.mailbox_slots dest).msg_lock
    then spinning
    else (let t = with_mailbox dest (λ b. record b { msg_lock = true; message = msg }) s in
        let owner = s.cpu_ids (s.mailbox_slots dest).owner in
        returned
          (error_ok, record t { interrupts = λ i. if i == owner then true else t.interrupts i }))

abbrev pub lock_semaphore : ℕ → Bool → Ipc → Ipc
lock_semaphore sem b = with_semaphore sem (λ v. record v { lock = b })

-- `semaphore_wait` and `semaphore_signal` on the processor `c`, by the call of `send` that they make.
-- The interrupt of a message to the processor itself puts the thread to sleep.
pub wait_by : (Message → Ipc → Turn (ErrorT × Ipc)) → ℕ → ℕ → Ipc → Turn Ipc
wait_by send c sem s =
    if (s.semaphores sem).lock
    then spinning
    else (let t = with_semaphore sem (λ v. record v { lock = true }) s in
        if (s.semaphores sem).count == 0
        then (send (record { src = c; dst = c; func = cm_sem_wait; ptr = sem }) t >>= λ (_, u).
            if u.interrupts c then asleep u else returned u)
        else returned (with_semaphore sem (λ v. record v { lock = false; count = v.count - 1 }) t))

-- the first of the waiting threads, and the queue without it
pub take_waiting : ℕ → Ipc → ℕ × Ipc
take_waiting sem s =
    let v = s.semaphores sem in
    let thread = v.waiting_head in
    if v.waiting_head == v.waiting_tail
    then (thread, with_semaphore sem (λ v. record v { waiting_head = 0; waiting_tail = 0 }) s)
    else (
      thread,
      with_kernel (with_thread thread (λ b. record b { next = 0 }))
          (with_semaphore sem (λ v. record v { waiting_head = (s.kernel.threads thread).next }) s),
    )

pub signal_by : (Message → Ipc → Turn (ErrorT × Ipc)) → ℕ → ℕ → Ipc → Turn Ipc
signal_by send c sem s =
    if (s.semaphores sem).lock
    then spinning
    else (let t = with_semaphore sem (λ v. record v { lock = true }) s in
        if not ((s.semaphores sem).waiting_tail == 0)
        then (let (thread, u) = take_waiting sem t in
            let x = with_semaphore sem (λ v. record v { lock = false }) u in
            send
              (record {
                src = c;
                dst = (x.kernel.threads thread).exec_cpu;
                func = cm_awaken_thread;
                ptr = thread;
              })
              x
            >>= λ (_, y). returned y)
        else returned
            (with_semaphore sem (λ v. record v { lock = false; count = (v.count + 1) % 2 ^ 32 }) t))

-- The calls of `send` within `send` are those of the semaphores of a thread's mailbox.
pub send : ℕ → ℕ → Message → Ipc → Turn (ErrorT × Ipc)
send zero c msg s = spinning
send (suc n) c msg s = elim (get_mailbox msg.dst s) [
  | none ↦ returned (error_occur, s)
  | some mbox ↦ elim mbox.type [
    | mailbox_none ↦ returned (error_occur, s)
    | mailbox_above_semaphore ↦ returned (error_occur, s)
    | mailbox_cpu ↦ send_mail_cpu msg.dst msg s
    | mailbox_thread ↦ wait_by (send n c) c (sem_rdy msg.dst) s >>= λ t.
        signal_by (send n c) c (sem_recv msg.dst)
          (with_mailbox msg.dst (λ b. record b { message = msg }) t)
        >>= λ u. returned (error_ok, u)
  ]
]

pub semaphore_wait : ℕ → ℕ → ℕ → Ipc → Turn Ipc
semaphore_wait fuel c = wait_by (send fuel c) c

pub semaphore_signal : ℕ → ℕ → ℕ → Ipc → Turn Ipc
semaphore_signal fuel c = signal_by (send fuel c) c

-- from a mailbox, by its id, to the receiver on the processor `c`
pub receive : ℕ → ℕ → Option ℕ → Ipc → Turn (ErrorT × Option Message × Ipc)
receive fuel c recv_mbox s = elim recv_mbox [
  | none ↦ returned (error_occur, none, s)
  | some mid ↦ elim (s.mailbox_slots mid).type [
    | mailbox_none ↦ returned (error_occur, none, s)
    | mailbox_above_semaphore ↦ returned (error_occur, none, s)
    | mailbox_cpu ↦ returned (error_ok, some (s.mailbox_slots mid).message, s)
    | mailbox_thread ↦ semaphore_wait fuel c (sem_recv mid) s >>= λ t.
        let msg = (t.mailbox_slots mid).message in
        semaphore_signal fuel c (sem_rdy mid) t >>= λ u. returned (error_ok, some msg, u)
  ]
]

-- `none` where the code reads the slot of a mailbox that it has not got.
pub acknowledge : Message → Ipc → Option (ErrorT × Ipc)
acknowledge msg s = elim (get_mailbox msg.dst s) [
  | none ↦ none
  | some mbox ↦ elim mbox.type [
    | mailbox_cpu ↦ some (error_ok, with_mailbox msg.dst (λ b. record b { msg_lock = false }) s)
    | mailbox_none ↦ some (error_occur, s)
    | mailbox_above_semaphore ↦ some (error_occur, s)
    | mailbox_thread ↦ some (error_occur, s)
  ]
]

-- a thread at the end of a semaphore's queue
pub add_waiting : ℕ → ℕ → Ipc → Ipc
add_waiting sem thread s =
    let tail = (s.semaphores sem).waiting_tail in
    if tail == 0
    then with_semaphore sem (λ v. record v { waiting_head = thread; waiting_tail = thread }) s
    else with_kernel (with_thread thread (λ b. record b { next = 0 })) (
        with_semaphore sem (λ v. record v { waiting_tail = thread })
          (with_kernel (with_thread tail (λ b. record b { next = thread })) s))

-- The ends of the handlers: another thread is picked, and the message acknowledged.
pub schedule_and_acknowledge : ℕ → Message → Ipc → Run Ipc
schedule_and_acknowledge c msg s = elim (scheduler_schedule_thread c s.kernel) [
  | panicked ↦ panicked
  | hung ↦ hung
  | done r ↦ elim (acknowledge msg (record s { kernel = r.1 })) [
    | none ↦ panicked
    | some r ↦ if current_thread (r.1.kernel.scheds c) == 0 then panicked else done r.1
  ]
]

pub handle_reschedule : ℕ → Message → List ℕ → Ipc → Run Ipc
handle_reschedule c msg frame s =
    schedule_and_acknowledge c msg (with_kernel (λ k. (scheduler_preempt_thread c frame k).1) s)

pub handle_sem_wait : ℕ → Message → List ℕ → Ipc → Run Ipc
handle_sem_wait c msg frame s =
    let (thread, k) = scheduler_evict_thread c frame s.kernel in
    let t = add_waiting msg.ptr thread (record s { kernel = k }) in
    schedule_and_acknowledge c msg (lock_semaphore msg.ptr false t)

pub handle_awaken : ℕ → Message → List ℕ → Ipc → Run Ipc
handle_awaken c msg frame s =
    schedule_and_acknowledge c msg
      (with_kernel (λ k. (scheduler_preempt_thread c frame (scheduler_add_ready msg.ptr k)).1) s)

-- The interrupt is taken on the processor `c`, whose mailbox has the processor's id.
pub cpu_message_handler : ℕ → List ℕ → Ipc → Run Ipc
cpu_message_handler c regs s =
    let msg = (s.mailbox_slots c).message in
    let t = record s { interrupts = λ i. if i == c then false else s.interrupts i } in
    if msg.func == cm_reschedule
    then handle_reschedule c msg regs t
    else if msg.func == cm_sem_wait
    then handle_sem_wait c msg regs t
    else if msg.func == cm_awaken_thread
    then handle_awaken c msg regs t
    else elim (acknowledge msg t) [ none ↦ panicked | some r ↦ done r.1 ]
