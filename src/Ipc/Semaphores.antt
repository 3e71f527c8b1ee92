-- ===== src/Ipc/Semaphores.antt =====
-- `semaphore_wait` and `semaphore_signal`.
use radix_os.Base.{
  Bool-cases, List, [], ap, ap₂, arith, false, if◌then◌else◌, inl, inr, refl, some, subst, suc, sym,
  true, ℕ, ◌%◌, ◌+◌, ◌-◌, ◌<◌, ◌==◌, ◌^◌, ◌∙◌, ◌∷◌, ◌≡◌, ◌⊎◌,
}
use radix_os.Types.{error_ok}
use radix_os.Ipc.{
  with_mailbox, get_mailbox, Message, mailbox_cpu, Ipc, Semaphore, returned, asleep, cm_sem_wait,
  cm_awaken_thread, with_semaphore, wait_by, signal_by, send_mail_cpu, send, semaphore_wait,
  semaphore_signal, take_waiting,
}
use radix_os.Ipc.Waiting.{Follows, IsWaiting, take_waiting_lem, last_of-pos}

-- The mailbox is that of the processor, and takes a message.
pub record IsIdle (s : Ipc) (mid cpu : ℕ) : Type 0 where
  pub type : (s.mailbox_slots mid).type ≡ mailbox_cpu
  pub owner : s.cpu_ids (s.mailbox_slots mid).owner ≡ cpu
  pub unlocked : (s.mailbox_slots mid).msg_lock ≡ false

-- A message has been put into a mailbox, and the owner's interrupt is on its way.
pub record IsSent (msg : Message) (owner : ℕ) (s t : Ipc) : Type 0 where
  pub message : (t.mailbox_slots msg.dst).message ≡ msg
  pub locked : (t.mailbox_slots msg.dst).msg_lock ≡ true
  pub interrupt : t.interrupts owner ≡ true
  pub kernel : t.kernel ≡ s.kernel
  pub semaphores : t.semaphores ≡ s.semaphores

IsIdle-same :
    (s t : Ipc) (mid cpu : ℕ)
    → t.mailbox_slots ≡ s.mailbox_slots
    → t.cpu_ids ≡ s.cpu_ids
    → IsIdle s mid cpu
    → IsIdle t mid cpu
IsIdle-same s t mid cpu e ids v = record {
  type = ap (λ f. (f mid).type) e ∙ v.type;
  owner = ap₂ (λ f g. f (g mid).owner) ids e ∙ v.owner;
  unlocked = ap (λ f. (f mid).msg_lock) e ∙ v.unlocked;
}

with_semaphore_self :
    (sem : ℕ) (f : Semaphore → Semaphore) (s : Ipc)
    → (with_semaphore sem f s).semaphores sem ≡ f (s.semaphores sem)
unfolding with_semaphore
with_semaphore_self sem f s = let here : (sem == sem) ≡ true = ground arith in rw here refl

with_semaphore-mailboxes :
    (sem : ℕ) (f : Semaphore → Semaphore) (s : Ipc)
    → (with_semaphore sem f s).mailbox_slots ≡ s.mailbox_slots
unfolding with_semaphore
with_semaphore-mailboxes sem f s = refl

with_semaphore-ids :
    (sem : ℕ) (f : Semaphore → Semaphore) (s : Ipc) → (with_semaphore sem f s).cpu_ids ≡ s.cpu_ids
unfolding with_semaphore
with_semaphore-ids sem f s = refl

abbrev sent : ℕ → Message → Ipc → Ipc
unfolding with_mailbox
sent cpu msg s =
    record (with_mailbox msg.dst (λ b. record b { msg_lock = true; message = msg }) s) {
      interrupts = λ i. if i == cpu then true else s.interrupts i;
    }

found_mailbox :
    (mid cpu : ℕ) (s : Ipc) → IsIdle s mid cpu → get_mailbox mid s ≡ some (s.mailbox_slots mid)
unfolding get_mailbox
found_mailbox mid cpu s v = rw v.type refl

send_mail_cpu_lem :
    (owner : ℕ) (msg : Message) (s : Ipc)
    → IsIdle s msg.dst owner
    → send_mail_cpu msg.dst msg s ≡ returned (error_ok, sent owner msg s)
unfolding send_mail_cpu with_mailbox sent
send_mail_cpu_lem owner msg s v = rw (v.unlocked, v.owner) refl

send_lem :
    (n c owner : ℕ) (msg : Message) (s : Ipc)
    → IsIdle s msg.dst owner
    → (t : Ipc) × (send (suc n) c msg s ≡ returned (error_ok, t)) × IsSent msg owner s t
unfolding send with_mailbox sent
send_lem n c owner msg s v =
    let here : (msg.dst == msg.dst) ≡ true = ground arith in
    let own : (owner == owner) ≡ true = ground arith in
    (
      sent owner msg s,
      rw (found_mailbox msg.dst owner s v, v.type, send) (send_mail_cpu_lem owner msg s v),
      record {
        message = rw here refl;
        locked = rw here refl;
        interrupt = rw own refl;
        kernel = refl;
        semaphores = refl;
      },
    )

IsWaiting-with :
    (s : Ipc) (sem : ℕ) (f : Semaphore → Semaphore) (l : List ℕ)
    → ((v : Semaphore) → (f v).waiting_head ≡ v.waiting_head)
    → ((v : Semaphore) → (f v).waiting_tail ≡ v.waiting_tail)
    → IsWaiting s sem l
    → IsWaiting (with_semaphore sem f s) sem l
unfolding with_semaphore
IsWaiting-with s sem f l head tail w =
    let here : (sem == sem) ≡ true = ground arith in
    let v = s.semaphores sem in
    record {
      head = rw here (head v ∙ w.head);
      tail = rw here (tail v ∙ w.tail);
      links = w.links;
      distinct = w.distinct;
    }

IsWaiting-same :
    (s t : Ipc) (sem : ℕ) (l : List ℕ)
    → t.kernel ≡ s.kernel
    → t.semaphores ≡ s.semaphores
    → IsWaiting s sem l
    → IsWaiting t sem l
IsWaiting-same s t sem l k e w = record {
  head = ap (λ f. (f sem).waiting_head) e ∙ w.head;
  tail = ap (λ f. (f sem).waiting_tail) e ∙ w.tail;
  links = subst (λ q. Follows q.threads l) (sym k) w.links;
  distinct = w.distinct;
}

-- the message by which a thread comes back
abbrev pub awaken : ℕ → ℕ → ℕ → Message
awaken c cpu x = record { src = c; dst = cpu; func = cm_awaken_thread; ptr = x }

-- What `semaphore_signal` does to a semaphore for which the threads of the list wait.
abbrev pub Signalled : ℕ → ℕ → Ipc → Ipc → List ℕ → Type 0
Signalled c sem s t [] =
    IsWaiting t sem []
    × ((t.semaphores sem).count ≡ ((s.semaphores sem).count + 1) % 2 ^ 32)
    × (t.mailbox_slots ≡ s.mailbox_slots)
Signalled c sem s t (x ∷ l) =
    IsWaiting t sem l
    × ((t.semaphores sem).count ≡ (s.semaphores sem).count)
    × ((t.mailbox_slots (s.kernel.threads x).exec_cpu).message
        ≡ awaken c (s.kernel.threads x).exec_cpu x)
    × (t.interrupts (s.kernel.threads x).exec_cpu ≡ true)

signal_empty :
    (n c sem : ℕ) (s : Ipc)
    → IsWaiting s sem []
    → (s.semaphores sem).lock ≡ false
    → (t : Ipc) × (semaphore_signal (suc n) c sem s ≡ returned t)
      × ((t.semaphores sem).lock ≡ false)
      × Signalled c sem s t []
unfolding semaphore_signal signal_by with_semaphore
signal_empty n c sem s w unlocked =
    let here : (sem == sem) ≡ true = ground arith in
    let none_there : ((s.semaphores sem).waiting_tail == 0) ≡ true = ground (arith, w.tail) in
    (
      with_semaphore sem (λ v. record v { lock = false; count = (v.count + 1) % 2 ^ 32 })
          (with_semaphore sem (λ v. record v { lock = true }) s),
      rw (unlocked, none_there) refl,
      rw here refl,
      (
        record { head = rw here w.head; tail = rw here w.tail; links = tt; distinct = tt },
        rw here refl,
        refl,
      ),
    )

signal_waiting :
    (n c sem x : ℕ) (l : List ℕ) (s : Ipc)
    → IsWaiting s sem (x ∷ l)
    → (s.semaphores sem).lock ≡ false
    → IsIdle s (s.kernel.threads x).exec_cpu (s.kernel.threads x).exec_cpu
    → (t : Ipc) × (semaphore_signal (suc n) c sem s ≡ returned t)
      × ((t.semaphores sem).lock ≡ false)
      × Signalled c sem s t (x ∷ l)
unfolding semaphore_signal signal_by with_semaphore
signal_waiting n c sem x l s w unlocked idle =
    let here : (sem == sem) ≡ true = ground arith in
    let some_there : ((s.semaphores sem).waiting_tail == 0) ≡ false =
      ground (arith, w.tail, last_of-pos s.kernel.threads x l w.links) in
    let locked = with_semaphore sem (λ v. record v { lock = true }) s in
    let (first_one, taken) =
      take_waiting_lem locked sem x l
        (IsWaiting-with s sem (λ v. record v { lock = true }) (x ∷ l) (λ v. refl) (λ v. refl) w) in
    let u = (take_waiting sem locked).1 in
    let y = with_semaphore sem (λ v. record v { lock = false }) u in
    let cpu = (s.kernel.threads x).exec_cpu in
    let (t, got, sent_on) =
      send_lem n c cpu (awaken c cpu x) y
        (IsIdle-same s y cpu cpu taken.mailboxes taken.ids idle) in
    (
      t,
      rw (unlocked, some_there, first_one, taken.cpu, got) refl,
      ap (λ f. (f sem).lock) sent_on.semaphores ∙ rw here refl,
      (
        IsWaiting-same y t sem l sent_on.kernel sent_on.semaphores (
            IsWaiting-with u sem (λ v. record v { lock = false }) l (λ v. refl) (λ v. refl)
              taken.waiting),
        ap (λ f. (f sem).count) sent_on.semaphores ∙ rw here (taken.count ∙ rw here refl),
        sent_on.message,
        sent_on.interrupt,
      ),
    )

-- the mailbox of the first thread's processor
abbrev pub FirstIsIdle : Ipc → List ℕ → Type 0
FirstIsIdle s [] = Unit
FirstIsIdle s (x ∷ l) = IsIdle s (s.kernel.threads x).exec_cpu (s.kernel.threads x).exec_cpu

-- For a semaphore whose lock is free, on fuel for one call of `send`, and if the mailbox of the
-- processor of the first thread that waits takes a message: `semaphore_signal` comes back with the
-- lock free. If no thread waits, the count is one more, modulo 2^32, and no message was sent. Else
-- the thread that has waited longest is taken out of the queue, which is as before otherwise, the
-- count stays, and the processor of that thread gets the message to awaken it, with an interrupt.
pub semaphore_signal_lem :
    (n c sem : ℕ) (s : Ipc) (l : List ℕ)
    → IsWaiting s sem l
    → (s.semaphores sem).lock ≡ false
    → FirstIsIdle s l
    → (t : Ipc) × (semaphore_signal (suc n) c sem s ≡ returned t)
      × ((t.semaphores sem).lock ≡ false)
      × Signalled c sem s t l
semaphore_signal_lem n c sem s [] w unlocked idle = signal_empty n c sem s w unlocked
semaphore_signal_lem n c sem s (x ∷ l) w unlocked idle =
    signal_waiting n c sem x l s w unlocked idle

-- the message by which a thread goes to sleep
abbrev pub sleep : ℕ → ℕ → Message
sleep c sem = record { src = c; dst = c; func = cm_sem_wait; ptr = sem }

-- For a semaphore whose lock is free, on fuel for one call of `send`, and if the mailbox of the
-- processor takes a message: where the count is not 0, `semaphore_wait` comes back with the count one
-- less, the lock free and the queue as it was. Where the count is 0, the thread goes to sleep: the
-- processor has the message for it, with an interrupt, the count and the queue are as they were, and
-- the lock is held.
pub semaphore_wait_lem :
    (n c sem : ℕ) (s : Ipc) (l : List ℕ)
    → IsWaiting s sem l
    → (s.semaphores sem).lock ≡ false
    → IsIdle s c c
    → (t : Ipc) × IsWaiting t sem l
      × (((0 < (s.semaphores sem).count)
            × (semaphore_wait (suc n) c sem s ≡ returned t)
            × ((t.semaphores sem).count ≡ (s.semaphores sem).count - 1)
            × ((t.semaphores sem).lock ≡ false))
          ⊎ (((s.semaphores sem).count ≡ 0)
              × (semaphore_wait (suc n) c sem s ≡ asleep t)
              × ((t.semaphores sem).count ≡ 0)
              × ((t.semaphores sem).lock ≡ true)
              × ((t.mailbox_slots c).message ≡ sleep c sem)
              × (t.interrupts c ≡ true)))
unfolding semaphore_wait wait_by
semaphore_wait_lem n c sem s l w unlocked idle = elim (Bool-cases ((s.semaphores sem).count == 0)) [
  | inl none_left ↦
      let t = with_semaphore sem (λ v. record v { lock = true }) s in
      let (u, got, sent_on) = send_lem n c c (sleep c sem) t (
        IsIdle-same s t c c (with_semaphore-mailboxes sem (λ v. record v { lock = true }) s)
          (with_semaphore-ids sem (λ v. record v { lock = true }) s) idle) in
      (
        u,
        IsWaiting-same t u sem l sent_on.kernel sent_on.semaphores
            (IsWaiting-with s sem (λ v. record v { lock = true }) l (λ v. refl) (λ v. refl) w),
        inr (
          ground arith,
          rw (unlocked, none_left, got, sent_on.interrupt) refl,
          ap (λ f. (f sem).count) sent_on.semaphores
              ∙ ap (λ v. v.count) (with_semaphore_self sem (λ v. record v { lock = true }) s)
              ∙ ground arith,
          ap (λ f. (f sem).lock) sent_on.semaphores
              ∙ ap (λ v. v.lock) (with_semaphore_self sem (λ v. record v { lock = true }) s),
          sent_on.message,
          sent_on.interrupt,
        ),
      )
  | inr some_left ↦
      let lock = λ (v : Semaphore). record v { lock = true } in
      let less = λ (v : Semaphore). record v { lock = false; count = v.count - 1 } in
      let t = with_semaphore sem lock s in
      let before = with_semaphore_self sem lock s in
      let after = with_semaphore_self sem less t in
      (
        with_semaphore sem less t,
        IsWaiting-with t sem less l (λ v. refl) (λ v. refl)
            (IsWaiting-with s sem lock l (λ v. refl) (λ v. refl) w),
        inl (
          ground arith,
          rw (unlocked, some_left) refl,
          ap (λ v. v.count) after ∙ ap (λ v. v.count - 1) before,
          ap (λ v. v.lock) after,
        ),
      )
]
