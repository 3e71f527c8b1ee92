-- ===== src/Ipc/Mailboxes.antt =====
-- `mailbox_create` looks for a free slot.
use radix_os.Base.{
  Bool, Option, ap, arith, false, none, refl, some, true, ℕ, ◌*◌, ◌+◌, ◌==◌, ◌∙◌, ◌≡◌, ◌≢◌,
}
use radix_os.Exec.{done}
use radix_os.Slots.{Tried, try_slots_lem}
use radix_os.Ipc.{
  MailboxType, mailbox_none, mailbox_cpu, mailbox_above_semaphore, mailbox_thread, Ipc, sem_rdy,
  sem_recv, is_none, max_mailbox_slots, with_mailbox, with_semaphore, semaphore_init, init_lock,
  mailbox_create_static, mailbox_create,
}

abbrev pub is_free : Ipc → ℕ → Bool
is_free s i = is_none (s.mailbox_slots i).type

-- What is to be found in the union of a slot that has been given the type.
abbrev pub HasLock : MailboxType → ℕ → Ipc → Type 0
HasLock mailbox_thread mid t =
    (t.semaphores (sem_rdy mid)
      ≡ record { lock = false; count = 1; waiting_head = 0; waiting_tail = 0 })
    × (t.semaphores (sem_recv mid)
        ≡ record { lock = false; count = 0; waiting_head = 0; waiting_tail = 0 })
HasLock mailbox_cpu mid t = (t.mailbox_slots mid).msg_lock ≡ false
HasLock mailbox_above_semaphore mid t = (t.mailbox_slots mid).msg_lock ≡ false
HasLock mailbox_none mid t = (t.mailbox_slots mid).msg_lock ≡ false

-- The slot `mid` has been given the type, the owner and its lock, and nothing else has changed.
pub record IsCreated (mid : ℕ) (type : MailboxType) (owner : ℕ) (s t : Ipc) : Type 0 where
  pub has_type : (t.mailbox_slots mid).type ≡ type
  pub has_owner : (t.mailbox_slots mid).owner ≡ owner
  pub has_lock : HasLock type mid t
  pub others : (i : ℕ) → i ≢ mid → t.mailbox_slots i ≡ s.mailbox_slots i
  pub other_semaphores :
      (i : ℕ) → i ≢ sem_rdy mid → i ≢ sem_recv mid → t.semaphores i ≡ s.semaphores i
  pub kernel : t.kernel ≡ s.kernel
  pub interrupts : t.interrupts ≡ s.interrupts
  pub unlocked : t.ms_lock ≡ false

create_in_used :
    (mid : ℕ) (type : MailboxType) (owner : ℕ) (s : Ipc)
    → s.ms_lock ≡ false
    → is_free s mid ≡ false
    → mailbox_create_static mid type owner s ≡ done (none, s)
unfolding mailbox_create_static
create_in_used mid type owner s unlocked used = rw (unlocked, used) refl

-- the slot as it is before its lock is made
abbrev taken_slot : ℕ → MailboxType → ℕ → Ipc → Ipc
unfolding with_mailbox
taken_slot mid type owner s =
    with_mailbox mid (λ b. record b { owner = owner })
      (record (with_mailbox mid (λ b. record b { type = type }) (record s { ms_lock = true })) {
        ms_lock = false;
      })

unlocked_slot :
    (mid : ℕ) (type : MailboxType) (owner : ℕ) (s t : Ipc)
    → t ≡ with_mailbox mid (λ b. record b { msg_lock = false }) (taken_slot mid type owner s)
    → ((t.mailbox_slots mid).msg_lock ≡ false → HasLock type mid t)
    → IsCreated mid type owner s t
unfolding with_mailbox
unlocked_slot mid type owner s t e has_lock =
    let here : (mid == mid) ≡ true = ground arith in
    record {
      has_type = ap (λ (u : Ipc). (u.mailbox_slots mid).type) e ∙ rw here refl;
      has_owner = ap (λ (u : Ipc). (u.mailbox_slots mid).owner) e ∙ rw here refl;
      has_lock = has_lock (ap (λ (u : Ipc). (u.mailbox_slots mid).msg_lock) e ∙ rw here refl);
      others = λ i ne.
          let there : (i == mid) ≡ false = ground (arith, ne) in
          ap (λ (u : Ipc). u.mailbox_slots i) e ∙ rw there refl;
      other_semaphores = λ i ne ne'. ap (λ (u : Ipc). u.semaphores i) e;
      kernel = ap (λ (u : Ipc). u.kernel) e;
      interrupts = ap (λ (u : Ipc). u.interrupts) e;
      unlocked = ap (λ (u : Ipc). u.ms_lock) e;
    }

init_lock-IsCreated :
    (mid : ℕ) (type : MailboxType) (owner : ℕ) (s : Ipc)
    → IsCreated mid type owner s (init_lock mid type (taken_slot mid type owner s))
unfolding init_lock semaphore_init with_semaphore with_mailbox
init_lock-IsCreated mid mailbox_thread owner s =
    let here : (mid == mid) ≡ true = ground arith in
    let rdy : (2 * mid == 2 * mid) ≡ true = ground arith in
    let recv : (2 * mid + 1 == 2 * mid + 1) ≡ true = ground arith in
    let apart : (2 * mid == 2 * mid + 1) ≡ false = ground arith in
    record {
      has_type = rw here refl;
      has_owner = rw here refl;
      has_lock = (rw (rdy, apart) refl, rw recv refl);
      others = λ i ne. let there : (i == mid) ≡ false = ground (arith, ne) in rw there refl;
      other_semaphores = λ i ne ne'.
          let not_rdy : (i == 2 * mid) ≡ false = ground (arith, ne) in
          let not_recv : (i == 2 * mid + 1) ≡ false = ground (arith, ne') in
          rw (not_rdy, not_recv) refl;
      kernel = refl;
      interrupts = refl;
      unlocked = refl;
    }
init_lock-IsCreated mid mailbox_cpu owner s = unlocked_slot mid mailbox_cpu owner s _ refl (λ h. h)
init_lock-IsCreated mid mailbox_above_semaphore owner s =
    unlocked_slot mid mailbox_above_semaphore owner s _ refl (λ h. h)
init_lock-IsCreated mid mailbox_none owner s =
    unlocked_slot mid mailbox_none owner s _ refl (λ h. h)

create_in_free :
    (mid : ℕ) (type : MailboxType) (owner : ℕ) (s : Ipc)
    → s.ms_lock ≡ false
    → is_free s mid ≡ true
    → (t : Ipc) × (mailbox_create_static mid type owner s ≡ done (some mid, t))
      × IsCreated mid type owner s t
unfolding mailbox_create_static taken_slot with_mailbox
create_in_free mid type owner s unlocked free = (
  init_lock mid type (taken_slot mid type owner s),
  rw (unlocked, free) refl,
  init_lock-IsCreated mid type owner s,
)

-- With the lock of the slots free, `mailbox_create` comes back. Either no slot is free, and it
-- returns null and changes nothing; or it returns the first free slot. That has the type and the
-- owner now and, for a thread's mailbox, its two semaphores with no thread waiting, the one to be
-- ready with count 1 and the one to receive with count 0, for others a free lock. No other slot, no
-- semaphore of another one, no thread, no scheduler and no interrupt has changed, and the lock of the
-- slots is free again.
pub mailbox_create_lem :
    (type : MailboxType) (owner : ℕ) (s : Ipc)
    → s.ms_lock ≡ false
    → (o : Option ℕ) × (t : Ipc) × (mailbox_create type owner s ≡ done (o, t))
      × Tried (λ mid t'. IsCreated mid type owner s t') (is_free s) s max_mailbox_slots 0 o t
unfolding mailbox_create
mailbox_create_lem type owner s unlocked =
    try_slots_lem (λ mid t. IsCreated mid type owner s t) (is_free s) s
      (λ i. mailbox_create_static i type owner)
      (λ i used. create_in_used i type owner s unlocked used)
      (λ i free. create_in_free i type owner s unlocked free) max_mailbox_slots 0
