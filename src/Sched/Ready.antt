-- ===== src/Sched/Ready.antt =====
-- `scheduler_add_ready` puts a thread at the end of its ready queue.
use native.Mathlib.Decide.{ℕ_discrete}
use radix_os.Base.{
  All-imp, Bool-cases, List, [], ap, ap₂, arith, false, if◌then◌else◌, inl, inr, refl, subst, sym,
  true, ℕ, ◌&&◌, ◌++◌, ◌<◌, ◌==◌, ◌∙◌, ◌∷◌, ◌≡◌, ◌≢◌, ◌⊎◌,
}
use radix_os.Sched.{
  Tcb, Kernel, with_thread, with_sched, scheduler_add_ready, ready_heads, ready_tails,
  current_thread,
}
use radix_os.Sched.Queue.{
  first, last, last_of, Links, Fresh, IsDistinct, Links-frame, Links-owner, last_of-owner,
  last-append, IsDistinct-append, Links-append,
}

-- The ready queues of the processor `c` are, for each of the 8 priorities `q`, those of the threads
-- in `ready c q`, in this order.
pub record IsReady (k : Kernel) (ready : ℕ → ℕ → List ℕ) : Type 0 where
  pub links : (c q : ℕ) → q < 8 → Links k.threads c q 0 (ready c q)
  pub distinct : (c q : ℕ) → q < 8 → IsDistinct (ready c q)
  pub heads : (c q : ℕ) → q < 8 → ready_heads (k.scheds c) q ≡ first (ready c q)
  pub tails : (c q : ℕ) → q < 8 → ready_tails (k.scheds c) q ≡ last (ready c q)

-- The queues with another list for `c` and `q`.
abbrev pub with_queue : ℕ → ℕ → List ℕ → (ℕ → ℕ → List ℕ) → ℕ → ℕ → List ℕ
with_queue c q l ready c' q' = if c' == c && q' == q then l else ready c' q'

-- A change to threads of one queue leaves the others as they are.
pub other-Links :
    (th th' : ℕ → Tcb) (c q c' q' p x t : ℕ) (l : List ℕ)
    → Links th c' q' p l
    → (c' == c && q' == q) ≡ false
    → ((th x).exec_cpu ≡ c) × ((th x).priotity ≡ q)
    → (t ≡ 0) ⊎ (((th t).exec_cpu ≡ c) × ((th t).priotity ≡ q))
    → ((z : ℕ) → 0 < z → z ≢ x → z ≢ t → th' z ≡ th z)
    → Links th' c' q' p l
other-Links th th' c q c' q' p x t l h ne owner owner' same =
    Links-frame th th' c' q' p l
      (All-imp
        (λ y (pos, cpu, priority).
          same y pos (λ e. not_here y x cpu priority owner e) (not_tail y pos cpu priority owner'))
        l (Links-owner th c' q' p l h))
      h
  where
    not_here :
        (y z : ℕ)
        → (th y).exec_cpu ≡ c'
        → (th y).priotity ≡ q'
        → ((th z).exec_cpu ≡ c) × ((th z).priotity ≡ q)
        → y ≢ z
    not_here y z cpu priority (cpu', priority') e =
        let same_cpu : c' ≡ c = sym cpu ∙ ap (λ i. (th i).exec_cpu) e ∙ cpu' in
        let same_priority : q' ≡ q = sym priority ∙ ap (λ i. (th i).priotity) e ∙ priority' in
        absurd (ground (arith, ne, same_cpu, same_priority))

    not_tail :
        (y : ℕ)
        → 0 < y
        → (th y).exec_cpu ≡ c'
        → (th y).priotity ≡ q'
        → (t ≡ 0) ⊎ (((th t).exec_cpu ≡ c) × ((th t).priotity ≡ q))
        → y ≢ t
    not_tail y pos cpu priority (inl z) e = omega arith
    not_tail y pos cpu priority (inr o) e = not_here y t cpu priority o e

abbrev pub cpu_of : Kernel → ℕ → ℕ
cpu_of k x = (k.threads x).exec_cpu

abbrev pub priority_of : Kernel → ℕ → ℕ
priority_of k x = (k.threads x).priotity

module _ (k : Kernel) (x t : ℕ)
    (tail : ready_tails (k.scheds (cpu_of k x)) (priority_of k x) ≡ t) where
  add_ready-new :
      x ≢ t → (scheduler_add_ready x k).threads x ≡ record (k.threads x) { next = 0; prev = t }
  unfolding scheduler_add_ready with_thread with_sched
  add_ready-new ne = elim (Bool-cases (t == 0)) [
    | inl empty ↦
        let z : t ≡ 0 = ground arith in
        let here : (x == x) ≡ true = ground arith in rw (tail, empty, here, z) refl
    | inr some_tail ↦
        let here : (x == x) ≡ true = ground arith in
        let there : (x == t) ≡ false = ground (arith, ne) in rw (tail, some_tail, here, there) refl
  ]

  add_ready-tail :
      x ≢ t → 0 < t → (scheduler_add_ready x k).threads t ≡ record (k.threads t) { next = x }
  unfolding scheduler_add_ready with_thread with_sched
  add_ready-tail ne pos =
      let some_tail : (t == 0) ≡ false = ground arith in
      let here : (t == t) ≡ true = ground arith in
      let there : (t == x) ≡ false = ground (arith, ne) in rw (tail, some_tail, here, there) refl

  add_ready-others : (z : ℕ) → z ≢ x → z ≢ t → (scheduler_add_ready x k).threads z ≡ k.threads z
  unfolding scheduler_add_ready with_thread with_sched
  add_ready-others z ne ne' =
      let here : (z == x) ≡ false = ground (arith, ne) in
      let there : (z == t) ≡ false = ground (arith, ne') in
      elim (Bool-cases (t == 0)) [
        | inl empty ↦ rw (tail, empty, here) refl
        | inr some_tail ↦ rw (tail, some_tail, here, there) refl
      ]

  add_ready-first :
      t ≡ 0
      → (z : ℕ) → z ≢ x
      → ((scheduler_add_ready x k).threads z).context ≡ (k.threads z).context
  unfolding scheduler_add_ready with_thread with_sched
  add_ready-first empty z ne =
      let none_there : (t == 0) ≡ true = ground (arith, empty) in
      let here : (z == x) ≡ false = ground (arith, ne) in rw (tail, none_there, here) refl

  add_ready-heads :
      (c' q' : ℕ)
      → q' < 8
      → ready_heads ((scheduler_add_ready x k).scheds c') q' ≡ (
          if c' == cpu_of k x && q' == priority_of k x && t == 0
          then x
          else ready_heads (k.scheds c') q')
  unfolding scheduler_add_ready with_thread with_sched
  add_ready-heads c' q' small = rw tail (ground arith)

  add_ready-tails :
      (c' q' : ℕ)
      → q' < 8
      → priority_of k x < 8
      → ready_tails ((scheduler_add_ready x k).scheds c') q'
        ≡ (if c' == cpu_of k x && q' == priority_of k x then x else ready_tails (k.scheds c') q')
  unfolding scheduler_add_ready with_thread with_sched
  add_ready-tails c' q' small small' = rw tail (ground arith)

  pub add_ready-current :
      (c' : ℕ)
      → priority_of k x < 8
      → current_thread ((scheduler_add_ready x k).scheds c') ≡ current_thread (k.scheds c')
  unfolding scheduler_add_ready with_thread with_sched
  add_ready-current c' small = rw tail (ground arith)

  pub add_ready-context :
      x ≢ t → (z : ℕ) → ((scheduler_add_ready x k).threads z).context ≡ (k.threads z).context
  add_ready-context ne z = elim (ℕ_discrete z x) [
    | yes here ↦
        ap (λ y. ((scheduler_add_ready x k).threads y).context) here
        ∙ ap (λ b. b.context) (add_ready-new ne)
        ∙ ap (λ y. (k.threads y).context) (sym here)
    | no other ↦ elim (ℕ_discrete z t) [
      | yes there ↦ elim (ℕ_discrete t 0) [
        | yes none_there ↦ add_ready-first none_there z other
        | no some_there ↦
            ap (λ y. ((scheduler_add_ready x k).threads y).context) there
            ∙ ap (λ b. b.context) (add_ready-tail ne (omega (arith, some_there)))
            ∙ ap (λ y. (k.threads y).context) (sym there)
      ]
      | no nowhere ↦ ap (λ b. b.context) (add_ready-others z other nowhere)
    ]
  ]

last-owner :
    (th : ℕ → Tcb) (c q : ℕ) (l : List ℕ)
    → Links th c q 0 l
    → (last l ≡ 0) ⊎ (((th (last l)).exec_cpu ≡ c) × ((th (last l)).priotity ≡ q))
last-owner th c q [] h = inl refl
last-owner th c q (x ∷ l) h =
    let (pos, cpu, priority) =
      last_of-owner (λ y. (0 < y) × ((th y).exec_cpu ≡ c) × ((th y).priotity ≡ q)) x l
        (Links-owner th c q 0 (x ∷ l) h) in
    inr (cpu, priority)

pub last-Fresh : (x : ℕ) (l : List ℕ) → 0 < x → Fresh x l → x ≢ last l
last-Fresh x [] pos f e = omega arith
last-Fresh x (y ∷ l) pos f e = last_of-owner (λ z. z ≢ x) y l f (sym e)

add_ready-Links :
    (k : Kernel) (x : ℕ) (l : List ℕ)
    → ready_tails (k.scheds (cpu_of k x)) (priority_of k x) ≡ last l
    → Links k.threads (cpu_of k x) (priority_of k x) 0 l
    → IsDistinct l
    → 0 < x
    → Fresh x l
    → Links (scheduler_add_ready x k).threads (cpu_of k x) (priority_of k x) 0 (l ++ x ∷ [])
add_ready-Links k x [] tail h d pos f =
    let new = add_ready-new k x 0 tail (λ e. omega arith) in
    (
      pos,
      record {
        cpu = ap (λ b. b.exec_cpu) new;
        priority = ap (λ b. b.priotity) new;
        before = ap (λ b. b.prev) new;
        after = ap (λ b. b.next) new;
      },
      tt,
    )
add_ready-Links k x (y ∷ l) tail h d pos f =
    let ne = last-Fresh x (y ∷ l) pos f in
    let t = last_of y l in
    let new = add_ready-new k x t tail ne in
    let posy : 0 < t =
      last_of-owner (λ z. 0 < z) y l
        (All-imp (λ z o. o.0) (y ∷ l) (Links-owner k.threads _ _ 0 (y ∷ l) h)) in
    Links-append k.threads (scheduler_add_ready x k).threads _ _ 0 x y l h d f pos
      (record {
        cpu = ap (λ b. b.exec_cpu) new;
        priority = ap (λ b. b.priotity) new;
        before = ap (λ b. b.prev) new;
        after = ap (λ b. b.next) new;
      })
      (add_ready-tail k x t tail ne posy) (λ z n m. add_ready-others k x t tail z n m)

first-append :
    (th : ℕ → Tcb) (c q p x : ℕ) (l : List ℕ)
    → Links th c q p l
    → first (l ++ x ∷ []) ≡ (if last l == 0 then x else first l)
first-append th c q p x [] h = refl
first-append th c q p x (y ∷ l) h =
    let pos : 0 < last_of y l =
      last_of-owner (λ z. 0 < z) y l
        (All-imp (λ z o. o.0) (y ∷ l) (Links-owner th c q p (y ∷ l) h)) in
    let some_last : (last_of y l == 0) ≡ false = ground arith in rw some_last refl

-- A thread of one of the 8 priorities that is not in its ready queue comes to stand at the end of
-- it, the queue of its processor and its priority, and all other queues of all processors are as
-- before.
pub scheduler_add_ready_lem :
    (k : Kernel) (ready : ℕ → ℕ → List ℕ) (x : ℕ)
    → IsReady k ready
    → 0 < x
    → priority_of k x < 8
    → Fresh x (ready (cpu_of k x) (priority_of k x))
    → IsReady (scheduler_add_ready x k) (
        with_queue
          (cpu_of k x)
          (priority_of k x)
          (ready (cpu_of k x) (priority_of k x) ++ x ∷ [])
          ready)
scheduler_add_ready_lem k ready x v pos small fresh =
    let c = cpu_of k x in
    let q = priority_of k x in
    let l = ready c q in
    let tail = v.tails c q small in
    let links = add_ready-Links k x l tail (v.links c q small) (v.distinct c q small) pos fresh in
    record {
      links = λ c' q' p'. elim (Bool-cases (c' == c && q' == q)) [
        | inl here ↦
            let e : c' ≡ c = ground arith in
            let e' : q' ≡ q = ground arith in
            rw here (
              subst (λ i. Links (scheduler_add_ready x k).threads i q' 0 (l ++ x ∷ [])) (sym e)
                (subst (λ i. Links (scheduler_add_ready x k).threads c i 0 (l ++ x ∷ [])) (sym e')
                  links))
        | inr there ↦ rw there (
            other-Links k.threads _ c q c' q' 0 x (last l) (ready c' q') (v.links c' q' p') there
              (refl, refl) (last-owner k.threads c q l (v.links c q small))
              (λ z p n m. add_ready-others k x (last l) tail z n m))
      ];
      distinct = λ c' q' p'. elim (Bool-cases (c' == c && q' == q)) [
        | inl here ↦ rw here (IsDistinct-append x l fresh (v.distinct c q small))
        | inr there ↦ rw there (v.distinct c' q' p')
      ];
      heads = λ c' q' p'.
          add_ready-heads k x (last l) tail c' q' p' ∙ elim (Bool-cases (c' == c && q' == q)) [
            | inl here ↦
                let e : c' ≡ c = ground arith in
                let e' : q' ≡ q = ground arith in
                let one : (c' == c) ≡ true = ground arith in
                let two : (q' == q) ≡ true = ground arith in
                let old : ready_heads (k.scheds c') q' ≡ first l =
                  ap₂ (λ i j. ready_heads (k.scheds i) j) e e' ∙ v.heads c q small in
                rw (one, two, old) (sym (first-append k.threads c q 0 x l (v.links c q small)))
            | inr there ↦ rw there (ground (arith, there, v.heads c' q' p'))
          ];
      tails = λ c' q' p'.
          add_ready-tails k x (last l) tail c' q' p' small
          ∙ elim (Bool-cases (c' == c && q' == q)) [
            | inl here ↦ rw here (sym (last-append x l))
            | inr there ↦ rw there (v.tails c' q' p')
          ];
    }
