-- ===== src/Synch/Wake.antt =====
-- `sema_up` wakes the first of the greatest waiters.
use cs130_25spring_project.Common.{
  ℕ, ◌+◌, ◌≤◌, ◌<◌, ◌≡◌, ◌≢◌, refl, ap, ◌∙◌, ◌⊎◌, inl, inr, Bool, true, false, not, Option, some,
  List, [], ◌∷◌, ◌++◌, arith, ltb, if◌then◌else◌, ◌>>=◌, Bool-cases, ==-refl,
}
use mathlib.Core.Path.{subst}
use cs130_25spring_project.Common.Counts.{count, count-append}
use cs130_25spring_project.Thread.{
  Kernel, is_running, is_blocked, list_remove, thread_list_max, thread_less, thread_yield,
  thread_unblock,
}
use cs130_25spring_project.Thread.Max.{All, pri, Distinct, thread_list_max-first}
use cs130_25spring_project.Thread.Ready.{
  status, IsValid, IsTop, list_remove-split, Distinct-of_count, blocked-alive,
}
use cs130_25spring_project.Thread.Moved.{Kept, Kept-trans}
use cs130_25spring_project.Thread.Schedule.{Chosen-greatest, count-without}
use cs130_25spring_project.Thread.Leave.{IsAwake, thread_yield-IsAwake}
use cs130_25spring_project.Thread.Preempt.{thread_yield-Tops, thread_less-ready}
use cs130_25spring_project.Thread.Create.{
  woken, woken-IsValid, thread_unblock-woken, count-woken, woken-Kept, woken-IsTop,
}
use cs130_25spring_project.Synch.{Semaphore, yield_to, sema_up}

-- The threads of a queue sleep, none of them is the idle one, and none is there twice.
pub record Waits (k : Kernel) (l : List ℕ) : Type 0 where
  pub blocked : (t : ℕ) → 0 < count t l → is_blocked (status k t) ≡ true
  pub working : (t : ℕ) → 0 < count t l → t ≢ k.idle_thread
  pub once : (t : ℕ) → count t l ≤ 1

module _ (k : Kernel) (v : IsValid k) (l : List ℕ) (w : Waits k l) where
  pub waiter-other : (t : ℕ) → 0 < count t l → t ≢ k.current
  waiter-other t pos e = absurd (
      ground (
        arith,
        blocked-alive (status k t) (w.blocked t pos),
        ap (λ x. is_running (status k x)) e ∙ v.running,
      ))

  waiters-Distinct : Distinct k.threads l
  waiters-Distinct =
      Distinct-of_count k v.listed l w.once
        (λ t pos. ap not (blocked-alive (status k t) (w.blocked t pos)).0)

  -- The search in a queue that is not empty finds a waiter that no other exceeds.
  pub waiter-greatest :
      (m : ℕ) (rest : List ℕ)
      → l ≡ m ∷ rest
      → (t : ℕ) × (thread_list_max k.threads l ≡ some t)
        × (0 < count t l)
        × ((u : ℕ) → 0 < count u l → pri k.threads u ≤ pri k.threads t)
  waiter-greatest m rest e =
      let (t, before, after, found, split, small, more) =
        thread_list_max-first k.threads m rest (subst (Distinct k.threads) e waiters-Distinct) in
      let (present, greatest) =
        Chosen-greatest (record k { ready_list = l }) t before after (e ∙ split) small more in
      (t, ap (thread_list_max k.threads) e ∙ found, present, greatest)

-- The end of a call that wakes `t`.
abbrev pub Rises : Kernel → Bool → ℕ → Option Kernel → Type 0
Rises k intr_context t result =
    (k' : Kernel) × (result ≡ some k')
    × IsValid k'
    × (intr_context ≡ false → IsTop k → IsTop k')
    × (intr_context ≡ true → k' ≡ woken k t)
    × IsAwake k' t
    × Kept k.threads k'.threads

yield_to-Rises :
    (k : Kernel) (v : IsValid k) (b : Bool) (t : ℕ)
    → is_blocked (status k t) ≡ true
    → t ≢ k.idle_thread
    → Rises k b t (yield_to b (woken k t) t)
unfolding yield_to
yield_to-Rises k v true t blocked working = (
  woken k t,
  refl,
  woken-IsValid k v t blocked working,
  λ e. absurd (ground (arith, e)),
  λ e. refl,
  inl (ground (arith, count-woken k v t t, ==-refl t)),
  woken-Kept k v t,
)
yield_to-Rises k v false t blocked working =
    elim (Bool-cases (ltb (pri (woken k t).threads k.current) (pri (woken k t).threads t))) [
      | inl less ↦
          let (k', yields, valid, top, kept) = thread_yield-Tops (woken k t) valid_woken in
          (
            k',
            tested true less ∙ yields,
            valid,
            λ e h. top,
            λ e. absurd (ground (arith, e)),
            thread_yield-IsAwake (woken k t) valid_woken t present k' yields,
            Kept-trans k.threads (woken k t).threads k'.threads (woken-Kept k v t) kept,
          )
      | inr less ↦ (
        woken k t,
        tested false less,
        valid_woken,
        λ e top. woken-IsTop k v t less top,
        λ e. absurd (ground (arith, e)),
        inl present,
        woken-Kept k v t,
      )
    ]
  where
    valid_woken : IsValid (woken k t)
    valid_woken = woken-IsValid k v t blocked working

    present : 0 < count t (woken k t).ready_list
    present = ground (arith, count-woken k v t t, ==-refl t)

    tested :
        (less : Bool)
        → ltb (pri (woken k t).threads k.current) (pri (woken k t).threads t) ≡ less
        → (thread_less ((woken k t).threads k.current) ((woken k t).threads t) >>= λ less.
            if less then thread_yield (woken k t) else some (woken k t))
          ≡ (if less then thread_yield (woken k t) else some (woken k t))
    tested less e =
        ap (λ o. o >>= λ less. if less then thread_yield (woken k t) else some (woken k t))
          (thread_less-ready (woken k t) valid_woken t present ∙ ap some e)

-- The waiters around the one that is woken, which is the first of the greatest.
abbrev pub Wakes : Kernel → Semaphore → (before : List ℕ) → (woken : ℕ) → (after : List ℕ) → Type 0
Wakes k sema before t after =
    (sema.waiters ≡ before ++ (t ∷ after))
    × All (λ u. pri k.threads u < pri k.threads t) before
    × All (λ u. pri k.threads u ≤ pri k.threads t) after

-- The waiters that are left, the one that is woken, and the state of the kernel where `sema_up` does
-- not yield.
abbrev pub Outcome : Bool → Kernel → Semaphore → Kernel → List ℕ → Type 0
Outcome intr_context k sema k' l =
    ((sema.waiters ≡ []) × (l ≡ []) × (k' ≡ k))
    ⊎ ((t : ℕ) × (before after : List ℕ) × Wakes k sema before t after
        × (l ≡ before ++ after)
        × IsAwake k' t
        × (intr_context ≡ true → k' ≡ woken k t))

-- The semaphore and the kernel after `sema_up`.
abbrev pub Ups : Bool → Kernel → Semaphore → Type 0
Ups intr_context k sema =
    (k' : Kernel) × (l : List ℕ) × (sema_up intr_context k sema
      ≡ some (k', record { value = sema.value + 1; waiters = l }))
    × IsValid k'
    × Kept k.threads k'.threads
    × (intr_context ≡ false → IsTop k → IsTop k')
    × Outcome intr_context k sema k' l

sema_up-none :
    (b : Bool) (k : Kernel) (sema : Semaphore)
    → sema.waiters ≡ []
    → sema_up b k sema ≡ some (k, record { value = sema.value + 1; waiters = [] })
unfolding sema_up
sema_up-none b k sema e = simp e refl

sema_up-some :
    (b : Bool) (k : Kernel) (sema : Semaphore) (m : ℕ) (l : List ℕ) (t : ℕ) (k' : Kernel)
    → sema.waiters ≡ m ∷ l
    → thread_list_max k.threads (m ∷ l) ≡ some t
    → thread_unblock k t ≡ some (woken k t)
    → yield_to b (woken k t) t ≡ some k'
    → sema_up b k sema
      ≡ some (k', record { value = sema.value + 1; waiters = list_remove t (m ∷ l) })
unfolding sema_up
sema_up-some b k sema m l t k' e f g h = simp (e, f, g, h)

-- An entry stands where the list is split, and nowhere else if it is there once.
split-once :
    (t : ℕ) (l before after : List ℕ)
    → l ≡ before ++ (t ∷ after)
    → count t l ≤ 1
    → (0 < count t l) × (count t before ≡ 0)
split-once t l before after split once =
    let whole : count t l ≡ 1 + (count t before + count t after) =
      ap (count t) split
      ∙ count-without t t before after
      ∙ ground (arith, ==-refl t, count-append t before after) in
    (omega (arith, whole), omega (arith, whole, once))

sema_up-found :
    (b : Bool) (k : Kernel) (sema : Semaphore)
    → IsValid k
    → Waits k sema.waiters
    → (m : ℕ) (l : List ℕ) → sema.waiters ≡ m ∷ l
    → (t : ℕ) × (before after : List ℕ) × (thread_list_max k.threads (m ∷ l) ≡ some t)
      × (m ∷ l ≡ before ++ (t ∷ after))
      × All (λ u. pri k.threads u < pri k.threads t) before
      × All (λ u. pri k.threads u ≤ pri k.threads t) after
    → Ups b k sema
sema_up-found b k sema v w m l e (t, before, after, found, split, small, rest) =
    go (split-once t sema.waiters before after (e ∙ split) (w.once t))
  where
    wake :
        is_blocked (status k t) ≡ true
        → t ≢ k.idle_thread
        → count t before ≡ 0
        → Rises k b t (yield_to b (woken k t) t)
        → Ups b k sema
    wake blocked working fresh (k', runs, valid, top, exact, awake, kept) = (
      k',
      before ++ after,
      sema_up-some b k sema m l t k' e found (thread_unblock-woken k v t blocked working) runs
          ∙ ap (λ x. some (k', record { value = sema.value + 1; waiters = x }))
              (ap (list_remove t) split ∙ list_remove-split t before after fresh),
      valid,
      kept,
      top,
      inr (t, before, after, (e ∙ split, small, rest), refl, awake, exact),
    )

    go : (0 < count t sema.waiters) × (count t before ≡ 0) → Ups b k sema
    go (present, fresh) =
        wake (w.blocked t present) (w.working t present) fresh
          (yield_to-Rises k v b t (w.blocked t present) (w.working t present))

-- On a valid state, with waiters that sleep, `sema_up` does not panic and leaves a valid one with the
-- value one up. It takes the first of the greatest waiters out of the queue, if there is one, which
-- then is in the ready list or runs, and changes nothing of the threads' structures but states. In an
-- interrupt it only puts the waiter in the ready list; outside of one, if no ready thread exceeded
-- the running one before, none does after.
pub sema_up-Ups :
    (b : Bool) (k : Kernel) (sema : Semaphore) → IsValid k → Waits k sema.waiters → Ups b k sema
sema_up-Ups b k sema v w = go sema.waiters refl
  where
    go : (l : List ℕ) → sema.waiters ≡ l → Ups b k sema
    go [] e = (k, [], sema_up-none b k sema e, v, λ u. refl, λ f top. top, inl (e, refl, refl))
    go (m ∷ l) e = sema_up-found b k sema v w m l e (
        thread_list_max-first k.threads m l
          (subst (Distinct k.threads) e (waiters-Distinct k v sema.waiters w)))
