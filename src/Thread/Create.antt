-- ===== src/Thread/Create.antt =====
-- `thread_unblock` and `thread_create` keep the state valid.
use cs130_25spring_project.Common.{
  ℕ, ◌+◌, ◌≤◌, ◌<◌, ◌≡◌, ◌≢◌, refl, ap, ◌∙◌, inl, inr, Bool, true, false, not, some, [], ◌∷◌, ◌++◌,
  arith, ◌==◌, ltb, leb, if◌then◌else◌, ◌>>=◌, Bool-cases, ne→==, ==-refl, ℕ_discrete,
}
use cs130_25spring_project.Common.Counts.{count, count-append}
use cs130_25spring_project.Thread.{
  Kernel, effective, is_running, is_blocked, is_dying, thread_yield, thread_less, thread_unblock,
  thread_create, pri_max, thread_ready,
}
use cs130_25spring_project.Thread.Max.{pri}
use cs130_25spring_project.Thread.Ready.{
  status, is_alive, IsValid, IsTop, member-alive, blocked-alive, running-alive,
}
use cs130_25spring_project.Thread.Moved.{
  moved, moved-IsListed, moved-Kept, Kept, Kept-trans, moved-status, moved-pri, Fits,
}
use cs130_25spring_project.Thread.Added.{added, added-here, added-there, added-IsValid, spared}
use cs130_25spring_project.Thread.Leave.{IsAwake, thread_yield-IsAwake}
use cs130_25spring_project.Thread.Preempt.{thread_yield-Tops, thread_less-ready}

-- The thread `t` in the ready list, its state changed with it.
abbrev pub woken : Kernel → ℕ → Kernel
woken k t = moved k (k.ready_list ++ (t ∷ [])) k.all_list k.current k.thread_ticks t thread_ready

module _ (k : Kernel) (v : IsValid k) (t : ℕ) where
  pub count-woken :
      (u : ℕ) → count u (woken k t).ready_list ≡ count u k.ready_list + (if u == t then 1 else 0)
  unfolding count
  count-woken u = omega (arith, count-append u k.ready_list (t ∷ []))

  pub pri-woken : (u : ℕ) → pri (woken k t).threads u ≡ pri k.threads u
  pri-woken =
      moved-pri k (k.ready_list ++ (t ∷ [])) k.all_list k.current k.thread_ticks t thread_ready

  pub woken-Kept : Kept k.threads (woken k t).threads
  woken-Kept =
      moved-Kept k (k.ready_list ++ (t ∷ [])) k.all_list k.current k.thread_ticks t thread_ready

  -- The current thread stays the greatest when it is not less than the new ready one.
  pub woken-IsTop :
      ltb (pri (woken k t).threads k.current) (pri (woken k t).threads t) ≡ false
      → IsTop k
      → IsTop (woken k t)
  woken-IsTop less top u pos = elim (ℕ_discrete u t) [
    | yes e ↦ omega (arith, ltb-leq less, ap (λ x. pri (woken k t).threads x) e)
    | no ne ↦ omega (
      arith,
      pri-woken u,
      pri-woken k.current,
      top u (ground (arith, pos, count-woken u, ne→== ne)),
    )
  ]
    where
      ltb-leq : {a b : ℕ} → ltb a b ≡ false → b ≤ a
      ltb-leq h = ground (arith, h)

  module _ (blocked : is_blocked (status k t) ≡ true) (working : t ≢ k.idle_thread) where
    woken-Fits :
        Fits k (k.ready_list ++ (t ∷ [])) k.all_list k.current k.thread_ticks t thread_ready
    woken-Fits = record {
      here = ground (
        arith,
        count-woken t,
        ==-refl t,
        v.listed.ready t,
        blocked-alive (status k t) blocked,
        ne→== working,
      );
      there = λ u ne. ground (arith, count-woken u, ne);
      all_here = ground (arith, v.listed.all t, blocked-alive (status k t) blocked);
      all_there = λ u ne. refl;
      before = ap not (blocked-alive (status k t) blocked).0;
      idle = λ e. refl;
    }

    pub woken-IsValid : IsValid (woken k t)
    woken-IsValid = record {
      listed =
          moved-IsListed k (k.ready_list ++ (t ∷ [])) k.all_list k.current k.thread_ticks t
            thread_ready v.listed woken-Fits;
      running = ground (arith, after k.current, away, v.running);
      only = only;
    }
      where
        away : t ≢ k.current
        away e = absurd (ground (arith, blocked-alive (status k t) blocked, v.running, e))

        after : (u : ℕ) → status (woken k t) u ≡ (if t == u then thread_ready else status k u)
        after =
            moved-status k (k.ready_list ++ (t ∷ [])) k.all_list k.current k.thread_ticks t
              thread_ready

        only : (u : ℕ) → is_running (status (woken k t) u) ≡ true → u ≡ k.current
        only u runs = elim (Bool-cases (t == u)) [
          | inl e ↦ absurd (ground (arith, after u, runs, e))
          | inr ne ↦ v.only u (ground (arith, after u, runs, ne))
        ]

    pub thread_unblock-woken : thread_unblock k t ≡ some (woken k t)
    unfolding thread_unblock
    thread_unblock-woken = rw blocked refl

-- A new thread of a priority that is allowed, on an unused page: it is ready or runs, and the greatest
-- thread runs after it if it did before.
abbrev pub Creates : Kernel → (page priority : ℕ) → Type 0
Creates k t priority =
    (k' : Kernel) × (thread_create k (some t) priority ≡ some (k', some k.next_tid))
    × IsValid k'
    × (IsTop k → IsTop k')
    × IsAwake k' t
    × Kept (added k t priority).threads k'.threads

thread_create-less :
    (k : Kernel) (t priority : ℕ) (u : Kernel) (b : Bool)
    → leb priority pri_max ≡ true
    → thread_unblock (added k t priority) t ≡ some u
    → thread_less (u.threads u.current) (u.threads t) ≡ some b
    → thread_create k (some t) priority ≡ (
        if b
        then (thread_yield u >>= λ k''. some (k'', some k.next_tid))
        else some (u, some k.next_tid))
unfolding thread_create
thread_create-less k t priority u b fits woke less = simp (fits, woke, less)

module _ (k : Kernel) (v : IsValid k) (t priority : ℕ) (unused : is_dying (status k t) ≡ true)
    (fits : priority ≤ pri_max) where
  abbrev ready : Kernel
  ready = woken (added k t priority) t

  blocked : is_blocked (status (added k t priority) t) ≡ true
  blocked = ap (λ x. is_blocked x.status) (added-here k v t priority unused)

  working : t ≢ k.idle_thread
  working e =
      absurd
        (ground (arith, spared k v t priority unused k.idle_thread v.listed.idle, ==-refl t, e))

  ready-IsValid : IsValid ready
  ready-IsValid =
      woken-IsValid (added k t priority) (added-IsValid k v t priority unused) t blocked working

  present : 0 < count t ready.ready_list
  present =
      ground (
        arith,
        count-woken (added k t priority) (added-IsValid k v t priority unused) t t,
        ==-refl t,
      )

  runs :
      (b : Bool)
      → ltb (pri ready.threads ready.current) (pri ready.threads t) ≡ b
      → thread_create k (some t) priority ≡ (
          if b
          then (thread_yield ready >>= λ k''. some (k'', some k.next_tid))
          else some (ready, some k.next_tid))
  runs b less =
      thread_create-less k t priority ready b (ground (arith, fits))
        (thread_unblock-woken (added k t priority) (added-IsValid k v t priority unused) t blocked
          working)
        (thread_less-ready ready ready-IsValid t present ∙ ap some less)

  -- A thread of the ready list has the priority that it had, and so has the current one.
  old_pri : (u : ℕ) → is_alive k u ≡ true → pri (added k t priority).threads u ≡ pri k.threads u
  old_pri u alive =
      ap effective (added-there k v t priority unused u (spared k v t priority unused u alive))

  added-IsTop : IsTop k → IsTop (added k t priority)
  added-IsTop top u listed = omega (
    arith,
    old_pri u (member-alive k v.listed u listed),
    old_pri k.current (ap not (running-alive (status k k.current) v.running).0),
    top u listed,
  )

  -- On a valid state, `thread_create` on an unused page with a priority that is allowed returns the
  -- next identifier and leaves a valid state in which the new thread is in the ready list or runs. If
  -- no ready thread exceeded the running one before, none does after. But for states of threads, the
  -- structures of the threads are the old ones with the new thread's initial one.
  pub thread_create-IsTop : Creates k t priority
  thread_create-IsTop =
      elim (Bool-cases (ltb (pri ready.threads ready.current) (pri ready.threads t))) [
        | inl less ↦
            let (k', yields, valid, top, kept) = thread_yield-Tops ready ready-IsValid in
            (
              k',
              runs true less ∙ ap (λ r. r >>= λ k''. some (k'', some k.next_tid)) yields,
              valid,
              λ h. top,
              thread_yield-IsAwake ready ready-IsValid t present k' yields,
              Kept-trans (added k t priority).threads ready.threads k'.threads
                  (woken-Kept (added k t priority) (added-IsValid k v t priority unused) t) kept,
            )
        | inr less ↦ (
          ready,
          runs false less,
          ready-IsValid,
          λ top.
              woken-IsTop (added k t priority) (added-IsValid k v t priority unused) t less
                (added-IsTop top),
          inl present,
          woken-Kept (added k t priority) (added-IsValid k v t priority unused) t,
        )
      ]
