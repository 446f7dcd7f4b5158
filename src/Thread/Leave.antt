-- ===== src/Thread/Leave.antt =====
-- The routines in which the current thread leaves the processor.
use cs130_25spring_project.Common.{
  ℕ, ◌<◌, ◌≡◌, ◌≢◌, refl, sym, ap, ◌∙◌, ◌⊎◌, inl, inr, true, false, not, some, List, [], ◌∷◌, ◌++◌,
  arith, ◌==◌, if◌then◌else◌, Bool-cases, ne→==, eq→==, ==→eq, ==-refl, ℕ_discrete,
}
use mathlib.Core.Path.{subst}
use mathlib.Core.Option.{some_inj}
use cs130_25spring_project.Common.Counts.{count, count-append, count-one}
use cs130_25spring_project.Thread.{
  thread_running, Kernel, Status, is_running, is_blocked, list_remove, thread_block, thread_yield,
  thread_exit, thread_blocked, thread_ready, thread_dying,
}
use cs130_25spring_project.Thread.Ready.{
  status, is_alive, IsValid, IsPending, count-list_remove, running-alive,
}
use cs130_25spring_project.Thread.Schedule.{Chosen, switched, Chosen-others, Chosen-source}
use cs130_25spring_project.Thread.Moved.{
  Kept, Kept-trans, moved-Kept, moved, moved-IsListed, moved-status, Fits,
}
use cs130_25spring_project.Thread.Switch.{Switches, schedule-switched}

-- The ready list of `thread_yield` before it switches.
abbrev pub queued : Kernel → List ℕ
queued k = if k.current == k.idle_thread then k.ready_list else k.ready_list ++ (k.current ∷ [])

-- The current thread in another state, with other lists, before the switch.
abbrev pub left : Kernel → (ready_list all_list : List ℕ) → Status → Kernel
left k ready_list all_list s = moved k ready_list all_list k.current k.thread_ticks k.current s

-- A switch changes nothing but states of threads.
pub switched-Kept :
    (k : Kernel) (ready_list all_list : List ℕ) (s : Status) (next : ℕ) (l : List ℕ)
    → Kept k.threads (switched (left k ready_list all_list s) next l).threads
switched-Kept k ready_list all_list s next l =
    let before = left k ready_list all_list s in
    Kept-trans k.threads before.threads (switched before next l).threads
      (moved-Kept k ready_list all_list k.current k.thread_ticks k.current s)
      (moved-Kept before l all_list next 0 next thread_running)

-- The thread is in the ready list or runs.
abbrev pub IsAwake : Kernel → ℕ → Type 0
IsAwake k t = (0 < count t k.ready_list) ⊎ (t ≡ k.current)

module _ (k : Kernel) (v : IsValid k) where
  leave-IsPending :
      (ready_list all_list : List ℕ) (s : Status)
      → is_running s ≡ false
      → Fits k ready_list all_list k.current k.thread_ticks k.current s
      → IsPending (left k ready_list all_list s)
  leave-IsPending ready_list all_list s stops f = record {
    listed = moved-IsListed k ready_list all_list k.current k.thread_ticks k.current s v.listed f;
    stopped = stopped;
  }
    where
      after :
          (t : ℕ)
          → status (left k ready_list all_list s) t ≡ (if k.current == t then s else status k t)
      after = moved-status k ready_list all_list k.current k.thread_ticks k.current s

      stopped : (t : ℕ) → is_running (status (left k ready_list all_list s) t) ≡ false
      stopped t = elim (ℕ_discrete k.current t) [
        | yes e ↦ ap is_running (after t ∙ ap (λ b. if b then s else status k t) (eq→== e)) ∙ stops
        | no ne ↦ elim (Bool-cases (is_running (status k t))) [
          | inl runs ↦ absurd (ne (sym (v.only t runs)))
          | inr rests ↦
              ap is_running (after t ∙ ap (λ b. if b then s else status k t) (ne→== ne)) ∙ rests
        ]
      ]

  current-alive : is_alive k k.current ≡ true
  current-alive = ap not (running-alive (status k k.current) v.running).0

  pub current-listed : count k.current k.ready_list ≡ 0
  current-listed =
      ground (arith, v.listed.ready k.current, (running-alive (status k k.current) v.running).1)

  current-all : count k.current k.all_list ≡ 1
  current-all = ground (arith, v.listed.all k.current, current-alive)

  pub thread_block-Switches :
      Switches (left k k.ready_list k.all_list thread_blocked) (thread_block k)
  unfolding thread_block
  thread_block-Switches = schedule-switched (left k k.ready_list k.all_list thread_blocked) (
      leave-IsPending k.ready_list k.all_list thread_blocked refl (record {
        here = current-listed;
        there = λ u ne. refl;
        all_here = current-all;
        all_there = λ u ne. refl;
        before = current-alive;
        idle = λ e. refl;
      }))

  -- A thread other than the idle one that blocks does not run after the switch, and stays blocked.
  pub thread_block-blocked :
      (next : ℕ) (l : List ℕ)
      → Chosen (left k k.ready_list k.all_list thread_blocked) next l
      → k.current ≢ k.idle_thread
      → (next ≢ k.current)
        × (is_blocked
              (status (switched (left k k.ready_list k.all_list thread_blocked) next l) k.current)
            ≡ true)
  thread_block-blocked next l c working = (away, ap is_blocked stays)
    where
      before : Kernel
      before = left k k.ready_list k.all_list thread_blocked

      away : next ≢ k.current
      away e = elim (Chosen-source before next l c) [
        | inl pos ↦ absurd (omega (arith, pos, ap (λ t. count t k.ready_list) e, current-listed))
        | inr idle ↦ absurd (working (sym e ∙ idle))
      ]

      stays : status (switched before next l) k.current ≡ thread_blocked
      stays =
          moved-status before l k.all_list next 0 next thread_running k.current
          ∙ ap (λ b. if b then thread_running else status before k.current) (ne→== away)
          ∙ moved-status k k.ready_list k.all_list k.current k.thread_ticks k.current thread_blocked
              k.current
          ∙ ap (λ b. if b then thread_blocked else status k k.current) (==-refl k.current)

  queued-current : count k.current (queued k) ≡ (if not (k.current == k.idle_thread) then 1 else 0)
  queued-current = ground (
    arith,
    count-append k.current k.ready_list (k.current ∷ []),
    count-one k.current k.current,
    ==-refl k.current,
    current-listed,
  )

  queued-other : (u : ℕ) → (k.current == u) ≡ false → count u (queued k) ≡ count u k.ready_list
  queued-other u ne =
      ground (arith, count-append u k.ready_list (k.current ∷ []), count-one k.current u, ne)

  -- On a valid state `thread_yield` does not panic. It puts the current thread at the end of the ready
  -- list, unless it is the idle one, and switches to the first of the greatest threads of the list, or
  -- to the idle thread when there is none; the state after it is valid.
  pub thread_yield-Switches : Switches (left k (queued k) k.all_list thread_ready) (thread_yield k)
  unfolding thread_yield
  thread_yield-Switches = schedule-switched (left k (queued k) k.all_list thread_ready) (
      leave-IsPending (queued k) k.all_list thread_ready refl (record {
        here = queued-current;
        there = queued-other;
        all_here = current-all;
        all_there = λ u ne. refl;
        before = current-alive;
        idle = λ e. refl;
      }))

  -- A thread of the ready list stays there over a yield, or is the one that runs then.
  pub thread_yield-IsAwake :
      (t : ℕ) → 0 < count t k.ready_list → (k' : Kernel) → thread_yield k ≡ some k' → IsAwake k' t
  thread_yield-IsAwake t pos k' called = go thread_yield-Switches
    where
      before : Kernel
      before = left k (queued k) k.all_list thread_ready

      there : 0 < count t (queued k)
      there = ground (arith, pos, count-append t k.ready_list (k.current ∷ []))

      go : Switches before (thread_yield k) → IsAwake k' t
      go (next, l, e, c, valid, top) =
          subst (λ x. IsAwake x t) (some_inj.0 (sym e ∙ called))
            (Chosen-others before next l c t there)

  pub thread_exit-Switches :
      k.current ≢ k.idle_thread
      → Switches
          (left k k.ready_list (list_remove k.current k.all_list) thread_dying)
          (thread_exit k)
  unfolding thread_exit
  thread_exit-Switches working =
      schedule-switched (left k k.ready_list (list_remove k.current k.all_list) thread_dying) (
        leave-IsPending k.ready_list (list_remove k.current k.all_list) thread_dying refl (record {
          here = current-listed;
          there = λ u ne. refl;
          all_here = ground (
            arith,
            count-list_remove k.current k.current k.all_list,
            ==-refl k.current,
            current-all,
          );
          all_there = λ u ne. ground (arith, count-list_remove k.current u k.all_list, ne);
          before = current-alive;
          idle = λ e. absurd (working (==→eq k.current k.idle_thread e));
        }))
