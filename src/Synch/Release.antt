-- ===== src/Synch/Release.antt =====
-- The release of a lock takes the donated priority back to what the other locks donate.
use cs130_25spring_project.Common.{
  ℕ, ◌+◌, ◌≤◌, ◌<◌, ◌≡◌, ◌≢◌, refl, sym, ap, ◌∙◌, ◌⊎◌, inl, inr, true, false, none, some, List, [],
  ◌∷◌, ◌++◌, arith,
}
use mathlib.Core.Path.{subst, ap₂}
use cs130_25spring_project.Common.Counts.{count, count-append}
use cs130_25spring_project.Thread.{Thread, Kernel}
use cs130_25spring_project.Thread.Max.{All, pri}
use cs130_25spring_project.Thread.Ready.{IsValid, All-of_count, count-of_All}
use cs130_25spring_project.Thread.Moved.{assign-here, assign-there}
use cs130_25spring_project.Thread.Leave.{IsAwake}
use cs130_25spring_project.Thread.Schedule.{Chosen-greatest}
use cs130_25spring_project.Synch.{
  Semaphore, Synch, put, lock_held_by_current_thread, set_extra, find_donated, released, sema_up,
  lock_release,
}
use cs130_25spring_project.Synch.Wake.{Outcome, Waits, waiter-other, Ups, sema_up-Ups}
use cs130_25spring_project.Synch.Found.{
  with_extra-IsValid, with_extra-Waits, with_extra-pri, Found, Finds, find_donated-Finds,
}
use cs130_25spring_project.Synch.Dropped.{
  queue, rest, orphaned, dropped, dropped-IsValid, dropped-pri, dropped-Waits, dropped-locks,
  dropped-extra, reset_parents-parent,
}

module _ (s : Synch) (l : ℕ) (v : IsValid s.kernel) where
  abbrev cur : ℕ
  cur = s.kernel.current

  lock_release-steps :
      (threads : ℕ → Thread) (k' : Kernel) (sema : Semaphore)
      → lock_held_by_current_thread s l ≡ true
      → find_donated s.locks cur ((dropped s l).threads cur).locks (dropped s l).threads
        ≡ some threads
      → sema_up false (record s.kernel { threads = threads }) (s.locks l).semaphore
        ≡ some (k', sema)
      → lock_release s l
        ≡ some (record s {
          kernel = k';
          locks = put s.locks l (record { holder = none; semaphore = sema });
        })
  unfolding lock_release
  lock_release-steps threads k' sema held found up = simp (held, found, up) refl

  -- The donated priority that the remaining locks give, and the lock with one waiter less.
  abbrev pub Releases : Type 0
  Releases =
      (k' : Kernel) × (w : List ℕ) × (lock_release s l
        ≡ some (record s {
          kernel = k';
          locks = put s.locks l (record {
            holder = none;
            semaphore = record { value = (s.locks l).semaphore.value + 1; waiters = w };
          });
        }))
      × IsValid k'
      × Found s.kernel v s.locks (rest s l) 0 (k'.threads cur).extra_priority
      × ((k'.threads cur).locks ≡ (rest s l))
      × ((u : ℕ) → 0 < count u (queue s l) → (k'.threads u).parent ≡ none)
      × ((((queue s l) ≡ []) × (w ≡ []))
          ⊎ ((t : ℕ) × (before after : List ℕ) × ((queue s l) ≡ before ++ (t ∷ after))
              × (w ≡ before ++ after)
              × IsAwake k' t
              × All (λ u. pri s.kernel.threads u < pri s.kernel.threads t) before
              × ((u : ℕ)
                  → 0 < count u (queue s l)
                  → pri s.kernel.threads u ≤ pri s.kernel.threads t)))

  -- The state with the donated priority computed.
  abbrev computed : ℕ → Kernel
  computed extra = record s.kernel { threads = set_extra (dropped s l).threads cur extra }

  computed-pri : (extra u : ℕ) → u ≢ cur → pri (computed extra).threads u ≡ pri s.kernel.threads u
  computed-pri extra u ne =
      with_extra-pri (dropped s l) (dropped-IsValid s l v) s.locks extra u ne
      ∙ dropped-pri s l v u ne

  computed-parent :
      (extra u : ℕ) → u ≢ cur → 0 < count u (queue s l) → ((computed extra).threads u).parent ≡ none
  computed-parent extra u ne pos =
      ap (λ x. x.parent)
        (assign-there (dropped s l).threads cur
            (record ((dropped s l).threads cur) { extra_priority = extra }) u (λ e. ne (sym e))
          ∙ assign-there (orphaned s l) cur (released ((orphaned s l) cur) l) u (λ e. ne (sym e)))
      ∙ reset_parents-parent (queue s l) s.kernel.threads u pos

  -- What is found with the state before the computation is found with the state of the call.
  Found-dropped :
      (extra : ℕ)
      → ((j : ℕ) → 0 < count j (rest s l) → Waits s.kernel (s.locks j).semaphore.waiters)
      → Found (dropped s l) (dropped-IsValid s l v) s.locks (rest s l) 0 extra
      → Found s.kernel v s.locks (rest s l) 0 extra
  Found-dropped extra others f = record {
    above_start = f.above_start;
    above = λ j u pos waits. omega (arith, f.above j u pos waits, same j u pos waits);
    reached = elim f.reached [
      | inl e ↦ inl e
      | inr r ↦ let (j, u, pos, waits, e) = r in inr (j, u, pos, waits, e ∙ same j u pos waits)
    ];
  }
    where
      same :
          (j u : ℕ)
          → 0 < count j (rest s l)
          → 0 < count u (s.locks j).semaphore.waiters
          → pri (dropped s l).threads u ≡ pri s.kernel.threads u
      same j u pos waits =
          dropped-pri s l v u
            (waiter-other s.kernel v (s.locks j).semaphore.waiters (others j pos) u waits)

  -- The waiter that is woken, by the priorities before the call.
  woken_queue :
      (extra : ℕ) (q : List ℕ) {k' : Kernel}
      → ((u : ℕ) → 0 < count u (queue s l) → u ≢ cur)
      → Outcome false (computed extra) (s.locks l).semaphore k' q
      → (((queue s l) ≡ []) × (q ≡ []))
        ⊎ ((t : ℕ) × (before after : List ℕ) × ((queue s l) ≡ before ++ (t ∷ after))
            × (q ≡ before ++ after)
            × IsAwake k' t
            × All (λ u. pri s.kernel.threads u < pri s.kernel.threads t) before
            × ((u : ℕ) → 0 < count u (queue s l) → pri s.kernel.threads u ≤ pri s.kernel.threads t))
  woken_queue extra q other (inl (e, f, g)) = inl (e, f)
  woken_queue extra q other (inr (t, before, after, (split, small, more), f, awake, g)) =
      let (present, greatest) =
        Chosen-greatest (record (computed extra) { ready_list = (queue s l) }) t before after split
          small more in
      let among : (u : ℕ) → 0 < count u before → 0 < count u (queue s l) =
        λ u pos. omega (arith, pos, ap (count u) split, count-append u before (t ∷ after)) in
      inr (
        t,
        before,
        after,
        split,
        f,
        awake,
        All-of_count (λ u. pri s.kernel.threads u < pri s.kernel.threads t) before
            (λ u pos. omega (
              arith,
              count-of_All (λ x. pri (computed extra).threads x < pri (computed extra).threads t)
                  before u small pos,
              computed-pri extra u (other u (among u pos)),
              computed-pri extra t (other t present),
            )),
        λ u pos. omega (
          arith,
          greatest u pos,
          computed-pri extra u (other u pos),
          computed-pri extra t (other t present),
        ),
      )

  -- On a valid state, with waiters that sleep, `lock_release` of a lock that the current thread holds
  -- does not panic. The lock is free with its value one up, and the first of its greatest waiters, if
  -- there is one, is out of its queue and in the ready list or running; its waiters wait for no holder; the donated priority of the
  -- thread is the greatest of zero and the priorities of the waiters of the locks that it still holds.
  pub lock_release-Releases :
      lock_held_by_current_thread s l ≡ true
      → Waits s.kernel (queue s l)
      → ((j : ℕ) → 0 < count j (rest s l) → Waits s.kernel (s.locks j).semaphore.waiters)
      → Releases
  lock_release-Releases held w others = go (
      find_donated-Finds (dropped s l) (dropped-IsValid s l v) s.locks (rest s l) 0
        (λ j pos. dropped-Waits s l v (s.locks j).semaphore.waiters (others j pos)))
    where
      other : (u : ℕ) → 0 < count u (queue s l) → u ≢ cur
      other = waiter-other s.kernel v (queue s l) w

      finish_up :
          (extra : ℕ)
          → find_donated s.locks cur ((dropped s l).threads cur).locks (dropped s l).threads
            ≡ some (computed extra).threads
          → Found (dropped s l) (dropped-IsValid s l v) s.locks (rest s l) 0 extra
          → Ups false (computed extra) (s.locks l).semaphore
          → Releases
      finish_up extra found f (k', q, up, valid, kept, top, outcome) = (
        k',
        q,
        lock_release-steps (computed extra).threads k'
            (record { value = (s.locks l).semaphore.value + 1; waiters = q }) held found up,
        valid,
        subst (Found s.kernel v s.locks (rest s l) 0) (sym final) (Found-dropped extra others f),
        ap (λ x. x.locks) (kept cur)
            ∙ ap (λ x. x.locks) (assign-here (dropped s l).threads cur value)
            ∙ (dropped-locks s l v),
        λ u pos. ap (λ x. x.parent) (kept u) ∙ computed-parent extra u (other u pos) pos,
        woken_queue extra q other outcome,
      )
        where
          value : Thread
          value = record ((dropped s l).threads cur) { extra_priority = extra }

          final : (k'.threads cur).extra_priority ≡ extra
          final =
              ap (λ x. x.extra_priority) (kept cur)
              ∙ ap (λ x. x.extra_priority) (assign-here (dropped s l).threads cur value)

      go : Finds (dropped s l) (dropped-IsValid s l v) s.locks (rest s l) 0 → Releases
      go (extra, runs, f) =
          finish_up extra
            (ap₂ (find_donated s.locks cur) (dropped-locks s l v) (sym (dropped-extra s l v))
              ∙ runs)
            f
            (sema_up-Ups false (computed extra) (s.locks l).semaphore
              (with_extra-IsValid (dropped s l) (dropped-IsValid s l v) s.locks extra)
              (with_extra-Waits (dropped s l) (dropped-IsValid s l v) s.locks extra (queue s l)
                (dropped-Waits s l v (queue s l) w)))
