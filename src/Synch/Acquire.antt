-- ===== src/Synch/Acquire.antt =====
-- A thread that has to wait for a lock passes its priority on to the holder.
use cs130_25spring_project.Common.{
  ℕ, ◌+◌, ◌≤◌, ◌≡◌, ◌≢◌, refl, ap, ◌∙◌, true, false, some, List, [], ◌∷◌, ◌++◌, arith,
}
use cs130_25spring_project.Thread.{
  Thread, Kernel, effective, assign, is_blocked, thread_block, thread_blocked,
}
use cs130_25spring_project.Thread.Max.{pri}
use cs130_25spring_project.Thread.Ready.{status, IsValid, IsTop}
use cs130_25spring_project.Thread.Moved.{Kept, Kept-pri, assign-here, assign_keeps, kept-IsValid}
use cs130_25spring_project.Thread.Schedule.{Chosen, switched}
use cs130_25spring_project.Thread.Switch.{Switches}
use cs130_25spring_project.Thread.Leave.{
  left, switched-Kept, thread_block-Switches, thread_block-blocked,
}
use cs130_25spring_project.Synch.{
  Lock, Synch, put, is_holder, sema_down, donated, lock_resume, lock_acquire, max_depth,
}
use cs130_25spring_project.Synch.Raise.{ancestor, Raised-pri, Raised-parent}
use cs130_25spring_project.Synch.Donate.{Donates, donate_up-Donates}

-- The threads once the current one has its parent.
abbrev pub joined : Synch → ℕ → ℕ → Thread
joined s l =
    assign s.kernel.threads s.kernel.current
      (record (s.kernel.threads s.kernel.current) { parent = (s.locks l).holder })

-- The lock with one more waiter.
abbrev pub awaited : Lock → ℕ → Lock
awaited lock t = record lock {
  semaphore = record lock.semaphore { waiters = lock.semaphore.waiters ++ (t ∷ []) };
}

module _ (s : Synch) (l : ℕ) (v : IsValid s.kernel) where
  abbrev cur : ℕ
  cur = s.kernel.current

  abbrev joining : Thread
  joining = record (s.kernel.threads cur) { parent = (s.locks l).holder }

  donates : Donates (joined s l) (donated s l).kernel.threads cur
  donates = donate_up-Donates (joined s l) cur

  donated-IsValid : IsValid (donated s l).kernel
  donated-IsValid =
      kept-IsValid s.kernel (donated s l).kernel.threads
        (λ u.
          ap (λ x. x.status) (donates.raised.same u)
          ∙ assign_keeps (λ x. x.status) s.kernel.threads cur joining refl u)
        (λ u.
          ap (λ x. x.tid) (donates.raised.same u)
          ∙ assign_keeps (λ x. x.tid) s.kernel.threads cur joining refl u)
        v

  -- The donations made and the current thread blocked, before the switch.
  abbrev pub blocked : Kernel
  blocked =
      left (donated s l).kernel (donated s l).kernel.ready_list (donated s l).kernel.all_list
        thread_blocked

  -- The end of a wait: the state after the switch to the first of the greatest ready threads.
  abbrev pub Awaits : Type 0
  Awaits =
      (k' : Kernel) × (lock_acquire s l
        ≡ some (record s { kernel = k'; locks = put s.locks l (awaited (s.locks l) cur) }, false))
      × IsValid k'
      × IsTop k'
      × Chosen blocked k'.current k'.ready_list
      × (k'.current ≢ cur)
      × (is_blocked (status k' cur) ≡ true)
      × ((k'.threads cur).parent ≡ (s.locks l).holder)
      × ((m a : ℕ)
          → m ≤ max_depth + 1
          → ancestor (joined s l) cur m ≡ some a
          → pri s.kernel.threads cur ≤ pri k'.threads a)
      × ((u : ℕ) → pri s.kernel.threads u ≤ pri k'.threads u)

  sema_down-wait :
      (k' : Kernel)
      → (s.locks l).semaphore.value ≡ 0
      → is_holder (s.locks l).holder cur ≡ false
      → thread_block (donated s l).kernel ≡ some k'
      → lock_acquire s l
        ≡ some (record s { kernel = k'; locks = put s.locks l (awaited (s.locks l) cur) }, false)
  unfolding lock_acquire lock_resume sema_down
  sema_down-wait k' empty free block = simp (free, empty, block) refl

  -- On a valid state in which the current thread is not the idle one, with a lock that another thread
  -- holds, `lock_acquire` does not panic. It puts the current thread at the end of the queue, blocks it
  -- and switches to another: the first of the greatest ready threads, or the idle one if none is
  -- ready. The current thread waits
  -- for the holder, each thread that it waits for through at most nine locks has its effective
  -- priority at least, and no effective priority fell.
  pub lock_acquire-Awaits :
      (s.locks l).semaphore.value ≡ 0
      → is_holder (s.locks l).holder cur ≡ false
      → cur ≢ s.kernel.idle_thread
      → Awaits
  lock_acquire-Awaits empty free working =
      go (thread_block-Switches (donated s l).kernel donated-IsValid)
    where
      k₁ : Kernel
      k₁ = (donated s l).kernel

      kept : (next : ℕ) (rest : List ℕ) → Kept k₁.threads (switched blocked next rest).threads
      kept next rest = switched-Kept k₁ k₁.ready_list k₁.all_list thread_blocked next rest

      joined_pri : (u : ℕ) → pri (joined s l) u ≡ pri s.kernel.threads u
      joined_pri u = assign_keeps effective s.kernel.threads cur joining refl u

      go : Switches blocked (thread_block k₁) → Awaits
      go (next, rest, e, c, valid, top) = (
        switched blocked next rest,
        sema_down-wait (switched blocked next rest) empty free e,
        valid,
        top,
        c,
        (thread_block-blocked k₁ donated-IsValid next rest c working).0,
        (thread_block-blocked k₁ donated-IsValid next rest c working).1,
        ap (λ x. x.parent) (kept next rest cur)
            ∙ Raised-parent (joined s l) k₁.threads donates.raised cur
            ∙ ap (λ x. x.parent) (assign-here s.kernel.threads cur joining),
        λ m a le reach. omega (
          arith,
          joined_pri cur,
          donates.reached m a le reach,
          Kept-pri k₁.threads (switched blocked next rest).threads (kept next rest) a,
        ),
        λ u. omega (
          arith,
          joined_pri u,
          Raised-pri (joined s l) k₁.threads donates.raised u,
          Kept-pri k₁.threads (switched blocked next rest).threads (kept next rest) u,
        ),
      )
