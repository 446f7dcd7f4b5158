-- ===== src/Synch/Tests.antt =====
-- The main thread holds a lock that one thread waits for, which holds another lock with a waiter.
use cs130_25spring_project.Common.{
  ℕ, ◌<◌, ◌≡◌, refl, sym, ◌∙◌, true, false, Option, none, some, List, [], ◌∷◌, arith, ◌==◌,
  if◌then◌else◌,
}
use mathlib.Core.Path.{subst}
use cs130_25spring_project.Common.Counts.{count}
use cs130_25spring_project.Thread.{
  Thread, Kernel, Status, thread_running, list_remove, thread_blocked, thread_dying,
}
use cs130_25spring_project.Thread.Ready.{status, is_alive, IsValid}
use cs130_25spring_project.Thread.{init_thread}
use cs130_25spring_project.Synch.{Lock, Synch, lock_init, donate_up}
use cs130_25spring_project.Synch.Donate.{Donates, donate_up-Donates}
use cs130_25spring_project.Synch.Wake.{Waits, Ups, sema_up-Ups}
use cs130_25spring_project.Synch.Acquire.{Awaits, lock_acquire-Awaits}
use cs130_25spring_project.Synch.Release.{Releases, lock_release-Releases}

abbrev member : (tid priority : ℕ) → Status → Option ℕ → List ℕ → Thread
member tid priority status parent locks = record (init_thread tid priority) {
  status = status;
  parent = parent;
  locks = locks;
}

-- Thread 1 runs with the locks 0 and 2, 3 waits for the lock 0 and 4 for the lock 2; 2 is idle.
abbrev example_threads : ℕ → Thread
example_threads t =
    if t == 1
    then record (member 1 31 thread_running none (0 ∷ 2 ∷ [])) { extra_priority = 50 }
    else if t == 2
    then member 2 0 thread_blocked none []
    else if t == 3
    then member 3 50 thread_blocked (some 1) (1 ∷ [])
    else if t == 4
    then member 4 40 thread_blocked (some 1) []
    else member 0 0 thread_dying none []

abbrev example : Kernel
example = record {
  threads = example_threads;
  ready_list = [];
  all_list = 1 ∷ 2 ∷ 3 ∷ 4 ∷ [];
  current = 1;
  idle_thread = 2;
  thread_ticks = 0;
  next_tid = 5;
}

abbrev held_by : ℕ → List ℕ → Lock
held_by t waiters = record { holder = some t; semaphore = record { value = 0; waiters = waiters } }

abbrev three_locks : ℕ → Lock
three_locks l =
    if l == 0
    then held_by 1 (3 ∷ [])
    else if l == 1
    then held_by 3 []
    else if l == 2
    then held_by 1 (4 ∷ [])
    else lock_init

abbrev machine : Synch
machine = record {
  kernel = example;
  locks = three_locks;
  semaphores = λ i. record { value = 0; waiters = [] };
}

tid_self : (t : ℕ) → is_alive example t ≡ true → (example_threads t).tid ≡ t
tid_self t a = ground arith

example-IsValid : IsValid example
unfolding count
example-IsValid = record {
  listed = record {
    ready = λ t. ground arith;
    all = λ t. ground arith;
    tids = λ t u a b e. sym (tid_self t a) ∙ e ∙ tid_self u b;
    fresh = λ t a. ground arith;
    idle = refl;
  };
  running = refl;
  only = λ t h. ground arith;
}

three-Waits : Waits example (3 ∷ [])
unfolding count
three-Waits = record {
  blocked = λ t pos. ground (arith, pos);
  working = λ t pos e. ground (arith, pos, e);
  once = λ t. ground arith;
}

four-Waits : Waits example (4 ∷ [])
unfolding count
four-Waits = record {
  blocked = λ t pos. ground (arith, pos);
  working = λ t pos e. ground (arith, pos, e);
  once = λ t. ground arith;
}

remaining-Waits : (j : ℕ) → 0 < count j (2 ∷ []) → Waits example (three_locks j).semaphore.waiters
unfolding count
remaining-Waits j pos =
    let same : 2 ≡ j = ground (arith, pos) in
    subst (λ x. Waits example (three_locks x).semaphore.waiters) same four-Waits

donate_up-Donates_example : Donates example_threads (donate_up example_threads 3 0) 3
donate_up-Donates_example = donate_up-Donates example_threads 3

sema_up-Ups_example : Ups false example (record { value = 0; waiters = 3 ∷ [] })
sema_up-Ups_example =
    sema_up-Ups false example (record { value = 0; waiters = 3 ∷ [] }) example-IsValid three-Waits

lock_acquire-Awaits_example : Awaits machine 1 example-IsValid
lock_acquire-Awaits_example =
    lock_acquire-Awaits machine 1 example-IsValid refl refl (λ e. absurd (omega (arith, e)))

lock_release-Releases_example : Releases machine 0 example-IsValid
unfolding list_remove
lock_release-Releases_example =
    lock_release-Releases machine 0 example-IsValid refl three-Waits remaining-Waits
