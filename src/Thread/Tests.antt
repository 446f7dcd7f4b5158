-- ===== src/Thread/Tests.antt =====
-- Four threads: the main one runs, the idle one and another are blocked, and one is ready.
use cs130_25spring_project.Common.{
  ℕ, ◌≡◌, refl, sym, ◌∙◌, true, Option, none, some, [], ◌∷◌, arith, ◌==◌, if◌then◌else◌,
}
use cs130_25spring_project.Common.Counts.{count}
use cs130_25spring_project.Thread.{
  Thread, Kernel, Status, thread_running, list_remove, thread_list_max, next_thread_to_run,
  schedule, thread_yield, thread_less, list_max, thread_set_priority, thread_unblock, init_thread,
  thread_blocked, thread_ready, thread_dying,
}
use cs130_25spring_project.Thread.Max.{All, Distinct}
use cs130_25spring_project.Thread.Ready.{status, is_alive, IsListed, IsValid}
use cs130_25spring_project.Thread.Switch.{Switches}
use cs130_25spring_project.Thread.Leave.{left}
use cs130_25spring_project.Thread.Preempt.{Tops, prioritized}
use cs130_25spring_project.Thread.Create.{woken, thread_create-IsTop, Creates}
use cs130_25spring_project.Thread.Preempt.{thread_set_priority-IsTop}
use cs130_25spring_project.Thread.Leave.{queued, thread_yield-Switches}
use cs130_25spring_project.Thread.Run.{unblock, yield, run, Allowed, here, after, Reach-IsValid}

abbrev member : ℕ → Status → ℕ → Thread
member tid status priority = record (init_thread tid priority) { status = status }

abbrev example_threads : ℕ → Thread
example_threads t =
    if t == 1
    then member 1 thread_running 31
    else if t == 2
    then member 2 thread_blocked 0
    else if t == 3
    then member 3 thread_ready 31
    else if t == 4
    then member 4 thread_blocked 40
    else member 0 thread_dying 0

abbrev example : Kernel
example = record {
  threads = example_threads;
  ready_list = 3 ∷ [];
  all_list = 1 ∷ 2 ∷ 3 ∷ 4 ∷ [];
  current = 1;
  idle_thread = 2;
  thread_ticks = 0;
  next_tid = 5;
}

abbrev current_of : Option Kernel → ℕ
current_of none = 0
current_of (some k) = k.current

tid_self : (t : ℕ) → is_alive example t ≡ true → (example_threads t).tid ≡ t
tid_self t a = ground arith

example-IsListed : IsListed example
unfolding count
example-IsListed = record {
  ready = λ t. ground arith;
  all = λ t. ground arith;
  tids = λ t u a b e. sym (tid_self t a) ∙ e ∙ tid_self u b;
  fresh = λ t a. ground arith;
  idle = refl;
}

example-IsValid : IsValid example
example-IsValid = record { listed = example-IsListed; running = refl; only = λ t h. ground arith }

two-Distinct : Distinct example_threads (3 ∷ 4 ∷ [])
unfolding Distinct All
two-Distinct = ((λ e. absurd (ground (arith, e)), tt), (tt, tt))

thread_yield-Switches_example :
    Switches (left example (queued example) example.all_list thread_ready) (thread_yield example)
thread_yield-Switches_example = thread_yield-Switches example example-IsValid

thread_set_priority-IsTop_example : Tops (prioritized example 10) (thread_set_priority example 10)
thread_set_priority-IsTop_example = thread_set_priority-IsTop example 10 example-IsValid

thread_create-IsTop_example : Creates example 5 63
thread_create-IsTop_example = thread_create-IsTop example example-IsValid 5 63 refl (omega arith)

woken_once : run (unblock 4) example ≡ some (woken example 4)
unfolding run thread_unblock
woken_once = refl

unblock_fits : Allowed example (unblock 4)
unfolding Allowed
unblock_fits = (refl, λ e. absurd (ground (arith, e)))

yield_fits : Allowed (woken example 4) yield
unfolding Allowed
yield_fits = tt

Reach-IsValid_example :
    IsValid (woken example 4)
    × ((k' : Kernel) × (run yield (woken example 4) ≡ some k') × IsValid k')
Reach-IsValid_example =
    Reach-IsValid example (woken example 4) yield example-IsValid
      (after example (woken example 4) (unblock 4) here unblock_fits woken_once) yield_fits

-- The woken thread of priority 40 runs after the yield.
yield_runs : current_of (run yield (woken example 4)) ≡ 4
unfolding run thread_yield schedule next_thread_to_run thread_list_max list_max thread_less
    list_remove
yield_runs = refl
