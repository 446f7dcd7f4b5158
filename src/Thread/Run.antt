-- ===== src/Thread/Run.antt =====
-- The calls of the scheduler in any order, each where its assertions and the use of it in the kernel
-- allow it.
use cs130_25spring_project.Common.{
  ℕ, ◌+◌, ◌≤◌, ◌≡◌, ◌≢◌, refl, sym, ap, ◌∙◌, Bool, true, false, Option, none, some, ◌>>=◌,
}
use mathlib.Core.Option.{some_inj}
use mathlib.Core.Path.{subst}
use cs130_25spring_project.Thread.{
  Kernel, is_blocked, is_dying, list_remove, thread_block, thread_yield, thread_exit,
  thread_set_priority, thread_unblock, thread_create, thread_tick, pri_max, thread_blocked,
  thread_dying,
}
use cs130_25spring_project.Thread.Ready.{status, IsValid}
use cs130_25spring_project.Thread.Schedule.{switched}
use cs130_25spring_project.Thread.Switch.{Switches}
use cs130_25spring_project.Thread.Leave.{left}
use cs130_25spring_project.Thread.Preempt.{Tops, thread_yield-Tops, prioritized}
use cs130_25spring_project.Thread.Create.{
  woken, woken-IsValid, thread_unblock-woken, thread_create-IsTop,
}
use cs130_25spring_project.Thread.Preempt.{thread_set_priority-IsTop}
use cs130_25spring_project.Thread.Leave.{thread_block-Switches, thread_exit-Switches}

pub data Call : Type 0 where
  block : Call
  unblock : ℕ → Call
  yield : Call
  exit : Call
  create : Option ℕ → ℕ → Call
  set_priority : ℕ → Call
  tick : Call

-- The timer interrupt returns through `thread_yield` when the time slice is over.
unfoldable pub run_tick : Kernel × Bool → Option Kernel
run_tick (k, false) = some k
run_tick (k, true) = thread_yield k

unfoldable pub run : Call → Kernel → Option Kernel
run block k = thread_block k
run (unblock t) k = thread_unblock k t
run yield k = thread_yield k
run exit k = thread_exit k
run (create page priority) k = thread_create k page priority >>= λ (k', tid). some k'
run (set_priority priority) k = thread_set_priority k priority
run tick k = run_tick (thread_tick k)

-- The idle thread is not woken once it runs, and does not exit. A new thread has a page in no use.
unfoldable pub Allowed : Kernel → Call → Type 0
Allowed k block = Unit {0}
Allowed k (unblock t) = (is_blocked (status k t) ≡ true) × (t ≢ k.idle_thread)
Allowed k yield = Unit {0}
Allowed k exit = k.current ≢ k.idle_thread
Allowed k (create none priority) = Unit {0}
Allowed k (create (some t) priority) = (is_dying (status k t) ≡ true) × (priority ≤ pri_max)
Allowed k (set_priority priority) = Unit {0}
Allowed k tick = Unit {0}

abbrev Returns : Option Kernel → Type 0
Returns result = (k' : Kernel) × (result ≡ some k') × IsValid k'

Switches-Returns : (k : Kernel) (result : Option Kernel) → Switches k result → Returns result
Switches-Returns k result (next, l, e, c, valid, top) = (switched k next l, e, valid)

Tops-Returns : (k : Kernel) (result : Option Kernel) → Tops k result → Returns result
Tops-Returns k result (k', e, valid, top, kept) = (k', e, valid)

ticked-IsValid : (k : Kernel) (ticks : ℕ) → IsValid k → IsValid (record k { thread_ticks = ticks })
ticked-IsValid k ticks v = record {
  listed = record {
    ready = v.listed.ready;
    all = v.listed.all;
    tids = v.listed.tids;
    fresh = v.listed.fresh;
    idle = v.listed.idle;
  };
  running = v.running;
  only = v.only;
}

run_tick-Returns : (k : Kernel) (b : Bool) → IsValid k → Returns (run_tick (k, b))
unfolding run_tick
run_tick-Returns k false v = (k, refl, v)
run_tick-Returns k true v = Tops-Returns k (thread_yield k) (thread_yield-Tops k v)

nowhere : (k : Kernel) (priority : ℕ) → run (create none priority) k ≡ some k
unfolding run thread_create
nowhere k priority = refl

run-Returns : (k : Kernel) (c : Call) → IsValid k → Allowed k c → Returns (run c k)
unfolding run Allowed
run-Returns k block v h =
    Switches-Returns (left k k.ready_list k.all_list thread_blocked) (thread_block k)
      (thread_block-Switches k v)
run-Returns k (unblock t) v (blocked, working) =
    (woken k t, thread_unblock-woken k v t blocked working, woken-IsValid k v t blocked working)
run-Returns k yield v h = Tops-Returns k (thread_yield k) (thread_yield-Tops k v)
run-Returns k exit v h =
    Switches-Returns (left k k.ready_list (list_remove k.current k.all_list) thread_dying)
      (thread_exit k) (thread_exit-Switches k v h)
run-Returns k (create none priority) v h = (k, nowhere k priority, v)
run-Returns k (create (some t) priority) v (unused, fits) =
    let (k', e, valid, top, awake, kept) = thread_create-IsTop k v t priority unused fits in
    (k', ap (λ r. r >>= λ (k', tid). some k') e, valid)
run-Returns k (set_priority priority) v h =
    Tops-Returns (prioritized k priority) (thread_set_priority k priority)
      (thread_set_priority-IsTop k priority v)
run-Returns k tick v h =
    run_tick-Returns (thread_tick k).0 (thread_tick k).1 (ticked-IsValid k (k.thread_ticks + 1) v)

-- The states that allowed calls lead to.
pub data Reach (start : Kernel) : Kernel → Type 0 where
  here : Reach start start
  after :
      (k k' : Kernel) (c : Call) → Reach start k → Allowed k c → run c k ≡ some k' → Reach start k'

Reach-kept : (start k : Kernel) → IsValid start → Reach start k → IsValid k
Reach-kept start _ v here = v
Reach-kept start _ v (after k k' c before h e) =
    let (k'', f, valid) = run-Returns k c (Reach-kept start k v before) h in
    subst IsValid (some_inj.0 (sym f ∙ e)) valid

-- From a valid state no sequence of allowed calls panics, and each state on the way is valid: one
-- thread runs, each ready thread but the idle one is in the ready list once, each thread that is not
-- dying is in the list of all threads once, and identifiers differ.
pub Reach-IsValid :
    (start k : Kernel) (c : Call)
    → IsValid start
    → Reach start k
    → Allowed k c
    → IsValid k × ((k' : Kernel) × (run c k ≡ some k') × IsValid k')
Reach-IsValid start k c v reached h =
    (Reach-kept start k v reached, run-Returns k c (Reach-kept start k v reached) h)
