-- ===== src/Thread.antt =====
-- src/threads/thread.c: the threads, the ready list and the scheduler, without the options of the
-- feedback queue. A thread is known by the page of its structure; a page in no use holds a dying
-- thread. Interrupts are off in each routine, so it runs as one step up to the switch, and the state
-- after it is the one that the next thread finds. Priorities are taken to be non-negative.
pub mod Max
pub mod Ready
pub mod Schedule
pub mod Moved
pub mod Switch
pub mod Leave
pub mod Preempt
pub mod Added
pub mod Create
pub mod Run
mod Tests
use cs130_25spring_project.Common.{
  ℕ, zero, suc, ◌+◌, ◌-◌, Bool, true, false, not, ◌&&◌, Option, none, some, List, [], ◌∷◌, ◌++◌,
  ◌==◌, ltb, leb, max, if◌then◌else◌, ◌>>=◌, ◌>>◌, assert,
}

pub data Status : Type 0 where
  thread_running : Status
  thread_ready : Status
  thread_blocked : Status
  thread_dying : Status

abbrev pub is_running : Status → Bool
is_running thread_running = true
is_running thread_ready = false
is_running thread_blocked = false
is_running thread_dying = false

abbrev pub is_ready : Status → Bool
is_ready thread_running = false
is_ready thread_ready = true
is_ready thread_blocked = false
is_ready thread_dying = false

abbrev pub is_blocked : Status → Bool
is_blocked thread_running = false
is_blocked thread_ready = false
is_blocked thread_blocked = true
is_blocked thread_dying = false

abbrev pub is_dying : Status → Bool
is_dying thread_running = false
is_dying thread_ready = false
is_dying thread_blocked = false
is_dying thread_dying = true

abbrev pub pri_min : ℕ
pri_min = 0

abbrev pub pri_max : ℕ
pri_max = 63

abbrev pub time_slice : ℕ
time_slice = 4

-- `locks` has the locks that the thread owns, by number; `parent` is the thread whose lock it waits
-- for.
pub record Thread : Type 0 where
  pub tid : ℕ
  pub status : Status
  pub priority : ℕ
  pub extra_priority : ℕ
  pub parent : Option ℕ
  pub locks : List ℕ

-- `current` is the page that the stack pointer is in.
pub record Kernel : Type 0 where
  pub threads : ℕ → Thread
  pub ready_list : List ℕ
  pub all_list : List ℕ
  pub current : ℕ
  pub idle_thread : ℕ
  pub thread_ticks : ℕ
  pub next_tid : ℕ

-- An assignment to a member of a thread's structure.
abbrev pub assign : (ℕ → Thread) → ℕ → Thread → ℕ → Thread
assign threads t value j = if t == j then value else threads j

abbrev pub set_status : Kernel → ℕ → Status → Kernel
set_status k t status = record k {
  threads = assign k.threads t (record (k.threads t) { status = status });
}

abbrev pub effective : Thread → ℕ
effective t = max t.priority t.extra_priority

unfoldable pub thread_less : Thread → Thread → Option Bool
thread_less a b = assert (not (a.tid == b.tid)) >> some (ltb (effective a) (effective b))

-- The loop of `list_max` from its second element on.
unfoldable pub list_max {ℓ} : {A : Type ℓ} → (A → A → Option Bool) → A → List A → Option A
list_max less max [] = some max
list_max less max (e ∷ l) = less max e >>= λ b. list_max less (if b then e else max) l

unfoldable pub thread_list_max : (ℕ → Thread) → List ℕ → Option ℕ
thread_list_max threads [] = none
thread_list_max threads (t ∷ l) = list_max (λ a b. thread_less (threads a) (threads b)) t l

-- `list_remove` of an element that is in the list once.
unfoldable pub list_remove : ℕ → List ℕ → List ℕ
list_remove t [] = []
list_remove t (e ∷ l) = if t == e then l else e ∷ list_remove t l

abbrev pub list_empty {ℓ} : {A : Type ℓ} → List A → Bool
list_empty [] = true
list_empty (e ∷ l) = false

unfoldable pub next_thread_to_run : Kernel → Option (Kernel × ℕ)
next_thread_to_run k =
    if list_empty k.ready_list
    then some (k, k.idle_thread)
    else (thread_list_max k.threads k.ready_list >>= λ t.
        some (record k { ready_list = list_remove t k.ready_list }, t))

-- In the thread that runs next. The page of a dying thread is freed here.
abbrev pub thread_schedule_tail : Kernel → Kernel
thread_schedule_tail k = record (set_status k k.current thread_running) { thread_ticks = 0 }

unfoldable pub schedule : Kernel → Option Kernel
schedule k = next_thread_to_run k >>= λ (k', next).
    assert (not (is_running (k.threads k.current).status))
    >> some (thread_schedule_tail (record k' { current = next }))

unfoldable pub thread_block : Kernel → Option Kernel
thread_block k = schedule (set_status k k.current thread_blocked)

unfoldable pub thread_unblock : Kernel → ℕ → Option Kernel
thread_unblock k t =
    assert (is_blocked (k.threads t).status)
    >> some (set_status (record k { ready_list = k.ready_list ++ (t ∷ []) }) t thread_ready)

unfoldable pub thread_yield : Kernel → Option Kernel
thread_yield k =
    let ready =
      if k.current == k.idle_thread then k.ready_list else k.ready_list ++ (k.current ∷ []) in
    schedule (set_status (record k { ready_list = ready }) k.current thread_ready)

unfoldable pub thread_exit : Kernel → Option Kernel
thread_exit k =
    schedule
      (set_status (record k { all_list = list_remove k.current k.all_list }) k.current thread_dying)

-- Yields to the greatest of the ready threads, if it is greater.
unfoldable pub yield_to_max : Kernel → Option Kernel
yield_to_max k =
    if list_empty k.ready_list
    then some k
    else (thread_list_max k.threads k.ready_list >>= λ m.
        thread_less (k.threads k.current) (k.threads m) >>= λ less.
        if less then thread_yield k else some k)

unfoldable pub thread_set_priority : Kernel → (new_priority : ℕ) → Option Kernel
thread_set_priority k new_priority = yield_to_max (record k {
  threads = assign k.threads k.current (record (k.threads k.current) { priority = new_priority });
})

abbrev pub thread_get_priority : Kernel → ℕ
thread_get_priority k = effective (k.threads k.current)

abbrev pub init_thread : (tid priority : ℕ) → Thread
init_thread tid priority = record {
  tid = tid;
  status = thread_blocked;
  priority = priority;
  extra_priority = 0;
  parent = none;
  locks = [];
}

-- `page` is the page that was allocated, if one was; the result is the thread identifier, or
-- TID_ERROR as `none`. `init_thread` and `allocate_tid` are written out.
unfoldable pub thread_create :
    Kernel → (page : Option ℕ) → (priority : ℕ) → Option (Kernel × Option ℕ)
thread_create k none priority = some (k, none)
thread_create k (some t) priority =
    assert (leb priority pri_max)
    >> (thread_unblock
          (record k {
            threads = assign k.threads t (init_thread k.next_tid priority);
            all_list = k.all_list ++ (t ∷ []);
            next_tid = k.next_tid + 1;
          })
          t
        >>= λ k'. thread_less (k'.threads k'.current) (k'.threads t) >>= λ less.
            if less
            then (thread_yield k' >>= λ k''. some (k'', some k.next_tid))
            else some (k', some k.next_tid))

-- The result says that the interrupt returns through `thread_yield`.
abbrev pub thread_tick : Kernel → Kernel × Bool
thread_tick k =
    (record k { thread_ticks = k.thread_ticks + 1 }, leb time_slice (k.thread_ticks + 1))
