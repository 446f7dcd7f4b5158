-- ===== src/Synch.antt =====
-- src/threads/synch.c: semaphores, locks with the donation of priorities, and condition variables. A
-- lock, a semaphore of a condition and a thread are known by number. A routine that may sleep is cut
-- where it does: the thread that sleeps goes on with the next round when it runs again.
pub mod Raise
pub mod Donate
pub mod Wake
pub mod Acquire
pub mod Found
pub mod Dropped
pub mod Release
mod Tests
use cs130_25spring_project.Common.{
  ℕ, zero, suc, ◌+◌, ◌-◌, Bool, true, false, not, ◌&&◌, Option, none, some, List, [], ◌∷◌, ◌++◌,
  ◌==◌, ltb, leb, max, if◌then◌else◌, ◌>>=◌, ◌>>◌, assert,
}
use cs130_25spring_project.Thread.{
  Thread, Kernel, assign, effective, thread_less, list_max, thread_list_max, list_remove,
  list_empty, thread_block, thread_unblock, thread_yield,
}

pub record Semaphore : Type 0 where
  pub value : ℕ
  pub waiters : List ℕ

pub record Lock : Type 0 where
  pub holder : Option ℕ
  pub semaphore : Semaphore

-- A condition is the list of the semaphores in its queue.
pub record Synch : Type 0 where
  pub kernel : Kernel
  pub locks : ℕ → Lock
  pub semaphores : ℕ → Semaphore

-- An assignment to an element of a store.
abbrev pub put : {A : Type 0} → (ℕ → A) → ℕ → A → ℕ → A
put store i value j = if i == j then value else store j

abbrev pub sema_init : ℕ → Semaphore
sema_init value = record { value = value; waiters = [] }

-- A round of the loop, and the decrement after it: the result is false where the thread sleeps.
unfoldable pub sema_down : Kernel → Semaphore → Option (Kernel × Semaphore × Bool)
sema_down k sema =
    if sema.value == 0
    then (thread_block k >>= λ k'.
        some (k', record sema { waiters = sema.waiters ++ (k.current ∷ []) }, false))
    else some (k, record sema { value = sema.value - 1 }, true)

unfoldable pub sema_try_down : Semaphore → Semaphore × Bool
sema_try_down sema =
    if ltb 0 sema.value then (record sema { value = sema.value - 1 }, true) else (sema, false)

-- The yield at the end, to the thread that was woken.
unfoldable pub yield_to : (intr_context : Bool) → Kernel → ℕ → Option Kernel
yield_to intr_context k t =
    if intr_context
    then some k
    else (thread_less (k.threads k.current) (k.threads t) >>= λ less.
        if less then thread_yield k else some k)

unfoldable pub sema_up : (intr_context : Bool) → Kernel → Semaphore → Option (Kernel × Semaphore)
sema_up intr_context k sema =
    if list_empty sema.waiters
    then some (k, record sema { value = sema.value + 1 })
    else (thread_list_max k.threads sema.waiters >>= λ max_waiter.
        thread_unblock k max_waiter >>= λ k'. yield_to intr_context k' max_waiter >>= λ k''.
        some
          (k'', record { value = sema.value + 1; waiters = list_remove max_waiter sema.waiters }))

abbrev pub lock_init : Lock
lock_init = record { holder = none; semaphore = sema_init 1 }

abbrev pub is_holder : Option ℕ → ℕ → Bool
is_holder none t = false
is_holder (some h) t = h == t

abbrev pub lock_held_by_current_thread : Synch → ℕ → Bool
lock_held_by_current_thread s l = is_holder (s.locks l).holder s.kernel.current

abbrev pub max_depth : ℕ
max_depth = 8

-- The donation of `t` to its parent.
abbrev pub raise : (ℕ → Thread) → (t parent : ℕ) → ℕ → Thread
raise threads t p =
    assign threads p (record (threads p) {
      extra_priority = max (threads p).extra_priority (effective (threads t));
    })

-- The test for a parent that is not NULL.
abbrev pub if_parent {ℓ} : {A : Type ℓ} → Option ℕ → A → (ℕ → A) → A
if_parent none other f = other
if_parent (some p) other f = f p

-- `donate_up` with the calls that the depth leaves.
unfoldable pub donate_calls : (calls : ℕ) → (ℕ → Thread) → ℕ → ℕ → Thread
donate_calls zero threads t = threads
donate_calls (suc calls) threads t =
    if_parent (threads t).parent threads (λ p. donate_calls calls (raise threads t p) p)

unfoldable pub donate_up : (ℕ → Thread) → (t depth : ℕ) → ℕ → Thread
donate_up threads t depth = donate_calls (max_depth + 1 - depth) threads t

-- The state after the parent is set and the priority is donated.
abbrev pub donated : Synch → ℕ → Synch
donated s l =
    let cur = s.kernel.current in
    let threads =
      assign s.kernel.threads cur (record (s.kernel.threads cur) { parent = (s.locks l).holder }) in
    record s { kernel = record s.kernel { threads = donate_up threads cur 0 } }

-- The current thread becomes the holder.
abbrev pub taken : Synch → ℕ → Synch
taken s l =
    let cur = s.kernel.current in
    let thread = s.kernel.threads cur in
    record s {
      kernel = record s.kernel {
        threads = assign s.kernel.threads cur (record thread { locks = thread.locks ++ (l ∷ []) });
      };
      locks = put s.locks l (record (s.locks l) { holder = some cur });
    }

abbrev pub finish : ℕ → Synch × Bool → Synch × Bool
finish l (s, false) = (s, false)
finish l (s, true) = (taken s l, true)

-- A round of the semaphore's loop, and what `lock_acquire` does after the last.
unfoldable pub lock_resume : Synch → ℕ → Option (Synch × Bool)
lock_resume s l = sema_down s.kernel (s.locks l).semaphore >>= λ (k, sema, passed). some (
    finish l (
      record s { kernel = k; locks = put s.locks l (record (s.locks l) { semaphore = sema }) },
      passed,
    ))

unfoldable pub lock_acquire : Synch → ℕ → Option (Synch × Bool)
lock_acquire s l = assert (not (lock_held_by_current_thread s l)) >> lock_resume (donated s l) l

unfoldable pub lock_try_acquire : Synch → ℕ → Option (Synch × Bool)
lock_try_acquire s l =
    assert (not (lock_held_by_current_thread s l))
    >> (let (sema, success) = sema_try_down (s.locks l).semaphore in
        let s' = donated s l in
        some (
          finish l (
            record s' { locks = put s.locks l (record (s.locks l) { semaphore = sema }) },
            success,
          )))

-- The loop that resets the parents of the waiters.
unfoldable pub reset_parents : (ℕ → Thread) → List ℕ → ℕ → Thread
reset_parents threads [] = threads
reset_parents threads (t ∷ l) =
    reset_parents (assign threads t (record (threads t) { parent = none })) l

abbrev pub set_extra : (ℕ → Thread) → ℕ → ℕ → ℕ → Thread
set_extra threads t extra = assign threads t (record (threads t) { extra_priority = extra })

-- The loop over the locks that are still held.
unfoldable pub find_donated :
    (ℕ → Lock) → (holder : ℕ) → List ℕ → (ℕ → Thread) → Option (ℕ → Thread)
find_donated locks holder [] threads = some threads
find_donated locks holder (l ∷ rest) threads =
    if list_empty (locks l).semaphore.waiters
    then find_donated locks holder rest threads
    else (thread_list_max threads (locks l).semaphore.waiters >>= λ t.
        find_donated locks holder rest
          (set_extra threads holder (max (threads holder).extra_priority (effective (threads t)))))

-- The thread without the lock and the priority that was donated.
abbrev pub released : Thread → ℕ → Thread
released thread l = record thread { extra_priority = 0; locks = list_remove l thread.locks }

unfoldable pub lock_release : Synch → ℕ → Option Synch
lock_release s l =
    let cur = s.kernel.current in
    let lock = s.locks l in
    let threads = reset_parents s.kernel.threads lock.semaphore.waiters in
    let threads' = assign threads cur (released (threads cur) l) in
    assert (lock_held_by_current_thread s l)
    >> (find_donated s.locks cur (threads' cur).locks threads' >>= λ threads''.
        sema_up false (record s.kernel { threads = threads'' }) lock.semaphore >>= λ (k, sema).
        some (record s {
          kernel = k;
          locks = put s.locks l (record { holder = none; semaphore = sema });
        }))

-- `thread_less` of the greatest waiters of two semaphores; a semaphore with no waiter is a panic.
abbrev pub condvar_less : (ℕ → Thread) → Semaphore → Semaphore → Option Bool
condvar_less threads a b = thread_list_max threads a.waiters >>= λ ta.
    thread_list_max threads b.waiters >>= λ tb. thread_less (threads ta) (threads tb)

-- `cond_wait` up to its sleep, with `w` as the number of the semaphore on the stack; the condition is
-- the second part of the result. The rounds of `sema_down` on `w` and `lock_acquire` come after it.
unfoldable pub cond_wait : Synch → (cond : List ℕ) → (l w : ℕ) → Option (Synch × List ℕ)
cond_wait s cond l w =
    assert (lock_held_by_current_thread s l)
    >> (lock_release (record s { semaphores = put s.semaphores w (sema_init 0) }) l >>= λ s'.
        some (s', cond ++ (w ∷ [])))

-- The thread that signals goes on after a switch of `sema_up`.
unfoldable pub cond_signal : Synch → (cond : List ℕ) → (l : ℕ) → Option (Synch × List ℕ)
cond_signal s [] l = assert (lock_held_by_current_thread s l) >> some (s, [])
cond_signal s (w ∷ rest) l =
    assert (lock_held_by_current_thread s l)
    >> (list_max (λ a b. condvar_less s.kernel.threads (s.semaphores a) (s.semaphores b)) w rest
        >>= λ e. sema_up false s.kernel (s.semaphores e) >>= λ (k, sema). some (
          record s { kernel = k; semaphores = put s.semaphores e sema },
          list_remove e (w ∷ rest),
        ))
