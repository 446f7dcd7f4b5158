-- ===== src/Rwlock.antt =====
-- src/threads/synch.c: the read-write lock. Each call holds the inner lock of the structure while it
-- looks at it, so a call is one step; a caller that has to wait sleeps on a semaphore of its own, in
-- its entry of the queue.
pub mod Grant
pub mod Safety
mod Tests
use cs130_25spring_project.Common.{
  ℕ, zero, suc, ◌+◌, ◌-◌, Bool, true, false, ◌&&◌, Option, none, some, List, [], ◌∷◌, ◌++◌, ◌==◌,
  ltb, if◌then◌else◌,
}

-- `struct rwlock_waiter`, by the thread that sleeps on its semaphore.
pub record Waiter : Type 0 where
  pub thread : ℕ
  pub is_writer : Bool

pub record Rwlock : Type 0 where
  pub waiters : List Waiter
  pub active_readers : ℕ
  pub active_writers : ℕ

abbrev pub rwlock_init : Rwlock
rwlock_init = record { waiters = []; active_readers = 0; active_writers = 0 }

abbrev pub list_empty : List Waiter → Bool
list_empty [] = true
list_empty (w ∷ l) = false

-- The result is true where the caller goes on at once, and false where it sleeps.
unfoldable pub rwlock_acquire_reader : Rwlock → (thread : ℕ) → Rwlock × Bool
rwlock_acquire_reader lock thread =
    if list_empty lock.waiters && (lock.active_writers == 0)
    then (record lock { active_readers = lock.active_readers + 1 }, true)
    else (
      record lock {
        waiters = lock.waiters ++ (record { thread = thread; is_writer = false } ∷ []);
      },
      false,
    )

unfoldable pub rwlock_acquire_writer : Rwlock → (thread : ℕ) → Rwlock × Bool
rwlock_acquire_writer lock thread =
    if list_empty lock.waiters && (lock.active_readers == 0) && (lock.active_writers == 0)
    then (record lock { active_writers = lock.active_writers + 1 }, true)
    else (
      record lock { waiters = lock.waiters ++ (record { thread = thread; is_writer = true } ∷ []) },
      false,
    )

-- The entry in front of what the loop wakes after it.
abbrev pub woken_first : Waiter → Rwlock × List Waiter → Rwlock × List Waiter
woken_first w (lock, woken) = (lock, w ∷ woken)

-- The loop of the release over the queue; the entries whose semaphores it ups, in order.
unfoldable pub grant : List Waiter → (active_readers active_writers : ℕ) → Rwlock × List Waiter
grant [] r w = (record { waiters = []; active_readers = r; active_writers = w }, [])
grant (x ∷ l) r w =
    if x.is_writer
    then (if (w == 0) && (r == 0)
        then woken_first x (grant l r (w + 1))
        else (record { waiters = x ∷ l; active_readers = r; active_writers = w }, []))
    else (if ltb 0 w
        then (record { waiters = x ∷ l; active_readers = r; active_writers = w }, [])
        else woken_first x (grant l (r + 1) w))

-- After the count of the caller is taken off.
unfoldable pub hand_over : Rwlock → Rwlock × List Waiter
hand_over lock =
    if (lock.active_readers == 0) && (lock.active_writers == 0)
    then grant lock.waiters lock.active_readers lock.active_writers
    else (lock, [])

-- `none` is the panic of a release without an active lock.
unfoldable pub rwlock_release : Rwlock → Option (Rwlock × List Waiter)
rwlock_release lock =
    if ltb 0 lock.active_readers
    then some (hand_over (record lock { active_readers = lock.active_readers - 1 }))
    else if ltb 0 lock.active_writers
    then some (hand_over (record lock { active_writers = lock.active_writers - 1 }))
    else none
