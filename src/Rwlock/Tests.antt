-- ===== src/Rwlock/Tests.antt =====
-- One reader inside, a writer and a second reader in the queue.
use cs130_25spring_project.Common.{◌+◌, ◌≡◌, ◌<◌, refl, some, List, [], ◌∷◌, ◌++◌}
use cs130_25spring_project.Rwlock.{
  Waiter, Rwlock, rwlock_init, rwlock_acquire_reader, rwlock_acquire_writer, rwlock_release,
}
use cs130_25spring_project.Rwlock.Grant.{readers_of, writers_of, IsExclusive, IsBlocked}
use cs130_25spring_project.Rwlock.Safety.{
  System, reader, writer, acquired, Reach, start, later, reads, writes, Reach-IsExclusive,
  Reach-held, Reach-released,
}

abbrev empty : System
empty = record { lock = rwlock_init; holders = [] }

abbrev one_inside : System
one_inside = acquired empty (reader 1) (rwlock_acquire_reader empty.lock 1)

abbrev two_inside : System
two_inside = acquired one_inside (writer 2) (rwlock_acquire_writer one_inside.lock 2)

abbrev queued : System
queued = acquired two_inside (reader 3) (rwlock_acquire_reader two_inside.lock 3)

queued-Reach : Reach queued
queued-Reach =
    later {s = two_inside} (later {s = one_inside} (later {s = empty} start (reads 1)) (writes 2))
      (reads 3)

Reach-IsExclusive_example :
    (queued.lock.active_readers ≡ readers_of queued.holders)
    × (queued.lock.active_writers ≡ writers_of queued.holders)
    × IsExclusive (readers_of queued.holders) (writers_of queued.holders)
Reach-IsExclusive_example = Reach-IsExclusive {s = queued} queued-Reach

writer_first : queued.lock.waiters ≡ writer 2 ∷ reader 3 ∷ []
unfolding rwlock_acquire_reader rwlock_acquire_writer
writer_first = refl

Reach-held_example : 0 < readers_of queued.holders + writers_of queued.holders
Reach-held_example = Reach-held {s = queued} queued-Reach (writer 2) (reader 3 ∷ []) writer_first

one_holder : queued.holders ≡ [] ++ (reader 1 ∷ [])
unfolding rwlock_acquire_reader rwlock_acquire_writer
one_holder = refl

Reach-released_example :
    (lock : Rwlock) × (woken : List Waiter) × (rwlock_release queued.lock ≡ some (lock, woken))
    × (woken ++ lock.waiters ≡ queued.lock.waiters)
    × IsExclusive (readers_of (([] ++ []) ++ woken)) (writers_of (([] ++ []) ++ woken))
    × IsBlocked lock.waiters (readers_of (([] ++ []) ++ woken)) (writers_of (([] ++ []) ++ woken))
Reach-released_example = Reach-released {s = queued} queued-Reach [] [] (reader 1) one_holder
