-- ===== src/Rwlock/Grant.antt =====
-- What the release of a read-write lock leaves, and whom it wakes.
use cs130_25spring_project.Common.{
  ℕ, ◌+◌, ◌≤◌, ◌<◌, ◌≡◌, refl, ap, ◌⊎◌, inl, inr, true, false, ◌&&◌, List, [], ◌∷◌, ◌++◌, arith,
  ◌==◌, ltb, if◌then◌else◌, Bool-cases,
}
use cs130_25spring_project.Rwlock.{Waiter, Rwlock, grant, hand_over, woken_first, list_empty}

-- How many entries of each kind.
unfoldable pub readers_of : List Waiter → ℕ
readers_of [] = 0
readers_of (x ∷ l) = (if x.is_writer then 0 else 1) + readers_of l

unfoldable pub writers_of : List Waiter → ℕ
writers_of [] = 0
writers_of (x ∷ l) = (if x.is_writer then 1 else 0) + writers_of l

-- Never a reader beside a writer, never two writers.
abbrev pub IsExclusive : (readers writers : ℕ) → Type 0
IsExclusive r w = (w ≤ 1) × (0 < w → r ≡ 0)

-- The first in the queue has to wait: a writer for anyone active, a reader for a writer.
unfoldable pub IsBlocked : List Waiter → (readers writers : ℕ) → Type 0
IsBlocked [] r w = Unit {0}
IsBlocked (x ∷ l) r w = if x.is_writer then 0 < r + w else 0 < w

-- What the loop leaves of the counts and the queue.
pub record Granted (waiters : List Waiter) (r w : ℕ) (result : Rwlock × List Waiter) : Type 0 where
  pub readers : result.0.active_readers ≡ r + readers_of result.1
  pub writers : result.0.active_writers ≡ w + writers_of result.1
  pub exclusive : IsExclusive result.0.active_readers result.0.active_writers
  pub blocked : IsBlocked result.0.waiters result.0.active_readers result.0.active_writers
  pub order : result.1 ++ result.0.waiters ≡ waiters

-- The first in the queue is woken.
woken-Granted :
    (x : Waiter) (l : List Waiter) (r w r' w' : ℕ) (result : Rwlock × List Waiter)
    → r' ≡ r + (if x.is_writer then 0 else 1)
    → w' ≡ w + (if x.is_writer then 1 else 0)
    → Granted l r' w' result
    → Granted (x ∷ l) r w (woken_first x result)
unfolding readers_of writers_of
woken-Granted x l r w r' w' result e f g = record {
  readers = omega (arith, g.readers);
  writers = omega (arith, g.writers);
  exclusive = g.exclusive;
  blocked = g.blocked;
  order = ap (λ m. x ∷ m) g.order;
}

-- The first in the queue has to wait.
stop-Granted :
    (x : Waiter) (l : List Waiter) (r w : ℕ)
    → IsExclusive r w
    → IsBlocked (x ∷ l) r w
    → Granted (x ∷ l) r w (record { waiters = x ∷ l; active_readers = r; active_writers = w }, [])
unfolding readers_of writers_of
stop-Granted x l r w h b = record {
  readers = omega arith;
  writers = omega arith;
  exclusive = h;
  blocked = b;
  order = refl;
}

-- The cases of the loop.
module _ (x : Waiter) (l : List Waiter) (r w : ℕ) where
  grant-writer :
      x.is_writer ≡ true
      → ((w == 0) && (r == 0)) ≡ true
      → grant (x ∷ l) r w ≡ woken_first x (grant l r (w + 1))
  unfolding grant
  grant-writer e f = simp (e, f)

  grant-writer_waits :
      x.is_writer ≡ true
      → ((w == 0) && (r == 0)) ≡ false
      → grant (x ∷ l) r w ≡ (record { waiters = x ∷ l; active_readers = r; active_writers = w }, [])
  unfolding grant
  grant-writer_waits e f = simp (e, f)

  grant-reader :
      x.is_writer ≡ false → ltb 0 w ≡ false → grant (x ∷ l) r w ≡ woken_first x (grant l (r + 1) w)
  unfolding grant
  grant-reader e f = simp (e, f)

  grant-reader_waits :
      x.is_writer ≡ false
      → ltb 0 w ≡ true
      → grant (x ∷ l) r w ≡ (record { waiters = x ∷ l; active_readers = r; active_writers = w }, [])
  unfolding grant
  grant-reader_waits e f = simp (e, f)

  one_writer : x.is_writer ≡ true → 0 < r + w → IsBlocked (x ∷ l) r w
  unfolding IsBlocked
  one_writer e h = rw e h

  one_reader : x.is_writer ≡ false → 0 < w → IsBlocked (x ∷ l) r w
  unfolding IsBlocked
  one_reader e h = rw e h

grant-nil : (r w : ℕ) → IsExclusive r w → Granted [] r w (grant [] r w)
unfolding grant IsBlocked readers_of writers_of
grant-nil r w h = record {
  readers = omega arith;
  writers = omega arith;
  exclusive = h;
  blocked = tt;
  order = refl;
}

pub grant-Granted : (l : List Waiter) (r w : ℕ) → IsExclusive r w → Granted l r w (grant l r w)
grant-Granted [] r w h = grant-nil r w h
grant-Granted (x ∷ l) r w h = elim (Bool-cases x.is_writer) [
  | inl writer ↦ elim (Bool-cases ((w == 0) && (r == 0))) [
    | inl free ↦ rw (grant-writer x l r w writer free) (
        woken-Granted x l r w r (w + 1) (grant l r (w + 1)) (ground (arith, writer))
          (ground (arith, writer))
          (grant-Granted l r (w + 1) (ground (arith, free), λ p. ground (arith, free))))
    | inr busy ↦
        rw (grant-writer_waits x l r w writer busy)
          (stop-Granted x l r w h (one_writer x l r w writer (ground (arith, busy))))
  ]
  | inr reader ↦ elim (Bool-cases (ltb 0 w)) [
    | inl busy ↦
        rw (grant-reader_waits x l r w reader busy)
          (stop-Granted x l r w h (one_reader x l r w reader (ground (arith, busy))))
    | inr free ↦ rw (grant-reader x l r w reader free) (
        woken-Granted x l r w (r + 1) w (grant l (r + 1) w) (ground (arith, reader))
          (ground (arith, reader))
          (grant-Granted l (r + 1) w (ground (arith, free), λ p. absurd (ground (arith, free, p)))))
  ]
]

abbrev pub Unblocks : Rwlock → Type 0
Unblocks lock =
    (lock.active_readers + lock.active_writers ≡ 0)
    ⊎ IsBlocked lock.waiters lock.active_readers lock.active_writers

-- After a count is taken off: the queue is served if nobody is left.
pub hand_over-Granted :
    (lock : Rwlock)
    → IsExclusive lock.active_readers lock.active_writers
    → Unblocks lock
    → Granted lock.waiters lock.active_readers lock.active_writers (hand_over lock)
unfolding hand_over readers_of writers_of
hand_over-Granted lock h waits =
    elim (Bool-cases ((lock.active_readers == 0) && (lock.active_writers == 0))) [
      | inl free ↦ rw free (grant-Granted lock.waiters lock.active_readers lock.active_writers h)
      | inr busy ↦ rw busy (record {
        readers = omega arith;
        writers = omega arith;
        exclusive = h;
        blocked = elim waits [ inl nobody ↦ absurd (ground (arith, busy, nobody)) | inr b ↦ b ];
        order = refl;
      })
    ]

-- Whoever has to wait for readers alone has to wait as long as one is left.
pub IsBlocked-readers :
    (l : List Waiter) (r r' w : ℕ) → w ≡ 0 → 0 < r' → IsBlocked l r w → IsBlocked l r' w
unfolding IsBlocked
IsBlocked-readers [] r r' w e h b = tt
IsBlocked-readers (x ∷ l) r r' w e h b = ground (arith, b)

-- A new entry at the end of the queue.
pub IsBlocked-append :
    (l : List Waiter) (x : Waiter) (r w : ℕ)
    → IsBlocked l r w
    → (list_empty l ≡ true → IsBlocked (x ∷ []) r w)
    → IsBlocked (l ++ (x ∷ [])) r w
unfolding IsBlocked
IsBlocked-append [] x r w b h = h refl
IsBlocked-append (y ∷ l) x r w b h = b
