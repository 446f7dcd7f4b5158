-- ===== src/Rwlock/Safety.antt =====
-- The threads that use one read-write lock, in any order of their calls.
use cs130_25spring_project.Common.{
  ℕ, ◌+◌, ◌-◌, ◌<◌, ◌≡◌, refl, sym, ap, ◌∙◌, inl, inr, Bool, true, false, ◌&&◌, some, List, [], ◌∷◌,
  ◌++◌, arith, ◌==◌, ltb, if◌then◌else◌, Bool-cases, dec_lt,
}
use mathlib.Core.Path.{subst}
use mathlib.Core.Option.{some_inj}
use cs130_25spring_project.Rwlock.{
  Waiter, Rwlock, rwlock_init, rwlock_acquire_reader, rwlock_acquire_writer, rwlock_release,
  hand_over, list_empty,
}
use cs130_25spring_project.Rwlock.Grant.{
  readers_of, writers_of, IsExclusive, IsBlocked, Granted, hand_over-Granted, IsBlocked-readers,
  IsBlocked-append,
}

-- The lock and the threads that have passed it and not released it, with what they hold it for.
pub record System : Type 0 where
  pub lock : Rwlock
  pub holders : List Waiter

abbrev pub reader : ℕ → Waiter
reader t = record { thread = t; is_writer = false }

abbrev pub writer : ℕ → Waiter
writer t = record { thread = t; is_writer = true }

-- After a call of `acquire` for `x`: the caller holds the lock, or it waits.
abbrev pub acquired : System → Waiter → Rwlock × Bool → System
acquired s x (lock, at_once) = record {
  lock = lock;
  holders = if at_once then x ∷ s.holders else s.holders;
}

-- A call of some thread: it passes or joins the queue, or a holder releases and those it wakes pass.
pub data Step (s : System) : System → Type 0 where
  reads : (t : ℕ) → Step s (acquired s (reader t) (rwlock_acquire_reader s.lock t))
  writes : (t : ℕ) → Step s (acquired s (writer t) (rwlock_acquire_writer s.lock t))
  releases :
      (before after : List Waiter) (x : Waiter) (lock : Rwlock) (woken : List Waiter)
      → s.holders ≡ before ++ (x ∷ after)
      → rwlock_release s.lock ≡ some (lock, woken)
      → Step s (record { lock = lock; holders = (before ++ after) ++ woken })

pub data Reach : System → Type 0 where
  start : Reach (record { lock = rwlock_init; holders = [] })
  later : {s t : System} → Reach s → Step s t → Reach t

pub record IsValid (s : System) : Type 0 where
  pub readers : s.lock.active_readers ≡ readers_of s.holders
  pub writers : s.lock.active_writers ≡ writers_of s.holders
  pub exclusive : IsExclusive s.lock.active_readers s.lock.active_writers
  pub blocked : IsBlocked s.lock.waiters s.lock.active_readers s.lock.active_writers

readers_of-append : (l m : List Waiter) → readers_of (l ++ m) ≡ readers_of l + readers_of m
unfolding readers_of
readers_of-append [] m = omega arith
readers_of-append (x ∷ l) m = omega (arith, readers_of-append l m)

writers_of-append : (l m : List Waiter) → writers_of (l ++ m) ≡ writers_of l + writers_of m
unfolding writers_of
writers_of-append [] m = omega arith
writers_of-append (x ∷ l) m = omega (arith, writers_of-append l m)

empty-nil : (l : List Waiter) → list_empty l ≡ true → l ≡ []
empty-nil [] h = refl
empty-nil (x ∷ l) h = absurd (ground (arith, h))

acquire_reader-IsValid :
    (s : System) (t : ℕ)
    → IsValid s
    → IsValid (acquired s (reader t) (rwlock_acquire_reader s.lock t))
unfolding rwlock_acquire_reader readers_of writers_of IsBlocked
acquire_reader-IsValid s t v =
    elim (Bool-cases (list_empty s.lock.waiters && (s.lock.active_writers == 0))) [
      | inl free ↦ rw free (record {
        readers = omega (arith, v.readers);
        writers = omega (arith, v.writers);
        exclusive = (v.exclusive.0, λ p. ground (arith, free, p));
        blocked = rw (empty-nil s.lock.waiters (ground (arith, free))) tt;
      })
      | inr busy ↦ rw busy (record {
        readers = v.readers;
        writers = v.writers;
        exclusive = v.exclusive;
        blocked =
            IsBlocked-append s.lock.waiters (reader t) s.lock.active_readers s.lock.active_writers
              v.blocked (λ e. ground (arith, busy, e));
      })
    ]

acquire_writer-IsValid :
    (s : System) (t : ℕ)
    → IsValid s
    → IsValid (acquired s (writer t) (rwlock_acquire_writer s.lock t))
unfolding rwlock_acquire_writer readers_of writers_of IsBlocked
acquire_writer-IsValid s t v =
    elim (Bool-cases
      (list_empty s.lock.waiters && (s.lock.active_readers == 0) && (s.lock.active_writers == 0))) [
        | inl free ↦ rw free (record {
          readers = omega (arith, v.readers);
          writers = omega (arith, v.writers);
          exclusive = (ground (arith, free), λ p. ground (arith, free));
          blocked = rw (empty-nil s.lock.waiters (ground (arith, free))) tt;
        })
        | inr busy ↦ rw busy (record {
          readers = v.readers;
          writers = v.writers;
          exclusive = v.exclusive;
          blocked =
              IsBlocked-append s.lock.waiters (writer t) s.lock.active_readers s.lock.active_writers
                v.blocked (λ e. ground (arith, busy, e));
        })
      ]

-- The counts without one holder.
module _ (before after : List Waiter) (x : Waiter) where
  readers_without :
      readers_of (before ++ (x ∷ after))
      ≡ readers_of (before ++ after) + (if x.is_writer then 0 else 1)
  unfolding readers_of
  readers_without =
      omega (arith, readers_of-append before (x ∷ after), readers_of-append before after)

  writers_without :
      writers_of (before ++ (x ∷ after))
      ≡ writers_of (before ++ after) + (if x.is_writer then 1 else 0)
  unfolding writers_of
  writers_without =
      omega (arith, writers_of-append before (x ∷ after), writers_of-append before after)

-- The holders that a release leaves, by their counts.
entered-IsValid :
    (lock : Rwlock) (rest : List Waiter) (result : Rwlock × List Waiter)
    → lock.active_readers ≡ readers_of rest
    → lock.active_writers ≡ writers_of rest
    → Granted lock.waiters lock.active_readers lock.active_writers result
    → IsValid (record { lock = result.0; holders = rest ++ result.1 })
entered-IsValid lock rest result e f g = record {
  readers = g.readers ∙ omega (arith, e, readers_of-append rest result.1);
  writers = g.writers ∙ omega (arith, f, writers_of-append rest result.1);
  exclusive = g.exclusive;
  blocked = g.blocked;
}

-- The release of a holder does not panic and keeps the counts right.
pub release-IsValid :
    (s : System) (before after : List Waiter) (x : Waiter)
    → IsValid s
    → s.holders ≡ before ++ (x ∷ after)
    → (result : Rwlock × List Waiter) × (rwlock_release s.lock ≡ some result)
      × (result.1 ++ result.0.waiters ≡ s.lock.waiters)
      × IsValid (record { lock = result.0; holders = (before ++ after) ++ result.1 })
unfolding rwlock_release
release-IsValid s before after x v e = elim (Bool-cases (ltb 0 s.lock.active_readers)) [
  | inl some_reader ↦
      let lock : Rwlock = record s.lock { active_readers = s.lock.active_readers - 1 } in
      let no_writer : s.lock.active_writers ≡ 0 = ground (arith, v.exclusive, some_reader) in
      let is_reader : x.is_writer ≡ false = ground (arith, w, v.writers, no_writer) in
      let left : s.lock.active_readers - 1 ≡ readers_of (before ++ after) =
        ground (arith, r, v.readers, is_reader) in
      let none_left : s.lock.active_writers ≡ writers_of (before ++ after) =
        ground (arith, w, v.writers, is_reader) in
      let given =
        hand_over-Granted lock (v.exclusive.0, λ p. absurd (omega arith))
          (elim (dec_lt 0 (s.lock.active_readers - 1)) [
            | yes p ↦ inr (
                IsBlocked-readers s.lock.waiters s.lock.active_readers (s.lock.active_readers - 1)
                  s.lock.active_writers no_writer p v.blocked)
            | no p ↦ inl (omega arith)
          ]) in
      (
        hand_over lock,
        rw some_reader refl,
        given.order,
        entered-IsValid lock (before ++ after) (hand_over lock) left none_left given,
      )
  | inr no_reader ↦
      let lock : Rwlock = record s.lock { active_writers = s.lock.active_writers - 1 } in
      let none_left : s.lock.active_readers ≡ 0 = ground (arith, no_reader) in
      let is_one : x.is_writer ≡ true = ground (arith, r, v.readers, none_left) in
      let some_writer : ltb 0 s.lock.active_writers ≡ true = ground (arith, w, v.writers, is_one) in
      let given =
        hand_over-Granted lock (ground (arith, v.exclusive), λ p. none_left)
          (inl (ground (arith, v.exclusive, none_left))) in
      (
        hand_over lock,
        rw (no_reader, some_writer) refl,
        given.order,
        entered-IsValid lock (before ++ after) (hand_over lock)
            (ground (arith, r, v.readers, is_one)) (ground (arith, w, v.writers, is_one)) given,
      )
]
  where
    r : readers_of s.holders ≡ readers_of (before ++ after) + (if x.is_writer then 0 else 1)
    r = ap readers_of e ∙ readers_without before after x

    w : writers_of s.holders ≡ writers_of (before ++ after) + (if x.is_writer then 1 else 0)
    w = ap writers_of e ∙ writers_without before after x

Step-IsValid : {s t : System} → Step s t → IsValid s → IsValid t
Step-IsValid {s} (reads t) v = acquire_reader-IsValid s t v
Step-IsValid {s} (writes t) v = acquire_writer-IsValid s t v
Step-IsValid {s} (releases before after x lock woken e called) v =
    let (result, called', order, valid) = release-IsValid s before after x v e in
    let same : result ≡ (lock, woken) = some_inj.0 (sym called' ∙ called) in
    subst
      (λ (res : Rwlock × List Waiter).
        IsValid (record { lock = res.0; holders = (before ++ after) ++ res.1 }))
      same valid

pub Reach-IsValid : {s : System} → Reach s → IsValid s
unfolding readers_of writers_of IsBlocked
Reach-IsValid start = record {
  readers = refl;
  writers = refl;
  exclusive = (omega arith, λ p. refl);
  blocked = tt;
}
Reach-IsValid (later r st) = Step-IsValid st (Reach-IsValid r)

-- In every state that calls of any threads in any order lead to, the counts of the lock are those of
-- the holders, at most one writer has passed the lock, and no reader together with a writer.
pub Reach-IsExclusive :
    {s : System}
    → Reach s
    → (s.lock.active_readers ≡ readers_of s.holders)
      × (s.lock.active_writers ≡ writers_of s.holders)
      × IsExclusive (readers_of s.holders) (writers_of s.holders)
Reach-IsExclusive r =
    let v = Reach-IsValid r in
    (v.readers, v.writers, ground (arith, v.readers, v.writers, v.exclusive))

-- In every such state, if a thread waits for the lock, another holds it.
pub Reach-held :
    {s : System}
    → Reach s
    → (x : Waiter) (l : List Waiter) → s.lock.waiters ≡ x ∷ l
    → 0 < readers_of s.holders + writers_of s.holders
unfolding IsBlocked
Reach-held {s} r x l e =
    let v = Reach-IsValid r in
    let b = subst (λ m. IsBlocked m s.lock.active_readers s.lock.active_writers) e v.blocked in
    ground (arith, v.readers, v.writers, b)

-- In every such state, a release by any holder does not panic. It wakes a front part of the queue,
-- in order. Those woken with the holders left are again at most one writer, or readers alone, and no
-- more could have been woken: the first that is left in the queue has to wait for them, a writer for
-- any holder and a reader for a writer.
pub Reach-released :
    {s : System}
    → Reach s
    → (before after : List Waiter) (x : Waiter) → s.holders ≡ before ++ (x ∷ after)
    → (lock : Rwlock) × (woken : List Waiter) × (rwlock_release s.lock ≡ some (lock, woken))
      × (woken ++ lock.waiters ≡ s.lock.waiters)
      × IsExclusive
          (readers_of ((before ++ after) ++ woken))
          (writers_of ((before ++ after) ++ woken))
      × IsBlocked lock.waiters
          (readers_of ((before ++ after) ++ woken))
          (writers_of ((before ++ after) ++ woken))
Reach-released {s} r before after x e =
    let ((lock, woken), called, order, valid) =
      release-IsValid s before after x (Reach-IsValid r) e in
    (
      lock,
      woken,
      called,
      order,
      ground (arith, valid.readers, valid.writers, valid.exclusive),
      subst (λ n. IsBlocked lock.waiters n (writers_of ((before ++ after) ++ woken))) valid.readers
          (subst (λ n. IsBlocked lock.waiters lock.active_readers n) valid.writers valid.blocked),
    )
