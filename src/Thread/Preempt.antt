-- ===== src/Thread/Preempt.antt =====
-- The routines after which the current thread yields to a greater one.
use cs130_25spring_project.Common.{
  ℕ, ◌≤◌, ◌<◌, ◌≡◌, ◌≢◌, refl, sym, ap, ◌∙◌, inl, inr, Bool, true, false, not, Option, some, List,
  [], ◌∷◌, ◌++◌, arith, ltb, if◌then◌else◌, Bool-cases, ne→==,
}
use mathlib.Core.Path.{subst}
use cs130_25spring_project.Common.Counts.{count}
use cs130_25spring_project.Thread.{
  Kernel, is_ready, thread_list_max, assign, thread_yield, yield_to_max, thread_less,
  thread_set_priority, thread_ready,
}
use cs130_25spring_project.Thread.Max.{All, pri, Distinct, thread_list_max-first}
use cs130_25spring_project.Thread.Ready.{
  status, IsValid, IsTop, member-ready, member-alive, ready-Distinct, running-alive,
}
use cs130_25spring_project.Thread.Moved.{Kept, kept-IsValid, assign_keeps}
use cs130_25spring_project.Thread.Schedule.{Chosen-greatest, switched}
use cs130_25spring_project.Thread.Switch.{Switches}
use cs130_25spring_project.Thread.Leave.{switched-Kept, queued, left, thread_yield-Switches}

-- The call does not panic, and the state after it is valid with the greatest thread running. The
-- priorities that threads set are those of `k`.
abbrev pub Tops : Kernel → Option Kernel → Type 0
Tops k result =
    (k' : Kernel) × (result ≡ some k') × IsValid k' × IsTop k' × Kept k.threads k'.threads

module _ (k : Kernel) (v : IsValid k) where
  pub thread_yield-Tops : Tops k (thread_yield k)
  thread_yield-Tops = go (thread_yield-Switches k v)
    where
      before : Kernel
      before = left k (queued k) k.all_list thread_ready

      go : Switches before (thread_yield k) → Tops k (thread_yield k)
      go (next, l, e, c, valid, top) = (
        switched before next l,
        e,
        valid,
        top,
        switched-Kept k (queued k) k.all_list thread_ready next l,
      )

  same :
      (t : ℕ)
      → 0 < count t k.ready_list
      → (k.threads k.current).tid ≡ (k.threads t).tid
      → k.current ≡ t
  same t pos e =
      v.listed.tids k.current t (ap not (running-alive (status k k.current) v.running).0)
        (member-alive k v.listed t pos) e

  current-tid : (t : ℕ) → 0 < count t k.ready_list → (k.threads k.current).tid ≢ (k.threads t).tid
  current-tid t pos e = absurd (
      ground (
        arith,
        sym (running-alive (status k k.current) v.running).1
            ∙ ap (λ u. is_ready (status k u)) (same t pos e)
            ∙ (member-ready k v.listed t pos).0,
      ))

  pub thread_less-ready :
      (t : ℕ)
      → 0 < count t k.ready_list
      → thread_less (k.threads k.current) (k.threads t)
        ≡ some (ltb (pri k.threads k.current) (pri k.threads t))
  unfolding thread_less
  thread_less-ready t pos = rw (ne→== (current-tid t pos)) refl

  yield_to_max-empty : k.ready_list ≡ [] → yield_to_max k ≡ some k
  unfolding yield_to_max
  yield_to_max-empty e = simp e

  yield_to_max-less :
      (m : ℕ) (l : List ℕ) (r : ℕ) (b : Bool)
      → k.ready_list ≡ m ∷ l
      → thread_list_max k.threads (m ∷ l) ≡ some r
      → thread_less (k.threads k.current) (k.threads r) ≡ some b
      → yield_to_max k ≡ (if b then thread_yield k else some k)
  unfolding yield_to_max
  yield_to_max-less m l r b e f g = simp (e, f, g)

  nowhere : (t : ℕ) → ¬ 0 < count t []
  unfolding count
  nowhere t pos = absurd (omega arith)

  yield_to_max-found :
      (m : ℕ) (l : List ℕ)
      → k.ready_list ≡ m ∷ l
      → (r : ℕ) × (before after : List ℕ) × (thread_list_max k.threads (m ∷ l) ≡ some r)
        × (m ∷ l ≡ before ++ (r ∷ after))
        × All (λ t. pri k.threads t < pri k.threads r) before
        × All (λ t. pri k.threads t ≤ pri k.threads r) after
      → Tops k (yield_to_max k)
  yield_to_max-found m l e (r, before, after, found, split, small, rest) =
      elim (Bool-cases (ltb (pri k.threads k.current) (pri k.threads r))) [
        | inl less ↦
            let (k', runs, valid, top, kept) = thread_yield-Tops in
            (k', yields true less ∙ runs, valid, top, kept)
        | inr less ↦
            (k, yields false less, v, λ t pos. ground (arith, less, greatest.1 t pos), λ t. refl)
      ]
    where
      greatest :
          (0 < count r k.ready_list)
          × ((t : ℕ) → 0 < count t k.ready_list → pri k.threads t ≤ pri k.threads r)
      greatest = Chosen-greatest k r before after (e ∙ split) small rest

      yields :
          (b : Bool)
          → ltb (pri k.threads k.current) (pri k.threads r) ≡ b
          → yield_to_max k ≡ (if b then thread_yield k else some k)
      yields b less =
          yield_to_max-less m l r b e found (thread_less-ready r greatest.0 ∙ ap some less)

  pub yield_to_max-Tops : Tops k (yield_to_max k)
  yield_to_max-Tops = go k.ready_list refl
    where
      go : (l : List ℕ) → k.ready_list ≡ l → Tops k (yield_to_max k)
      go [] e = (
        k,
        yield_to_max-empty e,
        v,
        λ t pos. absurd (nowhere t (subst (λ x. 0 < count t x) e pos)),
        λ t. refl,
      )
      go (m ∷ l) e = yield_to_max-found m l e (
          thread_list_max-first k.threads m l
            (subst (Distinct k.threads) e (ready-Distinct k v.listed)))

-- The state with the current thread's priority changed.
abbrev pub prioritized : Kernel → ℕ → Kernel
prioritized k new_priority = record k {
  threads = assign k.threads k.current (record (k.threads k.current) { priority = new_priority });
}

prioritized-IsValid :
    (k : Kernel) (new_priority : ℕ) → IsValid k → IsValid (prioritized k new_priority)
prioritized-IsValid k new_priority v =
    let thread = record (k.threads k.current) { priority = new_priority } in
    kept-IsValid k (assign k.threads k.current thread)
      (assign_keeps (λ x. x.status) k.threads k.current thread refl)
      (assign_keeps (λ x. x.tid) k.threads k.current thread refl) v

-- On a valid state `thread_set_priority` does not panic. Whatever the new priority, the state after it
-- is valid, no ready thread exceeds the one that runs, and of the structures of the threads nothing
-- but that priority and states changed.
pub thread_set_priority-IsTop :
    (k : Kernel) (new_priority : ℕ)
    → IsValid k
    → Tops (prioritized k new_priority) (thread_set_priority k new_priority)
unfolding thread_set_priority
thread_set_priority-IsTop k new_priority v =
    yield_to_max-Tops (prioritized k new_priority) (prioritized-IsValid k new_priority v)
