-- ===== src/Synch/Dropped.antt =====
-- A lock release up to the computation of the donated priority.
use cs130_25spring_project.Common.{
  ℕ, ◌<◌, ◌≡◌, ◌≢◌, refl, sym, ap, ◌∙◌, none, List, [], ◌∷◌, arith, ne→==, ℕ_discrete,
}
use mathlib.Core.Path.{subst}
use cs130_25spring_project.Common.Counts.{count}
use cs130_25spring_project.Thread.{Thread, Kernel, effective, is_blocked, list_remove, assign}
use cs130_25spring_project.Thread.Max.{pri}
use cs130_25spring_project.Thread.Ready.{IsValid}
use cs130_25spring_project.Thread.Moved.{
  assign-here, assign-there, assign_self, assign_keeps, kept-IsValid,
}
use cs130_25spring_project.Synch.{Synch, set_extra, reset_parents, released}
use cs130_25spring_project.Synch.Wake.{Waits}

-- What the loop over the waiters does not read off a parent is as it was.
reset_parents_keeps :
    {B : Type 0} (f : Thread → B)
    → ((x : Thread) → f (record x { parent = none }) ≡ f x)
    → (l : List ℕ) (threads : ℕ → Thread) (u : ℕ) → f (reset_parents threads l u) ≡ f (threads u)
unfolding reset_parents
reset_parents_keeps f same [] threads u = refl
reset_parents_keeps f same (t ∷ l) threads u =
    reset_parents_keeps f same l (assign threads t (record (threads t) { parent = none })) u
    ∙ assign_keeps f threads t (record (threads t) { parent = none }) (same (threads t)) u

-- The waiters have no parent afterwards.
reset_parents-none :
    (l : List ℕ) (threads : ℕ → Thread) (u : ℕ)
    → (threads u).parent ≡ none
    → (reset_parents threads l u).parent ≡ none
unfolding reset_parents
reset_parents-none [] threads u e = e
reset_parents-none (t ∷ l) threads u e =
    let value = record (threads t) { parent = none } in
    reset_parents-none l (assign threads t value) u (elim (ℕ_discrete t u) [
      | yes same ↦
          subst (λ x. (assign threads t value x).parent ≡ none) same
            (ap (λ x. x.parent) (assign-here threads t value))
      | no ne ↦ ap (λ x. x.parent) (assign-there threads t value u ne) ∙ e
    ])

pub reset_parents-parent :
    (l : List ℕ) (threads : ℕ → Thread) (u : ℕ)
    → 0 < count u l
    → (reset_parents threads l u).parent ≡ none
unfolding reset_parents count
reset_parents-parent [] threads u pos = absurd (omega arith)
reset_parents-parent (t ∷ l) threads u pos =
    let value = record (threads t) { parent = none } in
    elim (ℕ_discrete u t) [
      | yes same ↦ reset_parents-none l (assign threads t value) u (
          ap (λ x. (assign threads t value x).parent) same
          ∙ ap (λ x. x.parent) (assign-here threads t value))
      | no ne ↦ reset_parents-parent l (assign threads t value) u (ground (arith, pos, ne→== ne))
    ]

module _ (s : Synch) (l : ℕ) where
  abbrev pub queue : List ℕ
  queue = (s.locks l).semaphore.waiters

  abbrev pub rest : List ℕ
  rest = list_remove l (s.kernel.threads s.kernel.current).locks

  abbrev pub orphaned : ℕ → Thread
  orphaned = reset_parents s.kernel.threads queue

  -- The state before the donated priority is computed.
  abbrev pub dropped : Kernel
  dropped = record s.kernel {
    threads = assign orphaned s.kernel.current (released (orphaned s.kernel.current) l);
  }

module _ (s : Synch) (l : ℕ) (v : IsValid s.kernel) where
  abbrev cur : ℕ
  cur = s.kernel.current

  dropped_keeps :
      {B : Type 0} (f : Thread → B)
      → ((x : Thread) → f (record x { parent = none }) ≡ f x)
      → ((x : Thread) → f (released x l) ≡ f x)
      → (u : ℕ) → f ((dropped s l).threads u) ≡ f (s.kernel.threads u)
  dropped_keeps f same_parent same u =
      assign_keeps f (orphaned s l) cur (released ((orphaned s l) cur) l)
        (same ((orphaned s l) cur)) u
      ∙ reset_parents_keeps f same_parent (queue s l) s.kernel.threads u

  pub dropped-IsValid : IsValid (dropped s l)
  dropped-IsValid =
      kept-IsValid s.kernel (dropped s l).threads
        (dropped_keeps (λ x. x.status) (λ x. refl) (λ x. refl))
        (dropped_keeps (λ x. x.tid) (λ x. refl) (λ x. refl)) v

  pub dropped-pri : (u : ℕ) → u ≢ cur → pri (dropped s l).threads u ≡ pri s.kernel.threads u
  dropped-pri u ne =
      ap effective
        (assign-there (orphaned s l) cur (released ((orphaned s l) cur) l) u (λ e. ne (sym e)))
      ∙ reset_parents_keeps effective (λ x. refl) (queue s l) s.kernel.threads u

  pub dropped-Waits : (q : List ℕ) → Waits s.kernel q → Waits (dropped s l) q
  dropped-Waits q w = record {
    blocked = λ t pos.
        ap is_blocked (dropped_keeps (λ x. x.status) (λ x. refl) (λ x. refl) t) ∙ w.blocked t pos;
    working = w.working;
    once = w.once;
  }

  pub dropped-locks : ((dropped s l).threads cur).locks ≡ (rest s l)
  dropped-locks =
      ap (λ x. x.locks) (assign-here (orphaned s l) cur (released ((orphaned s l) cur) l))
      ∙ ap (list_remove l)
          (reset_parents_keeps (λ x. x.locks) (λ x. refl) (queue s l) s.kernel.threads cur)

  pub dropped-extra : set_extra (dropped s l).threads cur 0 ≡ (dropped s l).threads
  dropped-extra =
      ap (assign (dropped s l).threads cur) (
        ap {A = Thread} (λ z. record z { extra_priority = 0 })
          (assign-here (orphaned s l) cur (released ((orphaned s l) cur) l))
        ∙ sym (assign-here (orphaned s l) cur (released ((orphaned s l) cur) l)))
      ∙ assign_self (dropped s l).threads cur
