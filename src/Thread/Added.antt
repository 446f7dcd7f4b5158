-- ===== src/Thread/Added.antt =====
-- A new thread in the lists.
use cs130_25spring_project.Common.{
  ℕ, ◌+◌, ◌<◌, ◌≡◌, ◌≢◌, sym, ap, ◌∙◌, Bool, true, false, not, ◌&&◌, [], ◌∷◌, ◌++◌, arith, ◌==◌,
  if◌then◌else◌, ne→==, ==-refl, ℕ_discrete,
}
use mathlib.Core.Path.{subst}
use cs130_25spring_project.Common.Counts.{count, count-append, count-one}
use cs130_25spring_project.Thread.{
  Thread, Kernel, is_running, is_ready, is_dying, assign, init_thread,
}
use cs130_25spring_project.Thread.Ready.{
  status, is_alive, IsListed, IsValid, dying-stopped, running-alive,
}

-- The state with a new thread on the page `t`, blocked still.
abbrev pub added : Kernel → (page priority : ℕ) → Kernel
added k t priority = record k {
  threads = assign k.threads t (init_thread k.next_tid priority);
  all_list = k.all_list ++ (t ∷ []);
  next_tid = k.next_tid + 1;
}

module _ (k : Kernel) (v : IsValid k) (t priority : ℕ) (unused : is_dying (status k t) ≡ true) where
  abbrev chosen : ℕ → Bool → Thread
  chosen u b = if b then init_thread k.next_tid priority else k.threads u

  dead : is_alive k t ≡ false
  dead = ap not unused

  -- A live thread is not the new one, and is as it was.
  pub spared : (u : ℕ) → is_alive k u ≡ true → (t == u) ≡ false
  spared u alive = elim (ℕ_discrete t u) [
    | yes e ↦ absurd (ground (arith, sym dead ∙ ap (is_alive k) e ∙ alive))
    | no ne ↦ ne→== ne
  ]

  unused-stopped : (is_ready (status k t) ≡ false) × (is_running (status k t) ≡ false)
  unused-stopped = dying-stopped (status k t) unused

  pub added-here : (added k t priority).threads t ≡ init_thread k.next_tid priority
  added-here = ap (chosen t) (==-refl t)

  pub added-there : (u : ℕ) → (t == u) ≡ false → (added k t priority).threads u ≡ k.threads u
  added-there u ne = ap (chosen u) ne

  added-IsListed : IsListed (added k t priority)
  added-IsListed = record {
    ready = ready;
    all = all;
    tids = tids;
    fresh = fresh;
    idle =
        ap (λ x. not (is_dying x.status))
          (added-there k.idle_thread (spared k.idle_thread v.listed.idle))
        ∙ v.listed.idle;
  }
    where
      ready :
          (u : ℕ)
          → count u k.ready_list ≡ (
              if is_ready (status (added k t priority) u) && not (u == k.idle_thread) then 1 else 0)
      ready u = elim (ℕ_discrete t u) [
        | yes e ↦
            subst
              (λ x. count x k.ready_list ≡ (
                if is_ready (status (added k t priority) x) && not (x == k.idle_thread)
                then 1
                else 0))
              e
              (ground (arith, v.listed.ready t, unused-stopped)
                ∙ ap (λ x. if is_ready x.status && not (t == k.idle_thread) then 1 else 0)
                    (sym added-here))
        | no ne ↦
            v.listed.ready u
            ∙ ap (λ x. if is_ready x.status && not (u == k.idle_thread) then 1 else 0)
                (sym (added-there u (ne→== ne)))
      ]

      all :
          (u : ℕ)
          → count u (k.all_list ++ (t ∷ [])) ≡ (if is_alive (added k t priority) u then 1 else 0)
      all u = elim (ℕ_discrete t u) [
        | yes e ↦
            subst
              (λ x.
                count x (k.all_list ++ (t ∷ []))
                ≡ (if is_alive (added k t priority) x then 1 else 0))
              e
              (ground (
                arith,
                count-append t k.all_list (t ∷ []),
                count-one t t,
                ==-refl t,
                v.listed.all t,
                dead,
              )
                ∙ ap (λ x. if not (is_dying x.status) then 1 else 0) (sym added-here))
        | no ne ↦
            omega (
              arith,
              count-append u k.all_list (t ∷ []),
              count-one t u ∙ ap (λ b. if b then 1 else 0) (ne→== ne),
              v.listed.all u,
            )
            ∙ ap (λ x. if not (is_dying x.status) then 1 else 0) (sym (added-there u (ne→== ne)))
      ]

      old : (u : ℕ) → t ≢ u → is_alive (added k t priority) u ≡ true → is_alive k u ≡ true
      old u ne a = ap (λ x. not (is_dying x.status)) (sym (added-there u (ne→== ne))) ∙ a

      new_tid : (u : ℕ) → t ≡ u → ((added k t priority).threads u).tid ≡ k.next_tid
      new_tid u e =
          ap (λ x. ((added k t priority).threads x).tid) (sym e) ∙ ap (λ x. x.tid) added-here

      old_tid : (u : ℕ) → t ≢ u → ((added k t priority).threads u).tid ≡ (k.threads u).tid
      old_tid u ne = ap (λ x. x.tid) (added-there u (ne→== ne))

      fresh :
          (u : ℕ)
          → is_alive (added k t priority) u ≡ true
          → ((added k t priority).threads u).tid < k.next_tid + 1
      fresh u a = elim (ℕ_discrete t u) [
        | yes e ↦ omega (arith, new_tid u e)
        | no ne ↦ omega (arith, old_tid u ne, v.listed.fresh u (old u ne a))
      ]

      tids :
          (u w : ℕ)
          → is_alive (added k t priority) u ≡ true
          → is_alive (added k t priority) w ≡ true
          → ((added k t priority).threads u).tid ≡ ((added k t priority).threads w).tid
          → u ≡ w
      tids u w au aw same = elim (ℕ_discrete t u) [
        | yes e ↦ elim (ℕ_discrete t w) [
          | yes f ↦ sym e ∙ f
          | no nf ↦
              absurd
                (omega (arith, new_tid u e, old_tid w nf, same, v.listed.fresh w (old w nf aw)))
        ]
        | no ne ↦ elim (ℕ_discrete t w) [
          | yes f ↦
              absurd
                (omega (arith, new_tid w f, old_tid u ne, same, v.listed.fresh u (old u ne au)))
          | no nf ↦
              v.listed.tids u w (old u ne au) (old w nf aw)
                (sym (old_tid u ne) ∙ same ∙ old_tid w nf)
        ]
      ]

  pub added-IsValid : IsValid (added k t priority)
  added-IsValid = record {
    listed = added-IsListed;
    running =
        ap (λ x. is_running x.status) (added-there k.current (spared k.current alive)) ∙ v.running;
    only = only;
  }
    where
      alive : is_alive k k.current ≡ true
      alive = ap not (running-alive (status k k.current) v.running).0

      only : (u : ℕ) → is_running (status (added k t priority) u) ≡ true → u ≡ k.current
      only u runs = elim (ℕ_discrete t u) [
        | yes e ↦ absurd (
            ground (
              arith,
              sym runs
                  ∙ ap (λ x. is_running (status (added k t priority) x)) (sym e)
                  ∙ ap (λ x. is_running x.status) added-here,
            ))
        | no ne ↦ v.only u (ap (λ x. is_running x.status) (sym (added-there u (ne→== ne))) ∙ runs)
      ]
