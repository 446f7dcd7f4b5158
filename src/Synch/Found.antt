-- ===== src/Synch/Found.antt =====
-- The donated priority of a thread from the locks that it holds.
use cs130_25spring_project.Common.{
  ℕ, ◌≤◌, ◌<◌, ◌≡◌, ◌≢◌, refl, sym, ap, ◌∙◌, ◌⊎◌, inl, inr, some, List, [], ◌∷◌, arith, leb, max,
  Bool-cases, ne→==, ==-refl, ℕ_discrete,
}
use mathlib.Core.Path.{subst, ap₂}
use cs130_25spring_project.Common.Counts.{count}
use cs130_25spring_project.Thread.{Thread, Kernel, effective, is_blocked, thread_list_max, assign}
use cs130_25spring_project.Thread.Max.{pri}
use cs130_25spring_project.Thread.Ready.{IsValid}
use cs130_25spring_project.Thread.Moved.{
  assign-here, assign-there, assign-assign, assign_keeps, kept-IsValid,
}
use cs130_25spring_project.Synch.{Lock, set_extra, find_donated}
use cs130_25spring_project.Synch.Wake.{Waits, waiter-other, waiter-greatest}

module _ (k : Kernel) (v : IsValid k) (locks : ℕ → Lock) where
  abbrev waiters : ℕ → List ℕ
  waiters l = (locks l).semaphore.waiters

  abbrev cur : ℕ
  cur = k.current

  -- `extra` is the greatest of `start` and the priorities of the waiters of the locks in `ls`.
  pub record Found (ls : List ℕ) (start extra : ℕ) : Type 0 where
    pub above_start : start ≤ extra
    pub above : (l u : ℕ) → 0 < count l ls → 0 < count u (waiters l) → pri k.threads u ≤ extra
    pub reached :
        (extra ≡ start)
        ⊎ ((l u : ℕ) × (0 < count l ls) × (0 < count u (waiters l)) × (extra ≡ pri k.threads u))

  -- The state with another donated priority of the current thread.
  abbrev pub with_extra : ℕ → Kernel
  with_extra x = record k { threads = set_extra k.threads cur x }

  pub with_extra-IsValid : (x : ℕ) → IsValid (with_extra x)
  with_extra-IsValid x =
      let thread = record (k.threads cur) { extra_priority = x } in
      kept-IsValid k (set_extra k.threads cur x)
        (assign_keeps (λ t. t.status) k.threads cur thread refl)
        (assign_keeps (λ t. t.tid) k.threads cur thread refl) v

  pub with_extra-pri : (x u : ℕ) → u ≢ cur → pri (set_extra k.threads cur x) u ≡ pri k.threads u
  with_extra-pri x u ne = ap effective (
      assign-there k.threads cur (record (k.threads cur) { extra_priority = x }) u
        (λ e. ne (sym e)))

  pub with_extra-Waits : (x : ℕ) (l : List ℕ) → Waits k l → Waits (with_extra x) l
  with_extra-Waits x l w =
      let thread = record (k.threads cur) { extra_priority = x } in
      record {
        blocked = λ t pos.
            ap is_blocked (assign_keeps (λ t. t.status) k.threads cur thread refl t)
            ∙ w.blocked t pos;
        working = w.working;
        once = w.once;
      }

  set_extra-set_extra :
      (x y : ℕ) → set_extra (set_extra k.threads cur x) cur y ≡ set_extra k.threads cur y
  set_extra-set_extra x y =
      let first = record (k.threads cur) { extra_priority = x } in
      ap (λ z. assign (set_extra k.threads cur x) cur z)
        (ap {A = Thread} (λ z. record z { extra_priority = y }) (assign-here k.threads cur first))
      ∙ assign-assign k.threads cur first (record (k.threads cur) { extra_priority = y })

  find_donated-empty :
      (l : ℕ) (ls : List ℕ) (threads : ℕ → Thread)
      → waiters l ≡ []
      → find_donated locks cur (l ∷ ls) threads ≡ find_donated locks cur ls threads
  unfolding find_donated
  find_donated-empty l ls threads e = simp e refl

  find_donated-max :
      (l : ℕ) (ls : List ℕ) (threads : ℕ → Thread) (m : ℕ) (rest : List ℕ) (t : ℕ)
      → waiters l ≡ m ∷ rest
      → thread_list_max threads (waiters l) ≡ some t
      → find_donated locks cur (l ∷ ls) threads
        ≡ find_donated locks cur ls
            (set_extra threads cur (max (threads cur).extra_priority (effective (threads t))))
  unfolding find_donated
  find_donated-max l ls threads m rest t e f =
      simp (e, subst (λ x. thread_list_max threads x ≡ some t) e f) refl

  abbrev pub Finds : List ℕ → ℕ → Type 0
  Finds ls start =
      (extra : ℕ) × (find_donated locks cur ls (set_extra k.threads cur start)
        ≡ some (set_extra k.threads cur extra))
      × Found ls start extra

  find_donated-nil : (threads : ℕ → Thread) → find_donated locks cur [] threads ≡ some threads
  unfolding find_donated
  find_donated-nil threads = refl

  Found-empty : (l : ℕ) (ls : List ℕ) (x e : ℕ) → waiters l ≡ [] → Found ls x e → Found (l ∷ ls) x e
  unfolding count
  Found-empty l ls x e bare f = record {
    above_start = f.above_start;
    above = λ j u pos waits. elim (ℕ_discrete j l) [
      | yes same ↦ absurd (omega (arith, ap (count u) (ap waiters same ∙ bare)))
      | no ne ↦ f.above j u (ground (arith, pos, ne→== ne)) waits
    ];
    reached = elim f.reached [
      | inl start ↦ inl start
      | inr r ↦ let (j, u, pos, waits, same) = r in inr (j, u, omega (arith, pos), waits, same)
    ];
  }

  Found-max :
      (l : ℕ) (ls : List ℕ) (x e t : ℕ)
      → 0 < count t (waiters l)
      → ((u : ℕ) → 0 < count u (waiters l) → pri k.threads u ≤ pri k.threads t)
      → Found ls (max x (pri k.threads t)) e
      → Found (l ∷ ls) x e
  unfolding count
  Found-max l ls x e t present greatest f = record {
    above_start = ground (arith, f.above_start);
    above = λ j u pos waits. elim (ℕ_discrete j l) [
      | yes same ↦
          ground
            (arith, f.above_start, greatest u (subst (λ z. 0 < count u (waiters z)) same waits))
      | no ne ↦ f.above j u (ground (arith, pos, ne→== ne)) waits
    ];
    reached = elim f.reached [
      | inl start ↦ elim (Bool-cases (leb (pri k.threads t) x)) [
        | inl le ↦ inl (ground (arith, start, le))
        | inr gt ↦ inr (l, t, ground (arith, ==-refl l), present, ground (arith, start, gt))
      ]
      | inr r ↦ let (j, u, pos, waits, same) = r in inr (j, u, omega (arith, pos), waits, same)
    ];
  }

  -- One lock of the loop.
  find_donated-cons :
      (l : ℕ) (ls : List ℕ) (start : ℕ)
      → Waits k (waiters l)
      → ((x : ℕ) → Finds ls x)
      → Finds (l ∷ ls) start
  find_donated-cons l ls start w ih = go (waiters l) refl
    where
      threads : ℕ → Thread
      threads = set_extra k.threads cur start

      extra : (threads cur).extra_priority ≡ start
      extra =
          ap (λ t. t.extra_priority)
            (assign-here k.threads cur (record (k.threads cur) { extra_priority = start }))

      found :
          (m : ℕ) (rest : List ℕ)
          → waiters l ≡ m ∷ rest
          → (t : ℕ) × (thread_list_max threads (waiters l) ≡ some t)
            × (0 < count t (waiters l))
            × ((u : ℕ) → 0 < count u (waiters l) → pri threads u ≤ pri threads t)
          → Finds (l ∷ ls) start
      found m rest e (t, max_found, present, greatest) =
          let same : (u : ℕ) → 0 < count u (waiters l) → pri threads u ≡ pri k.threads u =
            λ u pos. with_extra-pri start u (waiter-other k v (waiters l) w u pos) in
          let (final, runs, f) = ih (max start (pri k.threads t)) in
          (
            final,
            find_donated-max l ls threads m rest t e max_found
                ∙ ap (λ z. find_donated locks cur ls (set_extra threads cur z))
                    (ap₂ max extra (same t present))
                ∙ ap (find_donated locks cur ls)
                    (set_extra-set_extra start (max start (pri k.threads t)))
                ∙ runs,
            Found-max l ls start final t present
                (λ u pos. omega (arith, greatest u pos, same u pos, same t present)) f,
          )

      go : (q : List ℕ) → waiters l ≡ q → Finds (l ∷ ls) start
      go [] e =
          let (final, runs, f) = ih start in
          (final, find_donated-empty l ls threads e ∙ runs, Found-empty l ls start final e f)
      go (m ∷ rest) e = found m rest e (
          waiter-greatest (with_extra start) (with_extra-IsValid start) (waiters l)
            (with_extra-Waits start (waiters l) w) m rest e)

  pub find_donated-Finds :
      (ls : List ℕ) (start : ℕ) → ((l : ℕ) → 0 < count l ls → Waits k (waiters l)) → Finds ls start
  unfolding count
  find_donated-Finds [] start w = (
    start,
    find_donated-nil (set_extra k.threads cur start),
    record {
      above_start = omega arith;
      above = λ l u pos. absurd (omega arith);
      reached = inl refl;
    },
  )
  find_donated-Finds (l ∷ ls) start w =
      find_donated-cons l ls start (w l (ground (arith, ==-refl l)))
        (λ x. find_donated-Finds ls x (λ j pos. w j (omega arith)))
