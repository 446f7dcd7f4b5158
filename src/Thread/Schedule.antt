-- ===== src/Thread/Schedule.antt =====
-- The switch: the thread that runs next is the first of the greatest ready ones.
use cs130_25spring_project.Common.{
  ℕ, ◌+◌, ◌≤◌, ◌<◌, ◌≡◌, refl, sym, ap, ◌∙◌, ◌⊎◌, inl, inr, true, false, some, List, [], ◌∷◌, ◌++◌,
  arith, ◌==◌, if◌then◌else◌, ne→==, ==-refl, ℕ_discrete, dec_lt,
}
use mathlib.Core.Path.{subst}
use cs130_25spring_project.Common.Counts.{count, count-append}
use cs130_25spring_project.Thread.{
  Kernel, list_remove, thread_list_max, thread_schedule_tail, next_thread_to_run,
}
use cs130_25spring_project.Thread.Max.{All, pri, Distinct, thread_list_max-first}
use cs130_25spring_project.Thread.Ready.{
  is_alive, IsListed, count-of_All, list_remove-split, member-alive, ready-Distinct,
}

-- The thread that a switch leads to, and the ready list after it.
pub data Chosen (k : Kernel) : (next : ℕ) → (ready_list : List ℕ) → Type 0 where
  idles : k.ready_list ≡ [] → Chosen k k.idle_thread []
  picked :
      (before after : List ℕ) (r : ℕ)
      → k.ready_list ≡ before ++ (r ∷ after)
      → All (λ t. pri k.threads t < pri k.threads r) before
      → All (λ t. pri k.threads t ≤ pri k.threads r) after
      → Chosen k r (before ++ after)

-- The state after the switch.
abbrev pub switched : Kernel → ℕ → List ℕ → Kernel
switched k next ready_list =
    thread_schedule_tail (record (record k { ready_list = ready_list }) { current = next })

next_thread_to_run-idle :
    (k : Kernel)
    → k.ready_list ≡ []
    → next_thread_to_run k ≡ some (record k { ready_list = [] }, k.idle_thread)
unfolding next_thread_to_run
next_thread_to_run-idle k e = simp e (ap (λ l. some (record k { ready_list = l }, k.idle_thread)) e)

next_thread_to_run-max :
    (k : Kernel) (m : ℕ) (l : List ℕ) (r : ℕ)
    → k.ready_list ≡ m ∷ l
    → thread_list_max k.threads (m ∷ l) ≡ some r
    → next_thread_to_run k ≡ some (record k { ready_list = list_remove r (m ∷ l) }, r)
unfolding next_thread_to_run
next_thread_to_run-max k m l r e f = simp (e, f)

-- A thread of less priority than another is not that one.
count-of_less :
    (k : Kernel) (l : List ℕ) (r : ℕ)
    → All (λ t. pri k.threads t < pri k.threads r) l
    → count r l ≡ 0
count-of_less k l r small = elim (dec_lt 0 (count r l)) [
  | yes pos ↦
      absurd (omega (arith, count-of_All (λ t. pri k.threads t < pri k.threads r) l r small pos))
  | no p ↦ omega arith
]

abbrev pub Upcoming : Kernel → Type 0
Upcoming k =
    (l : List ℕ) × (next : ℕ) × (next_thread_to_run k ≡ some (record k { ready_list = l }, next))
    × Chosen k next l

pub next_thread_to_run-Chosen : (k : Kernel) → IsListed k → Upcoming k
next_thread_to_run-Chosen k v = go k.ready_list refl
  where
    pick :
        (m : ℕ) (l : List ℕ)
        → k.ready_list ≡ m ∷ l
        → (r : ℕ) × (before after : List ℕ) × (thread_list_max k.threads (m ∷ l) ≡ some r)
          × (m ∷ l ≡ before ++ (r ∷ after))
          × All (λ t. pri k.threads t < pri k.threads r) before
          × All (λ t. pri k.threads t ≤ pri k.threads r) after
        → Upcoming k
    pick m l e (r, before, after, found, split, small, rest) =
        let taken : list_remove r (m ∷ l) ≡ before ++ after =
          ap (list_remove r) split
          ∙ list_remove-split r before after (count-of_less k before r small) in
        (
          before ++ after,
          r,
          next_thread_to_run-max k m l r e found
              ∙ ap (λ x. some (record k { ready_list = x }, r)) taken,
          picked before after r (e ∙ split) small rest,
        )

    go : (l : List ℕ) → k.ready_list ≡ l → Upcoming k
    go [] e = ([], k.idle_thread, next_thread_to_run-idle k e, idles e)
    go (m ∷ l) e =
        pick m l e
          (thread_list_max-first k.threads m l (subst (Distinct k.threads) e (ready-Distinct k v)))

-- The counts of a list without one entry.
pub count-without :
    (t r : ℕ) (before after : List ℕ)
    → count t (before ++ (r ∷ after)) ≡ (if t == r then 1 else 0) + count t (before ++ after)
unfolding count
count-without t r before after =
    omega (arith, count-append t before (r ∷ after), count-append t before after)

Chosen-least :
    (k : Kernel) (r : ℕ) (before after : List ℕ)
    → All (λ t. pri k.threads t < pri k.threads r) before
    → All (λ t. pri k.threads t ≤ pri k.threads r) after
    → (t : ℕ) → 0 < count t before + count t after
    → pri k.threads t ≤ pri k.threads r
Chosen-least k r before after small rest t pos = elim (dec_lt 0 (count t before)) [
  | yes p ↦ omega (arith, count-of_All (λ t. pri k.threads t < pri k.threads r) before t small p)
  | no p ↦ count-of_All (λ t. pri k.threads t ≤ pri k.threads r) after t rest (omega arith)
]

-- What the choice says in counts.
pub Chosen-counts :
    (k : Kernel) (next : ℕ) (l : List ℕ)
    → IsListed k
    → Chosen k next l
    → (is_alive k next ≡ true)
      × ((t : ℕ) → (t == next) ≡ false → count t l ≡ count t k.ready_list)
      × (count next l ≡ 0)
      × ((t : ℕ) → 0 < count t l → pri k.threads t ≤ pri k.threads next)
unfolding count
Chosen-counts k next l v (idles e) =
    (v.idle, λ t ne. ap (count t) (sym e), refl, λ t pos. absurd (omega arith))
Chosen-counts k next l v (picked before after r split small rest) =
    let whole : (t : ℕ)
        → count t k.ready_list ≡ (if t == next then 1 else 0) + count t (before ++ after) =
      λ t. ap (count t) split ∙ count-without t next before after in
    let here : count next k.ready_list ≡ 1 + count next (before ++ after) =
      ground (arith, whole next, ==-refl next) in
    (
      member-alive k v next (omega (arith, here)),
      λ t ne. ground (arith, whole t, ne),
      ground (arith, here, v.ready next),
      λ t pos.
          Chosen-least k next before after small rest t
            (omega (arith, count-append t before after, pos)),
    )

-- The first of the greatest is in the list, and no entry is greater.
pub Chosen-greatest :
    (k : Kernel) (r : ℕ) (before after : List ℕ)
    → k.ready_list ≡ before ++ (r ∷ after)
    → All (λ t. pri k.threads t < pri k.threads r) before
    → All (λ t. pri k.threads t ≤ pri k.threads r) after
    → (0 < count r k.ready_list)
      × ((t : ℕ) → 0 < count t k.ready_list → pri k.threads t ≤ pri k.threads r)
Chosen-greatest k r before after split small rest =
    (ground (arith, whole r, ==-refl r), λ t pos. greatest t pos)
  where
    whole : (t : ℕ) → count t k.ready_list ≡ (if t == r then 1 else 0) + count t (before ++ after)
    whole t = ap (count t) split ∙ count-without t r before after

    greatest : (t : ℕ) → 0 < count t k.ready_list → pri k.threads t ≤ pri k.threads r
    greatest t pos = elim (ℕ_discrete t r) [
      | yes e ↦ omega (arith, ap (λ x. pri k.threads x) e)
      | no ne ↦
          Chosen-least k r before after small rest t
            (ground (arith, whole t, ne→== ne, count-append t before after, pos))
    ]

-- The choice takes one thread out of the ready list, and only that one.
pub Chosen-others :
    (k : Kernel) (next : ℕ) (l : List ℕ)
    → Chosen k next l
    → (t : ℕ) → 0 < count t k.ready_list
    → (0 < count t l) ⊎ (t ≡ next)
unfolding count
Chosen-others k _ _ (idles e) t pos = absurd (omega (arith, pos, ap (count t) e))
Chosen-others k _ _ (picked before after r e small rest) t pos = elim (ℕ_discrete t r) [
  | yes same ↦ inr same
  | no ne ↦ inl (ground (arith, pos, ap (count t) e, count-without t r before after, ne→== ne))
]

-- The thread that is chosen was ready or is the idle one.
pub Chosen-source :
    (k : Kernel) (next : ℕ) (l : List ℕ)
    → Chosen k next l
    → (0 < count next k.ready_list) ⊎ (next ≡ k.idle_thread)
Chosen-source k _ _ (idles e) = inr refl
Chosen-source k _ _ (picked before after r e small rest) =
    inl (ground (arith, ap (count r) e, count-without r r before after, ==-refl r))
