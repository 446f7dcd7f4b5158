-- ===== src/Thread/Ready.antt =====
-- The lists of threads and the states of their members.
use cs130_25spring_project.Common.{
  ℕ, ◌-◌, ◌≤◌, ◌<◌, ◌≡◌, ◌≢◌, refl, sym, ap, Bool, true, false, not, ◌&&◌, List, [], ◌∷◌, ◌++◌,
  arith, ◌==◌, if◌then◌else◌, ==-refl, ℕ_discrete,
}
use mathlib.Core.Path.{subst}
use cs130_25spring_project.Common.Counts.{count}
use cs130_25spring_project.Thread.{
  Kernel, Status, thread_running, thread_ready, thread_blocked, thread_dying, is_running, is_ready,
  is_blocked, is_dying, list_remove,
}
use cs130_25spring_project.Thread.Max.{All, pri, Distinct}

abbrev pub status : Kernel → ℕ → Status
status k t = (k.threads t).status

abbrev pub is_alive : Kernel → ℕ → Bool
is_alive k t = not (is_dying (status k t))

-- The ready list has each ready thread but the idle one, once, and the list of all threads each one
-- that is not dying. Identifiers tell the threads apart.
pub record IsListed (k : Kernel) : Type 0 where
  pub ready :
      (t : ℕ)
      → count t k.ready_list ≡ (if is_ready (status k t) && not (t == k.idle_thread) then 1 else 0)
  pub all : (t : ℕ) → count t k.all_list ≡ (if is_alive k t then 1 else 0)
  pub tids :
      (t u : ℕ)
      → is_alive k t ≡ true
      → is_alive k u ≡ true
      → (k.threads t).tid ≡ (k.threads u).tid
      → t ≡ u
  pub fresh : (t : ℕ) → is_alive k t ≡ true → (k.threads t).tid < k.next_tid
  pub idle : is_alive k k.idle_thread ≡ true

-- Exactly the current thread runs.
pub record IsValid (k : Kernel) : Type 0 where
  pub listed : IsListed k
  pub running : is_running (status k k.current) ≡ true
  pub only : (t : ℕ) → is_running (status k t) ≡ true → t ≡ k.current

-- Between a change of the current thread's state and the switch, no thread runs.
pub record IsPending (k : Kernel) : Type 0 where
  pub listed : IsListed k
  pub stopped : (t : ℕ) → is_running (status k t) ≡ false

-- No ready thread has a greater priority than the one that runs.
abbrev pub IsTop : Kernel → Type 0
IsTop k = (t : ℕ) → 0 < count t k.ready_list → pri k.threads t ≤ pri k.threads k.current

pub All-of_count : (P : ℕ → Type 0) (l : List ℕ) → ((t : ℕ) → 0 < count t l → P t) → All P l
unfolding All count
All-of_count P [] h = tt
All-of_count P (x ∷ l) h =
    (h x (ground (arith, ==-refl x)), All-of_count P l (λ t pos. h t (omega arith)))

pub count-of_All : (P : ℕ → Type 0) (l : List ℕ) (t : ℕ) → All P l → 0 < count t l → P t
unfolding All count
count-of_All P [] t h pos = absurd (omega arith)
count-of_All P (x ∷ l) t (p, h) pos = elim (ℕ_discrete t x) [
  | yes e ↦ subst P (sym e) p
  | no ne ↦ count-of_All P l t h (ground (arith, ne, pos))
]

pub count-list_remove :
    (t j : ℕ) (l : List ℕ)
    → count j (list_remove t l) ≡ (if t == j then count j l - 1 else count j l)
unfolding count list_remove
count-list_remove t j [] = ground arith
count-list_remove t j (x ∷ l) = ground (arith, count-list_remove t j l)

-- Removing a thread from a list that has it once, where it stands.
pub list_remove-split :
    (t : ℕ) (before after : List ℕ)
    → count t before ≡ 0
    → list_remove t (before ++ (t ∷ after)) ≡ before ++ after
unfolding count list_remove
list_remove-split t [] after h = rw (==-refl t) refl
list_remove-split t (x ∷ before) after h =
    let other : (t == x) ≡ false = ground (arith, h) in
    rw other (ap (λ l. x ∷ l) (list_remove-split t before after (omega arith)))

-- A list of live threads that has none twice has no identifier twice.
pub Distinct-of_count :
    (k : Kernel)
    → IsListed k
    → (l : List ℕ) → ((t : ℕ) → count t l ≤ 1)
    → ((t : ℕ) → 0 < count t l → is_alive k t ≡ true)
    → Distinct k.threads l
unfolding Distinct count
Distinct-of_count k v [] once alive = tt
Distinct-of_count k v (x ∷ l) once alive = (
  All-of_count _ l (λ u pos same.
      twice u pos (v.tids x u (alive x (ground (arith, ==-refl x))) (alive u (omega arith)) same)),
  Distinct-of_count k v l (λ t. omega (arith, once t)) (λ t pos. alive t (omega arith)),
)
  where
    twice : (u : ℕ) → 0 < count u l → x ≢ u
    twice u pos e = absurd (ground (arith, once x, e, pos))

-- What one state excludes.
pub ready-alive : (s : Status) → is_ready s ≡ true → (is_dying s ≡ false) × (is_running s ≡ false)
ready-alive thread_running h = (refl, absurd (ground (arith, h)))
ready-alive thread_ready h = (refl, refl)
ready-alive thread_blocked h = (refl, refl)
ready-alive thread_dying h = (absurd (ground (arith, h)), refl)

pub running-alive : (s : Status) → is_running s ≡ true → (is_dying s ≡ false) × (is_ready s ≡ false)
running-alive thread_running h = (refl, refl)
running-alive thread_ready h = (refl, absurd (ground (arith, h)))
running-alive thread_blocked h = (refl, refl)
running-alive thread_dying h = (absurd (ground (arith, h)), refl)

pub blocked-alive :
    (s : Status)
    → is_blocked s ≡ true
    → (is_dying s ≡ false) × (is_ready s ≡ false) × (is_running s ≡ false)
blocked-alive thread_running h = (refl, refl, absurd (ground (arith, h)))
blocked-alive thread_ready h = (refl, absurd (ground (arith, h)), refl)
blocked-alive thread_blocked h = (refl, refl, refl)
blocked-alive thread_dying h = (absurd (ground (arith, h)), refl, refl)

pub dying-stopped : (s : Status) → is_dying s ≡ true → (is_ready s ≡ false) × (is_running s ≡ false)
dying-stopped thread_running h = absurd (ground (arith, h))
dying-stopped thread_ready h = absurd (ground (arith, h))
dying-stopped thread_blocked h = (refl, refl)
dying-stopped thread_dying h = (refl, refl)

module _ (k : Kernel) (v : IsListed k) where
  -- A thread in the ready list is ready, alive, and not the idle one.
  pub member-ready :
      (t : ℕ) → 0 < count t k.ready_list → (is_ready (status k t) ≡ true) × (t ≢ k.idle_thread)
  member-ready t pos = (ground (arith, v.ready t, pos), λ e. ground (arith, v.ready t, pos, e))

  pub member-alive : (t : ℕ) → 0 < count t k.ready_list → is_alive k t ≡ true
  member-alive t pos = ground (arith, ready-alive (status k t) (member-ready t pos).0)

  pub ready-Distinct : Distinct k.threads k.ready_list
  ready-Distinct = Distinct-of_count k v k.ready_list (λ t. ground (arith, v.ready t)) member-alive
