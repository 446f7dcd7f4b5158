-- ===== src/Timer/Wakeup.antt =====
-- The threads that wake are those whose time has come.
use cs130_25spring_project.Common.{
  ℕ, zero, suc, ◌+◌, ◌≤◌, ◌≡◌, refl, inl, inr, Bool, true, false, Option, some, List, [], ◌∷◌,
  arith, ◌==◌, ltb, leb, if◌then◌else◌, Bool-cases, eq→==, ne→==,
}
use cs130_25spring_project.Heap.{Heap, heap_pop, heap_empty}
use cs130_25spring_project.Heap.Count.{count, count_mono}
use cs130_25spring_project.Heap.Order.{IsOrder, IsValid}
use cs130_25spring_project.Heap.Pop.{Popped, empty, popped, heap_pop-Popped}
use cs130_25spring_project.Timer.{Sleeper, sleep_que_comp, wakeup_rounds, timer_wakeup_threads}

pub sleep_que_comp-IsOrder : IsOrder sleep_que_comp
unfolding sleep_que_comp
sleep_que_comp-IsOrder = record {
  asym = λ a b h. ground (arith, h);
  trans = λ a b c h k. ground (arith, h, k);
}

unfoldable pub tally : (Sleeper → Bool) → List Sleeper → ℕ
tally p [] = 0
tally p (t ∷ l) = (if p t then 1 else 0) + tally p l

abbrev pub is_due : ℕ → Sleeper → Bool
is_due ticks t = leb t.wakeup_tick ticks

-- The threads woken are due, none that is due is left, and each thread was woken or is left.
pub record Woken (que : Heap Sleeper) (ticks : ℕ) (que' : Heap Sleeper) (woken : List Sleeper)
    : Type 0 where
  pub valid : IsValid sleep_que_comp que'
  pub due : tally (λ t. ltb ticks t.wakeup_tick) woken ≡ 0
  pub left : count (is_due ticks) que'.top ≡ 0
  pub all : (p : Sleeper → Bool) → count p que.top ≡ tally p woken + count p que'.top

module _ (que : Heap Sleeper) (ticks : ℕ) (v : IsValid sleep_que_comp que) where
  -- The thread at the top is not due: none is.
  stop :
      (t : Sleeper)
      → count (sleep_que_comp t) que.top ≡ 0
      → ltb ticks t.wakeup_tick ≡ true
      → Woken que ticks que []
  unfolding tally sleep_que_comp
  stop t greatest later =
      let le =
        count_mono (is_due ticks) (sleep_que_comp t) que.top (λ a h. ground (arith, h, later)) in
      record { valid = v; due = refl; left = omega arith; all = λ p. omega arith }

  nobody : que.size ≡ 0 → Woken que ticks que []
  unfolding tally
  nobody e =
      let le = count_mono (is_due ticks) (λ t. true) que.top (λ a h. refl) in
      record { valid = v; due = refl; left = omega (arith, v.size); all = λ p. omega arith }

  -- The thread at the top is woken, then others.
  next :
      (t : Sleeper) (que' : Heap Sleeper)
      → ltb ticks t.wakeup_tick ≡ false
      → ((p : Sleeper → Bool) → count p que.top ≡ (if p t then 1 else 0) + count p que'.top)
      → {que'' : Heap Sleeper} {woken : List Sleeper} → Woken que' ticks que'' woken
      → Woken que ticks que'' (t ∷ woken)
  unfolding tally
  next t que' now counts w = record {
    valid = w.valid;
    due = rw now (omega (arith, w.due));
    left = w.left;
    all = λ p. omega (arith, counts p, w.all p);
  }

wakeup_rounds-Woken :
    (fuel : ℕ) (que : Heap Sleeper) (ticks : ℕ)
    → que.size ≤ fuel
    → IsValid sleep_que_comp que
    → (que' : Heap Sleeper) × (woken : List Sleeper) × (wakeup_rounds fuel que ticks
        ≡ some (que', woken))
      × Woken que ticks que' woken
unfolding wakeup_rounds heap_empty
wakeup_rounds-Woken zero que ticks h v =
    let none_left : que.size ≡ 0 = omega arith in
    (que, [], rw (eq→== none_left) refl, nobody que ticks v none_left)
wakeup_rounds-Woken (suc fuel) que ticks h v =
    go (λ que' h' v'. wakeup_rounds-Woken fuel que' ticks h' v')
      (heap_pop-Popped sleep_que_comp sleep_que_comp-IsOrder que v)
  where
    go :
        ((que' : Heap Sleeper)
          → que'.size ≤ fuel
          → IsValid sleep_que_comp que'
          → (que'' : Heap Sleeper) × (woken : List Sleeper) × (wakeup_rounds fuel que' ticks
              ≡ some (que'', woken))
            × Woken que' ticks que'' woken)
        → (que' : Heap Sleeper) × (r : Option Sleeper) × (heap_pop sleep_que_comp que
            ≡ some (que', r))
          × IsValid sleep_que_comp que'
          × Popped sleep_que_comp que que' r
        → (que' : Heap Sleeper) × (woken : List Sleeper) × (wakeup_rounds (suc fuel) que ticks
            ≡ some (que', woken))
          × Woken que ticks que' woken
    go more (que', r, e, v', empty none_left same) =
        (que, [], rw (eq→== none_left) refl, nobody que ticks v none_left)
    go more (que', r, e, v', popped t top greatest counts) =
        let less_one = counts (λ a. true) in
        let some_left : (que.size == 0) ≡ false = ne→== (omega (arith, v.size)) in
        elim (Bool-cases (ltb ticks t.wakeup_tick)) [
          | inl later ↦
              (que, [], rw (some_left, top, later) refl, stop que ticks v t greatest later)
          | inr now ↦
              let (que'', woken, e', w) = more que' (omega (arith, v.size, v'.size)) v' in
              (
                que'',
                t ∷ woken,
                rw (some_left, top, now, e, e') refl,
                next que ticks v t que' now counts w,
              )
        ]

-- `timer_wakeup_threads` on a well-formed queue always returns. It wakes threads whose tick has
-- come and no other, leaves none such in the queue, and loses no thread.
pub timer_wakeup_threads-Woken :
    (que : Heap Sleeper) (ticks : ℕ)
    → IsValid sleep_que_comp que
    → (que' : Heap Sleeper) × (woken : List Sleeper) × (timer_wakeup_threads que ticks
        ≡ some (que', woken))
      × Woken que ticks que' woken
unfolding timer_wakeup_threads
timer_wakeup_threads-Woken que ticks v = wakeup_rounds-Woken que.size que ticks (omega arith) v
