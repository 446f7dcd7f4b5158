-- ===== src/Timer/Sleep.antt =====
-- A sleep through a number of timer interrupts.
use cs130_25spring_project.Common.{
  ℕ, zero, suc, ◌+◌, ◌≤◌, ◌≡◌, refl, sym, ap, ◌∙◌, Bool, true, ◌&&◌, Option, some, List, [], ◌∷◌,
  ◌++◌, arith, ◌==◌, ltb, leb, if◌then◌else◌, ◌>>=◌, dec_le,
}
use cs130_25spring_project.Heap.Count.{count, count_mono}
use cs130_25spring_project.Heap.Order.{IsValid}
use cs130_25spring_project.Heap.Pop.{heap_push-IsValid}
use cs130_25spring_project.Timer.{Sleeper, Timer, sleep_que_comp, timer_sleep, timer_interrupt}
use cs130_25spring_project.Timer.Wakeup.{
  tally, is_due, sleep_que_comp-IsOrder, timer_wakeup_threads-Woken,
}

-- So many interrupts in a row, and the threads that they woke.
unfoldable pub interrupts : ℕ → Timer → Option (Timer × List Sleeper)
interrupts zero timer = some (timer, [])
interrupts (suc n) timer = timer_interrupt timer >>= λ (timer₁, woken).
    interrupts n timer₁ >>= λ (timer₂, later). some (timer₂, woken ++ later)

tally-append : (p : Sleeper → Bool) (l m : List Sleeper) → tally p (l ++ m) ≡ tally p l + tally p m
unfolding tally
tally-append p [] m = omega arith
tally-append p (t ∷ l) m = omega (arith, tally-append p l m)

tally_mono :
    (p q : Sleeper → Bool) (l : List Sleeper)
    → ((t : Sleeper) → p t ≡ true → q t ≡ true)
    → tally p l ≤ tally q l
unfolding tally
tally_mono p q [] h = omega arith
tally_mono p q (t ∷ l) h = ground (arith, tally_mono p q l h, h t)

-- After `n` interrupts, the last of them at `timer'.ticks`.
pub record Passed (timer : Timer) (n : ℕ) (timer' : Timer) (woken : List Sleeper) : Type 0 where
  pub valid : IsValid sleep_que_comp timer'.sleep_que
  pub ticks : timer'.ticks ≡ timer.ticks + n
  pub due : tally (λ t. ltb (timer.ticks + n) t.wakeup_tick) woken ≡ 0
  pub left : count (is_due (timer.ticks + n)) timer'.sleep_que.top ≡ 0
  pub all :
      (p : Sleeper → Bool)
      → count p timer.sleep_que.top ≡ tally p woken + count p timer'.sleep_que.top

once :
    (timer : Timer)
    → IsValid sleep_que_comp timer.sleep_que
    → (timer' : Timer) × (woken : List Sleeper) × (timer_interrupt timer ≡ some (timer', woken))
      × Passed timer 1 timer' woken
unfolding timer_interrupt
once timer v =
    let (que, woken, e, w) = timer_wakeup_threads-Woken timer.sleep_que (timer.ticks + 1) v in
    (
      record { ticks = timer.ticks + 1; sleep_que = que },
      woken,
      rw e refl,
      record { valid = w.valid; ticks = refl; due = w.due; left = w.left; all = w.all },
    )

interrupts-Passed :
    (n : ℕ) (timer : Timer)
    → IsValid sleep_que_comp timer.sleep_que
    → (timer' : Timer) × (woken : List Sleeper) × (interrupts (suc n) timer ≡ some (timer', woken))
      × Passed timer (suc n) timer' woken
unfolding interrupts tally
interrupts-Passed zero timer v =
    let (timer', woken, e, w) = once timer v in
    (
      timer',
      woken ++ [],
      rw e refl,
      record {
        valid = w.valid;
        ticks = w.ticks;
        due =
            omega (arith, w.due, tally-append (λ t. ltb (timer.ticks + 1) t.wakeup_tick) woken []);
        left = w.left;
        all = λ p. omega (arith, w.all p, tally-append p woken []);
      },
    )
interrupts-Passed (suc n) timer v =
    let (timer₁, woken, e, w) = once timer v in
    let (timer', later, e', w') = interrupts-Passed n timer₁ w.valid in
    let last : timer₁.ticks + suc n ≡ timer.ticks + suc (suc n) = omega (arith, w.ticks) in
    let p = λ (t : Sleeper). ltb (timer.ticks + suc (suc n)) t.wakeup_tick in
    let early =
      tally_mono p (λ t. ltb (timer.ticks + 1) t.wakeup_tick) woken (λ t h. ground (arith, h)) in
    (
      timer',
      woken ++ later,
      rw (e, e') refl,
      record {
        valid = w'.valid;
        ticks = w'.ticks ∙ last;
        due = omega (
          arith,
          w.due,
          early,
          tally-append p woken later,
          ap (λ k. tally (λ t. ltb k t.wakeup_tick) later) (sym last) ∙ w'.due,
        );
        left = ap (λ k. count (is_due k) timer'.sleep_que.top) (sym last) ∙ w'.left;
        all = λ q. omega (arith, w.all q, w'.all q, tally-append q woken later);
      },
    )

-- The entry of thread `cur` with its tick.
abbrev pub entry_of : (cur tick : ℕ) → Sleeper → Bool
entry_of cur tick t = (t.thread == cur) && (t.wakeup_tick == tick)

-- A thread that sleeps for `k` ticks and has no entry in the queue yet is woken once, and by no
-- interrupt before the `k`-th: it has been woken after `n` interrupts, with `n` positive, exactly
-- if `k ≤ n`. So a sleep of no tick ends at the first interrupt.
pub timer_sleep-interrupts :
    (timer : Timer) (cur k n : ℕ)
    → IsValid sleep_que_comp timer.sleep_que
    → count (entry_of cur (timer.ticks + k)) timer.sleep_que.top ≡ 0
    → (timer' : Timer) × (woken : List Sleeper) × (interrupts (suc n) (timer_sleep timer cur k)
        ≡ some (timer', woken))
      × (tally (entry_of cur (timer.ticks + k)) woken ≡ (if leb k (suc n) then 1 else 0))
unfolding timer_sleep
timer_sleep-interrupts timer cur k n v fresh =
    let (valid, counts) =
      heap_push-IsValid sleep_que_comp sleep_que_comp-IsOrder timer.sleep_que me v in
    let (timer', woken, e, w) = interrupts-Passed n (timer_sleep timer cur k) valid in
    let one : ◌≡◌ {A = ℕ} (if entry_of cur tick me then 1 else 0) 1 = ground arith in
    let total : tally (entry_of cur tick) woken + count (entry_of cur tick) timer'.sleep_que.top
        ≡ 1 =
      omega (arith, w.all (entry_of cur tick), counts (entry_of cur tick), fresh, one) in
    (
      timer',
      woken,
      e,
      elim (dec_le k (suc n)) [
        | yes p ↦
            let gone =
              count_mono (entry_of cur tick) (is_due (timer.ticks + suc n)) timer'.sleep_que.top
                (λ t h. ground (arith, h, p)) in
            ground (arith, total, gone, w.left, p)
        | no p ↦
            let none_yet =
              tally_mono (entry_of cur tick) (λ t. ltb (timer.ticks + suc n) t.wakeup_tick) woken
                (λ t h. ground (arith, h, p)) in
            ground (arith, none_yet, w.due, p)
      ],
    )
  where
    tick : ℕ
    tick = timer.ticks + k

    me : Sleeper
    me = record { thread = cur; wakeup_tick = timer.ticks + k }
