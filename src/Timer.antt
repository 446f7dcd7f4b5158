-- ===== src/Timer.antt =====
-- src/devices/timer.c: the queue of sleeping threads. Ticks are the non-negative values of
-- `int64_t`. `thread_tick` and the periodic statistics of the scheduler are left out of the
-- interrupt handler.
pub mod Wakeup
pub mod Sleep
mod Tests
use cs130_25spring_project.Common.{
  ℕ, zero, suc, ◌+◌, Bool, Option, none, some, List, [], ◌∷◌, ltb, if◌then◌else◌, ◌>>=◌,
}
use cs130_25spring_project.Heap.{Heap, heap_init, heap_push, heap_pop, heap_top, heap_empty}

-- The thread in the queue, by its identifier.
pub record Sleeper : Type 0 where
  pub thread : ℕ
  pub wakeup_tick : ℕ

pub record Timer : Type 0 where
  pub ticks : ℕ
  pub sleep_que : Heap Sleeper

unfoldable pub sleep_que_comp : Sleeper → Sleeper → Bool
sleep_que_comp a b = ltb b.wakeup_tick a.wakeup_tick

abbrev pub timer_init : Timer
timer_init = record { ticks = 0; sleep_que = heap_init }

-- `cur` is the running thread, which blocks then.
unfoldable pub timer_sleep : Timer → (cur ticks : ℕ) → Timer
timer_sleep timer cur ticks = record timer {
  sleep_que =
      heap_push sleep_que_comp timer.sleep_que
        (record { thread = cur; wakeup_tick = timer.ticks + ticks });
}

-- The loop, on fuel; the threads that it unblocks, in order.
unfoldable pub wakeup_rounds : ℕ → Heap Sleeper → (ticks : ℕ) → Option (Heap Sleeper × List Sleeper)
wakeup_rounds zero que ticks = if heap_empty que then some (que, []) else none
wakeup_rounds (suc fuel) que ticks =
    if heap_empty que
    then some (que, [])
    else (heap_top que >>= λ t.
        if ltb ticks t.wakeup_tick
        then some (que, [])
        else (heap_pop sleep_que_comp que >>= λ (que', popped).
            wakeup_rounds fuel que' ticks >>= λ (que'', woken). some (que'', t ∷ woken)))

unfoldable pub timer_wakeup_threads :
    Heap Sleeper → (ticks : ℕ) → Option (Heap Sleeper × List Sleeper)
timer_wakeup_threads que ticks = wakeup_rounds que.size que ticks

unfoldable pub timer_interrupt : Timer → Option (Timer × List Sleeper)
timer_interrupt timer =
    let ticks = timer.ticks + 1 in
    timer_wakeup_threads timer.sleep_que ticks >>= λ (que, woken).
    some (record { ticks = ticks; sleep_que = que }, woken)
