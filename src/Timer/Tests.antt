-- ===== src/Timer/Tests.antt =====
-- The sleep queue with two threads asleep.
use cs130_25spring_project.Common.{◌+◌, ◌≡◌, refl, some, List}
use cs130_25spring_project.Heap.{Heap, heap_push, meld}
use cs130_25spring_project.Heap.Count.{count, no_root}
use cs130_25spring_project.Heap.Order.{IsValid, IsOrdered}
use cs130_25spring_project.Heap.Pop.{heap_push-IsValid}
use cs130_25spring_project.Timer.{
  Sleeper, Timer, sleep_que_comp, timer_init, timer_sleep, timer_wakeup_threads,
}
use cs130_25spring_project.Timer.Wakeup.{
  Woken, tally, sleep_que_comp-IsOrder, timer_wakeup_threads-Woken,
}
use cs130_25spring_project.Timer.Sleep.{interrupts, entry_of, timer_sleep-interrupts}

timer_init-IsValid : IsValid sleep_que_comp timer_init.sleep_que
unfolding IsOrdered count
timer_init-IsValid = record { root = no_root; ordered = tt; size = refl }

asleep : Timer
asleep = timer_sleep timer_init 7 3

asleep-IsValid : IsValid sleep_que_comp asleep.sleep_que
unfolding asleep timer_sleep
asleep-IsValid =
    (heap_push-IsValid sleep_que_comp sleep_que_comp-IsOrder timer_init.sleep_que
      (record { thread = 7; wakeup_tick = 0 + 3 }) timer_init-IsValid).0

timer_wakeup_threads-Woken_example :
    (que' : Heap Sleeper) × (woken : List Sleeper) × (timer_wakeup_threads asleep.sleep_que 3
      ≡ some (que', woken))
    × Woken asleep.sleep_que 3 que' woken
timer_wakeup_threads-Woken_example = timer_wakeup_threads-Woken asleep.sleep_que 3 asleep-IsValid

other_asleep : count (entry_of 8 2) asleep.sleep_que.top ≡ 0
unfolding asleep timer_sleep count heap_push meld
other_asleep = refl

timer_sleep-interrupts_example :
    (timer' : Timer) × (woken : List Sleeper) × (interrupts 4 (timer_sleep asleep 8 2)
      ≡ some (timer', woken))
    × (tally (entry_of 8 2) woken ≡ 1)
unfolding asleep timer_sleep
timer_sleep-interrupts_example = timer_sleep-interrupts asleep 8 2 3 asleep-IsValid other_asleep
