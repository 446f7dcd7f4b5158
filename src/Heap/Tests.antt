-- ===== src/Heap/Tests.antt =====
-- A heap of numbers.
use cs130_25spring_project.Common.{ℕ, ◌≡◌, refl, Option, some, arith, ltb}
use cs130_25spring_project.Heap.{Heap, heap_init, heap_push, heap_pop}
use cs130_25spring_project.Heap.Count.{count, no_root}
use cs130_25spring_project.Heap.Order.{IsOrder, IsValid, IsOrdered}
use cs130_25spring_project.Heap.Pop.{Popped, heap_push-IsValid, heap_pop-Popped}

ltb-IsOrder : IsOrder ltb
ltb-IsOrder = record {
  asym = λ a b h. ground (arith, h);
  trans = λ a b c h k. ground (arith, h, k);
}

heap_init-IsValid : IsValid ltb heap_init
unfolding IsOrdered count
heap_init-IsValid = record { root = no_root; ordered = tt; size = refl }

abbrev three : Heap ℕ
three = heap_push ltb (heap_push ltb (heap_push ltb heap_init 4) 9) 6

two-IsValid : IsValid ltb (heap_push ltb (heap_push ltb heap_init 4) 9)
two-IsValid =
    (heap_push-IsValid ltb ltb-IsOrder (heap_push ltb heap_init 4) 9
      (heap_push-IsValid ltb ltb-IsOrder heap_init 4 heap_init-IsValid).0).0

three-IsValid : IsValid ltb three
three-IsValid =
    (heap_push-IsValid ltb ltb-IsOrder (heap_push ltb (heap_push ltb heap_init 4) 9) 6
      two-IsValid).0

heap_pop-Popped_example :
    (heap' : Heap ℕ) × (r : Option ℕ) × (heap_pop ltb three ≡ some (heap', r))
    × IsValid ltb heap'
    × Popped ltb three heap' r
heap_pop-Popped_example = heap_pop-Popped ltb ltb-IsOrder three three-IsValid
