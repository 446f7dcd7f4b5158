-- ===== src/Swap/Tests.antt =====
-- The theorems on swapping at a partition of two slots, the first in use.
use cs130_25spring_project.Common.{
  ℕ, ◌≡◌, refl, true, false, some, none, List, [], ◌∷◌, arith, replicate, length, length-replicate,
}
use cs130_25spring_project.Common.Bits.{bit}
use cs130_25spring_project.Block.{Block}
use cs130_25spring_project.Bitmap.View.{at}
use cs130_25spring_project.Swap.{Swap, swap_out, swap_in}
use cs130_25spring_project.Swap.Roundtrip.{IsValid, SwappedOut, swap_in-swap_out, swap_in-panic}

abbrev partition : Block
partition = record { size = 16; foreign = false; sectors = λ _. []; read_cnt = 0; write_cnt = 0 }

abbrev two_slots : Swap
two_slots = record { device = partition; bitmap = record { bit_cnt = 2; bits = 1 ∷ [] } }

two_slots-IsValid : IsValid two_slots
two_slots-IsValid = record {
  bitmap = omega arith;
  room = omega arith;
  sector32 = omega arith;
  writable = refl;
}

second_free : at two_slots.bitmap 1 ≡ false
unfolding bit
second_free = refl

page_of : ℕ → List ℕ
page_of byte = replicate 4096 byte

length-page_of : (byte : ℕ) → length (page_of byte) ≡ 4096
unfolding page_of
length-page_of byte = length-replicate 4096 byte

swap_in-swap_out_example :
    (s' : Swap) × (slot : ℕ) × (s'' : Swap) × (swap_out two_slots (page_of 7) ≡ some (s', slot))
    × SwappedOut two_slots (page_of 7) slot s'
    × (swap_in s' slot (page_of 0) ≡ some (s'', true, page_of 7))
    × ((j : ℕ) → at s''.bitmap j ≡ at two_slots.bitmap j)
swap_in-swap_out_example =
    swap_in-swap_out two_slots (page_of 7) (page_of 0) 1 two_slots-IsValid (omega arith) second_free
      (length-page_of 7) (length-page_of 0)

swap_in-panic_example : swap_in two_slots 2 (page_of 0) ≡ none
swap_in-panic_example = swap_in-panic two_slots 2 (page_of 0) (omega arith)
