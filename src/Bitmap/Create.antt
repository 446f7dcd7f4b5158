-- ===== src/Bitmap/Create.antt =====
-- What `bitmap_create` returns, and how the counts of set and clear bits of a range add up.
use cs130_25spring_project.Common.{
  ℕ, ◌+◌, ◌≤◌, ◌<◌, ◌≡◌, refl, true, false, Option, none, some, List, arith, length,
}
use cs130_25spring_project.Bitmap.{Bitmap, size_mod, elem_cnt, bitmap_count, bitmap_create}
use cs130_25spring_project.Bitmap.View.{IsValid, at}
use cs130_25spring_project.Bitmap.Range.{
  tally, bitmap_count-tally, tally-split, bitmap_set_all-Holds,
}

-- With both allocations made and enough storage, `bitmap_create` returns a valid bitmap of the size
-- asked for, with every bit clear, whatever garbage the storage held.
pub bitmap_create-clear :
    (storage : List ℕ) (bit_cnt : ℕ)
    → bit_cnt + 31 < size_mod
    → elem_cnt bit_cnt ≤ length storage
    → (b : Bitmap) × (bitmap_create true (some storage) bit_cnt ≡ some (some b))
      × IsValid b
      × (b.bit_cnt ≡ bit_cnt)
      × ((j : ℕ) → j < bit_cnt → at b j ≡ false)
unfolding bitmap_create
bitmap_create-clear storage bit_cnt small room =
    let raw : Bitmap = record { bit_cnt = bit_cnt; bits = storage } in
    let (b, e, h) =
      bitmap_set_all-Holds {b = raw} false (record { small = small; storage = room }) in
    (b, rw e, h.valid, h.size, λ j hj. ground (arith, h.bits j))

-- A failed allocation gives the null pointer, without a panic; storage for no bits may be null.
pub bitmap_create-null :
    (bit_cnt : ℕ) (storage : Option (List ℕ))
    → (bitmap_create false storage bit_cnt ≡ some none)
      × (0 < bit_cnt → bitmap_create true none bit_cnt ≡ some none)
unfolding bitmap_create
bitmap_create-null bit_cnt storage = (refl, λ h. ground arith)

-- The set bits and the clear bits of a range inside the bitmap make up the range.
pub bitmap_count-split :
    {b : Bitmap} (start cnt : ℕ)
    → IsValid b
    → start + cnt ≤ b.bit_cnt
    → (set clear : ℕ) × (bitmap_count b start cnt true ≡ some set)
      × (bitmap_count b start cnt false ≡ some clear)
      × (set + clear ≡ cnt)
bitmap_count-split {b} start cnt v h = (
  tally b start cnt true,
  tally b start cnt false,
  bitmap_count-tally start cnt true v h,
  bitmap_count-tally start cnt false v h,
  tally-split b cnt start,
)
