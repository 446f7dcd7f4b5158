-- ===== src/Bitmap/Tests.antt =====
-- bitmap.c at a bitmap of 40 bits, and the theorems there.
use cs130_25spring_project.Common.{ℕ, ◌≡◌, refl, false, some, [], ◌∷◌, arith}
use cs130_25spring_project.Bitmap.{
  Bitmap, bitmap_error, bitmap_flip, bitmap_contains, bitmap_scan, bitmap_scan_and_flip,
  bitmap_test, last_mask,
}
use cs130_25spring_project.Bitmap.View.{IsValid}
use cs130_25spring_project.Bitmap.Scan.{Taken, bitmap_scan_and_flip-Taken}

-- Bits 0 to 3, 31 and 32 are set.
abbrev forty : Bitmap
forty = record { bit_cnt = 40; bits = 0x8000_000f ∷ 1 ∷ [] }

forty-IsValid : IsValid forty
forty-IsValid = omega arith

scan_runs : bitmap_scan forty 0 6 false ≡ some 4
unfolding bitmap_scan bitmap_contains bitmap_test
scan_runs = refl

scan_none : bitmap_scan forty 20 20 false ≡ some bitmap_error
unfolding bitmap_scan bitmap_contains bitmap_test
scan_none = refl

flip_runs : bitmap_flip forty 31 ≡ some (record { bit_cnt = 40; bits = 15 ∷ 1 ∷ [] })
unfolding bitmap_flip
flip_runs = refl

last_mask_runs : last_mask forty ≡ 255
unfolding last_mask
last_mask_runs = refl

bitmap_scan_and_flip-Taken_example :
    (b' : Bitmap) × (idx : ℕ) × (bitmap_scan_and_flip forty 0 6 false ≡ some (b', idx))
    × Taken forty 0 6 false b' idx
bitmap_scan_and_flip-Taken_example =
    bitmap_scan_and_flip-Taken 0 6 false forty-IsValid (omega arith)
