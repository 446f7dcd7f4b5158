-- ===== src/Bitmap/All.antt =====
-- `bitmap_all` and `bitmap_any`, from the search of a range.
use cs130_25spring_project.Common.{ℕ, ◌+◌, ◌≤◌, ◌<◌, ◌≡◌, refl, Bool, true, false, some, arith}
use cs130_25spring_project.Bitmap.{Bitmap, bitmap_contains, bitmap_all}
use cs130_25spring_project.Bitmap.View.{IsValid, at}
use cs130_25spring_project.Bitmap.Range.{Searched, found, absent, bitmap_contains-Searched}

-- `bitmap_all` on a range inside the bitmap is true exactly when every bit of it is set.
pub bitmap_all-lem :
    {b : Bitmap} (start cnt : ℕ)
    → IsValid b
    → start + cnt ≤ b.bit_cnt
    → (r : Bool) × (bitmap_all b start cnt ≡ some r)
      × (r ≡ true → (k : ℕ) → start ≤ k → k < start + cnt → at b k ≡ true)
      × (((k : ℕ) → start ≤ k → k < start + cnt → at b k ≡ true) → r ≡ true)
unfolding bitmap_all
bitmap_all-lem {b} start cnt v h = go (bitmap_contains-Searched start cnt false v h)
  where
    go :
        (r : Bool) × (bitmap_contains b start cnt false ≡ some r) × Searched b start cnt false r
        → (r : Bool) × (bitmap_all b start cnt ≡ some r)
          × (r ≡ true → (k : ℕ) → start ≤ k → k < start + cnt → at b k ≡ true)
          × (((k : ℕ) → start ≤ k → k < start + cnt → at b k ≡ true) → r ≡ true)
    go (true, e, found k p q clear) = (false, rw e, λ f. cc, λ all. cc (all k p q))
    go (false, e, absent out) = (true, rw e, λ _ k p q. ground (arith, out k p q), λ all. refl)
