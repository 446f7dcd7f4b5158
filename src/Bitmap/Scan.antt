-- ===== src/Bitmap/Scan.antt =====
-- `bitmap_scan` finds the first group of bits with a value, and `bitmap_scan_and_flip` takes it.
use cs130_25spring_project.Common.{
  ℕ, zero, suc, ◌+◌, ◌-◌, ◌≤◌, ◌<◌, ◌≡◌, refl, ◌≢◌, Bool, true, false, not, some, arith, ◌==◌, leb,
  if◌then◌else◌, le→leb, eq→==, ne→==, ℕ_discrete, dec_le,
}
use cs130_25spring_project.Bitmap.{
  Bitmap, bitmap_error, bitmap_contains, scan_loop, bitmap_scan, bitmap_scan_and_flip,
}
use cs130_25spring_project.Bitmap.View.{IsValid, at, Holds}
use cs130_25spring_project.Bitmap.Range.{
  in_range, Searched, found, absent, bitmap_contains-Searched, bitmap_set_multiple-Holds,
}

-- All of the `cnt` bits from `i` on have the value.
abbrev pub Group : Bitmap → ℕ → ℕ → Bool → Type 0
Group b i cnt value = (k : ℕ) → i ≤ k → k < i + cnt → at b k ≡ value

-- `idx` is the first index from `start` on with a group, or BITMAP_ERROR if there is none.
pub data Scanned (b : Bitmap) (start cnt : ℕ) (value : Bool) : ℕ → Type 0 where
  group :
      {idx : ℕ}
      → start ≤ idx
      → idx + cnt ≤ b.bit_cnt
      → Group b idx cnt value
      → ((i : ℕ) → start ≤ i → i < idx → ¬ (Group b i cnt value))
      → Scanned b start cnt value idx
  no_group :
      {idx : ℕ}
      → idx ≡ bitmap_error
      → ((i : ℕ) → start ≤ i → i + cnt ≤ b.bit_cnt → ¬ (Group b i cnt value))
      → Scanned b start cnt value idx

not-ne : (x y : Bool) → x ≢ not y → x ≡ y
not-ne true true h = refl
not-ne true false h = absurd (h refl)
not-ne false true h = absurd (h refl)
not-ne false false h = refl

not-eq : (x y : Bool) → x ≡ not y → x ≢ y
not-eq true true h = cc
not-eq true false h = λ e. cc
not-eq false true h = λ e. cc
not-eq false false h = cc

Group-of_Searched :
    {b : Bitmap} {i cnt : ℕ} (value : Bool)
    → Searched b i cnt (not value) false
    → Group b i cnt value
Group-of_Searched {b} value (absent out) k p q = not-ne (at b k) value (out k p q)

not-Group_of_Searched :
    {b : Bitmap} {i cnt : ℕ} (value : Bool)
    → Searched b i cnt (not value) true
    → ¬ (Group b i cnt value)
not-Group_of_Searched {b} value (found k p q e) all = not-eq (at b k) value e (all k p q)

-- With `n` candidates left from `i` on, of which the last ends with the bitmap.
scan_loop-Scanned :
    (n : ℕ) {b : Bitmap} (i cnt : ℕ) (value : Bool)
    → IsValid b
    → cnt ≤ b.bit_cnt
    → n ≡ b.bit_cnt - cnt + 1 - i
    → (idx : ℕ) × (scan_loop n b i cnt value ≡ some idx) × Scanned b i cnt value idx
unfolding scan_loop
scan_loop-Scanned zero i cnt value v small e =
    (bitmap_error, refl, no_group refl (λ j p q. absurd (omega arith)))
scan_loop-Scanned (suc n) {b} i cnt value v small e =
    step (bitmap_contains-Searched i cnt (not value) v (omega arith))
      (scan_loop-Scanned n (i + 1) cnt value v small (omega arith))
  where
    shift :
        {idx : ℕ}
        → Searched b i cnt (not value) true
        → Scanned b (i + 1) cnt value idx
        → Scanned b i cnt value idx
    shift bad (group p q all first) = group (omega arith) q all (λ j pj qj. elim (ℕ_discrete i j) [
      | yes eq ↦ rw (← eq) (not-Group_of_Searched value bad)
      | no ne ↦ first j (omega arith) qj
    ])
    shift bad (no_group eq out) = no_group eq (λ j pj qj. elim (ℕ_discrete i j) [
      | yes eq ↦ rw (← eq) (not-Group_of_Searched value bad)
      | no ne ↦ out j (omega arith) qj
    ])

    step :
        (r : Bool) × (bitmap_contains b i cnt (not value) ≡ some r) × Searched b i cnt (not value) r
        → (idx : ℕ) × (scan_loop n b (i + 1) cnt value ≡ some idx) × Scanned b (i + 1) cnt value idx
        → (idx : ℕ) × (scan_loop (suc n) b i cnt value ≡ some idx) × Scanned b i cnt value idx
    step (true, e₁, bad) (idx, e₂, s) = (idx, rw e₁ e₂, shift bad s)
    step (false, e₁, good) (idx, e₂, s) = (
      i,
      rw e₁,
      group (omega arith) (omega arith) (Group-of_Searched value good)
          (λ j p q. absurd (omega arith)),
    )

-- `bitmap_scan` returns the first group from `start` on, or BITMAP_ERROR if there is none.
pub bitmap_scan-Scanned :
    {b : Bitmap} (start cnt : ℕ) (value : Bool)
    → IsValid b
    → start ≤ b.bit_cnt
    → (idx : ℕ) × (bitmap_scan b start cnt value ≡ some idx) × Scanned b start cnt value idx
unfolding bitmap_scan
bitmap_scan-Scanned {b} start cnt value v h = elim (dec_le cnt b.bit_cnt) [
  | yes fits ↦
      rw (le→leb h, le→leb fits)
        (scan_loop-Scanned (b.bit_cnt - cnt + 1 - start) start cnt value v fits refl)
  | no big ↦
      let no_room : leb cnt b.bit_cnt ≡ false = ground arith in
      rw (le→leb h, no_room) (bitmap_error, refl, no_group refl (λ i p q. absurd (omega arith)))
]

-- What scanning and flipping returns: the first group, now flipped; or the bitmap unchanged.
pub data Taken (b : Bitmap) (start cnt : ℕ) (value : Bool) : Bitmap → ℕ → Type 0 where
  taken :
      {b' : Bitmap} {idx : ℕ}
      → start ≤ idx
      → idx + cnt ≤ b.bit_cnt
      → Group b idx cnt value
      → ((i : ℕ) → start ≤ i → i < idx → ¬ (Group b i cnt value))
      → Holds b (λ j. if in_range idx cnt j then not value else at b j) b'
      → Taken b start cnt value b' idx
  full :
      {b' : Bitmap} {idx : ℕ}
      → b' ≡ b
      → idx ≡ bitmap_error
      → ((i : ℕ) → start ≤ i → i + cnt ≤ b.bit_cnt → ¬ (Group b i cnt value))
      → Taken b start cnt value b' idx

-- On a valid bitmap, from a start within it, `bitmap_scan_and_flip` does not panic. It flips exactly
-- the first group of `cnt` bits with the value at or after `start` and returns its place, or it
-- returns `bitmap_error` with the bitmap as it was when there is no such group. With a count of zero
-- every place is a group.
pub bitmap_scan_and_flip-Taken :
    {b : Bitmap} (start cnt : ℕ) (value : Bool)
    → IsValid b
    → start ≤ b.bit_cnt
    → (b' : Bitmap) × (idx : ℕ) × (bitmap_scan_and_flip b start cnt value ≡ some (b', idx))
      × Taken b start cnt value b' idx
unfolding bitmap_scan_and_flip
bitmap_scan_and_flip-Taken {b} start cnt value v h = step (bitmap_scan-Scanned start cnt value v h)
  where
    step :
        (idx : ℕ) × (bitmap_scan b start cnt value ≡ some idx) × Scanned b start cnt value idx
        → (b' : Bitmap) × (idx : ℕ) × (bitmap_scan_and_flip b start cnt value ≡ some (b', idx))
          × Taken b start cnt value b' idx
    step (idx, e, no_group eq out) = (b, idx, rw (e, eq→== eq), full refl eq out)
    step (idx, e, group p q all first) =
        let (b', e', s) = bitmap_set_multiple-Holds idx cnt (not value) v q in
        let ne : (idx == bitmap_error) ≡ false = ne→== (omega (arith, v.small)) in
        (b', idx, rw (e, ne, e'), taken p q all first s)
