-- ===== src/Bitmap/Range.antt =====
-- What the routines of bitmap.c on a range of bits do: set, count and search it.
use cs130_25spring_project.Common.{
  ℕ, zero, suc, ◌+◌, ◌%◌, ◌≤◌, ◌<◌, ◌≡◌, refl, ap, ◌∙◌, ◌≢◌, inl, inr, Bool, true, false, ◌&&◌,
  some, arith, ltb, leb, if◌then◌else◌, le→leb, Bool-cases, ℕ_discrete,
}
use cs130_25spring_project.Bitmap.{
  Bitmap, size_mod, eqb, assert_range, set_loop, bitmap_set_multiple, bitmap_set_all, count_loop,
  bitmap_count, contains_loop, bitmap_contains,
}
use cs130_25spring_project.Bitmap.View.{IsValid, at, Holds, bitmap_test-at, bitmap_set-Holds}

-- `j` is one of the `cnt` bits from `start` on.
abbrev pub in_range : ℕ → ℕ → ℕ → Bool
in_range start cnt j = leb start j && ltb j (start + cnt)

assert_range-ok :
    {b : Bitmap} (start cnt : ℕ)
    → IsValid b
    → start + cnt ≤ b.bit_cnt
    → assert_range b start cnt ≡ some tt
assert_range-ok {b} start cnt v h =
    let small = v.small in
    let a : leb start b.bit_cnt ≡ true = le→leb (omega arith) in
    let c : leb ((start + cnt) % size_mod) b.bit_cnt ≡ true = le→leb (omega arith) in rw (a, c)

-- A number below the size of a valid bitmap does not wrap.
no_wrap : {b : Bitmap} {k : ℕ} → IsValid b → k ≤ b.bit_cnt → k % size_mod ≡ k
no_wrap v h = omega (arith, v.small)

-- From counter `i` on, the loop sets the rest of the range.
set_loop-Holds :
    (n : ℕ) {b : Bitmap} (start i : ℕ) (value : Bool)
    → IsValid b
    → start + i + n ≤ b.bit_cnt
    → (b' : Bitmap) × (set_loop n b start i value ≡ some b')
      × Holds b (λ j. if in_range (start + i) n j then value else at b j) b'
unfolding set_loop
set_loop-Holds zero {b} start i value v h =
    (b, refl, record { valid = v; size = refl; bits = λ j. ground arith })
set_loop-Holds (suc n) {b} start i value v h =
    let (b₁, e₁, s₁) = bitmap_set-Holds (start + i) v (omega arith) value in
    let size₁ = s₁.size in
    let (b₂, e₂, s₂) = set_loop-Holds n start (i + 1) value s₁.valid (omega arith) in
    (
      b₂,
      rw (no_wrap {k = start + i} v (omega arith), e₁) e₂,
      record {
        valid = s₂.valid;
        size = s₂.size ∙ s₁.size;
        bits = λ j. ground (arith, s₂.bits j, s₁.bits j);
      },
    )

-- `bitmap_set_multiple` on a range inside the bitmap sets the range and nothing else.
pub bitmap_set_multiple-Holds :
    {b : Bitmap} (start cnt : ℕ) (value : Bool)
    → IsValid b
    → start + cnt ≤ b.bit_cnt
    → (b' : Bitmap) × (bitmap_set_multiple b start cnt value ≡ some b')
      × Holds b (λ j. if in_range start cnt j then value else at b j) b'
unfolding bitmap_set_multiple
bitmap_set_multiple-Holds {b} start cnt value v h =
    let (b', e, s) = set_loop-Holds cnt start 0 value v (omega arith) in
    (
      b',
      rw (assert_range-ok start cnt v h) e,
      record { valid = s.valid; size = s.size; bits = λ j. ground (arith, s.bits j) },
    )

pub bitmap_set_all-Holds :
    {b : Bitmap} (value : Bool)
    → IsValid b
    → (b' : Bitmap) × (bitmap_set_all b value ≡ some b')
      × Holds b (λ j. if ltb j b.bit_cnt then value else at b j) b'
unfolding bitmap_set_all
bitmap_set_all-Holds {b} value v =
    let (b', e, s) = bitmap_set_multiple-Holds 0 b.bit_cnt value v (omega arith) in
    (b', e, record { valid = s.valid; size = s.size; bits = λ j. ground (arith, s.bits j) })

-- How many of the `n` bits from `i` on have the value, and whether one has.
pub tally : Bitmap → ℕ → ℕ → Bool → ℕ
tally b i zero value = 0
tally b i (suc n) value = (if eqb (at b i) value then 1 else 0) + tally b (i + 1) n value

count_loop-tally :
    (n : ℕ) {b : Bitmap} (start i : ℕ) (value : Bool) (acc : ℕ)
    → IsValid b
    → start + i + n ≤ b.bit_cnt
    → count_loop n b start i value acc ≡ some (acc + tally b (start + i) n value)
unfolding count_loop tally
count_loop-tally zero start i value acc v h = ap some (omega arith)
count_loop-tally (suc n) {b} start i value acc v h =
    let next : start + (i + 1) ≡ start + i + 1 = omega arith in
    rw
      (
        no_wrap {k = start + i} v (omega arith),
        bitmap_test-at (start + i) v (omega arith),
        count_loop-tally n start (i + 1) value
            (if eqb (at b (start + i)) value then acc + 1 else acc) v (omega arith),
        next,
      )
      (ground arith)

pub bitmap_count-tally :
    {b : Bitmap} (start cnt : ℕ) (value : Bool)
    → IsValid b
    → start + cnt ≤ b.bit_cnt
    → bitmap_count b start cnt value ≡ some (tally b start cnt value)
unfolding bitmap_count
bitmap_count-tally {b} start cnt value v h =
    let z : start + 0 ≡ start = omega arith in
    rw (assert_range-ok start cnt v h, count_loop-tally cnt start 0 value 0 v (omega arith), z)
      (ap some (omega arith))

-- Every bit of a range is counted once: set or clear.
pub tally-split : (b : Bitmap) (n i : ℕ) → tally b i n true + tally b i n false ≡ n
unfolding tally
tally-split b zero i = refl
tally-split b (suc n) i = ground (arith, tally-split b n (i + 1))

pub eqb-eq : (a b : Bool) → eqb a b ≡ true → a ≡ b
eqb-eq a b h = ground arith

pub eqb-ne : (a b : Bool) → eqb a b ≡ false → a ≢ b
eqb-ne a b h = ground arith

-- `r` says whether one of the `n` bits from `i` on has the value: with such a bit if it is true.
pub data Searched (b : Bitmap) (i n : ℕ) (value : Bool) : Bool → Type 0 where
  found : (k : ℕ) → i ≤ k → k < i + n → at b k ≡ value → Searched b i n value true
  absent : ((k : ℕ) → i ≤ k → k < i + n → at b k ≢ value) → Searched b i n value false

contains_loop-Searched :
    (n : ℕ) {b : Bitmap} (start i : ℕ) (value : Bool)
    → IsValid b
    → start + i + n ≤ b.bit_cnt
    → (r : Bool) × (contains_loop n b start i value ≡ some r) × Searched b (start + i) n value r
unfolding contains_loop
contains_loop-Searched zero start i value v h =
    (false, refl, absent (λ k p q. absurd (omega arith)))
contains_loop-Searched (suc n) {b} start i value v h =
    step (contains_loop-Searched n start (i + 1) value v (omega arith))
  where
    later :
        (r : Bool)
        → eqb (at b (start + i)) value ≡ false
        → Searched b (start + (i + 1)) n value r
        → Searched b (start + i) (suc n) value r
    later true miss (found k p q e) = found k (omega arith) (omega arith) e
    later false miss (absent out) = absent (λ k p q. elim (ℕ_discrete (start + i) k) [
      | yes e ↦ rw (← e) (eqb-ne _ _ miss)
      | no ne ↦ out k (omega arith) (omega arith)
    ])

    step :
        (r : Bool) × (contains_loop n b start (i + 1) value ≡ some r)
          × Searched b (start + (i + 1)) n value r
        → (r : Bool) × (contains_loop (suc n) b start i value ≡ some r)
          × Searched b (start + i) (suc n) value r
    step (r, e, s) =
        let test = bitmap_test-at (start + i) v (omega arith) in
        let wrap = no_wrap {k = start + i} v (omega arith) in
        elim (Bool-cases (eqb (at b (start + i)) value)) [
          | inl hit ↦ (
            true,
            rw (wrap, test, hit),
            found (start + i) (omega arith) (omega arith) (eqb-eq _ _ hit),
          )
          | inr miss ↦ (r, rw (wrap, test, miss) e, later r miss s)
        ]

-- `bitmap_contains` on a range inside the bitmap says whether a bit of it has the value.
pub bitmap_contains-Searched :
    {b : Bitmap} (start cnt : ℕ) (value : Bool)
    → IsValid b
    → start + cnt ≤ b.bit_cnt
    → (r : Bool) × (bitmap_contains b start cnt value ≡ some r) × Searched b start cnt value r
unfolding bitmap_contains
bitmap_contains-Searched {b} start cnt value v h =
    let (r, e, s) = contains_loop-Searched cnt start 0 value v (omega arith) in
    let z : start + 0 ≡ start = omega arith in (r, rw (assert_range-ok start cnt v h) e, rw z at s)
