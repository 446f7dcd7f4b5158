-- ===== src/Bitmap/View.antt =====
-- What the single-bit routines of bitmap.c do to the array of bits that a bitmap stands for.
use cs130_25spring_project.Common.{
  ℕ, ◌+◌, ◌/◌, ◌%◌, ◌^◌, ◌≤◌, ◌<◌, ◌≡◌, refl, sym, ap, Bool, true, false, not, none, some, arith,
  bit_and, bit_or, bit_xor, ◌==◌, if◌then◌else◌, ℕ_discrete, lt→ltb, ge→ltb, ne→==, length, get_or,
  set, length-set, get_elem?_of_lt, get_or-set_self, get_or-set_ne,
}
use cs130_25spring_project.Common.Bits.{
  bit, bit-bit_and, bit-bit_or, bit-bit_xor, bit_and-pow, bit-mask, bit-complement,
}
use cs130_25spring_project.Bitmap.{
  Bitmap, size_mod, bit_mask, complement, elem_cnt, update, bitmap_mark, bitmap_reset, bitmap_flip,
  bitmap_set, bitmap_test,
}

-- The storage holds an element for every bit, and a bit number fits a `size_t` with a rounding up.
pub record IsValid (b : Bitmap) : Type 0 where
  pub small : b.bit_cnt + 31 < size_mod
  pub storage : elem_cnt b.bit_cnt ≤ length b.bits

-- bit `i`
abbrev pub at : Bitmap → ℕ → Bool
at b i = bit (i % 32) (get_or b.bits (i / 32) 0)

-- `b'` is a valid bitmap of the size of `b` whose bits are `f`.
pub record Holds (b : Bitmap) (f : ℕ → Bool) (b' : Bitmap) : Type 0 where
  pub valid : IsValid b'
  pub size : b'.bit_cnt ≡ b.bit_cnt
  pub bits : (j : ℕ) → at b' j ≡ f j

pub idx-lt : {b : Bitmap} (i : ℕ) → IsValid b → i < b.bit_cnt → i / 32 < length b.bits
idx-lt i v h = omega (arith, v.storage, v.small)

-- Inside the bitmap a test reads the bit; outside it panics.
pub bitmap_test-at :
    {b : Bitmap} (i : ℕ) → IsValid b → i < b.bit_cnt → bitmap_test b i ≡ some (at b i)
unfolding bitmap_test
bitmap_test-at {b} i v h =
    rw (lt→ltb h, get_elem?_of_lt b.bits (i / 32) 0 (idx-lt i v h), bit_and-pow)
      (ap some (not_not _))
  where
    not_not : (x : Bool) → not (not x) ≡ x
    not_not true = refl
    not_not false = refl

pub bitmap_test-panic : (b : Bitmap) (i : ℕ) → b.bit_cnt ≤ i → bitmap_test b i ≡ none
unfolding bitmap_test
bitmap_test-panic b i h = rw (ge→ltb h)

same_word : (i j : ℕ) → i / 32 ≡ j / 32 → (i % 32 == j % 32) ≡ (i == j)
same_word i j e = ground arith

-- An update of the element that holds bit `i` which changes only that bit of the element.
module _ (b : Bitmap) (i : ℕ) (op : ℕ → ℕ) (new : Bool → Bool) where
  abbrev updated : Bitmap
  updated = record b { bits = set b.bits (i / 32) (op (get_or b.bits (i / 32) 0)) }

  updated_bits :
      IsValid b
      → i < b.bit_cnt
      → ((w j : ℕ) → j < 32 → bit j (op w) ≡ (if i % 32 == j then new (bit j w) else bit j w))
      → (j : ℕ) → at updated j ≡ (if i == j then new (at b j) else at b j)
  updated_bits v h law j = elim (ℕ_discrete (i / 32) (j / 32)) [
    | yes e ↦
        let word = get_or b.bits (i / 32) 0 in
        let same : at b j ≡ bit (j % 32) word =
          ap (λ k. bit (j % 32) (get_or b.bits k 0)) (sym e) in
        rw
          (
            ← e,
            get_or-set_self b.bits (i / 32) (op word) 0 (idx-lt i v h),
            law word (j % 32) (omega arith),
            same_word i j e,
          )
          refl
    | no ne ↦
        let apart : (i == j) ≡ false = ne→== (λ e. ne (ap (λ k. k / 32) e)) in
        rw (get_or-set_ne b.bits (i / 32) (j / 32) (op (get_or b.bits (i / 32) 0)) 0 ne, apart)
  ]

  update-Holds :
      IsValid b
      → i < b.bit_cnt
      → ((w j : ℕ) → j < 32 → bit j (op w) ≡ (if i % 32 == j then new (bit j w) else bit j w))
      → (b' : Bitmap) × (update b (i / 32) op ≡ some b')
        × Holds b (λ j. if i == j then new (at b j) else at b j) b'
  unfolding update
  update-Holds v h law =
      let inside = idx-lt i v h in
      (
        updated,
        rw (get_elem?_of_lt b.bits (i / 32) 0 inside),
        record {
          valid = record {
            small = v.small;
            storage =
                omega
                  (arith, v.storage, length-set b.bits (i / 32) (op (get_or b.bits (i / 32) 0)));
          };
          size = refl;
          bits = updated_bits v h law;
        },
      )

module _ {b : Bitmap} (i : ℕ) (v : IsValid b) (h : i < b.bit_cnt) where
  pub bitmap_mark-Holds :
      (b' : Bitmap) × (bitmap_mark b i ≡ some b')
      × Holds b (λ j. if i == j then true else at b j) b'
  unfolding bitmap_mark
  bitmap_mark-Holds =
      update-Holds b i (λ w. bit_or w (bit_mask i)) (λ _. true) v h
        (λ w j hj.
          ground (arith, bit-bit_or j w (2 ^ (i % 32)), bit-mask (i % 32) j (omega arith) hj))

  pub bitmap_reset-Holds :
      (b' : Bitmap) × (bitmap_reset b i ≡ some b')
      × Holds b (λ j. if i == j then false else at b j) b'
  unfolding bitmap_reset
  bitmap_reset-Holds =
      update-Holds b i (λ w. bit_and w (complement (bit_mask i))) (λ _. false) v h
        (λ w j hj. ground (
          arith,
          bit-bit_and j w (complement (bit_mask i)),
          bit-complement (i % 32) j (omega arith) hj,
        ))

  -- `bitmap_flip` of a bit inside a valid bitmap toggles that bit, keeps all others and the size, and
  -- leaves the bitmap valid.
  pub bitmap_flip-Holds :
      (b' : Bitmap) × (bitmap_flip b i ≡ some b')
      × Holds b (λ j. if i == j then not (at b j) else at b j) b'
  unfolding bitmap_flip
  bitmap_flip-Holds =
      update-Holds b i (λ w. bit_xor w (bit_mask i)) not v h
        (λ w j hj.
          ground (arith, bit-bit_xor j w (2 ^ (i % 32)), bit-mask (i % 32) j (omega arith) hj))

  -- `bitmap_set` of a bit inside a valid bitmap gives that bit the value, keeps all others and the
  -- size, and leaves the bitmap valid.
  pub bitmap_set-Holds :
      (value : Bool)
      → (b' : Bitmap) × (bitmap_set b i value ≡ some b')
        × Holds b (λ j. if i == j then value else at b j) b'
  unfolding bitmap_set
  bitmap_set-Holds true = rw (lt→ltb h) bitmap_mark-Holds
  bitmap_set-Holds false = rw (lt→ltb h) bitmap_reset-Holds

pub bitmap_set-panic :
    (b : Bitmap) (i : ℕ) (value : Bool) → b.bit_cnt ≤ i → bitmap_set b i value ≡ none
unfolding bitmap_set
bitmap_set-panic b i value h = rw (ge→ltb h)
