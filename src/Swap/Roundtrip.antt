-- ===== src/Swap/Roundtrip.antt =====
-- A page that is swapped out comes back byte for byte, and no other slot in use is touched.
use cs130_25spring_project.Common.{
  ℕ, ◌+◌, ◌-◌, ◌*◌, ◌^◌, ◌≤◌, ◌<◌, ◌≡◌, refl, ap, ◌∙◌, ◌≢◌, true, false, none, some, List, ◌==◌,
  leb, if◌then◌else◌, arith, length, Bool-cases, inl, inr, ne→==, eq→==,
}
use cs130_25spring_project.Block.{Block}
use cs130_25spring_project.Bitmap.{Bitmap, bitmap_error, bitmap_scan_and_flip, bitmap_set}
use cs130_25spring_project.Bitmap.View
use cs130_25spring_project.Bitmap.View.{
  at, Holds, bitmap_test-at, bitmap_test-panic, bitmap_set-Holds,
}
use cs130_25spring_project.Bitmap.Range.{in_range}
use cs130_25spring_project.Bitmap.Scan.{Taken, taken, full, Group, bitmap_scan_and_flip-Taken}
use cs130_25spring_project.Swap.{Swap, slot_err, write_loop, read_loop, swap_out, swap_in}
use cs130_25spring_project.Swap.Loops.{part, Written, write_loop-Written, read_loop-page}

-- Every slot of the bitmap lies on the device.
pub record IsValid (s : Swap) : Type 0 where
  pub bitmap : View.IsValid s.bitmap
  pub room : s.bitmap.bit_cnt * 8 ≤ s.device.size
  pub sector32 : s.device.size < 2 ^ 32
  pub writable : s.device.foreign ≡ false

-- The slot holds the page.
abbrev pub Stores : Swap → ℕ → List ℕ → Type 0
Stores s slot page = (k : ℕ) → k < 8 → s.device.sectors (slot * 8 + k) ≡ part page k

-- What `swap_out` leaves when it finds a slot: that slot was free, is in use now and holds the
-- page; the other slots are in use as before and hold what they held.
pub record SwappedOut (s : Swap) (page : List ℕ) (slot : ℕ) (s' : Swap) : Type 0 where
  pub valid : IsValid s'
  pub inside : slot < s.bitmap.bit_cnt
  pub was_free : at s.bitmap slot ≡ false
  pub slots : (j : ℕ) → at s'.bitmap j ≡ (if slot == j then true else at s.bitmap j)
  pub cnt : s'.bitmap.bit_cnt ≡ s.bitmap.bit_cnt
  pub stores : Stores s' slot page
  pub others :
      (j k : ℕ) → j ≢ slot → k < 8 → s'.device.sectors (j * 8 + k) ≡ s.device.sectors (j * 8 + k)

pub data OutResult (s : Swap) (page : List ℕ) : Swap → ℕ → Type 0 where
  out : {s' : Swap} {slot : ℕ} → SwappedOut s page slot s' → OutResult s page s' slot
  no_slot :
      {s' : Swap} {slot : ℕ}
      → s' ≡ s
      → slot ≡ slot_err
      → ((j : ℕ) → j < s.bitmap.bit_cnt → at s.bitmap j ≡ true)
      → OutResult s page s' slot

true_of_not-Group : (b : Bitmap) (j : ℕ) → ¬ (Group b j 1 false) → at b j ≡ true
true_of_not-Group b j h = elim (Bool-cases (at b j)) [
  | inl e ↦ e
  | inr e ↦ absurd (h (λ k p q. let same : j ≡ k = omega arith in rw (← same) e))
]

-- The bitmap with the slot taken and the device with the page written make up the new state.
swapped :
    (s : Swap) (page : List ℕ) {b' : Bitmap} {dev' : Block} (slot : ℕ)
    → IsValid s
    → slot + 1 ≤ s.bitmap.bit_cnt
    → Group s.bitmap slot 1 false
    → Holds s.bitmap (λ j. if in_range slot 1 j then true else at s.bitmap j) b'
    → Written s.device slot 0 8 page dev'
    → SwappedOut s page slot (record { device = dev'; bitmap = b' })
swapped s page slot v h free held w = record {
  valid = record {
    bitmap = held.valid;
    room = omega (arith, v.room, w.size, held.size);
    sector32 = omega (arith, v.sector32, w.size);
    writable = w.foreign ∙ v.writable;
  };
  inside = omega arith;
  was_free = free slot (omega arith) (omega arith);
  slots = λ j. ground (arith, held.bits j);
  cnt = held.size;
  stores = λ k hk.
      let back : slot * 8 + k - slot * 8 ≡ k = omega arith in
      ground (arith, w.sectors (slot * 8 + k), ap (part page) back);
  others = λ j k ne hk. ground (arith, w.sectors (j * 8 + k));
}

-- `swap_out` on a valid state returns; it fails only when every slot is in use, and changes
-- nothing then.
pub swap_out-OutResult :
    (s : Swap) (page : List ℕ)
    → IsValid s
    → (s' : Swap) × (slot : ℕ) × (swap_out s page ≡ some (s', slot)) × OutResult s page s' slot
unfolding swap_out
swap_out-OutResult s page v =
    flip_step (bitmap_scan_and_flip-Taken 0 1 false v.bitmap (omega arith))
  where
    write_step :
        {b' : Bitmap} {idx : ℕ}
        → bitmap_scan_and_flip s.bitmap 0 1 false ≡ some (b', idx)
        → idx + 1 ≤ s.bitmap.bit_cnt
        → Group s.bitmap idx 1 false
        → Holds s.bitmap (λ j. if in_range idx 1 j then true else at s.bitmap j) b'
        → (dev' : Block) × (write_loop 8 s.device idx 0 page ≡ some dev')
          × Written s.device idx 0 8 page dev'
        → (s' : Swap) × (slot : ℕ) × (swap_out s page ≡ some (s', slot)) × OutResult s page s' slot
    write_step {b'} {idx} e q free held (dev', ew, w) =
        let ne : (idx == bitmap_error) ≡ false = ne→== (omega (arith, v.bitmap.small)) in
        (
          record { device = dev'; bitmap = b' },
          idx,
          rw (e, ne, ew),
          out (swapped s page idx v q free held w),
        )

    flip_step :
        (b' : Bitmap) × (idx : ℕ) × (bitmap_scan_and_flip s.bitmap 0 1 false ≡ some (b', idx))
          × Taken s.bitmap 0 1 false b' idx
        → (s' : Swap) × (slot : ℕ) × (swap_out s page ≡ some (s', slot)) × OutResult s page s' slot
    flip_step (b', idx, e, full eb ei none_free) = (
      record s { bitmap = b' },
      slot_err,
      rw (e, eq→== ei),
      no_slot (ap (λ b. record s { bitmap = b }) eb) refl
          (λ j h. true_of_not-Group s.bitmap j (none_free j (omega arith) (omega arith))),
    )
    flip_step (b', idx, e, taken p q all first held) = write_step e q all held (
        write_loop-Written 8 s.device idx 0 page (omega (arith, v.room)) v.sector32 v.writable
          (omega arith))

-- Reading a slot in use that holds a page gives the page back whatever the buffer held, frees that
-- slot, and keeps all else.
pub swap_in-Stores :
    (s : Swap) (slot : ℕ) (page buf : List ℕ)
    → IsValid s
    → slot < s.bitmap.bit_cnt
    → at s.bitmap slot ≡ true
    → Stores s slot page
    → length page ≡ 4096
    → length buf ≡ 4096
    → (s' : Swap) × (swap_in s slot buf ≡ some (s', true, page))
      × IsValid s'
      × ((j : ℕ) → at s'.bitmap j ≡ (if slot == j then false else at s.bitmap j))
      × (s'.device.sectors ≡ s.device.sectors)
unfolding swap_in
swap_in-Stores s slot page buf v h used stored hp hb =
    step
      (read_loop-page 8 s.device slot 0 buf page (omega (arith, v.room)) v.sector32 hp hb
        (omega arith) stored refl)
      (bitmap_set-Holds slot v.bitmap h false)
  where
    step :
        (dev' : Block) × (read_loop 8 s.device slot 0 buf ≡ some (page, dev'))
          × (dev'.sectors ≡ s.device.sectors)
          × (dev'.size ≡ s.device.size)
          × (dev'.foreign ≡ s.device.foreign)
        → (b' : Bitmap) × (bitmap_set s.bitmap slot false ≡ some b')
          × Holds s.bitmap (λ j. if slot == j then false else at s.bitmap j) b'
        → (s' : Swap) × (swap_in s slot buf ≡ some (s', true, page))
          × IsValid s'
          × ((j : ℕ) → at s'.bitmap j ≡ (if slot == j then false else at s.bitmap j))
          × (s'.device.sectors ≡ s.device.sectors)
    step (dev', er, es, ez, ef) (b', eb, held) =
        let small : leb s.bitmap.bit_cnt slot ≡ false = ground arith in
        (
          record { device = dev'; bitmap = b' },
          rw (bitmap_test-at slot v.bitmap h, used, small, er, eb),
          record {
            bitmap = held.valid;
            room = omega (arith, v.room, ez, held.size);
            sector32 = omega (arith, v.sector32, ez);
            writable = ef ∙ v.writable;
          },
          held.bits,
          es,
        )

-- On a slot that is not in use `swap_in` returns false and changes nothing.
pub swap_in-unused :
    (s : Swap) (slot : ℕ) (buf : List ℕ)
    → IsValid s
    → slot < s.bitmap.bit_cnt
    → at s.bitmap slot ≡ false
    → swap_in s slot buf ≡ some (s, false, buf)
unfolding swap_in
swap_in-unused s slot buf v h unused =
    let small : leb s.bitmap.bit_cnt slot ≡ false = ground arith in
    rw (bitmap_test-at slot v.bitmap h, unused, small)

-- On a slot past the end of the bitmap `swap_in` does not return false: the test of its bit panics.
pub swap_in-panic :
    (s : Swap) (slot : ℕ) (buf : List ℕ) → s.bitmap.bit_cnt ≤ slot → swap_in s slot buf ≡ none
unfolding swap_in
swap_in-panic s slot buf h = rw (bitmap_test-panic s.bitmap slot h)

-- What is swapped out comes back: with a free slot, `swap_out` puts the page in a slot that was
-- free, and `swap_in` of that slot then gives the page, whatever its buffer held, and frees the
-- slot, so that the slots in use are those from before.
pub swap_in-swap_out :
    (s : Swap) (page buf : List ℕ) (free_slot : ℕ)
    → IsValid s
    → free_slot < s.bitmap.bit_cnt
    → at s.bitmap free_slot ≡ false
    → length page ≡ 4096
    → length buf ≡ 4096
    → (s' : Swap) × (slot : ℕ) × (s'' : Swap) × (swap_out s page ≡ some (s', slot))
      × SwappedOut s page slot s'
      × (swap_in s' slot buf ≡ some (s'', true, page))
      × ((j : ℕ) → at s''.bitmap j ≡ at s.bitmap j)
swap_in-swap_out s page buf free_slot v inside free hp hb = go (swap_out-OutResult s page v)
  where
    go :
        (s' : Swap) × (slot : ℕ) × (swap_out s page ≡ some (s', slot)) × OutResult s page s' slot
        → (s' : Swap) × (slot : ℕ) × (s'' : Swap) × (swap_out s page ≡ some (s', slot))
          × SwappedOut s page slot s'
          × (swap_in s' slot buf ≡ some (s'', true, page))
          × ((j : ℕ) → at s''.bitmap j ≡ at s.bitmap j)
    go (s', slot, e, no_slot es ei used) = cc (used free_slot inside)
    go (s', slot, e, out o) =
        let used : at s'.bitmap slot ≡ true = ground (arith, o.slots slot) in
        let (s'', e', v', slots, same) =
          swap_in-Stores s' slot page buf o.valid (omega (arith, o.inside, o.cnt)) used o.stores hp
            hb in
        (
          s',
          slot,
          s'',
          e,
          o,
          e',
          λ j. ground (arith, slots j, o.slots j, o.was_free, ap (at s.bitmap) {x = slot} {y = j}),
        )
