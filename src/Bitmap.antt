-- ===== src/Bitmap.antt =====
-- src/lib/kernel/bitmap.c: an array of bits packed into 32-bit elements. A routine that changes
-- the bitmap returns the new one; `none` is a failed ASSERT or an access outside the storage.
pub mod View
pub mod Range
pub mod All
pub mod Scan
pub mod Create
mod Tests
use cs130_25spring_project.Common.{
  ℕ, zero, suc, ◌+◌, ◌-◌, ◌*◌, ◌/◌, ◌%◌, ◌^◌, Bool, true, false, not, Option, none, some, List, [],
  bit_and, bit_or, bit_xor, ◌==◌, ltb, leb, if◌then◌else◌, ◌>>=◌, ◌>>◌, assert, get_elem?, set,
}

-- `struct bitmap`
pub record Bitmap : Type 0 where
  pub bit_cnt : ℕ
  pub bits : List ℕ

-- `size_t` and `elem_type` have 32 bits.
abbrev pub size_mod : ℕ
size_mod = 2 ^ 32

abbrev pub elem_bits : ℕ
elem_bits = 32

-- `SIZE_MAX`
abbrev pub bitmap_error : ℕ
bitmap_error = 2 ^ 32 - 1

abbrev pub elem_idx : ℕ → ℕ
elem_idx bit_idx = bit_idx / elem_bits

abbrev pub bit_mask : ℕ → ℕ
bit_mask bit_idx = 2 ^ (bit_idx % elem_bits)

-- `~mask`
abbrev pub complement : ℕ → ℕ
complement mask = size_mod - 1 - mask

abbrev pub elem_cnt : ℕ → ℕ
elem_cnt bit_cnt = (bit_cnt + (elem_bits - 1)) % size_mod / elem_bits

abbrev pub byte_cnt : ℕ → ℕ
byte_cnt bit_cnt = 4 * elem_cnt bit_cnt % size_mod

pub last_mask : Bitmap → ℕ
last_mask b =
    let last_bits = b.bit_cnt % elem_bits in
    if last_bits == 0 then size_mod - 1 else (2 ^ last_bits + size_mod - 1) % size_mod

-- `b->bits[idx] = op (b->bits[idx])`
update : Bitmap → ℕ → (ℕ → ℕ) → Option Bitmap
update b idx op = do w ← get_elem? b.bits idx; some (record b { bits = set b.bits idx (op w) })

pub bitmap_mark : Bitmap → ℕ → Option Bitmap
unfolding update
bitmap_mark b bit_idx = update b (elem_idx bit_idx) (λ w. bit_or w (bit_mask bit_idx))

pub bitmap_reset : Bitmap → ℕ → Option Bitmap
unfolding update
bitmap_reset b bit_idx =
    update b (elem_idx bit_idx) (λ w. bit_and w (complement (bit_mask bit_idx)))

pub bitmap_flip : Bitmap → ℕ → Option Bitmap
unfolding update
bitmap_flip b bit_idx = update b (elem_idx bit_idx) (λ w. bit_xor w (bit_mask bit_idx))

pub bitmap_set : Bitmap → ℕ → Bool → Option Bitmap
bitmap_set b idx value = do
  assert (ltb idx b.bit_cnt)
  if value then bitmap_mark b idx else bitmap_reset b idx

pub bitmap_test : Bitmap → ℕ → Option Bool
bitmap_test b idx = do
  assert (ltb idx b.bit_cnt)
  w ← get_elem? b.bits (elem_idx idx)
  some (not (bit_and w (bit_mask idx) == 0))

abbrev pub bitmap_size : Bitmap → ℕ
bitmap_size b = b.bit_cnt

-- The two ASSERTs that open each routine on a range of bits.
abbrev pub assert_range : Bitmap → ℕ → ℕ → Option (Unit {0})
assert_range b start cnt =
    assert (leb start b.bit_cnt) >> assert (leb ((start + cnt) % size_mod) b.bit_cnt)

-- The loops over a range: the first argument is the number of rounds left, `i` the counter.
set_loop : ℕ → Bitmap → ℕ → ℕ → Bool → Option Bitmap
set_loop zero b start i value = some b
set_loop (suc n) b start i value = do
  b' ← bitmap_set b ((start + i) % size_mod) value
  set_loop n b' start (i + 1) value

pub bitmap_set_multiple : Bitmap → ℕ → ℕ → Bool → Option Bitmap
unfolding set_loop
bitmap_set_multiple b start cnt value = do assert_range b start cnt; set_loop cnt b start 0 value

pub bitmap_set_all : Bitmap → Bool → Option Bitmap
bitmap_set_all b value = bitmap_set_multiple b 0 (bitmap_size b) value

-- `a == b` on `bool`
abbrev pub eqb : Bool → Bool → Bool
eqb true b = b
eqb false b = not b

count_loop : ℕ → Bitmap → ℕ → ℕ → Bool → ℕ → Option ℕ
count_loop zero b start i value value_cnt = some value_cnt
count_loop (suc n) b start i value value_cnt = do
  t ← bitmap_test b ((start + i) % size_mod)
  count_loop n b start (i + 1) value (if eqb t value then value_cnt + 1 else value_cnt)

pub bitmap_count : Bitmap → ℕ → ℕ → Bool → Option ℕ
unfolding count_loop
bitmap_count b start cnt value = do assert_range b start cnt; count_loop cnt b start 0 value 0

contains_loop : ℕ → Bitmap → ℕ → ℕ → Bool → Option Bool
contains_loop zero b start i value = some false
contains_loop (suc n) b start i value = do
  t ← bitmap_test b ((start + i) % size_mod)
  let rest = contains_loop n b start (i + 1) value
  if eqb t value then some true else rest

pub bitmap_contains : Bitmap → ℕ → ℕ → Bool → Option Bool
unfolding contains_loop
bitmap_contains b start cnt value = do assert_range b start cnt; contains_loop cnt b start 0 value

pub bitmap_any : Bitmap → ℕ → ℕ → Option Bool
bitmap_any b start cnt = bitmap_contains b start cnt true

pub bitmap_none : Bitmap → ℕ → ℕ → Option Bool
bitmap_none b start cnt = do r ← bitmap_contains b start cnt true; some (not r)

pub bitmap_all : Bitmap → ℕ → ℕ → Option Bool
bitmap_all b start cnt = do r ← bitmap_contains b start cnt false; some (not r)

-- `for (i = start; i <= last; i++)`, with `last + 1 - start` rounds.
scan_loop : ℕ → Bitmap → ℕ → ℕ → Bool → Option ℕ
scan_loop zero b i cnt value = some bitmap_error
scan_loop (suc n) b i cnt value = do
  bad ← bitmap_contains b i cnt (not value)
  let rest = scan_loop n b (i + 1) cnt value
  if bad then rest else some i

pub bitmap_scan : Bitmap → ℕ → ℕ → Bool → Option ℕ
unfolding scan_loop
bitmap_scan b start cnt value = do
  assert (leb start b.bit_cnt)
  if leb cnt b.bit_cnt
      then scan_loop (b.bit_cnt - cnt + 1 - start) b start cnt value
      else some bitmap_error

-- The new bitmap, and the index.
pub bitmap_scan_and_flip : Bitmap → ℕ → ℕ → Bool → Option (Bitmap × ℕ)
bitmap_scan_and_flip b start cnt value = do
  idx ← bitmap_scan b start cnt value
  if idx == bitmap_error
      then some (b, idx)
      else (bitmap_set_multiple b idx cnt (not value) >>= λ b'. some (b', idx))

abbrev cleared : ℕ → List ℕ → Option (Option Bitmap)
cleared bit_cnt storage = do
  b ← bitmap_set_all (record { bit_cnt = bit_cnt; bits = storage }) false
  some (some b)

-- `struct_ok`: the first `malloc` succeeds; `storage`: what the second returns, with the garbage
-- that it holds. The inner `none` is the null pointer.
pub bitmap_create : (struct_ok : Bool) → (storage : Option (List ℕ)) → ℕ → Option (Option Bitmap)
bitmap_create false storage bit_cnt = some none
bitmap_create true (some l) bit_cnt = cleared bit_cnt l
bitmap_create true none bit_cnt = if bit_cnt == 0 then cleared bit_cnt [] else some none
