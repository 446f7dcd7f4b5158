-- ===== src/Swap.antt =====
-- src/vm/swap.c: page-sized slots on the swap partition, and the bitmap of slots in use.
-- A page is its list of bytes. The lock and the one-time set-up from the device table are left out.
pub mod Loops
pub mod Roundtrip
mod Tests
use cs130_25spring_project.Common.{
  ℕ, zero, suc, ◌+◌, ◌-◌, ◌*◌, ◌/◌, ◌%◌, ◌^◌, Bool, true, false, not, ◌||◌, Option, none, some,
  List, ◌==◌, leb, if◌then◌else◌, ◌>>=◌, ◌>>◌,
}
use cs130_25spring_project.Common.Bytes.{slice, splice}
use cs130_25spring_project.Block.{Block, block_sector_size, block_read, block_write}
use cs130_25spring_project.Bitmap.{
  Bitmap, bitmap_error, bitmap_size, bitmap_scan_and_flip, bitmap_test, bitmap_set, bitmap_create,
  bitmap_set_all,
}

abbrev pub page_size : ℕ
page_size = 2 ^ 12

abbrev pub slot_size : ℕ
slot_size = page_size / block_sector_size

abbrev pub slot_err : ℕ
slot_err = 2 ^ 32 - 1

-- `swap_device` and `swap_bitmap`
pub record Swap : Type 0 where
  pub device : Block
  pub bitmap : Bitmap

-- `storage` is what `malloc` gives the bitmap; a null bitmap is a panic here.
pub swap_init : (struct_ok : Bool) → (storage : Option (List ℕ)) → Block → Option Swap
swap_init struct_ok storage device = do
  created ← bitmap_create struct_ok storage (device.size / slot_size)
  b ← created
  cleared ← bitmap_set_all b false
  some (record { device = device; bitmap = cleared })

abbrev pub sector_of : ℕ → ℕ → ℕ
sector_of slot i = (slot * slot_size + i) % 2 ^ 32

-- The loops over the sectors of a slot: rounds left, then the counter `i`.
pub write_loop : ℕ → Block → ℕ → ℕ → List ℕ → Option Block
write_loop zero device slot i kpage = some device
write_loop (suc n) device slot i kpage = do
  device' ←
      block_write device (sector_of slot i) (slice (i * block_sector_size) block_sector_size kpage)
  write_loop n device' slot (i + 1) kpage

pub read_loop : ℕ → Block → ℕ → ℕ → List ℕ → Option (List ℕ × Block)
read_loop zero device slot i kpage = some (kpage, device)
read_loop (suc n) device slot i kpage = do
  (d, device') ← block_read device (sector_of slot i)
  read_loop n device' slot (i + 1) (splice (i * block_sector_size) d kpage)

-- The state, and the slot or SLOT_ERR.
pub swap_out : Swap → List ℕ → Option (Swap × ℕ)
unfolding write_loop
swap_out s kpage = do
  (bitmap', ret) ← bitmap_scan_and_flip s.bitmap 0 1 false
  if ret == bitmap_error
      then some (record s { bitmap = bitmap' }, slot_err)
      else (write_loop slot_size s.device ret 0 kpage >>= λ device'.
          some (record { device = device'; bitmap = bitmap' }, ret))

-- The state, whether it worked, and the page that `kpage` points to afterwards.
pub swap_in : Swap → ℕ → List ℕ → Option (Swap × Bool × List ℕ)
unfolding read_loop
swap_in s slot_idx kpage = do
  t ← bitmap_test s.bitmap slot_idx
  let failed = leb (bitmap_size s.bitmap) slot_idx || not t
  if failed
      then some (s, false, kpage)
      else (read_loop slot_size s.device slot_idx 0 kpage >>= λ (kpage', device').
          bitmap_set s.bitmap slot_idx false >>= λ bitmap'.
          some (record { device = device'; bitmap = bitmap' }, true, kpage'))
