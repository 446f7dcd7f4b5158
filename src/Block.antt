-- ===== src/Block.antt =====
-- src/devices/block.c: sector reads and writes of a block device, with the check against its end.
-- The driver behind `ops` is taken for the store of sectors that it drives: a read gives what was
-- written last. `none` is a panic.
use cs130_25spring_project.Common.{
  ℕ, ◌+◌, ◌-◌, ◌%◌, ◌^◌, ◌≤◌, ◌<◌, ◌≡◌, Bool, false, not, Option, none, some, List, leb, ◌==◌,
  if◌then◌else◌, ◌>>◌, assert, arith,
}

abbrev pub block_sector_size : ℕ
block_sector_size = 512

-- `(block_sector_t) - 1`
abbrev pub block_sector_none : ℕ
block_sector_none = 2 ^ 32 - 1

-- `struct block`; `foreign` says that its type is BLOCK_FOREIGN, and `sectors` is the medium.
pub record Block : Type 0 where
  pub size : ℕ
  pub foreign : Bool
  pub sectors : ℕ → List ℕ
  pub read_cnt : ℕ
  pub write_cnt : ℕ

pub check_sector : Block → ℕ → Option (Unit {0})
check_sector block sector = if leb block.size sector then none else some tt

abbrev pub after_read : Block → Block
after_read block = record block { read_cnt = (block.read_cnt + 1) % 2 ^ 64 }

pub block_read : Block → ℕ → Option (List ℕ × Block)
unfolding check_sector
block_read block sector = check_sector block sector >> some (block.sectors sector, after_read block)

abbrev pub write_sector : (ℕ → List ℕ) → ℕ → List ℕ → ℕ → List ℕ
write_sector sectors sector buffer s = if s == sector then buffer else sectors s

abbrev pub after_write : Block → ℕ → List ℕ → Block
after_write block sector buffer = record block {
  sectors = write_sector block.sectors sector buffer;
  write_cnt = (block.write_cnt + 1) % 2 ^ 64;
}

pub block_write : Block → ℕ → List ℕ → Option Block
unfolding check_sector
block_write block sector buffer =
    check_sector block sector
    >> assert (not block.foreign)
    >> some (after_write block sector buffer)

module _ (b : Block) (sector : ℕ) where
  pub block_read-ok : sector < b.size → block_read b sector ≡ some (b.sectors sector, after_read b)
  unfolding block_read
  block_read-ok h = ground arith

  pub block_write-ok :
      (d : List ℕ)
      → sector < b.size
      → b.foreign ≡ false
      → block_write b sector d ≡ some (after_write b sector d)
  unfolding block_write
  block_write-ok d h f = ground arith

  -- Past the end of the device both panic.
  pub block_read-panic : b.size ≤ sector → block_read b sector ≡ none
  unfolding block_read
  block_read-panic h = ground arith

  pub block_write-panic : (d : List ℕ) → b.size ≤ sector → block_write b sector d ≡ none
  unfolding block_write
  block_write-panic d h = ground arith
