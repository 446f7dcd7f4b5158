-- ===== src/Inode.antt =====
-- src/filesys/inode.c: the index of an inode from a byte offset to a sector, reading and writing at
-- an offset, and the counts of an open inode. Offsets and lengths are the non-negative values of
-- `off_t`. The allocations of buffers are taken to succeed; the locks of an inode are left out.
pub mod Index
pub mod Disk
pub mod Lookup
pub mod Sector
pub mod File
pub mod Whole
pub mod Read
pub mod Rollback
pub mod Grow
pub mod Full
pub mod Loses
pub mod Write
pub mod Update
pub mod Written
pub mod Store
pub mod Roundtrip
pub mod Open
pub mod Reopen
pub mod Create
pub mod FileCnt
pub mod Tests
mod FullTests
mod OpenTests
mod CntTests
use cs130_25spring_project.Common.{
  ℕ, zero, suc, ◌+◌, ◌-◌, ◌*◌, ◌/◌, ◌%◌, ◌≤◌, ◌<◌, Bool, true, false, not, Option, none, some, List,
  [], ◌∷◌, ◌++◌, ◌==◌, ltb, leb, min, if◌then◌else◌, ◌>>=◌, ◌>>◌, assert, get_elem?,
}
use cs130_25spring_project.Block.{block_sector_size, block_sector_none}
use cs130_25spring_project.Fs.{Fs, read_bytes, read_table}

-- `struct inode_disk`
pub record InodeDisk : Type 0 where
  pub is_dir : ℕ
  pub file_cnt : ℕ
  pub length : ℕ
  pub parent : ℕ
  pub direct : List ℕ
  pub indirect : ℕ
  pub doubly_indirect : ℕ
  pub magic : ℕ
  pub unused : List ℕ

-- `struct inode`
pub record Inode : Type 0 where
  pub sector : ℕ
  pub open_cnt : ℕ
  pub removed : Bool
  pub deny_write_cnt : ℕ
  pub content : InodeDisk

-- DIV_ROUND_UP
abbrev pub bytes_to_sectors : ℕ → ℕ
bytes_to_sectors size = (size + (block_sector_size - 1)) / block_sector_size

pub indirect_lookup : Fs → (sector pos : ℕ) → Option (Fs × ℕ)
indirect_lookup fs sector pos =
    if sector == block_sector_none
    then some (fs, block_sector_none)
    else (read_table fs sector >>= λ (fs', ib).
        let idx = pos / block_sector_size in
        assert (ltb idx 128) >> (get_elem? ib idx >>= λ ret. some (fs', ret)))

pub doubly_indirect_lookup : Fs → (sector pos : ℕ) → Option (Fs × ℕ)
unfolding indirect_lookup
doubly_indirect_lookup fs sector pos =
    if sector == block_sector_none
    then some (fs, block_sector_none)
    else (read_table fs sector >>= λ (fs', ib).
        let idx = pos / (block_sector_size * 128) in
        let pos' = pos % (block_sector_size * 128) in
        get_elem? ib idx >>= λ entry. indirect_lookup fs' entry pos')

pub byte_to_sector_unlocked : Fs → InodeDisk → (pos : ℕ) → Option (Fs × ℕ)
byte_to_sector_unlocked fs d pos =
    if ltb pos (10 * block_sector_size)
    then (get_elem? d.direct (pos / block_sector_size) >>= λ s. some (fs, s))
    else if ltb pos (10 * block_sector_size + 128 * block_sector_size)
    then indirect_lookup fs d.indirect (pos - 10 * block_sector_size)
    else if ltb pos
        (10 * block_sector_size + 128 * block_sector_size + 128 * 128 * block_sector_size)
    then doubly_indirect_lookup fs d.doubly_indirect
        (pos - (10 * block_sector_size + 128 * block_sector_size))
    else some (fs, block_sector_none)

-- The read-ahead part of the loop of inode_read_at: the sector after the one read, if there is one,
-- joins the list.
pub read_ahead : Fs → InodeDisk → (offset : ℕ) → Option Fs
read_ahead fs d offset = do
  (fs', next) ← byte_to_sector_unlocked fs d (offset + block_sector_size)
  if next == block_sector_none
      then some fs'
      else some (record fs' { read_ahead_list = fs'.read_ahead_list ++ (next ∷ []) })

-- The bytes of one round: at most `size`, at most what the sector and the file have left. A negative
-- rest of the file is 0 here; either stops the loop.
abbrev pub chunk : InodeDisk → (size offset : ℕ) → ℕ
chunk d size offset =
    let sector_ofs = offset % block_sector_size in
    min size (min (d.length - offset) (block_sector_size - sector_ofs))

-- `while (size > 0)`, on fuel; `out` is what was copied to the buffer so far. The result is
-- `none` if the fuel runs out.
pub read_rounds : ℕ → Fs → InodeDisk → (size offset : ℕ) → List ℕ → Option (Fs × List ℕ)
unfolding read_ahead
read_rounds zero fs d size offset out = if size == 0 then some (fs, out) else none
read_rounds (suc fuel) fs d size offset out =
    if size == 0
    then some (fs, out)
    else (byte_to_sector_unlocked fs d offset >>= λ (fs₁, sector_idx).
        if sector_idx == block_sector_none
        then some (fs₁, out)
        else if chunk d size offset == 0
        then some (fs₁, out)
        else (read_bytes fs₁ sector_idx (chunk d size offset) (offset % block_sector_size)
            >>= λ (fs₂, bytes). read_ahead fs₂ d offset >>= λ fs₃.
                read_rounds fuel fs₃ d (size - chunk d size offset) (offset + chunk d size offset)
                  (out ++ bytes)))

-- The bytes read; their number is the result of the routine.
pub inode_read_at : Fs → Inode → (size offset : ℕ) → Option (Fs × List ℕ)
unfolding read_rounds
inode_read_at fs inode size offset = read_rounds size fs inode.content size offset []
