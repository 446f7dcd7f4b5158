-- ===== src/Inode/Write.antt =====
-- Writing at an offset, `inode_write_at`, and the counts of an open inode that forbid it.
use cs130_25spring_project.Common.{
  ℕ, zero, suc, ◌+◌, ◌-◌, ◌%◌, not, Option, none, some, List, ◌==◌, ltb, leb, if◌then◌else◌, ◌>>=◌,
  ◌>>◌, assert, length, take, drop,
}
use cs130_25spring_project.Block.{block_sector_size, block_sector_none}
use cs130_25spring_project.Fs.{Fs, MapFile, write_bytes}
use cs130_25spring_project.Inode.{
  InodeDisk, Inode, bytes_to_sectors, byte_to_sector_unlocked, chunk,
}
use cs130_25spring_project.Inode.Disk.{disk_bytes}
use cs130_25spring_project.Inode.Grow.{inode_grow_unlocked}

-- `while (size > 0)`, on fuel: `buffer` is what is left to write, `size` bytes, and `bytes_written`
-- the count so far.
unfoldable pub write_rounds :
    ℕ → Fs → InodeDisk → (buffer : List ℕ) → (offset bytes_written : ℕ) → Option (Fs × ℕ)
write_rounds zero fs d buffer offset bytes_written =
    if length buffer == 0 then some (fs, bytes_written) else none
write_rounds (suc fuel) fs d buffer offset bytes_written =
    if length buffer == 0
    then some (fs, bytes_written)
    else (byte_to_sector_unlocked fs d offset >>= λ (fs₁, sector_idx).
        assert (not (sector_idx == block_sector_none))
        >> (if chunk d (length buffer) offset == 0
            then some (fs₁, bytes_written)
            else (write_bytes fs₁ sector_idx (take (chunk d (length buffer) offset) buffer)
                  (offset % block_sector_size)
                >>= λ fs₂.
                    write_rounds fuel fs₂ d (drop (chunk d (length buffer) offset) buffer)
                      (offset + chunk d (length buffer) offset)
                      (bytes_written + chunk d (length buffer) offset))))

-- The result of the loop, with the inode.
abbrev pub finished : Inode → Fs × ℕ → Fs × Inode × ℕ
finished inode (fs, bytes_written) = (fs, inode, bytes_written)

module _ (file : MapFile) where
  unfoldable pub inode_write_at :
      Fs → Inode → (buffer : List ℕ) → (offset : ℕ) → Option (Fs × Inode × ℕ)
  inode_write_at fs inode buffer offset =
      let end_of = offset + length buffer in
      if not (inode.deny_write_cnt == 0)
      then some (fs, inode, 0)
      else if ltb inode.content.length end_of
      then (inode_grow_unlocked file fs inode.content
            (bytes_to_sectors end_of - bytes_to_sectors inode.content.length)
          >>= λ (fs₁, content, grown).
              if not grown
              then some (fs₁, record inode { content = content }, 0)
              else (let content' : InodeDisk = record content { length = end_of } in
                  let inode' : Inode = record inode { content = content' } in
                  write_bytes fs₁ inode.sector (disk_bytes content') 0 >>= λ fs₂.
                  write_rounds (length buffer) fs₂ content' buffer offset 0 >>= λ r.
                  some (finished inode' r)))
      else (write_rounds (length buffer) fs inode.content buffer offset 0 >>= λ r.
          some (finished inode r))

unfoldable pub inode_deny_write : Inode → Option Inode
inode_deny_write inode =
    let cnt = inode.deny_write_cnt + 1 in
    assert (leb cnt inode.open_cnt) >> some (record inode { deny_write_cnt = cnt })

unfoldable pub inode_allow_write : Inode → Option Inode
inode_allow_write inode =
    assert (ltb 0 inode.deny_write_cnt)
    >> assert (leb inode.deny_write_cnt inode.open_cnt)
    >> some (record inode { deny_write_cnt = inode.deny_write_cnt - 1 })
