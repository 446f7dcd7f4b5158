-- ===== src/File.antt =====
-- src/filesys/file.c: an open file, with its position, over the list of open inodes. The pointer of
-- a file to its inode is the inode's sector; a pointer to no open inode is a panic.
pub mod Laws
mod Tests
use cs130_25spring_project.Common.{
  ℕ, ◌+◌, Bool, true, false, Option, none, some, List, if◌then◌else◌, ◌>>=◌, length,
}
use cs130_25spring_project.Fs.{Fs, MapFile}
use cs130_25spring_project.Inode.{Inode, inode_read_at}
use cs130_25spring_project.Inode.Write.{inode_write_at, inode_deny_write, inode_allow_write}
use cs130_25spring_project.Inode.Open.{Opened, find_open, assign, inode_reopen, inode_close}
use cs130_25spring_project.Inode.FileCnt.{inode_is_dir, inode_length}

pub record File : Type 0 where
  pub inode : ℕ
  pub pos : ℕ
  pub deny_write : Bool

-- `-1` is `none` in the results of these two.
unfoldable pub file_read : Opened → File → (size : ℕ) → Option (Opened × File × Option (List ℕ))
file_read o file size = find_open o.open_inodes file.inode >>= λ i.
    if inode_is_dir i
    then some (o, file, none)
    else (inode_read_at o.fs i size file.pos >>= λ (fs, bytes).
        some (record o { fs = fs }, record file { pos = file.pos + length bytes }, some bytes))

unfoldable pub file_write :
    MapFile → Opened → File → (buffer : List ℕ) → Option (Opened × File × Option ℕ)
file_write map_file o file buffer = find_open o.open_inodes file.inode >>= λ i.
    if inode_is_dir i
    then some (o, file, none)
    else (inode_write_at map_file o.fs i buffer file.pos >>= λ (fs, i', bytes_written). some (
      record { fs = fs; open_inodes = assign o.open_inodes file.inode i' },
      record file { pos = file.pos + bytes_written },
      some bytes_written,
    ))

unfoldable pub file_read_at : Opened → File → (size file_ofs : ℕ) → Option (Opened × List ℕ)
file_read_at o file size file_ofs = find_open o.open_inodes file.inode >>= λ i.
    inode_read_at o.fs i size file_ofs >>= λ (fs, bytes). some (record o { fs = fs }, bytes)

unfoldable pub file_write_at :
    MapFile → Opened → File → (buffer : List ℕ) → (file_ofs : ℕ) → Option (Opened × ℕ)
file_write_at map_file o file buffer file_ofs = find_open o.open_inodes file.inode >>= λ i.
    inode_write_at map_file o.fs i buffer file_ofs >>= λ (fs, i', bytes_written).
    some (record { fs = fs; open_inodes = assign o.open_inodes file.inode i' }, bytes_written)

unfoldable pub file_deny_write : Opened → File → Option (Opened × File)
file_deny_write o file =
    if file.deny_write
    then some (o, file)
    else (find_open o.open_inodes file.inode >>= λ i. inode_deny_write i >>= λ i'. some (
      record o { open_inodes = assign o.open_inodes file.inode i' },
      record file { deny_write = true },
    ))

unfoldable pub file_allow_write : Opened → File → Option (Opened × File)
file_allow_write o file =
    if file.deny_write
    then (find_open o.open_inodes file.inode >>= λ i. inode_allow_write i >>= λ i'. some (
      record o { open_inodes = assign o.open_inodes file.inode i' },
      record file { deny_write = false },
    ))
    else some (o, file)

-- On an inode that is not null: `memory` says that the structure was allocated.
unfoldable pub file_open :
    MapFile → Opened → (memory : Bool) → (inode : ℕ) → Option (Opened × Option File)
file_open map_file o memory inode =
    if memory
    then some (o, some (record { inode = inode; pos = 0; deny_write = false }))
    else (inode_close map_file o inode >>= λ o'. some (o', none))

unfoldable pub file_reopen :
    MapFile → Opened → (memory : Bool) → File → Option (Opened × Option File)
file_reopen map_file o memory file =
    inode_reopen o file.inode >>= λ (o', i). file_open map_file o' memory file.inode

unfoldable pub file_close : MapFile → Opened → File → Option Opened
file_close map_file o file =
    file_allow_write o file >>= λ (o', file'). inode_close map_file o' file.inode

unfoldable pub file_length : Opened → File → Option ℕ
file_length o file = find_open o.open_inodes file.inode >>= λ i. some (inode_length i)

abbrev pub file_seek : File → (new_pos : ℕ) → File
file_seek file new_pos = record file { pos = new_pos }

abbrev pub file_tell : File → ℕ
file_tell file = file.pos
