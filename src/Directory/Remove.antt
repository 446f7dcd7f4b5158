-- ===== src/Directory/Remove.antt =====
-- src/filesys/directory.c: the removal of a name.
use cs130_25spring_project.Common.{
  ℕ, ◌-◌, ◌^◌, Bool, true, false, not, ◌&&◌, ◌||◌, Option, none, some, List, ◌==◌, ltb,
  if◌then◌else◌, ◌>>=◌,
}
use cs130_25spring_project.Fs.{MapFile}
use cs130_25spring_project.Inode.{Inode}
use cs130_25spring_project.Inode.Write.{inode_write_at}
use cs130_25spring_project.Inode.Open.{
  Opened, find_open, assign, inode_open, inode_remove, inode_close,
}
use cs130_25spring_project.Inode.FileCnt.{inode_is_dir, inode_update_file_cnt}
use cs130_25spring_project.Directory.{Dir, DirEntry, entry_size, entry_bytes, lookup}
use cs130_25spring_project.FreeMap.{root_dir_sector}
use cs130_25spring_project.Directory.Tree.{dir_open, dir_empty}

module _ (file : MapFile) where
  -- The tests on a directory; `none` for the NULL that `dir_empty` would read.
  unfoldable pub check_opened :
      (cwd : ℕ) → Opened → (sector : ℕ) → Option Dir → Option (Opened × Bool)
  check_opened cwd o sector none = none
  check_opened cwd o sector (some d) = dir_empty file o d >>= λ (o', empty).
      find_open o'.open_inodes sector >>= λ i. some (
        o',
        not (not empty || ltb 1 i.open_cnt) && not ((sector == root_dir_sector) || (sector == cwd)),
      )

  unfoldable pub may_remove : (cwd : ℕ) → (memory : Bool) → Opened → Inode → Option (Opened × Bool)
  may_remove cwd memory o i =
      if inode_is_dir i
      then (dir_open file o memory (some i.sector) >>= λ (o', d). check_opened cwd o' i.sector d)
      else some (o, true)

  -- The entry is written as free, the inode marked as removed, and the count taken down, by the word
  -- of -1.
  unfoldable pub erase : Opened → Dir → DirEntry → (ofs sector : ℕ) → Option (Opened × Bool)
  erase o dir e ofs sector = find_open o.open_inodes dir.inode >>= λ d.
      inode_write_at file o.fs d (entry_bytes (record e { in_use = 0 })) ofs >>= λ (fs, d', n).
      let o' : Opened = record { fs = fs; open_inodes = assign o.open_inodes dir.inode d' } in
      if n == entry_size
      then (inode_remove o' sector >>= λ o₁. find_open o₁.open_inodes dir.inode >>= λ d₁.
          inode_update_file_cnt o₁.fs d₁ (2 ^ 32 - 1) >>= λ (fs₂, d₂).
          some (record { fs = fs₂; open_inodes = assign o₁.open_inodes dir.inode d₂ }, true))
      else some (o', false)

  abbrev pub erase_if : Opened → Dir → DirEntry → (ofs sector : ℕ) → Bool → Option (Opened × Bool)
  erase_if o dir e ofs sector false = some (o, false)
  erase_if o dir e ofs sector true = erase o dir e ofs sector

  -- With the inode that was opened, which is closed at the end.
  unfoldable pub remove_opened :
      (cwd : ℕ)
      → (memory : Bool) → Opened
      → Dir
      → DirEntry
      → (ofs : ℕ) → Option Inode
      → Option (Opened × Bool)
  remove_opened cwd memory o dir e ofs none = some (o, false)
  remove_opened cwd memory o dir e ofs (some i) = may_remove cwd memory o i >>= λ (o₁, allowed).
      erase_if o₁ dir e ofs i.sector allowed >>= λ (o₂, success).
      inode_close file o₂ i.sector >>= λ o₃. some (o₃, success)

  unfoldable pub remove_found :
      (cwd : ℕ)
      → (inode_memory memory : Bool) → Opened
      → Dir
      → Option (DirEntry × ℕ)
      → Option (Opened × Bool)
  remove_found cwd inode_memory memory o dir none = some (o, false)
  remove_found cwd inode_memory memory o dir (some (e, ofs)) =
      inode_open o inode_memory e.inode_sector >>= λ (o', i).
      remove_opened cwd memory o' dir e ofs i

  -- `cwd` is the sector of the working directory.
  unfoldable pub dir_remove :
      (cwd : ℕ)
      → (inode_memory memory : Bool) → (stack : DirEntry) → Opened
      → Dir
      → (name : List ℕ) → Option (Opened × Bool)
  dir_remove cwd inode_memory memory stack o dir name =
      lookup o dir name stack >>= λ (o', found). remove_found cwd inode_memory memory o' dir found
