-- ===== src/Directory/Tree.antt =====
-- src/filesys/directory.c: the opening and closing of directories, paths, and the removal of a name.
-- A directory is known by the sector of its inode; the allocation of a structure may fail.
use cs130_25spring_project.Common.{
  ℕ, ◌+◌, ◌*◌, Bool, true, false, ◌&&◌, Option, none, some, List, [], ◌∷◌, ◌==◌, if◌then◌else◌,
  ◌>>=◌,
}
use cs130_25spring_project.Fs.{Fs, MapFile}
use cs130_25spring_project.Inode.{Inode}
use cs130_25spring_project.Inode.Open.{
  Opened, find_open, assign, inode_open, inode_reopen, inode_close,
}
use cs130_25spring_project.Inode.Create.{inode_create}
use cs130_25spring_project.Inode.FileCnt.{inode_is_dir, inode_file_cnt}
use cs130_25spring_project.Directory.{
  Dir, DirEntry, entry_size, strcmp_equal, dot, dot_dot, dir_lookup,
}

-- `is_dir` is 1 for true.
abbrev pub dir_create :
    MapFile → Fs → (memory : Bool) → (sector entry_cnt parent : ℕ) → Option (Fs × Bool)
dir_create file fs memory sector entry_cnt parent =
    inode_create file fs memory sector (entry_cnt * entry_size) 1 parent

-- The sector of the inode that was opened, if one was.
abbrev pub sector_of : Option Inode → Option ℕ
sector_of none = none
sector_of (some i) = some i.sector

module _ (file : MapFile) where
  -- On the sector of an open inode, or NULL.
  unfoldable pub dir_open :
      Opened → (memory : Bool) → (inode : Option ℕ) → Option (Opened × Option Dir)
  dir_open o memory none = some (o, none)
  dir_open o memory (some sector) = find_open o.open_inodes sector >>= λ i.
      if memory && inode_is_dir i
      then some (o, some (record { inode = sector; pos = 0 }))
      else (inode_close file o sector >>= λ o'. some (o', none))

  -- `dir_open (inode_open (sector))`, which is `dir_open_root` and `dir_open_cwd` at their sectors.
  unfoldable pub dir_open_sector :
      Opened → (inode_memory memory : Bool) → (sector : ℕ) → Option (Opened × Option Dir)
  dir_open_sector o inode_memory memory sector =
      inode_open o inode_memory sector >>= λ (o', i). dir_open o' memory (sector_of i)

  unfoldable pub dir_reopen : Opened → (memory : Bool) → Dir → Option (Opened × Option Dir)
  dir_reopen o memory dir =
      inode_reopen o dir.inode >>= λ (o', i). dir_open o' memory (some i.sector)

  unfoldable pub dir_close : Opened → Option Dir → Option Opened
  dir_close o none = some o
  dir_close o (some dir) = inode_close file o dir.inode

  -- The inode keeps what was read of its sector.
  unfoldable pub dir_empty : Opened → Dir → Option (Opened × Bool)
  dir_empty o dir = find_open o.open_inodes dir.inode >>= λ i.
      inode_file_cnt o.fs i >>= λ (fs, i', cnt).
      some (record { fs = fs; open_inodes = assign o.open_inodes dir.inode i' }, cnt == 0)

  -- The new directory takes the place of the old one.
  unfoldable pub replace : Opened → (old : Dir) → Option Dir → Option (Opened × Dir × Bool)
  replace o old none = some (o, old, false)
  replace o old (some dir) = dir_close o (some old) >>= λ o'. some (o', dir, true)

  -- A step to the parent.
  unfoldable pub walk_up :
      Opened → (inode_memory memory : Bool) → Dir → Option (Opened × Dir × Bool)
  walk_up o inode_memory memory dir = find_open o.open_inodes dir.inode >>= λ i.
      dir_open_sector o inode_memory memory i.content.parent >>= λ (o', parent).
      replace o' dir parent

  -- A step into the directory of an inode that was looked up.
  unfoldable pub walk_into :
      Opened → (memory : Bool) → Dir → Option Inode → Option (Opened × Dir × Bool)
  walk_into o memory dir none = some (o, dir, false)
  walk_into o memory dir (some i) =
      if inode_is_dir i
      then (dir_open o memory (some i.sector) >>= λ (o', new_dir). replace o' dir new_dir)
      else (inode_close file o i.sector >>= λ o'. some (o', dir, false))

  -- One token of a path; `stack` is an uninitialised entry.
  unfoldable pub walk_token :
      Opened
      → (inode_memory memory : Bool) → (stack : DirEntry) → Dir
      → (token : List ℕ) → Option (Opened × Dir × Bool)
  walk_token o inode_memory memory stack dir token =
      if strcmp_equal token dot
      then some (o, dir, true)
      else if strcmp_equal token dot_dot
      then walk_up o inode_memory memory dir
      else (dir_lookup o dir token stack inode_memory >>= λ (o', i). walk_into o' memory dir i)

  -- `memory` tells for each number of tokens left whether the two allocations succeed.
  unfoldable pub walk_tokens :
      (memory : ℕ → Bool × Bool)
      → (stack : DirEntry) → Opened
      → Dir
      → (tokens : List (List ℕ)) → Option (Opened × Dir × Bool)
  walk_tokens memory stack o dir [] = some (o, dir, true)
  walk_tokens memory stack o dir (token ∷ tokens) =
      walk_token o (memory (tokens_left tokens)).0 (memory (tokens_left tokens)).1 stack dir token
      >>= λ (o', dir', success).
          if success then walk_tokens memory stack o' dir' tokens else some (o', dir', false)
    where
      tokens_left : List (List ℕ) → ℕ
      tokens_left [] = 0
      tokens_left (t ∷ l) = tokens_left l + 1
