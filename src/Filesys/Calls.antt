-- ===== src/Filesys/Calls.antt =====
-- src/filesys/filesys.c: the calls on files by their paths. `cwd` is the sector of the working directory.
use cs130_25spring_project.Common.{
  ℕ, Bool, true, false, not, ◌&&◌, Option, none, some, List, [], ◌∷◌, ◌==◌, if◌then◌else◌, ◌>>=◌,
}
use cs130_25spring_project.Fs.{MapFile}
use cs130_25spring_project.FreeMap.{root_dir_sector, free_map_allocate, free_map_release}
use cs130_25spring_project.Inode.{Inode}
use cs130_25spring_project.Inode.Open.{Opened, inode_open}
use cs130_25spring_project.Inode.Create.{inode_create}
use cs130_25spring_project.File.{File, file_open}
use cs130_25spring_project.Directory.{Dir, DirEntry, dir_lookup, dir_add}
use cs130_25spring_project.Directory.Tree.{dir_open_sector, dir_close}
use cs130_25spring_project.Directory.Path.{slash, dir_walk}
use cs130_25spring_project.Directory.Remove.{dir_remove}
use cs130_25spring_project.Filesys.{path_split}

-- Whether the allocations succeed: of the first directory, its inode before it, of those on the walk,
-- and of what the call itself asks for.
pub record Memory : Type 0 where
  pub start_inode : Bool
  pub start_dir : Bool
  pub walk : ℕ → Bool × Bool
  pub inode : Bool
  pub last : Bool

abbrev pub is_absolute : List ℕ → Bool
is_absolute [] = false
is_absolute (c ∷ l) = c == slash

abbrev pub is_root : List ℕ → Bool
is_root [] = true
is_root (c ∷ l) = (c == slash) && is_root l

abbrev pub ends_in_slash : List ℕ → Bool
ends_in_slash [] = false
ends_in_slash (c ∷ []) = c == slash
ends_in_slash (c ∷ d ∷ l) = ends_in_slash (d ∷ l)

module _ (file : MapFile) (memory : Memory) (stack : DirEntry) (cwd : ℕ) where
  -- `name[0] == '/' ? dir_open_root () : dir_open_cwd ()`
  unfoldable pub open_start : Opened → (name : List ℕ) → Option (Opened × Option Dir)
  open_start o name =
      dir_open_sector file o memory.start_inode memory.start_dir
        (if is_absolute name then root_dir_sector else cwd)

  -- Allocation of the sector of the inode, the inode, and the entry: with the sector, and whether all
  -- was done.
  unfoldable pub add_inode :
      Opened
      → Dir
      → (file_name : List ℕ) → (initial_size : ℕ) → (is_dir : Bool) → (sector : ℕ)
      → Option (Opened × Bool)
  add_inode o dir file_name initial_size is_dir sector =
      inode_create file o.fs memory.inode sector initial_size (if is_dir then 1 else 0) dir.inode
      >>= λ (fs, created).
          if created
          then dir_add file (record o { fs = fs }) dir file_name sector stack
          else some (record o { fs = fs }, false)

  -- Where it failed, the sector alone is released.
  unfoldable pub release_if : Opened → (sector : ℕ) → (ok : Bool) → Option (Opened × Bool)
  release_if o sector ok =
      if not ok && not (sector == 0)
      then (free_map_release file o.fs sector 1 >>= λ fs. some (record o { fs = fs }, ok))
      else some (o, ok)

  unfoldable pub create_in :
      Opened
      → Dir
      → (file_name : List ℕ) → (initial_size : ℕ) → (is_dir : Bool) → (sector : Option ℕ)
      → Option (Opened × Bool)
  create_in o dir file_name initial_size is_dir none = some (o, false)
  create_in o dir file_name initial_size is_dir (some sector) =
      add_inode o dir file_name initial_size is_dir sector >>= λ (o', ok). release_if o' sector ok

  abbrev pub close_with {ℓ} : {A : Type ℓ} → Opened → Dir → A → Option (Opened × A)
  close_with o dir result = dir_close file o (some dir) >>= λ o'. some (o', result)

  -- From the first directory on.
  unfoldable pub create_from :
      Opened
      → (path file_name : List ℕ) → (initial_size : ℕ) → (is_dir : Bool) → Option Dir
      → Option (Opened × Bool)
  create_from o path file_name initial_size is_dir none = some (o, false)
  create_from o path file_name initial_size is_dir (some dir) =
      dir_walk file memory.walk stack o dir path >>= λ (o₁, dir₁, walked).
      if walked
      then (free_map_allocate file o₁.fs 1 >>= λ (fs, sector).
          create_in (record o₁ { fs = fs }) dir₁ file_name initial_size is_dir sector
          >>= λ (o₂, ok). close_with o₂ dir₁ ok)
      else close_with o₁ dir₁ false

  unfoldable pub filesys_create :
      Opened → (name : List ℕ) → (initial_size : ℕ) → (is_dir : Bool) → Option (Opened × Bool)
  filesys_create o name initial_size is_dir = elim (path_split name is_dir) [
    | none ↦ some (o, false)
    | some (path, file_name) ↦
        open_start o name >>= λ (o', dir). create_from o' path file_name initial_size is_dir dir
  ]

  -- `file_open` of an inode, or of NULL.
  unfoldable pub open_file : Opened → Option Inode → Option (Opened × Option File)
  open_file o none = some (o, none)
  open_file o (some i) = file_open file o memory.last i.sector

  unfoldable pub lookup_from :
      Opened → (path file_name : List ℕ) → Option Dir → Option (Opened × Option File)
  lookup_from o path file_name none = none
  lookup_from o path file_name (some dir) =
      dir_walk file memory.walk stack o dir path >>= λ (o₁, dir₁, walked).
      if walked
      then (dir_lookup o₁ dir₁ file_name stack memory.inode >>= λ (o₂, i).
          close_with o₂ dir₁ i >>= λ (o₃, i'). open_file o₃ i')
      else close_with o₁ dir₁ none

  -- Without the first directory the code reads through a null pointer.
  unfoldable pub filesys_open : Opened → (name : List ℕ) → Option (Opened × Option File)
  filesys_open o [] = some (o, none)
  filesys_open o (c ∷ l) =
      if is_root (c ∷ l)
      then (inode_open o memory.inode root_dir_sector >>= λ (o', i). open_file o' i)
      else elim (path_split (c ∷ l) false) [
        | none ↦ some (o, none)
        | some (path, file_name) ↦
            open_start o (c ∷ l) >>= λ (o', dir). lookup_from o' path file_name dir
      ]

  unfoldable pub remove_from :
      Opened → (path file_name : List ℕ) → Option Dir → Option (Opened × Bool)
  remove_from o path file_name none = none
  remove_from o path file_name (some dir) =
      dir_walk file memory.walk stack o dir path >>= λ (o₁, dir₁, walked).
      if walked
      then (dir_remove file cwd memory.inode memory.last stack o₁ dir₁ file_name
          >>= λ (o₂, removed). close_with o₂ dir₁ removed)
      else close_with o₁ dir₁ false

  unfoldable pub filesys_remove : Opened → (name : List ℕ) → Option (Opened × Bool)
  filesys_remove o [] = some (o, false)
  filesys_remove o (c ∷ l) = elim (path_split (c ∷ l) (ends_in_slash (c ∷ l))) [
    | none ↦ some (o, false)
    | some (path, file_name) ↦
        open_start o (c ∷ l) >>= λ (o', dir). remove_from o' path file_name dir
  ]

  -- The sector of the directory that a path leads to.
  unfoldable pub walk_from :
      Opened → (path file_name : List ℕ) → Option Dir → Option (Opened × Option ℕ)
  walk_from o path file_name none = none
  walk_from o path file_name (some dir) =
      dir_walk file memory.walk stack o dir path >>= λ (o₁, dir₁, walked).
      if walked
      then (dir_walk file memory.walk stack o₁ dir₁ file_name >>= λ (o₂, dir₂, walked').
          close_with o₂ dir₂ (if walked' then some dir₂.inode else none))
      else close_with o₁ dir₁ none

  -- The new working directory, or `none` for the result false. The root is not closed.
  unfoldable pub filesys_chdir : Opened → (name : List ℕ) → Option (Opened × Option ℕ)
  filesys_chdir o name =
      if is_root name
      then (dir_open_sector file o memory.start_inode memory.start_dir root_dir_sector
          >>= λ (o', dir). elim dir [
            | none ↦ some (o', none)
            | some d ↦ some (o', some root_dir_sector)
          ])
      else elim (path_split name true) [
        | none ↦ some (o, none)
        | some (path, file_name) ↦
            open_start o name >>= λ (o', dir). walk_from o' path file_name dir
      ]
