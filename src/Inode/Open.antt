-- ===== src/Inode/Open.antt =====
-- Opening and closing an inode: the list of the open inodes with their counts. An inode is known by
-- its sector; the allocation of its structure may fail.
use cs130_25spring_project.Common.{
  ℕ, ◌+◌, ◌-◌, Bool, true, false, Option, none, some, List, [], ◌∷◌, ◌==◌, if◌then◌else◌, ◌>>=◌,
}
use cs130_25spring_project.Block.{block_sector_size, block_sector_none}
use cs130_25spring_project.Cache.{cache_flush}
use cs130_25spring_project.Fs.{Fs, MapFile, read_table, read_bytes}
use cs130_25spring_project.Inode.{InodeDisk, Inode}
use cs130_25spring_project.Inode.Disk.{disk_of}
use cs130_25spring_project.Inode.Rollback.{release}

pub record Opened : Type 0 where
  pub fs : Fs
  pub open_inodes : List Inode

-- The loop over the list: the first inode of the sector.
unfoldable pub find_open : List Inode → (sector : ℕ) → Option Inode
find_open [] sector = none
find_open (i ∷ l) sector = if i.sector == sector then some i else find_open l sector

-- An assignment through the pointer to that inode.
unfoldable pub assign : List Inode → (sector : ℕ) → Inode → List Inode
assign [] sector to = []
assign (i ∷ l) sector to = if i.sector == sector then to ∷ l else i ∷ assign l sector to

-- `list_remove` of it
unfoldable pub list_remove : List Inode → (sector : ℕ) → List Inode
list_remove [] sector = []
list_remove (i ∷ l) sector = if i.sector == sector then l else i ∷ list_remove l sector

-- On a pointer to an open inode; a pointer to any other is a panic.
unfoldable pub inode_reopen : Opened → (sector : ℕ) → Option (Opened × Inode)
inode_reopen o sector = find_open o.open_inodes sector >>= λ i.
    let i' : Inode = record i { open_cnt = i.open_cnt + 1 } in
    some (record o { open_inodes = assign o.open_inodes sector i' }, i')

unfoldable pub open_new : Opened → (memory : Bool) → (sector : ℕ) → Option (Opened × Option Inode)
open_new o memory sector =
    if memory
    then (read_bytes o.fs sector block_sector_size 0 >>= λ (fs, bytes).
        let i : Inode = record {
          sector = sector;
          open_cnt = 1;
          removed = false;
          deny_write_cnt = 0;
          content = disk_of bytes;
        } in
        some (record { fs = fs; open_inodes = i ∷ o.open_inodes }, some i))
    else some (o, none)

-- By what the loop found.
unfoldable pub open_found :
    Opened → (memory : Bool) → (sector : ℕ) → Option Inode → Option (Opened × Option Inode)
open_found o memory sector (some i) = inode_reopen o sector >>= λ (o', i'). some (o', some i')
open_found o memory sector none = open_new o memory sector

unfoldable pub inode_open : Opened → (memory : Bool) → (sector : ℕ) → Option (Opened × Option Inode)
inode_open o memory sector = open_found o memory sector (find_open o.open_inodes sector)

unfoldable pub inode_remove : Opened → (sector : ℕ) → Option Opened
inode_remove o sector = find_open o.open_inodes sector >>= λ i.
    some (record o { open_inodes = assign o.open_inodes sector (record i { removed = true }) })

module _ (file : MapFile) where
  -- `cache_free` and `free_map_release` of each sector of a table.
  unfoldable pub release_all : Fs → List ℕ → Option Fs
  release_all fs [] = some fs
  release_all fs (s ∷ l) =
      if s == block_sector_none
      then release_all fs l
      else (release file fs s >>= λ fs'. release_all fs' l)

  unfoldable pub inode_indirect_close : Fs → (sector : ℕ) → Option Fs
  inode_indirect_close fs sector =
      read_table fs sector >>= λ (fs₁, ib). release_all fs₁ ib >>= λ fs₂. release file fs₂ sector

  unfoldable pub close_tables : Fs → List ℕ → Option Fs
  close_tables fs [] = some fs
  close_tables fs (s ∷ l) =
      if s == block_sector_none
      then close_tables fs l
      else (inode_indirect_close fs s >>= λ fs'. close_tables fs' l)

  unfoldable pub close_indirect : Fs → InodeDisk → Option Fs
  close_indirect fs d =
      if d.indirect == block_sector_none then some fs else inode_indirect_close fs d.indirect

  unfoldable pub close_doubly : Fs → InodeDisk → Option Fs
  close_doubly fs d =
      if d.doubly_indirect == block_sector_none
      then some fs
      else (read_table fs d.doubly_indirect >>= λ (fs₁, ib).
          close_tables fs₁ ib >>= λ fs₂. release file fs₂ d.doubly_indirect)

  -- The blocks of a removed inode, and its own sector.
  unfoldable pub deallocate : Fs → Inode → Option Fs
  deallocate fs i = release_all fs i.content.direct >>= λ fs₁.
      close_indirect fs₁ i.content >>= λ fs₂.
      close_doubly fs₂ i.content >>= λ fs₃. release file fs₃ i.sector

  -- The last close: the cache is flushed, and the blocks go if the inode was removed.
  unfoldable pub last_close : Fs → Inode → Option Fs
  last_close fs i = cache_flush fs.cache false >>= λ st.
      let fs' : Fs = record fs { cache = st } in if i.removed then deallocate fs' i else some fs'

  unfoldable pub inode_close : Opened → (sector : ℕ) → Option Opened
  inode_close o sector = find_open o.open_inodes sector >>= λ i.
      let i' : Inode = record i { open_cnt = i.open_cnt - 1 } in
      if i.open_cnt == 1
      then (last_close o.fs i' >>= λ fs.
          some (record { fs = fs; open_inodes = list_remove o.open_inodes sector }))
      else some (record o { open_inodes = assign o.open_inodes sector i' })
