-- ===== src/Inode/Grow.antt =====
-- The growth of an inode, `inode_grow_unlocked`, up to its `fail` label.
-- `none` in place of a sector is a failed allocation.
use cs130_25spring_project.Common.{
  ℕ, ◌+◌, Bool, true, false, Option, none, some, List, [], ◌∷◌, ◌==◌, ltb, leb, not, ◌&&◌,
  if◌then◌else◌, ◌>>=◌, replicate,
}
use cs130_25spring_project.Block.{block_sector_size, block_sector_none}
use cs130_25spring_project.Fs.{Fs, MapFile, read_table, write_table, write_bytes}
use cs130_25spring_project.FreeMap.{free_map_allocate}
use cs130_25spring_project.Inode.{InodeDisk}
use cs130_25spring_project.Inode.Rollback.{fail}

abbrev pub zeros : List ℕ
zeros = replicate block_sector_size 0

abbrev pub no_sectors : List ℕ
no_sectors = replicate 128 block_sector_none

-- A test of an allocated sector: the branch of a failure, and that of a sector.
unfoldable pub found_or {ℓ} : {A : Type ℓ} → Option ℕ → A → (ℕ → A) → A
found_or none failed found = failed
found_or (some s) failed found = found s

-- What a loop over a table leaves: the table, the number allocated so far, and that no allocation
-- failed.
abbrev pub Loop : Type 0
Loop = Fs × List ℕ × ℕ × Bool

-- A table with the entry in front that the loop has passed.
abbrev pub passed : ℕ → Loop → Loop
passed e (fs, l, allocated, ok) = (fs, e ∷ l, allocated, ok)

module _ (file : MapFile) where
  unfoldable pub inode_indirect_allocate : Fs → Option (Fs × Option ℕ)
  inode_indirect_allocate fs = do
    (fs', sector) ← free_map_allocate file fs 1
    found_or sector (some (fs', none))
        (λ s. write_table fs' s no_sectors >>= λ fs''. some (fs'', some s))

  -- The loop over pointers to data sectors, those of the inode or of a table.
  unfoldable pub grow_table : (sectors : ℕ) → Fs → (allocated : ℕ) → List ℕ → Option Loop
  grow_table sectors fs allocated [] = some (fs, [], allocated, true)
  grow_table sectors fs allocated (e ∷ l) =
      if ltb allocated sectors
      then (if e == block_sector_none
          then (free_map_allocate file fs 1 >>= λ (fs₁, sector).
              found_or sector (some (fs₁, e ∷ l, allocated, false)) (λ s.
                write_bytes fs₁ s zeros 0 >>= λ fs₂.
                grow_table sectors fs₂ (allocated + 1) l >>= λ rest. some (passed s rest)))
          else (grow_table sectors fs allocated l >>= λ rest. some (passed e rest)))
      else some (fs, e ∷ l, allocated, true)

  -- A table is read, its entries are filled, and it is written back, whether they all were or not.
  unfoldable pub grow_sector :
      (sectors : ℕ) → Fs → (allocated : ℕ) → (table : ℕ) → Option (Fs × ℕ × Bool)
  grow_sector sectors fs allocated table = do
    (fs₁, ib) ← read_table fs table
    (fs₂, ib', allocated', ok) ← grow_table sectors fs₁ allocated ib
    fs₃ ← write_table fs₂ table ib'
    some (fs₃, allocated', ok)

  -- The sector of a table, allocated where there is none.
  unfoldable pub table_or_new : Fs → ℕ → Option (Fs × Option ℕ)
  table_or_new fs e =
      if e == block_sector_none then inode_indirect_allocate fs else some (fs, some e)

  -- The loop over the tables of the doubly indirect one.
  unfoldable pub grow_tables : (sectors : ℕ) → Fs → (allocated : ℕ) → List ℕ → Option Loop
  grow_tables sectors fs allocated [] = some (fs, [], allocated, true)
  grow_tables sectors fs allocated (e ∷ l) =
      if ltb allocated sectors
      then (table_or_new fs e >>= λ (fs₁, table).
          found_or table (some (fs₁, e ∷ l, allocated, false)) (λ t.
            grow_sector sectors fs₁ allocated t >>= λ (fs₂, allocated', ok).
            if ok
            then (grow_tables sectors fs₂ allocated' l >>= λ rest. some (passed t rest))
            else some (fs₂, t ∷ l, allocated', false)))
      else some (fs, e ∷ l, allocated, true)

  unfoldable pub failed : Fs → InodeDisk → (allocated : ℕ) → Option (Fs × InodeDisk × Bool)
  failed fs d allocated = fail file fs d allocated >>= λ (fs', d'). some (fs', d', false)

  unfoldable pub grow_doubly :
      (sectors : ℕ) → Fs → InodeDisk → (allocated : ℕ) → Option (Fs × InodeDisk × Bool)
  grow_doubly sectors fs d allocated = table_or_new fs d.doubly_indirect >>= λ (fs₁, table).
      found_or table (failed fs₁ d allocated) (λ t.
        let d' : InodeDisk = record d { doubly_indirect = t } in
        read_table fs₁ t >>= λ (fs₂, dib).
        grow_tables sectors fs₂ allocated dib >>= λ (fs₃, dib', allocated', ok).
        write_table fs₃ t dib' >>= λ fs₄.
        if ok && leb sectors allocated' then some (fs₄, d', true) else failed fs₄ d' allocated')

  unfoldable pub grow_indirect :
      (sectors : ℕ) → Fs → InodeDisk → (allocated : ℕ) → Option (Fs × InodeDisk × Bool)
  grow_indirect sectors fs d allocated = table_or_new fs d.indirect >>= λ (fs₁, table).
      found_or table (failed fs₁ d allocated) (λ t.
        let d' : InodeDisk = record d { indirect = t } in
        grow_sector sectors fs₁ allocated t >>= λ (fs₂, allocated', ok).
        if not ok
        then failed fs₂ d' allocated'
        else if leb sectors allocated'
        then some (fs₂, d', true)
        else grow_doubly sectors fs₂ d' allocated')

  unfoldable pub inode_grow_unlocked :
      Fs → InodeDisk → (sectors : ℕ) → Option (Fs × InodeDisk × Bool)
  inode_grow_unlocked fs d sectors =
      if sectors == 0
      then some (fs, d, true)
      else (grow_table sectors fs 0 d.direct >>= λ (fs₁, direct, allocated, ok).
          let d' : InodeDisk = record d { direct = direct } in
          if not ok
          then failed fs₁ d' allocated
          else if leb sectors allocated
          then some (fs₁, d', true)
          else grow_indirect sectors fs₁ d' allocated)
