-- ===== src/Inode/Rollback.antt =====
-- The `fail` label of `inode_grow_unlocked`: sectors are released from the last one down until
-- as many are released as this call had allocated.
use cs130_25spring_project.Common.{
  ℕ, zero, suc, ◌-◌, Bool, true, false, Option, none, some, List, ◌==◌, if◌then◌else◌, ◌>>=◌,
  get_elem?, set,
}
use cs130_25spring_project.Block.{block_sector_none}
use cs130_25spring_project.Fs.{Fs, MapFile, read_table, write_table, drop_sector}
use cs130_25spring_project.FreeMap.{free_map_release}
use cs130_25spring_project.Inode.{InodeDisk}

unfoldable pub stopped {ℓ} : {A : Type ℓ} → Option ℕ → A → (ℕ → A) → A
stopped none on at_entry = on
stopped (some j) on at_entry = at_entry j

-- The last component of a result says that the routine returns there.
module _ (file : MapFile) where
  -- `cache_free` and `free_map_release` of one sector
  unfoldable pub release : Fs → ℕ → Option Fs
  release fs s = drop_sector fs s >>= λ fs'. free_map_release file fs' s 1

  -- The loop from entry `n - 1` down that releases sectors while some are counted. The last
  -- component is the entry at which the count reached 0.
  unfoldable pub fail_table :
      (n : ℕ) → Fs → List ℕ → (allocated : ℕ) → Option (Fs × List ℕ × ℕ × Option ℕ)
  fail_table zero fs ib allocated = some (fs, ib, allocated, none)
  fail_table (suc j) fs ib allocated =
      if allocated == 0
      then some (fs, ib, allocated, none)
      else (get_elem? ib j >>= λ e.
          if e == block_sector_none
          then fail_table j fs ib allocated
          else (release fs e >>= λ fs'.
              let ib' = set ib j block_sector_none in
              let allocated' = allocated - 1 in
              if allocated' == 0
              then some (fs', ib', allocated', some j)
              else fail_table j fs' ib' allocated'))

  -- The count reached 0 at entry `j` of the table at entry `i` of the doubly indirect one: the tables
  -- are released if nothing is left in them, or written back. The result has the pointer of the inode.
  unfoldable pub fail_return :
      Fs → InodeDisk → (dib ib : List ℕ) → (e i j : ℕ) → Option (Fs × InodeDisk)
  fail_return fs d dib ib e i j =
      if j == 0
      then (release fs e >>= λ fs₁.
          if i == 0
          then (release fs₁ d.doubly_indirect >>= λ fs₂.
              some (fs₂, record d { doubly_indirect = block_sector_none }))
          else (write_table fs₁ d.doubly_indirect (set dib i block_sector_none) >>= λ fs₂.
              some (fs₂, d)))
      else (write_table fs e ib >>= λ fs₁.
          write_table fs₁ d.doubly_indirect dib >>= λ fs₂. some (fs₂, d))

  unfoldable pub fail_tables :
      (n : ℕ)
      → Fs
      → InodeDisk
      → (dib : List ℕ) → (allocated : ℕ) → Option (Fs × InodeDisk × ℕ × Bool)
  fail_tables zero fs d dib allocated = some (fs, d, allocated, false)
  fail_tables (suc i) fs d dib allocated =
      if allocated == 0
      then some (fs, d, allocated, false)
      else (get_elem? dib i >>= λ e.
          if e == block_sector_none
          then fail_tables i fs d dib allocated
          else (read_table fs e >>= λ (fs₁, ib).
              fail_table 128 fs₁ ib allocated >>= λ (fs₂, ib', allocated', stop).
              stopped stop
                (release fs₂ e >>= λ fs₃.
                  fail_tables i fs₃ d (set dib i block_sector_none) allocated')
                (λ j. fail_return fs₂ d dib ib' e i j >>= λ (fs₃, d').
                  some (fs₃, d', allocated', true))))

  unfoldable pub fail_doubly : Fs → InodeDisk → (allocated : ℕ) → Option (Fs × InodeDisk × ℕ × Bool)
  fail_doubly fs d allocated =
      if d.doubly_indirect == block_sector_none
      then some (fs, d, allocated, false)
      else (read_table fs d.doubly_indirect >>= λ (fs₁, dib).
          fail_tables 128 fs₁ d dib allocated >>= λ (fs₂, d', allocated', returned).
          if returned
          then some (fs₂, d', allocated', true)
          else (release fs₂ d'.doubly_indirect >>= λ fs₃.
              some (fs₃, record d' { doubly_indirect = block_sector_none }, allocated', false)))

  unfoldable pub fail_indirect :
      Fs → InodeDisk → (allocated : ℕ) → Option (Fs × InodeDisk × ℕ × Bool)
  fail_indirect fs d allocated =
      if d.indirect == block_sector_none
      then some (fs, d, allocated, false)
      else (read_table fs d.indirect >>= λ (fs₁, ib).
          fail_table 128 fs₁ ib allocated >>= λ (fs₂, ib', allocated', stop).
          let empty = release fs₂ d.indirect in
          let d' : InodeDisk = record d { indirect = block_sector_none } in
          stopped stop (empty >>= λ fs₃. some (fs₃, d', allocated', false)) (λ j.
            if j == 0
            then (empty >>= λ fs₃. some (fs₃, d', allocated', true))
            else (write_table fs₂ d.indirect ib' >>= λ fs₃. some (fs₃, d, allocated', true))))

  -- What the routine leaves when it returns false.
  unfoldable pub fail : Fs → InodeDisk → (allocated : ℕ) → Option (Fs × InodeDisk)
  fail fs d allocated = fail_doubly fs d allocated >>= λ (fs₁, d₁, allocated₁, returned).
      if returned
      then some (fs₁, d₁)
      else (fail_indirect fs₁ d₁ allocated₁ >>= λ (fs₂, d₂, allocated₂, returned₂).
          if returned₂
          then some (fs₂, d₂)
          else (fail_table 10 fs₂ d₂.direct allocated₂ >>= λ (fs₃, direct, allocated₃, stop).
              some (fs₃, record d₂ { direct = direct })))
