-- ===== src/Inode/Full.antt =====
-- The growth of a file when no sector is free.
use cs130_25spring_project.Common.{
  ℕ, zero, suc, ◌<◌, ◌≡◌, refl, ap, ◌∙◌, inl, inr, true, false, Option, none, some, List, [], ◌∷◌,
  arith, ◌==◌, length, get_or, Bool-cases, lt→ltb, eq→==,
}
use cs130_25spring_project.Common.Words.{length-decode}
use cs130_25spring_project.Block.{block_sector_none}
use cs130_25spring_project.Bitmap.View.{at}
use cs130_25spring_project.Fs.{Fs, MapFile}
use cs130_25spring_project.Fs.Laws.{
  IsValid, sector, table, read_table-Shows, write_table-splice, drop_sector-keeps,
}
use cs130_25spring_project.FreeMap.{free_map_allocate}
use cs130_25spring_project.FreeMap.Save.{Remapped}
use cs130_25spring_project.FreeMap.Allocate.{
  Allocated, allocated, no_group, unwritten, free_map_allocate-Allocated,
}
use cs130_25spring_project.FreeMap.Release.{free_map_release-Remapped}
use cs130_25spring_project.Inode.Rollback.{release}
use cs130_25spring_project.Inode.Grow.{found_or, grow_table, grow_sector}

-- Every sector of the device is in use.
abbrev pub IsFull : Fs → Type 0
IsFull fs = (j : ℕ) → j < fs.free_map.bit_cnt → at fs.free_map j ≡ true

-- Every entry of the table is a sector.
abbrev pub AllUsed : List ℕ → Type 0
AllUsed l = (i : ℕ) → i < length l → (get_or l i 0 == block_sector_none) ≡ false

module _ (file : MapFile) where
  -- An allocation finds no sector and changes no bit.
  allocate-IsFull :
      (fs : Fs)
      → IsValid fs
      → IsFull fs
      → (fs' : Fs) × (free_map_allocate file fs 1 ≡ some (fs', none))
        × Remapped file fs (at fs.free_map) fs'
  allocate-IsFull fs v full_map = go (free_map_allocate-Allocated file fs 1 v)
    where
      go :
          (fs' : Fs) × (r : Option ℕ) × (free_map_allocate file fs 1 ≡ some (fs', r))
            × Allocated file fs 1 fs' r
          → (fs' : Fs) × (free_map_allocate file fs 1 ≡ some (fs', none))
            × Remapped file fs (at fs.free_map) fs'
      go (fs', r, e, allocated s inside group first re written) =
          absurd (ground (arith, full_map s (omega arith), group s (omega arith) (omega arith)))
      go (fs', r, e, no_group none_free same) = (
        fs',
        e,
        rw same (record {
          valid = v;
          size = refl;
          opened = refl;
          bits = λ j. refl;
          sectors = λ s own. refl;
        }),
      )
      go (fs', r, e, unwritten s map st inside group first held o w re) = (fs', e, re)

  -- The loop over a table whose entries are all sectors passes them.
  pub grow_table-AllUsed :
      (sectors : ℕ) (fs : Fs) (l : List ℕ)
      → 0 < sectors
      → AllUsed l
      → grow_table file sectors fs 0 l ≡ some (fs, l, 0, true)
  unfolding grow_table
  grow_table-AllUsed sectors fs [] h used = refl
  grow_table-AllUsed sectors fs (e ∷ l) h used =
      let rest = grow_table-AllUsed sectors fs l h (λ i hi. used (suc i) (omega arith)) in
      rw (lt→ltb h, used 0 (omega arith), rest) refl

  -- The loop stops at the first entry without a sector, with the table as it was.
  grow_table-IsFull :
      (sectors : ℕ) (fs : Fs) (l : List ℕ) (k : ℕ)
      → 0 < sectors
      → IsValid fs
      → IsFull fs
      → k < length l
      → get_or l k 0 ≡ block_sector_none
      → (fs' : Fs) × (grow_table file sectors fs 0 l ≡ some (fs', l, 0, false))
        × Remapped file fs (at fs.free_map) fs'
  unfolding grow_table found_or
  grow_table-IsFull sectors fs [] k h v full_map hk e = absurd (omega arith)
  grow_table-IsFull sectors fs (e ∷ l) zero h v full_map hk at_k =
      let (fs', a, re) = allocate-IsFull fs v full_map in
      (fs', rw (lt→ltb h, eq→== at_k, a) refl, re)
  grow_table-IsFull sectors fs (e ∷ l) (suc k) h v full_map hk at_k =
      elim (Bool-cases (e == block_sector_none)) [
        | inl here ↦
            let (fs', a, re) = allocate-IsFull fs v full_map in
            (fs', rw (lt→ltb h, here, a) refl, re)
        | inr used ↦
            let (fs', a, re) = grow_table-IsFull sectors fs l k h v full_map (omega arith) at_k in
            (fs', rw (lt→ltb h, used, a) refl, re)
      ]

  -- A sector in use is released, and its bit is clear from then on.
  pub release-clear :
      (fs : Fs) (t : ℕ)
      → IsValid fs
      → t < fs.free_map.bit_cnt
      → at fs.free_map t ≡ true
      → fs.free_map_open ≡ true
      → (fs' : Fs) × (release file fs t ≡ some fs') × (at fs'.free_map t ≡ false)
  unfolding release
  release-clear fs t v h used o =
      let (fs₁, e, v₁, map, open_same, kept) = drop_sector-keeps fs t v h in
      let (fs₂, e₂, re) =
        free_map_release-Remapped file fs₁ 1 v₁ t (rw map (omega arith))
          (λ k lo hi. rw map (ap (at fs.free_map) {x = k} {y = t} (omega arith) ∙ used))
          (open_same ∙ o) in
      (fs₂, rw e e₂, ground (arith, re.bits t))

  -- The loop over a table in a sector stops there as well, and the table stays in use.
  pub grow_sector-IsFull :
      (sectors : ℕ) (fs : Fs) (t k : ℕ)
      → 0 < sectors
      → IsValid fs
      → IsFull fs
      → t < fs.free_map.bit_cnt
      → k < 128
      → get_or (table fs t) k 0 ≡ block_sector_none
      → (fs' : Fs) × (grow_sector file sectors fs 0 t ≡ some (fs', 0, false))
        × IsValid fs'
        × (fs'.free_map.bit_cnt ≡ fs.free_map.bit_cnt)
        × (fs'.free_map_open ≡ fs.free_map_open)
        × ((j : ℕ) → at fs'.free_map j ≡ at fs.free_map j)
  unfolding grow_sector
  grow_sector-IsFull sectors fs t k h v full_map ht hk at_k =
      let (fs₁, e₁, same) = read_table-Shows fs t v ht in
      let (fs₂, e₂, re) =
        grow_table-IsFull sectors fs₁ (table fs t) k h same.valid
          (λ j hj. rw same.map (full_map j (ground (arith, hj, ap (λ m. m.bit_cnt) same.map))))
          (omega (arith, length-decode 128 (sector fs t))) at_k in
      let (fs₃, e₃, shows) =
        write_table-splice fs₂ t re.valid (omega (arith, re.size, ap (λ m. m.bit_cnt) same.map))
          (table fs t) in
      (
        fs₃,
        rw (e₁, e₂, e₃) refl,
        shows.valid,
        ap (λ m. m.bit_cnt) shows.map ∙ re.size ∙ ap (λ m. m.bit_cnt) same.map,
        shows.opened ∙ re.opened ∙ same.opened,
        λ j. ap (λ m. at m j) shows.map ∙ re.bits j ∙ ap (λ m. at m j) same.map,
      )
