-- ===== src/Inode/Lookup.antt =====
-- `byte_to_sector_unlocked` looks the block of an offset up in the list of blocks.
use cs130_25spring_project.Common.{
  ℕ, zero, suc, ◌+◌, ◌*◌, ◌/◌, ◌%◌, ◌<◌, ◌≡◌, refl, sym, ap, ◌∙◌, inl, inr, true, false, some, List,
  arith, ◌==◌, ltb, length, get_or, get_elem?, replicate, Bool-cases, get_elem?_of_lt, lt→ltb,
}
use cs130_25spring_project.Common.Words.{decode}
use cs130_25spring_project.Block.{block_sector_none}
use cs130_25spring_project.Fs.{Fs, read_table}
use cs130_25spring_project.Fs.Laws.{
  IsValid, sector, table, Same, Same-refl, Same-trans, Same-sector, read_table-Shows,
}
use cs130_25spring_project.Inode.{InodeDisk, indirect_lookup, doubly_indirect_lookup}
use cs130_25spring_project.Inode.Index.{table_of, tables_of, length-table_of, get_or-tables_of}

-- The inode has ten direct pointers, and each table that it refers to lies among the `n` sectors.
pub record IsIndex (S : ℕ → List ℕ) (n : ℕ) (d : InodeDisk) : Type 0 where
  pub direct : length d.direct ≡ 10
  pub indirect : (d.indirect == block_sector_none) ≡ false → d.indirect < n
  pub doubly : (d.doubly_indirect == block_sector_none) ≡ false → d.doubly_indirect < n
  pub inner :
      (i : ℕ)
      → (get_or (table_of S d.doubly_indirect) i block_sector_none == block_sector_none) ≡ false
      → get_or (table_of S d.doubly_indirect) i block_sector_none < n

pub get_or-replicate : (n i d : ℕ) → get_or (replicate n d) i d ≡ d
get_or-replicate zero i d = refl
get_or-replicate (suc n) zero d = refl
get_or-replicate (suc n) (suc i) d = get_or-replicate n i d

-- The lookup in one table gives the entry of the offset's sector, and changes nothing.
pub indirect_lookup-table :
    (fs : Fs) (s pos : ℕ)
    → IsValid fs
    → pos < 128 * 512
    → ((s == block_sector_none) ≡ false → s < fs.free_map.bit_cnt)
    → (fs' : Fs) × (indirect_lookup fs s pos
        ≡ some (fs', get_or (table_of (sector fs) s) (pos / 512) block_sector_none))
      × Same fs fs'
unfolding indirect_lookup table_of
indirect_lookup-table fs s pos v h inside = elim (Bool-cases (s == block_sector_none)) [
  | inl out ↦ (
    fs,
    rw out (ap (λ k. some (fs, k)) (sym (get_or-replicate 128 (pos / 512) block_sector_none))),
    Same-refl v,
  )
  | inr real ↦ found real (read_table-Shows fs s v (inside real))
]
  where
    found :
        (s == block_sector_none) ≡ false
        → (fs' : Fs) × (read_table fs s ≡ some (fs', table fs s)) × Same fs fs'
        → (fs' : Fs) × (indirect_lookup fs s pos
            ≡ some (fs', get_or (table_of (sector fs) s) (pos / 512) block_sector_none))
          × Same fs fs'
    found real (fs', e, same) =
        let idx : ltb (pos / 512) 128 ≡ true = lt→ltb (omega arith) in
        let whole : table_of (sector fs) s ≡ table fs s = rw real in
        let entry =
          get_elem?_of_lt (table fs s) (pos / 512) block_sector_none
            (omega (arith, length-table_of (sector fs) s, ap length whole)) in
        (fs', rw (real, e, idx, entry), same)

table_of-none :
    (S : ℕ → List ℕ) (s : ℕ)
    → (s == block_sector_none) ≡ true
    → table_of S s ≡ replicate 128 block_sector_none
unfolding table_of
table_of-none S s e = rw e

table_of-some :
    (S : ℕ → List ℕ) (s : ℕ) → (s == block_sector_none) ≡ false → table_of S s ≡ decode 128 (S s)
unfolding table_of
table_of-some S s e = rw e

-- With no table at all every entry of every table of it is no sector.
tables_of-none :
    (S : ℕ → List ℕ) (s a b : ℕ)
    → (s == block_sector_none) ≡ true
    → a < 128
    → b < 128
    → get_or (tables_of S (table_of S s)) (128 * a + b) block_sector_none ≡ block_sector_none
tables_of-none S s a b e ha hb =
    get_or-tables_of S (table_of S s) a b block_sector_none (omega (arith, length-table_of S s)) hb
      block_sector_none
    ∙ ap (λ l. get_or (table_of S (get_or l a block_sector_none)) b block_sector_none)
        (table_of-none S s e)
    ∙ ap (λ k. get_or (table_of S k) b block_sector_none) (get_or-replicate 128 a block_sector_none)
    ∙ ap (λ l. get_or l b block_sector_none) (table_of-none S block_sector_none refl)
    ∙ get_or-replicate 128 b block_sector_none

module _ (fs : Fs) (s pos : ℕ) (v : IsValid fs) where
  pub doubly_indirect_lookup-table :
      pos < 128 * 128 * 512
      → ((s == block_sector_none) ≡ false → s < fs.free_map.bit_cnt)
      → ((i : ℕ)
          → (get_or (table_of (sector fs) s) i block_sector_none == block_sector_none) ≡ false
          → get_or (table_of (sector fs) s) i block_sector_none < fs.free_map.bit_cnt)
      → (fs' : Fs) × (doubly_indirect_lookup fs s pos
          ≡ some (
            fs',
            get_or (tables_of (sector fs) (table_of (sector fs) s)) (pos / 512) block_sector_none,
          ))
        × Same fs fs'
  unfolding doubly_indirect_lookup
  doubly_indirect_lookup-table h inside inner = elim (Bool-cases (s == block_sector_none)) [
    | inl out ↦ (
      fs,
      rw out (
          ap (λ k. some (fs, k))
            (sym (
              ap (λ k. get_or (tables_of S (table_of S s)) k block_sector_none) split
              ∙ tables_of-none S s a b out (omega arith) (omega arith)))),
      Same-refl v,
    )
    | inr real ↦ found real (read_table-Shows fs s v (inside real))
  ]
    where
      S : ℕ → List ℕ
      S = sector fs

      a : ℕ
      a = pos / 65536

      b : ℕ
      b = pos % 65536 / 512

      split : pos / 512 ≡ 128 * a + b
      split = omega arith

      entry : ℕ
      entry = get_or (table_of S s) a block_sector_none

      value :
          get_or (tables_of S (table_of S s)) (pos / 512) block_sector_none
          ≡ get_or (table_of S entry) b block_sector_none
      value =
          ap (λ k. get_or (tables_of S (table_of S s)) k block_sector_none) split
          ∙ get_or-tables_of S (table_of S s) a b block_sector_none
              (omega (arith, length-table_of S s)) (omega arith) block_sector_none

      second :
          (fs₁ : Fs)
          → Same fs fs₁
          → (fs' : Fs) × (indirect_lookup fs₁ entry (pos % 65536)
              ≡ some
                  (fs', get_or (table_of (sector fs₁) entry) (pos % 65536 / 512) block_sector_none))
            × Same fs₁ fs'
      second fs₁ same =
          indirect_lookup-table fs₁ entry (pos % 65536) same.valid (omega arith)
            (λ real. rw same.map (inner a real))

      found :
          (s == block_sector_none) ≡ false
          → (fs₁ : Fs) × (read_table fs s ≡ some (fs₁, table fs s)) × Same fs fs₁
          → (fs' : Fs) × (doubly_indirect_lookup fs s pos
              ≡ some (fs', get_or (tables_of S (table_of S s)) (pos / 512) block_sector_none))
            × Same fs fs'
      found real (fs₁, e, same) =
          let (fs', e', same') = second fs₁ same in
          let got : get_elem? (table fs s) a ≡ some entry =
            ap (λ l. get_elem? l a) (sym (table_of-some S s real))
            ∙ get_elem?_of_lt (table_of S s) a block_sector_none
                (omega (arith, length-table_of S s)) in
          (
            fs',
            rw (real, e, got, e')
                (ap (λ T. some (fs', get_or (table_of T entry) b block_sector_none))
                    (Same-sector same)
                  ∙ ap (λ k. some (fs', k)) (sym value)),
            Same-trans same same',
          )
