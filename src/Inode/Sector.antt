-- ===== src/Inode/Sector.antt =====
-- The offset of a byte to its sector: the whole of `byte_to_sector_unlocked`.
use cs130_25spring_project.Common.{
  ℕ, ◌+◌, ◌-◌, ◌/◌, ◌<◌, ◌≡◌, sym, ap, ◌∙◌, false, some, List, ◌++◌, arith, ltb, length, get_or,
  get_elem?_of_lt, lt→ltb, ge→ltb, dec_lt,
}
use cs130_25spring_project.Block.{block_sector_none}
use cs130_25spring_project.Fs.{Fs}
use cs130_25spring_project.Fs.Laws.{IsValid, sector, Same, Same-refl}
use cs130_25spring_project.Inode.{
  InodeDisk, indirect_lookup, doubly_indirect_lookup, byte_to_sector_unlocked,
}
use cs130_25spring_project.Inode.Index.{
  table_of, tables_of, blocks, block_of, length-table_of, get_or-append_left, get_or-append_right,
  get_or_of_ge, length-blocks,
}
use cs130_25spring_project.Inode.Lookup.{
  IsIndex, indirect_lookup-table, doubly_indirect_lookup-table,
}

module _ (S : ℕ → List ℕ) (d : InodeDisk) (h : length d.direct ≡ 10) where
  block_of-direct : (k : ℕ) → k < 10 → block_of S d k ≡ get_or d.direct k block_sector_none
  unfolding blocks
  block_of-direct k hk =
      get_or-append_left d.direct
        (table_of S d.indirect ++ tables_of S (table_of S d.doubly_indirect)) k block_sector_none
        (omega arith)

  block_of-indirect :
      (k j : ℕ)
      → k ≡ 10 + j
      → j < 128
      → block_of S d k ≡ get_or (table_of S d.indirect) j block_sector_none
  unfolding blocks
  block_of-indirect k j e hj =
      get_or-append_right d.direct
        (table_of S d.indirect ++ tables_of S (table_of S d.doubly_indirect)) k j block_sector_none
        (omega arith)
      ∙ get_or-append_left (table_of S d.indirect) (tables_of S (table_of S d.doubly_indirect)) j
          block_sector_none (omega (arith, length-table_of S d.indirect))

  block_of-doubly :
      (k j : ℕ)
      → k ≡ 138 + j
      → block_of S d k ≡ get_or (tables_of S (table_of S d.doubly_indirect)) j block_sector_none
  unfolding blocks
  block_of-doubly k j e =
      get_or-append_right d.direct
        (table_of S d.indirect ++ tables_of S (table_of S d.doubly_indirect)) k (128 + j)
        block_sector_none (omega arith)
      ∙ get_or-append_right (table_of S d.indirect) (tables_of S (table_of S d.doubly_indirect))
          (128 + j) j block_sector_none (omega (arith, length-table_of S d.indirect))

-- The block of an offset, in each of the three ranges of the code and past them.
module _ (fs : Fs) (d : InodeDisk) (pos : ℕ) (v : IsValid fs)
    (ix : IsIndex (sector fs) fs.free_map.bit_cnt d) where
  -- `byte_to_sector_unlocked` at any offset does not panic: it returns the sector of the offset's
  -- block in the list of all blocks, BLOCK_SECTOR_NONE where the inode has none or the offset is
  -- past the largest file, and changes nothing that is seen of the device.
  pub byte_to_sector_unlocked-block_of :
      (fs' : Fs) × (byte_to_sector_unlocked fs d pos
        ≡ some (fs', block_of (sector fs) d (pos / 512)))
      × Same fs fs'
  unfolding byte_to_sector_unlocked
  byte_to_sector_unlocked-block_of = elim (dec_lt pos 5120) [
    | yes p ↦ (
      fs,
      rw
          (
            lt→ltb p,
            get_elem?_of_lt d.direct (pos / 512) block_sector_none (omega (arith, ix.direct)),
          )
          (ap (λ k. some (fs, k))
            (sym (block_of-direct (sector fs) d ix.direct (pos / 512) (omega arith)))),
      Same-refl v,
    )
    | no p ↦ elim (dec_lt pos 70656) [
      | yes q ↦
          one p q (indirect_lookup-table fs d.indirect (pos - 5120) v (omega arith) ix.indirect)
      | no q ↦ elim (dec_lt pos 8459264) [
        | yes r ↦ two q r (
            doubly_indirect_lookup-table fs d.doubly_indirect (pos - 70656) v (omega arith)
              ix.doubly ix.inner)
        | no r ↦ (
          fs,
          rw (low p, mid q, high r)
              (ap (λ k. some (fs, k))
                (sym (
                  get_or_of_ge (blocks (sector fs) d) (pos / 512) block_sector_none
                    (omega (arith, length-blocks (sector fs) d ix.direct))))),
          Same-refl v,
        )
      ]
    ]
  ]
    where
      low : ¬ (pos < 5120) → ltb pos 5120 ≡ false
      low p = ge→ltb (omega arith)

      mid : ¬ (pos < 70656) → ltb pos 70656 ≡ false
      mid q = ge→ltb (omega arith)

      high : ¬ (pos < 8459264) → ltb pos 8459264 ≡ false
      high r = ge→ltb (omega arith)

      one :
          ¬ (pos < 5120)
          → pos < 70656
          → (fs' : Fs) × (indirect_lookup fs d.indirect (pos - 5120)
              ≡ some (
                fs',
                get_or (table_of (sector fs) d.indirect) ((pos - 5120) / 512) block_sector_none,
              ))
            × Same fs fs'
          → (fs' : Fs) × (byte_to_sector_unlocked fs d pos
              ≡ some (fs', block_of (sector fs) d (pos / 512)))
            × Same fs fs'
      one p q (fs', e, same) = (
        fs',
        rw (low p, lt→ltb q, e)
            (ap (λ k. some (fs', k))
              (sym (
                block_of-indirect (sector fs) d ix.direct (pos / 512) ((pos - 5120) / 512)
                  (omega arith) (omega arith)))),
        same,
      )

      two :
          ¬ (pos < 70656)
          → pos < 8459264
          → (fs' : Fs) × (doubly_indirect_lookup fs d.doubly_indirect (pos - 70656)
              ≡ some (
                fs',
                get_or
                    (tables_of (sector fs) (table_of (sector fs) d.doubly_indirect))
                    ((pos - 70656) / 512)
                    block_sector_none,
              ))
            × Same fs fs'
          → (fs' : Fs) × (byte_to_sector_unlocked fs d pos
              ≡ some (fs', block_of (sector fs) d (pos / 512)))
            × Same fs fs'
      two q r (fs', e, same) = (
        fs',
        rw (low (λ c. q (omega arith)), mid q, lt→ltb r, e)
            (ap (λ k. some (fs', k))
              (sym (
                block_of-doubly (sector fs) d ix.direct (pos / 512) ((pos - 70656) / 512)
                  (omega arith)))),
        same,
      )
