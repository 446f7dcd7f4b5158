-- ===== src/Inode/Loses.antt =====
-- A failed growth that loses a table of the file.
use cs130_25spring_project.Common.{
  ℕ, zero, suc, ◌<◌, ◌≡◌, refl, ap, ◌∙◌, Bool, true, false, Option, none, some, List, arith, ◌==◌,
  leb, get_or, eq→==, ne→==,
}
use cs130_25spring_project.Block.{block_sector_none}
use cs130_25spring_project.Bitmap.View.{at}
use cs130_25spring_project.Fs.{Fs, MapFile, read_table}
use cs130_25spring_project.Fs.Laws.{IsValid, table, read_table-Shows}
use cs130_25spring_project.Inode.{InodeDisk}
use cs130_25spring_project.Inode.Rollback.{
  release, stopped, fail, fail_doubly, fail_indirect, fail_table,
}
use cs130_25spring_project.Inode.Grow.{
  found_or, grow_table, grow_sector, grow_indirect, table_or_new, failed, inode_grow_unlocked,
}
use cs130_25spring_project.Inode.Full.{
  IsFull, AllUsed, grow_table-AllUsed, release-clear, grow_sector-IsFull,
}

module _ (file : MapFile) where
  fail_table-zero :
      (n : ℕ) (fs : Fs) (ib : List ℕ) → fail_table file n fs ib 0 ≡ some (fs, ib, 0, none)
  unfolding fail_table
  fail_table-zero zero fs ib = refl
  fail_table-zero (suc n) fs ib = refl

  fail_doubly-none :
      (fs : Fs) (d : InodeDisk)
      → d.doubly_indirect ≡ block_sector_none
      → fail_doubly file fs d 0 ≡ some (fs, d, 0, false)
  unfolding fail_doubly
  fail_doubly-none fs d e = rw (eq→== e) refl

  fail_indirect-zero :
      (fs fs₁ fs₂ : Fs) (d : InodeDisk) (ib : List ℕ)
      → (d.indirect == block_sector_none) ≡ false
      → read_table fs d.indirect ≡ some (fs₁, ib)
      → release file fs₁ d.indirect ≡ some fs₂
      → fail_indirect file fs d 0 ≡ some (fs₂, record d { indirect = block_sector_none }, 0, false)
  unfolding fail_indirect stopped
  fail_indirect-zero fs fs₁ fs₂ d ib real e₁ e₂ = rw (real, e₁, fail_table-zero 128 fs₁ ib, e₂) refl

  failed-zero :
      (fs fs₁ : Fs) (d d' : InodeDisk)
      → fail_doubly file fs d 0 ≡ some (fs, d, 0, false)
      → fail_indirect file fs d 0 ≡ some (fs₁, d', 0, false)
      → failed file fs d 0 ≡ some (fs₁, d', false)
  unfolding failed fail
  failed-zero fs fs₁ d d' e e₁ = rw (e, e₁, fail_table-zero 10 fs₁ d'.direct) refl

  grow_indirect-failed :
      (fs fs₁ : Fs) (d : InodeDisk) (sectors : ℕ) (r : Option (Fs × InodeDisk × Bool))
      → (d.indirect == block_sector_none) ≡ false
      → grow_sector file sectors fs 0 d.indirect ≡ some (fs₁, 0, false)
      → failed file fs₁ d 0 ≡ r
      → grow_indirect file sectors fs d 0 ≡ r
  unfolding grow_indirect table_or_new found_or
  grow_indirect-failed fs fs₁ d sectors r real e e₁ = rw (real, e) e₁

  inode_grow_unlocked-indirect :
      (fs : Fs) (d : InodeDisk) (sectors : ℕ) (r : Option (Fs × InodeDisk × Bool))
      → 0 < sectors
      → grow_table file sectors fs 0 d.direct ≡ some (fs, d.direct, 0, true)
      → grow_indirect file sectors fs d 0 ≡ r
      → inode_grow_unlocked file fs d sectors ≡ r
  unfolding inode_grow_unlocked
  inode_grow_unlocked-indirect fs d sectors r h e e₁ =
      let some_wanted : (sectors == 0) ≡ false = ne→== (omega arith) in
      let less : leb sectors 0 ≡ false = ground (arith, h) in rw (some_wanted, e, less) e₁

  -- When no sector is free, growing a file whose direct pointers are all in use, with a table of
  -- indirect pointers that has room and no doubly indirect table, fails. It also releases the
  -- sector of the table and forgets the table, with every sector of the file that it names.
  pub inode_grow_unlocked-loses :
      (fs : Fs) (d : InodeDisk) (sectors k : ℕ)
      → IsValid fs
      → IsFull fs
      → fs.free_map_open ≡ true
      → AllUsed d.direct
      → d.indirect < fs.free_map.bit_cnt
      → k < 128
      → get_or (table fs d.indirect) k 0 ≡ block_sector_none
      → d.doubly_indirect ≡ block_sector_none
      → 0 < sectors
      → (fs' : Fs) × (inode_grow_unlocked file fs d sectors
          ≡ some (fs', record d { indirect = block_sector_none }, false))
        × (at fs'.free_map d.indirect ≡ false)
  inode_grow_unlocked-loses fs d sectors k v full_map o used ht hk at_k two h =
      let real : (d.indirect == block_sector_none) ≡ false =
        ne→== (omega (arith, v.room, v.size32)) in
      let (fs₁, e₁, v₁, size, open_same, bits) =
        grow_sector-IsFull file sectors fs d.indirect k h v full_map ht hk at_k in
      let (fs₂, e₂, same) = read_table-Shows fs₁ d.indirect v₁ (omega arith) in
      let (fs₃, e₃, clear) =
        release-clear file fs₂ d.indirect same.valid (omega (arith, ap (λ m. m.bit_cnt) same.map))
          (ap (λ m. at m d.indirect) same.map ∙ bits d.indirect ∙ full_map d.indirect ht)
          (same.opened ∙ open_same ∙ o) in
      (
        fs₃,
        inode_grow_unlocked-indirect fs d sectors _ h
            (grow_table-AllUsed file sectors fs d.direct h used)
            (grow_indirect-failed fs fs₁ d sectors _ real e₁ (
              failed-zero fs₁ fs₃ d (record d { indirect = block_sector_none })
                (fail_doubly-none fs₁ d two)
                (fail_indirect-zero fs₁ fs₂ fs₃ d (table fs₁ d.indirect) real e₂ e₃))),
        clear,
      )
