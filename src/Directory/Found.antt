-- ===== src/Directory/Found.antt =====
-- A name that is added is found, and no other name is lost.
use cs130_25spring_project.Common.{
  ℕ, ◌*◌, ◌^◌, ◌<◌, ◌≡◌, ◌≢◌, ap, ◌∙◌, Bool, true, false, none, some, List, arith, ◌==◌, ltb,
  length,
}
use mathlib.Core.Path.{subst}
use cs130_25spring_project.Fs.{Fs, MapFile}
use cs130_25spring_project.Fs.Laws.{sector, Same, Same-sector}
use cs130_25spring_project.Inode.{Inode}
use cs130_25spring_project.Inode.Open.{Opened, find_open}
use cs130_25spring_project.Inode.FileCnt.{updated}
use cs130_25spring_project.Directory.{
  Dir, DirEntry, name_max, entry_size, matches, lookup, write_slot, dir_add,
}
use cs130_25spring_project.Directory.Lookup.{entry_at, entry_cnt}
use cs130_25spring_project.Directory.Slot.{is_free}
use cs130_25spring_project.Directory.Named.{matches-named}
use cs130_25spring_project.Inode.Reopen.{find_open-assign, find_open-sector}
use cs130_25spring_project.Directory.Add.{
  IsDir, Same-IsDir, IsFirstFree, filled, Writes, write_slot-Writes,
}
use cs130_25spring_project.Directory.Search.{IsName, Unused, lookup-Unused, lookup-only}

module _ (file : MapFile) where
  dir_add-steps :
      (o o' : Opened) (dir : Dir) (name : List ℕ) (inode_sector : ℕ) (stack : DirEntry) (fs : Fs)
      (b : Bool)
      → IsName name
      → lookup o dir name stack ≡ some (record o { fs = fs }, none)
      → write_slot file (record o { fs = fs }) dir name inode_sector stack ≡ some (o', b)
      → dir_add file o dir name inode_sector stack ≡ some (o', b)
  unfolding dir_add
  dir_add-steps o o' dir name inode_sector stack fs b n looks writes =
      let long : (length name == 0) ≡ false = ground (arith, n.pos) in
      let short : ltb name_max (length name) ≡ false = ground (arith, n.short) in
      rw (long, short, n.not_dot, n.not_dot_dot, looks) writes

  -- The new state, the lookup of the new name in it, and the entries of the other names: the entry
  -- that the name takes was the first that no name had.
  abbrev pub Adds :
      Opened → Dir → Inode → (name : List ℕ) → (inode_sector : ℕ) → (stack : DirEntry) → Type 0
  Adds o dir i name inode_sector stack =
      (fs' fs'' : Fs) × (k : ℕ) × (dir_add file o dir name inode_sector stack
        ≡ some (filled o dir i fs', true))
      × IsFirstFree (sector o.fs) i.content k
      × (lookup (filled o dir i fs') dir name stack
          ≡ some (
            record (filled o dir i fs') { fs = fs'' },
            some (entry_at (sector fs') (updated i.content 1) k, entry_size * k),
          ))
      × ((entry_at (sector fs') (updated i.content 1) k).inode_sector ≡ inode_sector)
      × ((j : ℕ)
          → j ≢ k
          → j < entry_cnt (sector o.fs) i.content
          → entry_at (sector fs') (updated i.content 1) j ≡ entry_at (sector o.fs) i.content j)

  -- On a directory that is open, may be written and has a free entry, whose file is well formed and
  -- apart from the sector of its inode, `dir_add` of a name that no entry has, which is neither empty
  -- nor too long nor "." nor "..", succeeds. The name takes the first entry that was not in use.
  -- A lookup of it then finds the sector that was added, and every other entry is as it was.
  pub lookup-dir_add :
      (o : Opened) (dir : Dir) (i : Inode) (name : List ℕ) (inode_sector : ℕ) (stack : DirEntry)
      (spare : ℕ)
      → find_open o.open_inodes dir.inode ≡ some i
      → IsDir o.fs i
      → IsName name
      → Unused o.fs i name
      → inode_sector < 2 ^ 32
      → spare < entry_cnt (sector o.fs) i.content
      → is_free (entry_at (sector o.fs) i.content spare) ≡ true
      → Adds o dir i name inode_sector stack
  lookup-dir_add o dir i name inode_sector stack spare opened d n unused word inside spare_free =
      first (lookup-Unused o dir name stack i opened d.valid d.file n unused)
    where
      second :
          (fs : Fs)
          → lookup o dir name stack ≡ some (record o { fs = fs }, none)
          → Same o.fs fs
          → Writes file (record o { fs = fs }) dir i name inode_sector stack
          → Adds o dir i name inode_sector stack
      second fs looks same (fs', k, runs, h, f) =
          let old : (j : ℕ)
              → entry_at (sector fs) i.content j ≡ entry_at (sector o.fs) i.content j =
            λ j. ap (λ S. entry_at S i.content j) (Same-sector same) in
          let (fs'', finds, same'') =
            lookup-only (filled o dir i fs') dir name stack
              (record i { content = updated i.content 1 }) k
              (find_open-assign o.open_inodes dir.inode i
                (record i { content = updated i.content 1 }) opened
                (find_open-sector o.open_inodes dir.inode i opened))
              f.valid f.file n (omega (arith, h.0))
              (ap (matches name) f.here
                ∙ matches-named (entry_at (sector fs) i.content k) inode_sector name n.string
                    n.short)
              (λ j ne inside_j.
                ap (matches name) (f.there j ne inside_j ∙ old j) ∙ unused j inside_j) in
          (
            fs',
            fs'',
            k,
            dir_add-steps o (filled o dir i fs') dir name inode_sector stack fs true n looks runs,
            subst (λ S. IsFirstFree S i.content k) (Same-sector same) h,
            finds,
            ap (λ e. e.inode_sector) f.here,
            λ j ne inside_j. f.there j ne inside_j ∙ old j,
          )

      first :
          (fs : Fs) × (lookup o dir name stack ≡ some (record o { fs = fs }, none)) × Same o.fs fs
          → Adds o dir i name inode_sector stack
      first (fs, looks, same) = second fs looks same (
          write_slot-Writes file (record o { fs = fs }) dir i name inode_sector stack spare opened
            (Same-IsDir o.fs fs i same d) word inside
            (ap (λ S. is_free (entry_at S i.content spare)) (Same-sector same) ∙ spare_free))
