-- ===== src/Directory/Add.antt =====
-- An entry that is added where an old one is free.
use cs130_25spring_project.Common.{
  ℕ, ◌+◌, ◌*◌, ◌^◌, ◌<◌, ◌≡◌, ◌≢◌, refl, sym, ap, ◌∙◌, true, false, some, List, arith, length, drop,
}
use mathlib.Core.Path.{subst}
use cs130_25spring_project.Fs.{Fs, MapFile}
use cs130_25spring_project.Fs.Laws.{IsValid, sector, Same, Same-sector}
use cs130_25spring_project.Inode.{InodeDisk, Inode}
use cs130_25spring_project.Common.Bytes.{length-take, length-drop}
use cs130_25spring_project.Inode.Disk.{IsDisk}
use cs130_25spring_project.Inode.File.{file_bytes, length-file_bytes}
use cs130_25spring_project.Inode.Whole.{IsFile, Same-IsFile}
use cs130_25spring_project.Inode.Written.{IsApart}
use cs130_25spring_project.Inode.Write.{inode_write_at}
use cs130_25spring_project.Inode.Roundtrip.{inode_write_at-Written}
use cs130_25spring_project.Inode.Open.{Opened, find_open, assign}
use cs130_25spring_project.Inode.FileCnt.{
  Holds, updated, inode_update_file_cnt, inode_update_file_cnt-Counts,
}
use cs130_25spring_project.Directory.{
  Dir, DirEntry, name_max, entry_size, entry_bytes, named, rounds, find_slot, write_slot,
}
use cs130_25spring_project.Directory.Lookup.{entry_at, entry_cnt, found, absent}
use cs130_25spring_project.Directory.Slot.{Finds, is_free, free, end, find_slot-Finds}
use cs130_25spring_project.Directory.Outside.{
  IsOutside, outside-IsFile, Written-IsOutside, updated-IsFile,
}
use cs130_25spring_project.Directory.Named.{length-entry_bytes, length-strlcpy}
use cs130_25spring_project.Directory.Entries.{entry-here, entry-there}

-- A directory that is open, whose file is well formed and apart from the sector of its inode, which
-- holds the content of the inode.
pub record IsDir (fs : Fs) (i : Inode) : Type 0 where
  pub valid : IsValid fs
  pub file : IsFile (sector fs) fs.free_map.bit_cnt i.content
  pub apart : IsApart (sector fs) i.content
  pub allowed : i.deny_write_cnt ≡ 0
  pub inside : i.sector < fs.free_map.bit_cnt
  pub disk : IsDisk i.content
  pub held : Holds fs i i.content
  pub outside : IsOutside (sector fs) i.content i.sector

pub Same-IsDir : (fs fs' : Fs) (i : Inode) → Same fs fs' → IsDir fs i → IsDir fs' i
Same-IsDir fs fs' i same d =
    let e = sym (Same-sector same) in
    record {
      valid = same.valid;
      file = Same-IsFile same d.file;
      apart = subst (λ S. IsApart S i.content) e d.apart;
      allowed = d.allowed;
      inside = omega (arith, d.inside, ap (λ m. m.bit_cnt) same.map);
      disk = d.disk;
      held = subst (λ S. S i.sector ≡ sector fs i.sector) e refl ∙ d.held;
      outside = subst (λ S. IsOutside S i.content i.sector) e d.outside;
    }

-- What the write of a slot does, with the entry `k` that was free.
pub record Fills (fs fs' : Fs) (i : Inode) (delta k : ℕ) (e : DirEntry) : Type 0 where
  pub valid : IsValid fs'
  pub file : IsFile (sector fs') fs'.free_map.bit_cnt (updated i.content delta)
  pub here : entry_at (sector fs') (updated i.content delta) k ≡ e
  pub there :
      (j : ℕ)
      → j ≢ k
      → j < entry_cnt (sector fs) i.content
      → entry_at (sector fs') (updated i.content delta) j ≡ entry_at (sector fs) i.content j

-- The directory after a slot is written.
abbrev pub filled : Opened → Dir → Inode → Fs → Opened
filled o dir i fs = record {
  fs = fs;
  open_inodes = assign o.open_inodes dir.inode (record i { content = updated i.content 1 });
}

-- The first entry from the start that is not in use.
abbrev pub IsFirstFree : (ℕ → List ℕ) → InodeDisk → ℕ → Type 0
IsFirstFree S d k =
    (k < entry_cnt S d)
    × (is_free (entry_at S d k) ≡ true)
    × ((j : ℕ) → j < k → is_free (entry_at S d j) ≡ false)

module _ (file : MapFile) where
  abbrev pub Filled : Fs → Inode → (delta k : ℕ) → DirEntry → Type 0
  Filled fs i delta k e =
      (fs₁ fs₂ : Fs) × (inode_write_at file fs i (entry_bytes e) (entry_size * k)
        ≡ some (fs₁, i, entry_size))
      × (inode_update_file_cnt fs₁ i delta
          ≡ some (fs₂, record i { content = updated i.content delta }))
      × Fills fs fs₂ i delta k e

  pub fill :
      (fs : Fs) (i : Inode) (delta k : ℕ) (e : DirEntry)
      → IsDir fs i
      → k < entry_cnt (sector fs) i.content
      → length e.name ≡ name_max + 1
      → e.inode_sector < 2 ^ 32
      → Filled fs i delta k e
  fill fs i delta k e d inside full word =
      let size = length-entry_bytes e full in
      let (fs₁, runs, valid, map, whole, w) =
        inode_write_at-Written file fs i (entry_bytes e) (entry_size * k) d.valid d.file d.apart
          d.allowed (omega (arith, inside, size)) in
      let held : Holds fs₁ i i.content = w.others i.sector d.outside.block ∙ d.held in
      let (fs₂, counts, valid', map', others, held') =
        inode_update_file_cnt-Counts fs₁ i i.content delta valid
          (omega (arith, d.inside, ap (λ m. m.bit_cnt) map)) d.disk held in
      let out =
        Written-IsOutside (sector fs) (sector fs₁) i.content (entry_bytes e) (entry_size * k)
          i.sector d.apart w d.outside in
      (
        fs₁,
        fs₂,
        runs ∙ ap (λ n. some (fs₁, i, n)) size,
        counts,
        record {
          valid = valid';
          file = updated-IsFile (sector fs₂) fs₂.free_map.bit_cnt i.content delta (
              subst (λ m. IsFile (sector fs₂) m.bit_cnt i.content) (sym map')
                (outside-IsFile (sector fs₁) (sector fs₂) i.content i.sector out others
                  fs₁.free_map.bit_cnt whole));
          here =
              entry-here (sector fs) (sector fs₁) (sector fs₂) i.content delta i.sector k e full
                word (omega (arith, inside)) w out others;
          there = λ j ne h.
              entry-there (sector fs) (sector fs₁) (sector fs₂) i.content delta i.sector k e full
                word (omega (arith, inside)) w out others j ne (omega (arith, h));
        },
      )

  -- With a free entry, the first one takes the new name.
  abbrev pub Writes :
      Opened → Dir → Inode → (name : List ℕ) → (inode_sector : ℕ) → (stack : DirEntry) → Type 0
  Writes o dir i name inode_sector stack =
      (fs' : Fs) × (k : ℕ) × (write_slot file o dir name inode_sector stack
        ≡ some (filled o dir i fs', true))
      × IsFirstFree (sector o.fs) i.content k
      × Fills o.fs fs' i 1 k (named (entry_at (sector o.fs) i.content k) inode_sector name)

  write_slot-steps :
      (o : Opened) (dir : Dir) (i : Inode) (name : List ℕ) (inode_sector : ℕ) (stack : DirEntry)
      (fs fs₁ fs₂ : Fs) (e : DirEntry) (ofs : ℕ)
      → find_open o.open_inodes dir.inode ≡ some i
      → find_slot (rounds i) o.fs i stack 0 ≡ some (fs, e, ofs)
      → inode_write_at file fs i (entry_bytes (named e inode_sector name)) ofs
        ≡ some (fs₁, i, entry_size)
      → inode_update_file_cnt fs₁ i 1 ≡ some (fs₂, record i { content = updated i.content 1 })
      → write_slot file o dir name inode_sector stack ≡ some (filled o dir i fs₂, true)
  unfolding write_slot
  write_slot-steps o dir i name inode_sector stack fs fs₁ fs₂ e ofs opened slot writes counts =
      rw (opened, slot, writes, counts) refl

  pub length-entry_name :
      (S : ℕ → List ℕ) (d : InodeDisk) (k : ℕ) → length (entry_at S d k).name ≡ name_max + 1
  length-entry_name S d k =
      let l = file_bytes S d (entry_size * k) entry_size in
      omega (
        arith,
        length-take (name_max + 1) (drop 4 l),
        length-drop 4 l,
        length-file_bytes S d (entry_size * k) entry_size,
      )

  -- The write after a search that only read.
  write_slot-found :
      (o : Opened) (dir : Dir) (i : Inode) (name : List ℕ) (inode_sector : ℕ) (stack : DirEntry)
      (fs : Fs) (k : ℕ)
      → find_open o.open_inodes dir.inode ≡ some i
      → IsDir o.fs i
      → inode_sector < 2 ^ 32
      → find_slot (rounds i) o.fs i stack 0
        ≡ some (fs, entry_at (sector o.fs) i.content k, entry_size * k)
      → Same o.fs fs
      → IsFirstFree (sector o.fs) i.content k
      → Writes o dir i name inode_sector stack
  write_slot-found o dir i name inode_sector stack fs k opened d word runs same first =
      let old = entry_at (sector o.fs) i.content k in
      let e = named old inode_sector name in
      let (fs₁, fs₂, writes, counts, f) =
        fill fs i 1 k e (Same-IsDir o.fs fs i same d) (omega (arith, first.0))
          (length-strlcpy old.name name (name_max + 1) (omega arith)
            (length-entry_name (sector o.fs) i.content k))
          word in
      (
        fs₂,
        k,
        write_slot-steps o dir i name inode_sector stack fs fs₁ fs₂ old (entry_size * k) opened runs
            writes counts,
        first,
        record {
          valid = f.valid;
          file = f.file;
          here = f.here;
          there = λ j ne h. f.there j ne h ∙ ap (λ S. entry_at S i.content j) (Same-sector same);
        },
      )

  pub write_slot-Writes :
      (o : Opened) (dir : Dir) (i : Inode) (name : List ℕ) (inode_sector : ℕ) (stack : DirEntry)
      (spare : ℕ)
      → find_open o.open_inodes dir.inode ≡ some i
      → IsDir o.fs i
      → inode_sector < 2 ^ 32
      → spare < entry_cnt (sector o.fs) i.content
      → is_free (entry_at (sector o.fs) i.content spare) ≡ true
      → Writes o dir i name inode_sector stack
  write_slot-Writes o dir i name inode_sector stack spare opened d word inside unused =
      go (find_slot-Finds (rounds i) o.fs i stack 0 (omega arith) (omega arith) d.valid d.file)
    where
      go : Finds o.fs i stack 0 (rounds i) → Writes o dir i name inode_sector stack
      go (fs, _, _, runs, same, free _ _ (found k low h hit others)) =
          write_slot-found o dir i name inode_sector stack fs k opened d word runs same
            (h, hit, λ j lt. others j (omega arith) lt)
      go (fs, _, _, runs, same, end e (absent others)) =
          absurd (ground (arith, sym unused ∙ others spare (omega arith) inside))
