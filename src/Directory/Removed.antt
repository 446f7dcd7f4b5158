-- ===== src/Directory/Removed.antt =====
-- A name that is removed is no longer found, when another opener keeps its file.
use cs130_25spring_project.Common.{
  refl, ◌-◌, ◌^◌, ◌+◌, ℕ, ◌*◌, ◌^◌, ◌<◌, ◌>>=◌, ◌≡◌, ◌≢◌, sym, ap, ◌∙◌, Bool, true, false, Option,
  none, some, List, arith, ◌==◌, ℕ_discrete,
}
use cs130_25spring_project.Fs.{Fs, MapFile}
use cs130_25spring_project.Fs.Laws.{sector, Same, Same-sector}
use cs130_25spring_project.Inode.{Inode}
use cs130_25spring_project.Inode.Open.{Opened, find_open}
use cs130_25spring_project.Inode.FileCnt.{updated}
use cs130_25spring_project.Directory.{Dir, DirEntry, entry_size, matches, lookup}
use cs130_25spring_project.Directory.Lookup.{entry_at, entry_cnt}
use cs130_25spring_project.Inode.Reopen.{find_open-assign, find_open-sector}
use cs130_25spring_project.Directory.Add.{IsDir, Same-IsDir}
use cs130_25spring_project.Inode.Open.{
  assign, inode_open, inode_remove, inode_close, inode_reopen, open_found,
}
use cs130_25spring_project.Inode.Write.{inode_write_at}
use cs130_25spring_project.Inode.FileCnt.{inode_is_dir, inode_update_file_cnt}
use cs130_25spring_project.Directory.{entry_bytes}
use cs130_25spring_project.Inode.Reopen.{find_open-assign_other}
use cs130_25spring_project.Directory.Add.{fill, length-entry_name}
use cs130_25spring_project.Directory.Search.{IsName, Unused, lookup-Unused, lookup-only}
use cs130_25spring_project.Directory.Remove.{
  may_remove, erase, remove_opened, remove_found, dir_remove,
}

-- The word of -1.
abbrev minus_one : ℕ
minus_one = 2 ^ 32 - 1

-- A file that is open, and that the directory `ds` is not.
pub record IsTarget (l : List Inode) (ds : ℕ) (d t : Inode) : Type 0 where
  pub opened : find_open l t.sector ≡ some t
  pub directory : find_open l ds ≡ some d
  pub apart : t.sector ≢ ds

module _ (l : List Inode) (ds : ℕ) (d t : Inode) (target : IsTarget l ds d t) where
  -- The assignment of the file keeps both found.
  assigned_file :
      (t' : Inode) → t'.sector ≡ t.sector → find_open (assign l t.sector t') t.sector ≡ some t'
  assigned_file t' e = find_open-assign l t.sector t t' target.opened e

  kept_directory :
      (t' : Inode) → t'.sector ≡ t.sector → find_open (assign l t.sector t') ds ≡ some d
  kept_directory t' e =
      find_open-assign_other l t.sector ds t' e (λ same. target.apart (sym same)) ∙ target.directory

  -- The assignment of the directory as well.
  assigned_directory : (d' : Inode) → d'.sector ≡ ds → find_open (assign l ds d') ds ≡ some d'
  assigned_directory d' e = find_open-assign l ds d d' target.directory e

  kept_file : (d' : Inode) → d'.sector ≡ ds → find_open (assign l ds d') t.sector ≡ some t
  kept_file d' e = find_open-assign_other l ds t.sector d' e target.apart ∙ target.opened

  file-IsTarget : (t' : Inode) → t'.sector ≡ t.sector → IsTarget (assign l t.sector t') ds d t'
  file-IsTarget t' e = record {
    opened = ap (find_open (assign l t.sector t')) e ∙ assigned_file t' e;
    directory = kept_directory t' e;
    apart = λ same. target.apart (sym e ∙ same);
  }

  directory-IsTarget : (d' : Inode) → d'.sector ≡ ds → IsTarget (assign l ds d') ds d' t
  directory-IsTarget d' e = record {
    opened = kept_file d' e;
    directory = assigned_directory d' e;
    apart = target.apart;
  }

-- The list of the open inodes through the removal: the file is opened, the directory written, the file
-- marked, the count taken down, the file closed.
module _ (l : List Inode) (dir : Dir) (d t : Inode) where
  abbrev one_more : Inode
  one_more = record t { open_cnt = t.open_cnt + 1 }

  abbrev marked : Inode
  marked = record t { open_cnt = t.open_cnt + 1; removed = true }

  abbrev one_less : Inode
  one_less = record t { open_cnt = t.open_cnt + 1 - 1; removed = true }

  abbrev pub counted : Inode
  counted = record d { content = updated d.content minus_one }

  abbrev opening : List Inode
  opening = assign l t.sector one_more

  abbrev writing : List Inode
  writing = assign opening dir.inode d

  abbrev marking : List Inode
  marking = assign writing t.sector marked

  abbrev counting : List Inode
  counting = assign marking dir.inode counted

  abbrev pub closing : List Inode
  closing = assign counting t.sector one_less

  module _ (target : IsTarget l dir.inode d t) where
    ds_sector : d.sector ≡ dir.inode
    ds_sector = find_open-sector l dir.inode d target.directory

    opening-IsTarget : IsTarget opening dir.inode d one_more
    opening-IsTarget = file-IsTarget l dir.inode d t target one_more refl

    writing-IsTarget : IsTarget writing dir.inode d one_more
    writing-IsTarget = directory-IsTarget opening dir.inode d one_more opening-IsTarget d ds_sector

    marking-IsTarget : IsTarget marking dir.inode d marked
    marking-IsTarget = file-IsTarget writing dir.inode d one_more writing-IsTarget marked refl

    counting-IsTarget : IsTarget counting dir.inode counted marked
    counting-IsTarget =
        directory-IsTarget marking dir.inode d marked marking-IsTarget counted ds_sector

    closing-IsTarget : IsTarget closing dir.inode counted one_less
    closing-IsTarget =
        file-IsTarget counting dir.inode counted marked counting-IsTarget one_less refl

    module _ (file : MapFile) (fs fs₁ fs₂ : Fs) (e : DirEntry) (ofs : ℕ) where
      open_found-again :
          (memory : Bool)
          → open_found (record { fs = fs; open_inodes = l }) memory t.sector (some t)
            ≡ some (record { fs = fs; open_inodes = opening }, some one_more)
      unfolding open_found inode_reopen
      open_found-again memory = rw target.opened refl

      inode_open-again :
          (memory : Bool)
          → inode_open (record { fs = fs; open_inodes = l }) memory t.sector
            ≡ some (record { fs = fs; open_inodes = opening }, some one_more)
      unfolding inode_open
      inode_open-again memory =
          ap (open_found (record { fs = fs; open_inodes = l }) memory t.sector) target.opened
          ∙ open_found-again memory

      erase-steps :
          inode_write_at file fs d (entry_bytes (record e { in_use = 0 })) ofs
            ≡ some (fs₁, d, entry_size)
          → inode_update_file_cnt fs₁ d minus_one ≡ some (fs₂, counted)
          → erase file (record { fs = fs; open_inodes = opening }) dir e ofs t.sector
            ≡ some (record { fs = fs₂; open_inodes = counting }, true)
      unfolding erase inode_remove
      erase-steps writes counts =
          rw
            (
              opening-IsTarget.directory, writes, writing-IsTarget.opened,
              marking-IsTarget.directory, counts,
            )
            refl

      inode_close-held :
          (t.open_cnt == 0) ≡ false
          → inode_close file (record { fs = fs₂; open_inodes = counting }) t.sector
            ≡ some (record { fs = fs₂; open_inodes = closing })
      unfolding inode_close
      inode_close-held held =
          let more : (t.open_cnt + 1 == 1) ≡ false = ground (arith, held) in
          rw (counting-IsTarget.opened, more) refl

      may_remove-file :
          (cwd : ℕ) (memory : Bool) (o : Opened)
          → inode_is_dir t ≡ false
          → may_remove file cwd memory o one_more ≡ some (o, true)
      unfolding may_remove
      may_remove-file cwd memory o no_dir = rw no_dir refl

      remove_opened-steps :
          (cwd : ℕ) (memory : Bool)
          → inode_is_dir t ≡ false
          → (t.open_cnt == 0) ≡ false
          → inode_write_at file fs d (entry_bytes (record e { in_use = 0 })) ofs
            ≡ some (fs₁, d, entry_size)
          → inode_update_file_cnt fs₁ d minus_one ≡ some (fs₂, counted)
          → remove_opened file cwd memory
              (record { fs = fs; open_inodes = opening })
              dir
              e
              ofs
              (some one_more)
            ≡ some (record { fs = fs₂; open_inodes = closing }, true)
      unfolding remove_opened
      remove_opened-steps cwd memory no_dir held writes counts =
          rw
            (
              may_remove-file cwd memory (record { fs = fs; open_inodes = opening }) no_dir,
              erase-steps writes counts,
              inode_close-held held,
            )
            refl

      remove_found-steps :
          (cwd : ℕ) (inode_memory memory : Bool)
          → inode_is_dir t ≡ false
          → (t.open_cnt == 0) ≡ false
          → e.inode_sector ≡ t.sector
          → inode_write_at file fs d (entry_bytes (record e { in_use = 0 })) ofs
            ≡ some (fs₁, d, entry_size)
          → inode_update_file_cnt fs₁ d minus_one ≡ some (fs₂, counted)
          → remove_found file cwd inode_memory memory
              (record { fs = fs; open_inodes = l })
              dir
              (some (e, ofs))
            ≡ some (record { fs = fs₂; open_inodes = closing }, true)
      unfolding remove_found
      remove_found-steps cwd inode_memory memory no_dir held same writes counts =
          ap
            (λ s. inode_open (record { fs = fs; open_inodes = l }) inode_memory s >>= λ (o', i).
              remove_opened file cwd memory o' dir e ofs i)
            same
          ∙ rw (inode_open-again inode_memory)
              (remove_opened-steps cwd memory no_dir held writes counts)

-- The state after the removal, and the lookup of the name in it.
module _ (file : MapFile) where
  abbrev pub after : Opened → Dir → Inode → Inode → Fs → Opened
  after o dir d t fs = record { fs = fs; open_inodes = closing o.open_inodes dir d t }

  abbrev pub Removes :
      (cwd : ℕ)
      → (inode_memory memory : Bool) → DirEntry
      → Opened
      → Dir
      → Inode
      → Inode
      → ℕ
      → (name : List ℕ) → Type 0
  Removes cwd inode_memory memory stack o dir d t k name =
      (fs' fs'' : Fs) × (dir_remove file cwd inode_memory memory stack o dir name
        ≡ some (after o dir d t fs', true))
      × (lookup (after o dir d t fs') dir name stack
          ≡ some (record (after o dir d t fs') { fs = fs'' }, none))
      × (find_open (closing o.open_inodes dir d t) t.sector
          ≡ some (record t { open_cnt = t.open_cnt; removed = true }))
      × ((j : ℕ)
          → j ≢ k
          → j < entry_cnt (sector o.fs) d.content
          → entry_at (sector fs') (updated d.content minus_one) j
            ≡ entry_at (sector o.fs) d.content j)

  dir_remove-steps :
      (cwd : ℕ) (inode_memory memory : Bool) (stack : DirEntry) (o : Opened) (dir : Dir)
      (name : List ℕ) (fs : Fs) (e : DirEntry) (ofs : ℕ) (r : Option (Opened × Bool))
      → lookup o dir name stack ≡ some (record o { fs = fs }, some (e, ofs))
      → remove_found file cwd inode_memory memory (record o { fs = fs }) dir (some (e, ofs)) ≡ r
      → dir_remove file cwd inode_memory memory stack o dir name ≡ r
  unfolding dir_remove
  dir_remove-steps cwd inode_memory memory stack o dir name fs e ofs r looks removes =
      rw looks removes

  free_matches : (name : List ℕ) (e : DirEntry) → matches name (record e { in_use = 0 }) ≡ false
  free_matches name e = refl

  -- The entry with the name, whose file is open and not a directory.
  pub record IsNamed (o : Opened) (d t : Inode) (k : ℕ) (name : List ℕ) : Type 0 where
    pub inside : k < entry_cnt (sector o.fs) d.content
    pub hits : matches name (entry_at (sector o.fs) d.content k) ≡ true
    pub alone :
        (j : ℕ)
        → j ≢ k
        → j < entry_cnt (sector o.fs) d.content
        → matches name (entry_at (sector o.fs) d.content j) ≡ false
    pub names : (entry_at (sector o.fs) d.content k).inode_sector ≡ t.sector
    pub word : t.sector < 2 ^ 32
    pub held : t.open_cnt ≢ 0
    pub no_dir : inode_is_dir t ≡ false

  -- On a directory that is open, may be written and is well formed and apart from the sector of its
  -- inode, `dir_remove` of a name that one entry alone has, which is neither empty nor too long nor "."
  -- nor "..", and whose file is not a directory and is open elsewhere, succeeds. A lookup of the name
  -- then finds nothing, the file is marked as removed with as many openers as before, and every other
  -- entry is as it was.
  pub lookup-dir_remove :
      (cwd : ℕ) (inode_memory memory : Bool) (stack : DirEntry) (o : Opened) (dir : Dir)
      (d t : Inode) (k : ℕ) (name : List ℕ)
      → IsDir o.fs d
      → IsName name
      → IsTarget o.open_inodes dir.inode d t
      → IsNamed o d t k name
      → Removes cwd inode_memory memory stack o dir d t k name
  lookup-dir_remove cwd inode_memory memory stack o dir d t k name i n target h =
      found_entry
        (lookup-only o dir name stack d k target.directory i.valid i.file n h.inside h.hits h.alone)
    where
      e : DirEntry
      e = entry_at (sector o.fs) d.content k

      free : DirEntry
      free = record e { in_use = 0 }

      found_entry :
          (fs : Fs) × (lookup o dir name stack
              ≡ some (record o { fs = fs }, some (e, entry_size * k)))
            × Same o.fs fs
          → Removes cwd inode_memory memory stack o dir d t k name
      found_entry (fs, looks, same) =
          let S = Same-sector same in
          let old : (j : ℕ)
              → entry_at (sector fs) d.content j ≡ entry_at (sector o.fs) d.content j =
            λ j. ap (λ S. entry_at S d.content j) S in
          let cnt : entry_cnt (sector fs) d.content ≡ entry_cnt (sector o.fs) d.content = refl in
          let (fs₁, fs₂, writes, counts, f) =
            fill file fs d minus_one k free (Same-IsDir o.fs fs d same i) h.inside
              (length-entry_name file (sector o.fs) d.content k) (omega (arith, h.names, h.word)) in
          let closed = closing-IsTarget o.open_inodes dir d t target in
          let unused : Unused fs₂ (counted o.open_inodes dir d t) name = λ j inside.
            elim (ℕ_discrete j k) [
              | yes same_entry ↦
                  ap (λ x. matches name (entry_at (sector fs₂) (updated d.content minus_one) x))
                    same_entry
                  ∙ ap (matches name) f.here
              | no ne ↦ ap (matches name) (f.there j ne inside ∙ old j) ∙ h.alone j ne inside
            ] in
          let (fs₃, misses, _) =
            lookup-Unused (after o dir d t fs₂) dir name stack (counted o.open_inodes dir d t)
              closed.directory f.valid f.file n unused in
          (
            fs₂,
            fs₃,
            dir_remove-steps cwd inode_memory memory stack o dir name fs e (entry_size * k)
                (some (after o dir d t fs₂, true)) looks
                (remove_found-steps o.open_inodes dir d t target file fs fs₁ fs₂ e (entry_size * k)
                  cwd inode_memory memory h.no_dir (ground (arith, h.held)) h.names writes counts),
            misses,
            closed.opened
                ∙ ap (λ c. some (record t { open_cnt = c; removed = true })) (omega arith),
            λ j ne inside. f.there j ne inside ∙ old j,
          )
