-- ===== src/Directory/Search.antt =====
-- Lookups of a name that no entry has, and of one that one entry has.
use cs130_25spring_project.Common.{
  ℕ, ◌*◌, ◌≤◌, ◌<◌, ◌≡◌, ◌≢◌, sym, ap, ◌∙◌, true, false, Option, none, some, List, arith, length,
  ℕ_discrete,
}
use cs130_25spring_project.Fs.{Fs}
use cs130_25spring_project.Fs.Laws.{IsValid, sector, Same}
use cs130_25spring_project.Inode.{Inode}
use cs130_25spring_project.Inode.Whole.{IsFile}
use cs130_25spring_project.Inode.Open.{Opened, find_open}
use cs130_25spring_project.Directory.{
  Dir, DirEntry, name_max, entry_size, matches, strcmp_equal, dot, dot_dot, lookup,
}
use cs130_25spring_project.Directory.Lookup.{
  entry_at, entry_cnt, found, absent, Looked, self, parent, entry, lookup-Looked,
}
use cs130_25spring_project.Directory.Named.{IsString}

-- A name that the routine takes.
pub record IsName (name : List ℕ) : Type 0 where
  pub string : IsString name
  pub pos : 0 < length name
  pub short : length name ≤ name_max
  pub not_dot : strcmp_equal name dot ≡ false
  pub not_dot_dot : strcmp_equal name dot_dot ≡ false

-- No entry in use has the name.
abbrev pub Unused : Fs → Inode → (name : List ℕ) → Type 0
Unused fs i name =
    (j : ℕ)
    → j < entry_cnt (sector fs) i.content
    → matches name (entry_at (sector fs) i.content j) ≡ false

-- A lookup of such a name reads the entries and finds none.
pub lookup-Unused :
    (o : Opened) (dir : Dir) (name : List ℕ) (stack : DirEntry) (i : Inode)
    → find_open o.open_inodes dir.inode ≡ some i
    → IsValid o.fs
    → IsFile (sector o.fs) o.fs.free_map.bit_cnt i.content
    → IsName name
    → Unused o.fs i name
    → (fs' : Fs) × (lookup o dir name stack ≡ some (record o { fs = fs' }, none)) × Same o.fs fs'
lookup-Unused o dir name stack i opened v f n unused =
    go (lookup-Looked o dir name stack i opened v f)
  where
    go :
        (fs' : Fs) × (r : Option (DirEntry × ℕ)) × (lookup o dir name stack
            ≡ some (record o { fs = fs' }, r))
          × Same o.fs fs'
          × Looked (sector o.fs) i name stack r
        → (fs' : Fs) × (lookup o dir name stack ≡ some (record o { fs = fs' }, none))
          × Same o.fs fs'
    go (fs', _, runs, same, self h) = absurd (ground (arith, sym n.not_dot ∙ h))
    go (fs', _, runs, same, parent a h) = absurd (ground (arith, sym n.not_dot_dot ∙ h))
    go (fs', _, runs, same, entry _ a b (found k low h hit others)) =
        absurd (ground (arith, sym (unused k h) ∙ hit))
    go (fs', _, runs, same, entry _ a b (absent others)) = (fs', runs, same)

-- The entry of a name that one entry alone has.
pub lookup-only :
    (o : Opened) (dir : Dir) (name : List ℕ) (stack : DirEntry) (i : Inode) (k : ℕ)
    → find_open o.open_inodes dir.inode ≡ some i
    → IsValid o.fs
    → IsFile (sector o.fs) o.fs.free_map.bit_cnt i.content
    → IsName name
    → k < entry_cnt (sector o.fs) i.content
    → matches name (entry_at (sector o.fs) i.content k) ≡ true
    → ((j : ℕ)
        → j ≢ k
        → j < entry_cnt (sector o.fs) i.content
        → matches name (entry_at (sector o.fs) i.content j) ≡ false)
    → (fs' : Fs) × (lookup o dir name stack
        ≡ some (record o { fs = fs' }, some (entry_at (sector o.fs) i.content k, entry_size * k)))
      × Same o.fs fs'
lookup-only o dir name stack i k opened v f n inside hits alone =
    go (lookup-Looked o dir name stack i opened v f)
  where
    Goal : Type 0
    Goal =
        (fs' : Fs) × (lookup o dir name stack
          ≡ some (record o { fs = fs' }, some (entry_at (sector o.fs) i.content k, entry_size * k)))
        × Same o.fs fs'

    go :
        (fs' : Fs) × (r : Option (DirEntry × ℕ)) × (lookup o dir name stack
            ≡ some (record o { fs = fs' }, r))
          × Same o.fs fs'
          × Looked (sector o.fs) i name stack r
        → Goal
    go (fs', _, runs, same, self h) = absurd (ground (arith, sym n.not_dot ∙ h))
    go (fs', _, runs, same, parent a h) = absurd (ground (arith, sym n.not_dot_dot ∙ h))
    go (fs', _, runs, same, entry _ a b (found j low h hit others)) = elim (ℕ_discrete j k) [
      | yes e ↦ (
        fs',
        runs
            ∙ ap
                (λ x. some (
                  record o { fs = fs' },
                  some (entry_at (sector o.fs) i.content x, entry_size * x),
                ))
                e,
        same,
      )
      | no ne ↦ absurd (ground (arith, sym (alone j ne h) ∙ hit))
    ]
    go (fs', _, runs, same, entry _ a b (absent others)) =
        absurd (ground (arith, sym (others k (omega arith) inside) ∙ hits))
