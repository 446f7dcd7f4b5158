-- ===== src/Directory/Lookup.antt =====
-- The search for a name in a directory, against the entries of its file.
use cs130_25spring_project.Common.{
  ℕ, zero, suc, ◌+◌, ◌-◌, ◌*◌, ◌/◌, ◌≤◌, ◌<◌, ◌≡◌, refl, sym, ap, ◌∙◌, inl, inr, Bool, true, false,
  Option, none, some, List, arith, ◌==◌, ltb, min, Bool-cases, dec_lt, length,
}
use mathlib.Core.Path.{subst}
use cs130_25spring_project.Fs.{Fs}
use cs130_25spring_project.Fs.Laws.{IsValid, sector, Same, Same-refl, Same-trans, Same-sector}
use cs130_25spring_project.Inode.{InodeDisk, Inode, inode_read_at}
use cs130_25spring_project.Inode.File.{file_bytes, length-file_bytes}
use cs130_25spring_project.Inode.Whole.{IsFile, Same-IsFile}
use cs130_25spring_project.Inode.Read.{inode_read_at-bytes}
use cs130_25spring_project.Inode.Open.{Opened, find_open}
use cs130_25spring_project.Directory.{
  Dir, DirEntry, entry_size, entry_of, matches, strcmp_equal, dot, dot_dot, rounds, lookup_rounds,
  lookup, named,
}

module _ (S : ℕ → List ℕ) (d : InodeDisk) where
  -- Entry `i` of the directory.
  abbrev pub entry_at : ℕ → DirEntry
  entry_at i = entry_of (file_bytes S d (entry_size * i) entry_size)

  abbrev pub entry_cnt : ℕ
  entry_cnt = d.length / entry_size

  -- The first entry that passes the test, from `from` on, with its offset, or none where there is none.
  pub data FirstEntry (test : DirEntry → Bool) (from : ℕ) : Option (DirEntry × ℕ) → Type 0 where
    found :
        (i : ℕ)
        → from ≤ i
        → i < entry_cnt
        → test (entry_at i) ≡ true
        → ((j : ℕ) → from ≤ j → j < i → test (entry_at j) ≡ false)
        → FirstEntry test from (some (entry_at i, entry_size * i))
    absent :
        ((j : ℕ) → from ≤ j → j < entry_cnt → test (entry_at j) ≡ false) → FirstEntry test from none

  extend :
      (test : DirEntry → Bool) (from top : ℕ)
      → test (entry_at from) ≡ false
      → ((j : ℕ) → from + 1 ≤ j → j < top → test (entry_at j) ≡ false)
      → (j : ℕ) → from ≤ j
      → j < top
      → test (entry_at j) ≡ false
  extend test from top first others j low high = elim (dec_lt from j) [
    | yes p ↦ others j (omega arith) high
    | no p ↦ subst (λ x. test (entry_at x) ≡ false) {x = from} {y = j} (omega arith) first
  ]

  pub FirstEntry-skip :
      (test : DirEntry → Bool) (from : ℕ) (r : Option (DirEntry × ℕ))
      → test (entry_at from) ≡ false
      → FirstEntry test (from + 1) r
      → FirstEntry test from r
  FirstEntry-skip test from _ first (found i le inside passes others) =
      found i (omega arith) inside passes (extend test from i first others)
  FirstEntry-skip test from _ first (absent others) =
      absent (extend test from entry_cnt first others)

full_read :
    (len k : ℕ) → (min entry_size (len - entry_size * k) == entry_size) ≡ ltb k (len / entry_size)
full_read len k = elim (dec_lt k (len / entry_size)) [
  | yes p ↦ ground (arith, p)
  | no p ↦ ground (arith, p)
]

-- A read of an entry: all of it where there is one, and less at the end.
pub read_entry :
    (fs : Fs) (i : Inode) (k : ℕ)
    → IsValid fs
    → IsFile (sector fs) fs.free_map.bit_cnt i.content
    → (fs' : Fs) × (bytes : List ℕ) × (inode_read_at fs i entry_size (entry_size * k)
        ≡ some (fs', bytes))
      × Same fs fs'
      × ((length bytes == entry_size) ≡ ltb k (entry_cnt (sector fs) i.content))
      × (k < entry_cnt (sector fs) i.content
          → bytes ≡ file_bytes (sector fs) i.content (entry_size * k) entry_size)
read_entry fs i k v f =
    let (fs', e, same) = inode_read_at-bytes fs i entry_size (entry_size * k) v f in
    (
      fs',
      file_bytes (sector fs) i.content (entry_size * k)
          (min entry_size (i.content.length - entry_size * k)),
      e,
      same,
      ap (λ n. n == entry_size)
            (length-file_bytes (sector fs) i.content (entry_size * k)
              (min entry_size (i.content.length - entry_size * k)))
          ∙ full_read i.content.length k,
      λ inside. ap (file_bytes (sector fs) i.content (entry_size * k)) (omega (arith, inside)),
    )

abbrev pub Locates : Fs → Inode → (name : List ℕ) → (from fuel : ℕ) → Type 0
Locates fs i name from fuel =
    (fs' : Fs) × (r : Option (DirEntry × ℕ)) × (lookup_rounds fuel fs i name (entry_size * from)
      ≡ some (fs', r))
    × Same fs fs'
    × FirstEntry (sector fs) i.content (matches name) from r

lookup_rounds-Locates :
    (fuel : ℕ) (fs : Fs) (i : Inode) (name : List ℕ) (from : ℕ)
    → from ≤ entry_cnt (sector fs) i.content
    → entry_cnt (sector fs) i.content < from + fuel
    → IsValid fs
    → IsFile (sector fs) fs.free_map.bit_cnt i.content
    → Locates fs i name from fuel
unfolding lookup_rounds
lookup_rounds-Locates zero fs i name from low enough v f = absurd (omega arith)
lookup_rounds-Locates (suc fuel) fs i name from low enough v f =
    go (read_entry fs i from v f) (λ fs' more same.
      lookup_rounds-Locates fuel fs' i name (from + 1) (omega (arith, more)) (omega (arith, enough))
        same.valid (Same-IsFile same f))
  where
    cnt : ℕ
    cnt = entry_cnt (sector fs) i.content

    go :
        (fs' : Fs) × (bytes : List ℕ) × (inode_read_at fs i entry_size (entry_size * from)
            ≡ some (fs', bytes))
          × Same fs fs'
          × ((length bytes == entry_size) ≡ ltb from cnt)
          × (from < cnt → bytes ≡ file_bytes (sector fs) i.content (entry_size * from) entry_size)
        → ((fs' : Fs) → from < cnt → Same fs fs' → Locates fs' i name (from + 1) fuel)
        → Locates fs i name from (suc fuel)
    go (fs', bytes, e, same, whole, content) next = elim (dec_lt from cnt) [
      | yes more ↦
          let full : (length bytes == entry_size) ≡ true = ground (arith, whole, more) in
          elim (Bool-cases (matches name (entry_of bytes))) [
            | inl hit ↦ (
              fs',
              some (entry_of bytes, entry_size * from),
              rw (e, full, hit) refl,
              same,
              subst
                  (λ b.
                    FirstEntry (sector fs) i.content (matches name) from
                      (some (entry_of b, entry_size * from)))
                  (sym (content more))
                  (found from (omega arith) more
                    (subst (λ b. matches name (entry_of b) ≡ true) (content more) hit)
                    (λ j low high. absurd (omega (arith, low, high)))),
            )
            | inr not_here ↦ miss more full not_here (next fs' more same)
          ]
      | no end ↦ (
        fs',
        none,
        rw (e, ended end) refl,
        same,
        absent (λ j le inside. absurd (omega (arith, end, le, inside))),
      )
    ]
      where
        ended : (¬ from < cnt) → (length bytes == entry_size) ≡ false
        ended end = ground (arith, whole, end)

        miss :
            from < cnt
            → (length bytes == entry_size) ≡ true
            → matches name (entry_of bytes) ≡ false
            → Locates fs' i name (from + 1) fuel
            → Locates fs i name from (suc fuel)
        miss more full not_here (fs'', r, runs, same', first) = (
          fs'',
          r,
          rw (e, full, not_here)
              (ap (λ o. lookup_rounds fuel fs' i name o) {x = entry_size * from + entry_size}
                  {y = entry_size * (from + 1)} (omega arith)
                ∙ runs),
          Same-trans same same',
          FirstEntry-skip (sector fs) i.content (matches name) from r
              (subst (λ b. matches name (entry_of b) ≡ false) (content more) not_here)
              (subst (λ S. FirstEntry S i.content (matches name) (from + 1) r) (Same-sector same)
                first),
        )

-- What a lookup in a directory returns, by the name.
pub data Looked (S : ℕ → List ℕ) (i : Inode) (name : List ℕ) (stack : DirEntry)
    : Option (DirEntry × ℕ) → Type 0 where
  self : strcmp_equal name dot ≡ true → Looked S i name stack (some (named stack i.sector dot, 0))
  parent :
      strcmp_equal name dot ≡ false
      → strcmp_equal name dot_dot ≡ true
      → Looked S i name stack (some (named stack i.content.parent dot_dot, 0))
  entry :
      (r : Option (DirEntry × ℕ))
      → strcmp_equal name dot ≡ false
      → strcmp_equal name dot_dot ≡ false
      → FirstEntry S i.content (matches name) 0 r
      → Looked S i name stack r

-- On a directory that is open, whose file is well formed, a lookup does not panic. It finds the inode
-- itself for ".", its parent for "..", and for any other name the first entry in use with the name,
-- with its offset, or none where there is none; it changes nothing that is seen of the device.
pub lookup-Looked :
    (o : Opened) (dir : Dir) (name : List ℕ) (stack : DirEntry) (i : Inode)
    → find_open o.open_inodes dir.inode ≡ some i
    → IsValid o.fs
    → IsFile (sector o.fs) o.fs.free_map.bit_cnt i.content
    → (fs' : Fs) × (r : Option (DirEntry × ℕ)) × (lookup o dir name stack
        ≡ some (record o { fs = fs' }, r))
      × Same o.fs fs'
      × Looked (sector o.fs) i name stack r
unfolding lookup
lookup-Looked o dir name stack i e v f = elim (Bool-cases (strcmp_equal name dot)) [
  | inl is_dot ↦
      (o.fs, some (named stack i.sector dot, 0), rw (e, is_dot) refl, Same-refl v, self is_dot)
  | inr not_dot ↦ elim (Bool-cases (strcmp_equal name dot_dot)) [
    | inl is_dot_dot ↦ (
      o.fs,
      some (named stack i.content.parent dot_dot, 0),
      rw (e, not_dot, is_dot_dot) refl,
      Same-refl v,
      parent not_dot is_dot_dot,
    )
    | inr not_dot_dot ↦
        let (fs', r, runs, same, first) =
          lookup_rounds-Locates (rounds i) o.fs i name 0 (omega arith) (omega arith) v f in
        (fs', r, rw (e, not_dot, not_dot_dot, runs) refl, same, entry r not_dot not_dot_dot first)
  ]
]
