-- ===== src/Directory.antt =====
-- src/filesys/directory.c: a directory is a file of entries of 36 bytes. A string is the list of its
-- characters before the zero; `stack` is what an uninitialised entry holds.
pub mod Lookup
pub mod Tree
pub mod Path
pub mod Remove
pub mod Slot
pub mod Outside
pub mod Named
pub mod Entries
pub mod Add
pub mod Search
pub mod Found
pub mod Removed
mod Volume
mod Tests
mod RemoveTests
use cs130_25spring_project.Common.{
  ℕ, zero, suc, ◌+◌, ◌-◌, ◌*◌, ◌/◌, ◌^◌, Bool, true, false, not, ◌&&◌, Option, none, some, List, [],
  ◌∷◌, ◌++◌, ◌==◌, ltb, leb, min, if◌then◌else◌, ◌>>=◌, length, get_or, take, drop,
}
use cs130_25spring_project.Common.Words.{encode, word_at}
use cs130_25spring_project.Fs.{Fs, MapFile}
use cs130_25spring_project.Inode.{Inode, inode_read_at}
use cs130_25spring_project.Inode.Write.{inode_write_at}
use cs130_25spring_project.Inode.Open.{
  Opened, find_open, assign, inode_open, inode_remove, inode_close,
}
use cs130_25spring_project.Inode.FileCnt.{inode_is_dir, inode_file_cnt, inode_update_file_cnt}

pub record Dir : Type 0 where
  pub inode : ℕ
  pub pos : ℕ

abbrev pub name_max : ℕ
name_max = 30

-- `struct dir_entry`; `name` has the 31 bytes of the array.
pub record DirEntry : Type 0 where
  pub inode_sector : ℕ
  pub name : List ℕ
  pub in_use : ℕ

abbrev pub entry_size : ℕ
entry_size = 36

abbrev pub entry_bytes : DirEntry → List ℕ
entry_bytes e = encode (e.inode_sector ∷ []) ++ e.name ++ (e.in_use ∷ [])

abbrev pub entry_of : List ℕ → DirEntry
entry_of l = record {
  inode_sector = word_at l;
  name = take (name_max + 1) (drop 4 l);
  in_use = get_or l 35 0;
}

-- The string in an array.
unfoldable pub c_string : List ℕ → List ℕ
c_string [] = []
c_string (c ∷ l) = if c == 0 then [] else c ∷ c_string l

-- `!strcmp (a, b)`
unfoldable pub strcmp_equal : (a b : List ℕ) → Bool
strcmp_equal [] [] = true
strcmp_equal [] (y ∷ b) = false
strcmp_equal (x ∷ a) [] = false
strcmp_equal (x ∷ a) (y ∷ b) = if x == y then strcmp_equal a b else false

-- The destination after `strlcpy`, for a size that is not 0.
unfoldable pub strlcpy : (dst src : List ℕ) → (size : ℕ) → List ℕ
strlcpy dst src size =
    let dst_len = min (length src) (size - 1) in take dst_len src ++ (0 ∷ drop (dst_len + 1) dst)

-- "." and ".."
abbrev pub dot : List ℕ
dot = 46 ∷ []

abbrev pub dot_dot : List ℕ
dot_dot = 46 ∷ 46 ∷ []

-- An entry that is set to a name in use.
abbrev pub named : DirEntry → (sector : ℕ) → (name : List ℕ) → DirEntry
named e sector name = record {
  inode_sector = sector;
  name = strlcpy e.name name (name_max + 1);
  in_use = 1;
}

-- `e.in_use && !strcmp (name, e.name)`
abbrev pub matches : List ℕ → DirEntry → Bool
matches name e = not (e.in_use == 0) && strcmp_equal name (c_string e.name)

-- The loops over a directory read an entry a round and stop at the first short read, so that a round
-- for each entry, and one more, are enough.
abbrev pub rounds : Inode → ℕ
rounds i = i.content.length / entry_size + 1

unfoldable pub lookup_rounds :
    ℕ → Fs → Inode → (name : List ℕ) → (ofs : ℕ) → Option (Fs × Option (DirEntry × ℕ))
lookup_rounds zero fs i name ofs = none
lookup_rounds (suc fuel) fs i name ofs = inode_read_at fs i entry_size ofs >>= λ (fs', bytes).
    if length bytes == entry_size
    then (if matches name (entry_of bytes)
        then some (fs', some (entry_of bytes, ofs))
        else lookup_rounds fuel fs' i name (ofs + entry_size))
    else some (fs', none)

-- The entry and its offset, or `none` for the result false.
unfoldable pub lookup :
    Opened → Dir → (name : List ℕ) → (stack : DirEntry) → Option (Opened × Option (DirEntry × ℕ))
lookup o dir name stack = find_open o.open_inodes dir.inode >>= λ i.
    if strcmp_equal name dot
    then some (o, some (named stack i.sector dot, 0))
    else if strcmp_equal name dot_dot
    then some (o, some (named stack i.content.parent dot_dot, 0))
    else (lookup_rounds (rounds i) o.fs i name 0 >>= λ (fs, found).
        some (record o { fs = fs }, found))

-- The open of the inode of an entry, if there is one.
abbrev pub open_entry :
    (memory : Bool) → Opened × Option (DirEntry × ℕ) → Option (Opened × Option Inode)
open_entry memory (o, none) = some (o, none)
open_entry memory (o, some (e, ofs)) = inode_open o memory e.inode_sector

unfoldable pub dir_lookup :
    Opened
    → Dir
    → (name : List ℕ) → (stack : DirEntry) → (memory : Bool) → Option (Opened × Option Inode)
dir_lookup o dir name stack memory = lookup o dir name stack >>= open_entry memory

-- The loop of `dir_add`: the first entry that is free, or the end. `e` keeps what it held past the
-- bytes of a short read.
unfoldable pub find_slot : ℕ → Fs → Inode → DirEntry → (ofs : ℕ) → Option (Fs × DirEntry × ℕ)
find_slot zero fs i e ofs = none
find_slot (suc fuel) fs i e ofs = inode_read_at fs i entry_size ofs >>= λ (fs', bytes).
    let e' = entry_of (bytes ++ drop (length bytes) (entry_bytes e)) in
    if length bytes == entry_size
    then (if e'.in_use == 0
        then some (fs', e', ofs)
        else find_slot fuel fs' i e' (ofs + entry_size))
    else some (fs', e', ofs)

abbrev pub is_found {ℓ} : {A : Type ℓ} → Option A → Bool
is_found none = false
is_found (some x) = true

module _ (file : MapFile) where
  -- The write of a slot, and the count of entries, which changes whether the write succeeds or not.
  unfoldable pub write_slot :
      Opened
      → Dir
      → (name : List ℕ) → (inode_sector : ℕ) → (stack : DirEntry) → Option (Opened × Bool)
  write_slot o dir name inode_sector stack = find_open o.open_inodes dir.inode >>= λ i.
      find_slot (rounds i) o.fs i stack 0 >>= λ (fs, e, ofs).
      inode_write_at file fs i (entry_bytes (named e inode_sector name)) ofs >>= λ (fs₁, i₁, n).
      inode_update_file_cnt fs₁ i₁ 1 >>= λ (fs₂, i₂).
      some (record { fs = fs₂; open_inodes = assign o.open_inodes dir.inode i₂ }, n == entry_size)

  unfoldable pub dir_add :
      Opened
      → Dir
      → (name : List ℕ) → (inode_sector : ℕ) → (stack : DirEntry) → Option (Opened × Bool)
  dir_add o dir name inode_sector stack =
      if length name == 0
      then some (o, false)
      else if ltb name_max (length name)
      then some (o, false)
      else if strcmp_equal name dot
      then some (o, false)
      else if strcmp_equal name dot_dot
      then some (o, false)
      else (lookup o dir name stack >>= λ (o₁, found).
          if is_found found then some (o₁, false) else write_slot o₁ dir name inode_sector stack)

-- The loop of `dir_readdir`: the position after it, and the name.
unfoldable pub readdir_rounds : ℕ → Fs → Inode → (pos : ℕ) → Option (Fs × ℕ × Option (List ℕ))
readdir_rounds zero fs i pos = none
readdir_rounds (suc fuel) fs i pos = inode_read_at fs i entry_size pos >>= λ (fs', bytes).
    if length bytes == entry_size
    then (if (entry_of bytes).in_use == 0
        then readdir_rounds fuel fs' i (pos + entry_size)
        else some (fs', pos + entry_size, some (c_string (entry_of bytes).name)))
    else some (fs', pos, none)

unfoldable pub dir_readdir : Opened → Dir → Option (Opened × Dir × Option (List ℕ))
dir_readdir o dir = find_open o.open_inodes dir.inode >>= λ i.
    readdir_rounds (rounds i) o.fs i dir.pos >>= λ (fs, pos, name).
    some (record o { fs = fs }, record dir { pos = pos }, name)
