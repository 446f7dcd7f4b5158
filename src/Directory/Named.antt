-- ===== src/Directory/Named.antt =====
-- The bytes of a directory entry, and the names in them.
use cs130_25spring_project.Common.{
  ℕ, ◌+◌, ◌-◌, ◌*◌, ◌/◌, ◌%◌, ◌^◌, ◌≤◌, ◌<◌, ◌≡◌, ◌≢◌, refl, sym, ap, ◌∙◌, true, List, [], ◌∷◌,
  ◌++◌, arith, min, length, get_or, take, drop, ==-refl, ne→==, length-append,
}
use mathlib.Core.Path.{ap₂}
use cs130_25spring_project.Common.Words.{encode, word_at}
use cs130_25spring_project.Common.Bytes.{length-take, length-drop, take-append, take_of_le}
use cs130_25spring_project.Inode.Index.{get_or-append_right}
use cs130_25spring_project.Directory.{
  DirEntry, entry_bytes, entry_of, entry_size, name_max, c_string, strcmp_equal, strlcpy, named,
  matches,
}

-- A string holds no zero.
unfoldable pub IsString : List ℕ → Type 0
IsString [] = Unit {0}
IsString (c ∷ l) = (c ≢ 0) × IsString l

pub length-strlcpy :
    (dst src : List ℕ) (size : ℕ)
    → 0 < size
    → length dst ≡ size
    → length (strlcpy dst src size) ≡ size
unfolding strlcpy
length-strlcpy dst src size pos full =
    let n = min (length src) (size - 1) in
    omega (
      arith,
      length-append (take n src) (0 ∷ drop (n + 1) dst),
      length-take n src,
      length-drop (n + 1) dst,
    )

c_string-append : (a b : List ℕ) → IsString a → c_string (a ++ (0 ∷ b)) ≡ a
unfolding c_string IsString
c_string-append [] b h = refl
c_string-append (c ∷ a) b (ne, h) = rw (ne→== ne) (ap (λ l. c ∷ l) (c_string-append a b h))

-- A name that fits is read back as it was.
pub c_string-strlcpy :
    (dst src : List ℕ) (size : ℕ)
    → IsString src
    → length src < size
    → c_string (strlcpy dst src size) ≡ src
unfolding strlcpy
c_string-strlcpy dst src size h fits =
    let n = min (length src) (size - 1) in
    let whole : take n src ≡ src = take_of_le n src (omega arith) in
    ap (λ l. c_string (l ++ (0 ∷ drop (n + 1) dst))) whole
    ∙ c_string-append src (drop (n + 1) dst) h

pub strcmp_equal_refl : (a : List ℕ) → strcmp_equal a a ≡ true
unfolding strcmp_equal
strcmp_equal_refl [] = refl
strcmp_equal_refl (x ∷ a) = rw (==-refl x) (strcmp_equal_refl a)

pub length-entry_bytes :
    (e : DirEntry) → length e.name ≡ name_max + 1 → length (entry_bytes e) ≡ entry_size
unfolding encode
length-entry_bytes e full = omega (arith, length-append e.name (e.in_use ∷ []))

pub entry_of-entry_bytes :
    (e : DirEntry)
    → length e.name ≡ name_max + 1
    → e.inode_sector < 2 ^ 32
    → entry_of (entry_bytes e) ≡ e
unfolding encode word_at
entry_of-entry_bytes e full word =
    let w = e.inode_sector in
    let number : w % 256
          + 256 * (w / 256 % 256)
          + 65536 * (w / 65536 % 256)
          + 16777216 * (w / 16777216 % 256)
        ≡ w =
      omega (arith, word) in
    let name : take (name_max + 1) (e.name ++ (e.in_use ∷ [])) ≡ e.name =
      take-append (name_max + 1) e.name (e.in_use ∷ []) (sym full) in
    let last : get_or (e.name ++ (e.in_use ∷ [])) 31 0 ≡ e.in_use =
      get_or-append_right e.name (e.in_use ∷ []) 31 0 0 (omega (arith, full)) in
    ap₂ {C = DirEntry}
      (λ w' n. record {
        inode_sector = w';
        name = n;
        in_use = get_or (e.name ++ (e.in_use ∷ [])) 31 0;
      })
      number name
    ∙ ap {B = DirEntry} (λ u. record { inode_sector = e.inode_sector; name = e.name; in_use = u })
        last

pub matches-named :
    (e : DirEntry) (sector : ℕ) (name : List ℕ)
    → IsString name
    → length name ≤ name_max
    → matches name (named e sector name) ≡ true
matches-named e sector name h fits =
    ap (strcmp_equal name) (c_string-strlcpy e.name name (name_max + 1) h (omega arith))
    ∙ strcmp_equal_refl name
