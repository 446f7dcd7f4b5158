-- ===== src/Directory/Slot.antt =====
-- The free slot of `dir_add`, and the step of `dir_readdir`.
use cs130_25spring_project.Common.{
  ℕ, zero, suc, ◌+◌, ◌*◌, ◌≤◌, ◌<◌, ◌≡◌, refl, sym, ap, ◌∙◌, inl, inr, Bool, true, false, none,
  some, List, [], ◌∷◌, ◌++◌, arith, ◌==◌, ltb, Bool-cases, ==→eq, dec_lt, length, get_or, take,
  drop,
}
use mathlib.Core.Path.{subst}
use cs130_25spring_project.Fs.{Fs}
use cs130_25spring_project.Fs.Laws.{IsValid, sector, Same, Same-trans, Same-sector}
use cs130_25spring_project.Inode.{InodeDisk, Inode, inode_read_at}
use cs130_25spring_project.Inode.File.{file_bytes}
use cs130_25spring_project.Inode.Whole.{IsFile, Same-IsFile}
use cs130_25spring_project.Directory.{DirEntry, entry_size, entry_of, entry_bytes, find_slot}
use cs130_25spring_project.Common.Words.{word_at}
use cs130_25spring_project.Common.Bytes.{length-drop}
use cs130_25spring_project.Directory.Lookup.{
  entry_at, entry_cnt, FirstEntry, found, absent, FirstEntry-skip, read_entry,
}

get_or-prefix : (a b : List ℕ) (i : ℕ) → i < length a → get_or (a ++ b) i 0 ≡ get_or a i 0
get_or-prefix [] b i h = absurd (omega arith)
get_or-prefix (x ∷ a) b zero h = refl
get_or-prefix (x ∷ a) b (suc i) h = get_or-prefix a b i (omega arith)

take-prefix : (n : ℕ) (a b : List ℕ) → n ≤ length a → take n (a ++ b) ≡ take n a
take-prefix zero a b h = refl
take-prefix (suc n) [] b h = absurd (omega arith)
take-prefix (suc n) (x ∷ a) b h = ap (λ l. x ∷ l) (take-prefix n a b (omega arith))

drop-prefix : (n : ℕ) (a b : List ℕ) → n ≤ length a → drop n (a ++ b) ≡ drop n a ++ b
drop-prefix zero a b h = refl
drop-prefix (suc n) [] b h = absurd (omega arith)
drop-prefix (suc n) (x ∷ a) b h = drop-prefix n a b (omega arith)

-- What stands past the 36 bytes of an entry is not read.
pub entry_of-append : (a b : List ℕ) → length a ≡ entry_size → entry_of (a ++ b) ≡ entry_of a
unfolding word_at
entry_of-append a b full =
    rw
      (
        get_or-prefix a b 0 (omega arith),
        get_or-prefix a b 1 (omega arith),
        get_or-prefix a b 2 (omega arith),
        get_or-prefix a b 3 (omega arith),
        get_or-prefix a b 35 (omega arith),
        drop-prefix 4 a b (omega arith),
        take-prefix 31 (drop 4 a) b (omega (arith, length-drop 4 a)),
      )
      refl

-- `!e.in_use`
abbrev pub is_free : DirEntry → Bool
is_free e = e.in_use == 0

-- The slot found: the first free entry, or the end of the file.
pub data Slot (S : ℕ → List ℕ) (d : InodeDisk) (from : ℕ) : DirEntry → (ofs : ℕ) → Type 0 where
  free :
      (e : DirEntry) (ofs : ℕ) → FirstEntry S d is_free from (some (e, ofs)) → Slot S d from e ofs
  end :
      (e : DirEntry)
      → FirstEntry S d is_free from none
      → Slot S d from e (entry_size * entry_cnt S d)

pub Slot-skip :
    (S : ℕ → List ℕ) (d : InodeDisk) (from : ℕ) (e : DirEntry) (ofs : ℕ)
    → is_free (entry_at S d from) ≡ false
    → Slot S d (from + 1) e ofs
    → Slot S d from e ofs
Slot-skip S d from _ _ used (free e ofs first) =
    free e ofs (FirstEntry-skip S d is_free from (some (e, ofs)) used first)
Slot-skip S d from _ _ used (end e first) = end e (FirstEntry-skip S d is_free from none used first)

abbrev pub Finds : Fs → Inode → DirEntry → (from fuel : ℕ) → Type 0
Finds fs i e from fuel =
    (fs' : Fs) × (e' : DirEntry) × (ofs : ℕ) × (find_slot fuel fs i e (entry_size * from)
      ≡ some (fs', e', ofs))
    × Same fs fs'
    × Slot (sector fs) i.content from e' ofs

-- On a well-formed file the search for a slot does not panic, with a round for each entry and one
-- more. It gives the first entry that is not in use with its offset, or the offset past the last
-- entry where all are, and changes nothing that is seen of the device.
pub find_slot-Finds :
    (fuel : ℕ) (fs : Fs) (i : Inode) (e : DirEntry) (from : ℕ)
    → from ≤ entry_cnt (sector fs) i.content
    → entry_cnt (sector fs) i.content < from + fuel
    → IsValid fs
    → IsFile (sector fs) fs.free_map.bit_cnt i.content
    → Finds fs i e from fuel
unfolding find_slot
find_slot-Finds zero fs i e from low enough v f = absurd (omega arith)
find_slot-Finds (suc fuel) fs i e from low enough v f =
    go (read_entry fs i from v f) (λ fs' e' more same.
      find_slot-Finds fuel fs' i e' (from + 1) (omega (arith, more)) (omega (arith, enough))
        same.valid (Same-IsFile same f))
  where
    cnt : ℕ
    cnt = entry_cnt (sector fs) i.content

    go :
        (fs' : Fs) × (bytes : List ℕ) × (inode_read_at fs i entry_size (entry_size * from)
            ≡ some (fs', bytes))
          × Same fs fs'
          × ((length bytes == entry_size) ≡ ltb from cnt)
          × (from < cnt → bytes ≡ file_bytes (sector fs) i.content (entry_size * from) entry_size)
        → ((fs' : Fs) (e' : DirEntry) → from < cnt → Same fs fs' → Finds fs' i e' (from + 1) fuel)
        → Finds fs i e from (suc fuel)
    go (fs', bytes, reads, same, whole, content) next = elim (dec_lt from cnt) [
      | yes more ↦
          let full : (length bytes == entry_size) ≡ true = ground (arith, whole, more) in
          elim (Bool-cases read_free) [
            | inl hit ↦ (
              fs',
              entry_of (bytes ++ drop (length bytes) (entry_bytes e)),
              entry_size * from,
              rw (reads, full, hit) refl,
              same,
              hit_slot more hit,
            )
            | inr not_free ↦ miss more full not_free (next fs' after more same)
          ]
      | no past ↦ (
        fs',
        entry_of (bytes ++ drop (length bytes) (entry_bytes e)),
        entry_size * from,
        rw (reads, ended past) refl,
        same,
        end_slot past,
      )
    ]
      where
        after : DirEntry
        after = entry_of (bytes ++ drop (length bytes) (entry_bytes e))

        read_free : Bool
        read_free = is_free after

        ended : (¬ from < cnt) → (length bytes == entry_size) ≡ false
        ended past = ground (arith, whole, past)

        is_entry : from < cnt → after ≡ entry_at (sector fs) i.content from
        is_entry more =
            entry_of-append bytes (drop (length bytes) (entry_bytes e))
              (==→eq (length bytes) entry_size (ground (arith, whole, more)))
            ∙ ap entry_of (content more)

        hit_slot :
            from < cnt
            → is_free after ≡ true
            → Slot (sector fs) i.content from after (entry_size * from)
        hit_slot more hit =
            subst (λ x. Slot (sector fs) i.content from x (entry_size * from)) (sym (is_entry more))
              (free (entry_at (sector fs) i.content from) (entry_size * from) (
                found from (omega arith) more (subst (λ x. is_free x ≡ true) (is_entry more) hit)
                  (λ j low high. absurd (omega (arith, low, high)))))

        end_slot : (¬ from < cnt) → Slot (sector fs) i.content from after (entry_size * from)
        end_slot past =
            subst (λ n. Slot (sector fs) i.content from after (entry_size * n)) {x = cnt} {y = from}
              (omega (arith, low, past))
              (end after (absent (λ j le inside. absurd (omega (arith, past, le, inside)))))

        miss :
            from < cnt
            → (length bytes == entry_size) ≡ true
            → is_free after ≡ false
            → Finds fs' i after (from + 1) fuel
            → Finds fs i e from (suc fuel)
        miss more full not_free (fs'', e', ofs, runs, same', slot) = (
          fs'',
          e',
          ofs,
          rw (reads, full, not_free)
              (ap (λ o. find_slot fuel fs' i after o) {x = entry_size * from + entry_size}
                  {y = entry_size * (from + 1)} (omega arith)
                ∙ runs),
          Same-trans same same',
          Slot-skip (sector fs) i.content from e' ofs
              (subst (λ x. is_free x ≡ false) (is_entry more) not_free)
              (subst (λ S. Slot S i.content (from + 1) e' ofs) (Same-sector same) slot),
        )
