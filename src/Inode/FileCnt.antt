-- ===== src/Inode/FileCnt.antt =====
-- What is kept in an inode besides its blocks: its length, its kind and, for a directory, the count
-- of its entries; and a round of the thread that reads ahead.
use cs130_25spring_project.Common.{
  ℕ, ◌+◌, ◌%◌, ◌^◌, ◌<◌, ◌≡◌, ◌≢◌, refl, ap, ◌∙◌, Bool, true, false, not, Option, some, List, [],
  ◌∷◌, arith, ◌==◌, ◌>>=◌, length, ==-refl, ne→==,
}
use cs130_25spring_project.Common.Bytes.{slice, take_of_le, splice_whole}
use cs130_25spring_project.Fs.{Fs, read_bytes, write_bytes}
use cs130_25spring_project.Fs.Laws.{IsValid, sector, Same, read_bytes-Shows, write_bytes-Shows}
use cs130_25spring_project.Inode.{InodeDisk, Inode}
use cs130_25spring_project.Inode.Disk.{IsDisk, words, disk_bytes, disk_of, disk_of-disk_bytes}

abbrev pub inode_length : Inode → ℕ
inode_length inode = inode.content.length

abbrev pub inode_is_dir : Inode → Bool
inode_is_dir inode = not (inode.content.is_dir == 0)

-- The content is read again from the sector.
unfoldable pub reload : Fs → Inode → Option (Fs × Inode)
reload fs inode = do
  (fs', bytes) ← read_bytes fs inode.sector 512 0
  some (fs', record inode { content = disk_of bytes })

unfoldable pub inode_file_cnt : Fs → Inode → Option (Fs × Inode × ℕ)
inode_file_cnt fs inode = do
  (fs', inode') ← reload fs inode
  some (fs', inode', inode'.content.file_cnt)

-- The count and `delta` are 32-bit integers, as the words that stand for them.
unfoldable pub inode_update_file_cnt : Fs → Inode → (delta : ℕ) → Option (Fs × Inode)
inode_update_file_cnt fs inode delta = reload fs inode >>= λ (fs₁, inode₁).
    let content : InodeDisk = record inode₁.content {
      file_cnt = (inode₁.content.file_cnt + delta) % 2 ^ 32;
    } in
    write_bytes fs₁ inode.sector (disk_bytes content) 0 >>= λ fs₂.
    some (fs₂, record inode₁ { content = content })

-- One round of the loop of `read_ahead_func`; the result is false where the thread ends.
pub read_next : Fs → List ℕ → Option (Fs × Bool)
read_next fs [] = some (fs, false)
read_next fs (s ∷ l) =
    read_bytes (record fs { read_ahead_list = l }) s 0 0 >>= λ (fs', bytes). some (fs', true)

unfoldable pub read_ahead_func : Fs → Option (Fs × Bool)
read_ahead_func fs = read_next fs fs.read_ahead_list

-- The sector of the inode holds `d`.
abbrev pub Holds : Fs → Inode → InodeDisk → Type 0
Holds fs inode d = sector fs inode.sector ≡ disk_bytes d

module _ (fs : Fs) (inode : Inode) (d : InodeDisk) (v : IsValid fs)
    (h : inode.sector < fs.free_map.bit_cnt) (disk : IsDisk d) (held : Holds fs inode d) where
  reload-Holds :
      (fs' : Fs) × (reload fs inode ≡ some (fs', record inode { content = d })) × Same fs fs'
  unfolding reload
  reload-Holds =
      let (back, size) = disk_of-disk_bytes d disk in
      let (fs', e, same) = read_bytes-Shows fs inode.sector v h 512 0 in
      let bytes : slice 0 512 (sector fs inode.sector) ≡ disk_bytes d =
        ap (λ l. slice 0 512 l) held ∙ take_of_le 512 (disk_bytes d) (omega arith) in
      (
        fs',
        rw e (ap (λ l. some (fs', record inode { content = l })) (ap disk_of bytes ∙ back)),
        same,
      )

abbrev pub updated : InodeDisk → (delta : ℕ) → InodeDisk
updated d delta = record d { file_cnt = (d.file_cnt + delta) % 2 ^ 32 }

updated-IsDisk : (d : InodeDisk) (delta : ℕ) → IsDisk d → IsDisk (updated d delta)
unfolding words
updated-IsDisk d delta disk = record {
  direct = disk.direct;
  words = (disk.words.0, (omega arith, disk.words.1.1));
  unused = disk.unused;
}

-- The update on a valid state, whose sector holds `d`.
abbrev pub Counts : (fs : Fs) (inode : Inode) (d : InodeDisk) (delta : ℕ) → Type 0
Counts fs inode d delta =
    (fs' : Fs) × (inode_update_file_cnt fs inode delta
      ≡ some (fs', record inode { content = updated d delta }))
    × IsValid fs'
    × (fs'.free_map ≡ fs.free_map)
    × ((t : ℕ) → inode.sector ≢ t → sector fs' t ≡ sector fs t)
    × Holds fs' (record inode { content = updated d delta }) (updated d delta)

pub inode_update_file_cnt-Counts :
    (fs : Fs) (inode : Inode) (d : InodeDisk) (delta : ℕ)
    → IsValid fs
    → inode.sector < fs.free_map.bit_cnt
    → IsDisk d
    → Holds fs inode d
    → Counts fs inode d delta
unfolding inode_update_file_cnt
inode_update_file_cnt-Counts fs inode d delta v h disk held =
    let (fs₁, e₁, same) = reload-Holds fs inode d v h disk held in
    let cnt = ap (λ m. m.bit_cnt) same.map in
    let (fs', e₂, shows) =
      write_bytes-Shows fs₁ inode.sector same.valid (omega arith) (disk_bytes (updated d delta))
        0 in
    let new = updated-IsDisk d delta disk in
    let size = (disk_of-disk_bytes d disk).1 in
    let size' = (disk_of-disk_bytes (updated d delta) new).1 in
    let old : length (sector fs₁ inode.sector) ≡ 512 =
      ap length (same.sectors inode.sector ∙ held) ∙ size in
    let at_s : sector fs' inode.sector ≡ disk_bytes (updated d delta) =
      shows.sectors inode.sector
      ∙ rw (==-refl inode.sector) refl
      ∙ splice_whole (disk_bytes (updated d delta)) (sector fs₁ inode.sector) (omega arith) in
    (
      fs',
      rw (e₁, e₂) refl,
      shows.valid,
      shows.map ∙ same.map,
      λ t ne. shows.sectors t ∙ rw (ne→== ne) refl ∙ same.sectors t,
      at_s,
    )

-- The update of the count adds to it, modulo 2 ^ 32, in the inode and in its sector, and changes
-- nothing else in the inode and no other sector; the count that is read next is the new one.
pub inode_file_cnt-inode_update_file_cnt :
    (fs : Fs) (inode : Inode) (d : InodeDisk) (delta : ℕ)
    → IsValid fs
    → inode.sector < fs.free_map.bit_cnt
    → IsDisk d
    → Holds fs inode d
    → (fs' : Fs) × (fs'' : Fs) × (inode_update_file_cnt fs inode delta
        ≡ some (fs', record inode { content = updated d delta }))
      × ((t : ℕ) → inode.sector ≢ t → sector fs' t ≡ sector fs t)
      × (inode_file_cnt fs' (record inode { content = updated d delta })
          ≡ some (fs'', record inode { content = updated d delta }, (d.file_cnt + delta) % 2 ^ 32))
unfolding inode_file_cnt
inode_file_cnt-inode_update_file_cnt fs inode d delta v h disk held =
    let (fs', e, valid, map, others, at_s) =
      inode_update_file_cnt-Counts fs inode d delta v h disk held in
    let (fs'', e', same') =
      reload-Holds fs' (record inode { content = updated d delta }) (updated d delta) valid
        (omega (arith, ap (λ m. m.bit_cnt) map)) (updated-IsDisk d delta disk) at_s in
    (fs', fs'', e, others, rw e' refl)
