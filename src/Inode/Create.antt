-- ===== src/Inode/Create.antt =====
-- The creation of an inode, and an empty file that is created and opened.
use cs130_25spring_project.Common.{
  ℕ, ◌^◌, ◌<◌, ◌≡◌, ◌≢◌, refl, sym, ap, ◌∙◌, Bool, true, false, Option, none, some, List, arith,
  if◌then◌else◌, ◌>>=◌, replicate, length, ==-refl, ne→==,
}
use cs130_25spring_project.Common.Bytes.{slice, splice, slice-splice}
use cs130_25spring_project.Block.{block_sector_none}
use cs130_25spring_project.Fs.{Fs, MapFile, write_bytes}
use cs130_25spring_project.Fs.Laws.{IsValid, sector, write_bytes-Shows}
use cs130_25spring_project.Inode.{InodeDisk, Inode, bytes_to_sectors}
use cs130_25spring_project.Inode.Disk.{IsDisk, words, disk_bytes, disk_of, disk_of-disk_bytes}
use cs130_25spring_project.Inode.Grow.{inode_grow_unlocked}
use cs130_25spring_project.Inode.Open.{Opened, find_open, inode_open}
use cs130_25spring_project.Inode.Reopen.{inode_close-open_new}

abbrev pub inode_magic : ℕ
inode_magic = 0x494e_4f44

-- The new inode before it grows.
abbrev pub blank : (length is_dir parent : ℕ) → InodeDisk
blank length is_dir parent = record {
  is_dir = is_dir;
  file_cnt = 0;
  length = length;
  parent = parent;
  direct = replicate 10 block_sector_none;
  indirect = block_sector_none;
  doubly_indirect = block_sector_none;
  magic = inode_magic;
  unused = replicate 444 0;
}

module _ (file : MapFile) where
  -- `memory` says that the structure was allocated.
  unfoldable pub inode_create :
      Fs → (memory : Bool) → (sector length is_dir parent : ℕ) → Option (Fs × Bool)
  inode_create fs memory sector length is_dir parent =
      if memory
      then (inode_grow_unlocked file fs (blank length is_dir parent) (bytes_to_sectors length)
          >>= λ (fs₁, d, grown).
              if grown
              then (write_bytes fs₁ sector (disk_bytes d) 0 >>= λ fs₂. some (fs₂, true))
              else some (fs₁, false))
      else some (fs, false)

  blank-IsDisk :
      (is_dir parent : ℕ) → is_dir < 2 ^ 32 → parent < 2 ^ 32 → IsDisk (blank 0 is_dir parent)
  unfolding words
  blank-IsDisk is_dir parent h k = record {
    direct = refl;
    words = ground (arith, h, k);
    unused = refl;
  }

  -- With memory for the structures, an empty file is created in its sector, whatever the sector held,
  -- and no other sector changes. The inode that is read when it is opened next, if it is not open, is
  -- the one created.
  pub inode_open-inode_create :
      (fs : Fs) (open_inodes : List Inode) (s is_dir parent : ℕ)
      → IsValid fs
      → s < fs.free_map.bit_cnt
      → is_dir < 2 ^ 32
      → parent < 2 ^ 32
      → length (sector fs s) ≡ 512
      → find_open open_inodes s ≡ none
      → (fs' : Fs) × (o' : Opened) × (i : Inode) × (inode_create fs true s 0 is_dir parent
          ≡ some (fs', true))
        × (inode_open (record { fs = fs'; open_inodes = open_inodes }) true s ≡ some (o', some i))
        × (i.content ≡ blank 0 is_dir parent)
        × ((t : ℕ) → s ≢ t → sector fs' t ≡ sector fs t)
  unfolding inode_create inode_grow_unlocked
  inode_open-inode_create fs open_inodes s is_dir parent v h hd hp whole e =
      let d = blank 0 is_dir parent in
      let (back, size) = disk_of-disk_bytes d (blank-IsDisk is_dir parent hd hp) in
      let (fs', e₁, shows) = write_bytes-Shows fs s v h (disk_bytes d) 0 in
      let (o', i, fs'', e₂, content, found, closed, views, synced) =
        inode_close-open_new file (record { fs = fs'; open_inodes = open_inodes }) s shows.valid
          (omega (arith, ap (λ m. m.bit_cnt) shows.map)) e in
      let at_s : sector fs' s ≡ splice 0 (disk_bytes d) (sector fs s) =
        shows.sectors s ∙ rw (==-refl s) refl in
      let bytes : slice 0 512 (sector fs' s) ≡ disk_bytes d =
        ap (λ l. slice 0 512 l) at_s
        ∙ ap (λ n. slice 0 n (splice 0 (disk_bytes d) (sector fs s))) (sym size)
        ∙ slice-splice 0 (disk_bytes d) (sector fs s) (omega arith) in
      (
        fs',
        o',
        i,
        rw e₁ refl,
        e₂,
        content ∙ ap disk_of bytes ∙ back,
        λ t ne. shows.sectors t ∙ rw (ne→== ne) refl,
      )
