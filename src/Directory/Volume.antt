-- ===== src/Directory/Volume.antt =====
-- A directory of two entries, whose inode is in sector 3 and whose file is in sector 4, on a device with
-- given bytes in the file.
use cs130_25spring_project.Common.{
  ℕ, zero, suc, ◌*◌, ◌<◌, ◌≡◌, refl, ap, ◌∙◌, true, false, List, [], ◌∷◌, arith, ◌==◌,
  if◌then◌else◌, replicate, length, get_or,
}
use cs130_25spring_project.Fs.{Fs}
use cs130_25spring_project.Fs.Laws.{IsValid, sector}
use cs130_25spring_project.Inode.{InodeDisk, Inode}
use cs130_25spring_project.Inode.Disk.{words, disk_bytes}
use cs130_25spring_project.Inode.Whole.{IsFile}
use cs130_25spring_project.Directory.{Dir, DirEntry, strcmp_equal}
use cs130_25spring_project.Directory.Named.{IsString}
use cs130_25spring_project.Directory.Add.{IsDir}
use cs130_25spring_project.Block.{block_sector_none}
use cs130_25spring_project.Cache.{Devices, cache_init}
use cs130_25spring_project.Cache.Free.{cache_init-IsValid}
use cs130_25spring_project.Inode.Index.{table_of, blocks, block_of}
use cs130_25spring_project.Inode.Lookup.{get_or-replicate}
use cs130_25spring_project.Directory.Search.{IsName}

abbrev pub folder : InodeDisk
folder = record {
  is_dir = 1;
  file_cnt = 0;
  length = 72;
  parent = 1;
  direct = 4 ∷ replicate 9 block_sector_none;
  indirect = block_sector_none;
  doubly_indirect = block_sector_none;
  magic = 0x494e_4f44;
  unused = replicate 444 0;
}

abbrev pub folder_inode : Inode
folder_inode = record {
  sector = 3;
  open_cnt = 1;
  removed = false;
  deny_write_cnt = 0;
  content = folder;
}

-- Every sector but that of the inode has the bytes of `content_bytes`.
abbrev disk : (content_bytes : List ℕ) → Devices
disk content_bytes = λ _. record {
  size = 8;
  foreign = false;
  sectors = λ s. if s == 3 then disk_bytes folder else content_bytes;
  read_cnt = 0;
  write_cnt = 0;
}

unfoldable pub volume : (content_bytes : List ℕ) → Fs
volume content_bytes = record {
  cache = cache_init (disk content_bytes);
  free_map = record { bit_cnt = 8; bits = 31 ∷ [] };
  free_map_open = true;
  read_ahead_list = [];
}

module _ (content_bytes : List ℕ) where
  volume-IsValid : IsValid (volume content_bytes)
  unfolding volume cache_init
  volume-IsValid = record {
    cache = (cache_init-IsValid (disk content_bytes)).0;
    map = record { small = omega arith; storage = omega arith };
    room = omega arith;
    size32 = omega arith;
    writable = refl;
  }

  pub sectors :
      (s : ℕ)
      → sector (volume content_bytes) s ≡ (if s == 3 then disk_bytes folder else content_bytes)
  unfolding volume
  sectors s = (cache_init-IsValid (disk content_bytes)).1 0 s

  no_table :
      (i : ℕ)
      → get_or (table_of (sector (volume content_bytes)) block_sector_none) i block_sector_none
        ≡ block_sector_none
  unfolding table_of
  no_table i = get_or-replicate 128 i block_sector_none

  pub first_block : (k : ℕ) → k * 512 < 72 → block_of (sector (volume content_bytes)) folder k ≡ 4
  unfolding blocks
  first_block zero h = refl
  first_block (suc k) h = absurd (omega arith)

  module _ (full : length content_bytes ≡ 512) where
    folder-IsFile :
        IsFile (sector (volume content_bytes)) (volume content_bytes).free_map.bit_cnt folder
    unfolding volume
    folder-IsFile = record {
      index = record {
        direct = refl;
        indirect = λ h. absurd (ground (arith, h));
        doubly = λ h. absurd (ground (arith, h));
        inner = λ i h. absurd (ground (arith, h, no_table i));
      };
      held = λ k h. omega (arith, first_block k h);
      whole = λ k h.
          ap (λ s. length (sector (volume content_bytes) s)) (first_block k h)
          ∙ ap length (sectors 4)
          ∙ full;
    }

    pub folder-IsDir : IsDir (volume content_bytes) folder_inode
    unfolding volume words
    folder-IsDir = record {
      valid = volume-IsValid;
      file = folder-IsFile;
      apart = record {
        indirect = λ k h. ground (arith, first_block k h);
        doubly = λ k h. ground (arith, first_block k h);
        inner = λ k i h. ground (arith, first_block k h, no_table i);
        distinct = λ j k hj hk e. omega arith;
      };
      allowed = refl;
      inside = omega arith;
      disk = record { direct = refl; words = ground arith; unused = refl };
      held = sectors 3;
      outside = record {
        indirect = ground arith;
        doubly = ground arith;
        inner = λ i. ground (arith, no_table i);
        block = λ k h. ground (arith, first_block k h);
      };
    }

abbrev pub blank : Fs
blank = volume (replicate 512 0)

pub blank-IsDir : IsDir blank folder_inode
blank-IsDir = folder-IsDir (replicate 512 0) refl

abbrev pub blank_entry : DirEntry
blank_entry = record { inode_sector = 0; name = replicate 31 7; in_use = 9 }

abbrev pub letter : List ℕ
letter = 97 ∷ []

abbrev pub folder_dir : Dir
folder_dir = record { inode = 3; pos = 0 }

pub letter-IsName : IsName letter
unfolding IsString strcmp_equal
letter-IsName = record {
  string = ((λ e. absurd (omega arith)), tt);
  pos = omega arith;
  short = omega arith;
  not_dot = refl;
  not_dot_dot = refl;
}
