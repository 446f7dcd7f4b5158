-- ===== src/Inode/Tests.antt =====
-- The inode operations at a file of 600 bytes in two sectors of a device of eight.
use cs130_25spring_project.Common.{
  ℕ, zero, suc, ◌*◌, ◌<◌, ◌≡◌, refl, ap, true, false, ◌⊎◌, inl, inr, some, [], ◌∷◌, arith,
  replicate, length, get_or,
}
use cs130_25spring_project.Block.{block_sector_none}
use cs130_25spring_project.Cache.{Devices, cache_init}
use cs130_25spring_project.Cache.Free.{cache_init-IsValid}
use cs130_25spring_project.Fs.{Fs}
use cs130_25spring_project.Fs.Laws.{IsValid, sector, Same}
use cs130_25spring_project.Inode.{InodeDisk, Inode, byte_to_sector_unlocked, inode_read_at}
use cs130_25spring_project.Inode.Index.{table_of, blocks, block_of}
use cs130_25spring_project.Inode.Lookup.{IsIndex, get_or-replicate}
use cs130_25spring_project.Inode.Sector.{byte_to_sector_unlocked-block_of}
use cs130_25spring_project.Inode.File.{file_bytes}
use cs130_25spring_project.Inode.Whole.{IsFile}
use cs130_25spring_project.Inode.Read.{inode_read_at-bytes}
use cs130_25spring_project.Fs.{MapFile}
use cs130_25spring_project.Inode.Disk.{IsDisk, words}
use cs130_25spring_project.Inode.Write.{inode_write_at}
use cs130_25spring_project.Inode.Written.{IsApart, Written}
use cs130_25spring_project.Inode.Roundtrip.{inode_write_at-Written, inode_read_at-inode_write_at}

abbrev pub devices : Devices
devices = λ _. record {
  size = 8;
  foreign = false;
  sectors = λ s. replicate 512 s;
  read_cnt = 0;
  write_cnt = 0;
}

unfoldable pub start : Fs
start = record {
  cache = cache_init devices;
  free_map = record { bit_cnt = 8; bits = 3 ∷ [] };
  free_map_open = true;
  read_ahead_list = [];
}

pub start-IsValid : IsValid start
unfolding start cache_init
start-IsValid = record {
  cache = (cache_init-IsValid devices).0;
  map = record { small = omega arith; storage = omega arith };
  room = omega arith;
  size32 = omega arith;
  writable = refl;
}

abbrev pub content : InodeDisk
content = record {
  is_dir = 0;
  file_cnt = 0;
  length = 600;
  parent = 1;
  direct = 4 ∷ 6 ∷ replicate 8 block_sector_none;
  indirect = block_sector_none;
  doubly_indirect = block_sector_none;
  magic = 0x494e_4f44;
  unused = replicate 444 0;
}

abbrev pub inode : Inode
inode = record { sector = 3; open_cnt = 1; removed = false; deny_write_cnt = 0; content = content }

no_table :
    (i : ℕ)
    → get_or (table_of (sector start) block_sector_none) i block_sector_none ≡ block_sector_none
unfolding table_of
no_table i = get_or-replicate 128 i block_sector_none

content-IsIndex : IsIndex (sector start) start.free_map.bit_cnt content
unfolding start
content-IsIndex = record {
  direct = refl;
  indirect = λ h. absurd (ground (arith, h));
  doubly = λ h. absurd (ground (arith, h));
  inner = λ i h. absurd (ground (arith, h, no_table i));
}

sectors : (s : ℕ) → sector start s ≡ replicate 512 s
unfolding start
sectors s = (cache_init-IsValid devices).1 0 s

held : (k : ℕ) → k * 512 < 600 → block_of (sector start) content k < start.free_map.bit_cnt
unfolding start blocks
held zero h = omega arith
held (suc zero) h = omega arith
held (suc (suc k)) h = absurd (omega arith)

whole : (k : ℕ) → k * 512 < 600 → length (sector start (block_of (sector start) content k)) ≡ 512
unfolding blocks
whole zero h = ap length (sectors 4)
whole (suc zero) h = ap length (sectors 6)
whole (suc (suc k)) h = absurd (omega arith)

pub content-IsFile : IsFile (sector start) start.free_map.bit_cnt content
content-IsFile = record { index = content-IsIndex; held = held; whole = whole }

byte_to_sector_unlocked-block_of_example :
    (fs' : Fs) × (byte_to_sector_unlocked start content 599
      ≡ some (fs', block_of (sector start) content 1))
    × Same start fs'
byte_to_sector_unlocked-block_of_example =
    byte_to_sector_unlocked-block_of start content 599 start-IsValid content-IsIndex

inode_read_at-bytes_example :
    (fs' : Fs) × (inode_read_at start inode 100 550
      ≡ some (fs', file_bytes (sector start) content 550 50))
    × Same start fs'
inode_read_at-bytes_example = inode_read_at-bytes start inode 100 550 start-IsValid content-IsFile

pub content-IsDisk : IsDisk content
unfolding words
content-IsDisk = record { direct = refl; words = ground arith; unused = refl }

held_by :
    (k : ℕ)
    → k * 512 < 600
    → (block_of (sector start) content k ≡ 4) ⊎ (block_of (sector start) content k ≡ 6)
unfolding blocks
held_by zero h = inl refl
held_by (suc zero) h = inr refl
held_by (suc (suc k)) h = absurd (omega arith)

distinct :
    (j k : ℕ)
    → j * 512 < 600
    → k * 512 < 600
    → block_of (sector start) content j ≡ block_of (sector start) content k
    → j ≡ k
unfolding blocks
distinct zero zero hj hk e = refl
distinct zero (suc zero) hj hk e = absurd (omega arith)
distinct (suc zero) zero hj hk e = absurd (omega arith)
distinct (suc zero) (suc zero) hj hk e = refl
distinct (suc (suc j)) k hj hk e = absurd (omega arith)
distinct j (suc (suc k)) hj hk e = absurd (omega arith)

content-IsApart : IsApart (sector start) content
content-IsApart = record {
  indirect = λ k h. ground (arith, held_by k h);
  doubly = λ k h. ground (arith, held_by k h);
  inner = λ k i h. ground (arith, held_by k h, no_table i);
  distinct = distinct;
}

-- A file that takes every write and holds no sector.
abbrev pub map_file : MapFile
map_file = record {
  bitmap_write = λ st b. some (st, true);
  owns = λ s. false;
  bitmap_write-keeps = λ st b v. (st, true, refl, v, λ s own. refl, λ d. refl, λ d. refl);
}

inode_write_at-Written_example :
    (fs' : Fs) × (inode_write_at map_file start inode (replicate 100 1) 450
      ≡ some (fs', inode, 100))
    × IsValid fs'
    × (fs'.free_map ≡ start.free_map)
    × IsFile (sector fs') fs'.free_map.bit_cnt content
    × Written (sector start) content (replicate 100 1) 450 (sector fs')
inode_write_at-Written_example =
    inode_write_at-Written map_file start inode (replicate 100 1) 450 start-IsValid content-IsFile
      content-IsApart refl (omega arith)

inode_read_at-inode_write_at_example :
    (fs' : Fs) × (fs'' : Fs) × (inode_write_at map_file start inode (replicate 100 1) 450
      ≡ some (fs', inode, 100))
    × (inode_read_at fs' inode 100 450 ≡ some (fs'', replicate 100 1))
inode_read_at-inode_write_at_example =
    inode_read_at-inode_write_at map_file start inode (replicate 100 1) 450 start-IsValid
      content-IsFile content-IsApart refl (omega arith)
