-- ===== src/Inode/FullTests.antt =====
-- Growth on a device without a free sector.
use cs130_25spring_project.Common.{
  ℕ, zero, suc, ◌<◌, ◌≡◌, refl, ap, ◌==◌, true, false, some, [], ◌∷◌, arith, replicate, get_or,
}
use cs130_25spring_project.Block.{block_sector_none}
use cs130_25spring_project.Cache.{Devices, cache_init}
use cs130_25spring_project.Cache.Free.{cache_init-IsValid}
use cs130_25spring_project.Fs.{Fs}
use cs130_25spring_project.Fs.Laws.{IsValid}
use cs130_25spring_project.Inode.{InodeDisk}
use cs130_25spring_project.Common.Words.{decode, word_at}
use cs130_25spring_project.Bitmap.View.{at}
use cs130_25spring_project.Common.Bits.{bit}
use cs130_25spring_project.Fs.Laws.{table}
use cs130_25spring_project.Inode.Grow.{inode_grow_unlocked}
use cs130_25spring_project.Inode.Tests.{map_file}
use cs130_25spring_project.Inode.Loses.{inode_grow_unlocked-loses}

-- A device of 255 in every byte and no free sector: sector 3 is a table without a sector in it.
abbrev full_devices : Devices
full_devices = λ _. record {
  size = 8;
  foreign = false;
  sectors = λ s. replicate 512 255;
  read_cnt = 0;
  write_cnt = 0;
}

full : Fs
full = record {
  cache = cache_init full_devices;
  free_map = record { bit_cnt = 8; bits = 255 ∷ [] };
  free_map_open = true;
  read_ahead_list = [];
}

full-IsValid : IsValid full
unfolding full cache_init
full-IsValid = record {
  cache = (cache_init-IsValid full_devices).0;
  map = record { small = omega arith; storage = omega arith };
  room = omega arith;
  size32 = omega arith;
  writable = refl;
}

abbrev large : InodeDisk
large = record {
  is_dir = 0;
  file_cnt = 0;
  length = 5632;
  parent = 1;
  direct = replicate 10 2;
  indirect = 3;
  doubly_indirect = block_sector_none;
  magic = 0x494e_4f44;
  unused = replicate 444 0;
}

all_used : (j : ℕ) → j < full.free_map.bit_cnt → at full.free_map j ≡ true
unfolding full bit
all_used zero h = refl
all_used (suc zero) h = refl
all_used (suc (suc zero)) h = refl
all_used (suc (suc (suc zero))) h = refl
all_used (suc (suc (suc (suc zero)))) h = refl
all_used (suc (suc (suc (suc (suc zero))))) h = refl
all_used (suc (suc (suc (suc (suc (suc zero)))))) h = refl
all_used (suc (suc (suc (suc (suc (suc (suc zero))))))) h = refl
all_used (suc (suc (suc (suc (suc (suc (suc (suc j)))))))) h = absurd (omega arith)

direct_used : (i : ℕ) → i < 10 → (get_or (replicate 10 2) i 0 == block_sector_none) ≡ false
direct_used zero h = refl
direct_used (suc zero) h = refl
direct_used (suc (suc zero)) h = refl
direct_used (suc (suc (suc zero))) h = refl
direct_used (suc (suc (suc (suc zero)))) h = refl
direct_used (suc (suc (suc (suc (suc zero))))) h = refl
direct_used (suc (suc (suc (suc (suc (suc zero)))))) h = refl
direct_used (suc (suc (suc (suc (suc (suc (suc zero))))))) h = refl
direct_used (suc (suc (suc (suc (suc (suc (suc (suc zero)))))))) h = refl
direct_used (suc (suc (suc (suc (suc (suc (suc (suc (suc zero))))))))) h = refl
direct_used (suc (suc (suc (suc (suc (suc (suc (suc (suc (suc i)))))))))) h = absurd (omega arith)

first_none : get_or (table full 3) 0 0 ≡ block_sector_none
unfolding full decode word_at
first_none = ap (λ l. get_or (decode 128 l) 0 0) ((cache_init-IsValid full_devices).1 0 3)

inode_grow_unlocked-loses_example :
    (fs' : Fs) × (inode_grow_unlocked map_file full large 1
      ≡ some (fs', record large { indirect = block_sector_none }, false))
    × (at fs'.free_map 3 ≡ false)
unfolding full
inode_grow_unlocked-loses_example =
    inode_grow_unlocked-loses map_file full large 1 0 full-IsValid all_used refl direct_used
      (omega arith) (omega arith) first_none refl (omega arith)
