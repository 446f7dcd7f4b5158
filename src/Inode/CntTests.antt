-- ===== src/Inode/CntTests.antt =====
-- The count of a directory on a device whose every sector holds one inode.
use cs130_25spring_project.Common.{ℕ, ◌≡◌, ◌≢◌, refl, true, false, some, [], ◌∷◌, arith}
use cs130_25spring_project.Cache.{Devices, cache_init}
use cs130_25spring_project.Cache.Free.{cache_init-IsValid}
use cs130_25spring_project.Fs.{Fs}
use cs130_25spring_project.Fs.Laws.{IsValid, sector}
use cs130_25spring_project.Inode.Disk.{disk_bytes}
use cs130_25spring_project.Inode.FileCnt.{
  Holds, updated, inode_file_cnt, inode_update_file_cnt, inode_file_cnt-inode_update_file_cnt,
}
use cs130_25spring_project.Inode.Tests.{content, content-IsDisk, inode}

abbrev inode_devices : Devices
inode_devices = λ _. record {
  size = 8;
  foreign = false;
  sectors = λ s. disk_bytes content;
  read_cnt = 0;
  write_cnt = 0;
}

inodes : Fs
inodes = record {
  cache = cache_init inode_devices;
  free_map = record { bit_cnt = 8; bits = 15 ∷ [] };
  free_map_open = true;
  read_ahead_list = [];
}

inodes-IsValid : IsValid inodes
unfolding inodes cache_init
inodes-IsValid = record {
  cache = (cache_init-IsValid inode_devices).0;
  map = record { small = omega arith; storage = omega arith };
  room = omega arith;
  size32 = omega arith;
  writable = refl;
}

third-Holds : Holds inodes inode content
unfolding inodes
third-Holds = (cache_init-IsValid inode_devices).1 0 3

-- One entry less, as the word of -1.
inode_file_cnt-inode_update_file_cnt_example :
    (fs' : Fs) × (fs'' : Fs) × (inode_update_file_cnt inodes inode 0xffff_ffff
      ≡ some (fs', record inode { content = updated content 0xffff_ffff }))
    × ((t : ℕ) → 3 ≢ t → sector fs' t ≡ sector inodes t)
    × (inode_file_cnt fs' (record inode { content = updated content 0xffff_ffff })
        ≡ some (fs'', record inode { content = updated content 0xffff_ffff }, 0xffff_ffff))
unfolding inodes
inode_file_cnt-inode_update_file_cnt_example =
    inode_file_cnt-inode_update_file_cnt inodes inode content 0xffff_ffff inodes-IsValid
      (omega arith) content-IsDisk third-Holds
