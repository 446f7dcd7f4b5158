-- ===== src/FreeMap/Tests.antt =====
-- The free map at a device of eight sectors, the first two in use.
use cs130_25spring_project.Common.{
  ℕ, zero, suc, ◌≡◌, refl, true, false, Option, some, [], ◌∷◌, arith, if◌then◌else◌, replicate,
}
use cs130_25spring_project.Common.Bits.{bit}
use cs130_25spring_project.Bitmap.View.{at}
use cs130_25spring_project.Bitmap.Range.{in_range}
use cs130_25spring_project.Bitmap.Scan.{Group}
use cs130_25spring_project.Cache.{Devices, cache_init}
use cs130_25spring_project.Cache.Free.{cache_init-IsValid}
use cs130_25spring_project.Fs.{Fs, MapFile}
use cs130_25spring_project.Fs.Laws.{IsValid}
use cs130_25spring_project.FreeMap.{free_map_allocate, free_map_release}
use cs130_25spring_project.FreeMap.Save.{Remapped}
use cs130_25spring_project.FreeMap.Allocate.{Allocated, free_map_allocate-Allocated}
use cs130_25spring_project.FreeMap.Release.{free_map_release-Remapped}

abbrev devices : Devices
devices = λ _. record {
  size = 8;
  foreign = false;
  sectors = λ s. replicate 512 s;
  read_cnt = 0;
  write_cnt = 0;
}

-- A file that takes every write and holds no sector.
abbrev map_file : MapFile
map_file = record {
  bitmap_write = λ st b. some (st, true);
  owns = λ s. false;
  bitmap_write-keeps = λ st b v. (st, true, refl, v, λ s own. refl, λ d. refl, λ d. refl);
}

start : Fs
start = record {
  cache = cache_init devices;
  free_map = record { bit_cnt = 8; bits = 3 ∷ [] };
  free_map_open = true;
  read_ahead_list = [];
}

start-IsValid : IsValid start
unfolding start cache_init
start-IsValid = record {
  cache = (cache_init-IsValid devices).0;
  map = record { small = omega arith; storage = omega arith };
  room = omega arith;
  size32 = omega arith;
  writable = refl;
}

free_map_allocate-Allocated_example :
    (fs' : Fs) × (r : Option ℕ) × (free_map_allocate map_file start 3 ≡ some (fs', r))
    × Allocated map_file start 3 fs' r
free_map_allocate-Allocated_example = free_map_allocate-Allocated map_file start 3 start-IsValid

first_used : Group start.free_map 0 2 true
unfolding start bit
first_used zero lo h = refl
first_used (suc zero) lo h = refl
first_used (suc (suc k)) lo h = absurd (omega arith)

free_map_release-Remapped_example :
    (fs' : Fs) × (free_map_release map_file start 0 2 ≡ some fs')
    × Remapped map_file start (λ j. if in_range 0 2 j then false else at start.free_map j) fs'
unfolding start
free_map_release-Remapped_example =
    free_map_release-Remapped map_file start 2 start-IsValid 0 (omega arith) first_used refl
