-- ===== src/FreeMap.antt =====
-- src/filesys/free-map.c: sectors are taken from and given back to the free map, which is written
-- to its file after every change. The opening, closing and creation of that file are left out.
pub mod Save
pub mod Allocate
pub mod Release
mod Tests
use cs130_25spring_project.Common.{
  ℕ, zero, suc, ◌+◌, ◌≤◌, Bool, true, false, not, Option, none, some, List, ◌==◌, if◌then◌else◌,
  ◌>>=◌, ◌>>◌, assert,
}
use cs130_25spring_project.Bitmap.{
  Bitmap, bitmap_error, bitmap_scan_and_flip, bitmap_set_multiple, bitmap_all, bitmap_create,
  bitmap_mark,
}
use cs130_25spring_project.Cache
use cs130_25spring_project.Fs.{Fs, MapFile}

abbrev pub free_map_sector : ℕ
free_map_sector = 0

abbrev pub root_dir_sector : ℕ
root_dir_sector = 1

-- `size` is that of the file system device; a null bitmap is a panic.
pub free_map_init : (struct_ok : Bool) → (storage : Option (List ℕ)) → (size : ℕ) → Option Bitmap
free_map_init struct_ok storage size = do
  created ← bitmap_create struct_ok storage size
  b ← created
  b' ← bitmap_mark b free_map_sector
  bitmap_mark b' root_dir_sector

module _ (file : MapFile) where
  -- `bitmap_write (free_map, free_map_file)`
  pub save : Fs → Option (Fs × Bool)
  save fs = do
    (st, done) ← file.bitmap_write fs.cache fs.free_map
    some (record fs { cache = st }, done)

  -- The second condition of the `if`, and its body: the file could not be written.
  pub confirm : Fs → ℕ → ℕ → Option (Fs × Option ℕ)
  confirm fs sector cnt =
      if fs.free_map_open
      then (save fs >>= λ (fs', done).
          if done
          then some (fs', some sector)
          else (bitmap_set_multiple fs'.free_map sector cnt false >>= λ map.
              some (record fs' { free_map = map }, none)))
      else some (fs, some sector)

  -- The result is `*sectorp` where the routine returns true.
  pub free_map_allocate : Fs → (cnt : ℕ) → Option (Fs × Option ℕ)
  unfolding confirm
  free_map_allocate fs cnt = do
    (map, sector) ← bitmap_scan_and_flip fs.free_map 0 cnt false
    let taken : Fs = record fs { free_map = map }
    if sector == bitmap_error then some (taken, none) else confirm taken sector cnt

  -- Without its file the map cannot be written: the null pointer is a panic.
  pub free_map_release : Fs → (sector cnt : ℕ) → Option Fs
  free_map_release fs sector cnt = do
    all ← bitmap_all fs.free_map sector cnt
    assert all
    map ← bitmap_set_multiple fs.free_map sector cnt false
    assert fs.free_map_open
    (fs', done) ← save (record fs { free_map = map })
    some fs'
