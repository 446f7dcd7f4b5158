-- ===== src/Fs.antt =====
-- The state that src/filesys/inode.c and src/filesys/free-map.c share: the buffer cache over
-- `fs_device`, which is device 0, and the free map with its file. Reads and writes of a whole
-- sector of 128 pointers.
pub mod Laws
use cs130_25spring_project.Common.{
  ℕ, ◌+◌, ◌≤◌, ◌<◌, ◌≡◌, Bool, true, false, Option, none, some, List, ◌>>=◌, ◌>>◌,
}
use cs130_25spring_project.Common.Words.{encode, decode}
use cs130_25spring_project.Bitmap.{Bitmap}
use cs130_25spring_project.Cache
use cs130_25spring_project.Cache.{cache_read, cache_write, cache_free}
use cs130_25spring_project.Cache.View.{view}
use cs130_25spring_project.Cache.View

abbrev pub fs_device : ℕ
fs_device = 0

-- `free_map_open` says that `free_map_file` is not null; `read_ahead_list` has the sectors that wait
-- to be read ahead.
pub record Fs : Type 0 where
  pub cache : Cache.State
  pub free_map : Bitmap
  pub free_map_open : Bool
  pub read_ahead_list : List ℕ

-- `bitmap_write` on the free map file goes through file.c back to the inodes. It is taken as an
-- operation on the cache that may fail, and that writes the sectors of that file alone.
pub record MapFile : Type 0 where
  pub bitmap_write : Cache.State → Bitmap → Option (Cache.State × Bool)
  pub owns : ℕ → Bool
  pub bitmap_write-keeps :
      (st : Cache.State) (b : Bitmap)
      → View.IsValid st
      → (st' : Cache.State) × (done : Bool) × (bitmap_write st b ≡ some (st', done))
        × View.IsValid st'
        × ((s : ℕ) → owns s ≡ false → view st' fs_device s ≡ view st fs_device s)
        × ((d : ℕ) → (st'.devices d).size ≡ (st.devices d).size)
        × ((d : ℕ) → (st'.devices d).foreign ≡ (st.devices d).foreign)

-- `cache_read (fs_device, sector, buffer, size, offset)`
pub read_bytes : Fs → ℕ → (size offset : ℕ) → Option (Fs × List ℕ)
read_bytes fs sector size offset = do
  (st, bytes) ← cache_read fs.cache fs_device sector size offset
  some (record fs { cache = st }, bytes)

-- `cache_write (fs_device, sector, buffer, size, offset)`
pub write_bytes : Fs → ℕ → List ℕ → (offset : ℕ) → Option Fs
write_bytes fs sector buffer offset = do
  st ← cache_write fs.cache fs_device sector buffer offset
  some (record fs { cache = st })

-- `cache_free (fs_device, sector)`
pub drop_sector : Fs → ℕ → Option Fs
drop_sector fs sector = do
  st ← cache_free fs.cache fs_device sector
  some (record fs { cache = st })

-- `struct indirect_block` in memory: its 128 pointers.
pub read_table : Fs → ℕ → Option (Fs × List ℕ)
unfolding read_bytes
read_table fs sector = do (fs', bytes) ← read_bytes fs sector 512 0; some (fs', decode 128 bytes)

pub write_table : Fs → ℕ → List ℕ → Option Fs
unfolding write_bytes
write_table fs sector table = write_bytes fs sector (encode table) 0
