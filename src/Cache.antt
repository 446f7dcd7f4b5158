-- ===== src/Cache.antt =====
-- src/filesys/cache.c: the buffer cache of 64 sectors in front of the block devices, with
-- write-back and eviction of the block used longest ago. Calls run one at a time: `cache_lock` and
-- the locks of the blocks are left out. `none` is a panic of the code below.
pub mod View
pub mod Lru
pub mod Install
pub mod Evict
pub mod Served
pub mod Access
pub mod Flush
pub mod Free
mod Tests
use cs130_25spring_project.Common.{
  ℕ, zero, suc, ◌+◌, ◌-◌, Bool, true, false, not, ◌||◌, ◌&&◌, Option, none, some, List, [], ◌∷◌,
  ◌++◌, ◌==◌, leb, if◌then◌else◌, ◌>>=◌, ◌>>◌, assert, length, get_elem?, set, replicate,
}
use cs130_25spring_project.Common.Bytes.{slice, splice}
use cs130_25spring_project.Block.{Block, block_sector_none, block_read, block_write}

abbrev pub cache_size : ℕ
cache_size = 64

-- `struct cache_block`; devices are known by number.
pub record CacheBlock : Type 0 where
  pub block : ℕ
  pub sector : ℕ
  pub dirty : Bool
  pub valid : Bool
  pub bytes : List ℕ

abbrev pub Devices : Type 0
Devices = ℕ → Block

-- `cache`, `cache_list` as the indices of its blocks, `flush_done`, and the devices behind.
pub record State : Type 0 where
  pub cache : List CacheBlock
  pub cache_list : List ℕ
  pub flush_done : Bool
  pub devices : Devices

abbrev pub set_device : Devices → ℕ → Block → Devices
set_device devs id b d = if d == id then b else devs d

pub device_read : Devices → ℕ → ℕ → Option (List ℕ × Devices)
device_read devs id sector = do
  (bytes, b) ← block_read (devs id) sector
  some (bytes, set_device devs id b)

pub device_write : Devices → ℕ → ℕ → List ℕ → Option Devices
device_write devs id sector bytes = do
  b ← block_write (devs id) sector bytes
  some (set_device devs id b)

abbrev pub count_up : ℕ → ℕ → List ℕ
count_up i zero = []
count_up i (suc n) = i ∷ count_up (i + 1) n

unfoldable pub zero_sector : List ℕ
zero_sector = replicate 512 0

-- A block of the zeroed array.
abbrev pub empty_block : CacheBlock
empty_block = record { block = 0; sector = 0; dirty = false; valid = false; bytes = zero_sector }

unfoldable pub cache_init : Devices → State
cache_init devs = record {
  cache = replicate cache_size empty_block;
  cache_list = count_up 0 cache_size;
  flush_done = false;
  devices = devs;
}

abbrev pub matches : CacheBlock → ℕ → ℕ → Bool
matches cb block sector = cb.valid && (cb.block == block) && (cb.sector == sector)

-- The search loop of cache_read, cache_write and cache_free, from index `i` on.
pub find_from : List CacheBlock → ℕ → ℕ → ℕ → Option ℕ
find_from [] i block sector = none
find_from (cb ∷ l) i block sector =
    if matches cb block sector then some i else find_from l (i + 1) block sector

-- `list_remove` and `list_push_back` on `cache_list`
pub remove : ℕ → List ℕ → List ℕ
remove i [] = []
remove i (j ∷ l) = if i == j then l else j ∷ remove i l

abbrev pub to_back : ℕ → List ℕ → List ℕ
to_back i l = remove i l ++ (i ∷ [])

abbrev pub pop_front : List ℕ → Option (ℕ × List ℕ)
pop_front [] = none
pop_front (i ∷ l) = some (i, l)

pub write_back : Devices → CacheBlock → Option Devices
unfolding device_write
write_back devs cb =
    if cb.valid && cb.dirty then device_write devs cb.block cb.sector cb.bytes else some devs

-- The branch `cb == NULL`: the victim is the front of the list; `dirty` is what the block is
-- marked with after the read.
pub evict : State → ℕ → ℕ → Bool → Option (State × ℕ)
unfolding device_read write_back
evict st block sector dirty = do
  (i, rest) ← pop_front st.cache_list
  cb ← get_elem? st.cache i
  devs ← write_back st.devices cb
  (bytes, devs') ← device_read devs block sector
  some (
    record st {
      cache =
          set st.cache i (record {
            block = block;
            sector = sector;
            dirty = dirty;
            valid = false;
            bytes = bytes;
          });
      cache_list = rest ++ (i ∷ []);
      devices = devs';
    },
    i,
  )

abbrev pub hit_read : State → ℕ → State
hit_read st i = record st { cache_list = to_back i st.cache_list }

abbrev pub overwritten : State → ℕ → CacheBlock → State
overwritten st i cb = record st { cache = set st.cache i cb }

-- The state and the bytes copied to the buffer.
pub cache_read : State → ℕ → ℕ → (size offset : ℕ) → Option (State × List ℕ)
unfolding find_from remove evict
cache_read st block sector size offset = do
  assert (not (sector == block_sector_none))
  (st', i) ← elim (find_from st.cache 0 block sector) [
    | some i ↦ some (hit_read st i, i)
    | none ↦ evict st block sector false
  ]
  cb ← get_elem? st'.cache i
  some (overwritten st' i (record cb { valid = true }), slice offset size cb.bytes)

abbrev pub hit_write : State → ℕ → Option (State × ℕ)
hit_write st i = do
  cb ← get_elem? st.cache i
  some (
    record st {
      cache = set st.cache i (record cb { dirty = true });
      cache_list = to_back i st.cache_list;
    },
    i,
  )

-- `buffer` holds the `size` bytes to write.
pub cache_write : State → ℕ → ℕ → (buffer : List ℕ) → (offset : ℕ) → Option State
unfolding find_from remove evict
cache_write st block sector buffer offset = do
  assert (not (sector == block_sector_none))
  (st', i) ← elim (find_from st.cache 0 block sector) [
    | some i ↦ hit_write st i
    | none ↦ evict st block sector true
  ]
  cb ← get_elem? st'.cache i
  let filled : CacheBlock = record cb { bytes = splice offset buffer cb.bytes; valid = true }
  some (overwritten st' i filled)

abbrev pub flushed : CacheBlock → CacheBlock
flushed cb = if cb.valid && cb.dirty then record cb { dirty = false } else cb

-- The loop of cache_flush over the array.
pub flush_blocks : List CacheBlock → Devices → Option (List CacheBlock × Devices)
unfolding write_back
flush_blocks [] devs = some ([], devs)
flush_blocks (cb ∷ l) devs = do
  devs' ← write_back devs cb
  (l', devs'') ← flush_blocks l devs'
  some (flushed cb ∷ l', devs'')

pub cache_flush : State → Bool → Option State
unfolding flush_blocks
cache_flush st done = do
  (cache, devs) ← flush_blocks st.cache st.devices
  some (record st {
    cache = cache;
    devices = devs;
    flush_done = if done then done else st.flush_done;
  })

pub free_block : List CacheBlock → ℕ → ℕ → List CacheBlock
free_block [] block sector = []
free_block (cb ∷ l) block sector =
    if matches cb block sector
    then record cb { valid = false; dirty = false } ∷ l
    else cb ∷ free_block l block sector

pub cache_free : State → ℕ → ℕ → Option State
unfolding free_block
cache_free st block sector = do
  assert (not (sector == block_sector_none))
  some (record st { cache = free_block st.cache block sector })
