-- ===== src/Fs/Laws.antt =====
-- What the accesses to the file system device do to the sectors as the cache shows them.
use cs130_25spring_project.Common.{
  ℕ, ◌+◌, ◌^◌, ◌≤◌, ◌<◌, ◌≡◌, refl, sym, ap, ◌∙◌, ◌≢◌, false, some, List, ◌++◌, arith, ◌==◌,
  if◌then◌else◌, length, drop,
}
use cs130_25spring_project.Common.Bytes.{slice, splice}
use cs130_25spring_project.Common.Words.{encode, decode, decode-encode, decode-take, AllWords}
use cs130_25spring_project.Block.{block_sector_none}
use cs130_25spring_project.Bitmap.View as Bits
use cs130_25spring_project.Cache
use cs130_25spring_project.Cache.View
use cs130_25spring_project.Cache.View.{view, disk}
use cs130_25spring_project.Cache.Served.{Served}
use cs130_25spring_project.Cache.Access.{IsSector, cache_read-Served, cache_write-Served}
use cs130_25spring_project.Cache.Free.{cache_free-dropped}
use mathlib.Core.Path.{fun_ext}
use cs130_25spring_project.Fs.{
  Fs, fs_device, read_bytes, write_bytes, drop_sector, read_table, write_table,
}

-- The bytes of a sector, and its pointers if it is a table.
abbrev pub sector : Fs → ℕ → List ℕ
sector fs s = view fs.cache fs_device s

abbrev pub table : Fs → ℕ → List ℕ
table fs s = decode 128 (sector fs s)

-- The cache and the free map are well formed, and every bit of the map is a sector of the device.
pub record IsValid (fs : Fs) : Type 0 where
  pub cache : View.IsValid fs.cache
  pub map : Bits.IsValid fs.free_map
  pub room : fs.free_map.bit_cnt ≤ (fs.cache.devices fs_device).size
  pub size32 : (fs.cache.devices fs_device).size < 2 ^ 32
  pub writable : (fs.cache.devices fs_device).foreign ≡ false

-- `fs'` is valid with the map of `fs`, and its sectors are `f`.
pub record Shows (fs : Fs) (f : ℕ → List ℕ) (fs' : Fs) : Type 0 where
  pub valid : IsValid fs'
  pub map : fs'.free_map ≡ fs.free_map
  pub opened : fs'.free_map_open ≡ fs.free_map_open
  pub sectors : (t : ℕ) → sector fs' t ≡ f t

pub inside-IsSector :
    {fs : Fs} {s : ℕ} → IsValid fs → s < fs.free_map.bit_cnt → IsSector fs.cache fs_device s
inside-IsSector v h = record {
  inside = omega (arith, v.room);
  writable = v.writable;
  size32 = v.size32;
}

module _ (fs : Fs) (s : ℕ) (v : IsValid fs) (h : s < fs.free_map.bit_cnt) where
  Served-Shows :
      (st : Cache.State) (bytes : List ℕ)
      → Served fs.cache fs_device s st bytes
      → Shows fs (λ t. if s == t then bytes else sector fs t) (record fs { cache = st })
  Served-Shows st bytes served = record {
    valid = record {
      cache = served.valid;
      map = v.map;
      room = omega (arith, v.room, served.sizes fs_device);
      size32 = omega (arith, v.size32, served.sizes fs_device);
      writable = served.foreign fs_device ∙ v.writable;
    };
    map = refl;
    opened = refl;
    sectors = λ t. served.views fs_device t;
  }

  pub read_bytes-Shows :
      (size offset : ℕ)
      → (fs' : Fs) × (read_bytes fs s size offset ≡ some (fs', slice offset size (sector fs s)))
        × Shows fs (sector fs) fs'
  unfolding read_bytes
  read_bytes-Shows size offset =
      let (st, e, served) =
        cache_read-Served fs.cache fs_device s size offset v.cache (inside-IsSector {s = s} v h) in
      let shows = Served-Shows st (sector fs s) served in
      (
        record fs { cache = st },
        rw e,
        record {
          valid = shows.valid;
          map = refl;
          opened = refl;
          sectors = λ t. ground (arith, shows.sectors t, ap (sector fs) {x = s} {y = t});
        },
      )

  pub write_bytes-Shows :
      (buffer : List ℕ) (offset : ℕ)
      → (fs' : Fs) × (write_bytes fs s buffer offset ≡ some fs')
        × Shows fs (λ t. if s == t then splice offset buffer (sector fs s) else sector fs t) fs'
  unfolding write_bytes
  write_bytes-Shows buffer offset =
      let (st, e, served) =
        cache_write-Served fs.cache fs_device s buffer offset v.cache
          (inside-IsSector {s = s} v h) in
      (record fs { cache = st }, rw e, Served-Shows st (splice offset buffer (sector fs s)) served)

  -- A table is read as it stands in its sector.
  pub read_table-Shows :
      (fs' : Fs) × (read_table fs s ≡ some (fs', table fs s)) × Shows fs (sector fs) fs'
  unfolding read_table
  read_table-Shows =
      let (fs', e, shows) = read_bytes-Shows 512 0 in
      (fs', rw e (ap (λ w. some (fs', w)) (decode-take 128 512 (sector fs s) refl)), shows)

  -- A table that is written is copied over the start of its sector.
  pub write_table-splice :
      (ws : List ℕ)
      → (fs' : Fs) × (write_table fs s ws ≡ some fs')
        × Shows fs (λ t. if s == t then splice 0 (encode ws) (sector fs s) else sector fs t) fs'
  unfolding write_table
  write_table-splice ws = write_bytes-Shows (encode ws) 0

  -- A table of 128 words that is written is what its sector holds from then on.
  pub write_table-Shows :
      (ws : List ℕ)
      → length ws ≡ 128
      → AllWords ws
      → (fs' : Fs) × (write_table fs s ws ≡ some fs')
        × IsValid fs'
        × (fs'.free_map ≡ fs.free_map)
        × (fs'.free_map_open ≡ fs.free_map_open)
        × (table fs' s ≡ ws)
        × ((t : ℕ) → t ≢ s → sector fs' t ≡ sector fs t)
  unfolding write_table splice
  write_table-Shows ws len small =
      let (fs', e, shows) = write_bytes-Shows (encode ws) 0 in
      let rest = drop (0 + length (encode ws)) (sector fs s) in
      let at_s : sector fs' s ≡ encode ws ++ rest = ground (arith, shows.sectors s) in
      (
        fs',
        e,
        shows.valid,
        shows.map,
        shows.opened,
        ap (decode 128) at_s ∙ decode-encode 128 ws rest (sym len) small,
        λ t ne. ground (arith, shows.sectors t),
      )

  -- Dropping a sector from the cache touches no other sector and keeps the map.
  pub drop_sector-keeps :
      (fs' : Fs) × (drop_sector fs s ≡ some fs')
      × IsValid fs'
      × (fs'.free_map ≡ fs.free_map)
      × (fs'.free_map_open ≡ fs.free_map_open)
      × ((t : ℕ) → t ≢ s → sector fs' t ≡ sector fs t)
  unfolding drop_sector
  drop_sector-keeps =
      let real : s ≢ block_sector_none = omega (arith, v.room, v.size32) in
      let (st, e, valid, devs, views) = cache_free-dropped fs.cache fs_device s v.cache real in
      let same : st.devices fs_device ≡ fs.cache.devices fs_device = ap (λ d. d fs_device) devs in
      (
        record fs { cache = st },
        rw e,
        record {
          cache = valid;
          map = v.map;
          room = rw same v.room;
          size32 = rw same v.size32;
          writable = rw same v.writable;
        },
        refl,
        refl,
        λ t ne. ground (arith, views fs_device t),
      )

-- Nothing that a client of the device sees has changed.
abbrev pub Same : Fs → Fs → Type 0
Same fs fs' = Shows fs (sector fs) fs'

pub Same-refl : {fs : Fs} → IsValid fs → Same fs fs
Same-refl v = record { valid = v; map = refl; opened = refl; sectors = λ t. refl }

pub Same-trans : {fs fs' fs'' : Fs} → Same fs fs' → Same fs' fs'' → Same fs fs''
Same-trans a b = record {
  valid = b.valid;
  map = b.map ∙ a.map;
  opened = b.opened ∙ a.opened;
  sectors = λ t. b.sectors t ∙ a.sectors t;
}

pub Same-sector : {fs fs' : Fs} → Same fs fs' → sector fs' ≡ sector fs
Same-sector s = fun_ext s.sectors
