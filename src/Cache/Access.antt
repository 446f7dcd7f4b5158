-- ===== src/Cache/Access.antt =====
-- `cache_read` returns the bytes of the sector and changes no view; `cache_write` changes the view
-- of its sector and of no other.
use cs130_25spring_project.Common.{
  ℕ, ◌+◌, ◌^◌, ◌<◌, ◌≡◌, refl, ap, ◌∙◌, true, false, not, none, some, List, arith, ◌==◌, length,
  set, set-set, get_elem?_of_lt, get_elem?-set_self,
}
use cs130_25spring_project.Common.Bytes.{slice, splice}
use cs130_25spring_project.Block.{block_sector_none}
use cs130_25spring_project.Cache.{
  CacheBlock, State, matches, find_from, to_back, overwritten, hit_read, evict, cache_read,
  cache_write, empty_block,
}
use cs130_25spring_project.Cache.View.{
  block_at, disk, view, IsValid, cached, uncached, Sees-view, Found, hit, miss, find_from-Found,
}
use cs130_25spring_project.Cache.Evict.{Evicted, evict-Evicted}
use cs130_25spring_project.Cache.Served.{Served, hit-Served, miss-Served}

-- A sector that a caller may ask for: it is on its device, which takes writes.
pub record IsSector (st : State) (d s : ℕ) : Type 0 where
  pub inside : s < (st.devices d).size
  pub writable : (st.devices d).foreign ≡ false
  pub size32 : (st.devices d).size < 2 ^ 32

-- The block that holds a sector, if it is clean, agrees with the device.
clean_hit :
    (st : State) (i : ℕ) {d s : ℕ}
    → IsValid st
    → matches (block_at st.cache i) d s ≡ true
    → (block_at st.cache i).dirty ≡ false
    → (block_at st.cache i).bytes ≡ disk st.devices d s
clean_hit st i v m c = ground (arith, v.clean i)

real : {st : State} {d s : ℕ} → IsSector st d s → (not (s == block_sector_none)) ≡ true
real {st} {d} {s} ok = ground (arith, ok.inside, ok.size32)

module _ (st : State) (d s : ℕ) (size offset : ℕ) (v : IsValid st) (ok : IsSector st d s) where
  abbrev Read : Type 0
  Read =
      (st' : State) × (cache_read st d s size offset ≡ some (st', slice offset size (view st d s)))
      × Served st d s st' (view st d s)

  read_hit :
      (i : ℕ)
      → find_from st.cache 0 d s ≡ some i
      → i < length st.cache
      → matches (block_at st.cache i) d s ≡ true
      → Read
  unfolding cache_read
  read_hit i e h m =
      let seen = Sees-view st v.unique (cached i m refl) in
      let cb : CacheBlock = record (block_at st.cache i) { valid = true } in
      (
        overwritten (hit_read st i) i cb,
        rw (real ok, e, get_elem?_of_lt st.cache i empty_block h, seen),
        rw seen (
            hit-Served st i d s cb v (omega (arith, v.size)) m refl (ground arith) (ground arith)
              (clean_hit st i v m)),
      )

  read_miss :
      find_from st.cache 0 d s ≡ none → ((i : ℕ) → matches (block_at st.cache i) d s ≡ false) → Read
  unfolding cache_read
  read_miss e out = go (evict-Evicted st d s false v out ok.inside)
    where
      seen : view st d s ≡ disk st.devices d s
      seen = Sees-view st v.unique (uncached out refl)

      loaded : CacheBlock
      loaded = record {
        block = d;
        sector = s;
        dirty = false;
        valid = false;
        bytes = disk st.devices d s;
      }

      go :
          (st' : State) × (i : ℕ) × (evict st d s false ≡ some (st', i))
            × Evicted st d s false st' i
          → Read
      go (st', i, ee, ev) =
          let cb : CacheBlock = record {
            block = d;
            sector = s;
            dirty = false;
            valid = true;
            bytes = disk st.devices d s;
          } in
          let here = get_elem?-set_self st.cache i loaded (omega (arith, v.size, ev.index)) in
          (
            overwritten st' i cb,
            rw (real ok, e, ee) (rw (ev.cache, here, seen) refl),
            rw seen (
                miss-Served st st' i d s false cb v ev out (ok.inside, ok.writable) refl refl refl
                  (λ _. refl)),
          )

  -- `cache_read` of a sector on the device does not panic: it returns the bytes of its view,
  -- keeps the invariant, and leaves every view as it was.
  pub cache_read-Served :
      (st' : State) × (cache_read st d s size offset ≡ some (st', slice offset size (view st d s)))
      × Served st d s st' (view st d s)
  cache_read-Served = go (find_from-Found st.cache 0 d s)
    where
      go : Found st.cache 0 d s (find_from st.cache 0 d s) → Read
      go (hit i e h m) = let z : 0 + i ≡ i = omega arith in read_hit i (e ∙ ap some z) h m
      go (miss e out) = read_miss e out

module _ (st : State) (d s : ℕ) (buffer : List ℕ) (offset : ℕ) (v : IsValid st)
    (ok : IsSector st d s) where
  abbrev Write : Type 0
  Write =
      (st' : State) × (cache_write st d s buffer offset ≡ some st')
      × Served st d s st' (splice offset buffer (view st d s))

  write_hit :
      (i : ℕ)
      → find_from st.cache 0 d s ≡ some i
      → i < length st.cache
      → matches (block_at st.cache i) d s ≡ true
      → Write
  unfolding cache_write
  write_hit i e h m =
      let seen = Sees-view st v.unique (cached i m refl) in
      let old = block_at st.cache i in
      let cb : CacheBlock = record old {
        dirty = true;
        valid = true;
        bytes = splice offset buffer old.bytes;
      } in
      let here = get_elem?-set_self st.cache i (record old { dirty = true }) h in
      (
        record st { cache = set st.cache i cb; cache_list = to_back i st.cache_list },
        rw (
          real ok,
          e,
          get_elem?_of_lt st.cache i empty_block h,
          here,
          set-set st.cache i (record old { dirty = true }) cb,
        ),
        rw seen (
            hit-Served st i d s cb v (omega (arith, v.size)) m refl (ground arith) (ground arith)
              (λ c. cc)),
      )

  write_miss :
      find_from st.cache 0 d s ≡ none
      → ((i : ℕ) → matches (block_at st.cache i) d s ≡ false)
      → Write
  unfolding cache_write
  write_miss e out = go (evict-Evicted st d s true v out ok.inside)
    where
      seen : view st d s ≡ disk st.devices d s
      seen = Sees-view st v.unique (uncached out refl)

      loaded : CacheBlock
      loaded = record {
        block = d;
        sector = s;
        dirty = true;
        valid = false;
        bytes = disk st.devices d s;
      }

      go :
          (st' : State) × (i : ℕ) × (evict st d s true ≡ some (st', i)) × Evicted st d s true st' i
          → Write
      go (st', i, ee, ev) =
          let cb : CacheBlock = record {
            block = d;
            sector = s;
            dirty = true;
            valid = true;
            bytes = splice offset buffer (disk st.devices d s);
          } in
          let here = get_elem?-set_self st.cache i loaded (omega (arith, v.size, ev.index)) in
          (
            overwritten st' i cb,
            rw (real ok, e, ee) (rw (ev.cache, here) refl),
            rw seen (
                miss-Served st st' i d s true cb v ev out (ok.inside, ok.writable) refl refl refl
                  (λ c. cc)),
          )

  -- `cache_write` of a sector on the device does not panic: it copies the buffer into the view of
  -- that sector, keeps the invariant, and leaves the views of all other sectors as they were.
  pub cache_write-Served :
      (st' : State) × (cache_write st d s buffer offset ≡ some st')
      × Served st d s st' (splice offset buffer (view st d s))
  cache_write-Served = go (find_from-Found st.cache 0 d s)
    where
      go : Found st.cache 0 d s (find_from st.cache 0 d s) → Write
      go (hit i e h m) = let z : 0 + i ≡ i = omega arith in write_hit i (e ∙ ap some z) h m
      go (miss e out) = write_miss e out
