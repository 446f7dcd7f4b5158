-- ===== src/Cache/Served.antt =====
-- A call that ends with a sector in a block: the invariant holds again, and only the view of that
-- sector may have changed.
use cs130_25spring_project.Common.{
  ℕ, ◌<◌, ◌≡◌, refl, ◌∙◌, ◌≢◌, Bool, true, false, ◌&&◌, List, arith, ◌==◌, if◌then◌else◌, length,
  set, ℕ_discrete, eq→==, ne→==, set-set, length-set,
}
use cs130_25spring_project.Cache.{CacheBlock, State, Devices, matches, to_back, overwritten}
use cs130_25spring_project.Cache.View.{
  block_at, disk, view, Unique, Clean, Writable, IsValid, view-Sees, Sees-view, block_at-set,
}
use cs130_25spring_project.Cache.Lru.{to_back-IsLru}
use cs130_25spring_project.Cache.Install.{
  set-Unique, set-Clean, set-Writable, set-Sees, WrittenBack, replace-Sees,
}
use cs130_25spring_project.Cache.Evict.{Evicted}

pub record Served (st : State) (d s : ℕ) (st' : State) (bytes : List ℕ) : Type 0 where
  pub valid : IsValid st'
  pub views : (a t : ℕ) → view st' a t ≡ (if (d == a) && (s == t) then bytes else view st a t)
  pub sizes : (a : ℕ) → (st'.devices a).size ≡ (st.devices a).size
  pub foreign : (a : ℕ) → (st'.devices a).foreign ≡ (st.devices a).foreign

matches_self :
    (cb : CacheBlock) {d s : ℕ} (a t : ℕ)
    → cb.valid ≡ true
    → cb.block ≡ d
    → cb.sector ≡ s
    → matches cb a t ≡ ((d == a) && (s == t))
matches_self cb a t v eb es = rw (v, eb, es)

-- The sector was in block `i`, which is written anew.
pub hit-Served :
    (st : State) (i d s : ℕ) (cb : CacheBlock)
    → IsValid st
    → i < 64
    → matches (block_at st.cache i) d s ≡ true
    → cb.valid ≡ true
    → cb.block ≡ d
    → cb.sector ≡ s
    → (cb.dirty ≡ false → cb.bytes ≡ disk st.devices d s)
    → Served st d s
        (record st { cache = set st.cache i cb; cache_list = to_back i st.cache_list })
        cb.bytes
hit-Served st i d s cb v hi m val eb es clean = record {
  valid = record {
    size = length-set st.cache i cb ∙ v.size;
    lru = to_back-IsLru i st.cache_list hi v.lru;
    unique = unique';
    clean = set-Clean st.cache i cb inside st.devices v.clean (λ _ c. rw (eb, es) (clean c));
    writable =
        set-Writable st.cache i cb inside st.devices v.writable (λ _. ground (arith, v.writable i));
  };
  views = λ a t.
      Sees-view (record st { cache = set st.cache i cb; cache_list = to_back i st.cache_list })
        unique'
        (rw (matches_self cb a t val eb es) at (
          set-Sees st.cache i cb inside st.devices val (ground arith) (ground arith) (ground arith)
            v.unique (view-Sees st a t)));
  sizes = λ a. refl;
  foreign = λ a. refl;
}
  where
    inside : i < length st.cache
    inside = omega (arith, v.size)

    unique' : Unique (set st.cache i cb)
    unique' = set-Unique st.cache i cb inside v.unique (λ j ne. ground (arith, v.unique i j d s))

-- After an eviction the blocks other than the victim are clean as before.
replace-Clean :
    (l : List CacheBlock) (i : ℕ) (cb : CacheBlock) (devs devs' : Devices)
    → i < length l
    → Unique l
    → Clean l devs
    → WrittenBack (block_at l i) devs devs'
    → (cb.dirty ≡ false → cb.bytes ≡ disk devs' cb.block cb.sector)
    → Clean (set l i cb) devs'
replace-Clean l i cb devs devs' h u clean w new a = elim (ℕ_discrete i a) [
  | yes e ↦ rw (block_at-set l i a cb h, eq→== e) (λ _ c. new c)
  | no ne ↦ rw (block_at-set l i a cb h, ne→== ne) (λ val c. other val c ne)
]
  where
    other :
        (block_at l a).valid ≡ true
        → (block_at l a).dirty ≡ false
        → i ≢ a
        → (block_at l a).bytes ≡ disk devs' (block_at l a).block (block_at l a).sector
    other val c ne =
        let b = (block_at l a).block in
        let s = (block_at l a).sector in ground (arith, clean a, w.sectors b s, u i a b s)

replace-Writable :
    (l : List CacheBlock) (i : ℕ) (cb : CacheBlock) (devs devs' : Devices)
    → i < length l
    → Writable l devs
    → WrittenBack (block_at l i) devs devs'
    → (cb.sector < (devs cb.block).size) × ((devs cb.block).foreign ≡ false)
    → Writable (set l i cb) devs'
replace-Writable l i cb devs devs' h old w new =
    set-Writable l i cb h devs' (λ a val. moved (block_at l a) (old a val)) (λ _. moved cb new)
  where
    moved :
        (c : CacheBlock)
        → (c.sector < (devs c.block).size) × ((devs c.block).foreign ≡ false)
        → (c.sector < (devs' c.block).size) × ((devs' c.block).foreign ≡ false)
    moved c ok = (omega (arith, ok.0, w.sizes c.block), w.foreign c.block ∙ ok.1)

-- The sector was in no block; `st'` is the state after the eviction, and block `i` is filled.
pub miss-Served :
    (st st' : State) (i d s : ℕ) (dirty : Bool) (cb : CacheBlock)
    → IsValid st
    → Evicted st d s dirty st' i
    → ((j : ℕ) → matches (block_at st.cache j) d s ≡ false)
    → (s < (st.devices d).size) × ((st.devices d).foreign ≡ false)
    → cb.valid ≡ true
    → cb.block ≡ d
    → cb.sector ≡ s
    → (cb.dirty ≡ false → cb.bytes ≡ disk st.devices d s)
    → Served st d s (overwritten st' i cb) cb.bytes
miss-Served st st' i d s dirty cb v ev out room val eb es clean = record {
  valid = record {
    size = rw filled (length-set st.cache i cb ∙ v.size);
    lru = ev.lru;
    unique = unique';
    clean = rw filled (
        replace-Clean st.cache i cb st.devices st'.devices inside v.unique v.clean ev.devices
          (λ c. rw (eb, es) (clean c ∙ ground (arith, ev.devices.sectors d s, out i))));
    writable = rw filled (
        replace-Writable st.cache i cb st.devices st'.devices inside v.writable ev.devices
          (rw (eb, es) room));
  };
  views = λ a t. Sees-view (overwritten st' i cb) unique' (
      rw filled (
        rw (matches_self cb a t val eb es) at (
          replace-Sees st.cache i cb st.devices st'.devices a t inside v.unique v.clean ev.devices
            (view-Sees st a t))));
  sizes = ev.devices.sizes;
  foreign = ev.devices.foreign;
}
  where
    inside : i < length st.cache
    inside = omega (arith, v.size, ev.index)

    filled : set st'.cache i cb ≡ set st.cache i cb
    filled = rw ev.cache (set-set st.cache i _ cb)

    unique' : Unique (set st'.cache i cb)
    unique' = rw filled (set-Unique st.cache i cb inside v.unique (λ j ne. rw (eb, es) (out j)))
