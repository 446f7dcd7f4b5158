-- ===== src/Cache/Evict.antt =====
-- Eviction: the front of the list is written back if it is dirty, and takes the new sector.
use cs130_25spring_project.Common.{
  ℕ, ◌<◌, ◌≡◌, refl, inl, inr, Bool, true, false, ◌&&◌, some, List, [], ◌∷◌, ◌++◌, arith, set,
  Bool-cases, get_elem?_of_lt,
}
use cs130_25spring_project.Block.{block_read-ok, block_write-ok, after_read, after_write}
use cs130_25spring_project.Cache.{
  CacheBlock, State, Devices, matches, set_device, device_read, device_write, write_back, evict,
  empty_block,
}
use cs130_25spring_project.Cache.View.{block_at, disk, IsLru, IsValid}
use cs130_25spring_project.Cache.Lru.{rotate-IsLru, IsLru-ne_nil}
use cs130_25spring_project.Cache.Install.{WrittenBack}

write_back-dirty :
    (devs : Devices) (cb : CacheBlock)
    → (cb.sector < (devs cb.block).size) × ((devs cb.block).foreign ≡ false)
    → (cb.valid && cb.dirty) ≡ true
    → (devs' : Devices) × (write_back devs cb ≡ some devs') × WrittenBack cb devs devs'
unfolding write_back device_write
write_back-dirty devs cb ok d = (
  set_device devs cb.block (after_write (devs cb.block) cb.sector cb.bytes),
  rw (d, block_write-ok (devs cb.block) cb.sector cb.bytes ok.0 ok.1),
  record { sectors = λ a s. ground arith; sizes = λ a. ground arith; foreign = λ a. ground arith },
)

pub write_back-WrittenBack :
    (devs : Devices) (cb : CacheBlock)
    → (cb.valid ≡ true → (cb.sector < (devs cb.block).size) × ((devs cb.block).foreign ≡ false))
    → (devs' : Devices) × (write_back devs cb ≡ some devs') × WrittenBack cb devs devs'
unfolding write_back
write_back-WrittenBack devs cb ok = elim (Bool-cases (cb.valid && cb.dirty)) [
  | inl d ↦ write_back-dirty devs cb (ok (ground arith)) d
  | inr c ↦
      (devs, rw c, record { sectors = λ a s. ground arith; sizes = λ a. refl; foreign = λ a. refl })
]

pub record Evicted (st : State) (d s : ℕ) (dirty : Bool) (st' : State) (i : ℕ) : Type 0 where
  pub index : i < 64
  pub cache :
      st'.cache
      ≡ set st.cache i (record {
        block = d;
        sector = s;
        dirty = dirty;
        valid = false;
        bytes = disk st.devices d s;
      })
  pub lru : IsLru st'.cache_list
  pub devices : WrittenBack (block_at st.cache i) st.devices st'.devices

abbrev refilled : State → ℕ → ℕ → Bool → Devices → ℕ → List ℕ → State
refilled st d s dirty devs i rest = record st {
  cache =
      set st.cache i
        (record { block = d; sector = s; dirty = dirty; valid = false; bytes = disk devs d s });
  cache_list = rest ++ (i ∷ []);
  devices = set_device devs d (after_read (devs d));
}

-- The front is `i`, and the write-back left `devs`.
evict_front :
    (st : State) (d s : ℕ) (dirty : Bool) (i : ℕ) (rest : List ℕ) (devs : Devices)
    → IsValid st
    → ((j : ℕ) → matches (block_at st.cache j) d s ≡ false)
    → s < (st.devices d).size
    → st.cache_list ≡ i ∷ rest
    → write_back st.devices (block_at st.cache i) ≡ some devs
    → WrittenBack (block_at st.cache i) st.devices devs
    → (evict st d s dirty ≡ some (refilled st d s dirty devs i rest, i))
      × Evicted st d s dirty (refilled st d s dirty devs i rest) i
unfolding evict device_read
evict_front st d s dirty i rest devs v out inside e wrote w =
    let lru = rotate-IsLru i rest (rw e at v.lru) in
    let bytes : disk devs d s ≡ disk st.devices d s = ground (arith, w.sectors d s, out i) in
    (
      rw (
        e,
        get_elem?_of_lt st.cache i empty_block (omega (arith, v.size, lru.0)),
        wrote,
        block_read-ok (devs d) s (omega (arith, inside, w.sizes d)),
      ),
      record {
        index = lru.0;
        cache = rw bytes;
        lru = lru.1;
        devices = record {
          sectors = λ a t. ground (arith, w.sectors a t);
          sizes = λ a. ground (arith, w.sizes a);
          foreign = λ a. ground (arith, w.foreign a);
        };
      },
    )

-- With room for the sector on its device and no block that holds it, eviction succeeds.
pub evict-Evicted :
    (st : State) (d s : ℕ) (dirty : Bool)
    → IsValid st
    → ((i : ℕ) → matches (block_at st.cache i) d s ≡ false)
    → s < (st.devices d).size
    → (st' : State) × (i : ℕ) × (evict st d s dirty ≡ some (st', i)) × Evicted st d s dirty st' i
evict-Evicted st d s dirty v out inside = go st.cache_list refl
  where
    go :
        (l : List ℕ)
        → st.cache_list ≡ l
        → (st' : State) × (i : ℕ) × (evict st d s dirty ≡ some (st', i))
          × Evicted st d s dirty st' i
    go [] e = absurd (IsLru-ne_nil (rw e at v.lru))
    go (i ∷ rest) e =
        let (devs, wrote, w) =
          write_back-WrittenBack st.devices (block_at st.cache i) (v.writable i) in
        let (eq, ev) = evict_front st d s dirty i rest devs v out inside e wrote w in
        (refilled st d s dirty devs i rest, i, eq, ev)
