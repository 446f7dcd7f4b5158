-- ===== src/Cache/Flush.antt =====
-- `cache_flush` brings the devices up to date; `cache_free` drops a sector from the cache.
use cs130_25spring_project.Common.{
  ℕ, zero, suc, ◌≡◌, refl, ap, ◌∙◌, ◌⊎◌, inl, inr, Bool, true, false, ◌&&◌, some, List, [], ◌∷◌,
  arith, if◌then◌else◌, length, ==-refl, Bool-cases,
}
use cs130_25spring_project.Cache.{
  CacheBlock, State, Devices, matches, write_back, flushed, flush_blocks, cache_flush,
}
use cs130_25spring_project.Cache.View.{
  block_at, disk, view, IsValid, Unique, Clean, Writable, Sees, cached, uncached, Sees-view,
  view-Sees,
}
use cs130_25spring_project.Cache.Install.{WrittenBack}
use cs130_25spring_project.Cache.Evict.{write_back-WrittenBack}

-- A property of the block at every index of `cb ∷ l` from that of `cb` and those of `l`.
by_index : (P : ℕ → Type 0) → P 0 → ((i : ℕ) → P (suc i)) → (i : ℕ) → P i
by_index P z s zero = z
by_index P z s (suc i) = s i

Unique-tail : (cb : CacheBlock) (l : List CacheBlock) → Unique (cb ∷ l) → Unique l
Unique-tail cb l u i j d s a b = omega (arith, u (suc i) (suc j) d s a b)

-- What the loop leaves: every valid block clean, each sector of a dirty block on its device, and
-- all other sectors as they were.
pub record Flushed (l : List CacheBlock) (devs : Devices) (l' : List CacheBlock) (devs' : Devices)
    : Type 0 where
  pub size : length l' ≡ length l
  pub blocks : (i : ℕ) → block_at l' i ≡ flushed (block_at l i)
  pub written :
      (i d s : ℕ)
      → (block_at l i).dirty ≡ true
      → matches (block_at l i) d s ≡ true
      → disk devs' d s ≡ (block_at l i).bytes
  pub kept :
      (d s : ℕ)
      → ((i : ℕ) → ((block_at l i).dirty && matches (block_at l i) d s) ≡ false)
      → disk devs' d s ≡ disk devs d s
  pub sizes : (d : ℕ) → (devs' d).size ≡ (devs d).size
  pub foreign : (d : ℕ) → (devs' d).foreign ≡ (devs d).foreign

flushed-cons :
    (cb : CacheBlock) (l l' : List CacheBlock) (devs devs₁ devs₂ : Devices)
    → Unique (cb ∷ l)
    → WrittenBack cb devs devs₁
    → Flushed l devs₁ l' devs₂
    → Flushed (cb ∷ l) devs (flushed cb ∷ l') devs₂
flushed-cons cb l l' devs devs₁ devs₂ u w f = record {
  size = ap suc f.size;
  blocks =
      by_index (λ i. block_at (flushed cb ∷ l') i ≡ flushed (block_at (cb ∷ l) i)) refl f.blocks;
  written = λ i d s.
      by_index
        (λ k.
          (block_at (cb ∷ l) k).dirty ≡ true
          → matches (block_at (cb ∷ l) k) d s ≡ true
          → disk devs₂ d s ≡ (block_at (cb ∷ l) k).bytes)
        (λ dirty m. f.kept d s (λ k. apart d s k m) ∙ ground (arith, w.sectors d s))
        (λ k. f.written k d s) i;
  kept = λ d s none_dirty.
      f.kept d s (λ k. none_dirty (suc k)) ∙ ground (arith, w.sectors d s, none_dirty 0);
  sizes = λ d. f.sizes d ∙ w.sizes d;
  foreign = λ d. f.foreign d ∙ w.foreign d;
}
  where
    apart :
        (d s k : ℕ)
        → matches cb d s ≡ true
        → ((block_at l k).dirty && matches (block_at l k) d s) ≡ false
    apart d s k m = ground (arith, u 0 (suc k) d s)

abbrev Flushing : List CacheBlock → Devices → Type 0
Flushing l devs =
    (l' : List CacheBlock) × (devs' : Devices) × (flush_blocks l devs ≡ some (l', devs'))
    × Flushed l devs l' devs'

flush_step :
    (cb : CacheBlock) (l : List CacheBlock) (devs devs₁ : Devices)
    → Unique (cb ∷ l)
    → write_back devs cb ≡ some devs₁
    → WrittenBack cb devs devs₁
    → Flushing l devs₁
    → Flushing (cb ∷ l) devs
unfolding flush_blocks
flush_step cb l devs devs₁ u e w (l', devs₂, e', f) =
    (flushed cb ∷ l', devs₂, rw (e, e'), flushed-cons cb l l' devs devs₁ devs₂ u w f)

Writable-tail :
    (cb : CacheBlock) (l : List CacheBlock) (devs devs₁ : Devices)
    → Writable (cb ∷ l) devs
    → WrittenBack cb devs devs₁
    → Writable l devs₁
Writable-tail cb l devs devs₁ ok w i val =
    let b = (block_at l i).block in
    (omega (arith, ok (suc i) val, w.sizes b), w.foreign b ∙ (ok (suc i) val).1)

flush_blocks-Flushed :
    (l : List CacheBlock) (devs : Devices) → Unique l → Writable l devs → Flushing l devs
unfolding flush_blocks
flush_blocks-Flushed [] devs u ok = (
  [],
  devs,
  refl,
  record {
    size = refl;
    blocks = λ i. refl;
    written = λ i d s p q. cc;
    kept = λ d s h. refl;
    sizes = λ d. refl;
    foreign = λ d. refl;
  },
)
flush_blocks-Flushed (cb ∷ l) devs u ok =
    let (devs₁, e, w) = write_back-WrittenBack devs cb (ok 0) in
    flush_step cb l devs devs₁ u e w
      (flush_blocks-Flushed l devs₁ (Unique-tail cb l u) (Writable-tail cb l devs devs₁ ok w))

-- Whether some block of a list is dirty and holds the sector.
dirty_block :
    (l : List CacheBlock) (d s : ℕ)
    → ((i : ℕ) × ((block_at l i).dirty ≡ true) × (matches (block_at l i) d s ≡ true))
      ⊎ ((i : ℕ) → ((block_at l i).dirty && matches (block_at l i) d s) ≡ false)
dirty_block [] d s = inr (λ i. refl)
dirty_block (cb ∷ l) d s = elim (Bool-cases (cb.dirty && matches cb d s)) [
  | inl y ↦ inl (0, ground arith, ground arith)
  | inr n ↦ elim (dirty_block l d s) [
    | inl (i, a, b) ↦ inl (suc i, a, b)
    | inr none_dirty ↦ inr (
        by_index (λ i. ((block_at (cb ∷ l) i).dirty && matches (block_at (cb ∷ l) i) d s) ≡ false) n
          none_dirty)
  ]
]

-- The state after a flush: every device holds what the cache showed, no valid block is dirty, every
-- view is as before and so is the list; `flush_done` is set if that is asked for.
pub record FlushedState (st : State) (done : Bool) (st' : State) : Type 0 where
  pub valid : IsValid st'
  pub views : (d s : ℕ) → view st' d s ≡ view st d s
  pub synced : (d s : ℕ) → disk st'.devices d s ≡ view st d s
  pub cleaned : (i : ℕ) → (block_at st'.cache i).valid ≡ true → (block_at st'.cache i).dirty ≡ false
  pub list : st'.cache_list ≡ st.cache_list
  pub ended : st'.flush_done ≡ (if done then true else st.flush_done)

module _ (st : State) (done : Bool) (v : IsValid st) where
  module _ (l' : List CacheBlock) (devs' : Devices) (f : Flushed st.cache st.devices l' devs') where
    synced_by : (d s : ℕ) {x : List ℕ} → Sees st.cache st.devices d s x → disk devs' d s ≡ x
    synced_by d s (cached i m e) = elim (Bool-cases (block_at st.cache i).dirty) [
      | inl dirty ↦ f.written i d s dirty m ∙ e
      | inr clean ↦ f.kept d s (λ k. ground (arith, v.unique i k d s)) ∙ ground (arith, v.clean i)
    ]
    synced_by d s (uncached all e) = f.kept d s (λ i. ground (arith, all i)) ∙ e

    flushed-Sees : (d s : ℕ) {x : List ℕ} → Sees st.cache st.devices d s x → Sees l' devs' d s x
    flushed-Sees d s (cached i m e) =
        cached i (ground (arith, f.blocks i)) (ground (arith, f.blocks i))
    flushed-Sees d s (uncached all e) =
        uncached (λ i. ground (arith, f.blocks i, all i)) (synced_by d s (uncached all e))

    flushed-Unique : Unique l'
    flushed-Unique i j d s a b = ground (arith, f.blocks i, f.blocks j, v.unique i j d s)

    -- A valid block agrees with its device now, whether it was dirty or not.
    flushed-Clean : Clean l' devs'
    flushed-Clean i val c =
        let b = (block_at st.cache i).block in
        let t = (block_at st.cache i).sector in
        let m : matches (block_at st.cache i) b t ≡ true =
          ground (arith, f.blocks i, ==-refl b, ==-refl t) in
        ground (arith, f.blocks i, synced_by b t (cached i m refl))

    flushed-Writable : Writable l' devs'
    flushed-Writable i val =
        let b = (block_at st.cache i).block in
        ground (arith, f.blocks i, v.writable i, f.sizes b, f.foreign b)

    flushed_state : State
    flushed_state = record st {
      cache = l';
      devices = devs';
      flush_done = if done then done else st.flush_done;
    }

    flushed-FlushedState : FlushedState st done flushed_state
    unfolding flushed_state
    flushed-FlushedState = record {
      valid = record {
        size = f.size ∙ v.size;
        lru = v.lru;
        unique = flushed-Unique;
        clean = flushed-Clean;
        writable = flushed-Writable;
      };
      views = λ d s. Sees-view flushed_state flushed-Unique (flushed-Sees d s (view-Sees st d s));
      synced = λ d s. synced_by d s (view-Sees st d s);
      cleaned = λ i val. ground (arith, f.blocks i);
      list = refl;
      ended = ground arith;
    }

  -- `cache_flush` on a valid cache does not panic: it writes every dirty block to its device, keeps
  -- the invariant, and changes no view.
  pub cache_flush-FlushedState :
      (st' : State) × (cache_flush st done ≡ some st') × FlushedState st done st'
  unfolding cache_flush flushed_state
  cache_flush-FlushedState =
      let (l', devs', e, f) = flush_blocks-Flushed st.cache st.devices v.unique v.writable in
      (flushed_state l' devs' f, rw e, flushed-FlushedState l' devs' f)
