-- ===== src/Cache/Free.antt =====
-- `cache_free` drops a sector from the cache, and `cache_init` gives an empty cache.
use cs130_25spring_project.Common.{
  ℕ, zero, suc, ◌+◌, ◌≡◌, refl, ◌∙◌, inl, inr, false, ◌&&◌, ◌≢◌, some, List, [], ◌∷◌, arith, ◌==◌,
  if◌then◌else◌, length, ne→==, Bool-cases, replicate, leb, ltb, length-replicate,
}
use cs130_25spring_project.Block.{block_sector_none}
use cs130_25spring_project.Cache.{
  CacheBlock, State, Devices, matches, free_block, cache_free, cache_init, count_up, empty_block,
}
use cs130_25spring_project.Common.Counts.{count}
use cs130_25spring_project.Cache.View.{
  block_at, disk, view, IsValid, Unique, Sees, cached, uncached, Sees-view, view-Sees,
}

abbrev freed : CacheBlock → CacheBlock
freed cb = record cb { valid = false; dirty = false }

free_block-at :
    (l : List CacheBlock) (d s j : ℕ)
    → Unique l
    → block_at (free_block l d s) j
      ≡ (if matches (block_at l j) d s then freed (block_at l j) else block_at l j)
unfolding free_block
free_block-at [] d s j u = refl
free_block-at (cb ∷ l) d s zero u = ground arith
free_block-at (cb ∷ l) d s (suc j) u = ground (
  arith,
  u 0 (suc j) d s,
  free_block-at l d s j (λ a b e f p q. omega (arith, u (suc a) (suc b) e f p q)),
)

length-free_block : (l : List CacheBlock) (d s : ℕ) → length (free_block l d s) ≡ length l
unfolding free_block
length-free_block [] d s = refl
length-free_block (cb ∷ l) d s = ground (arith, length-free_block l d s)

module _ (st : State) (d s : ℕ) (v : IsValid st) where
  abbrev freed_state : State
  freed_state = record st { cache = free_block st.cache d s }

  freed-Unique : Unique (free_block st.cache d s)
  freed-Unique i j a t p q = ground (
    arith,
    free_block-at st.cache d s i v.unique,
    free_block-at st.cache d s j v.unique,
    v.unique i j a t,
  )

  freed-IsValid : IsValid freed_state
  freed-IsValid = record {
    size = length-free_block st.cache d s ∙ v.size;
    lru = v.lru;
    unique = freed-Unique;
    clean = λ i p q. ground (arith, free_block-at st.cache d s i v.unique, v.clean i);
    writable = λ i p. ground (arith, free_block-at st.cache d s i v.unique, v.writable i);
  }

  freed-Sees :
      (a t : ℕ) {x : List ℕ}
      → Sees st.cache st.devices a t x
      → Sees
          (free_block st.cache d s)
          st.devices
          a
          t
          (if (d == a) && (s == t) then disk st.devices a t else x)
  freed-Sees a t {x} (cached i m e) = elim (Bool-cases ((d == a) && (s == t))) [
    | inl same ↦
        rw same (uncached (λ j. ground (arith, free_block-at st.cache d s j v.unique)) refl)
    | inr apart ↦ rw apart (
        cached i (ground (arith, free_block-at st.cache d s i v.unique))
          (ground (arith, free_block-at st.cache d s i v.unique)))
  ]
  freed-Sees a t {x} (uncached all e) =
      uncached (λ j. ground (arith, free_block-at st.cache d s j v.unique, all j)) (ground arith)

  -- `cache_free` keeps the invariant. What the cache held of the sector is gone, written or not: the
  -- view of it is what its device holds. All other views stay.
  pub cache_free-dropped :
      s ≢ block_sector_none
      → (st' : State) × (cache_free st d s ≡ some st')
        × IsValid st'
        × (st'.devices ≡ st.devices)
        × ((a t : ℕ)
            → view st' a t ≡ (if (d == a) && (s == t) then disk st.devices a t else view st a t))
  unfolding cache_free
  cache_free-dropped real = (
    freed_state,
    rw (ne→== real),
    freed-IsValid,
    refl,
    λ a t. Sees-view freed_state freed-Unique (freed-Sees a t (view-Sees st a t)),
  )

count-count_up : (k n i : ℕ) → count i (count_up n k) ≡ (if leb n i && ltb i (n + k) then 1 else 0)
unfolding count
count-count_up zero n i = ground arith
count-count_up (suc k) n i = ground (arith, count-count_up k (n + 1) i)

block_at-replicate : (n i : ℕ) → block_at (replicate n empty_block) i ≡ empty_block
block_at-replicate zero i = refl
block_at-replicate (suc n) zero = refl
block_at-replicate (suc n) (suc i) = block_at-replicate n i

-- After `cache_init` the invariant holds, and the cache shows the devices.
pub cache_init-IsValid :
    (devs : Devices)
    → IsValid (cache_init devs) × ((d s : ℕ) → view (cache_init devs) d s ≡ disk devs d s)
unfolding cache_init
cache_init-IsValid devs = (
  valid,
  λ d s.
      Sees-view (cache_init devs) valid.unique
        (uncached (λ i. ground (arith, block_at-replicate 64 i)) refl),
)
  where
    valid : IsValid (cache_init devs)
    valid = record {
      size = length-replicate 64 empty_block;
      lru = (
        λ i h. count-count_up 64 0 i ∙ ground arith,
        λ i h. count-count_up 64 0 i ∙ ground arith,
      );
      unique = λ i j d s p q. ground (arith, block_at-replicate 64 i);
      clean = λ i p q. ground (arith, block_at-replicate 64 i);
      writable = λ i p. ground (arith, block_at-replicate 64 i);
    }
