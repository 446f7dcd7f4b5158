-- ===== src/Cache/View.antt =====
-- The sectors as a client of the cache sees them: a cached sector by its block, any other by the
-- device. A well-formed cache, and what makes two views of it agree.
use cs130_25spring_project.Common.{
  ℕ, zero, suc, ◌+◌, ◌≤◌, ◌<◌, ◌≡◌, refl, sym, ap, ◌∙◌, inl, inr, true, false, Option, none, some,
  List, [], ◌∷◌, arith, ◌==◌, if◌then◌else◌, length, get_or, set, Bool-cases, get_or-set_self,
  get_or-set_ne, ℕ_discrete, ==-refl, ne→==,
}
use cs130_25spring_project.Common.Counts.{count}
use cs130_25spring_project.Cache.{CacheBlock, State, Devices, empty_block, matches, find_from}

-- The block at an index; past the end, an empty one.
abbrev pub block_at : List CacheBlock → ℕ → CacheBlock
block_at l i = get_or l i empty_block

abbrev pub disk : Devices → ℕ → ℕ → List ℕ
disk devs d s = (devs d).sectors s

view_of : State → ℕ → ℕ → Option ℕ → List ℕ
view_of st d s (some i) = (block_at st.cache i).bytes
view_of st d s none = disk st.devices d s

-- The contents of sector `s` of device `d`, as the code finds them.
pub view : State → ℕ → ℕ → List ℕ
unfolding view_of
view st d s = view_of st d s (find_from st.cache 0 d s)

-- No two blocks hold the same sector.
abbrev pub Unique : List CacheBlock → Type 0
Unique l =
    (i j d s : ℕ) → matches (block_at l i) d s ≡ true → matches (block_at l j) d s ≡ true → i ≡ j

-- A clean block agrees with the device.
abbrev pub Clean : List CacheBlock → Devices → Type 0
Clean l devs =
    (i : ℕ)
    → (block_at l i).valid ≡ true
    → (block_at l i).dirty ≡ false
    → (block_at l i).bytes ≡ disk devs (block_at l i).block (block_at l i).sector

-- A valid block can be written back: its sector is on its device, which takes writes.
abbrev pub Writable : List CacheBlock → Devices → Type 0
Writable l devs =
    (i : ℕ)
    → (block_at l i).valid ≡ true
    → ((block_at l i).sector < (devs (block_at l i).block).size)
      × ((devs (block_at l i).block).foreign ≡ false)

-- The list names each of the 64 blocks once.
abbrev pub IsLru : List ℕ → Type 0
IsLru l = ((i : ℕ) → i < 64 → count i l ≡ 1) × ((i : ℕ) → 64 ≤ i → count i l ≡ 0)

pub record IsValid (st : State) : Type 0 where
  pub size : length st.cache ≡ 64
  pub lru : IsLru st.cache_list
  pub unique : Unique st.cache
  pub clean : Clean st.cache st.devices
  pub writable : Writable st.cache st.devices

-- Where the view of a sector comes from.
pub data Sees (l : List CacheBlock) (devs : Devices) (d s : ℕ) : List ℕ → Type 0 where
  cached :
      (i : ℕ) {x : List ℕ}
      → matches (block_at l i) d s ≡ true
      → (block_at l i).bytes ≡ x
      → Sees l devs d s x
  uncached :
      {x : List ℕ}
      → ((i : ℕ) → matches (block_at l i) d s ≡ false)
      → disk devs d s ≡ x
      → Sees l devs d s x

-- What the search loop returns.
pub data Found (l : List CacheBlock) (n d s : ℕ) (o : Option ℕ) : Type 0 where
  hit :
      (i : ℕ)
      → o ≡ some (n + i)
      → i < length l
      → matches (block_at l i) d s ≡ true
      → Found l n d s o
  miss : o ≡ none → ((i : ℕ) → matches (block_at l i) d s ≡ false) → Found l n d s o

find_from-cons :
    (cb : CacheBlock) (l : List CacheBlock) (n d s : ℕ)
    → matches cb d s ≡ false
    → Found l (n + 1) d s (find_from l (n + 1) d s)
    → Found (cb ∷ l) n d s (find_from (cb ∷ l) n d s)
unfolding find_from
find_from-cons cb l n d s m (hit i e h got) =
    let shift : n + 1 + i ≡ n + suc i = omega arith in
    hit (suc i) (rw m e ∙ ap some shift) (omega arith) got
find_from-cons cb l n d s m (miss e all) =
    miss (rw m e)
      λ i. elim i as (λ k. matches (block_at (cb ∷ l) k) d s ≡ false) [ zero ↦ m | suc k ↦ all k ]

pub find_from-Found : (l : List CacheBlock) (n d s : ℕ) → Found l n d s (find_from l n d s)
unfolding find_from
find_from-Found [] n d s = miss refl (λ i. refl)
find_from-Found (cb ∷ l) n d s = elim (Bool-cases (matches cb d s)) [
  | inl m ↦ let first : n ≡ n + 0 = omega arith in hit 0 (rw m (ap some first)) (omega arith) m
  | inr m ↦ find_from-cons cb l n d s m (find_from-Found l (n + 1) d s)
]

pub view-Sees : (st : State) (d s : ℕ) → Sees st.cache st.devices d s (view st d s)
unfolding view
view-Sees st d s = go (find_from-Found st.cache 0 d s)
  where
    go :
        Found st.cache 0 d s (find_from st.cache 0 d s)
        → Sees st.cache st.devices d s (view_of st d s (find_from st.cache 0 d s))
    go (hit i e h got) = cached i got (rw e (ap (λ k. (block_at st.cache k).bytes) (omega arith)))
    go (miss e all) = uncached all (rw e refl)

-- The view is what any source of it says.
pub Sees-view :
    (st : State) {d s : ℕ} {x : List ℕ}
    → Unique st.cache
    → Sees st.cache st.devices d s x
    → view st d s ≡ x
Sees-view st {d} {s} {x} u seen = go (view st d s) (view-Sees st d s) seen
  where
    go : (y : List ℕ) → Sees st.cache st.devices d s y → Sees st.cache st.devices d s x → y ≡ x
    go y (cached i m e) (cached j n f) =
        sym e ∙ ap (λ k. (block_at st.cache k).bytes) (u i j d s m n) ∙ f
    go y (cached i m e) (uncached all f) = cc (all i)
    go y (uncached all e) (cached j n f) = cc (all j)
    go y (uncached all e) (uncached all' f) = sym e ∙ f

-- The blocks after a write to index `i`.
pub block_at-set :
    (l : List CacheBlock) (i j : ℕ) (cb : CacheBlock)
    → i < length l
    → block_at (set l i cb) j ≡ (if i == j then cb else block_at l j)
block_at-set l i j cb h = elim (ℕ_discrete i j) [
  | yes e ↦ rw (← e, ==-refl i) (get_or-set_self l i cb empty_block h)
  | no ne ↦ rw (ne→== ne) (get_or-set_ne l i j cb empty_block ne)
]

-- What a block of index at least the length is.
pub block_at-past : (l : List CacheBlock) (i : ℕ) → length l ≤ i → block_at l i ≡ empty_block
block_at-past [] i h = refl
block_at-past (x ∷ l) zero h = absurd (omega arith)
block_at-past (x ∷ l) (suc i) h = block_at-past l i (omega arith)
