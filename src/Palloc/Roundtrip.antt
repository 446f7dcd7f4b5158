-- ===== src/Palloc/Roundtrip.antt =====
-- Pages that are given and taken back.
use cs130_25spring_project.Common.{
  ℕ, ◌+◌, ◌-◌, ◌*◌, ◌%◌, ◌^◌, ◌≤◌, ◌<◌, ◌≡◌, ◌≢◌, refl, sym, ap, ◌∙◌, Bool, true, false, not, some,
  List, arith, ◌==◌, if◌then◌else◌, ne→==,
}
use cs130_25spring_project.Bitmap.{Bitmap, bitmap_error, bitmap_scan_and_flip}
use cs130_25spring_project.Bitmap.View.{at, Holds}
use cs130_25spring_project.Bitmap.View
use cs130_25spring_project.Bitmap.Range.{in_range, bitmap_set_multiple-Holds}
use cs130_25spring_project.Bitmap.All.{bitmap_all-lem}
use cs130_25spring_project.Bitmap.Scan.{Group, Taken, taken, full, bitmap_scan_and_flip-Taken}
use mathlib.Core.Path.{subst}
use cs130_25spring_project.Swap.{page_size}
use cs130_25spring_project.Palloc.{
  Pool, Palloc, Flags, pg_ofs, pg_no, memset_pages, pool_of, with_map, give, palloc_get_multiple,
  page_from_pool, free_in, palloc_free_multiple,
}

-- A pool whose pages end below 2 ^ 32.
pub record IsPool (pool : Pool) : Type 0 where
  pub map : View.IsValid pool.used_map
  pub pos : 0 < pool.base
  pub aligned : pool.base % page_size ≡ 0
  pub room : pool.base + page_size * pool.used_map.bit_cnt ≤ 2 ^ 32

pub record IsValid (p : Palloc) : Type 0 where
  pub kernel : IsPool p.kernel_pool
  pub user : IsPool p.user_pool
  pub apart : p.kernel_pool.base + page_size * p.kernel_pool.used_map.bit_cnt ≤ p.user_pool.base

pool_of-IsPool : (p : Palloc) (user : Bool) → IsValid p → IsPool (pool_of p user)
pool_of-IsPool p true v = v.user
pool_of-IsPool p false v = v.kernel

-- After the pages are given.
abbrev given : Palloc → Flags → (page_cnt : ℕ) → Bitmap → (pages : ℕ) → Palloc
given p flags page_cnt map pages =
    if flags.pal_zero
    then record (with_map p flags.pal_user map) {
      memory = memset_pages (with_map p flags.pal_user map).memory pages page_cnt 0;
    }
    else with_map p flags.pal_user map

with_map-base :
    (p : Palloc) (user : Bool) (map : Bitmap)
    → (pool_of (with_map p user map) user).base ≡ (pool_of p user).base
with_map-base p true map = refl
with_map-base p false map = refl

palloc_get_multiple-steps :
    (p : Palloc) (flags : Flags) (page_cnt idx : ℕ) (map : Bitmap)
    → page_cnt ≢ 0
    → bitmap_scan_and_flip (pool_of p flags.pal_user).used_map 0 page_cnt false ≡ some (map, idx)
    → idx ≢ bitmap_error
    → ((pool_of p flags.pal_user).base + page_size * idx) % 2 ^ 32 ≢ 0
    → palloc_get_multiple p flags page_cnt
      ≡ some (
        given p flags page_cnt map (((pool_of p flags.pal_user).base + page_size * idx) % 2 ^ 32),
        ((pool_of p flags.pal_user).base + page_size * idx) % 2 ^ 32,
      )
unfolding palloc_get_multiple give
palloc_get_multiple-steps p flags page_cnt idx map pos scan found pages =
    rw (ne→== pos, scan, ne→== found, with_map-base p flags.pal_user map, ne→== pages)
      (ground arith)

-- The pages from `idx` on of a pool.
abbrev pages_at : Pool → (idx : ℕ) → ℕ
pages_at pool idx = pool.base + page_size * idx

abbrev Freed : Palloc → (user : Bool) → (idx page_cnt : ℕ) → Palloc → Type 0
Freed q user idx page_cnt r =
    Holds (pool_of q user).used_map
      (λ j. if in_range idx page_cnt j then false else at (pool_of q user).used_map j)
      (pool_of r user).used_map
    × (pool_of r (not user) ≡ pool_of q (not user))
    × (r.memory ≡ memset_pages q.memory (pages_at (pool_of q user) idx) page_cnt 0xcc)

with_map-Freed :
    (q : Palloc) (user : Bool) (map : Bitmap) (memory : ℕ → List ℕ)
    → ((pool_of (record (with_map q user map) { memory = memory }) user).used_map ≡ map)
      × (pool_of (record (with_map q user map) { memory = memory }) (not user)
          ≡ pool_of q (not user))
with_map-Freed q true map memory = (refl, refl)
with_map-Freed q false map memory = (refl, refl)

free_in-Freed :
    (q : Palloc) (user : Bool) (idx page_cnt : ℕ)
    → IsPool (pool_of q user)
    → idx + page_cnt ≤ (pool_of q user).used_map.bit_cnt
    → Group (pool_of q user).used_map idx page_cnt true
    → (r : Palloc) × (free_in q user (pages_at (pool_of q user) idx) page_cnt ≡ some r)
      × Freed q user idx page_cnt r
unfolding free_in
free_in-Freed q user idx page_cnt v inside used =
    let pool = pool_of q user in
    let at_idx : pg_no (pages_at pool idx) - pg_no pool.base ≡ idx = omega (arith, v.aligned) in
    let (b, all, sound, complete) = bitmap_all-lem idx page_cnt v.map inside in
    let (map, sets, holds) = bitmap_set_multiple-Holds idx page_cnt false v.map inside in
    let memory = memset_pages q.memory (pages_at pool idx) page_cnt 0xcc in
    let kept = with_map-Freed q user map memory in
    (
      record (with_map q user map) { memory = memory },
      rw (at_idx, all, complete used, sets) refl,
      (
        subst
            (Holds pool.used_map
              (λ j. if in_range idx page_cnt j then false else at pool.used_map j))
            (sym kept.0) holds,
        kept.1,
        refl,
      ),
    )

-- The routine finds the pool of the pages.
palloc_free_multiple-pool :
    (q : Palloc) (user : Bool) (idx page_cnt : ℕ)
    → IsValid q
    → page_cnt ≢ 0
    → idx + page_cnt ≤ (pool_of q user).used_map.bit_cnt
    → palloc_free_multiple q (pages_at (pool_of q user) idx) page_cnt
      ≡ free_in q user (pages_at (pool_of q user) idx) page_cnt
unfolding palloc_free_multiple
palloc_free_multiple-pool q true idx page_cnt v pos inside =
    let aligned : (pg_ofs (pages_at q.user_pool idx) == 0) ≡ true =
      ground (arith, v.user.aligned) in
    let there : (pages_at q.user_pool idx == 0) ≡ false = ground (arith, v.user.pos) in
    let kernel : page_from_pool q.kernel_pool (pages_at q.user_pool idx) ≡ false =
      ground (arith, v.apart, v.kernel.aligned) in
    let user : page_from_pool q.user_pool (pages_at q.user_pool idx) ≡ true =
      ground (arith, v.user.aligned) in
    rw (aligned, there, ne→== pos, kernel, user) refl
palloc_free_multiple-pool q false idx page_cnt v pos inside =
    let aligned : (pg_ofs (pages_at q.kernel_pool idx) == 0) ≡ true =
      ground (arith, v.kernel.aligned) in
    let there : (pages_at q.kernel_pool idx == 0) ≡ false = ground (arith, v.kernel.pos) in
    let kernel : page_from_pool q.kernel_pool (pages_at q.kernel_pool idx) ≡ true =
      ground (arith, v.kernel.aligned) in
    rw (aligned, there, ne→== pos, kernel) refl

IsPool-map :
    (pool : Pool) (map : Bitmap) (f : ℕ → Bool)
    → IsPool pool
    → Holds pool.used_map f map
    → IsPool (record pool { used_map = map })
IsPool-map pool map f v h = record {
  map = h.valid;
  pos = v.pos;
  aligned = v.aligned;
  room = omega (arith, v.room, h.size);
}

with_map-IsValid :
    (p : Palloc) (user : Bool) (map : Bitmap) (f : ℕ → Bool)
    → IsValid p
    → Holds (pool_of p user).used_map f map
    → IsValid (with_map p user map)
with_map-IsValid p true map f v h = record {
  kernel = v.kernel;
  user = IsPool-map p.user_pool map f v.user h;
  apart = v.apart;
}
with_map-IsValid p false map f v h = record {
  kernel = IsPool-map p.kernel_pool map f v.kernel h;
  user = v.user;
  apart = omega (arith, v.apart, h.size);
}

-- The pools do not depend on the memory.
given-pools :
    (p : Palloc) (flags : Flags) (page_cnt : ℕ) (map : Bitmap) (pages : ℕ)
    → ((given p flags page_cnt map pages).kernel_pool ≡ (with_map p flags.pal_user map).kernel_pool)
      × ((given p flags page_cnt map pages).user_pool ≡ (with_map p flags.pal_user map).user_pool)
given-pools p flags page_cnt map pages = ground arith

with_map-pool :
    (p : Palloc) (user : Bool) (map : Bitmap)
    → (pool_of (with_map p user map) user ≡ record (pool_of p user) { used_map = map })
      × (pool_of (with_map p user map) (not user) ≡ pool_of p (not user))
with_map-pool p true map = (refl, refl)
with_map-pool p false map = (refl, refl)

pool_of-eq :
    (p q : Palloc) (user : Bool)
    → p.kernel_pool ≡ q.kernel_pool
    → p.user_pool ≡ q.user_pool
    → pool_of p user ≡ pool_of q user
pool_of-eq p q true k u = u
pool_of-eq p q false k u = k

pools-IsValid :
    (p q : Palloc)
    → p.kernel_pool ≡ q.kernel_pool
    → p.user_pool ≡ q.user_pool
    → IsValid q
    → IsValid p
pools-IsValid p q k u v = record {
  kernel = subst IsPool (sym k) v.kernel;
  user = subst IsPool (sym u) v.user;
  apart =
      omega
        (arith, v.apart, ap (λ x. x.base) k, ap (λ x. x.used_map.bit_cnt) k, ap (λ x. x.base) u);
}

-- The pages, and the bitmaps after they are given back.
abbrev pub Returned : Palloc → Flags → (page_cnt : ℕ) → Type 0
Returned p flags page_cnt =
    (p' p'' : Palloc) × (pages : ℕ) × (palloc_get_multiple p flags page_cnt ≡ some (p', pages))
    × (pages ≢ 0)
    × (pg_ofs pages ≡ 0)
    × IsValid p'
    × (palloc_free_multiple p' pages page_cnt ≡ some p'')
    × ((j : ℕ)
        → at (pool_of p'' flags.pal_user).used_map j ≡ at (pool_of p flags.pal_user).used_map j)
    × (pool_of p'' (not flags.pal_user) ≡ pool_of p (not flags.pal_user))

module _ (p : Palloc) (flags : Flags) (page_cnt : ℕ) (v : IsValid p) (pos : page_cnt ≢ 0) where
  abbrev pool : Pool
  pool = pool_of p flags.pal_user

  back :
      (map : Bitmap) (idx : ℕ)
      → bitmap_scan_and_flip pool.used_map 0 page_cnt false ≡ some (map, idx)
      → idx + page_cnt ≤ pool.used_map.bit_cnt
      → Group pool.used_map idx page_cnt false
      → Holds pool.used_map
          (λ j. if in_range idx page_cnt j then not false else at pool.used_map j)
          map
      → Returned p flags page_cnt
  back map idx scan inside group h =
      let user = flags.pal_user in
      let vp = pool_of-IsPool p user v in
      let pages = pages_at pool idx in
      let same : pages % 2 ^ 32 ≡ pages = omega (arith, inside, vp.room) in
      let gets =
        palloc_get_multiple-steps p flags page_cnt idx map pos scan
          (omega (arith, inside, vp.map.small)) (omega (arith, same, vp.pos)) in
      let q = given p flags page_cnt map pages in
      let (k, u) = given-pools p flags page_cnt map pages in
      let vq = pools-IsValid q (with_map p user map) k u (
        with_map-IsValid p user map
          (λ j. if in_range idx page_cnt j then not false else at pool.used_map j) v h) in
      let (mine, theirs) = with_map-pool p user map in
      let eq : pool_of q user ≡ record pool { used_map = map } =
        pool_of-eq q (with_map p user map) user k u ∙ mine in
      let at_base : pages_at (pool_of q user) idx ≡ pages = ap (λ x. pages_at x idx) eq in
      let inside' : idx + page_cnt ≤ (pool_of q user).used_map.bit_cnt =
        omega (arith, inside, h.size, ap (λ x. x.used_map.bit_cnt) eq) in
      let used : Group (pool_of q user).used_map idx page_cnt true =
        subst (λ x. Group x.used_map idx page_cnt true) (sym eq)
          (λ j a b. ground (arith, h.bits j)) in
      let (r, frees, (freed, other, memory)) =
        free_in-Freed q user idx page_cnt (pool_of-IsPool q user vq) inside' used in
      (
        q,
        r,
        pages,
        gets ∙ ap (λ x. some (given p flags page_cnt map x, x)) same,
        omega (arith, vp.pos),
        omega (arith, vp.aligned),
        vq,
        ap (λ x. palloc_free_multiple q x page_cnt) (sym at_base)
            ∙ palloc_free_multiple-pool q user idx page_cnt vq pos inside'
            ∙ frees,
        λ j.
            let e : at (pool_of q user).used_map j ≡ at map j = ap (λ x. at x.used_map j) eq in
            freed.bits j ∙ ground (arith, e, h.bits j, group j),
        other ∙ pool_of-eq q (with_map p user map) (not user) k u ∙ theirs,
      )

  -- With a group of free pages in the pool, `palloc_get_multiple` gives the address of a page, and
  -- `palloc_free_multiple` of as many pages there leaves each page of the pool in use or free as it was,
  -- and the other pool as it was. The pools are apart and end below 2 ^ 32, and the group is not empty.
  pub palloc_free_multiple-palloc_get_multiple :
      (g : ℕ)
      → g + page_cnt ≤ pool.used_map.bit_cnt
      → Group pool.used_map g page_cnt false
      → Returned p flags page_cnt
  palloc_free_multiple-palloc_get_multiple g inside group = go (
      bitmap_scan_and_flip-Taken 0 page_cnt false (pool_of-IsPool p flags.pal_user v).map
        (omega arith))
    where
      go :
          (map : Bitmap) × (idx : ℕ) × (bitmap_scan_and_flip pool.used_map 0 page_cnt false
              ≡ some (map, idx))
            × Taken pool.used_map 0 page_cnt false map idx
          → Returned p flags page_cnt
      go (map, idx, scan, taken low inside' group' first h) = back map idx scan inside' group' h
      go (map, idx, scan, full same none_left out) = absurd (out g (omega arith) inside group)
