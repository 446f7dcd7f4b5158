-- ===== src/Palloc.antt =====
-- src/threads/palloc.c: pages from the kernel pool and the user pool, each with a bitmap of the pages in
-- use. The bytes of a page stand under its address, 0 is the null pointer. The locks and the set-up of
-- the pools are left out.
pub mod Roundtrip
use cs130_25spring_project.Common.{
  ℕ, ◌+◌, ◌-◌, ◌*◌, ◌/◌, ◌%◌, ◌^◌, Bool, true, false, ◌&&◌, ◌||◌, Option, none, some, List, ◌==◌,
  ltb, leb, if◌then◌else◌, ◌>>=◌, ◌>>◌, assert, replicate,
}
use cs130_25spring_project.Swap.{page_size}
use cs130_25spring_project.Bitmap.{
  Bitmap, bitmap_error, bitmap_size, bitmap_all, bitmap_set_multiple, bitmap_scan_and_flip,
}

pub record Pool : Type 0 where
  pub used_map : Bitmap
  pub base : ℕ

pub record Palloc : Type 0 where
  pub kernel_pool : Pool
  pub user_pool : Pool
  pub memory : ℕ → List ℕ

-- `enum palloc_flags`
pub record Flags : Type 0 where
  pub pal_assert : Bool
  pub pal_zero : Bool
  pub pal_user : Bool

abbrev pub pg_ofs : ℕ → ℕ
pg_ofs va = va % page_size

abbrev pub pg_no : ℕ → ℕ
pg_no va = va / page_size

-- The memory where `cnt` pages have one byte everywhere.
unfoldable pub memset_pages : (ℕ → List ℕ) → (pages cnt byte : ℕ) → ℕ → List ℕ
memset_pages memory pages cnt byte a =
    if leb pages a && ltb a (pages + page_size * cnt) then replicate page_size byte else memory a

abbrev pub pool_of : Palloc → (user : Bool) → Pool
pool_of p user = if user then p.user_pool else p.kernel_pool

abbrev pub with_map : Palloc → (user : Bool) → Bitmap → Palloc
with_map p user map =
    if user
    then record p { user_pool = record p.user_pool { used_map = map } }
    else record p { kernel_pool = record p.kernel_pool { used_map = map } }

-- The group of pages, by what the bitmap found.
unfoldable pub give : Palloc → Flags → (page_cnt page_idx : ℕ) → Option (Palloc × ℕ)
give p flags page_cnt page_idx =
    let pages =
      if page_idx == bitmap_error
      then 0
      else ((pool_of p flags.pal_user).base + page_size * page_idx) % 2 ^ 32 in
    if pages == 0
    then (if flags.pal_assert then none else some (p, 0))
    else if flags.pal_zero
    then some (record p { memory = memset_pages p.memory pages page_cnt 0 }, pages)
    else some (p, pages)

unfoldable pub palloc_get_multiple : Palloc → Flags → (page_cnt : ℕ) → Option (Palloc × ℕ)
palloc_get_multiple p flags page_cnt =
    if page_cnt == 0
    then some (p, 0)
    else (bitmap_scan_and_flip (pool_of p flags.pal_user).used_map 0 page_cnt false
        >>= λ (map, page_idx). give (with_map p flags.pal_user map) flags page_cnt page_idx)

abbrev pub palloc_get_page : Palloc → Flags → Option (Palloc × ℕ)
palloc_get_page p flags = palloc_get_multiple p flags 1

abbrev pub page_from_pool : Pool → (page : ℕ) → Bool
page_from_pool pool page =
    leb (pg_no pool.base) (pg_no page)
    && ltb (pg_no page) (pg_no pool.base + bitmap_size pool.used_map)

unfoldable pub free_in : Palloc → (user : Bool) → (pages page_cnt : ℕ) → Option Palloc
free_in p user pages page_cnt =
    let pool = pool_of p user in
    let page_idx = pg_no pages - pg_no pool.base in
    bitmap_all pool.used_map page_idx page_cnt >>= λ all.
    assert all
    >> (bitmap_set_multiple pool.used_map page_idx page_cnt false >>= λ map.
        some (record (with_map p user map) { memory = memset_pages p.memory pages page_cnt 0xcc }))

unfoldable pub palloc_free_multiple : Palloc → (pages page_cnt : ℕ) → Option Palloc
palloc_free_multiple p pages page_cnt =
    assert (pg_ofs pages == 0)
    >> (if (pages == 0) || (page_cnt == 0)
        then some p
        else if page_from_pool p.kernel_pool pages
        then free_in p false pages page_cnt
        else if page_from_pool p.user_pool pages
        then free_in p true pages page_cnt
        else none)

abbrev pub palloc_free_page : Palloc → (page : ℕ) → Option Palloc
palloc_free_page p page = palloc_free_multiple p page 1
