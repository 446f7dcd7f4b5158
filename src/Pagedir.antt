-- ===== src/Pagedir.antt =====
-- src/userprog/pagedir.c: the page directory of a process, with one entry for each page, in page tables
-- that are made when they are needed. Addresses are numbers.
use cs130_25spring_project.Common.{
  ℕ, ◌+◌, ◌-◌, ◌/◌, ◌^◌, Bool, true, false, not, ◌&&◌, Option, none, some, ◌==◌, ltb, leb,
  if◌then◌else◌, ◌>>=◌, ◌>>◌, assert,
}
use cs130_25spring_project.Palloc.{Palloc, pg_no, pg_ofs, palloc_get_page}

abbrev pub phys_base : ℕ
phys_base = 0xc000_0000

abbrev pub is_user_vaddr : ℕ → Bool
is_user_vaddr va = ltb va phys_base

-- The page that an entry points to, and the bits PTE_P, PTE_W, PTE_A and PTE_D.
pub record Pte : Type 0 where
  pub kpage : ℕ
  pub present : Bool
  pub writable : Bool
  pub accessed : Bool
  pub dirty : Bool

-- Whether there is a page table for a directory index, and the entries by page number.
pub record Directory : Type 0 where
  pub tables : ℕ → Bool
  pub entries : ℕ → Pte

abbrev pub pd_no : ℕ → ℕ
pd_no va = va / 2 ^ 22

-- `lookup_page` without creation.
abbrev pub lookup_page : Directory → (vaddr : ℕ) → Option Pte
lookup_page pd vaddr = if pd.tables (pd_no vaddr) then some (pd.entries (pg_no vaddr)) else none

abbrev pub store : Directory → (vaddr : ℕ) → Pte → Directory
store pd vaddr pte = record pd { entries = λ n. if n == pg_no vaddr then pte else pd.entries n }

abbrev pub zero_pte : Pte
zero_pte = record { kpage = 0; present = false; writable = false; accessed = false; dirty = false }

-- `lookup_page` with creation: whether there is a table at the end.
unfoldable pub create_table : Palloc → Directory → (vaddr : ℕ) → Option (Palloc × Directory × Bool)
create_table p pd vaddr =
    if pd.tables (pd_no vaddr)
    then some (p, pd, true)
    else (palloc_get_page p (record { pal_assert = false; pal_zero = true; pal_user = false })
        >>= λ (p', pt).
            if pt == 0
            then some (p', pd, false)
            else some (
              p',
              record {
                tables = λ n. if n == pd_no vaddr then true else pd.tables n;
                entries = λ n. if n / 2 ^ 10 == pd_no vaddr then zero_pte else pd.entries n;
              },
              true,
            ))

abbrev pub is_present : Option Pte → Bool
is_present none = false
is_present (some pte) = pte.present

unfoldable pub pagedir_set_page :
    (init_ram_pages : ℕ)
    → Palloc
    → Directory
    → (upage kpage : ℕ) → (writable : Bool) → Option (Palloc × Directory × Bool)
pagedir_set_page init_ram_pages p pd upage kpage writable =
    assert ((pg_ofs upage == 0) && (pg_ofs kpage == 0) && is_user_vaddr upage)
    >> (assert (leb phys_base kpage && ltb (pg_no (kpage - phys_base)) init_ram_pages)
        >> (create_table p pd upage >>= λ (p', pd', made).
            if made
            then (assert (not (pd'.entries (pg_no upage)).present)
                >> some (
                  p',
                  store pd' upage
                      (record zero_pte { kpage = kpage; present = true; writable = writable }),
                  true,
                ))
            else some (p', pd', false)))

-- A null pointer is 0.
unfoldable pub pagedir_get_page : Directory → (uaddr : ℕ) → Option ℕ
pagedir_get_page pd uaddr =
    assert (is_user_vaddr uaddr)
    >> some (
        if is_present (lookup_page pd uaddr)
        then (pd.entries (pg_no uaddr)).kpage + pg_ofs uaddr
        else 0)

unfoldable pub pagedir_clear_page : Directory → (upage : ℕ) → Option Directory
pagedir_clear_page pd upage =
    assert ((pg_ofs upage == 0) && is_user_vaddr upage)
    >> some (
        if is_present (lookup_page pd upage)
        then store pd upage (record (pd.entries (pg_no upage)) { present = false })
        else pd)

abbrev pub pagedir_is_dirty : Directory → (vpage : ℕ) → Bool
pagedir_is_dirty pd vpage = pd.tables (pd_no vpage) && (pd.entries (pg_no vpage)).dirty

unfoldable pub pagedir_set_dirty : Directory → (vpage : ℕ) → Bool → Directory
pagedir_set_dirty pd vpage dirty =
    if pd.tables (pd_no vpage)
    then store pd vpage (record (pd.entries (pg_no vpage)) { dirty = dirty })
    else pd

abbrev pub pagedir_is_accessed : Directory → (vpage : ℕ) → Bool
pagedir_is_accessed pd vpage = pd.tables (pd_no vpage) && (pd.entries (pg_no vpage)).accessed

unfoldable pub pagedir_set_accessed : Directory → (vpage : ℕ) → Bool → Directory
pagedir_set_accessed pd vpage accessed =
    if pd.tables (pd_no vpage)
    then store pd vpage (record (pd.entries (pg_no vpage)) { accessed = accessed })
    else pd

unfoldable pub pagedir_install_page :
    (init_ram_pages : ℕ)
    → Palloc
    → Directory
    → (upage kpage : ℕ) → (writable : Bool) → Option (Palloc × Directory × Bool)
pagedir_install_page init_ram_pages p pd upage kpage writable = pagedir_get_page pd upage >>= λ old.
    if old == 0
    then pagedir_set_page init_ram_pages p pd upage kpage writable
    else some (p, pd, false)
