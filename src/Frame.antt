-- ===== src/Frame.antt =====
-- src/vm/frame.c: the frames of user pages, and their eviction by the clock. `frame_hash` holds the frames
-- of `frame_list`, so that a find is a search of the list for the address. The clock is a position in
-- the list, which may be that of its end. The lock is left out, and the allocation of the two structures
-- succeeds.
pub mod Clear
pub mod Scan
pub mod Lap
pub mod Victim
pub mod Evict
pub mod Start
mod Tests
use cs130_25spring_project.Common.{
  ℕ, zero, suc, ◌+◌, ◌-◌, ◌*◌, Bool, true, false, not, ◌&&◌, ◌||◌, Option, none, some, List, [],
  ◌∷◌, ◌++◌, ◌==◌, ltb, leb, if◌then◌else◌, ◌>>=◌, ◌>>◌, assert, length, get_elem?, set,
}
use cs130_25spring_project.Palloc.{Palloc, Flags, pg_ofs, palloc_get_page, palloc_free_page}
use cs130_25spring_project.Pagedir.{
  Directory, is_user_vaddr, pagedir_is_accessed, pagedir_set_accessed,
}
use cs130_25spring_project.Swap.{Swap}
use cs130_25spring_project.Inode.Open.{Opened}
use cs130_25spring_project.File.{File}

-- `struct frame_owner`; the thread and the page by their numbers.
pub record Owner : Type 0 where
  pub upage : ℕ
  pub thread : ℕ
  pub sup_page : ℕ

pub record Frame : Type 0 where
  pub kpage : ℕ
  pub pinned : Bool
  pub owner_list : List Owner

pub data PageType : Type 0 where
  page_unalloc : PageType
  page_alloc : PageType
  page_file : PageType

-- `struct page` of vm/page.h; 0 is the null pointer.
pub record Page : Type 0 where
  pub type : PageType
  pub kpage : ℕ
  pub slot_idx : ℕ
  pub file : Option File
  pub ofs : ℕ
  pub upage : ℕ
  pub read_bytes : ℕ
  pub zero_bytes : ℕ
  pub writable : Bool
  pub owner : ℕ

-- The page directory of a thread is `none` for the null pointer. `clock_ptr` is `none` where it points
-- to a frame that was freed.
pub record Vm : Type 0 where
  pub frame_list : List Frame
  pub clock_ptr : Option ℕ
  pub pages : ℕ → Page
  pub pagedir : ℕ → Option Directory
  pub palloc : Palloc
  pub swap : Swap
  pub opened : Opened

-- After `list_init` the clock is at the end of the list.
abbrev pub frame_init : Vm → Vm
frame_init vm = record vm { frame_list = []; clock_ptr = some 0 }

abbrev pub assign {ℓ} : {A : Type ℓ} → (ℕ → A) → ℕ → A → ℕ → A
assign f t a u = if u == t then a else f u

-- `next_frame_` in a list of `n` frames.
abbrev pub next_frame : (n clock : ℕ) → ℕ
next_frame n clock = if (clock == n) || (clock + 1 == n) then 0 else clock + 1

-- `hash_find`: the position of a frame.
unfoldable pub find_frame : List Frame → (kpage : ℕ) → Option ℕ
find_frame [] kpage = none
find_frame (f ∷ l) kpage =
    if f.kpage == kpage then some 0 else (find_frame l kpage >>= λ i. some (i + 1))

-- `list_insert` in front of a position.
unfoldable pub insert_at : List Frame → (position : ℕ) → Frame → List Frame
insert_at l zero f = f ∷ l
insert_at [] (suc i) f = f ∷ []
insert_at (x ∷ l) (suc i) f = x ∷ insert_at l i f

unfoldable pub remove_at : List Frame → (position : ℕ) → List Frame
remove_at [] i = []
remove_at (x ∷ l) zero = l
remove_at (x ∷ l) (suc i) = x ∷ remove_at l i

-- The accessed bits of the owners are cleared; whether one was set.
unfoldable pub clear_accessed :
    (ℕ → Option Directory) → List Owner → Option ((ℕ → Option Directory) × Bool)
clear_accessed pagedir [] = some (pagedir, false)
clear_accessed pagedir (o ∷ l) = pagedir o.thread >>= λ pd.
    let is_accessed = pagedir_is_accessed pd o.upage in
    clear_accessed
      (if is_accessed
        then assign pagedir o.thread (some (pagedir_set_accessed pd o.upage false))
        else pagedir)
      l
    >>= λ (pagedir', more). some (pagedir', is_accessed || more)

-- Whether the scan goes on past a frame: it is pinned, or was accessed.
unfoldable pub passes : (ℕ → Option Directory) → Frame → Option ((ℕ → Option Directory) × Bool)
passes pagedir f = if f.pinned then some (pagedir, true) else clear_accessed pagedir f.owner_list

-- The loop of `frame_evict`, a round for each frame: the clock, the directories and the victim.
module _ (frames : List Frame) where
  unfoldable pub evict_rounds :
      ℕ
      → (cycle_cnt clock : ℕ) → (ℕ → Option Directory)
      → Option (ℕ × (ℕ → Option Directory) × Option Frame)
  evict_rounds zero cycle_cnt clock pagedir = none
  evict_rounds (suc fuel) cycle_cnt clock pagedir =
      if leb cycle_cnt 2
      then (get_elem? frames clock >>= λ f. passes pagedir f >>= λ (pagedir', pass).
          let clock' = next_frame (length frames) clock in
          let rest =
            evict_rounds fuel (if clock == 0 then cycle_cnt + 1 else cycle_cnt) clock' pagedir' in
          if pass then rest else some (clock', pagedir', some f))
      else some (clock, pagedir, none)

  abbrev pub rounds : ℕ
  rounds = 3 * length frames + 2

-- The owner is a page of the thread `current`.
unfoldable pub frame_share : Vm → (current kpage upage page : ℕ) → Option Vm
frame_share vm current kpage upage page =
    assert ((pg_ofs upage == 0) && is_user_vaddr upage)
    >> (find_frame vm.frame_list kpage >>= λ i. get_elem? vm.frame_list i >>= λ f.
        let owner : Owner = record { upage = upage; thread = current; sup_page = page } in
        some (record vm {
          frame_list = set vm.frame_list i (record f { owner_list = f.owner_list ++ (owner ∷ []) });
        }))

unfoldable pub frame_set_pinned : Vm → (kpage : ℕ) → Bool → Option Vm
frame_set_pinned vm kpage status =
    assert (pg_ofs kpage == 0)
    >> (find_frame vm.frame_list kpage >>= λ i. get_elem? vm.frame_list i >>= λ f.
        some (record vm { frame_list = set vm.frame_list i (record f { pinned = status }) }))

-- The clock when the frame at `i` of `n` is taken out: it moves on from that frame, and from the only
-- frame to itself.
unfoldable pub clock_without : (n i : ℕ) → Option ℕ → Option ℕ
clock_without n i none = none
clock_without n i (some clock) =
    let next = if clock == i then next_frame n clock else clock in
    if next == i then none else some (if ltb i next then next - 1 else next)

abbrev pub is_empty : List Owner → Bool
is_empty [] = true
is_empty (o ∷ l) = false

unfoldable pub frame_free_at : Vm → Option ℕ → Option Vm
frame_free_at vm none = some vm
frame_free_at vm (some i) = get_elem? vm.frame_list i >>= λ f.
    assert (is_empty f.owner_list)
    >> (palloc_free_page vm.palloc f.kpage >>= λ palloc. some (record vm {
      palloc = palloc;
      frame_list = remove_at vm.frame_list i;
      clock_ptr = clock_without (length vm.frame_list) i vm.clock_ptr;
    }))

unfoldable pub frame_free : Vm → (kpage : ℕ) → Option Vm
frame_free vm kpage =
    assert (pg_ofs kpage == 0)
    >> (if kpage == 0 then some vm else frame_free_at vm (find_frame vm.frame_list kpage))

unfoldable pub drop_owner : (page : ℕ) → List Owner → List Owner
drop_owner page [] = []
drop_owner page (o ∷ l) = if o.sup_page == page then l else o ∷ drop_owner page l

unfoldable pub frame_remove : Vm → (page : ℕ) → Option Vm
frame_remove vm page = find_frame vm.frame_list (vm.pages page).kpage >>= λ i.
    get_elem? vm.frame_list i >>= λ f.
    let owners = drop_owner page f.owner_list in
    let vm' : Vm = record vm {
      frame_list = set vm.frame_list i (record f { owner_list = owners });
    } in
    if is_empty owners then frame_free vm' f.kpage else some vm'
