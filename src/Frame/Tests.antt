-- ===== src/Frame/Tests.antt =====
-- Two frames, of which the first is pinned, and a system with sixteen pages and no frame.
use cs130_25spring_project.Common.{
  ℕ, zero, suc, ◌≡◌, ◌≢◌, refl, true, false, Option, none, some, List, [], ◌∷◌, arith, ne→==,
}
use cs130_25spring_project.Common.Bits.{bit}
use cs130_25spring_project.Bitmap.Scan.{Group}
use cs130_25spring_project.Palloc.{Pool, Palloc, Flags, palloc_get_page}
use cs130_25spring_project.Palloc.Roundtrip.{
  IsValid, Returned, palloc_free_multiple-palloc_get_multiple,
}
use cs130_25spring_project.Pagedir.{Pte, Directory}
use cs130_25spring_project.Inode.Tests.{map_file, start}
use cs130_25spring_project.Frame.{
  Owner, Frame, Page, page_unalloc, Vm, insert_at, evict_rounds, rounds,
}
use cs130_25spring_project.Frame.Clear.{HaveDirectory}
use cs130_25spring_project.Frame.Victim.{Scanned, evict_rounds-Scanned}
use cs130_25spring_project.Frame.Evict.{frame_evict, frame_alloc, get_page_or_evict, add_frame}
use cs130_25spring_project.Frame.Start.{Reach, frame_evict-Reach}

abbrev owner : Owner
owner = record { upage = 0x1000; thread = 1; sup_page = 5 }

abbrev two_frames : List Frame
two_frames =
    record { kpage = 0xc020_0000; pinned = true; owner_list = owner ∷ [] }
    ∷ record { kpage = 0xc020_1000; pinned = false; owner_list = owner ∷ [] }
    ∷ []

abbrev pte : Pte
pte = record { kpage = 0xc020_0000; present = true; writable = true; accessed = true; dirty = true }

-- Every page was accessed.
abbrev accessed : ℕ → Option Directory
accessed t = some (record { tables = λ n. true; entries = λ n. pte })

accessed-HaveDirectory : (l : List Owner) → HaveDirectory accessed l
unfolding HaveDirectory
accessed-HaveDirectory [] = tt
accessed-HaveDirectory (o ∷ l) =
    ((record { tables = λ n. true; entries = λ n. pte }, refl), accessed-HaveDirectory l)

evict_rounds-Scanned_example :
    Scanned two_frames accessed (evict_rounds two_frames (rounds two_frames) 0 1 accessed)
evict_rounds-Scanned_example =
    evict_rounds-Scanned two_frames 1 accessed (omega arith)
      (λ i f e. accessed-HaveDirectory f.owner_list)

abbrev eight_pages : (base : ℕ) → Pool
eight_pages base = record { used_map = record { bit_cnt = 8; bits = 0 ∷ [] }; base = base }

abbrev pools : Palloc
pools = record {
  kernel_pool = eight_pages 0xc010_0000;
  user_pool = eight_pages 0xc020_0000;
  memory = λ a. [];
}

pools-IsValid : IsValid pools
pools-IsValid = record {
  kernel = record {
    map = record { small = omega arith; storage = omega arith };
    pos = omega arith;
    aligned = omega arith;
    room = omega arith;
  };
  user = record {
    map = record { small = omega arith; storage = omega arith };
    pos = omega arith;
    aligned = omega arith;
    room = omega arith;
  };
  apart = omega arith;
}

abbrev user_page : Flags
user_page = record { pal_assert = false; pal_zero = false; pal_user = true }

first_free : Group pools.user_pool.used_map 0 1 false
unfolding bit
first_free zero a b = refl
first_free (suc k) a b = absurd (omega arith)

palloc_free_multiple-palloc_get_multiple_example : Returned pools user_page 1
palloc_free_multiple-palloc_get_multiple_example =
    palloc_free_multiple-palloc_get_multiple pools user_page 1 pools-IsValid (omega arith) 0
      (omega arith) first_free

abbrev page : Page
page = record {
  type = page_unalloc;
  kpage = 0;
  slot_idx = 0;
  file = none;
  ofs = 0;
  upage = 0x1000;
  read_bytes = 0;
  zero_bytes = 4096;
  writable = true;
  owner = 1;
}

abbrev new_vm : Vm
new_vm = record {
  frame_list = [];
  clock_ptr = some 0;
  pages = λ n. page;
  pagedir = accessed;
  palloc = pools;
  swap = record {
    device = record { size = 16; foreign = false; sectors = λ n. []; read_cnt = 0; write_cnt = 0 };
    bitmap = record { bit_cnt = 2; bits = 0 ∷ [] };
  };
  opened = record { fs = start; open_inodes = [] };
}

-- With its first frame.
abbrev with_frame : Palloc → (kpage : ℕ) → Vm
with_frame palloc kpage = record new_vm {
  palloc = palloc;
  frame_list = record { kpage = kpage; pinned = true; owner_list = owner ∷ [] } ∷ [];
  clock_ptr = some 1;
}

first_alloc :
    (palloc : Palloc) (kpage : ℕ)
    → palloc_get_page pools user_page ≡ some (palloc, kpage)
    → kpage ≢ 0
    → frame_alloc map_file new_vm 1 user_page 0x1000 5 true ≡ some (with_frame palloc kpage, kpage)
unfolding frame_alloc get_page_or_evict add_frame insert_at
first_alloc palloc kpage got pos = rw (got, ne→== pos) refl

abbrev got : Returned pools user_page 1
got =
    palloc_free_multiple-palloc_get_multiple pools user_page 1 pools-IsValid (omega arith) 0
      (omega arith) first_free

with_frame-Reach : Reach map_file (with_frame got.0 got.2)
with_frame-Reach =
    Reach.alloc 1 user_page 0x1000 5 true got.0 got.2 got.2 (Reach.init new_vm) got.3 got.4
      (first_alloc got.0 got.2 got.3 got.4)

not_empty : (f : Frame) → f ∷ [] ≢ []
not_empty f e = cc

frame_evict-Reach_example : frame_evict map_file (with_frame got.0 got.2) ≡ none
frame_evict-Reach_example =
    frame_evict-Reach map_file with_frame-Reach
      (not_empty (record { kpage = got.2; pinned = true; owner_list = owner ∷ [] }))
