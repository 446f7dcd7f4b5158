-- ===== src/Frame/Evict.antt =====
-- src/vm/frame.c: the eviction of a frame, and the allocation of one, which evicts if no page is free.
use cs130_25spring_project.Common.{
  ℕ, ◌+◌, Bool, true, false, ◌&&◌, Option, none, some, List, [], ◌∷◌, ◌==◌, if◌then◌else◌, ◌>>=◌,
  ◌>>◌, assert, length, get_elem?, set, take,
}
use cs130_25spring_project.Fs.{MapFile}
use cs130_25spring_project.Swap.{slot_err, swap_out}
use cs130_25spring_project.File.{file_write_at}
use cs130_25spring_project.Palloc.{Flags, pg_ofs, palloc_get_page}
use cs130_25spring_project.Pagedir.{
  is_user_vaddr, pagedir_is_dirty, pagedir_set_dirty, pagedir_clear_page,
}
use cs130_25spring_project.Frame.{
  Owner, Frame, PageType, page_unalloc, page_alloc, page_file, Page, Vm, assign, find_frame,
  insert_at, evict_rounds, rounds, frame_free,
}

-- The owners' pages are to be read again from their files.
unfoldable pub forget : (ℕ → Page) → List Owner → ℕ → Page
forget pages [] = pages
forget pages (o ∷ l) =
    forget
      (assign pages o.sup_page
        (record (pages o.sup_page) { type = page_unalloc; slot_idx = slot_err }))
      l

-- A dirty page of a process goes to the swap; a full swap is a panic.
unfoldable pub swap_victim : Vm → Frame → Owner → Option Vm
swap_victim vm f o = swap_out vm.swap (vm.palloc.memory f.kpage) >>= λ (swap, slot_idx).
    assert (if slot_idx == slot_err then false else true)
    >> some (record vm {
      swap = swap;
      pages = assign vm.pages o.sup_page (record (vm.pages o.sup_page) { slot_idx = slot_idx });
    })

module _ (map_file : MapFile) where
  -- A dirty page of a file goes back to it.
  unfoldable pub write_victim : Vm → Frame → Owner → Option Vm
  write_victim vm f o =
      let page = vm.pages o.sup_page in
      page.file >>= λ file.
      file_write_at map_file vm.opened file (take page.read_bytes (vm.palloc.memory f.kpage))
        page.ofs
      >>= λ (opened, n). vm.pagedir o.thread >>= λ pd. some (record vm {
        opened = opened;
        pagedir = assign vm.pagedir o.thread (some (pagedir_set_dirty pd o.upage false));
      })

  -- By the type of the first owner's page.
  unfoldable pub save_victim : Vm → Frame → Owner → (dirty : Bool) → PageType → Option Vm
  save_victim vm f o dirty page_alloc =
      if dirty
      then swap_victim vm f o
      else some (record vm { pages = forget vm.pages f.owner_list })
  save_victim vm f o dirty page_file = if dirty then write_victim vm f o else some vm
  save_victim vm f o dirty page_unalloc = none

  unfoldable pub unbind : Vm → List Owner → Option Vm
  unbind vm [] = some vm
  unbind vm (o ∷ l) = vm.pagedir o.thread >>= λ pd. pagedir_clear_page pd o.upage >>= λ pd'.
      unbind
        (record vm {
          pagedir = assign vm.pagedir o.thread (some pd');
          pages = assign vm.pages o.sup_page (record (vm.pages o.sup_page) { kpage = 0 });
        })
        l

  unfoldable pub without_owners : Vm → (kpage : ℕ) → Option Vm
  without_owners vm kpage = find_frame vm.frame_list kpage >>= λ i.
      get_elem? vm.frame_list i >>= λ f.
      some (record vm { frame_list = set vm.frame_list i (record f { owner_list = [] }) })

  unfoldable pub evict_victim : Vm → Option Frame → Option Vm
  evict_victim vm none = some vm
  evict_victim vm (some f) = get_elem? f.owner_list 0 >>= λ o.
      let page = vm.pages o.sup_page in
      assert (o.upage == page.upage)
      >> (vm.pagedir o.thread >>= λ pd.
          save_victim vm f o (pagedir_is_dirty pd o.upage) page.type >>= λ vm₁.
          unbind vm₁ f.owner_list >>= λ vm₂.
          without_owners vm₂ f.kpage >>= λ vm₃. frame_free vm₃ f.kpage)

  -- A clock at the end of the list, which is no frame, is a panic.
  unfoldable pub frame_evict : Vm → Option Vm
  frame_evict vm =
      if length vm.frame_list == 0
      then some vm
      else (vm.clock_ptr >>= λ clock.
          evict_rounds vm.frame_list (rounds vm.frame_list) 0 clock vm.pagedir
          >>= λ (clock', pagedir, victim).
              evict_victim (record vm { clock_ptr = some clock'; pagedir = pagedir }) victim)

  -- Again after the eviction, if there was no page.
  unfoldable pub get_page_or_evict : Vm → Flags → Option (Vm × ℕ)
  get_page_or_evict vm flags = palloc_get_page vm.palloc flags >>= λ (palloc, kpage).
      if kpage == 0
      then (frame_evict (record vm { palloc = palloc }) >>= λ vm'.
          palloc_get_page vm'.palloc flags >>= λ (palloc', kpage').
          assert (if kpage' == 0 then false else true)
          >> some (record vm' { palloc = palloc' }, kpage'))
      else some (record vm { palloc = palloc }, kpage)

  unfoldable pub add_frame : Vm → Frame → Option Vm
  add_frame vm f = vm.clock_ptr >>= λ clock.
      some
        (record vm { frame_list = insert_at vm.frame_list clock f; clock_ptr = some (clock + 1) })

  -- For a page of the thread `current`.
  unfoldable pub frame_alloc :
      Vm → (current : ℕ) → Flags → (upage page : ℕ) → (pinned : Bool) → Option (Vm × ℕ)
  frame_alloc vm current flags upage page pinned =
      let owner : Owner = record { upage = upage; thread = current; sup_page = page } in
      assert ((pg_ofs upage == 0) && is_user_vaddr upage)
      >> (get_page_or_evict vm (record flags { pal_user = true }) >>= λ (vm', kpage).
          add_frame vm' (record { kpage = kpage; pinned = pinned; owner_list = owner ∷ [] })
          >>= λ vm''. some (vm'', kpage))
