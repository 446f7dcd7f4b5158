-- ===== src/Frame/Start.antt =====
-- src/vm/frame.c: the clock from the start of the system on.
use cs130_25spring_project.Common.{
  ℕ, zero, suc, ◌+◌, ◌≡◌, ◌≢◌, refl, sym, ap, ◌∙◌, Bool, true, false, Option, none, some, List, [],
  ◌∷◌, arith, ◌==◌, ne→==, length, get_elem?, get_elem?_of_ge, length-set, lt_of_get_elem?,
}
use cs130_25spring_project.Fs.{MapFile}
use cs130_25spring_project.Palloc.{Palloc, Flags, palloc_get_page}
use cs130_25spring_project.Frame.{
  Frame, Vm, frame_init, insert_at, remove_at, clock_without, evict_rounds, rounds, frame_share,
  frame_set_pinned, frame_free_at, frame_free, frame_remove,
}
use cs130_25spring_project.Frame.Evict.{frame_evict, add_frame, frame_alloc, get_page_or_evict}
use cs130_25spring_project.Pagedir.{Directory}

-- The clock is behind the last frame.
abbrev IsAtEnd : Vm → Type 0
IsAtEnd vm = vm.clock_ptr ≡ some (length vm.frame_list)

length-insert_at : (l : List Frame) (f : Frame) → length (insert_at l (length l) f) ≡ length l + 1
unfolding insert_at
length-insert_at [] f = refl
length-insert_at (x ∷ l) f = omega (arith, length-insert_at l f)

length-remove_at :
    (l : List Frame) (i : ℕ) (f : Frame)
    → get_elem? l i ≡ some f
    → length (remove_at l i) + 1 ≡ length l
unfolding remove_at
length-remove_at [] i f h = cc
length-remove_at (x ∷ l) zero f h = omega arith
length-remove_at (x ∷ l) (suc i) f h = omega (arith, length-remove_at l i f h)

length-ne-zero : (l : List Frame) → l ≢ [] → (length l == 0) ≡ false
length-ne-zero [] h = absurd (h refl)
length-ne-zero (x ∷ l) h = ground arith

module _ (file : MapFile) where
  add_frame-IsAtEnd :
      (vm vm' : Vm) (f : Frame) → IsAtEnd vm → add_frame file vm f ≡ some vm' → IsAtEnd vm'
  unfolding add_frame
  add_frame-IsAtEnd vm vm' f h e = ground (arith, length-insert_at vm.frame_list f)

  frame_share-IsAtEnd :
      (vm vm' : Vm) (current kpage upage page : ℕ)
      → IsAtEnd vm
      → frame_share vm current kpage upage page ≡ some vm'
      → IsAtEnd vm'
  unfolding frame_share
  frame_share-IsAtEnd vm vm' current kpage upage page h e = grind (arith, length-set)

  frame_set_pinned-IsAtEnd :
      (vm vm' : Vm) (kpage : ℕ) (status : Bool)
      → IsAtEnd vm
      → frame_set_pinned vm kpage status ≡ some vm'
      → IsAtEnd vm'
  unfolding frame_set_pinned
  frame_set_pinned-IsAtEnd vm vm' kpage status h e = grind (arith, length-set)

  frame_free_at-IsAtEnd :
      (vm vm' : Vm) (at : Option ℕ) → IsAtEnd vm → frame_free_at vm at ≡ some vm' → IsAtEnd vm'
  unfolding frame_free_at clock_without
  frame_free_at-IsAtEnd vm vm' none h e = ground arith
  frame_free_at-IsAtEnd vm vm' (some i) h e = grind (arith, length-remove_at, lt_of_get_elem?)

  frame_free-IsAtEnd :
      (vm vm' : Vm) (kpage : ℕ) → IsAtEnd vm → frame_free vm kpage ≡ some vm' → IsAtEnd vm'
  unfolding frame_free
  frame_free-IsAtEnd vm vm' kpage h e = grind (arith, frame_free_at-IsAtEnd)

  frame_remove-IsAtEnd :
      (vm vm' : Vm) (page : ℕ) → IsAtEnd vm → frame_remove vm page ≡ some vm' → IsAtEnd vm'
  unfolding frame_remove
  frame_remove-IsAtEnd vm vm' page h e = grind (arith, frame_free-IsAtEnd, length-set)

  get_page-free :
      (vm : Vm) (flags : Flags) (palloc : Palloc) (kpage : ℕ)
      → palloc_get_page vm.palloc flags ≡ some (palloc, kpage)
      → kpage ≢ 0
      → get_page_or_evict file vm flags ≡ some (record vm { palloc = palloc }, kpage)
  unfolding get_page_or_evict
  get_page-free vm flags palloc kpage got pos = rw (got, ne→== pos) refl

  frame_alloc-IsAtEnd :
      (vm vm' : Vm) (current : ℕ) (flags : Flags) (upage page : ℕ) (pinned : Bool) (palloc : Palloc)
      (kpage kpage' : ℕ)
      → IsAtEnd vm
      → palloc_get_page vm.palloc (record flags { pal_user = true }) ≡ some (palloc, kpage)
      → kpage ≢ 0
      → frame_alloc file vm current flags upage page pinned ≡ some (vm', kpage')
      → IsAtEnd vm'
  unfolding frame_alloc
  frame_alloc-IsAtEnd vm vm' current flags upage page pinned palloc kpage kpage' h got pos e =
      let vm₁ : Vm = record vm { palloc = palloc } in
      let f : Frame = record {
        kpage = kpage;
        pinned = pinned;
        owner_list = record { upage = upage; thread = current; sup_page = page } ∷ [];
      } in
      ground (
        arith,
        e,
        get_page-free vm (record flags { pal_user = true }) palloc kpage got pos,
        add_frame-IsAtEnd vm₁ vm' f h,
      )

  evict_rounds-outside :
      (frames : List Frame) (fuel clock : ℕ) (ds : ℕ → Option Directory)
      → get_elem? frames clock ≡ none
      → evict_rounds frames fuel 0 clock ds ≡ none
  unfolding evict_rounds
  evict_rounds-outside frames zero clock ds h = refl
  evict_rounds-outside frames (suc fuel) clock ds h = rw h refl

  frame_evict-IsAtEnd : (vm : Vm) → IsAtEnd vm → vm.frame_list ≢ [] → frame_evict file vm ≡ none
  unfolding frame_evict
  frame_evict-IsAtEnd vm h ne =
      let outside = get_elem?_of_ge vm.frame_list (length vm.frame_list) (omega arith) in
      let runs =
        evict_rounds-outside vm.frame_list (rounds vm.frame_list) (length vm.frame_list) vm.pagedir
          outside in
      rw (h, length-ne-zero vm.frame_list ne, runs) refl

  -- The states before the first eviction: what the module does to its frames while there are pages, and
  -- what others do to the rest.
  pub data Reach : Vm → Type 0 where
    init : (vm : Vm) → Reach (frame_init vm)
    alloc :
        {vm vm' : Vm} (current : ℕ) (flags : Flags) (upage page : ℕ) (pinned : Bool)
        (palloc : Palloc) (kpage kpage' : ℕ)
        → Reach vm
        → palloc_get_page vm.palloc (record flags { pal_user = true }) ≡ some (palloc, kpage)
        → kpage ≢ 0
        → frame_alloc file vm current flags upage page pinned ≡ some (vm', kpage')
        → Reach vm'
    share :
        {vm vm' : Vm} (current kpage upage page : ℕ)
        → Reach vm
        → frame_share vm current kpage upage page ≡ some vm'
        → Reach vm'
    pin :
        {vm vm' : Vm} (kpage : ℕ) (status : Bool)
        → Reach vm
        → frame_set_pinned vm kpage status ≡ some vm'
        → Reach vm'
    free : {vm vm' : Vm} (kpage : ℕ) → Reach vm → frame_free vm kpage ≡ some vm' → Reach vm'
    drop : {vm vm' : Vm} (page : ℕ) → Reach vm → frame_remove vm page ≡ some vm' → Reach vm'
    other :
        {vm vm' : Vm}
        → Reach vm
        → vm'.frame_list ≡ vm.frame_list
        → vm'.clock_ptr ≡ vm.clock_ptr
        → Reach vm'

  Reach-IsAtEnd : {vm : Vm} → Reach vm → IsAtEnd vm
  Reach-IsAtEnd (init vm) = refl
  Reach-IsAtEnd (alloc {vm} {vm'} current flags upage page pinned palloc kpage kpage' r got pos e) =
      frame_alloc-IsAtEnd vm vm' current flags upage page pinned palloc kpage kpage'
        (Reach-IsAtEnd r) got pos e
  Reach-IsAtEnd (share {vm} {vm'} current kpage upage page r e) =
      frame_share-IsAtEnd vm vm' current kpage upage page (Reach-IsAtEnd r) e
  Reach-IsAtEnd (pin {vm} {vm'} kpage status r e) =
      frame_set_pinned-IsAtEnd vm vm' kpage status (Reach-IsAtEnd r) e
  Reach-IsAtEnd (free {vm} {vm'} kpage r e) = frame_free-IsAtEnd vm vm' kpage (Reach-IsAtEnd r) e
  Reach-IsAtEnd (drop {vm} {vm'} page r e) = frame_remove-IsAtEnd vm vm' page (Reach-IsAtEnd r) e
  Reach-IsAtEnd (other {vm} {vm'} r frames clock) =
      let h = Reach-IsAtEnd r in clock ∙ h ∙ ap (λ l. some (length l)) (sym frames)

  -- From the start of the system on, whatever frames are allocated while there are free pages, shared,
  -- pinned, freed and given up, the first call of `frame_evict` with a frame in the list takes the end of
  -- the list for a frame, which is a panic here.
  pub frame_evict-Reach : {vm : Vm} → Reach vm → vm.frame_list ≢ [] → frame_evict file vm ≡ none
  frame_evict-Reach {vm} r ne = frame_evict-IsAtEnd vm (Reach-IsAtEnd r) ne
