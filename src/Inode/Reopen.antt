-- ===== src/Inode/Reopen.antt =====
-- An inode that is open is found again when it is opened, and a close undoes an open.
use cs130_25spring_project.Common.{
  ℕ, ◌+◌, ◌-◌, ◌<◌, ◌≡◌, ◌≢◌, ==→eq, refl, sym, ap, ◌∙◌, inl, inr, Bool, true, false, Option, none,
  some, List, [], ◌∷◌, arith, ◌==◌, Bool-cases, eq→==, ne→==, ==-refl,
}
use cs130_25spring_project.Cache.Flush.{cache_flush-FlushedState}
use cs130_25spring_project.Cache.View.{disk}
use cs130_25spring_project.Common.Bytes.{slice}
use cs130_25spring_project.Fs.{Fs, MapFile, fs_device}
use cs130_25spring_project.Fs.Laws.{IsValid, sector, read_bytes-Shows}
use cs130_25spring_project.Inode.{Inode}
use cs130_25spring_project.Inode.Disk.{disk_of}
use cs130_25spring_project.Inode.Open.{
  Opened, find_open, assign, list_remove, inode_reopen, open_new, open_found, inode_open,
  last_close, inode_close,
}

-- The inode found has the sector.
pub find_open-sector : (l : List Inode) (s : ℕ) (i : Inode) → find_open l s ≡ some i → i.sector ≡ s
unfolding find_open
find_open-sector [] s i e = absurd (ground (arith, e))
find_open-sector (j ∷ l) s i e = elim (Bool-cases (j.sector == s)) [
  | inl h ↦ ground (arith, e, h)
  | inr h ↦ find_open-sector l s i (rw h at e)
]

-- After an assignment of an inode of the same sector, it is the one found.
pub find_open-assign :
    (l : List Inode) (s : ℕ) (i to : Inode)
    → find_open l s ≡ some i
    → to.sector ≡ s
    → find_open (assign l s to) s ≡ some to
unfolding find_open assign
find_open-assign [] s i to e h = absurd (ground (arith, e))
find_open-assign (j ∷ l) s i to e h = elim (Bool-cases (j.sector == s)) [
  | inl k ↦ rw (k, eq→== h) refl
  | inr k ↦ rw (k, k) (find_open-assign l s i to (rw k at e) h)
]

-- Of another sector, the inode found is the one before.
pub find_open-assign_other :
    (l : List Inode) (s u : ℕ) (to : Inode)
    → to.sector ≡ s
    → u ≢ s
    → find_open (assign l s to) u ≡ find_open l u
unfolding find_open assign
find_open-assign_other [] s u to h ne = refl
find_open-assign_other (j ∷ l) s u to h ne =
    let away : (to.sector == u) ≡ false = ne→== (λ e. ne (sym e ∙ h)) in
    elim (Bool-cases (j.sector == s)) [
      | inl k ↦
          let away' : (j.sector == u) ≡ false = ne→== (λ e. ne (sym e ∙ ==→eq j.sector s k)) in
          rw (k, away, away') refl
      | inr k ↦ elim (Bool-cases (j.sector == u)) [
        | inl m ↦ rw (k, m) refl
        | inr m ↦ rw (k, m) (find_open-assign_other l s u to h ne)
      ]
    ]

found : Inode → Option Inode → Inode
found j none = j
found j (some i) = i

-- Assigning the inode that was found gives the list back.
pub assign-assign :
    (l : List Inode) (s : ℕ) (i to : Inode)
    → find_open l s ≡ some i
    → to.sector ≡ s
    → assign (assign l s to) s i ≡ l
unfolding find_open assign found
assign-assign [] s i to e h = refl
assign-assign (j ∷ l) s i to e h = elim (Bool-cases (j.sector == s)) [
  | inl k ↦
      let same : j ≡ i = ap (found j) (rw k at e) in rw (k, eq→== h) (ap (λ m. m ∷ l) (sym same))
  | inr k ↦ rw (k, k) (ap (λ r. j ∷ r) (assign-assign l s i to (rw k at e) h))
]

-- Opening an inode that is open gives that inode, with one opener more, and reads nothing: the
-- close after it restores the state.
pub inode_close-inode_open :
    (file : MapFile) (o : Opened) (memory : Bool) (s : ℕ) (i : Inode)
    → find_open o.open_inodes s ≡ some i
    → 0 < i.open_cnt
    → (o' : Opened) × (inode_open o memory s
        ≡ some (o', some (record i { open_cnt = i.open_cnt + 1 })))
      × (o'.fs ≡ o.fs)
      × (inode_close file o' s ≡ some o)
unfolding inode_open open_found inode_reopen inode_close
inode_close-inode_open file o memory s i e h =
    let to : Inode = record i { open_cnt = i.open_cnt + 1 } in
    let at_s = find_open-sector o.open_inodes s i e in
    let again = find_open-assign o.open_inodes s i to e at_s in
    let not_last : (i.open_cnt + 1 == 1) ≡ false = ne→== (omega arith) in
    let cnt : i.open_cnt + 1 - 1 ≡ i.open_cnt = omega arith in
    let back = assign-assign o.open_inodes s i to e at_s in
    (
      record o { open_inodes = assign o.open_inodes s to },
      ap (open_found o memory s) e ∙ rw e refl,
      refl,
      rw (again, not_last)
          (ap
              (λ k. some (record o {
                open_inodes = assign (assign o.open_inodes s to) s (record i { open_cnt = k });
              }))
              cnt
            ∙ ap (λ l. some (record o { open_inodes = l })) back),
    )

-- A sector that is not open is read as an inode with one opener, which joins the list. The close
-- of that inode takes it out of the list; every sector is then on the device as the cache showed it
-- before the open.
pub inode_close-open_new :
    (file : MapFile) (o : Opened) (s : ℕ)
    → IsValid o.fs
    → s < o.fs.free_map.bit_cnt
    → find_open o.open_inodes s ≡ none
    → (o' : Opened) × (i : Inode) × (fs'' : Fs) × (inode_open o true s ≡ some (o', some i))
      × (i.content ≡ disk_of (slice 0 512 (sector o.fs s)))
      × (find_open o'.open_inodes s ≡ some i)
      × (inode_close file o' s ≡ some (record { fs = fs''; open_inodes = o.open_inodes }))
      × ((t : ℕ) → sector fs'' t ≡ sector o.fs t)
      × ((t : ℕ) → disk fs''.cache.devices fs_device t ≡ sector o.fs t)
unfolding inode_open open_found open_new inode_close last_close find_open list_remove
inode_close-open_new file o s v h e =
    let (fs', e₁, same) = read_bytes-Shows o.fs s v h 512 0 in
    let (st, e₂, flushed) = cache_flush-FlushedState fs'.cache false same.valid.cache in
    let i : Inode = record {
      sector = s;
      open_cnt = 1;
      removed = false;
      deny_write_cnt = 0;
      content = disk_of (slice 0 512 (sector o.fs s));
    } in
    (
      record { fs = fs'; open_inodes = i ∷ o.open_inodes },
      i,
      record fs' { cache = st },
      ap (open_found o true s) e ∙ rw e₁ refl,
      refl,
      rw (==-refl s) refl,
      rw (==-refl s, e₂) refl,
      λ t. flushed.views fs_device t ∙ same.sectors t,
      λ t. flushed.synced fs_device t ∙ same.sectors t,
    )
