-- ===== src/FreeMap/Allocate.antt =====
-- Allocation takes the first group of free sectors or changes no bit.
use cs130_25spring_project.Common.{
  ℕ, ◌+◌, ◌≤◌, ◌<◌, ◌≡◌, refl, ap, ◌∙◌, Bool, true, false, Option, none, some, arith, ◌==◌,
  if◌then◌else◌, Bool-cases, inl, inr, eq→==, ne→==,
}
use cs130_25spring_project.Bitmap.{Bitmap, bitmap_error, bitmap_scan_and_flip}
use cs130_25spring_project.Bitmap.View.{at, Holds}
use cs130_25spring_project.Bitmap.Range.{in_range, bitmap_set_multiple-Holds}
use cs130_25spring_project.Bitmap.Scan.{taken, full, Group, Taken, bitmap_scan_and_flip-Taken}
use cs130_25spring_project.Cache
use cs130_25spring_project.Fs.{Fs, MapFile}
use cs130_25spring_project.Fs.Laws.{IsValid}
use cs130_25spring_project.FreeMap.{save, confirm, free_map_allocate}
use cs130_25spring_project.FreeMap.Save.{Remapped, remap, save-Remapped}

-- What `free_map_allocate` returns: the first group of free sectors, now in use, if the map with it
-- was written to the file of the map or that file is not open; or nothing, with every bit of the map
-- as it was. It returns nothing only if there is no group of free sectors, or if the map with the
-- first group taken could not be written to its file.
pub data Allocated (file : MapFile) (fs : Fs) (cnt : ℕ) (fs' : Fs) : Option ℕ → Type 0 where
  allocated :
      (s : ℕ)
      → s + cnt ≤ fs.free_map.bit_cnt
      → Group fs.free_map s cnt false
      → ((i : ℕ) → i < s → ¬ (Group fs.free_map i cnt false))
      → Remapped file fs (λ j. if in_range s cnt j then true else at fs.free_map j) fs'
      → (fs.free_map_open ≡ true → file.bitmap_write fs.cache fs'.free_map ≡ some (fs'.cache, true))
      → Allocated file fs cnt fs' (some s)
  no_group :
      ((i : ℕ) → i + cnt ≤ fs.free_map.bit_cnt → ¬ (Group fs.free_map i cnt false))
      → fs' ≡ fs
      → Allocated file fs cnt fs' none
  unwritten :
      (s : ℕ) (map : Bitmap) (st : Cache.State)
      → s + cnt ≤ fs.free_map.bit_cnt
      → Group fs.free_map s cnt false
      → ((i : ℕ) → i < s → ¬ (Group fs.free_map i cnt false))
      → Holds fs.free_map (λ j. if in_range s cnt j then true else at fs.free_map j) map
      → fs.free_map_open ≡ true
      → file.bitmap_write fs.cache map ≡ some (st, false)
      → Remapped file fs (at fs.free_map) fs'
      → Allocated file fs cnt fs' none

-- The bits of a group are free: taking and giving them back restores the map.
give_back :
    (b : Bitmap) (s cnt : ℕ)
    → Group b s cnt false
    → (j : ℕ)
    → (if in_range s cnt j then false else (if in_range s cnt j then true else at b j)) ≡ at b j
give_back b s cnt g j = ground (arith, g j)

module _ (file : MapFile) (fs : Fs) (cnt : ℕ) (v : IsValid fs) where
  module _ (s : ℕ) (map : Bitmap) (inside : s + cnt ≤ fs.free_map.bit_cnt)
      (group : Group fs.free_map s cnt false)
      (first : (i : ℕ) → i < s → ¬ (Group fs.free_map i cnt false))
      (held : Holds fs.free_map
        (λ j. if in_range s cnt j then true else at fs.free_map j)
        map) where
    abbrev fs₁ : Fs
    fs₁ = record fs { free_map = map }

    step₁ : Remapped file fs (λ j. if in_range s cnt j then true else at fs.free_map j) fs₁
    step₁ = remap file fs v held

    -- The map could not be written: the bits are cleared again.
    confirm_failed :
        (fs₂ : Fs)
        → save file fs₁ ≡ some (fs₂, false)
        → Remapped file fs₁ (at map) fs₂
        → fs₂.free_map ≡ map
        → fs.free_map_open ≡ true
        → file.bitmap_write fs.cache map ≡ some (fs₂.cache, false)
        → (fs' : Fs) × (r : Option ℕ) × (confirm file fs₁ s cnt ≡ some (fs', r))
          × Allocated file fs cnt fs' r
    unfolding confirm
    confirm_failed fs₂ e r same open_map written =
        let (map₃, e₃, held₃) =
          bitmap_set_multiple-Holds {b = fs₂.free_map} s cnt false r.valid.map
            (omega (arith, r.size, held.size)) in
        let back = remap file fs₂ r.valid held₃ in
        (
          record fs₂ { free_map = map₃ },
          none,
          ground (arith, e, e₃, open_map),
          unwritten s map fs₂.cache inside group first held open_map written (record {
            valid = back.valid;
            size = back.size ∙ r.size ∙ held.size;
            opened = back.opened ∙ r.opened;
            bits = λ j. ground (
              arith,
              held₃.bits j,
              ap (λ b. at b j) same,
              held.bits j,
              give_back fs.free_map s cnt group j,
            );
            sectors = λ t own. r.sectors t own;
          }),
        )

    confirm_done :
        (fs₂ : Fs)
        → save file fs₁ ≡ some (fs₂, true)
        → Remapped file fs₁ (at map) fs₂
        → fs₂.free_map ≡ map
        → fs.free_map_open ≡ true
        → file.bitmap_write fs.cache map ≡ some (fs₂.cache, true)
        → (fs' : Fs) × (r : Option ℕ) × (confirm file fs₁ s cnt ≡ some (fs', r))
          × Allocated file fs cnt fs' r
    unfolding confirm
    confirm_done fs₂ e r same open_map written = (
      fs₂,
      some s,
      ground (arith, e, open_map),
      allocated s inside group first
          (record {
            valid = r.valid;
            size = r.size ∙ held.size;
            opened = r.opened;
            bits = λ j. r.bits j ∙ held.bits j;
            sectors = r.sectors;
          })
          (λ o. ap (file.bitmap_write fs.cache) same ∙ written),
    )

    confirm-Allocated :
        (fs' : Fs) × (r : Option ℕ) × (confirm file fs₁ s cnt ≡ some (fs', r))
        × Allocated file fs cnt fs' r
    unfolding confirm
    confirm-Allocated = elim (Bool-cases fs.free_map_open) [
      | inl o ↦ go o (save-Remapped file fs₁ step₁.valid)
      | inr c ↦ (
        fs₁,
        some s,
        rw c,
        allocated s inside group first step₁ (λ o. absurd (ground (arith, o, c))),
      )
    ]
      where
        go :
            fs.free_map_open ≡ true
            → (fs₂ : Fs) × (done : Bool) × (save file fs₁ ≡ some (fs₂, done))
              × Remapped file fs₁ (at map) fs₂
              × (fs₂.free_map ≡ map)
              × (file.bitmap_write fs.cache map ≡ some (fs₂.cache, done))
            → (fs' : Fs) × (r : Option ℕ) × (confirm file fs₁ s cnt ≡ some (fs', r))
              × Allocated file fs cnt fs' r
        go o (fs₂, true, e, r, same, w) = confirm_done fs₂ e r same o w
        go o (fs₂, false, e, r, same, w) = confirm_failed fs₂ e r same o w

  -- `free_map_allocate` on a valid state does not panic. It takes the first group of `cnt`
  -- free sectors, and then the map with the group was written to its file, if that is open; or, when
  -- there is no such group or the map with the first one taken could not be written, it takes none
  -- and leaves every bit as it was. It changes no sector outside the file of the map.
  pub free_map_allocate-Allocated :
      (fs' : Fs) × (r : Option ℕ) × (free_map_allocate file fs cnt ≡ some (fs', r))
      × Allocated file fs cnt fs' r
  unfolding free_map_allocate
  free_map_allocate-Allocated = go (bitmap_scan_and_flip-Taken 0 cnt false v.map (omega arith))
    where
      finish :
          (map : Bitmap) (s : ℕ)
          → bitmap_scan_and_flip fs.free_map 0 cnt false ≡ some (map, s)
          → (s == bitmap_error) ≡ false
          → (fs' : Fs) × (r : Option ℕ) × (confirm file (record fs { free_map = map }) s cnt
              ≡ some (fs', r))
            × Allocated file fs cnt fs' r
          → (fs' : Fs) × (r : Option ℕ) × (free_map_allocate file fs cnt ≡ some (fs', r))
            × Allocated file fs cnt fs' r
      finish map s e real (fs', r, e', a) = (fs', r, rw (e, real) e', a)

      go :
          (map : Bitmap) × (s : ℕ) × (bitmap_scan_and_flip fs.free_map 0 cnt false ≡ some (map, s))
            × Taken fs.free_map 0 cnt false map s
          → (fs' : Fs) × (r : Option ℕ) × (free_map_allocate file fs cnt ≡ some (fs', r))
            × Allocated file fs cnt fs' r
      go (map, s, e, full eb es none_free) = (
        record fs { free_map = map },
        none,
        rw (e, eq→== es),
        no_group (λ i. none_free i (omega arith)) (rw eb refl),
      )
      go (map, s, e, taken p q g first held) =
          finish map s e (ne→== (omega (arith, v.map.small)))
            (confirm-Allocated s map q g (λ i h. first i (omega arith) h) held)
