-- ===== src/FreeMap/Release.antt =====
-- Release gives sectors back.
use cs130_25spring_project.Common.{
  ℕ, ◌+◌, ◌≤◌, ◌<◌, ◌≡◌, ap, ◌∙◌, Bool, true, false, some, arith, if◌then◌else◌,
}
use cs130_25spring_project.Bitmap.{Bitmap, bitmap_set_multiple, bitmap_all}
use cs130_25spring_project.Bitmap.View.{at, Holds}
use cs130_25spring_project.Bitmap.Range.{in_range, bitmap_set_multiple-Holds}
use cs130_25spring_project.Bitmap.All.{bitmap_all-lem}
use cs130_25spring_project.Bitmap.Scan.{Group}
use cs130_25spring_project.Fs.{Fs, MapFile}
use cs130_25spring_project.Fs.Laws.{IsValid}
use cs130_25spring_project.FreeMap.{save, free_map_release}
use cs130_25spring_project.FreeMap.Save.{Remapped, remap, save-Remapped}

module _ (file : MapFile) (fs : Fs) (cnt : ℕ) (v : IsValid fs) where
  -- On a valid state whose map file is open, `free_map_release` of sectors of the map that are all in
  -- use does not panic: it clears their bits and no other, and changes no sector outside the file of
  -- the map.
  pub free_map_release-Remapped :
      (s : ℕ)
      → s + cnt ≤ fs.free_map.bit_cnt
      → Group fs.free_map s cnt true
      → fs.free_map_open ≡ true
      → (fs' : Fs) × (free_map_release file fs s cnt ≡ some fs')
        × Remapped file fs (λ j. if in_range s cnt j then false else at fs.free_map j) fs'
  unfolding free_map_release
  free_map_release-Remapped s inside used o =
      go (bitmap_set_multiple-Holds s cnt false v.map inside) (bitmap_all-lem s cnt v.map inside)
    where
      saved :
          (map : Bitmap)
          → (fs₂ : Fs) × (done : Bool) × (save file (record fs { free_map = map })
              ≡ some (fs₂, done))
            × Remapped file (record fs { free_map = map }) (at map) fs₂
            × (fs₂.free_map ≡ map)
            × (file.bitmap_write fs.cache map ≡ some (fs₂.cache, done))
          → bitmap_all fs.free_map s cnt ≡ some true
          → bitmap_set_multiple fs.free_map s cnt false ≡ some map
          → Holds fs.free_map (λ j. if in_range s cnt j then false else at fs.free_map j) map
          → (fs' : Fs) × (free_map_release file fs s cnt ≡ some fs')
            × Remapped file fs (λ j. if in_range s cnt j then false else at fs.free_map j) fs'
      saved map (fs₂, done, e, r, same, w) all em held = (
        fs₂,
        ground (arith, all, em, e, o),
        record {
          valid = r.valid;
          size = r.size ∙ held.size;
          opened = r.opened;
          bits = λ j. r.bits j ∙ held.bits j;
          sectors = r.sectors;
        },
      )

      go :
          (map : Bitmap) × (bitmap_set_multiple fs.free_map s cnt false ≡ some map)
            × Holds fs.free_map (λ j. if in_range s cnt j then false else at fs.free_map j) map
          → (r : Bool) × (bitmap_all fs.free_map s cnt ≡ some r)
            × (r ≡ true → (k : ℕ) → s ≤ k → k < s + cnt → at fs.free_map k ≡ true)
            × (((k : ℕ) → s ≤ k → k < s + cnt → at fs.free_map k ≡ true) → r ≡ true)
          → (fs' : Fs) × (free_map_release file fs s cnt ≡ some fs')
            × Remapped file fs (λ j. if in_range s cnt j then false else at fs.free_map j) fs'
      go (map, em, held) (r, ea, sound, complete) =
          saved map (save-Remapped file (record fs { free_map = map }) (remap file fs v held).valid)
            (ea ∙ ap some (complete used)) em held
