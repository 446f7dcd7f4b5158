-- ===== src/FreeMap/Save.antt =====
-- Changes of the free map, and its save to its file.
use cs130_25spring_project.Common.{ℕ, ◌≡◌, refl, ◌∙◌, Bool, false, some, arith}
use cs130_25spring_project.Bitmap.{Bitmap}
use cs130_25spring_project.Bitmap.View.{at, Holds}
use cs130_25spring_project.Fs.{Fs, fs_device, MapFile}
use cs130_25spring_project.Fs.Laws.{IsValid, sector}
use cs130_25spring_project.FreeMap.{save}

-- `fs'` is valid with the map bits `f` on a map of the same size; no sector outside the free map's
-- file has changed.
pub record Remapped (file : MapFile) (fs : Fs) (f : ℕ → Bool) (fs' : Fs) : Type 0 where
  pub valid : IsValid fs'
  pub size : fs'.free_map.bit_cnt ≡ fs.free_map.bit_cnt
  pub opened : fs'.free_map_open ≡ fs.free_map_open
  pub bits : (j : ℕ) → at fs'.free_map j ≡ f j
  pub sectors : (s : ℕ) → file.owns s ≡ false → sector fs' s ≡ sector fs s

-- A change of the map alone.
pub remap :
    (file : MapFile) (fs : Fs) {f : ℕ → Bool} {map : Bitmap}
    → IsValid fs
    → Holds fs.free_map f map
    → Remapped file fs f (record fs { free_map = map })
remap file fs v h = record {
  valid = record {
    cache = v.cache;
    map = h.valid;
    room = omega (arith, v.room, h.size);
    size32 = v.size32;
    writable = v.writable;
  };
  size = h.size;
  opened = refl;
  bits = h.bits;
  sectors = λ s own. refl;
}

Remapped-trans :
    (file : MapFile) {fs fs' fs'' : Fs} {f g : ℕ → Bool}
    → Remapped file fs f fs'
    → Remapped file fs' g fs''
    → Remapped file fs g fs''
Remapped-trans file a b = record {
  valid = b.valid;
  size = b.size ∙ a.size;
  opened = b.opened ∙ a.opened;
  bits = b.bits;
  sectors = λ s own. b.sectors s own ∙ a.sectors s own;
}

module _ (file : MapFile) where
  pub save-Remapped :
      (fs : Fs)
      → IsValid fs
      → (fs' : Fs) × (done : Bool) × (save file fs ≡ some (fs', done))
        × Remapped file fs (at fs.free_map) fs'
        × (fs'.free_map ≡ fs.free_map)
        × (file.bitmap_write fs.cache fs.free_map ≡ some (fs'.cache, done))
  unfolding save
  save-Remapped fs v =
      let (st, done, e, valid, kept, sizes, foreign) =
        file.bitmap_write-keeps fs.cache fs.free_map v.cache in
      (
        record fs { cache = st },
        done,
        rw e,
        record {
          valid = record {
            cache = valid;
            map = v.map;
            room = omega (arith, v.room, sizes fs_device);
            size32 = omega (arith, v.size32, sizes fs_device);
            writable = foreign fs_device ∙ v.writable;
          };
          size = refl;
          opened = refl;
          bits = λ j. refl;
          sectors = kept;
        },
        refl,
        e,
      )
