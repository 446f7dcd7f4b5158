-- ===== src/Inode/Whole.antt =====
-- A file whose blocks are whole sectors, and reading ahead in it.
use cs130_25spring_project.Common.{
  ℕ, ◌+◌, ◌*◌, ◌/◌, ◌<◌, ◌≡◌, ap, inl, inr, some, List, [], ◌∷◌, ◌++◌, ◌==◌, length, Bool-cases,
}
use cs130_25spring_project.Block.{block_sector_none}
use cs130_25spring_project.Fs.{Fs}
use cs130_25spring_project.Fs.Laws.{IsValid, sector, Same, Same-sector}
use cs130_25spring_project.Inode.{InodeDisk, byte_to_sector_unlocked, read_ahead}
use cs130_25spring_project.Inode.Index.{block_of}
use cs130_25spring_project.Inode.Lookup.{IsIndex}
use cs130_25spring_project.Inode.Sector.{byte_to_sector_unlocked-block_of}

-- The index is sound, and every block of the file is a whole sector that it really has.
pub record IsFile (S : ℕ → List ℕ) (n : ℕ) (d : InodeDisk) : Type 0 where
  pub index : IsIndex S n d
  pub held : (k : ℕ) → k * 512 < d.length → block_of S d k < n
  pub whole : (k : ℕ) → k * 512 < d.length → length (S (block_of S d k)) ≡ 512

module _ (d : InodeDisk) where
  -- A round of the loop that leaves what the device shows as it is.
  pub read_ahead-Same :
      (fs : Fs) (offset : ℕ)
      → IsValid fs
      → IsIndex (sector fs) fs.free_map.bit_cnt d
      → (fs' : Fs) × (read_ahead fs d offset ≡ some fs') × Same fs fs'
  unfolding read_ahead
  read_ahead-Same fs offset v ix = join (byte_to_sector_unlocked-block_of fs d (offset + 512) v ix)
    where
      next : ℕ
      next = block_of (sector fs) d ((offset + 512) / 512)

      join :
          (fs' : Fs) × (byte_to_sector_unlocked fs d (offset + 512) ≡ some (fs', next))
            × Same fs fs'
          → (fs' : Fs) × (read_ahead fs d offset ≡ some fs') × Same fs fs'
      join (fs', e, same) = elim (Bool-cases (next == block_sector_none)) [
        | inl out ↦ (fs', rw (e, out), same)
        | inr real ↦ (
          record fs' { read_ahead_list = fs'.read_ahead_list ++ (next ∷ []) },
          rw (e, real),
          record {
            valid = record {
              cache = same.valid.cache;
              map = same.valid.map;
              room = same.valid.room;
              size32 = same.valid.size32;
              writable = same.valid.writable;
            };
            map = same.map;
            opened = same.opened;
            sectors = same.sectors;
          },
        )
      ]

pub Same-IsFile :
    {fs fs' : Fs} {d : InodeDisk}
    → Same fs fs'
    → IsFile (sector fs) fs.free_map.bit_cnt d
    → IsFile (sector fs') fs'.free_map.bit_cnt d
Same-IsFile {d = d} same f = rw (Same-sector same, ap (λ m. m.bit_cnt) same.map) f
