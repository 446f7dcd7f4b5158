-- ===== src/Inode/Roundtrip.antt =====
-- Writes that do not grow the file, and reads after them.
use cs130_25spring_project.Common.{
  ℕ, suc, ◌+◌, ◌-◌, ◌≤◌, ◌<◌, ◌≡◌, refl, ap, ◌∙◌, false, some, List, [], ◌∷◌, arith, ltb,
  if◌then◌else◌, length, get_or, min, ne→==, eq→==, ge→ltb,
}
use mathlib.Core.Path.{ap₂}
use cs130_25spring_project.Bitmap.Range.{in_range}
use cs130_25spring_project.Fs.{Fs, MapFile}
use cs130_25spring_project.Fs.Laws.{IsValid, sector}
use cs130_25spring_project.Inode.{InodeDisk, Inode, inode_read_at}
use cs130_25spring_project.Inode.File.{byte_at, file_bytes}
use cs130_25spring_project.Inode.Whole.{IsFile}
use cs130_25spring_project.Inode.Read.{inode_read_at-bytes}
use cs130_25spring_project.Inode.Write.{inode_write_at}
use cs130_25spring_project.Inode.Written.{IsApart, Written}
use cs130_25spring_project.Inode.Store.{write_rounds-Stored}

-- A write inside a file that may be written always returns, with a round of its loop for each byte
-- at most. It writes the whole buffer at `offset`, changes no other byte of the file and no sector
-- that holds none of its bytes, and keeps the inode and the free map; the file stays well formed.
-- No two blocks of the file
-- may share a sector, and none may be a table of its index.
pub inode_write_at-Written :
    (file : MapFile) (fs : Fs) (inode : Inode) (buffer : List ℕ) (offset : ℕ)
    → IsValid fs
    → IsFile (sector fs) fs.free_map.bit_cnt inode.content
    → IsApart (sector fs) inode.content
    → inode.deny_write_cnt ≡ 0
    → offset + length buffer ≤ inode.content.length
    → (fs' : Fs) × (inode_write_at file fs inode buffer offset ≡ some (fs', inode, length buffer))
      × IsValid fs'
      × (fs'.free_map ≡ fs.free_map)
      × IsFile (sector fs') fs'.free_map.bit_cnt inode.content
      × Written (sector fs) inode.content buffer offset (sector fs')
unfolding inode_write_at
inode_write_at-Written file fs inode buffer offset v f a allowed inside =
    let (fs', e, v', map, f', written) =
      write_rounds-Stored inode.content (length buffer) fs buffer offset 0 (omega arith) inside v f
        a in
    let stays : ltb inode.content.length (offset + length buffer) ≡ false = ge→ltb inside in
    let count : 0 + length buffer ≡ length buffer = omega arith in
    (fs', rw (eq→== allowed, stays, e) (ap (λ k. some (fs', inode, k)) count), v', map, f', written)

-- A write to a file that denies writes writes nothing, whatever it would write.
pub inode_write_at-denied :
    (file : MapFile) (fs : Fs) (inode : Inode) (buffer : List ℕ) (offset : ℕ)
    → 0 < inode.deny_write_cnt
    → inode_write_at file fs inode buffer offset ≡ some (fs, inode, 0)
unfolding inode_write_at
inode_write_at-denied file fs inode buffer offset h =
    rw (ne→== {m = inode.deny_write_cnt} {n = 0} (omega arith)) refl

pub file_bytes-eq :
    (S : ℕ → List ℕ) (d : InodeDisk) (l : List ℕ) (offset : ℕ)
    → ((i : ℕ) → i < length l → byte_at S d (offset + i) ≡ get_or l i 0)
    → file_bytes S d offset (length l) ≡ l
unfolding file_bytes
file_bytes-eq S d [] offset h = refl
file_bytes-eq S d (x ∷ l) offset h =
    let first : offset ≡ offset + 0 = omega arith in
    ap₂ ◌∷◌ (ap (byte_at S d) first ∙ h 0 (omega arith)) (
      file_bytes-eq S d l (offset + 1) (λ i hi.
        ap (byte_at S d) {x = offset + 1 + i} {y = offset + suc i} (omega arith)
        ∙ h (suc i) (omega arith)))

-- What was written inside a file that may be written is what a read of as many bytes at the same
-- offset returns. No two blocks of the file may share a sector, and none may be a table of its
-- index.
pub inode_read_at-inode_write_at :
    (file : MapFile) (fs : Fs) (inode : Inode) (buffer : List ℕ) (offset : ℕ)
    → IsValid fs
    → IsFile (sector fs) fs.free_map.bit_cnt inode.content
    → IsApart (sector fs) inode.content
    → inode.deny_write_cnt ≡ 0
    → offset + length buffer ≤ inode.content.length
    → (fs' : Fs) × (fs'' : Fs) × (inode_write_at file fs inode buffer offset
        ≡ some (fs', inode, length buffer))
      × (inode_read_at fs' inode (length buffer) offset ≡ some (fs'', buffer))
inode_read_at-inode_write_at file fs inode buffer offset v f a allowed inside =
    let (fs', e, v', map, f', written) =
      inode_write_at-Written file fs inode buffer offset v f a allowed inside in
    let (fs'', e', same) = inode_read_at-bytes fs' inode (length buffer) offset v' f' in
    let all : min (length buffer) (inode.content.length - offset) ≡ length buffer = omega arith in
    let back =
      file_bytes-eq (sector fs') inode.content buffer offset
        (λ i hi. written.bytes (offset + i) (omega arith) ∙ read_byte i hi) in
    (
      fs',
      fs'',
      e,
      e'
          ∙ ap (λ n. some (fs'', file_bytes (sector fs') inode.content offset n)) all
          ∙ ap (λ l. some (fs'', l)) back,
    )
  where
    read_byte :
        (i : ℕ)
        → i < length buffer
        → (if in_range offset (length buffer) (offset + i)
            then get_or buffer (offset + i - offset) 0
            else byte_at (sector fs) inode.content (offset + i))
          ≡ get_or buffer i 0
    read_byte i hi =
        ground (arith, ap (λ k. get_or buffer k 0) {x = offset + i - offset} {y = i} (omega arith))
