-- ===== src/File/Laws.antt =====
-- Reads in a row, and the denial of writes.
use cs130_25spring_project.Common.{
  ℕ, ◌+◌, ◌-◌, ◌<◌, ◌≡◌, refl, sym, ap, ◌∙◌, true, false, some, List, ◌++◌, arith, ltb, leb, min,
  lt→ltb, le→leb,
}
use cs130_25spring_project.Fs.{Fs}
use cs130_25spring_project.Fs.Laws.{IsValid, sector, Same, Same-sector}
use cs130_25spring_project.Inode.{Inode}
use cs130_25spring_project.Inode.File.{file_bytes, file_bytes-add, length-file_bytes}
use cs130_25spring_project.Inode.Whole.{IsFile, Same-IsFile}
use cs130_25spring_project.Inode.Read.{inode_read_at-bytes}
use cs130_25spring_project.Inode.Write.{inode_deny_write, inode_allow_write}
use cs130_25spring_project.Inode.Open.{Opened, find_open, assign}
use cs130_25spring_project.Inode.Reopen.{find_open-sector, find_open-assign, assign-assign}
use cs130_25spring_project.Inode.FileCnt.{inode_is_dir}
use cs130_25spring_project.File.{File, file_read, file_deny_write, file_allow_write}

-- A read returns the bytes at the position, and moves it past them.
file_read-bytes :
    (o : Opened) (file : File) (size : ℕ) (i : Inode)
    → IsValid o.fs
    → IsFile (sector o.fs) o.fs.free_map.bit_cnt i.content
    → find_open o.open_inodes file.inode ≡ some i
    → inode_is_dir i ≡ false
    → (fs' : Fs) × (file_read o file size
        ≡ some (
          record o { fs = fs' },
          record file { pos = file.pos + min size (i.content.length - file.pos) },
          some (
              file_bytes (sector o.fs) i.content file.pos (min size (i.content.length - file.pos))),
        ))
      × Same o.fs fs'
unfolding file_read
file_read-bytes o file size i v f e plain =
    let (fs', e', same) = inode_read_at-bytes o.fs i size file.pos v f in
    let bytes =
      file_bytes (sector o.fs) i.content file.pos (min size (i.content.length - file.pos)) in
    (
      fs',
      rw (e, plain, e')
          (ap (λ n. some (record o { fs = fs' }, record file { pos = file.pos + n }, some bytes))
            (length-file_bytes (sector o.fs) i.content file.pos
              (min size (i.content.length - file.pos)))),
      same,
    )

-- On a valid device, of a well-formed file that is open and no directory, two reads in a row return
-- together what one read of both sizes returns, and leave the file at the same position.
pub file_read-add :
    (o : Opened) (file : File) (m n : ℕ) (i : Inode)
    → IsValid o.fs
    → IsFile (sector o.fs) o.fs.free_map.bit_cnt i.content
    → find_open o.open_inodes file.inode ≡ some i
    → inode_is_dir i ≡ false
    → (o₁ o₂ o' : Opened) × (file₁ file₂ : File) × (first second : List ℕ) × (file_read o file m
        ≡ some (o₁, file₁, some first))
      × (file_read o₁ file₁ n ≡ some (o₂, file₂, some second))
      × (file_read o file (m + n) ≡ some (o', file₂, some (first ++ second)))
file_read-add o file m n i v f e plain =
    let L = i.content.length - file.pos in
    let (fs₁, e₁, same) = file_read-bytes o file m i v f e plain in
    let file₁ : File = record file { pos = file.pos + min m L } in
    let (fs₂, e₂, same') =
      file_read-bytes (record o { fs = fs₁ }) file₁ n i same.valid (Same-IsFile same f) e plain in
    let (fs', e', all) = file_read-bytes o file (m + n) i v f e plain in
    let k = min n (i.content.length - (file.pos + min m L)) in
    let total : min (m + n) L ≡ min m L + k = omega arith in
    let place : file.pos + min (m + n) L ≡ file.pos + min m L + k = omega arith in
    (
      record o { fs = fs₁ },
      record o { fs = fs₂ },
      record o { fs = fs' },
      file₁,
      record file { pos = file.pos + min m L + k },
      file_bytes (sector o.fs) i.content file.pos (min m L),
      file_bytes (sector fs₁) i.content (file.pos + min m L) k,
      e₁,
      e₂,
      e'
          ∙ ap
              (λ p. some (
                record o { fs = fs' },
                record file { pos = p },
                some (file_bytes (sector o.fs) i.content file.pos (min (m + n) L)),
              ))
              place
          ∙ ap
              (λ l.
                some (record o { fs = fs' }, record file { pos = file.pos + min m L + k }, some l))
              (ap (file_bytes (sector o.fs) i.content file.pos) total
                ∙ file_bytes-add (sector o.fs) i.content file.pos (min m L) k
                ∙ ap
                    (λ S.
                      file_bytes (sector o.fs) i.content file.pos (min m L)
                      ++ file_bytes S i.content (file.pos + min m L) k)
                    (sym (Same-sector same))),
    )

-- A file that denies writes once and allows them again leaves the inode and itself as they were, if
-- fewer files deny writes than have the inode open.
pub file_allow_write-file_deny_write :
    (o : Opened) (file : File) (i : Inode)
    → find_open o.open_inodes file.inode ≡ some i
    → file.deny_write ≡ false
    → i.deny_write_cnt < i.open_cnt
    → (o' : Opened) × (file' : File) × (file_deny_write o file ≡ some (o', file'))
      × (file_allow_write o' file' ≡ some (o, file))
unfolding file_deny_write file_allow_write inode_deny_write inode_allow_write
file_allow_write-file_deny_write o file i e allowed h =
    let to : Inode = record i { deny_write_cnt = i.deny_write_cnt + 1 } in
    let at_s = find_open-sector o.open_inodes file.inode i e in
    let again = find_open-assign o.open_inodes file.inode i to e at_s in
    let back = assign-assign o.open_inodes file.inode i to e at_s in
    let fits : leb (i.deny_write_cnt + 1) i.open_cnt ≡ true = le→leb (omega arith) in
    let denied : ltb 0 (i.deny_write_cnt + 1) ≡ true = lt→ltb (omega arith) in
    let cnt : i.deny_write_cnt + 1 - 1 ≡ i.deny_write_cnt = omega arith in
    (
      record o { open_inodes = assign o.open_inodes file.inode to },
      record file { deny_write = true },
      rw (allowed, e, fits) refl,
      rw (again, denied, fits)
          (ap
              (λ k. some (
                record o {
                  open_inodes =
                      assign (assign o.open_inodes file.inode to) file.inode
                        (record i { deny_write_cnt = k });
                },
                record file { deny_write = false },
              ))
              cnt
            ∙ ap (λ l. some (record o { open_inodes = l }, record file { deny_write = false })) back
            ∙ ap (λ b. some (o, record file { deny_write = b })) (sym allowed)),
    )
