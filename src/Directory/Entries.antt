-- ===== src/Directory/Entries.antt =====
-- The entries of a directory after one of them is written.
use cs130_25spring_project.Common.{
  ℕ, ◌+◌, ◌-◌, ◌*◌, ◌^◌, ◌≤◌, ◌<◌, ◌≡◌, ◌≢◌, sym, ap, ◌∙◌, true, false, List, arith, if◌then◌else◌,
  length, get_or, dec_lt,
}
use cs130_25spring_project.Bitmap.Range.{in_range}
use cs130_25spring_project.Inode.{InodeDisk}
use cs130_25spring_project.Inode.File.{byte_at, file_bytes}
use cs130_25spring_project.Inode.Written.{Written}
use cs130_25spring_project.Inode.Roundtrip.{file_bytes-eq}
use cs130_25spring_project.Inode.FileCnt.{updated}
use cs130_25spring_project.Directory.{DirEntry, name_max, entry_size, entry_bytes, entry_of}
use cs130_25spring_project.Directory.Lookup.{entry_at}
use cs130_25spring_project.Directory.Outside.{
  IsOutside, outside-byte_at, updated-byte_at, file_bytes-same,
}
use cs130_25spring_project.Directory.Named.{length-entry_bytes, entry_of-entry_bytes}

-- The entries after a write of `e` at entry `k` and an update of the count.
module _ (S S₁ S₂ : ℕ → List ℕ) (d : InodeDisk) (delta t k : ℕ) (e : DirEntry)
    (full : length e.name ≡ name_max + 1) (word : e.inode_sector < 2 ^ 32)
    (inside : entry_size * k + entry_size ≤ d.length)
    (w : Written S d (entry_bytes e) (entry_size * k) S₁) (out : IsOutside S₁ d t)
    (same : (u : ℕ) → t ≢ u → S₂ u ≡ S₁ u) where
  abbrev after : InodeDisk
  after = updated d delta

  byte_after : (x : ℕ) → x < d.length → byte_at S₂ after x ≡ byte_at S₁ d x
  byte_after x h = updated-byte_at S₂ d delta x ∙ outside-byte_at S₁ S₂ d t out same x h

  written :
      (i : ℕ) → i < entry_size → byte_at S₁ d (entry_size * k + i) ≡ get_or (entry_bytes e) i 0
  written i h =
      let x = entry_size * k + i in
      let hit : in_range (entry_size * k) (length (entry_bytes e)) x ≡ true =
        ground (arith, length-entry_bytes e full, h) in
      w.bytes x (omega (arith, inside, h))
      ∙ ap (λ b. if b then get_or (entry_bytes e) (x - entry_size * k) 0 else byte_at S d x) hit
      ∙ ap (λ n. get_or (entry_bytes e) n 0) {x = x - entry_size * k} {y = i} (omega arith)

  left :
      (j : ℕ)
      → j ≢ k
      → entry_size * j + entry_size ≤ d.length
      → (i : ℕ) → i < entry_size
      → byte_at S₁ d (entry_size * j + i) ≡ byte_at S d (entry_size * j + i)
  left j ne fits i h =
      let x = entry_size * j + i in
      let miss : in_range (entry_size * k) (length (entry_bytes e)) x ≡ false = elim (dec_lt j k) [
        | yes p ↦ ground (arith, p, h)
        | no p ↦ ground (arith, apart_lt j ne p, length-entry_bytes e full)
      ] in
      w.bytes x (omega (arith, fits, h))
      ∙ ap (λ b. if b then get_or (entry_bytes e) (x - entry_size * k) 0 else byte_at S d x) miss
    where
      apart_lt : (j : ℕ) → j ≢ k → (¬ j < k) → k < j
      apart_lt j ne p = omega (arith, ne, p)

  pub entry-here : entry_at S₂ after k ≡ e
  entry-here =
      ap entry_of (
        ap (file_bytes S₂ after (entry_size * k)) (sym (length-entry_bytes e full))
        ∙ file_bytes-eq S₂ after (entry_bytes e) (entry_size * k) (λ i h.
          byte_after (entry_size * k + i) (omega (arith, inside, h, length-entry_bytes e full))
          ∙ written i (omega (arith, h, length-entry_bytes e full))))
      ∙ entry_of-entry_bytes e full word

  pub entry-there :
      (j : ℕ)
      → j ≢ k
      → entry_size * j + entry_size ≤ d.length
      → entry_at S₂ after j ≡ entry_at S d j
  entry-there j ne fits = ap entry_of (
      file_bytes-same S S₂ d after (entry_size * j) entry_size
        (λ i h. byte_after (entry_size * j + i) (omega (arith, fits, h)) ∙ left j ne fits i h))
