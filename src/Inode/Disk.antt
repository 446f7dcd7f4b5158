-- ===== src/Inode/Disk.antt =====
-- `struct inode_disk` as the 512 bytes of its sector: seventeen words and the bytes not used.
use cs130_25spring_project.Common.{
  ℕ, ◌≡◌, refl, ap, ◌∙◌, List, [], ◌∷◌, ◌++◌, arith, length, get_or, take, drop, length-append,
}
use cs130_25spring_project.Common.Words.{encode, decode, AllWords, decode-encode, length-encode}
use cs130_25spring_project.Common.Bytes.{take-append, drop-append}
use cs130_25spring_project.Inode.{InodeDisk}
use cs130_25spring_project.Inode.Index.{get_or-append_right}

unfoldable pub words : InodeDisk → List ℕ
words d =
    d.is_dir
    ∷ d.file_cnt
    ∷ d.length
    ∷ d.parent
    ∷ (d.direct ++ (d.indirect ∷ d.doubly_indirect ∷ d.magic ∷ []))

pub disk_bytes : InodeDisk → List ℕ
unfolding words
disk_bytes d = encode (words d) ++ d.unused

of_words : List ℕ → List ℕ → InodeDisk
of_words ws rest = record {
  is_dir = get_or ws 0 0;
  file_cnt = get_or ws 1 0;
  length = get_or ws 2 0;
  parent = get_or ws 3 0;
  direct = take 10 (drop 4 ws);
  indirect = get_or ws 14 0;
  doubly_indirect = get_or ws 15 0;
  magic = get_or ws 16 0;
  unused = rest;
}

pub disk_of : List ℕ → InodeDisk
unfolding of_words
disk_of bytes = of_words (decode 17 bytes) (drop 68 bytes)

-- The structure fills its sector: ten direct pointers, words of 32 bits, and the bytes not used.
pub record IsDisk (d : InodeDisk) : Type 0 where
  pub direct : length d.direct ≡ 10
  pub words : AllWords (words d)
  pub unused : length d.unused ≡ 444

length-words : (d : InodeDisk) → length d.direct ≡ 10 → length (words d) ≡ 17
unfolding words
length-words d h =
    omega (arith, h, length-append {0} d.direct (d.indirect ∷ d.doubly_indirect ∷ d.magic ∷ []))

of_words-words : (d : InodeDisk) → length d.direct ≡ 10 → of_words (words d) d.unused ≡ d
unfolding of_words words
of_words-words d h =
    let last = d.indirect ∷ d.doubly_indirect ∷ d.magic ∷ [] in
    let ten : 10 ≡ length d.direct = omega arith in
    rw
      (
        take-append 10 d.direct last ten,
        get_or-append_right d.direct last 10 0 0 (omega arith),
        get_or-append_right d.direct last 11 1 0 (omega arith),
        get_or-append_right d.direct last 12 2 0 (omega arith),
      )
      refl

-- The structure that is written to a sector is read back as it was, and its bytes fill the sector.
pub disk_of-disk_bytes :
    (d : InodeDisk) → IsDisk d → (disk_of (disk_bytes d) ≡ d) × (length (disk_bytes d) ≡ 512)
unfolding disk_of disk_bytes
disk_of-disk_bytes d v =
    let n : 17 ≡ length (words d) = omega (arith, length-words d v.direct) in
    (
      ap (λ ws. of_words ws (drop 68 (encode (words d) ++ d.unused)))
            (decode-encode 17 (words d) d.unused n v.words)
          ∙ ap (λ r. of_words (words d) r)
              (drop-append 68 (encode (words d)) d.unused (omega (arith, length-encode (words d))))
          ∙ of_words-words d v.direct,
      omega
          (arith, v.unused, length-encode (words d), length-append {0} (encode (words d)) d.unused),
    )
