-- ===== src/Inode/File.antt =====
-- The bytes of a file as one array over its blocks, and the part of it in one sector.
use cs130_25spring_project.Common.{
  ℕ, zero, suc, ◌+◌, ◌/◌, ◌%◌, ◌≤◌, ◌<◌, ◌≡◌, refl, sym, ap, ◌∙◌, List, [], ◌∷◌, ◌++◌, arith,
  length, get_or, take, drop,
}
use cs130_25spring_project.Common.Bytes.{slice}
use cs130_25spring_project.Inode.{InodeDisk}
use cs130_25spring_project.Inode.Index.{block_of}

-- Byte `k` of the file.
unfoldable pub byte_at : (ℕ → List ℕ) → InodeDisk → ℕ → ℕ
byte_at S d k = get_or (S (block_of S d (k / 512))) (k % 512) 0

-- The `n` bytes from `offset` on.
unfoldable pub file_bytes : (ℕ → List ℕ) → InodeDisk → (offset n : ℕ) → List ℕ
file_bytes S d offset zero = []
file_bytes S d offset (suc n) = byte_at S d offset ∷ file_bytes S d (offset + 1) n

pub file_bytes-add :
    (S : ℕ → List ℕ) (d : InodeDisk) (offset m n : ℕ)
    → file_bytes S d offset (m + n) ≡ file_bytes S d offset m ++ file_bytes S d (offset + m) n
unfolding file_bytes
file_bytes-add S d offset zero n =
    let e : 0 + n ≡ n = omega arith in
    let f : offset ≡ offset + 0 = omega arith in
    ap (λ k. file_bytes S d offset k) e ∙ ap (λ k. file_bytes S d k n) f
file_bytes-add S d offset (suc m) n =
    let e : suc m + n ≡ suc (m + n) = omega arith in
    let f : offset + 1 + m ≡ offset + suc m = omega arith in
    ap (λ k. file_bytes S d offset k) e
    ∙ ap (λ l. byte_at S d offset ∷ l)
        (file_bytes-add S d (offset + 1) m n
          ∙ ap (λ k. file_bytes S d (offset + 1) m ++ file_bytes S d k n) f)

drop-cons : (l : List ℕ) (i : ℕ) → i < length l → drop i l ≡ get_or l i 0 ∷ drop (i + 1) l
drop-cons [] i h = absurd (omega arith)
drop-cons (x ∷ l) zero h = refl
drop-cons (x ∷ l) (suc i) h =
    let e : suc i + 1 ≡ suc (i + 1) = omega arith in
    drop-cons l i (omega arith) ∙ ap (λ k. get_or l i 0 ∷ drop k (x ∷ l)) (sym e)

-- A part of one sector is that part of the file.
pub slice-file_bytes :
    (S : ℕ → List ℕ) (d : InodeDisk) (n offset : ℕ)
    → offset % 512 + n ≤ 512
    → length (S (block_of S d (offset / 512))) ≡ 512
    → slice (offset % 512) n (S (block_of S d (offset / 512))) ≡ file_bytes S d offset n
unfolding file_bytes byte_at
slice-file_bytes S d zero offset h whole = refl
slice-file_bytes S d (suc zero) offset h whole =
    ap (take 1) (drop-cons (S (block_of S d (offset / 512))) (offset % 512) (omega arith))
slice-file_bytes S d (suc (suc n)) offset h whole =
    let block : (offset + 1) / 512 ≡ offset / 512 = omega arith in
    let ofs : (offset + 1) % 512 ≡ offset % 512 + 1 = omega arith in
    let l = S (block_of S d (offset / 512)) in
    let whole' : length (S (block_of S d ((offset + 1) / 512))) ≡ 512 = rw block whole in
    let rest = slice-file_bytes S d (suc n) (offset + 1) (omega arith) whole' in
    ap (take (suc (suc n))) (drop-cons l (offset % 512) (omega arith))
    ∙ ap (λ r. get_or l (offset % 512) 0 ∷ r)
        (ap (λ k. take (suc n) (drop k l)) (sym ofs)
          ∙ ap (λ k. take (suc n) (drop ((offset + 1) % 512) (S (block_of S d k)))) (sym block)
          ∙ rest)

pub length-file_bytes :
    (S : ℕ → List ℕ) (d : InodeDisk) (offset n : ℕ) → length (file_bytes S d offset n) ≡ n
unfolding file_bytes
length-file_bytes S d offset zero = refl
length-file_bytes S d offset (suc n) = ap suc (length-file_bytes S d (offset + 1) n)
