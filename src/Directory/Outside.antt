-- ===== src/Directory/Outside.antt =====
-- A sector that holds no part of a file: what is written there leaves the file as it is.
use cs130_25spring_project.Common.{
  ℕ, zero, suc, ◌+◌, ◌*◌, ◌/◌, ◌%◌, ◌<◌, ◌≡◌, ◌≢◌, refl, sym, ap, ◌∙◌, List, ◌∷◌, arith, length,
  get_or,
}
use mathlib.Core.Path.{ap₂}
use cs130_25spring_project.Block.{block_sector_none}
use cs130_25spring_project.Inode.{InodeDisk}
use cs130_25spring_project.Inode.Index.{table_of, blocks, block_of}
use cs130_25spring_project.Inode.File.{byte_at, file_bytes}
use cs130_25spring_project.Inode.Whole.{IsFile}
use cs130_25spring_project.Inode.Update.{blocks-Agree}
use cs130_25spring_project.Inode.Written.{IsApart, Written}
use cs130_25spring_project.Inode.FileCnt.{updated}

pub record IsOutside (S : ℕ → List ℕ) (d : InodeDisk) (t : ℕ) : Type 0 where
  pub indirect : t ≢ d.indirect
  pub doubly : t ≢ d.doubly_indirect
  pub inner : (i : ℕ) → t ≢ get_or (table_of S d.doubly_indirect) i block_sector_none
  pub block : (k : ℕ) → k * 512 < d.length → t ≢ block_of S d k

module _ (S S' : ℕ → List ℕ) (d : InodeDisk) (t : ℕ) (out : IsOutside S d t)
    (same : (u : ℕ) → t ≢ u → S' u ≡ S u) where
  outside-blocks :
      (table_of S' d.doubly_indirect ≡ table_of S d.doubly_indirect) × (blocks S' d ≡ blocks S d)
  outside-blocks =
      blocks-Agree S S' d (λ real. same d.indirect out.indirect)
        (λ real. same d.doubly_indirect out.doubly) (λ i real. same _ (out.inner i))

  outside-block_of : (k : ℕ) → block_of S' d k ≡ block_of S d k
  outside-block_of k = ap (λ l. get_or l k block_sector_none) outside-blocks.1

  outside-sector : (k : ℕ) → k * 512 < d.length → S' (block_of S' d k) ≡ S (block_of S d k)
  outside-sector k inside = ap S' (outside-block_of k) ∙ same (block_of S d k) (out.block k inside)

  pub outside-byte_at : (k : ℕ) → k < d.length → byte_at S' d k ≡ byte_at S d k
  unfolding byte_at
  outside-byte_at k inside = ap (λ l. get_or l (k % 512) 0) (outside-sector (k / 512) (omega arith))

  pub outside-IsFile : (n : ℕ) → IsFile S n d → IsFile S' n d
  outside-IsFile n f = record {
    index = record {
      direct = f.index.direct;
      indirect = f.index.indirect;
      doubly = f.index.doubly;
      inner = λ i. rw outside-blocks.0 (f.index.inner i);
    };
    held = λ k h. rw (outside-block_of k) (f.held k h);
    whole = λ k h. ap length (outside-sector k h) ∙ f.whole k h;
  }

-- A write into the file keeps a sector outside of it outside.
pub Written-IsOutside :
    (S S' : ℕ → List ℕ) (d : InodeDisk) (buffer : List ℕ) (offset t : ℕ)
    → IsApart S d
    → Written S d buffer offset S'
    → IsOutside S d t
    → IsOutside S' d t
Written-IsOutside S S' d buffer offset t a w out =
    let (tables, all) =
      blocks-Agree S S' d (λ real. w.others d.indirect (λ k h e. a.indirect k h (sym e)))
        (λ real. w.others d.doubly_indirect (λ k h e. a.doubly k h (sym e)))
        (λ i real. w.others _ (λ k h e. a.inner k i h (sym e))) in
    record {
      indirect = out.indirect;
      doubly = out.doubly;
      inner = λ i e. out.inner i (e ∙ ap (λ l. get_or l i block_sector_none) tables);
      block = λ k h e. out.block k h (e ∙ ap (λ l. get_or l k block_sector_none) all);
    }

-- The count of entries is no part of the index.
pub updated-byte_at :
    (S : ℕ → List ℕ) (d : InodeDisk) (delta k : ℕ) → byte_at S (updated d delta) k ≡ byte_at S d k
unfolding byte_at blocks
updated-byte_at S d delta k = refl

pub updated-IsFile :
    (S : ℕ → List ℕ) (n : ℕ) (d : InodeDisk) (delta : ℕ)
    → IsFile S n d
    → IsFile S n (updated d delta)
unfolding blocks
updated-IsFile S n d delta f = record {
  index = record {
    direct = f.index.direct;
    indirect = f.index.indirect;
    doubly = f.index.doubly;
    inner = f.index.inner;
  };
  held = f.held;
  whole = f.whole;
}

pub file_bytes-same :
    (S S' : ℕ → List ℕ) (d d' : InodeDisk) (offset n : ℕ)
    → ((i : ℕ) → i < n → byte_at S' d' (offset + i) ≡ byte_at S d (offset + i))
    → file_bytes S' d' offset n ≡ file_bytes S d offset n
unfolding file_bytes
file_bytes-same S S' d d' offset zero h = refl
file_bytes-same S S' d d' offset (suc n) h =
    let start : offset ≡ offset + 0 = omega arith in
    ap₂ ◌∷◌ (ap (byte_at S' d') start ∙ h 0 (omega arith) ∙ ap (byte_at S d) (sym start)) (
      file_bytes-same S S' d d' (offset + 1) n (λ i hi.
        ap (byte_at S' d') {x = offset + 1 + i} {y = offset + suc i} (omega arith)
        ∙ h (suc i) (omega arith)
        ∙ ap (byte_at S d) {x = offset + suc i} {y = offset + 1 + i} (omega arith)))
