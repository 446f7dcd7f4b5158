-- ===== src/Inode/Written.antt =====
-- What a copy into one data sector of a file does to the bytes of the file.
use cs130_25spring_project.Common.{
  ℕ, ◌+◌, ◌-◌, ◌*◌, ◌/◌, ◌%◌, ◌≤◌, ◌<◌, ◌≡◌, refl, sym, ap, ◌∙◌, ◌≢◌, false, List, arith, ◌==◌,
  if◌then◌else◌, length, get_or, ne→==, ==-refl, ℕ_discrete,
}
use cs130_25spring_project.Common.Bytes.{splice, length-splice}
use cs130_25spring_project.Bitmap.Range.{in_range}
use cs130_25spring_project.Block.{block_sector_none}
use cs130_25spring_project.Inode.{InodeDisk}
use cs130_25spring_project.Inode.Index.{table_of, blocks, block_of}
use cs130_25spring_project.Inode.File.{byte_at}
use cs130_25spring_project.Inode.Whole.{IsFile}
use cs130_25spring_project.Inode.Update.{blocks-Agree, get_or-splice}

-- No two blocks of the file share a sector, and none is the sector of a table of its index.
pub record IsApart (S : ℕ → List ℕ) (d : InodeDisk) : Type 0 where
  pub indirect : (k : ℕ) → k * 512 < d.length → block_of S d k ≢ d.indirect
  pub doubly : (k : ℕ) → k * 512 < d.length → block_of S d k ≢ d.doubly_indirect
  pub inner :
      (k i : ℕ)
      → k * 512 < d.length
      → block_of S d k ≢ get_or (table_of S d.doubly_indirect) i block_sector_none
  pub distinct :
      (j k : ℕ) → j * 512 < d.length → k * 512 < d.length → block_of S d j ≡ block_of S d k → j ≡ k

-- In `S'` the buffer stands at `offset` of the file, every other byte of the file is as in `S`, and
-- so is every sector that holds none of its bytes.
pub record Written (S : ℕ → List ℕ) (d : InodeDisk) (buffer : List ℕ) (offset : ℕ) (S' : ℕ → List ℕ)
    : Type 0 where
  pub bytes :
      (k : ℕ)
      → k < d.length
      → byte_at S' d k ≡ (
          if in_range offset (length buffer) k then get_or buffer (k - offset) 0 else byte_at S d k)
  pub others : (t : ℕ) → ((k : ℕ) → k * 512 < d.length → t ≢ block_of S d k) → S' t ≡ S t

abbrev pub update : (ℕ → List ℕ) → (s ofs : ℕ) → List ℕ → ℕ → List ℕ
update S s ofs part t = if s == t then splice ofs part (S s) else S t

module _ (S : ℕ → List ℕ) (n : ℕ) (d : InodeDisk) (f : IsFile S n d) (a : IsApart S d)
    (part : List ℕ) (offset : ℕ) (fits : offset % 512 + length part ≤ 512)
    (inside : offset < d.length) where
  abbrev s : ℕ
  s = block_of S d (offset / 512)

  abbrev S' : ℕ → List ℕ
  S' = update S s (offset % 512) part

  other : (t : ℕ) → s ≢ t → S' t ≡ S t
  other t ne = rw (ne→== ne) refl

  here : S' s ≡ splice (offset % 512) part (S s)
  here = rw (==-refl s) refl

  first_inside : offset / 512 * 512 < d.length
  first_inside = omega arith

  pub update-blocks :
      (table_of S' d.doubly_indirect ≡ table_of S d.doubly_indirect) × (blocks S' d ≡ blocks S d)
  update-blocks =
      blocks-Agree S S' d (λ real. other d.indirect (a.indirect (offset / 512) first_inside))
        (λ real. other d.doubly_indirect (a.doubly (offset / 512) first_inside))
        (λ i real. other _ (a.inner (offset / 512) i first_inside))

  same_block : (k : ℕ) → block_of S' d k ≡ block_of S d k
  same_block k = ap (λ l. get_or l k block_sector_none) update-blocks.1

  pub update-IsFile : IsFile S' n d
  update-IsFile = record {
    index = record {
      direct = f.index.direct;
      indirect = f.index.indirect;
      doubly = f.index.doubly;
      inner = λ i. rw update-blocks.0 (f.index.inner i);
    };
    held = λ k h. rw (same_block k) (f.held k h);
    whole = λ k h. ap (λ t. length (S' t)) (same_block k) ∙ long k h;
  }
    where
      long : (k : ℕ) → k * 512 < d.length → length (S' (block_of S d k)) ≡ 512
      long k h = elim (ℕ_discrete s (block_of S d k)) [
        | yes e ↦
            ap (λ t. length (S' t)) (sym e)
            ∙ ap length here
            ∙ length-splice (offset % 512) part (S s)
                (omega (arith, f.whole (offset / 512) first_inside))
            ∙ f.whole (offset / 512) first_inside
        | no ne ↦ ap length (other (block_of S d k) ne) ∙ f.whole k h
      ]

  pub update-IsApart : IsApart S' d
  update-IsApart = record {
    indirect = λ k h. rw (same_block k) (a.indirect k h);
    doubly = λ k h. rw (same_block k) (a.doubly k h);
    inner = λ k i h. rw (same_block k, update-blocks.0) (a.inner k i h);
    distinct = λ j k hj hk. rw (same_block j, same_block k) (a.distinct j k hj hk);
  }

  -- A byte of the sector that is copied into.
  byte_inside :
      (k : ℕ)
      → k / 512 ≡ offset / 512
      → get_or (S' s) (k % 512) 0 ≡ (
          if in_range offset (length part) k
          then get_or part (k - offset) 0
          else get_or (S s) (k % 512) 0)
  byte_inside k e =
      ap (λ l. get_or l (k % 512) 0) here
      ∙ get_or-splice (offset % 512) part (S s) (k % 512) 0
          (omega (arith, f.whole (offset / 512) first_inside))
      ∙ shifted
    where
      shifted :
          (if in_range (offset % 512) (length part) (k % 512)
            then get_or part (k % 512 - offset % 512) 0
            else get_or (S s) (k % 512) 0)
          ≡ (if in_range offset (length part) k
              then get_or part (k - offset) 0
              else get_or (S s) (k % 512) 0)
      shifted =
          let range : in_range (offset % 512) (length part) (k % 512)
              ≡ in_range offset (length part) k =
            ground arith in
          ap (λ b. if b then get_or part (k % 512 - offset % 512) 0 else get_or (S s) (k % 512) 0)
            range
          ∙ ap
              (λ i.
                if in_range offset (length part) k
                then get_or part i 0
                else get_or (S s) (k % 512) 0)
              {x = k % 512 - offset % 512} {y = k - offset} (omega arith)

  pub update-Written : Written S d part offset S'
  unfolding byte_at
  update-Written = record {
    bytes = λ k h. ap (λ t. get_or (S' t) (k % 512) 0) (same_block (k / 512)) ∙ byte k h;
    others = λ t apart. other t (λ e. apart (offset / 512) first_inside (sym e));
  }
    where
      byte :
          (k : ℕ)
          → k < d.length
          → get_or (S' (block_of S d (k / 512))) (k % 512) 0 ≡ (
              if in_range offset (length part) k
              then get_or part (k - offset) 0
              else get_or (S (block_of S d (k / 512))) (k % 512) 0)
      byte k h = elim (ℕ_discrete (k / 512) (offset / 512)) [
        | yes e ↦
            ap (λ j. get_or (S' (block_of S d j)) (k % 512) 0) e
            ∙ byte_inside k e
            ∙ ap
                (λ j.
                  if in_range offset (length part) k
                  then get_or part (k - offset) 0
                  else get_or (S (block_of S d j)) (k % 512) 0)
                (sym e)
        | no ne ↦
            let apart : s ≢ block_of S d (k / 512) =
              λ e. ne (sym (a.distinct (offset / 512) (k / 512) first_inside (omega arith) e)) in
            let out : in_range offset (length part) k ≡ false = ground arith in
            ap (λ l. get_or l (k % 512) 0) (other (block_of S d (k / 512)) apart)
            ∙ ap
                (λ b.
                  if b
                  then get_or part (k - offset) 0
                  else get_or (S (block_of S d (k / 512))) (k % 512) 0)
                (sym out)
      ]
