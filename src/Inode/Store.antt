-- ===== src/Inode/Store.antt =====
-- The loop of `inode_write_at` on a file that has the sectors.
use cs130_25spring_project.Common.{
  ℕ, zero, suc, ◌+◌, ◌-◌, ◌/◌, ◌%◌, ◌≤◌, ◌<◌, ◌≡◌, refl, sym, ap, ◌∙◌, inl, inr, false, Option,
  some, List, arith, ◌==◌, if◌then◌else◌, length, get_or, take, drop, Bool-cases, ==→ne, ==→eq,
  ne→==, eq→==, dec_lt,
}
use mathlib.Core.Path.{fun_ext}
use cs130_25spring_project.Common.Bytes.{length-take, length-drop}
use cs130_25spring_project.Bitmap.Range.{in_range}
use cs130_25spring_project.Block.{block_sector_none}
use cs130_25spring_project.Fs.{Fs, write_bytes}
use cs130_25spring_project.Fs.Laws.{IsValid, sector, Shows, Same, Same-sector, write_bytes-Shows}
use cs130_25spring_project.Inode.{InodeDisk, byte_to_sector_unlocked, chunk}
use cs130_25spring_project.Inode.Index.{block_of}
use cs130_25spring_project.Inode.Sector.{byte_to_sector_unlocked-block_of}
use cs130_25spring_project.Inode.File.{byte_at}
use cs130_25spring_project.Inode.Whole.{IsFile}
use cs130_25spring_project.Inode.Update.{get_or-take, get_or-drop}
use cs130_25spring_project.Inode.Write.{write_rounds}
use cs130_25spring_project.Inode.Written.{
  IsApart, Written, update, update-blocks, update-IsFile, update-IsApart, update-Written,
}

-- The first `n` bytes of the buffer are written, then the rest of it.
Written-trans :
    {S S₁ S' : ℕ → List ℕ} {d : InodeDisk} (buffer : List ℕ) (offset n : ℕ)
    → n ≤ length buffer
    → ((k : ℕ) → block_of S₁ d k ≡ block_of S d k)
    → Written S d (take n buffer) offset S₁
    → Written S₁ d (drop n buffer) (offset + n) S'
    → Written S d buffer offset S'
Written-trans {S} {S₁} {S'} {d} buffer offset n h same a b = record {
  bytes = λ k inside. byte k (a.bytes k inside) (b.bytes k inside);
  others = λ t apart. b.others t (λ k hk e. apart k hk (e ∙ same k)) ∙ a.others t apart;
}
  where
    byte :
        (k : ℕ)
        → byte_at S₁ d k ≡ (
            if in_range offset (length (take n buffer)) k
            then get_or (take n buffer) (k - offset) 0
            else byte_at S d k)
        → byte_at S' d k ≡ (
            if in_range (offset + n) (length (drop n buffer)) k
            then get_or (drop n buffer) (k - (offset + n)) 0
            else byte_at S₁ d k)
        → byte_at S' d k ≡ (
            if in_range offset (length buffer) k
            then get_or buffer (k - offset) 0
            else byte_at S d k)
    byte k e₁ e₂ = elim (dec_lt k (offset + n)) [
      | yes p ↦ elim (dec_lt k offset) [
        | yes q ↦ ground (arith, e₁, e₂, length-take n buffer, length-drop n buffer)
        | no q ↦ ground (
          arith,
          e₁,
          e₂,
          length-take n buffer,
          length-drop n buffer,
          get_or-take buffer n (k - offset) 0 (omega arith),
        )
      ]
      | no p ↦
          let shift : n + (k - (offset + n)) ≡ k - offset = omega arith in
          ground (
            arith,
            e₁,
            e₂,
            length-take n buffer,
            length-drop n buffer,
            get_or-drop buffer n (k - (offset + n)) 0 ∙ ap (λ i. get_or buffer i 0) shift,
          )
    ]

unchanged-Written :
    {S : ℕ → List ℕ} {d : InodeDisk} (buffer : List ℕ) (offset : ℕ)
    → length buffer ≡ 0
    → Written S d buffer offset S
unchanged-Written buffer offset h = record {
  bytes = λ k inside. ground (arith, h);
  others = λ t apart. refl;
}

-- A write of the buffer: it returns with the bytes counted, the map as it was, and the bytes in
-- the file.
abbrev pub Stored :
    (fs : Fs) → InodeDisk → (buffer : List ℕ) → (offset w : ℕ) → Option (Fs × ℕ) → Type 0
Stored fs d buffer offset w r =
    (fs' : Fs) × (r ≡ some (fs', w + length buffer))
    × IsValid fs'
    × (fs'.free_map ≡ fs.free_map)
    × IsFile (sector fs') fs'.free_map.bit_cnt d
    × Written (sector fs) d buffer offset (sector fs')

abbrev pub Storing : InodeDisk → (fuel : ℕ) → Type 0
Storing d fuel =
    (fs : Fs) (buffer : List ℕ) (offset w : ℕ)
    → length buffer ≤ fuel
    → offset + length buffer ≤ d.length
    → IsValid fs
    → IsFile (sector fs) fs.free_map.bit_cnt d
    → IsApart (sector fs) d
    → Stored fs d buffer offset w (write_rounds fuel fs d buffer offset w)

module _ (d : InodeDisk) (fuel : ℕ) (more : Storing d fuel) (fs : Fs) (buffer : List ℕ)
    (offset w : ℕ) (pos : (length buffer == 0) ≡ false) (enough : length buffer ≤ suc fuel)
    (inside : offset + length buffer ≤ d.length) (v : IsValid fs)
    (f : IsFile (sector fs) fs.free_map.bit_cnt d) (a : IsApart (sector fs) d) where
  abbrev s : ℕ
  s = block_of (sector fs) d (offset / 512)

  abbrev n : ℕ
  n = chunk d (length buffer) offset

  abbrev part : List ℕ
  part = take n buffer

  abbrev S₁ : ℕ → List ℕ
  S₁ = update (sector fs) s (offset % 512) part

  some_bytes : 0 < n
  some_bytes = omega (arith, ==→ne (length buffer) 0 pos)

  fits : offset % 512 + length part ≤ 512
  fits = omega (arith, length-take n buffer)

  starts : offset < d.length
  starts = omega (arith, ==→ne (length buffer) 0 pos)

  -- After the write of this round the sectors are `S₁`; the rest of the buffer follows.
  rest_round :
      (fs₁ fs₂ : Fs)
      → byte_to_sector_unlocked fs d offset ≡ some (fs₁, s)
      → write_bytes fs₁ s part (offset % 512) ≡ some fs₂
      → IsValid fs₂
      → fs₂.free_map ≡ fs.free_map
      → sector fs₂ ≡ S₁
      → Stored fs₂ d
          (drop n buffer)
          (offset + n)
          (w + n)
          (write_rounds fuel fs₂ d (drop n buffer) (offset + n) (w + n))
      → Stored fs d buffer offset w (write_rounds (suc fuel) fs d buffer offset w)
  unfolding write_rounds
  rest_round fs₁ fs₂ e₁ e₂ v₂ map S₂ (fs', e, v', map', f', written) =
      let real : (s == block_sector_none) ≡ false =
        ne→== (omega (arith, f.held (offset / 512) (omega (arith, starts)), v.room, v.size32)) in
      let whole : (n == 0) ≡ false = ne→== (omega (arith, some_bytes)) in
      let count : w + n + length (drop n buffer) ≡ w + length buffer =
        omega (arith, length-drop n buffer) in
      (
        fs',
        rw (pos, e₁, real, whole, e₂) (e ∙ ap (λ k. some (fs', k)) count),
        v',
        map' ∙ map,
        f',
        Written-trans buffer offset n (omega arith)
            (λ k.
              ap (λ l. get_or l k block_sector_none)
                (update-blocks (sector fs) fs.free_map.bit_cnt d f a part offset fits starts).1)
            (update-Written (sector fs) fs.free_map.bit_cnt d f a part offset fits starts)
            (rw (sym S₂) written),
      )

  round :
      (fs₁ : Fs) × (byte_to_sector_unlocked fs d offset ≡ some (fs₁, s)) × Same fs fs₁
      → Stored fs d buffer offset w (write_rounds (suc fuel) fs d buffer offset w)
  round (fs₁, e₁, same) = write (
      write_bytes-Shows fs₁ s same.valid
        (omega (arith, f.held (offset / 512) (omega (arith, starts)), ap (λ m. m.bit_cnt) same.map))
        part (offset % 512))
    where
      go :
          (fs₂ : Fs)
          → write_bytes fs₁ s part (offset % 512) ≡ some fs₂
          → IsValid fs₂
          → fs₂.free_map ≡ fs.free_map
          → sector fs₂ ≡ S₁
          → Stored fs d buffer offset w (write_rounds (suc fuel) fs d buffer offset w)
      go fs₂ e₂ v₂ map S₂ =
          let cnt = ap (λ m. m.bit_cnt) map in
          rest_round fs₁ fs₂ e₁ e₂ v₂ map S₂ (
            more fs₂ (drop n buffer) (offset + n) (w + n)
              (omega (arith, length-drop n buffer, some_bytes))
              (omega (arith, length-drop n buffer)) v₂
              (rw (S₂, cnt)
                (update-IsFile (sector fs) fs.free_map.bit_cnt d f a part offset fits starts))
              (rw S₂
                (update-IsApart (sector fs) fs.free_map.bit_cnt d f a part offset fits starts)))

      write :
          (fs₂ : Fs) × (write_bytes fs₁ s part (offset % 512) ≡ some fs₂)
            × Shows fs₁ (update (sector fs₁) s (offset % 512) part) fs₂
          → Stored fs d buffer offset w (write_rounds (suc fuel) fs d buffer offset w)
      write (fs₂, e₂, shows) =
          go fs₂ e₂ shows.valid (shows.map ∙ same.map)
            (fun_ext shows.sectors ∙ ap (λ T. update T s (offset % 512) part) (Same-sector same))

pub write_rounds-Stored : (d : InodeDisk) (fuel : ℕ) → Storing d fuel
unfolding write_rounds
write_rounds-Stored d zero fs buffer offset w h inside v f a =
    let none_left : length buffer ≡ 0 = omega arith in
    let count : w ≡ w + length buffer = omega arith in
    (
      fs,
      rw (eq→== none_left) (ap (λ k. some (fs, k)) count),
      v,
      refl,
      f,
      unchanged-Written buffer offset none_left,
    )
write_rounds-Stored d (suc fuel) fs buffer offset w h inside v f a =
    elim (Bool-cases (length buffer == 0)) [
      | inl done ↦
          let none_left : length buffer ≡ 0 = ==→eq (length buffer) 0 done in
          let count : w ≡ w + length buffer = omega arith in
          (
            fs,
            rw done (ap (λ k. some (fs, k)) count),
            v,
            refl,
            f,
            unchanged-Written buffer offset none_left,
          )
      | inr pos ↦
          round d fuel (write_rounds-Stored d fuel) fs buffer offset w pos h inside v f a
            (byte_to_sector_unlocked-block_of fs d offset v f.index)
    ]
