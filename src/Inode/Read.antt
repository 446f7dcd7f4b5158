-- ===== src/Inode/Read.antt =====
-- Reading at an offset: the loop of `inode_read_at` with its read-ahead.
use cs130_25spring_project.Common.{
  ℕ, zero, suc, ◌+◌, ◌-◌, ◌*◌, ◌/◌, ◌%◌, ◌≤◌, ◌<◌, ◌≡◌, sym, ap, ◌∙◌, inl, inr, true, false, Option,
  some, List, [], ◌++◌, arith, ◌==◌, min, Bool-cases, ==→eq, ==→ne, eq→==, dec_lt,
}
use mathlib.Core.List.{append-nil, append_assoc}
use cs130_25spring_project.Common.Bytes.{slice}
use cs130_25spring_project.Block.{block_sector_none}
use cs130_25spring_project.Fs.{Fs, read_bytes}
use cs130_25spring_project.Fs.Laws.{
  IsValid, sector, Same, Same-refl, Same-trans, Same-sector, read_bytes-Shows,
}
use cs130_25spring_project.Inode.{
  InodeDisk, Inode, byte_to_sector_unlocked, read_ahead, chunk, read_rounds, inode_read_at,
}
use cs130_25spring_project.Inode.Index.{block_of}
use cs130_25spring_project.Inode.Sector.{byte_to_sector_unlocked-block_of}
use cs130_25spring_project.Inode.File.{file_bytes, file_bytes-add, slice-file_bytes}
use cs130_25spring_project.Inode.Whole.{IsFile, Same-IsFile, read_ahead-Same}

-- The bytes of the file that a request for `size` bytes at `offset` has.
abbrev pub wanted : InodeDisk → (size offset : ℕ) → ℕ
wanted d size offset = min size (d.length - offset)

-- What the loop returns from here on with `fuel` rounds.
abbrev Reading : InodeDisk → (fuel : ℕ) → Type 0
Reading d fuel =
    (fs : Fs) (size offset : ℕ) (out : List ℕ)
    → size ≤ fuel
    → IsValid fs
    → IsFile (sector fs) fs.free_map.bit_cnt d
    → (fs' : Fs) × (read_rounds fuel fs d size offset out
        ≡ some (fs', out ++ file_bytes (sector fs) d offset (wanted d size offset)))
      × Same fs fs'

stop :
    (fs fs' : Fs) (d : InodeDisk) (size offset : ℕ) (out : List ℕ)
    → wanted d size offset ≡ 0
    → ◌≡◌ {A = Option (Fs × List ℕ)}
        (some (fs', out))
        (some (fs', out ++ file_bytes (sector fs) d offset (wanted d size offset)))
unfolding file_bytes
stop fs fs' d size offset out h =
    ap (λ l. some (fs', l)) (sym (append-nil out))
    ∙ ap (λ n. some (fs', out ++ file_bytes (sector fs) d offset n)) (sym h)

module _ (d : InodeDisk) (fuel : ℕ) (more : Reading d fuel) (fs : Fs) (size offset : ℕ)
    (out : List ℕ) (pos : (size == 0) ≡ false) (enough : size ≤ suc fuel) (v : IsValid fs)
    (f : IsFile (sector fs) fs.free_map.bit_cnt d) where
  abbrev Goal : Type 0
  Goal =
      (fs' : Fs) × (read_rounds (suc fuel) fs d size offset out
        ≡ some (fs', out ++ file_bytes (sector fs) d offset (wanted d size offset)))
      × Same fs fs'

  abbrev s : ℕ
  s = block_of (sector fs) d (offset / 512)

  abbrev n : ℕ
  n = chunk d size offset

  -- The bytes of this round and of those after it are the bytes wanted.
  joined :
      file_bytes (sector fs) d offset n
        ++ file_bytes (sector fs) d (offset + n) (wanted d (size - n) (offset + n))
      ≡ file_bytes (sector fs) d offset (wanted d size offset)
  joined =
      sym (file_bytes-add (sector fs) d offset n (wanted d (size - n) (offset + n)))
      ∙ ap (λ k. file_bytes (sector fs) d offset k) (omega arith)

  -- A round that reads.
  full_round :
      (fs₁ : Fs)
      → byte_to_sector_unlocked fs d offset ≡ some (fs₁, s)
      → Same fs fs₁
      → (s == block_sector_none) ≡ false
      → (n == 0) ≡ false
      → Goal
  unfolding read_rounds
  full_round fs₁ e same real some_bytes =
      let inside : offset / 512 * 512 < d.length = omega (arith, ==→ne n 0 some_bytes) in
      read
        (read_bytes-Shows fs₁ s same.valid
          (omega (arith, f.held (offset / 512) inside, ap (λ m. m.bit_cnt) same.map)) n
          (offset % 512))
        inside
    where
      last :
          (fs₂ fs₃ : Fs)
          → read_bytes fs₁ s n (offset % 512) ≡ some (fs₂, file_bytes (sector fs) d offset n)
          → read_ahead fs₂ d offset ≡ some fs₃
          → Same fs fs₃
          → (fs' : Fs) × (read_rounds fuel fs₃ d
                (size - n)
                (offset + n)
                (out ++ file_bytes (sector fs) d offset n)
              ≡ some (
                fs',
                out
                    ++ file_bytes (sector fs) d offset n
                    ++ file_bytes (sector fs₃) d (offset + n) (wanted d (size - n) (offset + n)),
              ))
            × Same fs₃ fs'
          → Goal
      last fs₂ fs₃ e₂ e₃ same₃ (fs', e', same') = (
        fs',
        rw (pos, e, real, some_bytes, e₂, e₃) e'
            ∙ ap
                (λ S. some (
                  fs',
                  out
                      ++ file_bytes (sector fs) d offset n
                      ++ file_bytes S d (offset + n) (wanted d (size - n) (offset + n)),
                ))
                (Same-sector same₃)
            ∙ ap (λ l. some (fs', l))
                (append_assoc out (file_bytes (sector fs) d offset n)
                    (file_bytes (sector fs) d (offset + n) (wanted d (size - n) (offset + n)))
                  ∙ ap (λ l. out ++ l) joined),
        Same-trans same₃ same',
      )

      ahead :
          (fs₂ : Fs)
          → read_bytes fs₁ s n (offset % 512) ≡ some (fs₂, file_bytes (sector fs) d offset n)
          → Same fs fs₂
          → (fs₃ : Fs) × (read_ahead fs₂ d offset ≡ some fs₃) × Same fs₂ fs₃
          → Goal
      ahead fs₂ e₂ same₂ (fs₃, e₃, same₃) =
          let all = Same-trans same₂ same₃ in
          last fs₂ fs₃ e₂ e₃ all (
            more fs₃ (size - n) (offset + n) (out ++ file_bytes (sector fs) d offset n)
              (omega (arith, ==→ne n 0 some_bytes)) all.valid (Same-IsFile all f))

      read :
          (fs₂ : Fs) × (read_bytes fs₁ s n (offset % 512)
              ≡ some (fs₂, slice (offset % 512) n (sector fs₁ s)))
            × Same fs₁ fs₂
          → offset / 512 * 512 < d.length
          → Goal
      read (fs₂, e₂, same₂) inside =
          let both = Same-trans same same₂ in
          ahead fs₂
            (e₂
              ∙ ap (λ S. some (fs₂, slice (offset % 512) n (S s))) (Same-sector same)
              ∙ ap (λ l. some (fs₂, l))
                  (slice-file_bytes (sector fs) d n offset (omega arith)
                    (f.whole (offset / 512) inside)))
            both (read_ahead-Same d fs₂ offset both.valid (Same-IsFile both f).index)

  round : (fs₁ : Fs) × (byte_to_sector_unlocked fs d offset ≡ some (fs₁, s)) × Same fs fs₁ → Goal
  unfolding read_rounds
  round (fs₁, e, same) = elim (Bool-cases (s == block_sector_none)) [
    | inl out_of ↦ (fs₁, rw (pos, e, out_of) (stop fs fs₁ d size offset out (past out_of)), same)
    | inr real ↦ elim (Bool-cases (n == 0)) [
      | inl empty ↦ (
        fs₁,
        rw (pos, e, real, empty) (stop fs fs₁ d size offset out (omega (arith, ==→eq n 0 empty))),
        same,
      )
      | inr some_bytes ↦ full_round fs₁ e same real some_bytes
    ]
  ]
    where
      past : (s == block_sector_none) ≡ true → wanted d size offset ≡ 0
      past out_of = elim (dec_lt (offset / 512 * 512) d.length) [
        | yes p ↦ absurd (
            omega
              (arith, f.held (offset / 512) p, ==→eq s block_sector_none out_of, v.room, v.size32))
        | no p ↦ omega arith
      ]

read_rounds-bytes : (d : InodeDisk) (fuel : ℕ) → Reading d fuel
unfolding read_rounds
read_rounds-bytes d zero fs size offset out h v f =
    let none_left : size ≡ 0 = omega arith in
    (fs, rw (eq→== none_left) (stop fs fs d size offset out (omega arith)), Same-refl v)
read_rounds-bytes d (suc fuel) fs size offset out h v f = elim (Bool-cases (size == 0)) [
  | inl done ↦
      (fs, rw done (stop fs fs d size offset out (omega (arith, ==→eq size 0 done))), Same-refl v)
  | inr pos ↦
      round d fuel (read_rounds-bytes d fuel) fs size offset out pos h v f
        (byte_to_sector_unlocked-block_of fs d offset v f.index)
]

-- A read at an offset of a file on a valid device always returns, with `size` rounds of its loop at
-- most. It gives the bytes of the file from `offset` on, at most `size` and at most what the file
-- has left, and changes nothing that is seen of the device.
pub inode_read_at-bytes :
    (fs : Fs) (inode : Inode) (size offset : ℕ)
    → IsValid fs
    → IsFile (sector fs) fs.free_map.bit_cnt inode.content
    → (fs' : Fs) × (inode_read_at fs inode size offset
        ≡ some (
          fs',
          file_bytes (sector fs) inode.content offset (min size (inode.content.length - offset)),
        ))
      × Same fs fs'
unfolding inode_read_at
inode_read_at-bytes fs inode size offset v f =
    read_rounds-bytes inode.content size fs size offset [] (omega arith) v f
