-- ===== src/Inode/Update.antt =====
-- A change of one data sector of a file: the index stays as it was, and the bytes change there.
use cs130_25spring_project.Common.{
  ℕ, zero, suc, ◌+◌, ◌-◌, ◌≤◌, ◌<◌, ◌≡◌, refl, ap, ◌∙◌, inl, inr, false, List, [], ◌∷◌, ◌++◌, arith,
  ◌==◌, if◌then◌else◌, length, get_or, take, drop, Bool-cases, dec_lt,
}
use mathlib.Core.Path.{ap₂}
use cs130_25spring_project.Common.Words.{decode}
use cs130_25spring_project.Common.Bytes.{splice, length-take}
use cs130_25spring_project.Bitmap.Range.{in_range}
use cs130_25spring_project.Block.{block_sector_none}
use cs130_25spring_project.Inode.{InodeDisk}
use cs130_25spring_project.Inode.Index.{
  table_of, tables_of, blocks, get_or-append_left, get_or-append_right,
}

-- `S'` agrees with `S` at a pointer to a table, if it is one.
abbrev pub Agree : (S S' : ℕ → List ℕ) → ℕ → Type 0
Agree S S' s = (s == block_sector_none) ≡ false → S' s ≡ S s

table_of-Agree : (S S' : ℕ → List ℕ) (s : ℕ) → Agree S S' s → table_of S' s ≡ table_of S s
unfolding table_of
table_of-Agree S S' s h = elim (Bool-cases (s == block_sector_none)) [
  | inl out ↦ rw out refl
  | inr real ↦ rw real (ap (decode 128) (h real))
]

tables_of-Agree :
    (S S' : ℕ → List ℕ) (l : List ℕ)
    → ((i : ℕ) → Agree S S' (get_or l i block_sector_none))
    → tables_of S' l ≡ tables_of S l
unfolding tables_of
tables_of-Agree S S' [] h = refl
tables_of-Agree S S' (s ∷ l) h =
    ap₂ ◌++◌ (table_of-Agree S S' s (h 0)) (tables_of-Agree S S' l (λ i. h (suc i)))

-- A change at sectors that are no tables of the file keeps its blocks.
pub blocks-Agree :
    (S S' : ℕ → List ℕ) (d : InodeDisk)
    → Agree S S' d.indirect
    → Agree S S' d.doubly_indirect
    → ((i : ℕ) → Agree S S' (get_or (table_of S d.doubly_indirect) i block_sector_none))
    → (table_of S' d.doubly_indirect ≡ table_of S d.doubly_indirect) × (blocks S' d ≡ blocks S d)
unfolding blocks
blocks-Agree S S' d one two inner =
    let e = table_of-Agree S S' d.doubly_indirect two in
    (
      e,
      ap (λ l. d.direct ++ l)
          (ap₂ ◌++◌ (table_of-Agree S S' d.indirect one)
            (ap (tables_of S') e ∙ tables_of-Agree S S' (table_of S d.doubly_indirect) inner)),
    )

pub get_or-take : (l : List ℕ) (n i d : ℕ) → i < n → get_or (take n l) i d ≡ get_or l i d
get_or-take [] zero i d h = refl
get_or-take [] (suc n) i d h = refl
get_or-take (x ∷ l) zero i d h = absurd (omega arith)
get_or-take (x ∷ l) (suc n) zero d h = refl
get_or-take (x ∷ l) (suc n) (suc i) d h = get_or-take l n i d (omega arith)

pub get_or-drop : (l : List ℕ) (n i d : ℕ) → get_or (drop n l) i d ≡ get_or l (n + i) d
get_or-drop l zero i d = ap (λ k. get_or l k d) (omega arith)
get_or-drop [] (suc n) i d = refl
get_or-drop (x ∷ l) (suc n) i d =
    let shift : suc (n + i) ≡ suc n + i = omega arith in
    get_or-drop l n i d ∙ ap (λ k. get_or (x ∷ l) k d) shift

-- A byte of a buffer after a copy into it: of the part, or as it was.
pub get_or-splice :
    (offset : ℕ) (part l : List ℕ) (i d : ℕ)
    → offset + length part ≤ length l
    → get_or (splice offset part l) i d
      ≡ (if in_range offset (length part) i then get_or part (i - offset) d else get_or l i d)
unfolding splice
get_or-splice offset part l i d h = elim (dec_lt i offset) [
  | yes before ↦
      get_or-append_left (take offset l) (part ++ rest) i d (omega (arith, length-take offset l))
      ∙ get_or-take l offset i d before
      ∙ ground (arith, before)
  | no p ↦ elim (dec_lt i (offset + length part)) [
    | yes inside ↦
        get_or-append_right (take offset l) (part ++ rest) i (i - offset) d
          (omega (arith, length-take offset l))
        ∙ get_or-append_left part rest (i - offset) d (omega arith)
        ∙ ground (arith, p, inside)
    | no q ↦
        get_or-append_right (take offset l) (part ++ rest) i (i - offset) d
          (omega (arith, length-take offset l))
        ∙ get_or-append_right part rest (i - offset) (i - offset - length part) d (omega arith)
        ∙ get_or-drop l (offset + length part) (i - offset - length part) d
        ∙ ap (λ k. get_or l k d) {x = offset + length part + (i - offset - length part)} {y = i}
            (omega arith)
        ∙ ground (arith, q)
  ]
]
  where
    rest : List ℕ
    rest = drop (offset + length part) l
