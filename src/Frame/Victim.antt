-- ===== src/Frame/Victim.antt =====
-- The scan of the clock as a whole: two laps at most, after the rest of the one that it starts in.
use cs130_25spring_project.Common.{
  ℕ, zero, suc, ◌+◌, ◌-◌, ◌<◌, ◌≡◌, ◌⊎◌, inl, inr, refl, sym, ap, ◌∙◌, true, Option, none, some,
  List, arith, if◌then◌else◌, length,
}
use mathlib.Core.Path.{subst}
use cs130_25spring_project.Frame.{Frame, next_frame, clear_accessed, passes, evict_rounds, rounds}
use cs130_25spring_project.Frame.Clear.{Directories, Clears, Clears-trans}
use cs130_25spring_project.Frame.Scan.{
  bump, frame_at, HaveDirectories, AllCold, AllPinned, IsVictim, round, after_last, Clears-IsVictim,
  Clears-HaveDirectories, Laps,
}
use cs130_25spring_project.Frame.Lap.{lap}

module _ (frames : List Frame) where
  -- What the scan does: it ends, with a victim unless every frame is pinned.
  abbrev pub Scanned : Directories → Option (ℕ × Directories × Option Frame) → Type 0
  Scanned ds r =
      IsVictim frames ds r
      ⊎ ((clock : ℕ) × (es : Directories) × (r ≡ some (clock, es, none))
          × Clears ds es
          × AllPinned frames 0)

  Clears-Scanned :
      (ds es : Directories) (r : Option (ℕ × Directories × Option Frame))
      → Clears ds es
      → Scanned es r
      → Scanned ds r
  Clears-Scanned ds es r c (inl v) = inl (Clears-IsVictim frames ds es r c v)
  Clears-Scanned ds es r c (inr (clock, fs, runs, c', pinned)) =
      inr (clock, fs, runs, Clears-trans ds es fs c c', pinned)

  -- The third visit of the first frame, which is pinned.
  third :
      (fuel : ℕ) (ds : Directories)
      → 0 < length frames
      → HaveDirectories frames ds
      → AllPinned frames 0
      → evict_rounds frames (suc (suc fuel)) 2 0 ds ≡ some (next_frame (length frames) 0, ds, none)
  unfolding passes
  third fuel ds pos have pinned =
      let (f, at_start) = frame_at frames 0 pos in
      let pass : passes ds f ≡ some (ds, true) =
        ap (λ b. if b then some (ds, true) else clear_accessed ds f.owner_list)
          (pinned 0 f (omega arith) at_start) in
      round frames (suc fuel) 2 0 ds ds f (omega arith) at_start pass
      ∙ after_last frames fuel (next_frame (length frames) 0) ds

  two_laps :
      (n total fuel : ℕ) (ds : Directories)
      → length frames ≡ suc n
      → total ≡ n + suc (n + suc (suc fuel))
      → HaveDirectories frames ds
      → Scanned ds (evict_rounds frames (suc total) 0 0 ds)
  two_laps n total fuel ds e t have = first_lap (
      lap frames n total (suc (n + suc (suc fuel))) 0 0 0 ds t (omega arith) (omega arith)
        (omega arith) have (λ i f h₁ h₂. absurd (omega arith)))
    where
      second_lap :
          (es : Directories)
          → evict_rounds frames (suc total) 0 0 ds
            ≡ evict_rounds frames (suc (n + suc (suc fuel))) 1 0 es
          → Clears ds es
          → AllCold frames es 0 (length frames)
          → Laps frames es 0 0 1
              (suc (suc fuel))
              (evict_rounds frames (suc (n + suc (suc fuel))) 1 0 es)
          → Scanned ds (evict_rounds frames (suc total) 0 0 ds)
      second_lap es runs c cold (inl v) = inl (
          subst (IsVictim frames ds) (sym runs) (
            Clears-IsVictim frames ds es (evict_rounds frames (suc (n + suc (suc fuel))) 1 0 es) c
              v))
      second_lap es runs c cold (inr (fs, runs', c', cold', still)) =
          let (same, pinned) = still cold in
          inr (
            next_frame (length frames) 0,
            fs,
            runs
                ∙ runs'
                ∙ third fuel fs (omega arith)
                    (Clears-HaveDirectories frames ds fs (Clears-trans ds es fs c c') have) pinned,
            Clears-trans ds es fs c c',
            pinned,
          )

      first_lap :
          Laps frames ds 0 0 0 (suc (n + suc (suc fuel))) (evict_rounds frames (suc total) 0 0 ds)
          → Scanned ds (evict_rounds frames (suc total) 0 0 ds)
      first_lap (inl v) = inl v
      first_lap (inr (es, runs, c, cold, still)) = second_lap es runs c cold (
          lap frames n (n + suc (suc fuel)) (suc (suc fuel)) 0 0 1 es refl (omega arith)
            (omega arith) (omega arith) (Clears-HaveDirectories frames ds es c have)
            (λ i f h₁ h₂. absurd (omega arith)))

  -- From the start of the list.
  from_start :
      (ds : Directories)
      → 0 < length frames
      → HaveDirectories frames ds
      → Scanned ds (evict_rounds frames (rounds frames) 0 0 ds)
  from_start ds pos have =
      let n = length frames - 1 in
      let total = n + suc (n + suc (suc (length frames))) in
      let e : suc total ≡ rounds frames = omega arith in
      subst (λ k. Scanned ds (evict_rounds frames k 0 0 ds)) e
        (two_laps n total (length frames) ds (omega arith) refl have)

  from_inside :
      (clock : ℕ) (ds : Directories)
      → 0 < clock
      → clock < length frames
      → HaveDirectories frames ds
      → Scanned ds (evict_rounds frames (rounds frames) 0 clock ds)
  from_inside clock ds pos h have = go (
      lap frames d (d + suc total) (suc total) clock clock 0 ds refl (omega arith) (omega arith)
        (ground arith) have (λ i f h₁ h₂. absurd (omega arith)))
    where
      n : ℕ
      n = length frames - 1

      d : ℕ
      d = length frames - clock - 1

      total : ℕ
      total = n + suc (n + suc (suc clock))

      e : suc (d + suc total) ≡ rounds frames
      e = omega arith

      go :
          Laps frames ds clock clock 0
            (suc total)
            (evict_rounds frames (suc (d + suc total)) 0 clock ds)
          → Scanned ds (evict_rounds frames (rounds frames) 0 clock ds)
      go (inl v) = inl (subst (λ k. IsVictim frames ds (evict_rounds frames k 0 clock ds)) e v)
      go (inr (es, runs, c, cold, still)) =
          let count : bump 0 clock ≡ 0 = ground arith in
          let same : evict_rounds frames (rounds frames) 0 clock ds
              ≡ evict_rounds frames (suc total) 0 0 es =
            ap (λ k. evict_rounds frames k 0 clock ds) (sym e)
            ∙ runs
            ∙ ap (λ k. evict_rounds frames (suc total) k 0 es) count in
          subst (Scanned ds) (sym same) (
            Clears-Scanned ds es (evict_rounds frames (suc total) 0 0 es) c (
              two_laps n total clock es (omega arith) refl
                (Clears-HaveDirectories frames ds es c have)))

  -- The scan of the clock from a frame of the list always ends, after three rounds for each frame and
  -- two more at most, where each owner of a frame has a page directory. It gives a frame of the list
  -- that is not pinned and none of whose owners has its accessed bit set, or none, and then every frame
  -- is pinned. It sets no accessed bit and takes away no directory.
  pub evict_rounds-Scanned :
      (clock : ℕ) (ds : Directories)
      → clock < length frames
      → HaveDirectories frames ds
      → Scanned ds (evict_rounds frames (rounds frames) 0 clock ds)
  evict_rounds-Scanned zero ds h have = from_start ds h have
  evict_rounds-Scanned (suc clock) ds h have = from_inside (suc clock) ds (omega arith) h have
