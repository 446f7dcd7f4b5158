-- ===== src/Frame/Lap.antt =====
-- The way of the clock to the end of the list.
use cs130_25spring_project.Common.{
  ℕ, zero, suc, ◌+◌, ◌≤◌, ◌<◌, ◌≡◌, ◌⊎◌, inl, inr, sym, ap, ◌∙◌, Bool, true, false, some, List,
  arith, length, get_elem?, lt_of_get_elem?,
}
use mathlib.Core.Path.{subst}
use cs130_25spring_project.Frame.{Frame, next_frame, passes, evict_rounds}
use cs130_25spring_project.Frame.Clear.{Directories, Clears, Clears-refl, Clears-trans, Cold}
use cs130_25spring_project.Frame.Scan.{
  Visits, goes_on, victim, passes-Visits, bump, frame_at, HaveDirectories, AllCold, IsVictim, round,
  last_round, Clears-IsVictim, Clears-HaveDirectories, Laps, AllCold-step, AllPinned-step,
}

module _ (frames : List Frame) where
  module _ (clock cycle_cnt total first fuel : ℕ) (ds es : Directories) (f : Frame)
      (at_clock : get_elem? frames clock ≡ some f) (few : cycle_cnt ≤ 2)
      (pass : passes ds f ≡ some (es, true)) (c : Clears ds es)
      (warm : f.pinned ≡ false → Cold es f.owner_list)
      (still : (f.pinned ≡ false → Cold ds f.owner_list) → (es ≡ ds) × (f.pinned ≡ true)) where
    -- The last frame of the list.
    lap_end :
        clock + 1 ≡ length frames
        → AllCold frames ds first clock
        → Laps frames ds first clock cycle_cnt fuel
            (evict_rounds frames (suc fuel) cycle_cnt clock ds)
    lap_end e cold =
        let next : next_frame (length frames) clock ≡ 0 = ground (arith, e) in
        inr (
          es,
          round frames fuel cycle_cnt clock ds es f few at_clock pass
              ∙ ap (λ k. evict_rounds frames fuel (bump cycle_cnt clock) k es) next,
          c,
          subst (AllCold frames es first) e
              (AllCold-step frames ds es f first clock at_clock c warm cold),
          λ cold_on.
              let (same, pinned) = still (cold_on clock f (omega arith) (omega arith) at_clock) in
              (
                same,
                AllPinned-step frames f clock at_clock pinned
                    (λ i g h at_i. absurd (omega (arith, lt_of_get_elem? frames i at_i))),
              ),
        )

    -- Any other frame, with the rest of the way.
    lap_more :
        clock + 1 < length frames
        → Laps frames es first
            (clock + 1)
            (bump cycle_cnt clock)
            fuel
            (evict_rounds frames total (bump cycle_cnt clock) (clock + 1) es)
        → Laps frames ds first clock cycle_cnt fuel
            (evict_rounds frames (suc total) cycle_cnt clock ds)
    lap_more h l = go l
      where
        next : next_frame (length frames) clock ≡ clock + 1
        next = ground (arith, h)

        step :
            evict_rounds frames (suc total) cycle_cnt clock ds
            ≡ evict_rounds frames total (bump cycle_cnt clock) (clock + 1) es
        step =
            round frames total cycle_cnt clock ds es f few at_clock pass
            ∙ ap (λ k. evict_rounds frames total (bump cycle_cnt clock) k es) next

        go :
            Laps frames es first
              (clock + 1)
              (bump cycle_cnt clock)
              fuel
              (evict_rounds frames total (bump cycle_cnt clock) (clock + 1) es)
            → Laps frames ds first clock cycle_cnt fuel
                (evict_rounds frames (suc total) cycle_cnt clock ds)
        go (inl v) = inl (
            Clears-IsVictim frames ds es (evict_rounds frames (suc total) cycle_cnt clock ds) c
              (subst (IsVictim frames es) (sym step) v))
        go (inr (fs, runs, c', cold, still')) = inr (
          fs,
          step ∙ runs ∙ ap (λ k. evict_rounds frames fuel k 0 fs) (ground arith),
          Clears-trans ds es fs c c',
          cold,
          λ cold_on.
              let (same, pinned) = still (cold_on clock f (omega arith) (omega arith) at_clock) in
              let (same', pinned') = still' (λ i g h₁ h₂ at_i free.
                subst (λ x. Cold x g.owner_list) (sym same)
                  (cold_on i g (omega arith) h₂ at_i free)) in
              (same' ∙ same, AllPinned-step frames f clock at_clock pinned pinned'),
        )

  -- A frame that the scan goes on from.
  abbrev Passed : Directories → (clock : ℕ) → Type 0
  Passed ds clock =
      (f : Frame) × (es : Directories) × (get_elem? frames clock ≡ some f)
      × (passes ds f ≡ some (es, true))
      × Clears ds es
      × (f.pinned ≡ false → Cold es f.owner_list)
      × ((f.pinned ≡ false → Cold ds f.owner_list) → (es ≡ ds) × (f.pinned ≡ true))

  visit :
      (total clock cycle_cnt : ℕ) (ds : Directories)
      → clock < length frames
      → cycle_cnt ≤ 2
      → HaveDirectories frames ds
      → IsVictim frames ds (evict_rounds frames (suc total) cycle_cnt clock ds) ⊎ Passed ds clock
  visit total clock cycle_cnt ds h few have =
      let (f, at_clock) = frame_at frames clock h in
      let (es, pass, runs, v) = passes-Visits ds f (have clock f at_clock) in
      go f es pass at_clock runs v
    where
      go :
          (f : Frame) (es : Directories) (pass : Bool)
          → get_elem? frames clock ≡ some f
          → passes ds f ≡ some (es, pass)
          → Visits ds f es pass
          → IsVictim frames ds (evict_rounds frames (suc total) cycle_cnt clock ds)
            ⊎ Passed ds clock
      go f es true at_clock runs (goes_on c warm still) =
          inr (f, es, at_clock, runs, c, warm, still)
      go f es false at_clock runs (victim free cold) = inl (
        next_frame (length frames) clock,
        clock,
        ds,
        f,
        last_round frames total cycle_cnt clock ds ds f few at_clock runs,
        at_clock,
        free,
        cold,
        Clears-refl ds,
      )

  -- `d` frames follow that of the clock.
  pub lap :
      (d total fuel first clock cycle_cnt : ℕ) (ds : Directories)
      → total ≡ d + fuel
      → clock + suc d ≡ length frames
      → first ≤ clock
      → bump cycle_cnt clock ≤ 2
      → HaveDirectories frames ds
      → AllCold frames ds first clock
      → Laps frames ds first clock cycle_cnt fuel
          (evict_rounds frames (suc total) cycle_cnt clock ds)
  lap zero total fuel first clock cycle_cnt ds t e h few have cold =
      elim (visit total clock cycle_cnt ds (omega arith) (ground (arith, few)) have) [
        | inl v ↦ inl v
        | inr (f, es, at_clock, runs, c, warm, still) ↦
            let e' : fuel ≡ total = omega arith in
            subst
              (λ k.
                Laps frames ds first clock cycle_cnt fuel
                  (evict_rounds frames (suc k) cycle_cnt clock ds))
              e'
              (lap_end clock cycle_cnt total first fuel ds es f at_clock (ground (arith, few)) runs
                c warm still (omega arith) cold)
      ]
  lap (suc d) zero fuel first clock cycle_cnt ds t e h few have cold = absurd (omega arith)
  lap (suc d) (suc total) fuel first clock cycle_cnt ds t e h few have cold =
      elim (visit (suc total) clock cycle_cnt ds (omega arith) (ground (arith, few)) have) [
        | inl v ↦ inl v
        | inr (f, es, at_clock, runs, c, warm, still) ↦
            lap_more clock cycle_cnt (suc total) first fuel ds es f at_clock (ground (arith, few))
              runs c warm still (omega arith)
              (lap d total fuel first (clock + 1) (bump cycle_cnt clock) es (omega arith)
                (omega arith) (omega arith) (ground (arith, few))
                (Clears-HaveDirectories frames ds es c have)
                (AllCold-step frames ds es f first clock at_clock c warm cold))
      ]
