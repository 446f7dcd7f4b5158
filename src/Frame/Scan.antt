-- ===== src/Frame/Scan.antt =====
-- The scan of the clock for a frame to evict.
use cs130_25spring_project.Common.{
  ℕ, zero, suc, ◌+◌, ◌≤◌, ◌<◌, ◌≡◌, ◌⊎◌, inl, inr, refl, sym, ap, ◌∙◌, Bool, true, false, Option,
  none, some, List, [], ◌∷◌, arith, ◌==◌, le→leb, if◌then◌else◌, Bool-cases, length, get_elem?,
}
use mathlib.Core.Path.{subst}
use cs130_25spring_project.Frame.{Frame, next_frame, clear_accessed, passes, evict_rounds}
use cs130_25spring_project.Frame.Clear.{
  Directories, Clears, Clears-refl, Clears-trans, HaveDirectory, Clears-HaveDirectory, Cold,
  Clears-Cold, Cleared, clear_accessed-Cleared, clear_accessed-Cold,
}

-- What a look at a frame does: the scan goes on, and unless the frame is pinned no owner has accessed
-- it now, though one had; or the frame is the victim.
pub data Visits (ds : Directories) (f : Frame) : Directories → Bool → Type 0 where
  goes_on :
      {es : Directories}
      → Clears ds es
      → (f.pinned ≡ false → Cold es f.owner_list)
      → ((f.pinned ≡ false → Cold ds f.owner_list) → (es ≡ ds) × (f.pinned ≡ true))
      → Visits ds f es true
  victim : f.pinned ≡ false → Cold ds f.owner_list → Visits ds f ds false

pub passes-Visits :
    (ds : Directories) (f : Frame)
    → HaveDirectory ds f.owner_list
    → (es : Directories) × (pass : Bool) × (passes ds f ≡ some (es, pass)) × Visits ds f es pass
unfolding passes
passes-Visits ds f h = elim (Bool-cases f.pinned) [
  | inl pinned ↦ (
    ds,
    true,
    ap (λ b. if b then some (ds, true) else clear_accessed ds f.owner_list) pinned,
    goes_on (Clears-refl ds) (λ x. cc) (λ x. (refl, pinned)),
  )
  | inr free ↦ go free (clear_accessed-Cleared ds f.owner_list h)
]
  where
    go :
        f.pinned ≡ false
        → (es : Directories) × (was : Bool) × (clear_accessed ds f.owner_list ≡ some (es, was))
          × Cleared ds es f.owner_list was
        → (es : Directories) × (pass : Bool) × ((if f.pinned
              then some (ds, true)
              else clear_accessed ds f.owner_list)
            ≡ some (es, pass))
          × Visits ds f es pass
    go free (es, true, runs, c) = (
      es,
      true,
      ap (λ b. if b then some (ds, true) else clear_accessed ds f.owner_list) free ∙ runs,
      goes_on c.clears (λ x. c.cold)
          (λ cold.
            let e = sym runs ∙ clear_accessed-Cold ds f.owner_list (cold free) in
            absurd (ground (arith, e))),
    )
    go free (es, false, runs, c) = (
      ds,
      false,
      ap (λ b. if b then some (ds, true) else clear_accessed ds f.owner_list) free
          ∙ runs
          ∙ ap (λ x. some (x, false)) (c.same refl),
      victim free (subst (λ x. Cold x f.owner_list) (c.same refl) c.cold),
    )

abbrev pub bump : (cycle_cnt clock : ℕ) → ℕ
bump cycle_cnt clock = if clock == 0 then cycle_cnt + 1 else cycle_cnt

pub frame_at : (l : List Frame) (i : ℕ) → i < length l → (f : Frame) × (get_elem? l i ≡ some f)
frame_at [] i h = absurd (omega arith)
frame_at (f ∷ l) zero h = (f, refl)
frame_at (f ∷ l) (suc i) h = frame_at l i (omega arith)

module _ (frames : List Frame) where
  -- Each owner of each frame has a directory.
  abbrev pub HaveDirectories : Directories → Type 0
  HaveDirectories ds =
      (i : ℕ) (f : Frame) → get_elem? frames i ≡ some f → HaveDirectory ds f.owner_list

  -- No owner has accessed a frame from `first` on and before `last`, those that are pinned aside.
  abbrev pub AllCold : Directories → (first last : ℕ) → Type 0
  AllCold ds first last =
      (i : ℕ) (f : Frame)
      → first ≤ i
      → i < last
      → get_elem? frames i ≡ some f
      → f.pinned ≡ false
      → Cold ds f.owner_list

  abbrev pub AllPinned : (first : ℕ) → Type 0
  AllPinned first = (i : ℕ) (f : Frame) → first ≤ i → get_elem? frames i ≡ some f → f.pinned ≡ true

  -- The scan ends at a frame of the list that is not pinned and that no owner has accessed.
  abbrev pub IsVictim : Directories → Option (ℕ × Directories × Option Frame) → Type 0
  IsVictim ds r =
      (clock i : ℕ) × (es : Directories) × (f : Frame) × (r ≡ some (clock, es, some f))
      × (get_elem? frames i ≡ some f)
      × (f.pinned ≡ false)
      × Cold es f.owner_list
      × Clears ds es

  pub round :
      (fuel cycle_cnt clock : ℕ) (ds es : Directories) (f : Frame)
      → cycle_cnt ≤ 2
      → get_elem? frames clock ≡ some f
      → passes ds f ≡ some (es, true)
      → evict_rounds frames (suc fuel) cycle_cnt clock ds
        ≡ evict_rounds frames fuel (bump cycle_cnt clock) (next_frame (length frames) clock) es
  unfolding evict_rounds
  round fuel cycle_cnt clock ds es f h at_clock pass = rw (le→leb h, at_clock, pass) refl

  pub last_round :
      (fuel cycle_cnt clock : ℕ) (ds es : Directories) (f : Frame)
      → cycle_cnt ≤ 2
      → get_elem? frames clock ≡ some f
      → passes ds f ≡ some (es, false)
      → evict_rounds frames (suc fuel) cycle_cnt clock ds
        ≡ some (next_frame (length frames) clock, es, some f)
  unfolding evict_rounds
  last_round fuel cycle_cnt clock ds es f h at_clock pass = rw (le→leb h, at_clock, pass) refl

  pub after_last :
      (fuel clock : ℕ) (ds : Directories)
      → evict_rounds frames (suc fuel) 3 clock ds ≡ some (clock, ds, none)
  unfolding evict_rounds
  after_last fuel clock ds = refl

  pub Clears-IsVictim :
      (ds es : Directories) (r : Option (ℕ × Directories × Option Frame))
      → Clears ds es
      → IsVictim es r
      → IsVictim ds r
  Clears-IsVictim ds es r c (clock, i, fs, f, runs, at_i, free, cold, c') =
      (clock, i, fs, f, runs, at_i, free, cold, Clears-trans ds es fs c c')

  pub Clears-HaveDirectories :
      (ds es : Directories) → Clears ds es → HaveDirectories ds → HaveDirectories es
  Clears-HaveDirectories ds es c h = λ i f e. Clears-HaveDirectory ds es f.owner_list c (h i f e)

  -- From a position to the end of the list: a victim, or the scan goes on from the start of the list.
  -- Then no frame on the way has been accessed now; if none had been before, all are pinned.
  abbrev pub Laps :
      Directories
      → (first clock cycle_cnt fuel : ℕ) → Option (ℕ × Directories × Option Frame)
      → Type 0
  Laps ds first clock cycle_cnt fuel r =
      IsVictim ds r
      ⊎ ((es : Directories) × (r ≡ evict_rounds frames fuel (bump cycle_cnt clock) 0 es)
          × Clears ds es
          × AllCold es first (length frames)
          × (AllCold ds clock (length frames) → (es ≡ ds) × AllPinned clock))

  -- One frame more that is cold.
  pub AllCold-step :
      (ds es : Directories) (f : Frame) (first clock : ℕ)
      → get_elem? frames clock ≡ some f
      → Clears ds es
      → (f.pinned ≡ false → Cold es f.owner_list)
      → AllCold ds first clock
      → AllCold es first (clock + 1)
  AllCold-step ds es f first clock at_clock c cold all i g h₁ h₂ at_i free =
      elim (Bool-cases (i == clock)) [
        | inl same ↦
            let e : some f ≡ some g = sym at_clock ∙ ap (get_elem? frames) (ground arith) ∙ at_i in
            let e' : f ≡ g = cc in
            subst (λ x. Cold es x.owner_list) e' (cold (ap (λ x. x.pinned) e' ∙ free))
        | inr other ↦ Clears-Cold ds es g.owner_list c (all i g h₁ (ground arith) at_i free)
      ]

  pub AllPinned-step :
      (f : Frame) (clock : ℕ)
      → get_elem? frames clock ≡ some f
      → f.pinned ≡ true
      → AllPinned (clock + 1)
      → AllPinned clock
  AllPinned-step f clock at_clock pinned all i g h at_i = elim (Bool-cases (i == clock)) [
    | inl same ↦
        let e : some f ≡ some g = sym at_clock ∙ ap (get_elem? frames) (ground arith) ∙ at_i in
        let e' : f ≡ g = cc in sym (ap (λ x. x.pinned) e') ∙ pinned
    | inr other ↦ all i g (ground arith) at_i
  ]
