-- ===== src/Frame/Clear.antt =====
-- The accessed bits that the clock clears, and those that stay clear.
use cs130_25spring_project.Common.{
  ℕ, ◌≡◌, inl, inr, refl, Bool, true, false, Option, some, List, [], ◌∷◌, arith, ◌==◌, Bool-cases,
}
use cs130_25spring_project.Pagedir.{Directory, pagedir_is_accessed, pagedir_set_accessed}
use cs130_25spring_project.Frame.{Owner, assign, clear_accessed}

abbrev pub Directories : Type 0
Directories = ℕ → Option Directory

-- Every directory that there was is there, and no accessed bit was set.
abbrev pub Clears : Directories → Directories → Type 0
Clears ds es =
    (t : ℕ) (d : Directory)
    → ds t ≡ some d
    → (e : Directory) × (es t ≡ some e)
      × ((v : ℕ) → pagedir_is_accessed d v ≡ false → pagedir_is_accessed e v ≡ false)

pub Clears-refl : (ds : Directories) → Clears ds ds
Clears-refl ds t d h = (d, h, λ v a. a)

pub Clears-trans : (ds es fs : Directories) → Clears ds es → Clears es fs → Clears ds fs
Clears-trans ds es fs p q t d h =
    let (e, he, ae) = p t d h in let (f, hf, af) = q t e he in (f, hf, λ v a. af v (ae v a))

-- Each owner's thread has a directory.
unfoldable pub HaveDirectory : Directories → List Owner → Type 0
HaveDirectory ds [] = Unit {0}
HaveDirectory ds (o ∷ l) = ((d : Directory) × (ds o.thread ≡ some d)) × HaveDirectory ds l

-- No owner has accessed the page.
unfoldable pub Cold : Directories → List Owner → Type 0
Cold ds [] = Unit {0}
Cold ds (o ∷ l) =
    ((d : Directory) × (ds o.thread ≡ some d) × (pagedir_is_accessed d o.upage ≡ false)) × Cold ds l

pub Clears-HaveDirectory :
    (ds es : Directories) (l : List Owner) → Clears ds es → HaveDirectory ds l → HaveDirectory es l
unfolding HaveDirectory
Clears-HaveDirectory ds es [] c h = tt
Clears-HaveDirectory ds es (o ∷ l) c ((d, hd), h) =
    let (e, he, a) = c o.thread d hd in ((e, he), Clears-HaveDirectory ds es l c h)

pub Clears-Cold : (ds es : Directories) (l : List Owner) → Clears ds es → Cold ds l → Cold es l
unfolding Cold
Clears-Cold ds es [] c h = tt
Clears-Cold ds es (o ∷ l) c ((d, hd, cold), h) =
    let (e, he, a) = c o.thread d hd in ((e, he, a o.upage cold), Clears-Cold ds es l c h)

is_accessed-set_accessed :
    (d : Directory) (u v : ℕ)
    → pagedir_is_accessed d v ≡ false
    → pagedir_is_accessed (pagedir_set_accessed d u false) v ≡ false
unfolding pagedir_set_accessed
is_accessed-set_accessed d u v h = ground arith

is_accessed-set_accessed_self :
    (d : Directory) (u : ℕ) → pagedir_is_accessed (pagedir_set_accessed d u false) u ≡ false
unfolding pagedir_set_accessed
is_accessed-set_accessed_self d u = ground arith

-- One bit cleared.
clear_bit :
    (ds : Directories) (t : ℕ) (d : Directory) (u : ℕ)
    → ds t ≡ some d
    → Clears ds (assign ds t (some (pagedir_set_accessed d u false)))
clear_bit ds t d u h s e he = elim (Bool-cases (s == t)) [
  | inl same ↦
      (pagedir_set_accessed e u false, ground arith, λ v a. is_accessed-set_accessed e u v a)
  | inr other ↦ (e, rw other he, λ v a. a)
]

-- What the loop over the owners does: it says whether one had accessed the page, and none has at the
-- end.
pub record Cleared (ds es : Directories) (l : List Owner) (was : Bool) : Type 0 where
  pub clears : Clears ds es
  pub cold : Cold es l
  pub same : was ≡ false → es ≡ ds

pub clear_accessed-Cleared :
    (ds : Directories) (l : List Owner)
    → HaveDirectory ds l
    → (es : Directories) × (was : Bool) × (clear_accessed ds l ≡ some (es, was))
      × Cleared ds es l was
unfolding clear_accessed HaveDirectory Cold
clear_accessed-Cleared ds [] h =
    (ds, false, refl, record { clears = Clears-refl ds; cold = tt; same = λ e. refl })
clear_accessed-Cleared ds (o ∷ l) ((d, hd), h) = elim (Bool-cases (pagedir_is_accessed d o.upage)) [
  | inl set ↦
      let ds' = assign ds o.thread (some (pagedir_set_accessed d o.upage false)) in
      let bit = clear_bit ds o.thread d o.upage hd in
      let (es, was, runs, c) = clear_accessed-Cleared ds' l (Clears-HaveDirectory ds ds' l bit h) in
      let (e, he, a) = c.clears o.thread (pagedir_set_accessed d o.upage false) (ground arith) in
      (
        es,
        true,
        rw (hd, set, runs) refl,
        record {
          clears = Clears-trans ds ds' es bit c.clears;
          cold = ((e, he, a o.upage (is_accessed-set_accessed_self d o.upage)), c.cold);
          same = λ x. cc;
        },
      )
  | inr clear ↦
      let (es, was, runs, c) = clear_accessed-Cleared ds l h in
      let (e, he, a) = c.clears o.thread d hd in
      (
        es,
        was,
        rw (hd, clear, runs) refl,
        record { clears = c.clears; cold = ((e, he, a o.upage clear), c.cold); same = c.same },
      )
]

-- A page that no owner has accessed stays as it is, and the loop says so.
pub clear_accessed-Cold :
    (ds : Directories) (l : List Owner) → Cold ds l → clear_accessed ds l ≡ some (ds, false)
unfolding clear_accessed Cold
clear_accessed-Cold ds [] h = refl
clear_accessed-Cold ds (o ∷ l) ((d, hd, cold), h) = rw (hd, cold, clear_accessed-Cold ds l h) refl
