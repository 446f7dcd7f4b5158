-- ===== src/Thread/Max.antt =====
-- `thread_list_max` finds the first of the threads with the greatest priority.
use cs130_25spring_project.Common.{
  ℕ, ◌≤◌, ◌<◌, ◌≡◌, ◌≢◌, refl, sym, ap, inl, inr, Bool, Option, some, List, [], ◌∷◌, ◌++◌, arith,
  ltb, Bool-cases, ne→==,
}
use cs130_25spring_project.Thread.{Thread, effective, thread_less, list_max, thread_list_max}

unfoldable pub All {ℓ} : {A : Type ℓ} → (A → Type 0) → List A → Type 0
All P [] = Unit {0}
All P (x ∷ l) = P x × All P l

pub All-map {ℓ} :
    {A : Type ℓ} {P Q : A → Type 0} (l : List A) → ((x : A) → P x → Q x) → All P l → All Q l
unfolding All
All-map [] f h = tt
All-map (x ∷ l) f (p, h) = (f x p, All-map l f h)

module _ (threads : ℕ → Thread) where
  abbrev pub pri : ℕ → ℕ
  pri t = effective (threads t)

  -- No two entries have the same identifier.
  unfoldable pub Distinct : List ℕ → Type 0
  Distinct [] = Unit {0}
  Distinct (t ∷ l) = All (λ u. (threads t).tid ≢ (threads u).tid) l × Distinct l

  -- `r` is the first of the greatest of `m ∷ l`.
  pub data Greatest (m : ℕ) (l : List ℕ) (r : ℕ) : Type 0 where
    first : r ≡ m → All (λ t. pri t ≤ pri r) l → Greatest m l r
    later :
        (before after : List ℕ)
        → l ≡ before ++ (r ∷ after)
        → pri m < pri r
        → All (λ t. pri t < pri r) before
        → All (λ t. pri t ≤ pri r) after
        → Greatest m l r

  abbrev less : ℕ → ℕ → Option Bool
  less a b = thread_less (threads a) (threads b)

  less-ltb : (a b : ℕ) → (threads a).tid ≢ (threads b).tid → less a b ≡ some (ltb (pri a) (pri b))
  unfolding thread_less
  less-ltb a b ne = rw (ne→== ne) refl

  -- One more entry, less than the start of the rest or not.
  Greatest-cons :
      (m e : ℕ) (l : List ℕ) (r : ℕ) → pri m < pri e → Greatest e l r → Greatest m (e ∷ l) r
  unfolding All
  Greatest-cons m e l r h (first same rest) =
      later [] l (ap (λ x. x ∷ l) (sym same)) (rw same h) tt rest
  Greatest-cons m e l r h (later before after split above small rest) =
      later (e ∷ before) after (ap (λ x. e ∷ x) split) (omega arith) (above, small) rest

  Greatest-skip :
      (m e : ℕ) (l : List ℕ) (r : ℕ) → pri e ≤ pri m → Greatest m l r → Greatest m (e ∷ l) r
  unfolding All
  Greatest-skip m e l r h (first same rest) = first same (rw same h, rest)
  Greatest-skip m e l r h (later before after split above small rest) =
      later (e ∷ before) after (ap (λ x. e ∷ x) split) above (omega arith, small) rest

  list_max-Greatest :
      (m : ℕ) (l : List ℕ)
      → All (λ u. (threads m).tid ≢ (threads u).tid) l
      → Distinct l
      → (r : ℕ) × (list_max less m l ≡ some r) × Greatest m l r
  unfolding list_max Distinct All
  list_max-Greatest m [] apart d = (m, refl, first refl tt)
  list_max-Greatest m (e ∷ l) (ne, apart) (apart_e, d) = elim (Bool-cases (ltb (pri m) (pri e))) [
    | inl h ↦
        let (r, found, g) = list_max-Greatest e l apart_e d in
        (r, rw (less-ltb m e ne, h) found, Greatest-cons m e l r (ground (arith, h)) g)
    | inr h ↦
        let (r, found, g) = list_max-Greatest m l apart d in
        (r, rw (less-ltb m e ne, h) found, Greatest-skip m e l r (ground (arith, h)) g)
  ]

  -- A list of threads with different identifiers, split at the first of those with the greatest
  -- priority, which is the one that `thread_list_max` returns.
  pub thread_list_max-first :
      (m : ℕ) (l : List ℕ)
      → Distinct (m ∷ l)
      → (r : ℕ) × (before after : List ℕ) × (thread_list_max threads (m ∷ l) ≡ some r)
        × (m ∷ l ≡ before ++ (r ∷ after))
        × All (λ t. pri t < pri r) before
        × All (λ t. pri t ≤ pri r) after
  unfolding thread_list_max Distinct All
  thread_list_max-first m l (apart, d) = go (list_max-Greatest m l apart d)
    where
      go :
          (r : ℕ) × (list_max less m l ≡ some r) × Greatest m l r
          → (r : ℕ) × (before after : List ℕ) × (thread_list_max threads (m ∷ l) ≡ some r)
            × (m ∷ l ≡ before ++ (r ∷ after))
            × All (λ t. pri t < pri r) before
            × All (λ t. pri t ≤ pri r) after
      go (r, found, first same rest) = (r, [], l, found, ap (λ x. x ∷ l) (sym same), tt, rest)
      go (r, found, later before after split above small rest) =
          (r, m ∷ before, after, found, ap (λ x. m ∷ x) split, (above, small), rest)
