-- ===== src/Heap/Count.antt =====
-- The contents of a heap by counting, and what its operations keep of them.
use cs130_25spring_project.Common.{
  ℕ, ◌+◌, ◌≤◌, ◌≡◌, refl, inl, inr, Bool, true, arith, if◌then◌else◌, Bool-cases,
}
use cs130_25spring_project.Heap.{Elem, null, elem, meld, merge}

module _ {ℓ} {A : Type ℓ} where
  -- How many elements satisfy `p`.
  unfoldable pub count : (A → Bool) → Elem A → ℕ
  count p null = 0
  count p (elem a c s) = (if p a then 1 else 0) + count p c + count p s

  abbrev pub elements : Elem A → ℕ
  elements t = count (λ a. true) t

  pub count_mono :
      (p q : A → Bool) (t : Elem A) → ((a : A) → p a ≡ true → q a ≡ true) → count p t ≤ count q t
  unfolding count
  count_mono p q null h = omega arith
  count_mono p q (elem a c s) h = ground (arith, count_mono p q c h, count_mono p q s h, h a)

-- An element without a sibling, or none: what `meld` takes, since it overwrites a sibling.
pub data IsRoot {ℓ} {A : Type ℓ} : Elem A → Type ℓ where
  no_root : IsRoot null
  root : (a : A) (c : Elem A) → IsRoot (elem a c null)

module _ {ℓ} {A : Type ℓ} (less : A → A → Bool) where
  pub meld-IsRoot : {x y : Elem A} → IsRoot x → IsRoot y → IsRoot (meld less x y)
  unfolding meld
  meld-IsRoot no_root r = r
  meld-IsRoot (root a c) no_root = root a c
  meld-IsRoot (root a c) (root b c') = elim (Bool-cases (less a b)) [
    | inl h ↦ rw h (root b (elem a c c'))
    | inr h ↦ rw h (root a (elem b c' c))
  ]

  pub merge-IsRoot : (x : Elem A) → IsRoot (merge less x)
  unfolding merge
  merge-IsRoot null = no_root
  merge-IsRoot (elem a c null) = root a c
  merge-IsRoot (elem a c (elem b c' rest)) =
      meld-IsRoot (merge-IsRoot rest) (meld-IsRoot (root a c) (root b c'))

  -- Melding and merging keep the elements.
  pub count-meld :
      (p : A → Bool) {x y : Elem A}
      → IsRoot x
      → IsRoot y
      → count p (meld less x y) ≡ count p x + count p y
  unfolding count meld
  count-meld p {y = y} no_root r = omega arith
  count-meld p (root a c) no_root = omega arith
  count-meld p (root a c) (root b c') = elim (Bool-cases (less a b)) [
    | inl h ↦ rw h (omega arith)
    | inr h ↦ rw h (omega arith)
  ]

  pub count-merge : (p : A → Bool) (x : Elem A) → count p (merge less x) ≡ count p x
  unfolding count merge
  count-merge p null = refl
  count-merge p (elem a c null) = refl
  count-merge p (elem a c (elem b c' rest)) =
      let two = count-meld p (root a c) (root b c') in
      let all = count-meld p (merge-IsRoot rest) (meld-IsRoot (root a c) (root b c')) in
      omega (arith, all, two, count-merge p rest)
