-- ===== src/Heap/Order.antt =====
-- The order of a heap: no element of a child's part is greater than the element above it.
use cs130_25spring_project.Common.{◌≡◌, inl, inr, Bool, true, false, arith, Bool-cases}
use cs130_25spring_project.Heap.{Elem, null, elem, Heap, meld, merge}
use cs130_25spring_project.Heap.Count.{
  count, elements, count_mono, IsRoot, no_root, root, meld-IsRoot, merge-IsRoot,
}

-- What the comparison has to satisfy: not less is transitive, and less is asymmetric.
pub record IsOrder {ℓ} {A : Type ℓ} (less : A → A → Bool) : Type ℓ where
  pub asym : (a b : A) → less a b ≡ true → less b a ≡ false
  pub trans : (a b c : A) → less a b ≡ false → less b c ≡ false → less a c ≡ false

unfoldable pub IsOrdered {ℓ} : {A : Type ℓ} → (A → A → Bool) → Elem A → Type 0
IsOrdered less null = Unit {0}
IsOrdered less (elem a c s) = (count (less a) c ≡ 0) × (IsOrdered less c × IsOrdered less s)

-- The top has no sibling, the order holds and `size` is right.
pub record IsValid {ℓ} {A : Type ℓ} (less : A → A → Bool) (heap : Heap A) : Type ℓ where
  pub root : IsRoot heap.top
  pub ordered : IsOrdered less heap.top
  pub size : heap.size ≡ elements heap.top

module _ {ℓ} {A : Type ℓ} (less : A → A → Bool) (o : IsOrder less) where
  -- What is not greater than `b` is not greater than `a`, if `b` is not.
  below : (a b : A) (t : Elem A) → less a b ≡ false → count (less b) t ≡ 0 → count (less a) t ≡ 0
  below a b t h e = let le = count_mono (less a) (less b) t step in omega arith
    where
      step : (c : A) → less a c ≡ true → less b c ≡ true
      step c greater = elim (Bool-cases (less b c)) [
        | inl yes_less ↦ yes_less
        | inr no_less ↦ absurd (ground (arith, greater, o.trans a b c h no_less))
      ]

  pub meld-IsOrdered :
      {x y : Elem A}
      → IsRoot x
      → IsRoot y
      → IsOrdered less x
      → IsOrdered less y
      → IsOrdered less (meld less x y)
  unfolding IsOrdered meld count
  meld-IsOrdered no_root r u v = v
  meld-IsOrdered (root a c) no_root u v = u
  meld-IsOrdered (root a c) (root b c') (above_a, (ordered_a, none_a))
        (above_b, (ordered_b, none_b)) =
      elim (Bool-cases (less a b)) [
        | inl h ↦
            let not_less = o.asym a b h in
            let all = below b a c not_less above_a in
            rw (h, not_less) (omega arith, ((above_a, (ordered_a, ordered_b)), tt))
        | inr h ↦
            let all = below a b c' h above_b in
            rw h (rw h (omega arith), ((above_b, (ordered_b, ordered_a)), tt))
      ]

  pub merge-IsOrdered : (x : Elem A) → IsOrdered less x → IsOrdered less (merge less x)
  unfolding IsOrdered merge count
  merge-IsOrdered null u = u
  merge-IsOrdered (elem a c null) u = u
  merge-IsOrdered (elem a c (elem b c' rest))
        (above_a, (ordered_a, (above_b, (ordered_b, ordered)))) =
      meld-IsOrdered (merge-IsRoot less rest) (meld-IsRoot less (root a c) (root b c'))
        (merge-IsOrdered rest ordered)
        (meld-IsOrdered (root a c) (root b c') (above_a, (ordered_a, tt))
          (above_b, (ordered_b, tt)))
