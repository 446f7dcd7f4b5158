-- ===== src/Heap/Pop.antt =====
-- Push and pop on a whole heap.
use cs130_25spring_project.Common.{
  ℕ, ◌+◌, ◌-◌, ◌≡◌, refl, sym, ap, ◌∙◌, inl, inr, Bool, true, false, Option, none, some, arith,
  ◌==◌, if◌then◌else◌, Bool-cases, eq→==, ne→==,
}
use cs130_25spring_project.Heap.{
  Elem, null, elem, Heap, merge, heap_push, heap_pop, heap_top, heap_empty, pop_elem,
}
use cs130_25spring_project.Heap.Count.{
  count, elements, count-meld, count-merge, IsRoot, no_root, root, meld-IsRoot, merge-IsRoot,
}
use cs130_25spring_project.Heap.Order.{IsOrder, IsOrdered, IsValid, meld-IsOrdered, merge-IsOrdered}

-- What `heap_pop` returns: nothing of an empty heap; else a value at the top that no element
-- exceeds, with every other element left in the heap.
pub data Popped {ℓ} {A : Type ℓ} (less : A → A → Bool) (heap heap' : Heap A)
    : Option A → Type ℓ where
  empty : heap.size ≡ 0 → heap' ≡ heap → Popped less heap heap' none
  popped :
      (a : A)
      → heap_top heap ≡ some a
      → count (less a) heap.top ≡ 0
      → ((p : A → Bool) → count p heap.top ≡ (if p a then 1 else 0) + count p heap'.top)
      → Popped less heap heap' (some a)

module _ {ℓ} {A : Type ℓ} (less : A → A → Bool) (o : IsOrder less) where
  -- A push keeps the heap well formed and adds the value to its elements.
  pub heap_push-IsValid :
      (heap : Heap A) (value : A)
      → IsValid less heap
      → IsValid less (heap_push less heap value)
        × ((p : A → Bool)
            → count p (heap_push less heap value).top
              ≡ count p heap.top + (if p value then 1 else 0))
  unfolding heap_push IsOrdered count
  heap_push-IsValid heap value v =
      let counts = λ (p : A → Bool). count-meld less p v.root (root value null) in
      (
        record {
          root = meld-IsRoot less v.root (root value null);
          ordered = meld-IsOrdered less o v.root (root value null) v.ordered (refl, (tt, tt));
          size = ap (λ n. n + 1) v.size ∙ sym (counts (λ a. true));
        },
        λ p. omega (arith, counts p),
      )

  irreflexive : (a : A) → less a a ≡ false
  irreflexive a = elim (Bool-cases (less a a)) [ inl h ↦ o.asym a a h | inr h ↦ h ]

  pop_root :
      (size : ℕ) (a : A) (c : Elem A)
      → count (less a) c ≡ 0
      → IsOrdered less c
      → size ≡ elements (elem a c null)
      → (heap' : Heap A) × (r : Option A) × (pop_elem less size (elem a c null) ≡ some (heap', r))
        × IsValid less heap'
        × Popped less (record { size = size; top = elem a c null }) heap' r
  unfolding pop_elem count heap_top
  pop_root size a c above ordered e = (
    record { size = size - 1; top = merge less c },
    some a,
    refl,
    record {
      root = merge-IsRoot less c;
      ordered = merge-IsOrdered less o c ordered;
      size = omega (arith, count-merge less (λ b. true) c);
    },
    popped a refl (rw (irreflexive a) (omega arith)) (λ p. omega (arith, count-merge less p c)),
  )

  by_top :
      (size : ℕ) (top : Elem A)
      → IsRoot top
      → IsOrdered less top
      → size ≡ elements top
      → (heap' : Heap A) × (r : Option A) × (heap_pop less (record { size = size; top = top })
          ≡ some (heap', r))
        × IsValid less heap'
        × Popped less (record { size = size; top = top }) heap' r
  unfolding heap_pop heap_empty count IsOrdered
  by_top size top no_root ordered e = (
    record { size = size; top = null },
    none,
    rw (eq→== e) refl,
    record { root = no_root; ordered = tt; size = e },
    empty e refl,
  )
  by_top size top (root a c) (above, (ordered, last)) e =
      let some_left : (size == 0) ≡ false = ne→== (omega arith) in
      let (heap', r, e', valid, out) = pop_root size a c above ordered e in
      (heap', r, rw some_left e', valid, out)

  -- A pop of a well-formed heap does not panic and leaves a well-formed heap. An empty heap gives
  -- nothing; any other gives its top, which no element exceeds, and keeps every other element.
  pub heap_pop-Popped :
      (heap : Heap A)
      → IsValid less heap
      → (heap' : Heap A) × (r : Option A) × (heap_pop less heap ≡ some (heap', r))
        × IsValid less heap'
        × Popped less heap heap' r
  heap_pop-Popped heap v = by_top heap.size heap.top v.root v.ordered v.size
