-- ===== src/Heap.antt =====
-- src/lib/kernel/heap.c: a pairing heap. The elements linked by `child` and `sibling` are a binary
-- tree whose nodes carry what the comparison reads of the structure round the element.
pub mod Count
pub mod Order
pub mod Pop
mod Tests
use cs130_25spring_project.Common.{ℕ, suc, ◌+◌, ◌-◌, Bool, Option, none, some, ◌==◌, if◌then◌else◌}

-- A `struct heap_elem *` with what it leads to.
pub data Elem {ℓ} (A : Type ℓ) : Type ℓ where
  null : Elem A
  elem : (value : A) → (child sibling : Elem A) → Elem A

pub record Heap {ℓ} (A : Type ℓ) : Type ℓ where
  pub size : ℕ
  pub top : Elem A

module _ {ℓ} {A : Type ℓ} where
  abbrev pub heap_init : Heap A
  heap_init = record { size = 0; top = null }

module _ {ℓ} {A : Type ℓ} (less : A → A → Bool) where
  -- The one with the lesser value becomes the first child of the other.
  unfoldable pub meld : Elem A → Elem A → Elem A
  meld null y = y
  meld (elem a c s) null = elem a c s
  meld (elem a c s) (elem b c' s') =
      if less a b then elem b (elem a c c') s' else elem a (elem b c' c) s

  unfoldable pub merge : Elem A → Elem A
  merge null = null
  merge (elem a c null) = elem a c null
  merge (elem a c (elem b c' rest)) = meld (merge rest) (meld (elem a c null) (elem b c' null))

  unfoldable pub heap_push : Heap A → A → Heap A
  heap_push heap value = record { size = heap.size + 1; top = meld heap.top (elem value null null) }

module _ {ℓ} {A : Type ℓ} where
  -- A null top is dereferenced only if `size` is wrong: the outer `none` of the pop is that panic, and
  -- the inner one is the null pointer it returns.
  unfoldable pub heap_empty : Heap A → Bool
  heap_empty heap = heap.size == 0

  unfoldable pub heap_top : Heap A → Option A
  heap_top heap = elim heap.top [ null ↦ none | elem a c s ↦ some a ]

  unfoldable pub pop_elem : (less : A → A → Bool) → ℕ → Elem A → Option (Heap A × Option A)
  pop_elem less size null = none
  pop_elem less size (elem a c s) = some (record { size = size - 1; top = merge less c }, some a)

  unfoldable pub heap_pop : (less : A → A → Bool) → Heap A → Option (Heap A × Option A)
  heap_pop less heap =
      if heap_empty heap then some (heap, none) else pop_elem less heap.size heap.top
