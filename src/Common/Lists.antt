-- ===== src/Common/Lists.antt =====
-- C arrays as lists with native indices: a read, a write and the number of elements.
use Prim.Native.Nat.{ℕ, zero, suc, ◌+◌, ◌<◌, ◌≤◌}
use mathlib.Core.Path.{◌≡◌, refl, ap}
use mathlib.Core.Logic.{◌≢◌}
use mathlib.Core.List.{List, [], ◌∷◌, ◌++◌}
use mathlib.Core.Option.{Option, none, some}
use native.Mathlib.Omega.{arith}

module _ {ℓ} {A : Type ℓ} where
  abbrev pub length : List A → ℕ
  length [] = 0
  length (x ∷ xs) = suc (length xs)

  abbrev pub get_elem? : List A → ℕ → Option A
  get_elem? [] i = none
  get_elem? (x ∷ xs) zero = some x
  get_elem? (x ∷ xs) (suc i) = get_elem? xs i

  abbrev pub get_or : List A → ℕ → A → A
  get_or [] i d = d
  get_or (x ∷ xs) zero d = x
  get_or (x ∷ xs) (suc i) d = get_or xs i d

  -- A write past the end changes nothing; the code's own bounds are stated where it is used.
  abbrev pub set : List A → ℕ → A → List A
  set [] i v = []
  set (x ∷ xs) zero v = v ∷ xs
  set (x ∷ xs) (suc i) v = x ∷ set xs i v

  abbrev pub replicate : ℕ → A → List A
  replicate zero a = []
  replicate (suc n) a = a ∷ replicate n a

  abbrev pub take : ℕ → List A → List A
  take zero xs = []
  take (suc n) [] = []
  take (suc n) (x ∷ xs) = x ∷ take n xs

  abbrev pub drop : ℕ → List A → List A
  drop zero xs = xs
  drop (suc n) [] = []
  drop (suc n) (x ∷ xs) = drop n xs

module _ {ℓ} {A : Type ℓ} where
  pub length-set : (l : List A) (i : ℕ) (v : A) → length (set l i v) ≡ length l
  length-set [] i v = refl
  length-set (x ∷ l) zero v = refl
  length-set (x ∷ l) (suc i) v = ap suc (length-set l i v)

  pub length-replicate : (n : ℕ) (a : A) → length (replicate n a) ≡ n
  length-replicate zero a = refl
  length-replicate (suc n) a = ap suc (length-replicate n a)

  pub length-append : (l m : List A) → length (l ++ m) ≡ length l + length m
  length-append [] m = omega arith
  length-append (x ∷ l) m = omega (arith, length-append l m)

  pub get_elem?_of_lt :
      (l : List A) (i : ℕ) (d : A) → i < length l → get_elem? l i ≡ some (get_or l i d)
  get_elem?_of_lt [] i d h = absurd (omega arith)
  get_elem?_of_lt (x ∷ l) zero d h = refl
  get_elem?_of_lt (x ∷ l) (suc i) d h = get_elem?_of_lt l i d (omega arith)

  pub get_elem?_of_ge : (l : List A) (i : ℕ) → length l ≤ i → get_elem? l i ≡ none
  get_elem?_of_ge [] i h = refl
  get_elem?_of_ge (x ∷ l) zero h = absurd (omega arith)
  get_elem?_of_ge (x ∷ l) (suc i) h = get_elem?_of_ge l i (omega arith)

  pub get_or-set_self : (l : List A) (i : ℕ) (v d : A) → i < length l → get_or (set l i v) i d ≡ v
  get_or-set_self [] i v d h = absurd (omega arith)
  get_or-set_self (x ∷ l) zero v d h = refl
  get_or-set_self (x ∷ l) (suc i) v d h = get_or-set_self l i v d (omega arith)

  pub get_or-set_ne :
      (l : List A) (i j : ℕ) (v d : A) → i ≢ j → get_or (set l i v) j d ≡ get_or l j d
  get_or-set_ne [] i j v d h = refl
  get_or-set_ne (x ∷ l) zero zero v d h = absurd (h refl)
  get_or-set_ne (x ∷ l) zero (suc j) v d h = refl
  get_or-set_ne (x ∷ l) (suc i) zero v d h = refl
  get_or-set_ne (x ∷ l) (suc i) (suc j) v d h = get_or-set_ne l i j v d (λ e. h (ap suc e))

  pub get_elem?-set_self :
      (l : List A) (i : ℕ) (v : A) → i < length l → get_elem? (set l i v) i ≡ some v
  get_elem?-set_self [] i v h = absurd (omega arith)
  get_elem?-set_self (x ∷ l) zero v h = refl
  get_elem?-set_self (x ∷ l) (suc i) v h = get_elem?-set_self l i v (omega arith)

  pub get_elem?-set_ne :
      (l : List A) (i j : ℕ) (v : A) → i ≢ j → get_elem? (set l i v) j ≡ get_elem? l j
  get_elem?-set_ne [] i j v h = refl
  get_elem?-set_ne (x ∷ l) zero zero v h = absurd (h refl)
  get_elem?-set_ne (x ∷ l) zero (suc j) v h = refl
  get_elem?-set_ne (x ∷ l) (suc i) zero v h = refl
  get_elem?-set_ne (x ∷ l) (suc i) (suc j) v h = get_elem?-set_ne l i j v (λ e. h (ap suc e))

  pub lt_of_get_elem? : (l : List A) (i : ℕ) {v : A} → get_elem? l i ≡ some v → i < length l
  lt_of_get_elem? [] i h = cc
  lt_of_get_elem? (x ∷ l) zero h = omega arith
  lt_of_get_elem? (x ∷ l) (suc i) h = omega (arith, lt_of_get_elem? l i h)

  pub set-set : (l : List A) (i : ℕ) (v w : A) → set (set l i v) i w ≡ set l i w
  set-set [] i v w = refl
  set-set (x ∷ l) zero v w = refl
  set-set (x ∷ l) (suc i) v w = ap (λ r. x ∷ r) (set-set l i v w)
