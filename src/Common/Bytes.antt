-- ===== src/Common/Bytes.antt =====
-- Buffers as lists of bytes: a part of a buffer, and `memcpy` into a part of one.
use Prim.Native.Nat.{ℕ, zero, suc, ◌+◌, ◌-◌, ◌≤◌, min}
use mathlib.Core.Path.{◌≡◌, refl, ap, ap₂, ◌∙◌, sym}
use mathlib.Core.List.{List, [], ◌∷◌, ◌++◌, append-nil}
use native.Mathlib.Omega.{arith}
use cs130_25spring_project.Common.Lists.{length, take, drop, length-append}

module _ {ℓ} {A : Type ℓ} where
  -- the `size` elements of `l` from `offset` on
  abbrev pub slice : ℕ → ℕ → List A → List A
  slice offset size l = take size (drop offset l)

  -- `memcpy (l + offset, part, length part)`
  unfoldable pub splice : ℕ → List A → List A → List A
  splice offset part l = take offset l ++ (part ++ drop (offset + length part) l)

module _ {ℓ} {A : Type ℓ} where
  pub length-take : (n : ℕ) (l : List A) → length (take n l) ≡ min n (length l)
  length-take zero l = omega arith
  length-take (suc n) [] = omega arith
  length-take (suc n) (x ∷ l) = omega (arith, length-take n l)

  pub length-drop : (n : ℕ) (l : List A) → length (drop n l) ≡ length l - n
  length-drop zero l = omega arith
  length-drop (suc n) [] = omega arith
  length-drop (suc n) (x ∷ l) = omega (arith, length-drop n l)

  pub take-append-drop : (n : ℕ) (l : List A) → take n l ++ drop n l ≡ l
  take-append-drop zero l = refl
  take-append-drop (suc n) [] = refl
  take-append-drop (suc n) (x ∷ l) = ap (λ r. x ∷ r) (take-append-drop n l)

  pub take-nil : (n : ℕ) → take {A = A} n [] ≡ []
  take-nil zero = refl
  take-nil (suc n) = refl

  pub drop-nil : (n : ℕ) → drop {A = A} n [] ≡ []
  drop-nil zero = refl
  drop-nil (suc n) = refl

  pub take_of_le : (n : ℕ) (l : List A) → length l ≤ n → take n l ≡ l
  take_of_le zero [] h = refl
  take_of_le zero (x ∷ l) h = absurd (omega arith)
  take_of_le (suc n) [] h = refl
  take_of_le (suc n) (x ∷ l) h = ap (λ r. x ∷ r) (take_of_le n l (omega arith))

  pub drop_of_le : (n : ℕ) (l : List A) → length l ≤ n → drop n l ≡ []
  drop_of_le zero [] h = refl
  drop_of_le zero (x ∷ l) h = absurd (omega arith)
  drop_of_le (suc n) [] h = refl
  drop_of_le (suc n) (x ∷ l) h = drop_of_le n l (omega arith)

  -- Taking from or dropping of a concatenation at the seam, and before it.
  pub take-append : (n : ℕ) (l m : List A) → n ≡ length l → take n (l ++ m) ≡ l
  take-append zero [] m e = refl
  take-append zero (x ∷ l) m e = absurd (omega arith)
  take-append (suc n) [] m e = absurd (omega arith)
  take-append (suc n) (x ∷ l) m e = ap (λ r. x ∷ r) (take-append n l m (omega arith))

  pub drop-append : (n : ℕ) (l m : List A) → n ≡ length l → drop n (l ++ m) ≡ m
  drop-append zero [] m e = refl
  drop-append zero (x ∷ l) m e = absurd (omega arith)
  drop-append (suc n) [] m e = absurd (omega arith)
  drop-append (suc n) (x ∷ l) m e = drop-append n l m (omega arith)

  pub drop-add : (m n : ℕ) (l : List A) → drop n (drop m l) ≡ drop (m + n) l
  drop-add zero n l = ap (λ k. drop k l) (omega arith)
  drop-add (suc m) n [] = drop-nil n ∙ sym (drop-nil (suc m + n))
  drop-add (suc m) n (x ∷ l) =
      let shift : suc (m + n) ≡ suc m + n = omega arith in
      drop-add m n l ∙ ap (λ k. drop k (x ∷ l)) shift

  pub take-add : (m n : ℕ) (l : List A) → take (m + n) l ≡ take m l ++ take n (drop m l)
  take-add zero n l = ap (λ k. take k l) (omega arith)
  take-add (suc m) n [] = take-nil (suc m + n) ∙ sym (take-nil n)
  take-add (suc m) n (x ∷ l) =
      let shift : suc m + n ≡ suc (m + n) = omega arith in
      ap (λ k. take k (x ∷ l)) shift ∙ ap (λ r. x ∷ r) (take-add m n l)

  pub length-splice :
      (offset : ℕ) (part l : List A)
      → offset + length part ≤ length l
      → length (splice offset part l) ≡ length l
  unfolding splice
  length-splice offset part l h = omega (
    arith,
    length-append {ℓ} (take offset l) (part ++ drop (offset + length part) l),
    length-append {ℓ} part (drop (offset + length part) l),
    length-take offset l,
    length-drop (offset + length part) l,
  )

  -- What was copied in is read back.
  pub slice-splice :
      (offset : ℕ) (part l : List A)
      → offset ≤ length l
      → slice offset (length part) (splice offset part l) ≡ part
  unfolding splice
  slice-splice offset part l h =
      ap (take (length part)) (
        drop-append offset (take offset l) (part ++ drop (offset + length part) l)
          (omega (arith, length-take offset l)))
      ∙ take-append (length part) part (drop (offset + length part) l) refl

  -- Copying over a whole buffer replaces it.
  pub splice_whole : (part l : List A) → length l ≤ length part → splice 0 part l ≡ part
  unfolding splice
  splice_whole part l h = rw (drop_of_le (0 + length part) l (omega arith)) (append-nil part)

  -- After the copy, the buffer up to the end of the copy.
  pub take-splice :
      (offset : ℕ) (part l : List A)
      → offset ≤ length l
      → take (offset + length part) (splice offset part l) ≡ take offset l ++ part
  unfolding splice
  take-splice offset part l h =
      let rest = drop (offset + length part) l in
      let e : offset ≡ length (take offset l) = omega (arith, length-take offset l) in
      take-add offset (length part) (splice offset part l)
      ∙ ap₂ ◌++◌ (take-append offset (take offset l) (part ++ rest) e) (
          ap (take (length part)) (drop-append offset (take offset l) (part ++ rest) e)
          ∙ take-append (length part) part rest refl)
