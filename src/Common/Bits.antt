-- ===== src/Common/Bits.antt =====
-- The binary digits of `bit_and`, `bit_or` and `bit_xor` on machine words, for `bitmap.c`.
use Prim.Native.Nat.{
  ℕ, zero, suc, ◌+◌, ◌-◌, ◌*◌, ◌/◌, ◌%◌, ◌^◌, ◌≤◌, ◌<◌, min, max, differ, bit_and, bit_or, bit_xor,
}
use Prim.Native.Nat.{digits, bitwise, bit_and-bitwise, bit_or-bitwise, bit_xor-bitwise}
use mathlib.Core.Path.{◌≡◌, refl, sym, ◌∙◌, ap}
use mathlib.Core.Bool.{Bool, true, false, not, ◌&&◌, ◌||◌}
use native.Mathlib.Omega.{arith}
use native.Mathlib.Nat.{pow-suc}
use cs130_25spring_project.Common.Tests.{◌==◌, if◌then◌else◌}

-- digit `k` of `w`
unfoldable pub bit : ℕ → ℕ → Bool
bit zero w = w % 2 == 1
bit (suc k) w = bit k (w / 2)

-- The native operations are a recursion over the digits with fuel; any fuel from the first
-- operand up gives the same number.
module _ (z : ℕ → ℕ) (op : ℕ → ℕ → ℕ) where
  digits-irrelevant : (s t a b : ℕ) → a ≤ s → a ≤ t → digits z op s a b ≡ digits z op t a b
  digits-irrelevant zero zero a b hs ht = refl
  digits-irrelevant zero (suc t) zero b hs ht = refl
  digits-irrelevant zero (suc t) (suc a) b hs ht = absurd (omega arith)
  digits-irrelevant (suc s) zero zero b hs ht = refl
  digits-irrelevant (suc s) zero (suc a) b hs ht = absurd (omega arith)
  digits-irrelevant (suc s) (suc t) zero b hs ht = refl
  digits-irrelevant (suc s) (suc t) (suc a) b hs ht =
      omega (arith, digits-irrelevant s t (suc a / 2) (b / 2) (omega arith) (omega arith))

  bitwise-split :
      (a b : ℕ)
      → bitwise z op (suc a) b ≡ bitwise z op (suc a / 2) (b / 2) * 2 + op (suc a % 2) (b % 2)
  bitwise-split a b =
      omega (arith, digits-irrelevant a (suc a / 2) (suc a / 2) (b / 2) (omega arith) (omega arith))

bit_and-split : (a b : ℕ) → bit_and a b ≡ bit_and (a / 2) (b / 2) * 2 + min (a % 2) (b % 2)
bit_and-split zero b = simp bit_and-bitwise (omega arith)
bit_and-split (suc a) b = simp bit_and-bitwise (bitwise-split (λ _. 0) min a b)

bit_or-split : (a b : ℕ) → bit_or a b ≡ bit_or (a / 2) (b / 2) * 2 + max (a % 2) (b % 2)
bit_or-split zero b = simp bit_or-bitwise (omega arith)
bit_or-split (suc a) b = simp bit_or-bitwise (bitwise-split (λ c. c) max a b)

differ_digits : (x y : ℕ) → x < 2 → y < 2 → differ x y ≡ (x + y) % 2
differ_digits zero y hx hy = omega arith
differ_digits (suc zero) zero hx hy = refl
differ_digits (suc zero) (suc zero) hx hy = refl
differ_digits (suc zero) (suc (suc y)) hx hy = absurd (omega arith)
differ_digits (suc (suc x)) y hx hy = absurd (omega arith)

bit_xor-split : (a b : ℕ) → bit_xor a b ≡ bit_xor (a / 2) (b / 2) * 2 + (a % 2 + b % 2) % 2
bit_xor-split zero b = simp bit_xor-bitwise (omega arith)
bit_xor-split (suc a) b = simp bit_xor-bitwise (
    bitwise-split (λ c. c) differ a b
    ∙ omega (arith, differ_digits (suc a % 2) (b % 2) (omega arith) (omega arith)))

-- A number whose lowest digit is `d` and whose other digits are those of `q`.
half-eq : {n q d : ℕ} → n ≡ q * 2 + d → d < 2 → n / 2 ≡ q
half-eq e h = omega arith

pub bit-bit_and : (k a b : ℕ) → bit k (bit_and a b) ≡ (bit k a && bit k b)
unfolding bit
bit-bit_and zero a b = ground (arith, bit_and-split a b)
bit-bit_and (suc k) a b =
    ap (bit k) (half-eq (bit_and-split a b) (omega arith)) ∙ bit-bit_and k (a / 2) (b / 2)

pub bit-bit_or : (k a b : ℕ) → bit k (bit_or a b) ≡ (bit k a || bit k b)
unfolding bit
bit-bit_or zero a b = ground (arith, bit_or-split a b)
bit-bit_or (suc k) a b =
    ap (bit k) (half-eq (bit_or-split a b) (omega arith)) ∙ bit-bit_or k (a / 2) (b / 2)

pub bit-bit_xor : (k a b : ℕ) → bit k (bit_xor a b) ≡ (if bit k b then not (bit k a) else bit k a)
unfolding bit
bit-bit_xor zero a b = ground (arith, bit_xor-split a b)
bit-bit_xor (suc k) a b =
    ap (bit k) (half-eq (bit_xor-split a b) (omega arith)) ∙ bit-bit_xor k (a / 2) (b / 2)

-- `w & (1 << k)` is zero exactly if digit `k` is off.
bit_and-zero : (k a : ℕ) → a ≤ k → bit_and a 0 ≡ 0
bit_and-zero k zero h = refl
bit_and-zero zero (suc a) h = absurd (omega arith)
bit_and-zero (suc k) (suc a) h =
    omega (arith, bit_and-split (suc a) 0, bit_and-zero k (suc a / 2) (omega arith))

pub bit_and-pow : (k w : ℕ) → (bit_and w (2 ^ k) == 0) ≡ not (bit k w)
unfolding bit
bit_and-pow zero w = ground (arith, bit_and-split w 1, bit_and-zero (w / 2) (w / 2) (omega arith))
bit_and-pow (suc k) w =
    let e : 2 ^ suc k / 2 ≡ 2 ^ k = omega (arith, pow-suc 2 k) in
    let s : bit_and w (2 ^ suc k) ≡ bit_and (w / 2) (2 ^ k) * 2 =
      omega (arith, bit_and-split w (2 ^ suc k), ap (bit_and (w / 2)) e, pow-suc 2 k) in
    ground (arith, s, bit_and-pow k (w / 2))

-- Digit `j` of the mask `1 << k` of a 32-bit word, and of its complement.
all_below : ℕ → (ℕ → Bool) → Bool
all_below zero p = true
all_below (suc n) p = p n && all_below n p

all_below_sound : (n : ℕ) (p : ℕ → Bool) (i : ℕ) → all_below n p ≡ true → i < n → p i ≡ true
unfolding all_below
all_below_sound zero p i h lt = absurd (omega arith)
all_below_sound (suc n) p i h lt = ground (arith, all_below_sound n p i)

abbrev same : Bool → Bool → Bool
same true b = b
same false b = not b

same-eq : (a b : Bool) → same a b ≡ true → a ≡ b
same-eq true b h = sym h
same-eq false true h = cc
same-eq false false h = refl

module _ (mask : ℕ → ℕ) (want : ℕ → ℕ → Bool) where
  abbrev mask_row : ℕ → Bool
  mask_row k = all_below 32 (λ j. same (bit j (mask k)) (want k j))

  masks_checked :
      all_below 32 mask_row ≡ true → (k j : ℕ) → k < 32 → j < 32 → bit j (mask k) ≡ want k j
  masks_checked all k j hk hj =
      same-eq _ _ (all_below_sound 32 _ j (all_below_sound 32 mask_row k all hk) hj)

pub bit-mask : (k j : ℕ) → k < 32 → j < 32 → bit j (2 ^ k) ≡ (k == j)
unfolding all_below bit
bit-mask = masks_checked (λ k. 2 ^ k) (λ k j. k == j) refl

pub bit-complement : (k j : ℕ) → k < 32 → j < 32 → bit j (2 ^ 32 - 1 - 2 ^ k) ≡ not (k == j)
unfolding all_below bit
bit-complement = masks_checked (λ k. 2 ^ 32 - 1 - 2 ^ k) (λ k j. not (k == j)) refl
