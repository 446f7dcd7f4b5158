-- ===== src/Common/Words.antt =====
-- Arrays of 32-bit words in a buffer of bytes, least significant byte first.
use Prim.Native.Nat.{ℕ, zero, suc, ◌+◌, ◌*◌, ◌/◌, ◌%◌, ◌^◌, ◌<◌}
use mathlib.Core.Path.{◌≡◌, refl, ap, ap₂}
use mathlib.Core.List.{List, [], ◌∷◌, ◌++◌}
use native.Mathlib.Omega.{arith}
use cs130_25spring_project.Common.Lists.{length, get_or, take, drop}

unfoldable pub encode : List ℕ → List ℕ
encode [] = []
encode (w ∷ ws) = (w % 256) ∷ (w / 256 % 256) ∷ (w / 65536 % 256) ∷ (w / 16777216 % 256) ∷ encode ws

unfoldable pub word_at : List ℕ → ℕ
word_at l = get_or l 0 0 + 256 * get_or l 1 0 + 65536 * get_or l 2 0 + 16777216 * get_or l 3 0

-- `n` words from the start of the buffer.
unfoldable pub decode : ℕ → List ℕ → List ℕ
unfolding word_at
decode zero l = []
decode (suc n) l = word_at l ∷ decode n (drop 4 l)

-- Each word fits 32 bits.
abbrev pub AllWords : List ℕ → Type 0
AllWords [] = Unit {0}
AllWords (w ∷ ws) = (w < 2 ^ 32) × AllWords ws

pub length-encode : (ws : List ℕ) → length (encode ws) ≡ 4 * length ws
unfolding encode
length-encode [] = omega arith
length-encode (w ∷ ws) = omega (arith, length-encode ws)

pub length-decode : (n : ℕ) (l : List ℕ) → length (decode n l) ≡ n
unfolding decode
length-decode zero l = refl
length-decode (suc n) l = ap suc (length-decode n (drop 4 l))

-- What was encoded decodes to the same words, whatever follows it in the buffer.
pub decode-encode :
    (n : ℕ) (ws rest : List ℕ) → n ≡ length ws → AllWords ws → decode n (encode ws ++ rest) ≡ ws
unfolding decode encode
decode-encode zero [] rest e h = refl
decode-encode zero (w ∷ ws) rest e h = absurd (omega arith)
decode-encode (suc n) [] rest e h = absurd (omega arith)
decode-encode (suc n) (w ∷ ws) rest e h =
    ap₂ ◌∷◌ (omega arith) (decode-encode n ws rest (omega arith) h.1)

-- Decoding looks at four bytes for each word.
pub decode-take : (n m : ℕ) (l : List ℕ) → m ≡ 4 * n → decode n (take m l) ≡ decode n l
unfolding decode
decode-take zero m l e = refl
decode-take (suc n) (suc (suc (suc (suc m)))) [] e = refl
decode-take (suc n) (suc (suc (suc (suc m)))) (a ∷ []) e = refl
decode-take (suc n) (suc (suc (suc (suc m)))) (a ∷ b ∷ []) e = refl
decode-take (suc n) (suc (suc (suc (suc m)))) (a ∷ b ∷ c ∷ []) e = refl
decode-take (suc n) (suc (suc (suc (suc m)))) (a ∷ b ∷ c ∷ d ∷ l) e =
    ap (λ r. (a + 256 * b + 65536 * c + 16777216 * d) ∷ r) (decode-take n m l (omega arith))
decode-take (suc n) zero l e = absurd (omega arith)
decode-take (suc n) (suc zero) l e = absurd (omega arith)
decode-take (suc n) (suc (suc zero)) l e = absurd (omega arith)
decode-take (suc n) (suc (suc (suc zero))) l e = absurd (omega arith)
