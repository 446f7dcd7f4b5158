-- ===== src/Common/Counts.antt =====
-- How often a number stands in a list.
use Prim.Native.Nat.{ℕ, ◌+◌}
use mathlib.Core.Path.{◌≡◌}
use mathlib.Core.List.{List, [], ◌∷◌, ◌++◌}
use native.Mathlib.Omega.{arith}
use cs130_25spring_project.Common.Tests.{◌==◌, if◌then◌else◌}

unfoldable pub count : ℕ → List ℕ → ℕ
count i [] = 0
count i (j ∷ l) = (if i == j then 1 else 0) + count i l

pub count-append : (j : ℕ) (l m : List ℕ) → count j (l ++ m) ≡ count j l + count j m
unfolding count
count-append j [] m = omega arith
count-append j (x ∷ l) m = omega (arith, count-append j l m)

pub count-one : (i j : ℕ) → count j (i ∷ []) ≡ (if i == j then 1 else 0)
unfolding count
count-one i j = ground arith
