-- ===== src/Cache/Lru.antt =====
-- `cache_list` names each block once, whatever moves to its back.
use cs130_25spring_project.Common.{
  ℕ, ◌-◌, ◌<◌, ◌≡◌, List, [], ◌∷◌, ◌++◌, arith, ◌==◌, if◌then◌else◌,
}
use cs130_25spring_project.Cache.{remove, to_back}
use cs130_25spring_project.Common.Counts.{count, count-append, count-one}
use cs130_25spring_project.Cache.View.{IsLru}

count-remove :
    (i j : ℕ) (l : List ℕ) → count j (remove i l) ≡ (if i == j then count j l - 1 else count j l)
unfolding count remove
count-remove i j [] = ground arith
count-remove i j (x ∷ l) = ground (arith, count-remove i j l)

pub to_back-IsLru : (i : ℕ) (l : List ℕ) → i < 64 → IsLru l → IsLru (to_back i l)
to_back-IsLru i l h v = (
  λ j hj.
      ground
        (arith, count-append j (remove i l) (i ∷ []), count-remove i j l, count-one i j, v.0 j hj),
  λ j hj.
      ground
        (arith, count-append j (remove i l) (i ∷ []), count-remove i j l, count-one i j, v.1 j hj),
)

-- The front of the list is a block, and the list with its front moved to the back is one again.
pub rotate-IsLru : (i : ℕ) (l : List ℕ) → IsLru (i ∷ l) → (i < 64) × IsLru (l ++ (i ∷ []))
unfolding count
rotate-IsLru i l v = (
  ground (arith, v.1 i),
  (
    λ j hj. ground (arith, count-append j l (i ∷ []), count-one i j, v.0 j hj),
    λ j hj. ground (arith, count-append j l (i ∷ []), count-one i j, v.1 j hj),
  ),
)

pub IsLru-ne_nil : ¬ (IsLru [])
unfolding count
IsLru-ne_nil v = absurd (omega (arith, v.0 0 (omega arith)))
