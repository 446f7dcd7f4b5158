-- ===== src/Synch/Raise.antt =====
-- The chain of threads that wait for each other, and one donation.
use cs130_25spring_project.Common.{
  ℕ, zero, suc, ◌≤◌, ◌≡◌, ◌≢◌, refl, sym, ap, ◌∙◌, Option, none, some, arith, max, if◌then◌else◌,
  ne→==, ==-refl, ℕ_discrete,
}
use mathlib.Core.Path.{subst, fun_ext}
use cs130_25spring_project.Thread.{Thread, effective}
use cs130_25spring_project.Thread.Max.{pri}
use cs130_25spring_project.Synch.{raise, if_parent}

-- The thread that `t` waits for through `n` locks.
unfoldable pub ancestor : (ℕ → Thread) → (t n : ℕ) → Option ℕ
ancestor threads t zero = some t
ancestor threads t (suc n) = if_parent (threads t).parent none (λ p. ancestor threads p n)

-- Nothing but donated priorities changed, and none of them fell.
pub record Raised (threads threads' : ℕ → Thread) : Type 0 where
  pub same :
      (u : ℕ) → threads' u ≡ record (threads u) { extra_priority = (threads' u).extra_priority }
  pub grows : (u : ℕ) → (threads u).extra_priority ≤ (threads' u).extra_priority

pub Raised-refl : (threads : ℕ → Thread) → Raised threads threads
Raised-refl threads = record { same = λ u. refl; grows = λ u. omega arith }

pub Raised-trans : (a b c : ℕ → Thread) → Raised a b → Raised b c → Raised a c
Raised-trans a b c f g = record {
  same = λ u.
      g.same u
      ∙ ap {A = Thread} (λ x. record x { extra_priority = (c u).extra_priority }) (f.same u);
  grows = λ u. omega (arith, f.grows u, g.grows u);
}

pub Raised-pri : (a b : ℕ → Thread) → Raised a b → (u : ℕ) → pri a u ≤ pri b u
Raised-pri a b f u = ground (arith, f.grows u, ap (λ x. x.priority) (f.same u))

pub Raised-parent : (a b : ℕ → Thread) → Raised a b → (u : ℕ) → (b u).parent ≡ (a u).parent
Raised-parent a b f u = ap (λ x. x.parent) (f.same u)

-- One donation.
pub raise-here :
    (threads : ℕ → Thread) (t p : ℕ)
    → raise threads t p p ≡ record (threads p) {
      extra_priority = max (threads p).extra_priority (effective (threads t));
    }
raise-here threads t p =
    ap
      (λ b.
        if b
        then record (threads p) {
          extra_priority = max (threads p).extra_priority (effective (threads t));
        }
        else threads p)
      (==-refl p)

pub raise-there : (threads : ℕ → Thread) (t p u : ℕ) → p ≢ u → raise threads t p u ≡ threads u
raise-there threads t p u ne =
    ap
      (λ b.
        if b
        then record (threads p) {
          extra_priority = max (threads p).extra_priority (effective (threads t));
        }
        else threads u)
      (ne→== ne)

pub raise-pri : (threads : ℕ → Thread) (t p : ℕ) → pri threads t ≤ pri (raise threads t p) p
raise-pri threads t p =
    let e : pri (raise threads t p) p
        ≡ max (threads p).priority (max (threads p).extra_priority (pri threads t)) =
      ap effective (raise-here threads t p) in
    ground (arith, e)

pub raise-Raised : (threads : ℕ → Thread) (t p : ℕ) → Raised threads (raise threads t p)
raise-Raised threads t p = record { same = same; grows = grows }
  where
    full : ℕ → Type 0
    full u =
        raise threads t p u
        ≡ record (threads u) { extra_priority = (raise threads t p u).extra_priority }

    more : ℕ → Type 0
    more u = (threads u).extra_priority ≤ (raise threads t p u).extra_priority

    same : (u : ℕ) → full u
    same u = elim (ℕ_discrete p u) [
      | yes e ↦ subst full e (
          raise-here threads t p
          ∙ ap (λ x. record (threads p) { extra_priority = x })
              (ap (λ x. x.extra_priority) (sym (raise-here threads t p))))
      | no ne ↦
          raise-there threads t p u ne
          ∙ ap (λ x. record (threads u) { extra_priority = x })
              (ap (λ x. x.extra_priority) (sym (raise-there threads t p u ne)))
    ]

    grows : (u : ℕ) → more u
    grows u = elim (ℕ_discrete p u) [
      | yes e ↦ subst more e (ground (arith, ap (λ x. x.extra_priority) (raise-here threads t p)))
      | no ne ↦ omega (arith, ap (λ x. x.extra_priority) (raise-there threads t p u ne))
    ]

pub ancestor-none :
    (threads : ℕ → Thread) (t n : ℕ) → (threads t).parent ≡ none → ancestor threads t (suc n) ≡ none
unfolding ancestor
ancestor-none threads t n e = ap (λ o. if_parent o none (λ p. ancestor threads p n)) e

pub ancestor-some :
    (threads : ℕ → Thread) (t p n : ℕ)
    → (threads t).parent ≡ some p
    → ancestor threads t (suc n) ≡ ancestor threads p n
unfolding ancestor
ancestor-some threads t p n e = ap (λ o. if_parent o none (λ p. ancestor threads p n)) e

pub ancestor-Raised : (a b : ℕ → Thread) → Raised a b → (n t : ℕ) → ancestor b t n ≡ ancestor a t n
unfolding ancestor
ancestor-Raised a b f zero t = refl
ancestor-Raised a b f (suc n) t =
    ap (λ o. if_parent o none (λ p. ancestor b p n)) (Raised-parent a b f t)
    ∙ ap (λ g. if_parent (a t).parent none g) (fun_ext (λ p. ancestor-Raised a b f n p))
