-- ===== src/Synch/Donate.antt =====
-- What `donate_up` does to the threads.
use cs130_25spring_project.Common.{
  ℕ, zero, suc, ◌+◌, ◌≤◌, ◌<◌, ◌≡◌, ◌≢◌, refl, sym, ap, ◌∙◌, Option, none, some, arith, ℕ_discrete,
}
use mathlib.Core.Path.{subst}
use mathlib.Core.Option.{some_inj}
use cs130_25spring_project.Thread.{Thread, effective}
use cs130_25spring_project.Thread.Max.{pri}
use cs130_25spring_project.Synch.{raise, if_parent, donate_calls, donate_up, max_depth}
use cs130_25spring_project.Synch.Raise.{
  ancestor, Raised, Raised-refl, Raised-trans, Raised-pri, raise-here, raise-there, raise-pri,
  raise-Raised, ancestor-none, ancestor-some, ancestor-Raised,
}

-- The calls raise the threads of the chain that they reach, and no other.
donate_calls-Raised :
    (n : ℕ) (threads : ℕ → Thread) (t : ℕ) → Raised threads (donate_calls n threads t)
unfolding donate_calls
donate_calls-Raised zero threads t = Raised-refl threads
donate_calls-Raised (suc n) threads t =
    go (threads t).parent (λ p. donate_calls n (raise threads t p) p)
      (λ p.
        Raised-trans threads (raise threads t p) (donate_calls n (raise threads t p) p)
          (raise-Raised threads t p) (donate_calls-Raised n (raise threads t p) p))
  where
    go :
        (o : Option ℕ) (f : ℕ → ℕ → Thread)
        → ((p : ℕ) → Raised threads (f p))
        → Raised threads (if_parent o threads f)
    go none f h = Raised-refl threads
    go (some p) f h = h p

donate_calls-none :
    (n : ℕ) (threads : ℕ → Thread) (t : ℕ)
    → (threads t).parent ≡ none
    → donate_calls (suc n) threads t ≡ threads
unfolding donate_calls
donate_calls-none n threads t e =
    ap (λ o. if_parent o threads (λ p. donate_calls n (raise threads t p) p)) e

donate_calls-some :
    (n : ℕ) (threads : ℕ → Thread) (t p : ℕ)
    → (threads t).parent ≡ some p
    → donate_calls (suc n) threads t ≡ donate_calls n (raise threads t p) p
unfolding donate_calls
donate_calls-some n threads t p e =
    ap (λ o. if_parent o threads (λ q. donate_calls n (raise threads t q) q)) e

-- Each thread of the chain that the calls reach has the priority of the first at least.
donate_calls-ancestor :
    (n m : ℕ) (threads : ℕ → Thread) (t a : ℕ)
    → m ≤ n
    → ancestor threads t m ≡ some a
    → pri threads t ≤ pri (donate_calls n threads t) a
unfolding ancestor
donate_calls-ancestor n zero threads t a le e =
    subst (λ x. pri threads t ≤ pri (donate_calls n threads t) x) (some_inj.0 e)
      (Raised-pri threads (donate_calls n threads t) (donate_calls-Raised n threads t) t)
donate_calls-ancestor zero (suc m) threads t a le e = absurd (omega arith)
donate_calls-ancestor (suc n) (suc m) threads t a le e =
    go (threads t).parent refl
      (λ p. donate_calls-ancestor n m (raise threads t p) p a (omega arith))
  where
    go :
        (o : Option ℕ)
        → (threads t).parent ≡ o
        → ((p : ℕ)
            → ancestor (raise threads t p) p m ≡ some a
            → pri (raise threads t p) p ≤ pri (donate_calls n (raise threads t p) p) a)
        → pri threads t ≤ pri (donate_calls (suc n) threads t) a
    go none f ih = absurd (ground (arith, sym (ancestor-none threads t m f) ∙ e))
    go (some p) f ih =
        let reached = ih p (
          ancestor-Raised threads (raise threads t p) (raise-Raised threads t p) m p
          ∙ sym (ancestor-some threads t p m f)
          ∙ e) in
        subst (λ x. pri threads t ≤ pri x a) (sym (donate_calls-some n threads t p f))
          (omega (arith, raise-pri threads t p, reached))

-- A thread that is not in the chain is as it was.
donate_calls-other :
    (n : ℕ) (threads : ℕ → Thread) (t u : ℕ)
    → ((m : ℕ) → 0 < m → m ≤ n → ancestor threads t m ≢ some u)
    → donate_calls n threads t u ≡ threads u
unfolding donate_calls ancestor
donate_calls-other zero threads t u out = refl
donate_calls-other (suc n) threads t u out =
    go (threads t).parent refl (λ p. donate_calls-other n (raise threads t p) p u)
  where
    go :
        (o : Option ℕ)
        → (threads t).parent ≡ o
        → ((p : ℕ)
            → ((m : ℕ) → 0 < m → m ≤ n → ancestor (raise threads t p) p m ≢ some u)
            → donate_calls n (raise threads t p) p u ≡ raise threads t p u)
        → donate_calls (suc n) threads t u ≡ threads u
    go none f ih = ap (λ x. x u) (donate_calls-none n threads t f)
    go (some p) f ih =
        ap (λ x. x u) (donate_calls-some n threads t p f)
        ∙ ih p (λ m pos le e. out (suc m) (omega arith) (omega arith) (
            ancestor-some threads t p m f
            ∙ sym (ancestor-Raised threads (raise threads t p) (raise-Raised threads t p) m p)
            ∙ e))
        ∙ raise-there threads t p u (λ e.
          out 1 (omega arith) (omega arith) (ancestor-some threads t p 0 f ∙ ap (λ x. some x) e))

donate_calls-bounded :
    (n : ℕ) (threads : ℕ → Thread) (t b : ℕ)
    → ((u : ℕ) → pri threads u ≤ b)
    → (u : ℕ) → pri (donate_calls n threads t) u ≤ b
unfolding donate_calls
donate_calls-bounded zero threads t b h u = h u
donate_calls-bounded (suc n) threads t b h u =
    go (threads t).parent refl (λ p. donate_calls-bounded n (raise threads t p) p b)
  where
    raised : (p v : ℕ) → pri (raise threads t p) v ≤ b
    raised p v = elim (ℕ_discrete p v) [
      | yes e ↦
          subst (λ x. pri (raise threads t p) x ≤ b) e
            (ground (arith, ap effective (raise-here threads t p), h p, h t))
      | no ne ↦ omega (arith, ap effective (raise-there threads t p v ne), h v)
    ]

    go :
        (o : Option ℕ)
        → (threads t).parent ≡ o
        → ((p : ℕ)
            → ((v : ℕ) → pri (raise threads t p) v ≤ b)
            → (v : ℕ) → pri (donate_calls n (raise threads t p) p) v ≤ b)
        → pri (donate_calls (suc n) threads t) u ≤ b
    go none f ih = subst (λ x. pri x u ≤ b) (sym (donate_calls-none n threads t f)) (h u)
    go (some p) f ih =
        subst (λ x. pri x u ≤ b) (sym (donate_calls-some n threads t p f)) (ih p (raised p) u)

-- What a donation that starts at `t` does: it stays within any bound on the priorities, reaches the
-- threads that `t` waits for through at most nine locks, and changes no other.
pub record Donates (threads threads' : ℕ → Thread) (t : ℕ) : Type 0 where
  pub raised : Raised threads threads'
  pub bounded : (b : ℕ) → ((u : ℕ) → pri threads u ≤ b) → (u : ℕ) → pri threads' u ≤ b
  pub reached :
      (m a : ℕ) → m ≤ max_depth + 1 → ancestor threads t m ≡ some a → pri threads t ≤ pri threads' a
  pub other :
      (u : ℕ)
      → ((m : ℕ) → 0 < m → m ≤ max_depth + 1 → ancestor threads t m ≢ some u)
      → threads' u ≡ threads u

-- `donate_up` from depth 0 changes only donated priorities, and lowers none. It keeps any bound on the
-- effective priorities; each thread that `t` waits for through at most nine locks has the effective
-- priority of `t` at least; and a thread that is none of these is as it was.
pub donate_up-Donates : (threads : ℕ → Thread) (t : ℕ) → Donates threads (donate_up threads t 0) t
unfolding donate_up
donate_up-Donates threads t = record {
  raised = donate_calls-Raised (max_depth + 1) threads t;
  bounded = donate_calls-bounded (max_depth + 1) threads t;
  reached = λ m a. donate_calls-ancestor (max_depth + 1) m threads t a;
  other = donate_calls-other (max_depth + 1) threads t;
}
