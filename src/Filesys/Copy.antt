-- ===== src/Filesys/Copy.antt =====
-- The copy of a name that `path_split` makes has one slash for several, and the same tokens.
use cs130_25spring_project.Common.{
  ℕ, ◌≡◌, ◌≢◌, inl, inr, refl, sym, ap, ◌∙◌, Bool, true, false, ◌&&◌, List, [], ◌∷◌, ◌++◌, arith,
  ◌==◌, ==→eq, ==→ne, Bool-cases,
}
use mathlib.Core.Path.{subst}
use cs130_25spring_project.Directory.Path.{
  slash, emit, tokens_from, tokens_from-slash, tokens_from-character,
}
use cs130_25spring_project.Filesys.{keep, copy_name, drop_last}

-- Whether a slash is read last.
unfoldable pub ends : Bool → List ℕ → Bool
ends prev [] = prev
ends prev (c ∷ l) = ends (c == slash) l

-- No slash follows another.
unfoldable pub NoDouble : Bool → List ℕ → Type 0
NoDouble prev [] = Unit {0}
NoDouble prev (c ∷ l) = (prev ≡ true → c ≢ slash) × NoDouble (c == slash) l

emit-append : (token : List ℕ) (l m : List (List ℕ)) → emit token (l ++ m) ≡ emit token l ++ m
emit-append [] l m = refl
emit-append (c ∷ token) l m = refl

pub delimiter :
    (token : List ℕ) (c : ℕ) (path : List ℕ)
    → (c == slash) ≡ true
    → tokens_from token (c ∷ path) ≡ emit token (tokens_from [] path)
delimiter token c path e =
    ap (λ x. tokens_from token (x ∷ path)) (==→eq c slash e) ∙ tokens_from-slash token path

character :
    (token : List ℕ) (c : ℕ) (path : List ℕ)
    → (c == slash) ≡ false
    → tokens_from token (c ∷ path) ≡ tokens_from (token ++ (c ∷ [])) path
character token c path e = tokens_from-character token c path (==→ne c slash e)

-- A slash ends a token.
pub tokens_from-append :
    (token path rest : List ℕ)
    → tokens_from token (path ++ (slash ∷ rest)) ≡ tokens_from token path ++ tokens_from [] rest
unfolding tokens_from
tokens_from-append [] [] rest = refl
tokens_from-append (t ∷ token) [] rest = refl
tokens_from-append token (c ∷ path) rest = elim (Bool-cases (c == slash)) [
  | inl e ↦
      delimiter token c (path ++ (slash ∷ rest)) e
      ∙ ap (emit token) (tokens_from-append [] path rest)
      ∙ emit-append token (tokens_from [] path) (tokens_from [] rest)
      ∙ ap (λ l. l ++ tokens_from [] rest) (sym (delimiter token c path e))
  | inr e ↦
      character token c (path ++ (slash ∷ rest)) e
      ∙ tokens_from-append (token ++ (c ∷ [])) path rest
      ∙ ap (λ l. l ++ tokens_from [] rest) (sym (character token c path e))
]

-- The copy has the tokens of the name. Behind a slash no token is being read.
pub copy_name-tokens :
    (prev : Bool) (token l : List ℕ)
    → (prev ≡ true → token ≡ [])
    → tokens_from token (copy_name prev l).0 ≡ tokens_from token l
unfolding copy_name
copy_name-tokens prev token [] h = refl
copy_name-tokens prev token (c ∷ l) h = elim (Bool-cases (c == slash)) [
  | inl e ↦ after_slash prev e h (copy_name-tokens true [] l (λ x. refl))
  | inr e ↦
      ap (λ b. tokens_from token (keep (b && prev) c (copy_name b l)).0) e
      ∙ character token c (copy_name false l).0 e
      ∙ copy_name-tokens false (token ++ (c ∷ [])) l (λ x. cc)
      ∙ sym (character token c l e)
]
  where
    after_slash :
        (prev : Bool)
        → (c == slash) ≡ true
        → (prev ≡ true → token ≡ [])
        → tokens_from [] (copy_name true l).0 ≡ tokens_from [] l
        → tokens_from token (keep ((c == slash) && prev) c (copy_name (c == slash) l)).0
          ≡ tokens_from token (c ∷ l)
    after_slash true e h same =
        ap (λ b. tokens_from token (keep (b && true) c (copy_name b l)).0) e
        ∙ ap (λ t. tokens_from t (copy_name true l).0) (h refl)
        ∙ same
        ∙ sym (delimiter [] c l e)
        ∙ ap (λ t. tokens_from t (c ∷ l)) (sym (h refl))
    after_slash false e h same =
        ap (λ b. tokens_from token (keep (b && false) c (copy_name b l)).0) e
        ∙ delimiter token c (copy_name true l).0 e
        ∙ ap (emit token) same
        ∙ sym (delimiter token c l e)

keep-NoDouble :
    (b prev : Bool) (c : ℕ) (r : List ℕ × Bool)
    → (c == slash) ≡ b
    → NoDouble b r.0
    → NoDouble prev (keep (b && prev) c r).0
unfolding NoDouble
keep-NoDouble true true c (l, last) e h = h
keep-NoDouble true false c (l, last) e h = ((λ x. cc), subst (λ b. NoDouble b l) (sym e) h)
keep-NoDouble false prev c (l, last) e h =
    ((λ x. ==→ne c slash e), subst (λ b. NoDouble b l) (sym e) h)

pub copy_name-NoDouble : (prev : Bool) (l : List ℕ) → NoDouble prev (copy_name prev l).0
unfolding copy_name NoDouble
copy_name-NoDouble prev [] = tt
copy_name-NoDouble prev (c ∷ l) =
    keep-NoDouble (c == slash) prev c (copy_name (c == slash) l) refl
      (copy_name-NoDouble (c == slash) l)

keep-ends :
    (b prev : Bool) (c : ℕ) (r : List ℕ × Bool) (x : Bool)
    → (c == slash) ≡ b
    → (r.1 ≡ x) × (ends b r.0 ≡ x)
    → ((keep (b && prev) c r).1 ≡ x) × (ends prev (keep (b && prev) c r).0 ≡ x)
unfolding ends
keep-ends true true c (l, last) x e h = h
keep-ends true false c (l, last) x e (h, k) = (h, ap (λ b. ends b l) e ∙ k)
keep-ends false prev c (l, last) x e (h, k) = (h, ap (λ b. ends b l) e ∙ k)

-- The flag tells whether the name ends in a slash, and the copy does where the name does.
pub copy_name-ends :
    (prev : Bool) (l : List ℕ)
    → ((copy_name prev l).1 ≡ ends prev l) × (ends prev (copy_name prev l).0 ≡ ends prev l)
unfolding copy_name ends
copy_name-ends prev [] = (refl, refl)
copy_name-ends prev (c ∷ l) =
    keep-ends (c == slash) prev c (copy_name (c == slash) l) (ends (c == slash) l) refl
      (copy_name-ends (c == slash) l)

-- A list that ends in a slash ends in one that `drop_last` takes away.
drop_last-ends :
    (c : ℕ) (l : List ℕ) (prev : Bool)
    → ends prev (c ∷ l) ≡ true
    → c ∷ l ≡ drop_last (c ∷ l) ++ (slash ∷ [])
unfolding ends drop_last
drop_last-ends c [] prev h = ap (λ x. x ∷ []) (==→eq c slash h)
drop_last-ends c (d ∷ l) prev h = ap (λ x. c ∷ x) (drop_last-ends d l (c == slash) h)

pub two_slashes : (path : List ℕ) (prev : Bool) → NoDouble prev (path ++ (slash ∷ slash ∷ [])) → ⊥
unfolding NoDouble
two_slashes [] prev (first, (second, h)) = second refl refl
two_slashes (c ∷ path) prev (first, h) = two_slashes path (c == slash) h

pub slash-ends : (path : List ℕ) (prev : Bool) → ends prev (path ++ (slash ∷ [])) ≡ true
unfolding ends
slash-ends [] prev = refl
slash-ends (c ∷ path) prev = slash-ends path (c == slash)

pub append-drop_last : (l : List ℕ) → ends false l ≡ true → l ≡ drop_last l ++ (slash ∷ [])
unfolding ends
append-drop_last [] h = absurd (ground (arith, h))
append-drop_last (c ∷ l) h = drop_last-ends c l false h
