-- ===== src/Filesys/Split.antt =====
-- A path splits into the path of a directory and the last of its names.
use cs130_25spring_project.Common.{
  ℕ, ◌≡◌, ◌⊎◌, inl, inr, refl, sym, ap, ◌∙◌, Bool, true, false, ◌&&◌, Option, none, some, List, [],
  ◌∷◌, ◌++◌, arith, ◌==◌, ==→eq, ==→ne, if◌then◌else◌, Bool-cases,
}
use mathlib.Core.Path.{subst}
use mathlib.Core.List.{append-nil, append_assoc}
use cs130_25spring_project.Directory.{dot}
use cs130_25spring_project.Directory.Path.{
  slash, tokens_from, tokens, NoSlash, IsComponent, tokens_from-name,
}
use cs130_25spring_project.Filesys.{
  copy_name, drop_last, split_here, split_last, path_and_file, split_copy, path_split,
}
use cs130_25spring_project.Filesys.Copy.{
  ends, NoDouble, tokens_from-append, delimiter, copy_name-tokens, copy_name-NoDouble,
  copy_name-ends, two_slashes, slash-ends, append-drop_last,
}

-- The last slash, or none.
data LastSlash (l : List ℕ) : Option (List ℕ × List ℕ) → Type 0 where
  at_slash :
      {path file : List ℕ}
      → l ≡ path ++ (slash ∷ file)
      → NoSlash file
      → LastSlash l (some (path, file))
  no_slash : NoSlash l → LastSlash l none

split_here-LastSlash :
    (c : ℕ) (l : List ℕ) (r : Option (List ℕ × List ℕ))
    → LastSlash l r
    → LastSlash (c ∷ l) (split_here c l r)
unfolding NoSlash
split_here-LastSlash c l _ (at_slash {path} {file} e h) = at_slash (ap (λ x. c ∷ x) e) h
split_here-LastSlash c l _ (no_slash h) = elim (Bool-cases (c == slash)) [
  | inl e ↦
      subst (LastSlash (c ∷ l)) (sym (ap (λ b. if b then some ([], l) else none) e))
        (at_slash (ap (λ x. x ∷ l) (==→eq c slash e)) h)
  | inr e ↦
      subst (LastSlash (c ∷ l)) (sym (ap (λ b. if b then some ([], l) else none) e))
        (no_slash (==→ne c slash e, h))
]

split_last-LastSlash : (l : List ℕ) → LastSlash l (split_last l)
unfolding split_last NoSlash
split_last-LastSlash [] = no_slash tt
split_last-LastSlash (c ∷ l) = split_here-LastSlash c l (split_last l) (split_last-LastSlash l)

name_tokens : (c : ℕ) (l : List ℕ) → NoSlash (c ∷ l) → tokens (c ∷ l) ≡ (c ∷ l) ∷ []
unfolding tokens_from
name_tokens c l h = ap tokens (sym (append-nil (c ∷ l))) ∙ tokens_from-name [] (c ∷ l) [] h

-- What `path_split` gives for a copy.
pub data Splits (name : List ℕ) (refused : Type 0) : Option (List ℕ × List ℕ) → Type 0 where
  split :
      {path file : List ℕ}
      → tokens name ≡ tokens path ++ (file ∷ [])
      → IsComponent file
      → Splits name refused (some (path, file))
  local :
      {path file : List ℕ}
      → path ≡ dot
      → tokens name ≡ file ∷ []
      → IsComponent file
      → Splits name refused (some (path, file))
  refuse : refused → Splits name refused none

component : (c : ℕ) (l : List ℕ) → NoSlash (c ∷ l) → IsComponent (c ∷ l)
component c l h = record { no_slash = h; some_character = λ e. cc }

module _ (copy : List ℕ) (refused : Type 0) where
  -- The path, the slash and the file.
  split_tokens :
      (path : List ℕ) (c : ℕ) (file : List ℕ)
      → copy ≡ path ++ (slash ∷ (c ∷ file))
      → NoSlash (c ∷ file)
      → tokens copy ≡ tokens path ++ ((c ∷ file) ∷ [])
  split_tokens path c file e h =
      ap tokens e
      ∙ tokens_from-append [] path (c ∷ file)
      ∙ ap (λ x. tokens path ++ x) (name_tokens c file h)

  path_and_file-Splits :
      (c : ℕ) (l : List ℕ) (r : Option (List ℕ × List ℕ))
      → copy ≡ c ∷ l
      → ((path : List ℕ) → copy ≡ path ++ (slash ∷ []) → refused)
      → LastSlash copy r
      → Splits copy refused (path_and_file copy r)
  unfolding path_and_file
  path_and_file-Splits c l none whole trailing (no_slash h) =
      let h' = subst NoSlash whole h in
      local refl (ap tokens whole ∙ name_tokens c l h' ∙ ap (λ x. x ∷ []) (sym whole))
        (subst IsComponent (sym whole) (component c l h'))
  path_and_file-Splits c l (some (path, [])) whole trailing (at_slash e h) =
      refuse (trailing path e)
  path_and_file-Splits c l (some ([], (d ∷ file))) whole trailing (at_slash e h) =
      split (split_tokens [] d file e h ∙ ap (λ x. x ++ ((d ∷ file) ∷ [])) root)
        (component d file h)
    where
      root : tokens [] ≡ tokens (slash ∷ [])
      root = sym (delimiter [] slash [] refl)
  path_and_file-Splits c l (some ((p ∷ path), (d ∷ file))) whole trailing (at_slash e h) =
      split (split_tokens (p ∷ path) d file e h) (component d file h)

split_copy-Splits :
    (copy : List ℕ) (refused : Type 0)
    → (copy ≡ [] → refused)
    → ((path : List ℕ) → copy ≡ path ++ (slash ∷ []) → refused)
    → Splits copy refused (split_copy copy)
unfolding split_copy
split_copy-Splits [] refused empty trailing = refuse (empty refl)
split_copy-Splits (c ∷ l) refused empty trailing =
    path_and_file-Splits (c ∷ l) refused c l (split_last (c ∷ l)) refl trailing
      (split_last-LastSlash (c ∷ l))

Splits-tokens :
    (copy name : List ℕ) (refused : Type 0) (r : Option (List ℕ × List ℕ))
    → tokens copy ≡ tokens name
    → Splits copy refused r
    → Splits name refused r
Splits-tokens copy name refused _ e (split t c) = split (sym e ∙ t) c
Splits-tokens copy name refused _ e (local d t c) = local d (sym e ∙ t) c
Splits-tokens copy name refused _ e (refuse h) = refuse h

-- A list that ends in a slash.
abbrev pub EndsInSlash : List ℕ → Type 0
EndsInSlash l = (path : List ℕ) × (l ≡ path ++ (slash ∷ []))

-- What makes a name be refused.
abbrev pub Refused : List ℕ → (is_dir : Bool) → Type 0
Refused name is_dir = (tokens name ≡ []) ⊎ ((is_dir ≡ false) × EndsInSlash name)

module _ (name : List ℕ) (is_dir : Bool) where
  abbrev copy : List ℕ
  copy = (copy_name false name).0

  copy-tokens : tokens copy ≡ tokens name
  copy-tokens = copy_name-tokens false [] name (λ x. cc)

  -- The copy as it is.
  whole_copy :
      (is_dir && (copy_name false name).1) ≡ false
      → Splits name (Refused name is_dir) (split_copy copy)
  unfolding tokens_from
  whole_copy off = Splits-tokens copy name (Refused name is_dir) (split_copy copy) copy-tokens (
      split_copy-Splits copy (Refused name is_dir) (λ e. inl (sym copy-tokens ∙ ap tokens e))
        (λ path e.
          let (flag, same) = copy_name-ends false name in
          let ends_name : ends false name ≡ true =
            sym same ∙ ap (ends false) e ∙ slash-ends path false in
          inr (
            no_dir is_dir (flag ∙ ends_name) off,
            (drop_last name, append-drop_last name ends_name),
          )))
    where
      no_dir :
          (b : Bool)
          → (copy_name false name).1 ≡ true
          → (b && (copy_name false name).1) ≡ false
          → b ≡ false
      no_dir true f h = absurd (ground (arith, f, h))
      no_dir false f h = refl

  -- The copy without the slash at its end.
  trimmed_copy :
      (copy_name false name).1 ≡ true
      → Splits name (Refused name is_dir) (split_copy (drop_last copy))
  unfolding tokens_from
  trimmed_copy on =
      let (flag, same) = copy_name-ends false name in
      let e = append-drop_last copy (same ∙ sym flag ∙ on) in
      let kept : tokens (drop_last copy) ≡ tokens name =
        sym (append-nil (tokens (drop_last copy)))
        ∙ sym (tokens_from-append [] (drop_last copy) [])
        ∙ ap tokens (sym e)
        ∙ copy-tokens in
      Splits-tokens (drop_last copy) name (Refused name is_dir) (split_copy (drop_last copy)) kept (
        split_copy-Splits (drop_last copy) (Refused name is_dir)
          (λ none_left. inl (sym kept ∙ ap tokens none_left))
          (λ path twice. absurd (
            two_slashes path false (
              subst (NoDouble false)
                (e
                  ∙ ap (λ l. l ++ (slash ∷ [])) twice
                  ∙ append_assoc path (slash ∷ []) (slash ∷ []))
                (copy_name-NoDouble false name)))))

  -- `path_split` of a name gives the path of a directory and the name of a file in it, of at least one
  -- character and with no slash. The tokens of the name are those of the path and then the file; or the
  -- path is "." and the file the only token. It fails only for a name with no token and, unless it is
  -- of a directory, for one that ends in a slash.
  pub path_split-Splits : Splits name (Refused name is_dir) (path_split name is_dir)
  unfolding path_split
  path_split-Splits = elim (Bool-cases (is_dir && (copy_name false name).1)) [
    | inl on ↦
        subst (λ x. Splits name (Refused name is_dir) (split_copy x))
          (sym (ap (λ b. if b then drop_last copy else copy) on))
          (trimmed_copy (flag_set is_dir on))
    | inr off ↦
        subst (λ x. Splits name (Refused name is_dir) (split_copy x))
          (sym (ap (λ b. if b then drop_last copy else copy) off)) (whole_copy off)
  ]
    where
      flag_set :
          (b : Bool) → (b && (copy_name false name).1) ≡ true → (copy_name false name).1 ≡ true
      flag_set true h = h
      flag_set false h = cc
