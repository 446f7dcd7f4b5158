-- ===== src/Directory/Path.antt =====
-- src/lib/string.c and src/filesys/directory.c: the tokens of a path, as `strtok_r` with the delimiter
-- "/" gives them, and the walk along them.
use cs130_25spring_project.Common.{
  ℕ, zero, suc, ◌≡◌, ◌≢◌, refl, sym, ap, ◌∙◌, Bool, true, false, Option, List, [], ◌∷◌, ◌++◌, ◌==◌,
  replicate, ne→==,
}
use mathlib.Core.List.{append-nil, append_assoc}
use cs130_25spring_project.Fs.{MapFile}
use cs130_25spring_project.Inode.Open.{Opened}
use cs130_25spring_project.Directory.{Dir, DirEntry}
use cs130_25spring_project.Directory.Tree.{walk_tokens}

abbrev pub slash : ℕ
slash = 47

-- A token that was read, unless no character of it was.
abbrev pub emit : List ℕ → List (List ℕ) → List (List ℕ)
emit [] rest = rest
emit (c ∷ token) rest = (c ∷ token) ∷ rest

-- The calls of `strtok_r` on the rest of a path, with what was read of the token they are in.
unfoldable pub tokens_from : (token path : List ℕ) → List (List ℕ)
tokens_from token [] = emit token []
tokens_from token (c ∷ path) = elim (c == slash) [
  | true ↦ emit token (tokens_from [] path)
  | false ↦ tokens_from (token ++ (c ∷ [])) path
]

abbrev pub tokens : List ℕ → List (List ℕ)
tokens path = tokens_from [] path

-- An empty path has no token.
abbrev pub dir_walk :
    MapFile
    → (memory : ℕ → Bool × Bool) → (stack : DirEntry) → Opened
    → Dir
    → (path : List ℕ) → Option (Opened × Dir × Bool)
dir_walk file memory stack o dir path = walk_tokens file memory stack o dir (tokens path)

-- A name of a path: not empty, and without a slash.
unfoldable pub NoSlash : List ℕ → Type 0
NoSlash [] = Unit {0}
NoSlash (c ∷ l) = (c ≢ slash) × NoSlash l

pub record IsComponent (name : List ℕ) : Type 0 where
  pub no_slash : NoSlash name
  pub some_character : name ≢ []

unfoldable pub Components : List (ℕ × List ℕ) → Type 0
Components [] = Unit {0}
Components ((k, name) ∷ l) = IsComponent name × Components l

-- The path of the names, each behind one slash and as many more as it is paired with, and with `last`
-- slashes at the end.
unfoldable pub join : List (ℕ × List ℕ) → (last : ℕ) → List ℕ
join [] last = replicate last slash
join ((k, name) ∷ l) last = replicate (suc k) slash ++ (name ++ join l last)

abbrev pub names : List (ℕ × List ℕ) → List (List ℕ)
names [] = []
names ((k, name) ∷ l) = name ∷ names l

pub tokens_from-slash :
    (token path : List ℕ) → tokens_from token (slash ∷ path) ≡ emit token (tokens_from [] path)
unfolding tokens_from
tokens_from-slash token path = refl

pub tokens_from-character :
    (token : List ℕ) (c : ℕ) (path : List ℕ)
    → c ≢ slash
    → tokens_from token (c ∷ path) ≡ tokens_from (token ++ (c ∷ [])) path
unfolding tokens_from
tokens_from-character token c path ne =
    ap
      (λ (b : Bool). elim b as (λ x. List (List ℕ)) [
        | true ↦ emit token (tokens_from [] path)
        | false ↦ tokens_from (token ++ (c ∷ [])) path
      ])
      (ne→== ne)

pub tokens_from-name :
    (token name path : List ℕ)
    → NoSlash name
    → tokens_from token (name ++ path) ≡ tokens_from (token ++ name) path
unfolding tokens_from NoSlash
tokens_from-name token [] path h = ap (λ t. tokens_from t path) (sym (append-nil token))
tokens_from-name token (c ∷ name) path (ne, h) =
    tokens_from-character token c (name ++ path) ne
    ∙ tokens_from-name (token ++ (c ∷ [])) name path h
    ∙ ap (λ t. tokens_from t path) (append_assoc token (c ∷ []) name)

pub tokens_from-slashes :
    (n : ℕ) (path : List ℕ) → tokens_from [] (replicate n slash ++ path) ≡ tokens_from [] path
unfolding tokens_from
tokens_from-slashes zero path = refl
tokens_from-slashes (suc n) path = tokens_from-slashes n path

-- At the start of what follows a name, the name is a token.
tokens_from-join :
    (token : List ℕ) (l : List (ℕ × List ℕ)) (last : ℕ)
    → tokens_from token (join l last) ≡ emit token (tokens_from [] (join l last))
unfolding tokens_from join
tokens_from-join token [] zero = refl
tokens_from-join token [] (suc last) = refl
tokens_from-join token ((k, name) ∷ l) last = refl

pub emit_name : (name : List ℕ) (rest : List (List ℕ)) → name ≢ [] → emit name rest ≡ name ∷ rest
emit_name [] rest ne = absurd (ne refl)
emit_name (c ∷ name) rest ne = refl

-- The tokens of a path are its names, in order: each that is not empty and holds no slash, whatever the
-- number of slashes in front of each of them, of one at least, and at the end.
pub tokens-join : (l : List (ℕ × List ℕ)) (last : ℕ) → Components l → tokens (join l last) ≡ names l
unfolding join Components tokens_from
tokens-join [] last h =
    ap tokens (sym (append-nil (replicate last slash))) ∙ tokens_from-slashes last []
tokens-join ((k, name) ∷ l) last (c, h) =
    tokens_from-slashes (suc k) (name ++ join l last)
    ∙ tokens_from-name [] name (join l last) c.no_slash
    ∙ tokens_from-join name l last
    ∙ emit_name name (tokens (join l last)) c.some_character
    ∙ ap (λ r. name ∷ r) (tokens-join l last h)
