-- ===== src/Filesys.antt =====
-- src/filesys/filesys.c: files by their paths. The allocation of the copies of names succeeds.
pub mod Copy
pub mod Split
pub mod Calls
mod Tests
use cs130_25spring_project.Common.{
  ℕ, Bool, true, false, ◌&&◌, Option, none, some, List, [], ◌∷◌, ◌==◌, if◌then◌else◌,
}
use cs130_25spring_project.Directory.{dot}
use cs130_25spring_project.Directory.Path.{slash}

abbrev pub keep : Bool → ℕ → List ℕ × Bool → List ℕ × Bool
keep true c (l, last) = (l, last)
keep false c (l, last) = (c ∷ l, last)

-- The copy of a name with one slash for several, and `prev_slash` at the end.
unfoldable pub copy_name : (prev_slash : Bool) → List ℕ → List ℕ × Bool
copy_name prev_slash [] = ([], prev_slash)
copy_name prev_slash (c ∷ l) = keep ((c == slash) && prev_slash) c (copy_name (c == slash) l)

unfoldable pub drop_last : List ℕ → List ℕ
drop_last [] = []
drop_last (c ∷ []) = []
drop_last (c ∷ d ∷ l) = c ∷ drop_last (d ∷ l)

abbrev pub split_here : ℕ → List ℕ → Option (List ℕ × List ℕ) → Option (List ℕ × List ℕ)
split_here c l (some (path, file)) = some (c ∷ path, file)
split_here c l none = if c == slash then some ([], l) else none

-- What stands in front of the last slash and behind it.
unfoldable pub split_last : List ℕ → Option (List ℕ × List ℕ)
split_last [] = none
split_last (c ∷ l) = split_here c l (split_last l)

-- With nothing in front of the slash the path is "/", without a slash it is ".".
unfoldable pub path_and_file : (copy : List ℕ) → Option (List ℕ × List ℕ) → Option (List ℕ × List ℕ)
path_and_file copy none = some (dot, copy)
path_and_file copy (some (path, [])) = none
path_and_file copy (some ([], (c ∷ file))) = some (slash ∷ [], c ∷ file)
path_and_file copy (some ((p ∷ path), (c ∷ file))) = some (p ∷ path, c ∷ file)

-- Empty names are refused.
unfoldable pub split_copy : List ℕ → Option (List ℕ × List ℕ)
split_copy [] = none
split_copy (c ∷ l) = path_and_file (c ∷ l) (split_last (c ∷ l))

abbrev pub trimmed : (is_dir : Bool) → List ℕ × Bool → List ℕ
trimmed is_dir (copy, prev_slash) = if is_dir && prev_slash then drop_last copy else copy

unfoldable pub path_split : (name : List ℕ) → (is_dir : Bool) → Option (List ℕ × List ℕ)
path_split name is_dir = split_copy (trimmed is_dir (copy_name false name))
