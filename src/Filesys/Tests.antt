-- ===== src/Filesys/Tests.antt =====
-- "/ab//c/", as the name of a directory.
use cs130_25spring_project.Common.{ℕ, List, [], ◌∷◌, true}
use cs130_25spring_project.Filesys.{path_split}
use cs130_25spring_project.Filesys.Split.{Splits, Refused, path_split-Splits}

abbrev name : List ℕ
name = 47 ∷ 97 ∷ 98 ∷ 47 ∷ 47 ∷ 99 ∷ 47 ∷ []

path_split-Splits_example : Splits name (Refused name true) (path_split name true)
path_split-Splits_example = path_split-Splits name true
