-- ===== src/File/Tests.antt =====
-- An open file on an inode of 600 bytes.
use cs130_25spring_project.Common.{ℕ, ◌≡◌, refl, false, some, List, [], ◌∷◌, ◌++◌}
use cs130_25spring_project.Inode.Open.{Opened, find_open}
use cs130_25spring_project.Inode.Tests.{start, start-IsValid, inode, content-IsFile}
use cs130_25spring_project.File.{File, file_read}
use cs130_25spring_project.File.Laws.{file_read-add}

abbrev opened : Opened
opened = record { fs = start; open_inodes = inode ∷ [] }

abbrev file : File
file = record { inode = 3; pos = 500; deny_write = false }

third_open : find_open opened.open_inodes 3 ≡ some inode
unfolding find_open
third_open = refl

file_read-add_example :
    (o₁ o₂ o' : Opened) × (file₁ file₂ : File) × (first second : List ℕ) × (file_read opened file 50
      ≡ some (o₁, file₁, some first))
    × (file_read o₁ file₁ 80 ≡ some (o₂, file₂, some second))
    × (file_read opened file 130 ≡ some (o', file₂, some (first ++ second)))
file_read-add_example =
    file_read-add opened file 50 80 inode start-IsValid content-IsFile third_open refl
