-- ===== src/Inode/OpenTests.antt =====
-- Opening and closing with one inode open.
use cs130_25spring_project.Common.{
  ℕ, ◌≡◌, ◌≢◌, ap, length, refl, true, false, none, some, [], ◌∷◌, arith,
}
use cs130_25spring_project.Fs.{Fs}
use cs130_25spring_project.Fs.Laws.{sector}
use cs130_25spring_project.Inode.{Inode}
use cs130_25spring_project.Inode.Open.{Opened, find_open, inode_open, inode_close}
use cs130_25spring_project.Inode.Reopen.{inode_close-inode_open}
use cs130_25spring_project.Inode.Create.{blank, inode_create, inode_open-inode_create}
use cs130_25spring_project.Cache.Free.{cache_init-IsValid}
use cs130_25spring_project.Inode.Tests.{devices, start, start-IsValid, inode, map_file}

abbrev opened : Opened
opened = record { fs = start; open_inodes = inode ∷ [] }

third_open : find_open opened.open_inodes 3 ≡ some inode
unfolding find_open
third_open = refl

fifth_not_open : find_open opened.open_inodes 5 ≡ none
unfolding find_open
fifth_not_open = refl

inode_close-inode_open_example :
    (o' : Opened) × (inode_open opened false 3 ≡ some (o', some (record inode { open_cnt = 2 })))
    × (o'.fs ≡ start)
    × (inode_close map_file o' 3 ≡ some opened)
inode_close-inode_open_example =
    inode_close-inode_open map_file opened false 3 inode third_open (omega arith)

fifth_whole : length (sector start 5) ≡ 512
unfolding start
fifth_whole = ap length ((cache_init-IsValid devices).1 0 5)

inode_open-inode_create_example :
    (fs' : Fs) × (o' : Opened) × (i : Inode) × (inode_create map_file start true 5 0 0 1
      ≡ some (fs', true))
    × (inode_open (record { fs = fs'; open_inodes = inode ∷ [] }) true 5 ≡ some (o', some i))
    × (i.content ≡ blank 0 0 1)
    × ((t : ℕ) → 5 ≢ t → sector fs' t ≡ sector start t)
unfolding start
inode_open-inode_create_example =
    inode_open-inode_create map_file start (inode ∷ []) 5 0 1 start-IsValid (omega arith)
      (omega arith) (omega arith) fifth_whole fifth_not_open
