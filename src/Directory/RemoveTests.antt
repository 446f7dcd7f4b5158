-- ===== src/Directory/RemoveTests.antt =====
-- The directory with an entry in use, whose file is open.
use cs130_25spring_project.Common.{
  ℕ, ◌≡◌, refl, ap, ◌∙◌, true, false, List, [], ◌∷◌, ◌++◌, arith, ◌==◌, not, ◌&&◌, if◌then◌else◌,
  replicate,
}
use cs130_25spring_project.Fs.{Fs}
use cs130_25spring_project.Fs.Laws.{sector}
use cs130_25spring_project.Inode.{Inode}
use cs130_25spring_project.Inode.Disk.{disk_bytes}
use cs130_25spring_project.Inode.File.{byte_at, file_bytes}
use cs130_25spring_project.Inode.Open.{Opened, find_open}
use cs130_25spring_project.Directory.{DirEntry, strcmp_equal, c_string, matches}
use cs130_25spring_project.Directory.Lookup.{entry_at}
use cs130_25spring_project.Common.Words.{word_at}
use std.Path.{fun_ext}
use cs130_25spring_project.Inode.Index.{table_of, blocks}
use cs130_25spring_project.Inode.Tests.{map_file}
use cs130_25spring_project.Directory.Removed.{IsTarget, IsNamed, Removes, lookup-dir_remove}
use cs130_25spring_project.Directory.Volume.{
  folder, folder_inode, volume, folder-IsDir, sectors, blank_entry, letter, folder_dir,
  letter-IsName,
}

-- The first entry is that of the file "a" in sector 5.
abbrev letter_entry : DirEntry
letter_entry = record { inode_sector = 5; name = 97 ∷ replicate 30 0; in_use = 1 }

abbrev letter_bytes : List ℕ
letter_bytes = 5 ∷ 0 ∷ 0 ∷ 0 ∷ 97 ∷ replicate 30 0 ++ (1 ∷ replicate 476 0)

abbrev letter_volume : Fs
letter_volume = volume letter_bytes

letter_sectors : sector letter_volume ≡ (λ s. if s == 3 then disk_bytes folder else letter_bytes)
letter_sectors = fun_ext (sectors letter_bytes)

letter_first : entry_at (sector letter_volume) folder 0 ≡ letter_entry
unfolding byte_at file_bytes blocks table_of word_at
letter_first = ap (λ S. entry_at S folder 0) letter_sectors

letter_second : (entry_at (sector letter_volume) folder 1).in_use ≡ 0
unfolding byte_at file_bytes blocks table_of
letter_second = ap (λ S. (entry_at S folder 1).in_use) letter_sectors

abbrev letter_inode : Inode
letter_inode = record {
  sector = 5;
  open_cnt = 1;
  removed = false;
  deny_write_cnt = 0;
  content = record folder { is_dir = 0; length = 0 };
}

abbrev open_letter : Opened
open_letter = record { fs = letter_volume; open_inodes = folder_inode ∷ letter_inode ∷ [] }

letter-IsTarget : IsTarget open_letter.open_inodes 3 folder_inode letter_inode
unfolding find_open
letter-IsTarget = record { opened = refl; directory = refl; apart = λ e. absurd (omega arith) }

letter-IsNamed : IsNamed map_file open_letter folder_inode letter_inode 0 letter
unfolding strcmp_equal c_string
letter-IsNamed = record {
  inside = omega arith;
  hits = ap (matches letter) letter_first;
  alone = λ j ne h.
      let first : j ≡ 1 = omega (arith, h, ne) in
      ap (λ i. matches letter (entry_at (sector letter_volume) folder i)) first
      ∙ ap
          (λ n.
            not (n == 0)
            && strcmp_equal letter (c_string (entry_at (sector letter_volume) folder 1).name))
          letter_second;
  names = ap (λ e. e.inode_sector) letter_first;
  word = omega arith;
  held = λ e. absurd (omega arith);
  no_dir = refl;
}

lookup-dir_remove_example :
    Removes map_file 1 true true blank_entry open_letter folder_dir folder_inode letter_inode 0
      letter
lookup-dir_remove_example =
    lookup-dir_remove map_file 1 true true blank_entry open_letter folder_dir folder_inode
      letter_inode 0 letter (folder-IsDir letter_bytes refl) letter-IsName letter-IsTarget
      letter-IsNamed
