-- ===== src/Directory/Tests.antt =====
-- The directory with two free entries.
use cs130_25spring_project.Common.{
  ℕ, zero, suc, ◌+◌, ◌*◌, ◌/◌, ◌%◌, ◌<◌, ◌≡◌, ◌≢◌, refl, ap, ◌∙◌, Option, some, List, [], ◌∷◌,
  arith, ◌==◌, replicate, length, get_or,
}
use cs130_25spring_project.Fs.{Fs}
use cs130_25spring_project.Fs.Laws.{sector, Same}
use cs130_25spring_project.Inode.{InodeDisk}
use cs130_25spring_project.Inode.File.{byte_at, file_bytes}
use cs130_25spring_project.Inode.Open.{Opened, find_open}
use cs130_25spring_project.Directory.{DirEntry, entry_size, lookup}
use cs130_25spring_project.Directory.Lookup.{entry_at, Looked, lookup-Looked}
use cs130_25spring_project.Directory.Slot.{Finds, find_slot-Finds, find_slot-Finds}
use cs130_25spring_project.Inode.Lookup.{get_or-replicate}
use cs130_25spring_project.Inode.Tests.{map_file}
use cs130_25spring_project.Directory.Search.{Unused}
use cs130_25spring_project.Directory.Path.{NoSlash, Components, tokens, join, tokens-join}
use cs130_25spring_project.Directory.Found.{Adds, lookup-dir_add}
use cs130_25spring_project.Directory.Volume.{
  folder, folder_inode, blank, blank-IsDir, sectors, first_block, blank_entry, letter, folder_dir,
  letter-IsName,
}

-- Each entry is of zeros.
zero_byte : (k : ℕ) → k < 72 → byte_at (sector blank) folder k ≡ 0
unfolding byte_at
zero_byte k h =
    ap (λ s. get_or (sector blank s) (k % 512) 0)
      (first_block (replicate 512 0) (k / 512) (omega arith))
    ∙ ap (λ l. get_or l (k % 512) 0) (sectors (replicate 512 0) 4)
    ∙ get_or-replicate 512 (k % 512) 0

get_or-file_bytes :
    (S : ℕ → List ℕ) (d : InodeDisk) (offset n i : ℕ)
    → i < n
    → get_or (file_bytes S d offset n) i 0 ≡ byte_at S d (offset + i)
unfolding file_bytes
get_or-file_bytes S d offset zero i h = absurd (omega arith)
get_or-file_bytes S d offset (suc n) zero h = ap (byte_at S d) (omega arith)
get_or-file_bytes S d offset (suc n) (suc i) h =
    get_or-file_bytes S d (offset + 1) n i (omega arith) ∙ ap (byte_at S d) (omega arith)

entry_unused : (j : ℕ) → j < 2 → (entry_at (sector blank) folder j).in_use ≡ 0
entry_unused j h =
    get_or-file_bytes (sector blank) folder (entry_size * j) entry_size 35 (omega arith)
    ∙ zero_byte (entry_size * j + 35) (omega arith)

abbrev open_folder : Opened
open_folder = record { fs = blank; open_inodes = folder_inode ∷ [] }

letter-Unused : Unused blank folder_inode letter
letter-Unused j h = ground (arith, entry_unused j (omega arith))

lookup-Looked_example :
    (fs' : Fs) × (r : Option (DirEntry × ℕ)) × (lookup open_folder folder_dir letter blank_entry
      ≡ some (record open_folder { fs = fs' }, r))
    × Same blank fs'
    × Looked (sector blank) folder_inode letter blank_entry r
unfolding find_open
lookup-Looked_example =
    lookup-Looked open_folder folder_dir letter blank_entry folder_inode refl blank-IsDir.valid
      blank-IsDir.file

find_slot-Finds_example : Finds blank folder_inode blank_entry 0 3
find_slot-Finds_example =
    find_slot-Finds 3 blank folder_inode blank_entry 0 (omega arith) (omega arith) blank-IsDir.valid
      blank-IsDir.file

lookup-dir_add_example : Adds map_file open_folder folder_dir folder_inode letter 7 blank_entry
unfolding find_open
lookup-dir_add_example =
    lookup-dir_add map_file open_folder folder_dir folder_inode letter 7 blank_entry 0 refl
      blank-IsDir letter-IsName letter-Unused (omega arith) (omega arith)
      (ap (λ n. n == 0) (entry_unused 0 (omega arith)))

-- "/ab//c/"
abbrev two_names : List (ℕ × List ℕ)
two_names = (0, 97 ∷ 98 ∷ []) ∷ (1, 99 ∷ []) ∷ []

not_empty : (c : ℕ) (l : List ℕ) → c ∷ l ≢ []
not_empty c l e = absurd (omega (arith, ap length e))

two_names-Components : Components two_names
unfolding Components NoSlash
two_names-Components = (
  record {
    no_slash = ((λ e. absurd (omega arith)), ((λ e. absurd (omega arith)), tt));
    some_character = not_empty 97 (98 ∷ []);
  },
  (record { no_slash = ((λ e. absurd (omega arith)), tt); some_character = not_empty 99 [] }, tt),
)

tokens-join_example : tokens (join two_names 1) ≡ (97 ∷ 98 ∷ []) ∷ (99 ∷ []) ∷ []
tokens-join_example = tokens-join two_names 1 two_names-Components
