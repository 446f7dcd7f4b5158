-- ===== src/Inode/Index.antt =====
-- The index of an inode as one list of sectors, and the bytes of its file as one array.
use cs130_25spring_project.Common.{
  ℕ, zero, suc, ◌+◌, ◌*◌, ◌≤◌, ◌<◌, ◌≡◌, refl, ap, ◌∙◌, List, [], ◌∷◌, ◌++◌, arith, ◌==◌,
  if◌then◌else◌, length, get_or, replicate, length-append, length-replicate,
}
use cs130_25spring_project.Common.Words.{decode, length-decode}
use cs130_25spring_project.Block.{block_sector_none}
use cs130_25spring_project.Inode.{InodeDisk}

-- The pointers of a table by the sectors `S`; of no table, 128 times no sector.
unfoldable pub table_of : (ℕ → List ℕ) → ℕ → List ℕ
table_of S s = if s == block_sector_none then replicate 128 block_sector_none else decode 128 (S s)

unfoldable pub tables_of : (ℕ → List ℕ) → List ℕ → List ℕ
tables_of S [] = []
tables_of S (s ∷ l) = table_of S s ++ tables_of S l

-- The sectors of the file in order: the direct ones, those of the indirect table, those of the
-- tables of the doubly indirect one.
unfoldable pub blocks : (ℕ → List ℕ) → InodeDisk → List ℕ
blocks S d = d.direct ++ (table_of S d.indirect ++ tables_of S (table_of S d.doubly_indirect))

-- The sector of block `k`, if the inode has it.
abbrev pub block_of : (ℕ → List ℕ) → InodeDisk → ℕ → ℕ
block_of S d k = get_or (blocks S d) k block_sector_none

pub length-table_of : (S : ℕ → List ℕ) (s : ℕ) → length (table_of S s) ≡ 128
unfolding table_of
length-table_of S s =
    ground (arith, length-replicate 128 block_sector_none, length-decode 128 (S s))

pub get_or-append_left :
    (l m : List ℕ) (i d : ℕ) → i < length l → get_or (l ++ m) i d ≡ get_or l i d
get_or-append_left [] m i d h = absurd (omega arith)
get_or-append_left (x ∷ l) m zero d h = refl
get_or-append_left (x ∷ l) m (suc i) d h = get_or-append_left l m i d (omega arith)

pub get_or-append_right :
    (l m : List ℕ) (i j d : ℕ) → i ≡ length l + j → get_or (l ++ m) i d ≡ get_or m j d
get_or-append_right [] m i j d e = ap (λ k. get_or m k d) (omega arith)
get_or-append_right (x ∷ l) m zero j d e = absurd (omega arith)
get_or-append_right (x ∷ l) m (suc i) j d e = get_or-append_right l m i j d (omega arith)

-- Entry `b` of table `a` stands at index `128 * a + b` of the tables.
pub get_or-tables_of :
    (S : ℕ → List ℕ) (l : List ℕ) (a b d : ℕ)
    → a < length l
    → b < 128
    → (e : ℕ) → get_or (tables_of S l) (128 * a + b) d ≡ get_or (table_of S (get_or l a e)) b d
unfolding tables_of
get_or-tables_of S [] a b d h hb e = absurd (omega arith)
get_or-tables_of S (s ∷ l) zero b d h hb e =
    ap (λ k. get_or (table_of S s ++ tables_of S l) k d) (omega arith)
    ∙ get_or-append_left (table_of S s) (tables_of S l) b d (omega (arith, length-table_of S s))
get_or-tables_of S (s ∷ l) (suc a) b d h hb e =
    get_or-append_right (table_of S s) (tables_of S l) (128 * suc a + b) (128 * a + b) d
      (omega (arith, length-table_of S s))
    ∙ get_or-tables_of S l a b d (omega arith) hb e

-- Past the last block there is no sector.
pub get_or_of_ge : (l : List ℕ) (i d : ℕ) → length l ≤ i → get_or l i d ≡ d
get_or_of_ge [] i d h = refl
get_or_of_ge (x ∷ l) zero d h = absurd (omega arith)
get_or_of_ge (x ∷ l) (suc i) d h = get_or_of_ge l i d (omega arith)

length-tables_of : (S : ℕ → List ℕ) (l : List ℕ) → length (tables_of S l) ≡ 128 * length l
unfolding tables_of
length-tables_of S [] = omega arith
length-tables_of S (s ∷ l) = omega (
  arith,
  length-append {0} (table_of S s) (tables_of S l),
  length-table_of S s,
  length-tables_of S l,
)

pub length-blocks :
    (S : ℕ → List ℕ) (d : InodeDisk)
    → length d.direct ≡ 10
    → length (blocks S d) ≡ 10 + 128 + 128 * 128
unfolding blocks
length-blocks S d h =
    let two = table_of S d.doubly_indirect in
    omega (
      arith,
      length-append {0} d.direct (table_of S d.indirect ++ tables_of S two),
      length-append {0} (table_of S d.indirect) (tables_of S two),
      length-table_of S d.indirect,
      length-tables_of S two,
      length-table_of S d.doubly_indirect,
    )
