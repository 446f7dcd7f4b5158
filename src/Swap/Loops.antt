-- ===== src/Swap/Loops.antt =====
-- What the loops of swap.c over the sectors of a slot write and read.
use cs130_25spring_project.Common.{
  ℕ, zero, suc, ◌+◌, ◌-◌, ◌*◌, ◌^◌, ◌≤◌, ◌<◌, ◌≡◌, refl, sym, ap, ◌∙◌, false, some, List, ◌++◌,
  if◌then◌else◌, arith, length, take, drop,
}
use cs130_25spring_project.Common.Bytes.{
  slice, splice, length-splice, length-take, length-drop, take-splice, take-add, take_of_le,
}
use cs130_25spring_project.Block.{Block, after_read, after_write, block_read-ok, block_write-ok}
use cs130_25spring_project.Bitmap.Range.{in_range}
use cs130_25spring_project.Swap.{sector_of, write_loop, read_loop}

-- sector `i` of the page
abbrev pub part : List ℕ → ℕ → List ℕ
part page i = slice (i * 512) 512 page

-- The loop wrote parts `i` up to `i + n` of the page to the slot, and nothing else.
pub record Written (dev : Block) (slot i n : ℕ) (page : List ℕ) (dev' : Block) : Type 0 where
  pub size : dev'.size ≡ dev.size
  pub foreign : dev'.foreign ≡ dev.foreign
  pub sectors :
      (s : ℕ)
      → dev'.sectors s
        ≡ (if in_range (slot * 8 + i) n s then part page (s - slot * 8) else dev.sectors s)

pub write_loop-Written :
    (n : ℕ) (dev : Block) (slot i : ℕ) (page : List ℕ)
    → slot * 8 + 8 ≤ dev.size
    → dev.size < 2 ^ 32
    → dev.foreign ≡ false
    → i + n ≤ 8
    → (dev' : Block) × (write_loop n dev slot i page ≡ some dev') × Written dev slot i n page dev'
unfolding write_loop
write_loop-Written zero dev slot i page room small own h =
    (dev, refl, record { size = refl; foreign = refl; sectors = λ s. ground arith })
write_loop-Written (suc n) dev slot i page room small own h = step (
    write_loop-Written n (after_write dev (slot * 8 + i) (part page i)) slot (i + 1) page room small
      own (omega arith))
  where
    step :
        (dev' : Block) × (write_loop n
              (after_write dev (slot * 8 + i) (part page i))
              slot
              (i + 1)
              page
            ≡ some dev')
          × Written (after_write dev (slot * 8 + i) (part page i)) slot (i + 1) n page dev'
        → (dev' : Block) × (write_loop (suc n) dev slot i page ≡ some dev')
          × Written dev slot i (suc n) page dev'
    step (dev', e, w) =
        let wrap : sector_of slot i ≡ slot * 8 + i = omega arith in
        let back : slot * 8 + i - slot * 8 ≡ i = omega arith in
        (
          dev',
          rw (wrap, block_write-ok dev (slot * 8 + i) (part page i) (omega arith) own) e,
          record {
            size = w.size;
            foreign = w.foreign;
            sectors = λ s. ground (
              arith,
              w.sectors s,
              ap (part page) back,
              ap (λ k. part page (k - slot * 8)) {x = s} {y = slot * 8 + i},
            );
          },
        )

length-part : (page : List ℕ) (k : ℕ) → length page ≡ 4096 → k < 8 → length (part page k) ≡ 512
length-part page k whole h =
    omega (arith, length-take 512 (drop (k * 512) page), length-drop (k * 512) page)

-- One round of reading copies part `i` behind the parts that are there.
read_part :
    (buf page : List ℕ) (i : ℕ)
    → length buf ≡ 4096
    → length page ≡ 4096
    → i < 8
    → take (i * 512) buf ≡ take (i * 512) page
    → take ((i + 1) * 512) (splice (i * 512) (part page i) buf) ≡ take ((i + 1) * 512) page
read_part buf page i hb hp h same =
    let next : i * 512 + length (part page i) ≡ (i + 1) * 512 =
      omega (arith, length-part page i hp h) in
    let next' : i * 512 + 512 ≡ (i + 1) * 512 = omega arith in
    ap (λ k. take k (splice (i * 512) (part page i) buf)) (sym next)
    ∙ take-splice (i * 512) (part page i) buf (omega arith)
    ∙ ap (λ l. l ++ part page i) same
    ∙ sym (take-add (i * 512) 512 page)
    ∙ ap (λ k. take k page) next'

pub read_loop-page :
    (n : ℕ) (dev : Block) (slot i : ℕ) (buf page : List ℕ)
    → slot * 8 + 8 ≤ dev.size
    → dev.size < 2 ^ 32
    → length page ≡ 4096
    → length buf ≡ 4096
    → i + n ≡ 8
    → ((k : ℕ) → k < 8 → dev.sectors (slot * 8 + k) ≡ part page k)
    → take (i * 512) buf ≡ take (i * 512) page
    → (dev' : Block) × (read_loop n dev slot i buf ≡ some (page, dev'))
      × (dev'.sectors ≡ dev.sectors)
      × (dev'.size ≡ dev.size)
      × (dev'.foreign ≡ dev.foreign)
unfolding read_loop
read_loop-page zero dev slot i buf page room small hp hb h stored same =
    let whole : (l : List ℕ) → length l ≡ 4096 → take (i * 512) l ≡ l =
      λ l hl. take_of_le (i * 512) l (omega arith) in
    (dev, ap (λ l. some (l, dev)) (sym (whole buf hb) ∙ same ∙ whole page hp), refl, refl, refl)
read_loop-page (suc n) dev slot i buf page room small hp hb h stored same = step (
    read_loop-page n (after_read dev) slot (i + 1) (splice (i * 512) (part page i) buf) page room
      small hp (len ∙ hb) (omega arith) stored (read_part buf page i hb hp (omega arith) same))
  where
    len : length (splice (i * 512) (part page i) buf) ≡ length buf
    len =
        length-splice (i * 512) (part page i) buf
          (omega (arith, length-part page i hp (omega arith)))

    step :
        (dev' : Block) × (read_loop n
              (after_read dev)
              slot
              (i + 1)
              (splice (i * 512) (part page i) buf)
            ≡ some (page, dev'))
          × (dev'.sectors ≡ dev.sectors)
          × (dev'.size ≡ dev.size)
          × (dev'.foreign ≡ dev.foreign)
        → (dev' : Block) × (read_loop (suc n) dev slot i buf ≡ some (page, dev'))
          × (dev'.sectors ≡ dev.sectors)
          × (dev'.size ≡ dev.size)
          × (dev'.foreign ≡ dev.foreign)
    step (dev', e, a, b, c) =
        let wrap : sector_of slot i ≡ slot * 8 + i = omega arith in
        (
          dev',
          rw (wrap, block_read-ok dev (slot * 8 + i) (omega arith), stored i (omega arith)) e,
          a,
          b,
          c,
        )
