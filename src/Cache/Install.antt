-- ===== src/Cache/Install.antt =====
-- What a write of one cache block does to the invariant and to the view.
use cs130_25spring_project.Common.{
  ℕ, ◌<◌, ◌≡◌, ◌≢◌, inl, inr, true, false, ◌&&◌, List, arith, if◌then◌else◌, length, set,
  Bool-cases, ℕ_discrete, eq→==, ne→==, ==-refl,
}
use cs130_25spring_project.Cache.{CacheBlock, Devices, matches}
use cs130_25spring_project.Cache.View.{
  block_at, disk, Unique, Clean, Writable, Sees, cached, uncached, block_at-set,
}

-- The block `cb` is written to index `i`, and no other block holds its sector.
module _ (l : List CacheBlock) (i : ℕ) (cb : CacheBlock) (h : i < length l) where
  pub set-Unique :
      Unique l
      → ((j : ℕ) → j ≢ i → matches (block_at l j) cb.block cb.sector ≡ false)
      → Unique (set l i cb)
  set-Unique u others a b d s ma mb =
      ground
        (arith, block_at-set l i a cb h, block_at-set l i b cb h, u a b d s, others a, others b)

  pub set-Clean :
      (devs : Devices)
      → Clean l devs
      → (cb.valid ≡ true → cb.dirty ≡ false → cb.bytes ≡ disk devs cb.block cb.sector)
      → Clean (set l i cb) devs
  set-Clean devs old new a = elim (ℕ_discrete i a) [
    | yes e ↦ rw (block_at-set l i a cb h, eq→== e) new
    | no ne ↦ rw (block_at-set l i a cb h, ne→== ne) (old a)
  ]

  pub set-Writable :
      (devs : Devices)
      → Writable l devs
      → (cb.valid ≡ true → (cb.sector < (devs cb.block).size) × ((devs cb.block).foreign ≡ false))
      → Writable (set l i cb) devs
  set-Writable devs old new a = elim (ℕ_discrete i a) [
    | yes e ↦ rw (block_at-set l i a cb h, eq→== e) new
    | no ne ↦ rw (block_at-set l i a cb h, ne→== ne) (old a)
  ]

  -- A block that keeps its sector: only the view of that sector changes.
  pub set-Sees :
      (devs : Devices) {d s : ℕ} {x : List ℕ}
      → cb.valid ≡ true
      → (block_at l i).valid ≡ true
      → cb.block ≡ (block_at l i).block
      → cb.sector ≡ (block_at l i).sector
      → Unique l
      → Sees l devs d s x
      → Sees (set l i cb) devs d s (if matches cb d s then cb.bytes else x)
  set-Sees devs {d} {s} {x} new old eb es u (cached j m e) = elim (ℕ_discrete i j) [
    | yes same ↦
        cached i (ground (arith, block_at-set l i i cb h, ==-refl i))
          (ground (arith, block_at-set l i i cb h, ==-refl i))
    | no apart ↦
        let out : matches cb d s ≡ false = ground (arith, u i j d s) in
        rw out (
          cached j (rw (block_at-set l i j cb h, ne→== apart) m)
            (rw (block_at-set l i j cb h, ne→== apart) e))
  ]
  set-Sees devs {d} {s} {x} new old eb es u (uncached all e) =
      let out : matches cb d s ≡ false = ground (arith, all i) in
      rw out (uncached (λ j. ground (arith, block_at-set l i j cb h, all j)) e)

-- What eviction writes back: the block's bytes, if it is valid and dirty, to its sector.
pub record WrittenBack (cb : CacheBlock) (devs devs' : Devices) : Type 0 where
  pub sectors :
      (d s : ℕ) → disk devs' d s ≡ (if cb.dirty && matches cb d s then cb.bytes else disk devs d s)
  pub sizes : (d : ℕ) → (devs' d).size ≡ (devs d).size
  pub foreign : (d : ℕ) → (devs' d).foreign ≡ (devs d).foreign

-- A victim at index `i` makes room for sector `s` of device `d`, which no block holds: only the
-- view of that sector changes.
pub replace-Sees :
    (l : List CacheBlock) (i : ℕ) (cb : CacheBlock) (devs devs' : Devices) (d' s' : ℕ) {x : List ℕ}
    → i < length l
    → Unique l
    → Clean l devs
    → WrittenBack (block_at l i) devs devs'
    → Sees l devs d' s' x
    → Sees (set l i cb) devs' d' s' (if matches cb d' s' then cb.bytes else x)
replace-Sees l i cb devs devs' d' s' {x} h u clean w old = elim (Bool-cases (matches cb d' s')) [
  | inl m ↦ rw m (
      cached i (rw (block_at-set l i i cb h, ==-refl i) m)
        (rw (block_at-set l i i cb h, ==-refl i)))
  | inr m ↦ rw m (go m old)
]
  where
    written : matches (block_at l i) d' s' ≡ true → (block_at l i).bytes ≡ x → disk devs' d' s' ≡ x
    written m e = ground (arith, w.sectors d' s', clean i)

    go : matches cb d' s' ≡ false → Sees l devs d' s' x → Sees (set l i cb) devs' d' s' x
    go m (cached j mj ej) = elim (ℕ_discrete i j) [
      | yes same ↦
          uncached (λ a. ground (arith, block_at-set l i a cb h, u a j d' s', eq→== same))
            (written (rw same mj) (rw same ej))
      | no apart ↦
          cached j (rw (block_at-set l i j cb h, ne→== apart) mj)
            (rw (block_at-set l i j cb h, ne→== apart) ej)
    ]
    go m (uncached all e) =
        uncached (λ a. ground (arith, block_at-set l i a cb h, all a))
          (ground (arith, w.sectors d' s', all i))
