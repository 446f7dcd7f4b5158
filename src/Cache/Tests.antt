-- ===== src/Cache/Tests.antt =====
-- The theorems on the cache at an empty cache over a device of eight sectors.
use cs130_25spring_project.Common.{◌≡◌, refl, true, false, some, [], ◌∷◌, arith, replicate}
use cs130_25spring_project.Common.Bytes.{slice, splice}
use cs130_25spring_project.Cache.{State, Devices, cache_init, cache_read, cache_write, cache_flush}
use cs130_25spring_project.Cache.View.{view, IsValid}
use cs130_25spring_project.Cache.Served.{Served}
use cs130_25spring_project.Cache.Access.{IsSector, cache_read-Served, cache_write-Served}
use cs130_25spring_project.Cache.Flush.{FlushedState, cache_flush-FlushedState}
use cs130_25spring_project.Cache.Free.{cache_init-IsValid}

-- Sector `s` holds 512 bytes `s`.
abbrev devices : Devices
devices = λ _. record {
  size = 8;
  foreign = false;
  sectors = λ s. replicate 512 s;
  read_cnt = 0;
  write_cnt = 0;
}

start : State
start = cache_init devices

start-IsValid : IsValid start
unfolding start
start-IsValid = (cache_init-IsValid devices).0

third-IsSector : IsSector start 0 3
unfolding start cache_init
third-IsSector = record { inside = omega arith; writable = refl; size32 = omega arith }

cache_read-Served_example :
    (st' : State) × (cache_read start 0 3 4 500 ≡ some (st', slice 500 4 (view start 0 3)))
    × Served start 0 3 st' (view start 0 3)
cache_read-Served_example = cache_read-Served start 0 3 4 500 start-IsValid third-IsSector

cache_write-Served_example :
    (st' : State) × (cache_write start 0 3 (1 ∷ 2 ∷ []) 500 ≡ some st')
    × Served start 0 3 st' (splice 500 (1 ∷ 2 ∷ []) (view start 0 3))
cache_write-Served_example =
    cache_write-Served start 0 3 (1 ∷ 2 ∷ []) 500 start-IsValid third-IsSector

cache_flush-FlushedState_example :
    (st' : State) × (cache_flush start true ≡ some st') × FlushedState start true st'
cache_flush-FlushedState_example = cache_flush-FlushedState start true start-IsValid
