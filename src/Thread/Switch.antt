-- ===== src/Thread/Switch.antt =====
-- What the routines that switch lead to.
use cs130_25spring_project.Common.{
  ℕ, ◌≤◌, ◌<◌, ◌≡◌, refl, sym, ap, ◌∙◌, true, false, Option, some, List, arith, ◌==◌, if◌then◌else◌,
  ne→==, ==-refl, ℕ_discrete,
}
use cs130_25spring_project.Common.Counts.{count}
use cs130_25spring_project.Thread.{Kernel, thread_running, is_running, schedule}
use cs130_25spring_project.Thread.Max.{pri}
use cs130_25spring_project.Thread.Ready.{status, is_alive, IsValid, IsPending, IsTop}
use cs130_25spring_project.Thread.Moved.{moved-IsListed, moved-status, moved-pri, Fits}
use cs130_25spring_project.Thread.Schedule.{
  Chosen, Chosen-counts, switched, Upcoming, next_thread_to_run-Chosen,
}

abbrev pub Switches : Kernel → Option Kernel → Type 0
Switches k result =
    (next : ℕ) × (l : List ℕ) × (result ≡ some (switched k next l))
    × Chosen k next l
    × IsValid (switched k next l)
    × IsTop (switched k next l)

module _ (k : Kernel) (v : IsPending k) (next : ℕ) (l : List ℕ) (c : Chosen k next l) where
  abbrev chosen :
      (is_alive k next ≡ true)
      × ((t : ℕ) → (t == next) ≡ false → count t l ≡ count t k.ready_list)
      × (count next l ≡ 0)
      × ((t : ℕ) → 0 < count t l → pri k.threads t ≤ pri k.threads next)
  chosen = Chosen-counts k next l v.listed c

  switched-Fits : Fits k l k.all_list next 0 next thread_running
  switched-Fits = record {
    here = chosen.2;
    there = λ u ne. chosen.1 u (ground (arith, ne));
    all_here = v.listed.all next ∙ ap (λ b. if b then 1 else 0) chosen.0;
    all_there = λ u ne. refl;
    before = chosen.0;
    idle = λ e. refl;
  }

  switched-IsValid : IsValid (switched k next l)
  switched-IsValid = record {
    listed = moved-IsListed k l k.all_list next 0 next thread_running v.listed switched-Fits;
    running =
        ap is_running (moved-status k l k.all_list next 0 next thread_running next)
        ∙ ap (λ b. is_running (if b then thread_running else status k next)) (==-refl next);
    only = only;
  }
    where
      only : (t : ℕ) → is_running (status (switched k next l) t) ≡ true → t ≡ next
      only t runs = elim (ℕ_discrete next t) [
        | yes e ↦ sym e
        | no ne ↦ absurd (
            ground (
              arith,
              sym runs
                  ∙ ap is_running (
                      moved-status k l k.all_list next 0 next thread_running t
                      ∙ ap (λ b. if b then thread_running else status k t) (ne→== ne))
                  ∙ v.stopped t,
            ))
      ]

  switched-IsTop : IsTop (switched k next l)
  switched-IsTop t pos =
      let same = moved-pri k l k.all_list next 0 next thread_running in
      rw (same t, same next) (chosen.3 t pos)

-- With no thread running, `schedule` does not panic.
pub schedule-switched : (k : Kernel) → IsPending k → Switches k (schedule k)
unfolding schedule
schedule-switched k v = go (next_thread_to_run-Chosen k v.listed)
  where
    go : Upcoming k → Switches k (schedule k)
    go (l, next, runs, c) = (
      next,
      l,
      rw (runs, v.stopped k.current) refl,
      c,
      switched-IsValid k v next l c,
      switched-IsTop k v next l c,
    )
