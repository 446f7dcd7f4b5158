-- ===== src/Thread/Moved.antt =====
-- A thread that changes its state, and the lists with it.
use cs130_25spring_project.Common.{
  ◌≢◌, ℕ, ◌<◌, ◌≡◌, refl, sym, ap, ◌∙◌, true, false, not, ◌&&◌, List, arith, ◌==◌, if◌then◌else◌,
  ne→==, eq→==, ==-refl, ℕ_discrete,
}
use mathlib.Core.Path.{subst, fun_ext}
use cs130_25spring_project.Common.Counts.{count}
use cs130_25spring_project.Thread.{
  is_running, effective, Thread, Kernel, Status, is_ready, is_dying, assign,
}
use cs130_25spring_project.Thread.Max.{pri}
use cs130_25spring_project.Thread.Ready.{IsValid, status, is_alive, IsListed}

pub assign-here : (threads : ℕ → Thread) (t : ℕ) (value : Thread) → assign threads t value t ≡ value
assign-here threads t value = ap (λ b. if b then value else threads t) (==-refl t)

pub assign-there :
    (threads : ℕ → Thread) (t : ℕ) (value : Thread) (u : ℕ)
    → t ≢ u
    → assign threads t value u ≡ threads u
assign-there threads t value u ne = ap (λ b. if b then value else threads u) (ne→== ne)

pub assign-assign :
    (threads : ℕ → Thread) (t : ℕ) (a b : Thread)
    → assign (assign threads t a) t b ≡ assign threads t b
assign-assign threads t a b = fun_ext (λ u. elim (ℕ_discrete t u) [
  | yes e ↦
      subst (λ x. assign (assign threads t a) t b x ≡ assign threads t b x) e
        (assign-here (assign threads t a) t b ∙ sym (assign-here threads t b))
  | no ne ↦
      assign-there (assign threads t a) t b u ne
      ∙ assign-there threads t a u ne
      ∙ sym (assign-there threads t b u ne)
])

pub assign_self : (threads : ℕ → Thread) (t : ℕ) → assign threads t (threads t) ≡ threads
assign_self threads t = fun_ext (λ u. elim (ℕ_discrete t u) [
  | yes e ↦
      subst (λ x. assign threads t (threads t) x ≡ threads x) e (assign-here threads t (threads t))
  | no ne ↦ assign-there threads t (threads t) u ne
])

-- What an assignment leaves as it was in the thread, it leaves in all of them.
pub assign_keeps :
    {B : Type 0} (f : Thread → B) (threads : ℕ → Thread) (t : ℕ) (value : Thread)
    → f value ≡ f (threads t)
    → (u : ℕ) → f (assign threads t value u) ≡ f (threads u)
assign_keeps f threads t value e u = elim (ℕ_discrete t u) [
  | yes same ↦
      subst (λ x. f (assign threads t value x) ≡ f (threads x)) same
        (ap f (assign-here threads t value) ∙ e)
  | no ne ↦ ap f (assign-there threads t value u ne)
]

-- Nothing but states of threads changed.
abbrev pub Kept : (threads threads' : ℕ → Thread) → Type 0
Kept threads threads' = (u : ℕ) → threads' u ≡ record (threads u) { status = (threads' u).status }

pub Kept-trans : (a b c : ℕ → Thread) → Kept a b → Kept b c → Kept a c
Kept-trans a b c f g u = g u ∙ ap {A = Thread} (λ x. record x { status = (c u).status }) (f u)

pub Kept-pri : (a b : ℕ → Thread) → Kept a b → (u : ℕ) → pri b u ≡ pri a u
Kept-pri a b f u = ap effective (f u)

-- The state `k` with other lists, and the thread `t` in the state `s`.
abbrev pub moved : Kernel → (ready_list all_list : List ℕ) (current ticks t : ℕ) → Status → Kernel
moved k ready_list all_list current ticks t s = record k {
  threads = assign k.threads t (record (k.threads t) { status = s });
  ready_list = ready_list;
  all_list = all_list;
  current = current;
  thread_ticks = ticks;
}

module _ (k : Kernel) (ready_list all_list : List ℕ) (current ticks t : ℕ) (s : Status) where
  abbrev pub after_move : Kernel
  after_move = moved k ready_list all_list current ticks t s

  moved-here : status after_move t ≡ s
  moved-here =
      ap (λ b. (if b then record (k.threads t) { status = s } else k.threads t).status) (==-refl t)

  moved-there : (u : ℕ) → (t == u) ≡ false → status after_move u ≡ status k u
  moved-there u ne =
      ap (λ b. (if b then record (k.threads t) { status = s } else k.threads u).status) ne

  pub moved-status : (u : ℕ) → status after_move u ≡ (if t == u then s else status k u)
  moved-status u = elim (ℕ_discrete t u) [
    | yes e ↦
        subst (λ x. status after_move x ≡ (if t == x then s else status k x)) e
          (moved-here ∙ ap (λ b. if b then s else status k t) (sym (==-refl t)))
    | no ne ↦ moved-there u (ne→== ne) ∙ ap (λ b. if b then s else status k u) (sym (ne→== ne))
  ]

  pub moved-tid : (u : ℕ) → (after_move.threads u).tid ≡ (k.threads u).tid
  moved-tid u = elim (ℕ_discrete t u) [
    | yes e ↦ rw (eq→== e) (ap (λ x. (k.threads x).tid) e)
    | no ne ↦ rw (ne→== ne) refl
  ]

  pub moved-pri : (u : ℕ) → pri after_move.threads u ≡ pri k.threads u
  moved-pri u = elim (ℕ_discrete t u) [
    | yes e ↦ rw (eq→== e) (ap (λ x. pri k.threads x) e)
    | no ne ↦ rw (ne→== ne) refl
  ]

  pub moved-Kept : Kept k.threads after_move.threads
  moved-Kept u = elim (ℕ_discrete t u) [
    | yes e ↦
        subst
          (λ x.
            after_move.threads x ≡ record (k.threads x) { status = (after_move.threads x).status })
          e
          (changed (==-refl t)
            ∙ ap {A = Status} (λ x. record (k.threads t) { status = x }) (sym moved-here))
    | no ne ↦
        let same : after_move.threads u ≡ k.threads u =
          ap (λ b. if b then record (k.threads t) { status = s } else k.threads u) (ne→== ne) in
        same
        ∙ ap {A = Status} (λ x. record (k.threads u) { status = x })
            (sym (moved-there u (ne→== ne)))
  ]
    where
      changed : (t == t) ≡ true → after_move.threads t ≡ record (k.threads t) { status = s }
      changed e = ap (λ b. if b then record (k.threads t) { status = s } else k.threads t) e

  -- What the lists have to be after the move.
  pub record Fits : Type 0 where
    pub here : count t ready_list ≡ (if is_ready s && not (t == k.idle_thread) then 1 else 0)
    pub there : (u : ℕ) → (t == u) ≡ false → count u ready_list ≡ count u k.ready_list
    pub all_here : count t all_list ≡ (if not (is_dying s) then 1 else 0)
    pub all_there : (u : ℕ) → (t == u) ≡ false → count u all_list ≡ count u k.all_list
    pub before : is_alive k t ≡ true
    pub idle : (t == k.idle_thread) ≡ true → is_dying s ≡ false

  pub moved-IsListed : IsListed k → Fits → IsListed after_move
  moved-IsListed v f = record {
    ready = ready;
    all = all;
    tids = λ u w au aw e. v.tids u w (old u au) (old w aw) (sym (moved-tid u) ∙ e ∙ moved-tid w);
    fresh = λ u au. subst (λ x. x < k.next_tid) (sym (moved-tid u)) (v.fresh u (old u au));
    idle = ground (arith, moved-status k.idle_thread, v.idle, f.idle);
  }
    where
      counted : ℕ → Type 0
      counted u =
          count u ready_list
          ≡ (if is_ready (status after_move u) && not (u == k.idle_thread) then 1 else 0)

      ready : (u : ℕ) → counted u
      ready u = elim (ℕ_discrete t u) [
        | yes e ↦ subst counted e (
            f.here
            ∙ ap (λ x. if is_ready x && not (t == k.idle_thread) then 1 else 0) (sym moved-here))
        | no ne ↦
            f.there u (ne→== ne)
            ∙ v.ready u
            ∙ ap (λ x. if is_ready x && not (u == k.idle_thread) then 1 else 0)
                (sym (moved-there u (ne→== ne)))
      ]

      all : (u : ℕ) → count u all_list ≡ (if is_alive after_move u then 1 else 0)
      all u = elim (ℕ_discrete t u) [
        | yes e ↦
            subst (λ x. count x all_list ≡ (if is_alive after_move x then 1 else 0)) e
              (f.all_here ∙ ap (λ x. if not (is_dying x) then 1 else 0) (sym moved-here))
        | no ne ↦
            f.all_there u (ne→== ne)
            ∙ v.all u
            ∙ ap (λ x. if not (is_dying x) then 1 else 0) (sym (moved-there u (ne→== ne)))
      ]

      old : (u : ℕ) → is_alive after_move u ≡ true → is_alive k u ≡ true
      old u a = elim (ℕ_discrete t u) [
        | yes e ↦ subst (λ x. is_alive k x ≡ true) e f.before
        | no ne ↦ ap (λ x. not (is_dying x)) (sym (moved-there u (ne→== ne))) ∙ a
      ]

-- A change of threads that keeps states and identifiers.
pub kept-IsListed :
    (k : Kernel) (threads : ℕ → Thread)
    → ((t : ℕ) → (threads t).status ≡ status k t)
    → ((t : ℕ) → (threads t).tid ≡ (k.threads t).tid)
    → IsListed k
    → IsListed (record k { threads = threads })
kept-IsListed k threads same tids v = record {
  ready = λ t.
      v.ready t ∙ ap (λ x. if is_ready x && not (t == k.idle_thread) then 1 else 0) (sym (same t));
  all = λ t. v.all t ∙ ap (λ x. if not (is_dying x) then 1 else 0) (sym (same t));
  tids = λ t u at au e. v.tids t u (old t at) (old u au) (sym (tids t) ∙ e ∙ tids u);
  fresh = λ t at. subst (λ x. x < k.next_tid) (sym (tids t)) (v.fresh t (old t at));
  idle = ap (λ x. not (is_dying x)) (same k.idle_thread) ∙ v.idle;
}
  where
    old : (t : ℕ) → not (is_dying (threads t).status) ≡ true → is_alive k t ≡ true
    old t a = ap (λ x. not (is_dying x)) (sym (same t)) ∙ a

pub kept-IsValid :
    (k : Kernel) (threads : ℕ → Thread)
    → ((t : ℕ) → (threads t).status ≡ status k t)
    → ((t : ℕ) → (threads t).tid ≡ (k.threads t).tid)
    → IsValid k
    → IsValid (record k { threads = threads })
kept-IsValid k threads same tids v = record {
  listed = kept-IsListed k threads same tids v.listed;
  running = ap is_running (same k.current) ∙ v.running;
  only = λ t runs. v.only t (ap is_running (sym (same t)) ∙ runs);
}
