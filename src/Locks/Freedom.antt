-- ===== src/Locks/Freedom.antt =====
-- There is always a thread that can go on, until all have finished or sleep.
use mathlib.Core.Path.{subst}
use mathlib.Core.Option.{some-injective}
use stock_app.Common.{
  false, sym, ℕ, zero, suc, ◌+◌, ◌≡◌, ◌≤◌, ◌⊎◌, inl, inr, refl, ◌∙◌, ap, none, some, List, [], ◌∷◌,
  arith, All, Bool-cases,
}
use stock_app.Locks.{
  Ordered, Mode, Mutex, core_mutex, client_data_mutex, handle_sessions_mutex, order_queue_cv_mutex,
  database_mutex, Action, lock, unlock, sleep, Thread, rank, is_free, released, perform, get_elem?,
  set, put, step,
}
use stock_app.Locks.Progress.{OrderedThread, holder, NotBelow, holder_goes_on}

rank_small : (m : Mutex) → rank m ≤ 2
rank_small core_mutex = omega arith
rank_small client_data_mutex = omega arith
rank_small handle_sessions_mutex = omega arith
rank_small order_queue_cv_mutex = omega arith
rank_small database_mutex = omega arith

pub All-get {ℓ κ} :
    {A : Type ℓ} (P : A → Type κ) (xs : List A) (i : ℕ) (x : A)
    → All P xs
    → get_elem? xs i ≡ some x
    → P x
All-get P [] i x h e = absurd (none_some e)
  where
    none_some : {A : Type ℓ} {x : A} → none ≡ some x → ⊥
    none_some e = cc
All-get P (y ∷ xs) zero x h e = subst P (some-injective _ _ e) h.0
All-get P (y ∷ xs) (suc i) x h e = All-get P xs i x h.1 e

pub All-set {ℓ κ} :
    {A : Type ℓ} (P : A → Type κ) (xs : List A) (i : ℕ) (x : A)
    → All P xs
    → P x
    → All P (set xs i x)
All-set P [] i x h k = tt
All-set P (y ∷ xs) zero x h k = (k, h.1)
All-set P (y ∷ xs) (suc i) x h k = (h.0, All-set P xs i x h.1 k)

-- A thread that can go on without being woken up.
pub record Movable (ts : List Thread) : Type 0 where
  pub place : ℕ
  pub after : List Thread
  pub moved : step false place ts ≡ some after

step_of :
    (ts : List Thread) (i : ℕ) (t : Thread) (a : Action) (rest : List Action)
    → get_elem? ts i ≡ some t
    → t.todo ≡ a ∷ rest
    → step false i ts ≡ put ts i (perform false ts t.held (a ∷ rest))
unfolding step
step_of ts i t a rest there next =
    rw there (ap (λ todo. put ts i (perform false ts t.held todo)) next)

-- Whoever waits, waits for a thread that locks only higher, so one at the end of the chain goes on.
pub movable :
    (fuel r : ℕ) (ts : List Thread) (i : ℕ) (t : Thread) (a : Action) (rest : List Action)
    → 3 ≤ r + fuel
    → All OrderedThread ts
    → get_elem? ts i ≡ some t
    → t.todo ≡ a ∷ rest
    → NotBelow r a
    → Movable ts
unfolding perform
movable fuel r ts i t (unlock m) rest bound ordered there next low = record {
  place = i;
  after = set ts i (record { held = released m t.held; todo = rest });
  moved = step_of ts i t (unlock m) rest there next;
}
movable fuel r ts i t sleep rest bound ordered there next low = elim low [ ]
movable zero r ts i t (lock m mode) rest bound ordered there next low =
    absurd (omega (arith, rank_small m))
movable (suc fuel) r ts i t (lock m mode) rest bound ordered there next low =
    elim (Bool-cases (is_free m mode ts)) [
      | inl free ↦ record {
        place = i;
        after = set ts i (record { held = (m, mode) ∷ t.held; todo = rest });
        moved = step_of ts i t (lock m mode) rest there next ∙ rw free refl;
      }
      | inr waits ↦
          let h = holder m mode ts waits in
          let u = h.thread in
          let (b, rest', next', low') =
            holder_goes_on m u.held u.todo h.holds
              (All-get OrderedThread ts h.place u ordered h.there) in
          movable fuel (suc (rank m)) ts h.place u b rest' (omega arith) ordered h.there next' low'
    ]

-- The thread has nothing more to do, or it sleeps in its wait.
abbrev pub IsIdle : List Action → Type 0
IsIdle [] = Unit
IsIdle (sleep ∷ todo) = Unit
IsIdle _ = ⊥

-- Every thread has finished, or sleeps until it is woken up, and none holds a mutex.
abbrev pub AtRest : List Thread → Type 0
AtRest = All (λ t. IsIdle t.todo × (t.held ≡ []))

pub record Unfinished (ts : List Thread) : Type 0 where
  pub place : ℕ
  pub thread : Thread
  pub next : Action
  pub rest : List Action
  pub there : get_elem? ts place ≡ some thread
  pub todo_is : thread.todo ≡ next ∷ rest
  pub busy : NotBelow 0 next

-- Who is idle holds nothing.
idle_free :
    (held : List (Mutex × Mode)) (todo : List Action) → Ordered held todo → IsIdle todo → held ≡ []
idle_free [] todo o idle = refl
idle_free (h ∷ held) [] o idle = elim o [ ]
idle_free (h ∷ held) (sleep ∷ todo) o idle = elim o [ ]
idle_free (h ∷ held) (lock m mode ∷ todo) o idle = elim idle [ ]
idle_free (h ∷ held) (unlock m ∷ todo) o idle = elim idle [ ]

pub rest_or_one : (ts : List Thread) → All OrderedThread ts → AtRest ts ⊎ Unfinished ts
rest_or_one [] o = inl tt
rest_or_one (t ∷ ts) o = go t.todo refl (rest_or_one ts o.1)
  where
    here :
        (a : Action) (rest : List Action) → t.todo ≡ a ∷ rest → NotBelow 0 a → Unfinished (t ∷ ts)
    here a rest e n = record {
      place = zero;
      thread = t;
      next = a;
      rest = rest;
      there = refl;
      todo_is = e;
      busy = n;
    }

    idle :
        (todo : List Action)
        → t.todo ≡ todo
        → IsIdle todo
        → AtRest ts ⊎ Unfinished ts
        → AtRest (t ∷ ts) ⊎ Unfinished (t ∷ ts)
    idle todo e i (inl done) =
        let at_rest = subst IsIdle (sym e) i in
        inl ((at_rest, idle_free t.held t.todo o.0 at_rest), done)
    idle todo e i (inr u) = inr (record {
      place = suc u.place;
      thread = u.thread;
      next = u.next;
      rest = u.rest;
      there = u.there;
      todo_is = u.todo_is;
      busy = u.busy;
    })

    go :
        (todo : List Action)
        → t.todo ≡ todo
        → AtRest ts ⊎ Unfinished ts
        → AtRest (t ∷ ts) ⊎ Unfinished (t ∷ ts)
    go [] e k = idle [] e tt k
    go (sleep ∷ rest) e k = idle (sleep ∷ rest) e tt k
    go (lock m mode ∷ rest) e k = inr (here (lock m mode) rest e (omega arith))
    go (unlock m ∷ rest) e k = inr (here (unlock m) rest e tt)
