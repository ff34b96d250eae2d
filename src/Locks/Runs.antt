-- ===== src/Locks/Runs.antt =====
-- Runs of threads: the order of the locks is kept, and every run can be brought to its end.
use mathlib.Core.Path.{subst}
use mathlib.Core.Option.{some-injective}
use stock_app.Common.{
  Bool, true, false, ℕ, zero, suc, ◌+◌, ◌≡◌, ◌≤◌, inl, inr, refl, sym, ◌∙◌, ap, true, none, some,
  List, [], ◌∷◌, length, eqb, eqb_iff, arith, All, Bool-cases, Option-cases,
}
use stock_app.Locks.{
  Mutex, Mode, Action, lock, unlock, sleep, Thread, number, is_free, released, perform, get_elem?,
  set, put, perform_one, step, scheduled, Ordered,
}
use stock_app.Locks.Progress.{OrderedThread}
use stock_app.Locks.Freedom.{All-get, All-set, Movable, movable, AtRest, Unfinished, rest_or_one}

absent {ℓ} : {A : Type ℓ} {x : A} → none ≡ some x → ⊥
absent e = cc

-- How many calls are still to come.
abbrev pub left : List Thread → ℕ
left [] = 0
left (t ∷ ts) = length t.todo + left ts

left-set :
    (ts : List Thread) (i : ℕ) (t t' : Thread)
    → get_elem? ts i ≡ some t
    → left (set ts i t') + length t.todo ≡ left ts + length t'.todo
left-set [] i t t' e = cc
left-set (u ∷ ts) zero t t' e =
    let same = ap (λ (x : Thread). length x.todo) (some-injective _ _ e) in omega arith
left-set (u ∷ ts) (suc i) t t' e = omega (arith, left-set ts i t t' e)

-- What a call leaves of a thread: the order of its locks, and one call less.
perform_lem :
    (wakes : Bool) (ts : List Thread) (held : List (Mutex × Mode)) (todo : List Action) (t : Thread)
    → Ordered held todo
    → perform wakes ts held todo ≡ some t
    → OrderedThread t × (suc (length t.todo) ≡ length todo)
unfolding perform released
perform_lem wakes ts held [] t o e = cc
perform_lem wakes ts held (lock m mode ∷ todo) t o e = elim (Bool-cases (is_free m mode ts)) [
  | inl free ↦
      let same : record { held = (m, mode) ∷ held; todo = todo } ≡ t =
        some-injective _ _ (rw free at e) in
      subst (λ x. OrderedThread x × (suc (length x.todo) ≡ suc (length todo))) same (o.1, refl)
  | inr waits ↦ ground arith
]
perform_lem wakes ts (h ∷ held) (sleep ∷ todo) t o e = elim o [ ]
perform_lem true ts [] (sleep ∷ todo) t o e =
    let same : record { held = []; todo = todo } ≡ t = some-injective _ _ e in
    subst (λ x. OrderedThread x × (suc (length x.todo) ≡ suc (length todo))) same (o, refl)
perform_lem false ts [] (sleep ∷ todo) t o e = cc
perform_lem wakes ts [] (unlock m ∷ todo) t o e = elim o [ ]
perform_lem wakes ts ((k, mode) ∷ held) (unlock m ∷ todo) t o e =
    let top : eqb (number k) (number m) ≡ true = (eqb_iff (number k) (number m)).1 o.0 in
    let same : record { held = held; todo = todo } ≡ t = some-injective _ _ (rw top at e) in
    subst (λ x. OrderedThread x × (suc (length x.todo) ≡ suc (length todo))) same (o.1, refl)

-- A step of any thread.
step_lem :
    (wakes : Bool) (i : ℕ) (ts ts' : List Thread)
    → All OrderedThread ts
    → step wakes i ts ≡ some ts'
    → All OrderedThread ts' × (suc (left ts') ≡ left ts)
unfolding step
step_lem wakes i ts ts' o e = elim (Option-cases (get_elem? ts i)) [
  | inl h ↦ absurd (missing h)
  | inr (t, h) ↦ elim (Option-cases (perform wakes ts t.held t.todo)) [
    | inl f ↦ absurd (waiting t h f)
    | inr (t', f) ↦
        let (o', less) =
          perform_lem wakes ts t.held t.todo t' (All-get OrderedThread ts i t o h) f in
        let same : set ts i t' ≡ ts' =
          some-injective _ _ (sym (ap (perform_one wakes ts i) h ∙ ap (put ts i) f) ∙ e) in
        subst (λ x. All OrderedThread x × (suc (left x) ≡ left ts)) same
          (All-set OrderedThread ts i t' o o', omega (arith, left-set ts i t t' h))
  ]
]
  where
    missing : get_elem? ts i ≡ none → ⊥
    missing h = absent (sym (ap (perform_one wakes ts i) h) ∙ e)

    waiting : (t : Thread) → get_elem? ts i ≡ some t → perform wakes ts t.held t.todo ≡ none → ⊥
    waiting t h f = absent (sym (ap (perform_one wakes ts i) h ∙ ap (put ts i) f) ∙ e)

pub scheduled-Ordered :
    (wakes : Bool) (is : List ℕ) (ts ts' : List Thread)
    → All OrderedThread ts
    → scheduled wakes is ts ≡ some ts'
    → All OrderedThread ts'
unfolding scheduled
scheduled-Ordered wakes [] ts ts' o e = subst (All OrderedThread) (some-injective _ _ e) o
scheduled-Ordered wakes (i ∷ is) ts ts' o e = elim (Option-cases (step wakes i ts)) [
  | inl h ↦ absurd (absent (rw (h, scheduled) at e))
  | inr (ts1, h) ↦
      scheduled-Ordered wakes is ts1 ts' (step_lem wakes i ts ts1 o h).0 (rw (h, scheduled) at e)
]

-- How a run goes on, with nobody woken up, until all have finished or sleep.
pub record Ending (ts : List Thread) : Type 0 where
  pub schedule : List ℕ
  pub last : List Thread
  pub run : scheduled false schedule ts ≡ some last
  pub at_rest : AtRest last

-- The first step of an ending.
one_more :
    (ts : List Thread) (i : ℕ) (ts' : List Thread)
    → step false i ts ≡ some ts'
    → Ending ts'
    → Ending ts
unfolding scheduled
one_more ts i ts' e k = record {
  schedule = i ∷ k.schedule;
  last = k.last;
  run = rw (e, scheduled) k.run;
  at_rest = k.at_rest;
}

someone_moves : (ts : List Thread) → All OrderedThread ts → Unfinished ts → Movable ts
someone_moves ts o u =
    movable 3 0 ts u.place u.thread u.next u.rest (omega arith) o u.there u.todo_is u.busy

pub ends : (n : ℕ) (ts : List Thread) → left ts ≤ n → All OrderedThread ts → Ending ts
unfolding scheduled
ends zero ts bound o = elim (rest_or_one ts o) [
  | inl done ↦ record { schedule = []; last = ts; run = refl; at_rest = done }
  | inr u ↦
      let m = someone_moves ts o u in
      absurd (omega (arith, (step_lem false m.place ts m.after o m.moved).1))
]
ends (suc n) ts bound o = elim (rest_or_one ts o) [
  | inl done ↦ record { schedule = []; last = ts; run = refl; at_rest = done }
  | inr u ↦
      let m = someone_moves ts o u in
      let (o', less) = step_lem false m.place ts m.after o m.moved in
      one_more ts m.place m.after m.moved (ends n m.after (omega arith) o')
]
