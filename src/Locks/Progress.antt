-- ===== src/Locks/Progress.antt =====
-- Threads that lock in the order of the ranks never wait for one another in a circle.
use stock_app.Common.{
  ℕ, zero, suc, ◌≡◌, ◌≤◌, ◌<◌, ◌⊎◌, inl, inr, refl, ap, true, false, some, List, [], ◌∷◌, eqb,
  eqb_iff, arith, All, Bool-cases,
}
use stock_app.Locks.{
  rank_of, Mutex, Mode, Action, lock, unlock, sleep, Thread, number, rank, waits_for, is_free,
  get_elem?, Ordered,
}

abbrev pub OrderedThread : Thread → Type 0
OrderedThread t = Ordered t.held t.todo

-- The mutex is among those held.
abbrev pub Holds : Mutex → List (Mutex × Mode) → Type 0
Holds m [] = ⊥
Holds m (h ∷ held) = (number h.0 ≡ number m) ⊎ Holds m held

waits-Holds :
    (m : Mutex) (mode : Mode) (held : List (Mutex × Mode))
    → waits_for m mode held ≡ true
    → Holds m held
unfolding waits_for
waits-Holds m mode [] h = cc
waits-Holds m mode ((k, kept) ∷ held) h = elim (Bool-cases (eqb (number k) (number m))) [
  | inl e ↦ inl ((eqb_iff (number k) (number m)).0 e)
  | inr e ↦ inr (waits-Holds m mode held (rw e at h))
]

-- A thread of the list that holds what another waits for.
pub record Holder (m : Mutex) (ts : List Thread) : Type 0 where
  pub place : ℕ
  pub thread : Thread
  pub there : get_elem? ts place ≡ some thread
  pub holds : Holds m thread.held

pub holder : (m : Mutex) (mode : Mode) (ts : List Thread) → is_free m mode ts ≡ false → Holder m ts
unfolding is_free
holder m mode [] h = cc
holder m mode (t ∷ ts) h = elim (Bool-cases (waits_for m mode t.held)) [
  | inl e ↦ record { place = zero; thread = t; there = refl; holds = waits-Holds m mode t.held e }
  | inr e ↦
      let r = holder m mode ts (rw e at h) in
      record { place = suc r.place; thread = r.thread; there = r.there; holds = r.holds }
]

-- A call that does not lock below a rank, and is no sleep.
abbrev pub NotBelow : ℕ → Action → Type 0
NotBelow r (lock m mode) = r ≤ rank m
NotBelow r (unlock m) = Unit
NotBelow r sleep = ⊥

rank_of_number : (k m : Mutex) → number k ≡ number m → rank k ≡ rank m
rank_of_number k m h = ap rank_of h

Holds-below :
    (m k : Mutex) (held : List (Mutex × Mode))
    → Holds m held
    → All (λ (h : Mutex × Mode). rank h.0 < rank k) held
    → rank m < rank k
Holds-below m k [] h all = elim h [ ]
Holds-below m k ((n, mode) ∷ held) (inl e) all = omega (arith, rank_of_number n m e, all.0)
Holds-below m k (_ ∷ held) (inr h) all = Holds-below m k held h all.1

-- Who holds a mutex has something to do, and locks nothing of a lower or the same rank next.
pub holder_goes_on :
    (m : Mutex) (held : List (Mutex × Mode)) (todo : List Action)
    → Holds m held
    → Ordered held todo
    → (a : Action) × (rest : List Action) × (todo ≡ a ∷ rest) × NotBelow (suc (rank m)) a
holder_goes_on m [] todo h o = elim h [ ]
holder_goes_on m (x ∷ held) [] h o = elim o [ ]
holder_goes_on m (x ∷ held) (lock k mode ∷ todo) h o =
    (lock k mode, todo, refl, omega (arith, Holds-below m k (x ∷ held) h o.0))
holder_goes_on m (x ∷ held) (sleep ∷ todo) h o = elim o [ ]
holder_goes_on m (x ∷ held) (unlock k ∷ todo) h o = (unlock k, todo, refl, tt)
