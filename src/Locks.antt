-- ===== src/Locks.antt =====
-- The mutexes of the server and the threads that lock them. A thread is what it holds and the calls of
-- its mutexes that are still to come. A std::shared_mutex is held by several readers or one writer, a
-- std::mutex by one thread, and none of them is recursive. A thread that waits at the condition
-- variable holds nothing and goes on only when it is woken up.
pub mod Progress
pub mod Freedom
pub mod Runs
pub mod Operations
pub mod Deadlock
use stock_app.Common.{
  ℕ, zero, suc, Bool, true, false, not, ◌&&◌, ◌||◌, Option, none, some, List, [], ◌∷◌, ◌<◌, ◌≡◌,
  eqb, All, if◌then◌else◌,
}

-- core_mutex_, client_data_mutex_, handle_sessions_mutex_ and order_queue_cv_mutex_, and mutex_ of the
-- database
pub data Mutex : Type 0 where
  core_mutex client_data_mutex handle_sessions_mutex order_queue_cv_mutex database_mutex : Mutex

pub data Mode : Type 0 where
  shared unique : Mode

pub data Action : Type 0 where
  lock : Mutex → Mode → Action
  unlock : Mutex → Action
  -- the sleep in order_queue_cv_.wait, with the mutex of the wait unlocked before and locked after
  sleep : Action

pub record Thread : Type 0 where
  pub held : List (Mutex × Mode)
  pub todo : List Action

abbrev pub number : Mutex → ℕ
number core_mutex = 0
number client_data_mutex = 1
number handle_sessions_mutex = 2
number order_queue_cv_mutex = 3
number database_mutex = 4

abbrev pub rank_of : ℕ → ℕ
rank_of zero = 0
rank_of (suc zero) = 1
rank_of (suc (suc _)) = 2

-- What is locked while another is held has the greater rank.
abbrev pub rank : Mutex → ℕ
rank m = rank_of (number m)

abbrev pub excludes : Mode → Mode → Bool
excludes shared shared = false
excludes _ _ = true

-- Whether a lock in a mode has to wait for one that is held.
unfoldable pub waits_for : Mutex → Mode → List (Mutex × Mode) → Bool
waits_for m mode [] = false
waits_for m mode ((k, kept) ∷ held) =
    (eqb (number k) (number m) && excludes mode kept) || waits_for m mode held

unfoldable pub is_free : Mutex → Mode → List Thread → Bool
is_free m mode [] = true
is_free m mode (t ∷ ts) = not (waits_for m mode t.held) && is_free m mode ts

-- What is held without the mutex that was locked last.
unfoldable pub released : Mutex → List (Mutex × Mode) → List (Mutex × Mode)
released m [] = []
released m ((k, kept) ∷ held) =
    let rest = released m held in if eqb (number k) (number m) then held else (k, kept) ∷ rest

-- The next call of a thread, among all of them; `none` if it waits or has finished. The first argument
-- says whether a thread that sleeps is woken up.
unfoldable pub perform : Bool → List Thread → List (Mutex × Mode) → List Action → Option Thread
perform wakes ts held [] = none
perform wakes ts held (lock m mode ∷ todo) =
    if is_free m mode ts then some (record { held = (m, mode) ∷ held; todo = todo }) else none
perform wakes ts held (unlock m ∷ todo) = some (record { held = released m held; todo = todo })
perform wakes ts held (sleep ∷ todo) =
    if wakes then some (record { held = held; todo = todo }) else none

module _ {ℓ} {A : Type ℓ} where
  abbrev pub get_elem? : List A → ℕ → Option A
  get_elem? [] i = none
  get_elem? (x ∷ xs) zero = some x
  get_elem? (x ∷ xs) (suc i) = get_elem? xs i

  abbrev pub set : List A → ℕ → A → List A
  set [] i v = []
  set (x ∷ xs) zero v = v ∷ xs
  set (x ∷ xs) (suc i) v = x ∷ set xs i v

-- The thread with a number goes on.
abbrev pub put : List Thread → ℕ → Option Thread → Option (List Thread)
put ts i none = none
put ts i (some t) = some (set ts i t)

abbrev pub perform_one : Bool → List Thread → ℕ → Option Thread → Option (List Thread)
perform_one wakes ts i none = none
perform_one wakes ts i (some t) = put ts i (perform wakes ts t.held t.todo)

unfoldable pub step : Bool → ℕ → List Thread → Option (List Thread)
step wakes i ts = perform_one wakes ts i (get_elem? ts i)

-- The threads go on as a schedule says.
unfoldable pub scheduled : Bool → List ℕ → List Thread → Option (List Thread)
scheduled wakes [] ts = some ts
scheduled wakes (i ∷ is) ts = elim (step wakes i ts) [
  | none ↦ none
  | some ts' ↦ scheduled wakes is ts'
]

-- Locks are taken in the order of the ranks, released in the opposite order, and all released in the
-- end and before a sleep.
abbrev pub Ordered : List (Mutex × Mode) → List Action → Type 0
Ordered held (lock m mode ∷ todo) =
    All (λ (h : Mutex × Mode). rank h.0 < rank m) held × Ordered ((m, mode) ∷ held) todo
Ordered [] [] = Unit
Ordered (h ∷ held) [] = ⊥
Ordered [] (sleep ∷ todo) = Ordered [] todo
Ordered (h ∷ held) (sleep ∷ todo) = ⊥
Ordered [] (unlock m ∷ todo) = ⊥
Ordered (h ∷ held) (unlock m ∷ todo) = (number h.0 ≡ number m) × Ordered held todo
