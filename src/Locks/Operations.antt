-- ===== src/Locks/Operations.antt =====
-- Which mutexes the operations of the server lock, inside which others and in what order. An argument
-- says what a test in an operation found, whether a call threw, or how often a loop ran or a test of the wait failed. The database is
-- server/database.cpp. What throws unlocks what its guards hold, and what comes after is left out.
use stock_app.Common.{ℕ, zero, suc, Bool, List, [], ◌∷◌, if◌then◌else◌}
use stock_app.Locks.{
  Mutex, core_mutex, client_data_mutex, handle_sessions_mutex, order_queue_cv_mutex, database_mutex,
  Mode, shared, unique, Action, lock, unlock, sleep, Thread,
}

-- A block with a lock guard, with what it locks inside, and what is locked after it.
pub data Locking : Type 0 where
  nothing : Locking
  guard : Mutex → Mode → Locking → Locking → Locking
  -- a sleep in the wait, with nothing held, and what comes after it
  slept : Locking → Locking

-- The calls of the mutexes, before others.
unfoldable pub calls : Locking → List Action → List Action
calls nothing rest = rest
calls (guard m mode inside after) rest = lock m mode ∷ calls inside (unlock m ∷ calls after rest)
calls (slept after) rest = sleep ∷ calls after rest

abbrev pub then_locking : Locking → Locking → Locking
then_locking nothing q = q
then_locking (guard m mode inside after) q = guard m mode inside (then_locking after q)
then_locking (slept after) q = slept (then_locking after q)

-- A lock for a moment.
abbrev pub briefly : Mutex → Locking → Locking
briefly m after = guard m unique nothing after

-- Several of them, one after the other.
abbrev pub often : ℕ → Mutex → Locking → Locking
often zero m after = after
often (suc n) m after = briefly m (often n m after)

-- The tests and the calls that may throw in change_client_balances_according_match.
pub record Transferring : Type 0 where
  pub changed : Bool
  pub seller_found : Bool
  pub buyer_found : Bool
  pub seller_saved : Bool

unfoldable pub update_balances_locks : Transferring → Locking
update_balances_locks w = guard client_data_mutex shared nothing (
    if w.seller_found
    then guard client_data_mutex shared nothing (
        if w.buyer_found
        then briefly database_mutex
            (if w.seller_saved then briefly database_mutex nothing else nothing)
        else nothing)
    else nothing)

unfoldable pub change_balances_locks : Transferring → Locking
unfolding update_balances_locks
change_balances_locks w =
    briefly client_data_mutex (if w.changed then update_balances_locks w else nothing)

-- What a round of process_orders found: whether each order was active, what came of the balances, and
-- of each order whether it is filled and then whether it was saved without an exception.
pub record Matching : Type 0 where
  pub sell_active : Bool
  pub buy_active : Bool
  pub transfer : Transferring
  pub buy_filled : Bool
  pub buy_saved : Bool
  pub sell_filled : Bool
  pub sell_saved : Bool

unfoldable pub match_orders_locks : Matching → Locking
unfolding change_balances_locks
match_orders_locks w = briefly client_data_mutex (
    if w.sell_active
    then briefly client_data_mutex
        (if w.buy_active then change_balances_locks w.transfer else nothing)
    else nothing)

unfoldable pub add_order_to_completed_locks : Bool → Locking → Locking
add_order_to_completed_locks saved after =
    guard client_data_mutex unique
      (briefly database_mutex (if saved then briefly database_mutex nothing else nothing)) after

abbrev pub completed_locks : Bool → Bool → Locking → Locking
completed_locks filled saved after =
    if filled then add_order_to_completed_locks saved after else after

unfoldable pub process_orders_locks : List Matching → Locking
unfolding match_orders_locks add_order_to_completed_locks
process_orders_locks [] = nothing
process_orders_locks (w ∷ ws) = then_locking (match_orders_locks w) (
    completed_locks w.buy_filled w.buy_saved
      (completed_locks w.sell_filled w.sell_saved (process_orders_locks ws)))

-- order_queue_cv_.wait: the mutex is held for each test; after one that fails the thread sleeps until it
-- is woken up, and after one that succeeds it goes on.
unfoldable pub wait_locks : ℕ → Locking → Locking
wait_locks zero after = briefly order_queue_cv_mutex after
wait_locks (suc fails) after = briefly order_queue_cv_mutex (slept (wait_locks fails after))

-- A turn of stock_loop: the wait, and the rest under core_mutex_.
unfoldable pub stock_loop_locks : ℕ → Locking → Locking
unfolding wait_locks
stock_loop_locks fails work = wait_locks fails (guard core_mutex unique work nothing)

-- The end of the last turn.
abbrev pub save_all_locks : ℕ → Locking
save_all_locks orders = often orders database_mutex nothing

unfoldable pub cancel_active_order_locks : Bool → Bool → Locking
cancel_active_order_locks allowed removed = briefly client_data_mutex (
    if allowed
    then briefly core_mutex (if removed then briefly client_data_mutex nothing else nothing)
    else nothing)

unfoldable pub new_connections_locks : Bool → ℕ → Locking
new_connections_locks allowed sockets =
    briefly handle_sessions_mutex
      (if allowed then often sockets handle_sessions_mutex nothing else nothing)

-- stop_accepting_new_sessions, the copy of the list, a remove_session for each, and the clearing.
unfoldable pub stop_all_sessions_locks : ℕ → Locking
stop_all_sessions_locks sessions = briefly handle_sessions_mutex (
    briefly handle_sessions_mutex
      (often sessions handle_sessions_mutex (briefly handle_sessions_mutex nothing)))

unfoldable pub sign_up_locks : Bool → Bool → Locking
sign_up_locks unknown added = briefly database_mutex (
    if unknown
    then briefly database_mutex (if added then briefly client_data_mutex nothing else nothing)
    else nothing)

unfoldable pub sign_in_locks : Bool → Locking
sign_in_locks right =
    briefly database_mutex (if right then briefly handle_sessions_mutex nothing else nothing)

-- What the threads run. A view is of a balance, the active orders, the completed orders or the quotes.
pub data Operation : Type 0 where
  sign_up : Bool → Bool → Operation
  sign_in make_order : Bool → Operation
  view close_session : Operation
  cancel : Bool → Bool → Operation
  new_connections : Bool → ℕ → Operation
  stock_turn : ℕ → List Matching → Operation
  last_turn : ℕ → ℕ → Operation
  stop_sessions : ℕ → Operation

unfoldable pub locks_of : Operation → Locking
unfolding stock_loop_locks cancel_active_order_locks new_connections_locks stop_all_sessions_locks
    sign_up_locks sign_in_locks process_orders_locks
locks_of (sign_up unknown added) = sign_up_locks unknown added
locks_of (sign_in right) = sign_in_locks right
locks_of (make_order queued) = if queued then briefly client_data_mutex nothing else nothing
locks_of view = guard client_data_mutex shared nothing nothing
locks_of close_session = briefly handle_sessions_mutex nothing
locks_of (cancel allowed removed) = cancel_active_order_locks allowed removed
locks_of (new_connections allowed sockets) = new_connections_locks allowed sockets
locks_of (stock_turn fails ws) = stock_loop_locks fails (process_orders_locks ws)
locks_of (last_turn fails orders) = stock_loop_locks fails (save_all_locks orders)
locks_of (stop_sessions sessions) = stop_all_sessions_locks sessions

unfoldable pub calls_of : List Operation → List Action
unfolding calls locks_of
calls_of [] = []
calls_of (op ∷ ops) = calls (locks_of op) (calls_of ops)

-- A thread that runs operations one after the other.
abbrev pub running : List Operation → Thread
running ops = record { held = []; todo = calls_of ops }
