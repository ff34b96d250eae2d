-- ===== src/Locks/Deadlock.antt =====
-- No threads that run the operations of the server can lock one another out.
use stock_app.Common.{
  ℕ, zero, suc, ◌≡◌, ◌≤◌, ◌<◌, refl, Bool, true, false, some, List, [], ◌∷◌, map, arith, All,
  if◌then◌else◌,
}
use stock_app.Locks.{
  Mutex, handle_sessions_mutex, database_mutex, Mode, Action, unlock, Thread, rank, scheduled,
  Ordered,
}
use stock_app.Locks.Progress.{OrderedThread}
use stock_app.Locks.Runs.{left, Ending, ends, scheduled-Ordered}
use stock_app.Locks.Operations.{
  Locking, nothing, guard, slept, wait_locks, calls, then_locking, briefly, often, Transferring,
  update_balances_locks, change_balances_locks, Matching, match_orders_locks,
  add_order_to_completed_locks, completed_locks, process_orders_locks, stock_loop_locks,
  cancel_active_order_locks, new_connections_locks, stop_all_sessions_locks, sign_up_locks,
  sign_in_locks, Operation, sign_up, sign_in, make_order, view, close_session, cancel,
  new_connections, stock_turn, last_turn, stop_sessions, locks_of, calls_of, running,
}

-- Nothing below a rank is locked, what is locked inside a guard is above it, and no thread sleeps inside
-- a guard.
abbrev pub Above : ℕ → Locking → Type 0
Above r nothing = Unit
Above zero (slept after) = Above 0 after
Above (suc r) (slept after) = ⊥
Above r (guard m mode inside after) = r ≤ rank m × Above (suc (rank m)) inside × Above r after

abbrev Below : ℕ → List (Mutex × Mode) → Type 0
Below r = All (λ (h : Mutex × Mode). rank h.0 < r)

Below-weaken : (r s : ℕ) (held : List (Mutex × Mode)) → r ≤ s → Below r held → Below s held
Below-weaken r s [] le b = tt
Below-weaken r s (h ∷ held) le b = (omega (arith, b.0), Below-weaken r s held le b.1)

calls-Ordered :
    (r : ℕ) (p : Locking) (held : List (Mutex × Mode)) (rest : List Action)
    → Above r p
    → Below r held
    → Ordered held rest
    → Ordered held (calls p rest)
unfolding calls
calls-Ordered r nothing held rest a b o = o
calls-Ordered r (guard m mode inside after) held rest (le, above, a) b o =
    let under = Below-weaken r (rank m) held le b in
    (
      under,
      calls-Ordered (suc (rank m)) inside ((m, mode) ∷ held) (unlock m ∷ calls after rest) above
          (omega arith, Below-weaken (rank m) (suc (rank m)) held (omega arith) under)
          (refl, calls-Ordered r after held rest a b o),
    )
calls-Ordered zero (slept after) [] rest a b o = calls-Ordered 0 after [] rest a b o
calls-Ordered zero (slept after) (h ∷ held) rest a b o = absurd (omega (arith, b.0))
calls-Ordered (suc r) (slept after) held rest a b o = elim a [ ]

then-Above : (r : ℕ) (p q : Locking) → Above r p → Above r q → Above r (then_locking p q)
then-Above r nothing q a b = b
then-Above r (guard m mode inside after) q (le, above, a) b = (le, above, then-Above r after q a b)
then-Above zero (slept after) q a b = then-Above 0 after q a b
then-Above (suc r) (slept after) q a b = elim a [ ]

often-Above :
    (n : ℕ) (r : ℕ) (m : Mutex) (p : Locking) → r ≤ rank m → Above r p → Above r (often n m p)
often-Above zero r m p le a = a
often-Above (suc n) r m p le a = (le, tt, often-Above n r m p le a)

if-Above : (r : ℕ) (c : Bool) (p q : Locking) → Above r p → Above r q → Above r (if c then p else q)
if-Above r true p q a b = a
if-Above r false p q a b = b

-- The ranks of the mutexes that a match locks under core_mutex_.
match_orders_locks-Above : (w : Matching) → Above 1 (match_orders_locks w)
unfolding match_orders_locks change_balances_locks update_balances_locks
match_orders_locks-Above w = (
  omega arith,
  tt,
  if-Above 1 w.sell_active _ nothing
      (
        omega arith,
        tt,
        if-Above 1 w.buy_active _ nothing
            (omega arith, tt, if-Above 1 w.transfer.changed _ nothing (balances w.transfer) tt) tt,
      )
      tt,
)
  where
    saved :
        (t : Transferring)
        → Above 1 (if t.seller_saved then briefly database_mutex nothing else nothing)
    saved t = if-Above 1 t.seller_saved _ nothing (omega arith, tt, tt) tt

    balances : (t : Transferring) → Above 1 (update_balances_locks t)
    balances t = (
      omega arith,
      tt,
      if-Above 1 t.seller_found _ nothing
          (omega arith, tt, if-Above 1 t.buyer_found _ nothing (omega arith, tt, saved t) tt) tt,
    )

completed_locks-Above :
    (filled saved : Bool) (after : Locking)
    → Above 1 after
    → Above 1 (completed_locks filled saved after)
unfolding add_order_to_completed_locks
completed_locks-Above filled saved after a =
    if-Above 1 filled _ after
      (omega arith, (omega arith, tt, if-Above 2 saved _ nothing (omega arith, tt, tt) tt), a) a

process_orders_locks-Above : (ws : List Matching) → Above 1 (process_orders_locks ws)
unfolding process_orders_locks
process_orders_locks-Above [] = tt
process_orders_locks-Above (w ∷ ws) =
    then-Above 1 (match_orders_locks w) _ (match_orders_locks-Above w) (
      completed_locks-Above w.buy_filled w.buy_saved _
        (completed_locks-Above w.sell_filled w.sell_saved _ (process_orders_locks-Above ws)))

wait_locks-Above : (fails : ℕ) (after : Locking) → Above 0 after → Above 0 (wait_locks fails after)
unfolding wait_locks
wait_locks-Above zero after a = (omega arith, tt, a)
wait_locks-Above (suc fails) after a = (omega arith, tt, wait_locks-Above fails after a)

stock_loop_locks-Above :
    (fails : ℕ) (work : Locking) → Above 1 work → Above 0 (stock_loop_locks fails work)
unfolding stock_loop_locks
stock_loop_locks-Above fails work a = wait_locks-Above fails _ (omega arith, a, tt)

locks_of-Above : (op : Operation) → Above 0 (locks_of op)
unfolding locks_of cancel_active_order_locks new_connections_locks stop_all_sessions_locks
    sign_up_locks sign_in_locks
locks_of-Above (sign_up unknown added) = (
  omega arith,
  tt,
  if-Above 0 unknown _ nothing
      (omega arith, tt, if-Above 0 added _ nothing (omega arith, tt, tt) tt) tt,
)
locks_of-Above (sign_in right) =
    (omega arith, tt, if-Above 0 right _ nothing (omega arith, tt, tt) tt)
locks_of-Above (make_order queued) = if-Above 0 queued _ nothing (omega arith, tt, tt) tt
locks_of-Above view = (omega arith, tt, tt)
locks_of-Above close_session = (omega arith, tt, tt)
locks_of-Above (cancel allowed removed) = (
  omega arith,
  tt,
  if-Above 0 allowed _ nothing
      (omega arith, tt, if-Above 0 removed _ nothing (omega arith, tt, tt) tt) tt,
)
locks_of-Above (new_connections allowed sockets) = (
  omega arith,
  tt,
  if-Above 0 allowed _ nothing
      (often-Above sockets 0 handle_sessions_mutex nothing (omega arith) tt) tt,
)
locks_of-Above (stock_turn tests ws) =
    stock_loop_locks-Above tests _ (process_orders_locks-Above ws)
locks_of-Above (last_turn tests orders) =
    stock_loop_locks-Above tests _ (often-Above orders 1 database_mutex nothing (omega arith) tt)
locks_of-Above (stop_sessions sessions) = (
  omega arith,
  tt,
  (
    omega arith,
    tt,
    often-Above sessions 0 handle_sessions_mutex _ (omega arith) (omega arith, tt, tt),
  ),
)

calls_of-Ordered : (ops : List Operation) → Ordered [] (calls_of ops)
unfolding calls_of
calls_of-Ordered [] = tt
calls_of-Ordered (op ∷ ops) =
    calls-Ordered 0 (locks_of op) [] (calls_of ops) (locks_of-Above op) tt (calls_of-Ordered ops)

threads-Ordered : (programs : List (List Operation)) → All OrderedThread (map running programs)
threads-Ordered [] = tt
threads-Ordered (ops ∷ programs) = (calls_of-Ordered ops, threads-Ordered programs)

-- However many threads run whatever operations of the server one after the other, and however far a
-- schedule has brought them, with threads that sleep in their wait being woken up at any time: the run
-- can go on, with nobody woken up any more, until every thread has finished or sleeps in its wait, and
-- then no mutex is held.
pub scheduled-Ending :
    (programs : List (List Operation)) (is : List ℕ) (ts : List Thread)
    → scheduled true is (map running programs) ≡ some ts
    → Ending ts
scheduled-Ending programs is ts e =
    ends (left ts) ts (omega arith)
      (scheduled-Ordered true is (map running programs) ts (threads-Ordered programs) e)
