-- ===== src/Tests/LocksWitness.antt =====
-- A cancellation that holds core_mutex_ while the matching thread, which has slept, waits for it.
use stock_app.Common.{refl, true, false, ℕ, List, [], ◌∷◌}
use stock_app.Locks.{
  core_mutex, client_data_mutex, unique, lock, unlock, Thread, scheduled, step, perform, is_free,
  waits_for, released,
}
use stock_app.Locks.Runs.{Ending}
use stock_app.Locks.Operations.{
  wait_locks, Matching, Operation, cancel, stock_turn, calls_of, calls, locks_of,
  cancel_active_order_locks, stock_loop_locks, process_orders_locks, match_orders_locks,
}
use stock_app.Locks.Deadlock.{scheduled-Ending}

abbrev unlisted : Matching
unlisted = record {
  sell_active = false;
  buy_active = false;
  transfer = record {
    changed = false;
    seller_found = false;
    buyer_found = false;
    seller_saved = false;
  };
  buy_filled = false;
  buy_saved = false;
  sell_filled = false;
  sell_saved = false;
}

abbrev programs : List (List Operation)
programs = (cancel true true ∷ []) ∷ (stock_turn 1 (unlisted ∷ []) ∷ []) ∷ []

abbrev schedule : List ℕ
schedule = 0 ∷ 0 ∷ 0 ∷ 1 ∷ 1 ∷ 1 ∷ 1 ∷ 1 ∷ []

abbrev halfway : List Thread
halfway =
    record {
      held = (core_mutex, unique) ∷ [];
      todo = unlock core_mutex ∷ lock client_data_mutex unique ∷ unlock client_data_mutex ∷ [];
    }
    ∷ record {
      held = [];
      todo =
          lock core_mutex unique
          ∷ lock client_data_mutex unique
          ∷ unlock client_data_mutex
          ∷ unlock core_mutex
          ∷ [];
    }
    ∷ []

scheduled-Ending_example : Ending halfway
unfolding scheduled step perform is_free waits_for released calls_of wait_locks calls locks_of
    cancel_active_order_locks stock_loop_locks process_orders_locks match_orders_locks
scheduled-Ending_example = scheduled-Ending programs schedule halfway refl
