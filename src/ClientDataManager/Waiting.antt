-- ===== src/ClientDataManager/Waiting.antt =====
-- The wait of the matching thread for orders, and the notifications that end it:
-- stock_loop_wait_for_orders, notify_order_received and notify_to_stop_matching_orders of
-- server/client_data_manager.cpp. `cv.wait(lock, test)` is `while (!test()) { cv.wait(lock); }`. A
-- notification does not take the mutex of the wait, so it may come between the test and the wait.
use stock_app.Common.{Bool, false, not, ◌||◌, List, [], ◌∷◌, if◌then◌else◌}
use stock_app.Proto.{TradeType, buy, sell, TradeOrder}
use stock_app.Platform.{Platform}
use stock_app.ClientDataManager.State.{ClientDataManager}
use stock_app.ClientDataManager.OrderQueues.{is_empty_order_queue, push_order_to_order_queue}

-- Where the matching thread is: before the test, after a test that failed and before it sleeps, asleep,
-- or past the wait.
pub data Waiter : Type 0 where
  at_test at_wait asleep past : Waiter

-- `order_queue_cv_.notify_all()`: only a thread that sleeps is woken up.
abbrev pub notify_all : Waiter → Waiter
notify_all asleep = at_test
notify_all w = w

unfoldable pub notify_order_received : Waiter → Waiter
notify_order_received w = notify_all w

unfoldable pub notify_to_stop_matching_orders : Waiter → Waiter
notify_to_stop_matching_orders w = notify_all w

-- What happens next: the matching thread goes on, it is woken up for no reason, a session puts an order
-- into a queue or notifies, or the session manager is stopped or notifies.
pub data Event : Type 0 where
  goes_on wakes : Event
  gets : TradeType → TradeOrder → Event
  told_of_order : Event
  stopped told_to_stop : Event

pub record Waiting (p : Platform) : Type 0 where
  pub manager : ClientDataManager p
  pub is_running : Bool
  pub waiter : Waiter

module _ {p : Platform} where
  -- The test of the wait.
  unfoldable pub has_reason : Bool → ClientDataManager p → Bool
  has_reason running m =
      not (is_empty_order_queue buy m) || not (is_empty_order_queue sell m) || not running

  -- stock_loop_wait_for_orders, from one place to the next.
  unfoldable pub stock_loop_wait_for_orders : Bool → ClientDataManager p → Waiter → Waiter
  stock_loop_wait_for_orders running m at_test = if has_reason running m then past else at_wait
  stock_loop_wait_for_orders running m at_wait = asleep
  stock_loop_wait_for_orders running m asleep = asleep
  stock_loop_wait_for_orders running m past = past

  unfoldable pub happens : Event → Waiting p → Waiting p
  happens goes_on w = record w {
    waiter = stock_loop_wait_for_orders w.is_running w.manager w.waiter;
  }
  happens wakes w = record w { waiter = notify_all w.waiter }
  happens (gets type order) w = record w {
    manager = (push_order_to_order_queue type order w.manager).1;
  }
  happens told_of_order w = record w { waiter = notify_order_received w.waiter }
  happens stopped w = record w { is_running = false }
  happens told_to_stop w = record w { waiter = notify_to_stop_matching_orders w.waiter }

  unfoldable pub all_happen : List Event → Waiting p → Waiting p
  all_happen [] w = w
  all_happen (e ∷ es) w = all_happen es (happens e w)
