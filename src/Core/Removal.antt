-- ===== src/Core/Removal.antt =====
-- remove_order_by_id and remove_from_queue of server/core.cpp, and cancel_active_order of
-- server/client_data_manager.cpp, which calls it.
use stock_app.Common.{
  ℕ, zero, suc, Bool, true, false, not, none, some, String, length, if◌then◌else◌,
}
use stock_app.Common.Int.{ℤ, eqb_ℤ}
use stock_app.Common.Equality.{id_key, username_key, ◌==◌}
use stock_app.Common.Map.{find}
use stock_app.Proto.{TradeType, buy, sell, TradeOrder}
use stock_app.Platform.{Platform}
use stock_app.Queue.{PriorityQueue}
use stock_app.ClientDataManager.State.{ClientDataManager, active_orders}
use stock_app.ClientDataManager.ActiveOrders.{remove_order_from_active_orders}
use stock_app.Core.Loop.{Books, Core}

module _ {cmp : TradeOrder → TradeOrder → Bool} (book : PriorityQueue cmp) where
  -- `while (!queue.empty())`: the orders that stay are moved to `temp_queue`. The fuel is the number
  -- of orders.
  unfoldable pub remove_loop : ℕ → ℤ → book.Queue → book.Queue → Bool → book.Queue × Bool
  remove_loop zero order_id queue temp_queue found = (temp_queue, found)
  remove_loop (suc fuel) order_id queue temp_queue found = elim (book.pop queue) [
    | none ↦ (temp_queue, found)
    | some (order, rest) ↦
        remove_loop fuel order_id rest
          (if not (eqb_ℤ order.order_id order_id) then book.push order temp_queue else temp_queue)
          (if not (eqb_ℤ order.order_id order_id) then found else true)
  ]

  unfoldable pub remove_from_queue : book.Queue → ℤ → book.Queue × Bool
  remove_from_queue queue order_id =
      remove_loop (length (book.contents queue)) order_id queue book.empty false

-- The two tests under the first lock of cancel_active_order.
unfoldable pub may_cancel : {p : Platform} → TradeType → ℤ → String → ClientDataManager p → Bool
may_cancel type order_id client m = elim (find order_id (active_orders type m)) [
  | none ↦ false
  | some order ↦ order.username == client
]

module _ {p : Platform} {b : Books} where
  -- Under core_mutex_.
  unfoldable pub remove_order_by_id : ℤ → TradeType → Core p b → Bool × Core p b
  remove_order_by_id order_id buy c =
      let (queue, found) = remove_from_queue b.buys c.buy_orders_book order_id in
      (found, record c { buy_orders_book = queue })
  remove_order_by_id order_id sell c =
      let (queue, found) = remove_from_queue b.sells c.sell_orders_book order_id in
      (found, record c { sell_orders_book = queue })

  -- Three steps: the look at the active order, the removal from the book and the removal from the
  -- active orders, each under its own lock; here nothing happens in between.
  unfoldable pub cancel_active_order : TradeType → ℤ → String → Core p b → Bool × Core p b
  cancel_active_order type order_id client c =
      if not (may_cancel type order_id client c.manager)
      then (false, c)
      else (let (removed, c') = remove_order_by_id order_id type c in
          if not removed then (false, c') else (
            true,
            record c' { manager = (remove_order_from_active_orders order_id type c'.manager).1 },
          ))
