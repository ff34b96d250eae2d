-- ===== src/Core/Intake.antt =====
-- place_order_to_priority_queue and complement_order_books of server/core.cpp: the orders that wait
-- in the queues are put into the books.
use stock_app.Common.{ℕ, zero, suc, true, false, Option, none, some, length}
use stock_app.Proto.{TradeType, buy, sell, TradeOrder}
use stock_app.Platform.{Platform}
use stock_app.ClientDataManager.OrderQueues.{
  is_empty_order_queue, pop_order_from_order_queue, queued_orders,
}
use stock_app.Core.Loop.{Books, Core}

module _ {p : Platform} {b : Books} where
  unfoldable pub place_by_type : TradeType → TradeOrder → Core p b → Core p b
  place_by_type buy order c = record c { buy_orders_book = b.buys.push order c.buy_orders_book }
  place_by_type sell order c = record c { sell_orders_book = b.sells.push order c.sell_orders_book }

  unfoldable pub place_order_to_priority_queue : TradeOrder → Core p b → Core p b
  place_order_to_priority_queue order c = place_by_type order.type order c

  -- The body of one of the two loops. That nothing could be popped is not looked at.
  unfoldable pub complement_step : TradeType → Core p b → Core p b
  complement_step type c =
      let (order, _, m) = pop_order_from_order_queue type c.manager in
      place_order_to_priority_queue order (record c { manager = m })

  -- `while (!client_data_manager->is_empty_order_queue(type))`; `none` means out of fuel.
  unfoldable pub complement_loop : ℕ → TradeType → Core p b → Option (Core p b)
  complement_loop zero type c = none
  complement_loop (suc fuel) type c = elim (is_empty_order_queue type c.manager) [
    | true ↦ some c
    | false ↦ complement_loop fuel type (complement_step type c)
  ]

  -- The buy orders, then the sell orders; one round more than there are orders is enough.
  unfoldable pub complement_order_books : Core p b → Option (Core p b)
  complement_order_books c =
      elim (complement_loop (suc (length (queued_orders buy c.manager))) buy c) [
        | none ↦ none
        | some c' ↦ complement_loop (suc (length (queued_orders sell c'.manager))) sell c'
      ]
