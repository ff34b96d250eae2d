-- ===== src/Core/Match.antt =====
-- One match: match_orders, and what process_orders does with the two orders afterwards.
use stock_app.Common.{Bool, if◌then◌else◌}
use stock_app.Common.Int.{ℤ, pos, min_ℤ, eqb_ℤ, ltb_ℤ}
use stock_app.Double.{Double, times_int}
use stock_app.Proto.{TradeOrder}
use stock_app.Platform.{Platform}
use stock_app.Queue.{PriorityQueue}
use stock_app.ClientDataManager.State.{ClientDataManager, Test, ◌and_then◌}
use stock_app.ClientDataManager.Balances.{change_client_balances_according_match}
use stock_app.ClientDataManager.ActiveOrders.{
  reduce, update_active_order_usd_amount, add_order_to_completed,
}

-- The books keep their orders in priority queues over the two comparators.
unfoldable pub transaction_amount : TradeOrder → TradeOrder → ℤ
transaction_amount sell_order buy_order = min_ℤ sell_order.usd_amount buy_order.usd_amount

-- In RUB, at the price of the buyer.
unfoldable pub transaction_cost : TradeOrder → TradeOrder → Double
transaction_cost sell_order buy_order =
    times_int (transaction_amount sell_order buy_order) buy_order.usd_cost

module _ {p : Platform} where
  unfoldable pub update_active_order_usd_amount_in_client_data_manager :
      TradeOrder → TradeOrder → ℤ → Test p
  update_active_order_usd_amount_in_client_data_manager sell_order buy_order amount =
      update_active_order_usd_amount sell_order amount
      and_then update_active_order_usd_amount buy_order amount

  -- The orders are reduced before anything can fail; the result is of the bookkeeping.
  unfoldable pub match_orders :
      TradeOrder
      → TradeOrder
      → ClientDataManager p
      → Bool × TradeOrder × TradeOrder × ClientDataManager p
  match_orders sell_order buy_order m =
      let amount = transaction_amount sell_order buy_order in
      let cost = transaction_cost sell_order buy_order in
      let sell_order' = reduce amount sell_order in
      let buy_order' = reduce amount buy_order in
      let (done, m') =
        (update_active_order_usd_amount_in_client_data_manager sell_order' buy_order' amount
            and_then change_client_balances_according_match sell_order.username buy_order.username
                amount cost)
          m in
      (done, sell_order', buy_order', m')

  -- `if (order.usd_amount() == 0) { move_order_to_completed_orders(order); }`
  unfoldable pub complete_if_filled : TradeOrder → ClientDataManager p → ClientDataManager p
  complete_if_filled order m =
      if eqb_ℤ order.usd_amount (pos 0) then (add_order_to_completed order m).1 else m

module _ {cmp : TradeOrder → TradeOrder → Bool} (book : PriorityQueue cmp) where
  -- `if (order.usd_amount() > 0) { book.push(order); }`
  unfoldable pub push_if_left : TradeOrder → book.Queue → book.Queue
  push_if_left order q = if ltb_ℤ (pos 0) order.usd_amount then book.push order q else q
