-- ===== src/ClientDataManager/ActiveOrders.antt =====
-- The active and completed orders: update_active_order_usd_amount, remove_order_from_active_orders,
-- add_order_to_completed and push_order_to_active_orders.
use stock_app.Common.{suc, true, false, none, some, [], ◌∷◌, ◌++◌}
use stock_app.Common.Int.{ℤ, pos, ◌-ℤ◌}
use stock_app.Common.Word.{to_int32}
use stock_app.Common.Equality.{id_key}
use stock_app.Common.Map.{find, assign, erase}
use stock_app.Proto.{TradeType, TradeOrder, Quote}
use stock_app.Platform.{Platform}
use stock_app.ClientDataManager.State.{
  ClientDataManager, active_orders, set_active_orders, Test, ◌>>◌, returns_normally, call,
}

-- `order.set_usd_amount(order.usd_amount() - amount)`, in 32 bits.
unfoldable pub reduce : ℤ → TradeOrder → TradeOrder
reduce amount order = record order { usd_amount = to_int32 (order.usd_amount -ℤ amount) }

module _ {p : Platform} where
  unfoldable pub update_active_order_usd_amount : TradeOrder → ℤ → Test p
  update_active_order_usd_amount order amount m =
      elim (find order.order_id (active_orders order.type m)) [
        | none ↦ (false, m)
        | some active ↦ (
          true,
          set_active_orders order.type
              (assign order.order_id (reduce amount active) (active_orders order.type m)) m,
        )
      ]

  unfoldable pub remove_order_from_active_orders : ℤ → TradeType → Test p
  remove_order_from_active_orders order_id type m = elim (find order_id (active_orders type m)) [
    | none ↦ (false, m)
    | some _ ↦ (true, set_active_orders type (erase order_id (active_orders type m)) m)
  ]

  -- The two rows that a completed order leaves in the database, in one `try`.
  save_completed : TradeOrder → Quote → Test p
  save_completed order quote = returns_normally (
      call (p.database.save_completed_order_to_db order quote.timestamp)
      >> call (p.database.save_qoute_to_db quote))

  -- A failure to find the order among the active ones is only logged.
  unfoldable pub add_order_to_completed : TradeOrder → Test p
  unfolding save_completed
  add_order_to_completed order m =
      let quote : Quote = record { timestamp = pos (p.clock m.reads); price = order.usd_cost } in
      let m' =
        (remove_order_from_active_orders order.order_id order.type
          (record m { reads = suc m.reads })).1 in
      save_completed order quote (record m' {
        quote_history = m'.quote_history ++ quote ∷ [];
        completed_orders = m'.completed_orders ++ order ∷ [];
      })

  unfoldable pub push_order_to_active_orders :
      TradeOrder → ClientDataManager p → ClientDataManager p
  push_order_to_active_orders order m =
      set_active_orders order.type (assign order.order_id order (active_orders order.type m)) m
