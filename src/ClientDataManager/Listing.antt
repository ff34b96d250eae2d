-- ===== src/ClientDataManager/Listing.antt =====
-- What the calls of a match do to the two maps of active orders.
use stock_app.Common.{ℕ, suc, ◌≡◌, refl, none, String, arith, if◌then◌else◌}
use stock_app.Common.Int.{ℤ, eqb_ℤ_iff}
use stock_app.Common.Equality.{id_key, ◌==◌}
use stock_app.Common.Map.{find, find-erase}
use stock_app.Double.{Double}
use stock_app.Proto.{TradeType, buy, sell, TradeOrder}
use stock_app.Platform.{Platform}
use stock_app.ClientDataManager.State.{ClientDataManager, active_orders}
use stock_app.ClientDataManager.Balances.{
  change_client_balance, change_four_balances, change_client_balances_according_match,
  update_clients_balances_in_db,
}
use stock_app.ClientDataManager.ActiveOrders.{
  remove_order_from_active_orders, add_order_to_completed,
}

-- The other of the two maps.
abbrev pub opposite : TradeType → TradeType
opposite buy = sell
opposite sell = buy

module _ {p : Platform} where
  -- The two maps of active orders are the same in two states.
  pub record SameActive (m n : ClientDataManager p) : Type 0 where
    pub same_buys : n.active_buy_orders ≡ m.active_buy_orders
    pub same_sells : n.active_sell_orders ≡ m.active_sell_orders

  pub change_client_balances-SameActive :
      (s b : String) (amount : ℤ) (cost : Double) (m : ClientDataManager p)
      → SameActive m (change_client_balances_according_match s b amount cost m).1
  unfolding change_client_balances_according_match change_four_balances change_client_balance
      update_clients_balances_in_db
  change_client_balances-SameActive s b amount cost m = ground arith

  -- Removing an order, whether it is there or not.
  pub find-remove_order :
      (t : TradeType) (id other : ℤ) (m : ClientDataManager p)
      → find other (active_orders t (remove_order_from_active_orders id t m).1)
        ≡ (if id == other then none else find other (active_orders t m))
  unfolding remove_order_from_active_orders
  find-remove_order buy id other m =
      ground (arith, find-erase id other m.active_buy_orders, eqb_ℤ_iff id other)
  find-remove_order sell id other m =
      ground (arith, find-erase id other m.active_sell_orders, eqb_ℤ_iff id other)

  pub remove_order_opposite :
      (t : TradeType) (id : ℤ) (m : ClientDataManager p)
      → active_orders (opposite t) (remove_order_from_active_orders id t m).1
        ≡ active_orders (opposite t) m
  unfolding remove_order_from_active_orders
  remove_order_opposite buy id m = ground arith
  remove_order_opposite sell id m = ground arith

  active_orders_same :
      (t : TradeType) {m n : ClientDataManager p}
      → SameActive m n
      → active_orders t n ≡ active_orders t m
  active_orders_same buy h = h.same_buys
  active_orders_same sell h = h.same_sells

  add_order_to_completed-SameActive :
      (o : TradeOrder) (m : ClientDataManager p)
      → SameActive
          (remove_order_from_active_orders o.order_id o.type (record m { reads = suc m.reads })).1
          (add_order_to_completed o m).1
  unfolding add_order_to_completed
  add_order_to_completed-SameActive o m = ground arith

  active_orders_reads :
      (t : TradeType) (n : ℕ) (m : ClientDataManager p)
      → active_orders t (record m { reads = n }) ≡ active_orders t m
  active_orders_reads buy n m = refl
  active_orders_reads sell n m = refl

  -- A completed order is no longer active; nothing else is removed.
  pub find-add_order_to_completed :
      (o : TradeOrder) (other : ℤ) (m : ClientDataManager p)
      → find other (active_orders o.type (add_order_to_completed o m).1)
        ≡ (if o.order_id == other then none else find other (active_orders o.type m))
  find-add_order_to_completed o other m = rw (
    active_orders_same o.type (add_order_to_completed-SameActive o m),
    find-remove_order,
    active_orders_reads o.type,
  )

  pub add_order_to_completed-opposite :
      (o : TradeOrder) (m : ClientDataManager p)
      → active_orders (opposite o.type) (add_order_to_completed o m).1
        ≡ active_orders (opposite o.type) m
  add_order_to_completed-opposite o m = rw (
    active_orders_same (opposite o.type) (add_order_to_completed-SameActive o m),
    remove_order_opposite,
    active_orders_reads (opposite o.type),
  )
