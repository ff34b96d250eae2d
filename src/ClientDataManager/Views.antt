-- ===== src/ClientDataManager/Views.antt =====
-- What the clients see: get_all_active_oreders, get_last_completed_oreders and get_quote_history.
use stock_app.Common.{List, [], ◌∷◌}
use stock_app.Common.Int.{ℤ}
use stock_app.Common.Map.{Map}
use stock_app.Proto.{buy, sell, TradeOrder, ActiveOrders, CompletedOrders, QuoteHistory}
use stock_app.Platform.{Platform}
use stock_app.ClientDataManager.State.{ClientDataManager}

unfoldable pub orders_in : Map ℤ TradeOrder → List TradeOrder
orders_in [] = []
orders_in ((_, order) ∷ m) = order ∷ orders_in m

-- The loop over completed_orders_: each order is added to the end of the list of its type.
unfoldable pub sort_by_type : List TradeOrder → CompletedOrders
sort_by_type [] = record { completed_buy_orders = []; completed_sell_orders = [] }
sort_by_type (order ∷ rest) =
    let sorted = sort_by_type rest in
    elim order.type [
      | buy ↦ record sorted { completed_buy_orders = order ∷ sorted.completed_buy_orders }
      | sell ↦ record sorted { completed_sell_orders = order ∷ sorted.completed_sell_orders }
    ]

module _ {p : Platform} where
  unfoldable pub get_all_active_orders : ClientDataManager p → ActiveOrders
  get_all_active_orders m = record {
    active_buy_orders = orders_in m.active_buy_orders;
    active_sell_orders = orders_in m.active_sell_orders;
  }

  unfoldable pub get_last_completed_orders : ClientDataManager p → CompletedOrders
  get_last_completed_orders m = sort_by_type m.completed_orders

  unfoldable pub get_quote_history : ClientDataManager p → QuoteHistory
  get_quote_history m = record { quotes = m.quote_history }
