-- ===== src/ClientDataManager/Startup.antt =====
-- initialize_from_database of server/client_data_manager.cpp.
use stock_app.Common.{ℕ, some, String, List, [], ◌∷◌, ◌++◌}
use stock_app.Common.Int.{ℤ}
use stock_app.Common.Equality.{id_key, username_key}
use stock_app.Common.Map.{Map, assign}
use stock_app.Proto.{buy, sell, TradeOrder, AccountBalance, ClientBalance}
use stock_app.Database.{Void}
use stock_app.Platform.{Platform}
use stock_app.ClientDataManager.State.{ClientDataManager, Try, ◌>>=◌, ◌>>◌, call}

-- AMOUNT_LAST_COMPLETED_OREDRS and AMOUNT_QUOTE_HISTORY
abbrev pub amount_last_completed_orders : ℕ
amount_last_completed_orders = 100

abbrev pub amount_quote_history : ℕ
amount_quote_history = 1000

-- The three loops that fill a map.
unfoldable pub assign_funds :
    List ClientBalance → Map String AccountBalance → Map String AccountBalance
assign_funds [] m = m
assign_funds (balance ∷ rest) m = assign_funds rest (assign balance.username balance.funds m)

unfoldable pub assign_orders : List TradeOrder → Map ℤ TradeOrder → Map ℤ TradeOrder
assign_orders [] m = m
assign_orders (order ∷ rest) m = assign_orders rest (assign order.order_id order m)

module _ {p : Platform} where
  abbrev pub changing : (ClientDataManager p → ClientDataManager p) → Try p Void
  changing f m = (some tt, f m)

  unfoldable pub initialize_from_database : Try p Void
  initialize_from_database = do
    balances ← call p.database.load_clients_balances_from_db
    changing (λ m. record m { clients_funds_data = assign_funds balances m.clients_funds_data })
    buys ← call (p.database.load_active_orders_from_db buy)
    sells ← call (p.database.load_active_orders_from_db sell)
    changing (λ m. record m {
      active_buy_orders = assign_orders buys m.active_buy_orders;
      active_sell_orders = assign_orders sells m.active_sell_orders;
    })
    completed ← call (p.database.load_last_completed_orders amount_last_completed_orders)
    changing (λ m. record m { completed_orders = m.completed_orders ++ completed })
    quotes ← call (p.database.load_quote_history amount_quote_history)
    changing (λ m. record m { quote_history = m.quote_history ++ quotes })
