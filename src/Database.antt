-- ===== src/Database.antt =====
-- `IDatabase` of server/database.hpp: what the core, the client data manager and the sessions call.
-- A method may throw: its result is then `none`, and the database is left in the state that it names.
use stock_app.Common.{ℕ, Bool, String, Option, List}
use stock_app.Common.Int.{ℤ}
use stock_app.Proto.{TradeType, TradeOrder, ClientBalance, Quote}

-- A call of a method that returns an `A` or throws.
abbrev pub Call : Type 0 → Type 0 → Type 0
Call Db A = Db → Option A × Db

abbrev pub Void : Type 0
Void = Unit {0}

pub record IDatabase : Type 1 where
  pub Db : Type 0
  pub is_user_exists : String → Call Db Bool
  pub add_user : String → String → Call Db Void
  pub authenticate_user : String → String → Call Db Bool
  pub save_active_order_to_db : TradeOrder → Call Db Void
  pub load_active_orders_from_db : TradeType → Call Db (List TradeOrder)
  pub update_actual_client_balance_in_db : ClientBalance → Call Db Void
  pub load_clients_balances_from_db : Call Db (List ClientBalance)
  pub save_completed_order_to_db : TradeOrder → ℤ → Call Db Void
  pub load_last_completed_orders : ℕ → Call Db (List TradeOrder)
  pub save_qoute_to_db : Quote → Call Db Void
  pub load_quote_history : ℕ → Call Db (List Quote)
  pub truncate_active_orders_table : Call Db Void
