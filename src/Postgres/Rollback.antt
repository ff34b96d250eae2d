-- ===== src/Postgres/Rollback.antt =====
-- What a query leaves.
use stock_app.Common.{ℕ, ◌≡◌, String, arith}
use stock_app.Proto.{TradeType}
use stock_app.Database.{Call}
use stock_app.Postgres.Backend.{Backend}
use stock_app.Postgres.Tables.{Postgres}
use stock_app.Postgres.Methods.{
  is_user_exists, authenticate_user, load_active_orders_from_db, load_clients_balances_from_db,
  load_last_completed_orders, load_quote_history,
}

-- A call changes no table.
abbrev pub IsReadOnly : {A : Type 0} → Call Postgres A → Type 0
IsReadOnly call = (d : Postgres) → (call d).1.tables ≡ d.tables

-- None of the six methods of the database that read changes a table.
pub database-IsReadOnly :
    (be : Backend)
    → ((username : String) → IsReadOnly (is_user_exists be username))
      × ((username password : String) → IsReadOnly (authenticate_user be username password))
      × ((type : TradeType) → IsReadOnly (load_active_orders_from_db be type))
      × IsReadOnly (load_clients_balances_from_db be)
      × ((number : ℕ) → IsReadOnly (load_last_completed_orders be number))
      × ((number : ℕ) → IsReadOnly (load_quote_history be number))
unfolding is_user_exists authenticate_user load_active_orders_from_db load_clients_balances_from_db
    load_last_completed_orders load_quote_history
database-IsReadOnly be = (
  λ username d. ground arith,
  λ username password d. ground arith,
  λ type d. ground arith,
  λ d. ground arith,
  λ number d. ground arith,
  λ number d. ground arith,
)
