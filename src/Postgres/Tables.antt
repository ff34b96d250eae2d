-- ===== src/Postgres/Tables.antt =====
-- The tables that the constructor of `Database` creates, and transactions on them. A table is the list
-- of its rows in the order of insertion, which is that of the SERIAL id.
use stock_app.Common.{ℕ, suc, Bool, true, false, Option, none, some, String, List, []}
use stock_app.Common.Int.{ℤ}
use stock_app.Proto.{TradeType, buy, sell, ClientBalance, Quote}
use stock_app.Double.{Double}
use stock_app.Database.{Call}
use stock_app.Postgres.Backend.{Backend, ActiveRow}

pub record UserRow : Type 0 where
  pub username : String
  pub password : String

pub record CompletedRow : Type 0 where
  pub order_id : ℤ
  pub username : String
  pub type : String
  pub usd_cost : Double
  pub usd_volume : ℤ
  pub timestamp : ℤ
  pub completion_timestamp : ℤ

-- A row of clients_balances is a username with its two balances, one of quote_history a price with its
-- time.
pub record Tables : Type 0 where
  pub users : List UserRow
  pub active_buy_orders : List ActiveRow
  pub active_sell_orders : List ActiveRow
  pub clients_balances : List ClientBalance
  pub completed_orders : List CompletedRow
  pub quote_history : List Quote

abbrev pub active_table : TradeType → Tables → List ActiveRow
active_table buy t = t.active_buy_orders
active_table sell t = t.active_sell_orders

abbrev pub set_active_table : TradeType → List ActiveRow → Tables → Tables
set_active_table buy rows t = record t { active_buy_orders = rows }
set_active_table sell rows t = record t { active_sell_orders = rows }

pub record Postgres : Type 0 where
  pub tables : Tables
  -- how many transactions there have been
  pub transactions : ℕ

abbrev pub next_transaction : Postgres → Postgres
next_transaction d = record d { transactions = suc d.transactions }

-- What a transaction that went as far as its statements leaves: an SQL error rolls it back.
abbrev pub committed : {A : Type 0} → Option (A × Tables) → Postgres → Option A × Postgres
committed none d = (none, d)
committed (some (a, t)) d = (some a, record d { tables = t })

abbrev pub if_connected :
    {A : Type 0} → Bool → Bool → Option A × Postgres → Postgres → Option A × Postgres
if_connected true doubt r d = r
if_connected false true r d = (none, r.1)
if_connected false false r d = (none, d)

-- `pqxx::work`, its statements and `commit()`; `none` in the statements is an SQL error.
abbrev pub transaction : {A : Type 0} → Backend → (Tables → Option (A × Tables)) → Call Postgres A
transaction be statements d =
    if_connected (be.goes_through d.transactions) (be.in_doubt d.transactions)
      (committed (statements d.tables) (next_transaction d)) (next_transaction d)

abbrev pub no_rows : Tables
no_rows = record {
  users = [];
  active_buy_orders = [];
  active_sell_orders = [];
  clients_balances = [];
  completed_orders = [];
  quote_history = [];
}

-- The constructor: CREATE TABLE IF NOT EXISTS, where `none` is a database without the tables.
unfoldable pub create_tables : Option Tables → Tables
create_tables none = no_rows
create_tables (some t) = t
