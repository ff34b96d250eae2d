-- ===== src/Postgres/Methods.antt =====
-- The methods of `Database`.
use mathlib.Core.List.{reverse}
use stock_app.Common.{
  ℕ, zero, suc, Bool, true, false, not, ◌&&◌, Option, none, some, String, List, [], ◌∷◌, ◌++◌, map,
  if◌then◌else◌,
}
use stock_app.Common.Int.{ℤ, pos}
use stock_app.Common.Equality.{username_key, ◌==◌}
use stock_app.Proto.{TradeType, buy, sell, TradeOrder, ClientBalance, Quote}
use stock_app.Database.{Call, Void, IDatabase}
use stock_app.Postgres.Backend.{Backend, ActiveRow}
use stock_app.Postgres.Tables.{
  UserRow, CompletedRow, active_table, set_active_table, Postgres, transaction,
}

-- `LIMIT n`
abbrev pub take {ℓ} : {A : Type ℓ} → ℕ → List A → List A
take zero xs = []
take (suc n) [] = []
take (suc n) (x ∷ xs) = x ∷ take n xs

-- `SELECT password FROM users WHERE username = $1`, its first row.
unfoldable pub password_of : String → List UserRow → Option String
password_of username [] = none
password_of username (row ∷ rows) =
    if row.username == username then some row.password else password_of username rows

-- `SELECT 1 FROM users WHERE username = $1` has a row.
unfoldable pub has_user : String → List UserRow → Bool
has_user username rows = elim (password_of username rows) [ none ↦ false | some _ ↦ true ]

-- `UPDATE clients_balances SET … WHERE username = $3`: every row that fits, if any does.
unfoldable pub update_balances : ClientBalance → List ClientBalance → List ClientBalance
update_balances client_balance [] = []
update_balances client_balance (row ∷ rows) =
    (if row.username == client_balance.username
      then record row { funds = client_balance.funds }
      else row)
    ∷ update_balances client_balance rows

-- `order.type() == BUY ? "buy" : "sell"`
abbrev pub type_name : TradeType → String
type_name buy = "buy"
type_name sell = "sell"

-- The values of the INSERT of an active order, and the order of a row.
unfoldable pub active_row : TradeOrder → ActiveRow
active_row order = record {
  order_id = order.order_id;
  username = order.username;
  usd_cost = order.usd_cost;
  usd_amount = order.usd_amount;
  usd_volume = order.usd_volume;
  timestamp = order.timestamp;
}

module _ (be : Backend) where
  unfoldable pub active_order : TradeType → ActiveRow → TradeOrder
  active_order type row = record {
    type = type;
    usd_cost = row.usd_cost;
    usd_amount = row.usd_amount;
    timestamp = be.read_millis row.timestamp;
    order_id = row.order_id;
    usd_volume = row.usd_volume;
    username = row.username;
  }

  -- The amount is not stored, and is 0 in the order.
  unfoldable pub completed_order : CompletedRow → TradeOrder
  completed_order row = record {
    type = if row.type == "buy" then buy else sell;
    usd_cost = row.usd_cost;
    usd_amount = pos 0;
    timestamp = be.read_millis row.timestamp;
    order_id = row.order_id;
    usd_volume = row.usd_volume;
    username = row.username;
  }

  unfoldable pub stored_quote : Quote → Quote
  stored_quote row = record row { timestamp = be.read_millis row.timestamp }

  unfoldable pub is_user_exists : String → Call Postgres Bool
  is_user_exists username = transaction be (λ t. some (has_user username t.users, t))

  -- The username is UNIQUE, and both texts are VARCHAR(255).
  unfoldable pub add_user : String → String → Call Postgres Void
  add_user username password d =
      let hashed_password = be.generate_hash d.transactions password in
      transaction be
        (λ t.
          if be.fits username && be.fits hashed_password && not (has_user username t.users)
          then some (
            tt,
            record t {
              users = t.users ++ (record { username = username; password = hashed_password }) ∷ [];
              clients_balances =
                  t.clients_balances
                  ++ (record {
                    username = username;
                    funds = record { usd_balance = pos 0; rub_balance = pos 0 };
                  })
                    ∷ [];
            },
          )
          else none)
        d

  unfoldable pub authenticate_user : String → String → Call Postgres Bool
  authenticate_user username password = transaction be (λ t. some (
    elim (password_of username t.users) [
      | none ↦ false
      | some hashed_password ↦ be.validate_password password hashed_password
    ],
    t,
  ))

  unfoldable pub save_active_order_to_db : TradeOrder → Call Postgres Void
  save_active_order_to_db order = transaction be (λ t.
      if be.fits order.username
      then some
          (tt, set_active_table order.type (active_table order.type t ++ active_row order ∷ []) t)
      else none)

  unfoldable pub load_active_orders_from_db : TradeType → Call Postgres (List TradeOrder)
  load_active_orders_from_db type =
      transaction be (λ t. some (map (active_order type) (be.scan_active (active_table type t)), t))

  unfoldable pub update_actual_client_balance_in_db : ClientBalance → Call Postgres Void
  update_actual_client_balance_in_db client_balance = transaction be (λ t.
      some (tt, record t { clients_balances = update_balances client_balance t.clients_balances }))

  unfoldable pub load_clients_balances_from_db : Call Postgres (List ClientBalance)
  load_clients_balances_from_db =
      transaction be (λ t. some (be.scan_balances t.clients_balances, t))

  unfoldable pub save_completed_order_to_db : TradeOrder → ℤ → Call Postgres Void
  save_completed_order_to_db order completion_timestamp = transaction be (λ t.
      if be.fits order.username
      then some (
        tt,
        record t {
          completed_orders =
              t.completed_orders
              ++ (record {
                order_id = order.order_id;
                username = order.username;
                type = type_name order.type;
                usd_cost = order.usd_cost;
                usd_volume = order.usd_volume;
                timestamp = order.timestamp;
                completion_timestamp = completion_timestamp;
              })
                ∷ [];
        },
      )
      else none)

  -- `ORDER BY id DESC LIMIT $1`
  unfoldable pub load_last_completed_orders : ℕ → Call Postgres (List TradeOrder)
  load_last_completed_orders number =
      transaction be (λ t. some (map completed_order (take number (reverse t.completed_orders)), t))

  unfoldable pub save_qoute_to_db : Quote → Call Postgres Void
  save_qoute_to_db quote =
      transaction be (λ t. some (tt, record t { quote_history = t.quote_history ++ quote ∷ [] }))

  unfoldable pub load_quote_history : ℕ → Call Postgres (List Quote)
  load_quote_history number =
      transaction be (λ t. some (map stored_quote (take number (reverse t.quote_history)), t))

  unfoldable pub truncate_active_orders_table : Call Postgres Void
  truncate_active_orders_table =
      transaction be (λ t. some (tt, record t { active_buy_orders = []; active_sell_orders = [] }))

  -- `class Database : public IDatabase`
  abbrev pub database : IDatabase
  database = record {
    Db = Postgres;
    is_user_exists = is_user_exists;
    add_user = add_user;
    authenticate_user = authenticate_user;
    save_active_order_to_db = save_active_order_to_db;
    load_active_orders_from_db = load_active_orders_from_db;
    update_actual_client_balance_in_db = update_actual_client_balance_in_db;
    load_clients_balances_from_db = load_clients_balances_from_db;
    save_completed_order_to_db = save_completed_order_to_db;
    load_last_completed_orders = load_last_completed_orders;
    save_qoute_to_db = save_qoute_to_db;
    load_quote_history = load_quote_history;
    truncate_active_orders_table = truncate_active_orders_table;
  }
