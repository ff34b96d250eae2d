-- ===== src/Postgres/Backend.antt =====
-- What `Database` uses that is not in the repository: PostgreSQL through libpqxx, and bcrypt. The laws
-- are the documented ones.
use mathlib.Core.List.{Permᴰ}
use stock_app.Common.{ℕ, ◌≡◌, Bool, true, String, List}
use stock_app.Common.Int.{ℤ}
use stock_app.Proto.{ClientBalance}
use stock_app.Double.{Double}

-- A row of active_buy_orders or active_sell_orders.
pub record ActiveRow : Type 0 where
  pub order_id : ℤ
  pub username : String
  pub usd_cost : Double
  pub usd_amount : ℤ
  pub usd_volume : ℤ
  -- to_timestamp of so many milliseconds
  pub timestamp : ℤ

pub record Backend : Type 0 where
  -- the connection holds during the n-th transaction
  pub goes_through : ℕ → Bool
  -- if it does not, whether the server has committed all the same (pqxx::in_doubt_error)
  pub in_doubt : ℕ → Bool
  -- the text can be stored in a VARCHAR(255)
  pub fits : String → Bool
  -- the milliseconds that come back of a TIMESTAMP WITH TIME ZONE
  pub read_millis : ℤ → ℤ
  -- bcrypt::generateHash, with the salt of the n-th transaction, and bcrypt::validatePassword
  pub generate_hash : ℕ → String → String
  pub validate_password : String → String → Bool
  pub validate-generate :
      (n : ℕ) (password : String) → validate_password password (generate_hash n password) ≡ true
  pub generate_hash_fits : (n : ℕ) (password : String) → fits (generate_hash n password) ≡ true
  -- a SELECT with no ORDER BY returns the rows in any order
  pub scan_active : List ActiveRow → List ActiveRow
  pub scan_active-perm : (rows : List ActiveRow) → Permᴰ (scan_active rows) rows
  pub scan_balances : List ClientBalance → List ClientBalance
  pub scan_balances-perm : (rows : List ClientBalance) → Permᴰ (scan_balances rows) rows
