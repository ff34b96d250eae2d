-- ===== src/ClientDataManager/State.antt =====
-- The fields of `ClientDataManager` (server/client_data_manager.hpp), with what it reaches through
-- the session manager: the database and the clock.
use stock_app.Common.{ℕ, Bool, true, false, Option, none, some, String, List}
use stock_app.Common.Int.{ℤ}
use stock_app.Common.Map.{Map}
use stock_app.Proto.{TradeType, buy, sell, TradeOrder, AccountBalance, Quote}
use stock_app.Database.{Void}
use stock_app.Platform.{Platform}

pub record ClientDataManager (p : Platform) : Type 0 where
  pub clients_funds_data : Map String AccountBalance
  pub active_buy_orders : Map ℤ TradeOrder
  pub active_sell_orders : Map ℤ TradeOrder
  pub completed_orders : List TradeOrder
  pub quote_history : List Quote
  pub buy_orders_queue : p.concurrent_queue.Queue
  pub sell_orders_queue : p.concurrent_queue.Queue
  pub db : p.database.Db
  -- how often the clock has been read
  pub reads : ℕ

module _ {p : Platform} where
  -- `target_orders`, the reference to one of the two maps of active orders.
  abbrev pub active_orders : TradeType → ClientDataManager p → Map ℤ TradeOrder
  active_orders buy m = m.active_buy_orders
  active_orders sell m = m.active_sell_orders

  abbrev pub set_active_orders :
      TradeType → Map ℤ TradeOrder → ClientDataManager p → ClientDataManager p
  set_active_orders buy t m = record m { active_buy_orders = t }
  set_active_orders sell t m = record m { active_sell_orders = t }

-- A member function that returns a bool.
abbrev pub Test : Platform → Type 0
Test p = ClientDataManager p → Bool × ClientDataManager p

-- The inside of a `try`: `none` is an exception.
abbrev pub Try : Platform → Type 0 → Type 0
Try p A = ClientDataManager p → Option A × ClientDataManager p

-- What follows a test that may have ended the function with `return false;`.
abbrev pub after_test :
    {p : Platform} → Bool × ClientDataManager p → Test p → Bool × ClientDataManager p
after_test (true, m) g = g m
after_test (false, m) g = (false, m)

infixr 5 ◌and_then◌
-- `if (!f()) { return false; }` before `g`.
abbrev pub ◌and_then◌ : {p : Platform} → Test p → Test p → Test p
◌and_then◌ f g m = after_test (f m) g

-- What holds when the second test is reached, and is kept by it, holds at the end.
pub after_test-rule {ℓ} :
    {p : Platform} (P : ClientDataManager p → Type ℓ) (r : Bool × ClientDataManager p) (g : Test p)
    → P r.1
    → (P r.1 → P (g r.1).1)
    → P (after_test r g).1
after_test-rule P (true, m) g h k = k h
after_test-rule P (false, m) g h k = h

-- What follows a call that may have thrown.
abbrev pub after_call :
    {p : Platform} {A B : Type 0}
    → Option A × ClientDataManager p
    → (A → Try p B)
    → Option B × ClientDataManager p
after_call (some a, m) g = g a m
after_call (none, m) g = (none, m)

infixl 5 ◌>>=◌ ◌>>◌
abbrev pub ◌>>=◌ : {p : Platform} {A B : Type 0} → Try p A → (A → Try p B) → Try p B
◌>>=◌ f g m = after_call (f m) g

abbrev pub ◌>>◌ : {p : Platform} {A B : Type 0} → Try p A → Try p B → Try p B
f >> g = f >>= λ _. g

-- `try { …; return true; } catch (…) { return false; }`
abbrev pub returns_normally : {p : Platform} → Try p Void → Test p
returns_normally f m = let (r, m') = f m in (elim r [ none ↦ false | some _ ↦ true ], m')

-- A call of the database.
abbrev pub call : {p : Platform} {A : Type 0} → (p.database.Db → Option A × p.database.Db) → Try p A
call f m = let (r, d) = f m.db in (r, record m { db = d })
