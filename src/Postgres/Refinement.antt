-- ===== src/Postgres/Refinement.antt =====
-- The balances on PostgreSQL: the table has what the memory has, after every match and sign-up.
use mathlib.Core.Path.{subst}
use stock_app.Common.{
  ℕ, ◌≡◌, inl, inr, refl, sym, ◌∙◌, Bool, true, false, none, some, String, arith, Option-cases,
}
use stock_app.Common.Int.{ℤ}
use stock_app.Common.Equality.{username_key}
use stock_app.Common.Map.{find}
use stock_app.Double.{Double}
use stock_app.Proto.{AccountBalance}
use stock_app.Platform.{Platform}
use stock_app.Queue.{ConcurrentQueue}
use stock_app.ClientDataManager.State.{ClientDataManager, Test, after_test}
use stock_app.ClientDataManager.Balances.{
  change_four_balances, update_clients_balances_in_db, change_client_balances_according_match,
}
use stock_app.Postgres.Backend.{Backend}
use stock_app.Postgres.Methods.{update_actual_client_balance_in_db}
use stock_app.Postgres.ActiveOrders.{on_postgres}
use stock_app.Postgres.Methods.{password_of}
use stock_app.Postgres.Mirror.{
  balance_in, Changed, change_four-Changed, both_saved, both_saved-mirrors, balance_in-update_none,
}

-- A test that succeeds has gone through both parts.
after_test-true :
    {p : Platform} (r : Bool × ClientDataManager p) (g : Test p)
    → (after_test r g).0 ≡ true
    → ((g r.1).0 ≡ true) × (after_test r g ≡ g r.1)
after_test-true (true, m) g h = (h, refl)
after_test-true (false, m) g h = absurd cc

module _ (be : Backend) (queue : ConcurrentQueue) (clock : ℕ → ℕ) where
  -- The table has for every client the balance that the memory has, and no other.
  abbrev pub Mirrors : ClientDataManager (on_postgres be queue clock) → Type 0
  Mirrors m =
      (client : String)
      → balance_in client m.db.tables.clients_balances ≡ find client m.clients_funds_data

  record Updated (s b : String) (m m' : ClientDataManager (on_postgres be queue clock))
      : Type 0 where
    sells : AccountBalance
    buys : AccountBalance
    sells_there : find s m.clients_funds_data ≡ some sells
    buys_there : find b m.clients_funds_data ≡ some buys
    same_users : m'.db.tables.users ≡ m.db.tables.users
    same_funds : m'.clients_funds_data ≡ m.clients_funds_data
    rows_now :
        m'.db.tables.clients_balances ≡ both_saved s b sells buys m.db.tables.clients_balances

  update-Updated :
      (s b : String) (m : ClientDataManager (on_postgres be queue clock))
      → (update_clients_balances_in_db s b m).0 ≡ true
      → Updated s b m (update_clients_balances_in_db s b m).1
  unfolding update_clients_balances_in_db update_actual_client_balance_in_db
  update-Updated s b m h = elim (Option-cases (find s m.clients_funds_data)) [
    | inl es ↦ absurd (ground arith)
    | inr (x, es) ↦ elim (Option-cases (find b m.clients_funds_data)) [
      | inl eb ↦ absurd (ground arith)
      | inr (y, eb) ↦ record {
        sells = x;
        buys = y;
        sells_there = es;
        buys_there = eb;
        same_users = ground arith;
        same_funds = ground arith;
        rows_now = ground arith;
      }
    ]
  ]

  -- A client with a balance now had a row before.
  had_row :
      (s b c : String) (m m1 : ClientDataManager (on_postgres be queue clock)) {a : AccountBalance}
      → Mirrors m
      → Changed s b m m1
      → find c m1.clients_funds_data ≡ some a
      → (v : AccountBalance) × (balance_in c m.db.tables.clients_balances ≡ some v)
  had_row s b c m m1 mirror k e = elim (Option-cases (find c m.clients_funds_data)) [
    | inl h ↦ absurd (ground (arith, e, k.was_known c h))
    | inr (v, h) ↦ (v, mirror c ∙ h)
  ]

  saved-Mirrors :
      (s b : String) (m m1 m2 : ClientDataManager (on_postgres be queue clock))
      → Mirrors m
      → Changed s b m m1
      → Updated s b m1 m2
      → Mirrors m2
  saved-Mirrors s b m m1 m2 mirror k u c =
      let rows = m.db.tables.clients_balances in
      let (_, rs) = had_row s b s m m1 mirror k u.sells_there in
      let (_, rb) = had_row s b b m m1 mirror k u.buys_there in
      rw (u.rows_now, u.same_funds, k.same_db)
        (both_saved-mirrors s b u.sells u.buys rows m1.clients_funds_data c rs rb u.sells_there
          u.buys_there (λ ns nb. k.others_same c ns nb ∙ sym (mirror c)))

  -- The table mirrors the memory, and who has a balance is a user.
  pub record IsMirrored (m : ClientDataManager (on_postgres be queue clock)) : Type 0 where
    pub mirrors : Mirrors m
    pub owned :
        (client : String)
        → password_of client m.db.tables.users ≡ none
        → balance_in client m.db.tables.clients_balances ≡ none

  -- If the table clients_balances has for every client the balance that the memory has, and rows of
  -- users only, and a match between two clients goes through, the table has again for every client,
  -- those two included, the balance that the memory has, and rows of users only.
  pub change_client_balances_according_match-IsMirrored :
      (s b : String) (amount : ℤ) (cost : Double)
      (m : ClientDataManager (on_postgres be queue clock))
      → IsMirrored m
      → (change_client_balances_according_match s b amount cost m).0 ≡ true
      → IsMirrored (change_client_balances_according_match s b amount cost m).1
  unfolding change_client_balances_according_match
  change_client_balances_according_match-IsMirrored s b amount cost m i done =
      let m1 = (change_four_balances s b amount cost m).1 in
      let k = change_four-Changed s b m amount cost in
      let (second, same) =
        after_test-true (change_four_balances s b amount cost m) (update_clients_balances_in_db s b)
          done in
      let u = update-Updated s b m1 second in
      subst (λ r. IsMirrored r.1) (sym same)
        (record {
          mirrors = saved-Mirrors s b m m1 _ i.mirrors k u;
          owned = λ c e.
              let before = i.owned c (
                subst (λ d. password_of c d.tables.users ≡ none) k.same_db
                  (subst (λ us. password_of c us ≡ none) u.same_users e)) in
              rw (u.rows_now, k.same_db)
                (balance_in-update_none _ c _ (balance_in-update_none _ c _ before));
        })
