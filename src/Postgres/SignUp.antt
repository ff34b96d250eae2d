-- ===== src/Postgres/SignUp.antt =====
-- Signing up on PostgreSQL.
use mathlib.Core.Path.{subst}
use stock_app.Common.{
  ℕ, ◌≡◌, ◌⊎◌, inl, inr, refl, sym, ◌∙◌, Bool, true, false, Option, none, some, String, arith,
  Bool-cases,
}
use stock_app.Common.Equality.{username_key, ◌==◌}
use stock_app.Common.Map.{find-assign}
use stock_app.Proto.{ClientBalance, TradeRequest, sign_up_request}
use stock_app.Platform.{Platform}
use stock_app.Queue.{ConcurrentQueue}
use stock_app.ClientDataManager.State.{ClientDataManager}
use stock_app.ClientDataManager.Balances.{create_new_client_fund_data}
use stock_app.Core.Loop.{Books}
use stock_app.Session.State.{Server}
use stock_app.Session.Commands.{handle_sign_up_command}
use stock_app.Session.SignUp.{no_money}
use stock_app.Postgres.Backend.{Backend}
use stock_app.Postgres.Tables.{Postgres}
use stock_app.Postgres.Methods.{is_user_exists, add_user}
use stock_app.Postgres.Rollback.{database-IsReadOnly}
use stock_app.Postgres.Users.{Added, add_user-Added, Added-password}
use stock_app.Postgres.ActiveOrders.{Connected, on_postgres}
use stock_app.Postgres.Mirror.{balance_in, balance_in-append}
use stock_app.Postgres.Refinement.{IsMirrored}

abbrev manager_on : {p : Platform} → p.database.Db → ClientDataManager p → ClientDataManager p
manager_on d m = record m { db = d }

module _ {p : Platform} {b : Books} where
  -- What the manager is after a sign-up: the user was there or the first call threw; the second call
  -- threw; or the user is new.
  sign_up-cases :
      (request : TradeRequest) (s : Server p b) (found : Option Bool) (d : p.database.Db)
      (added : Option (Unit {0})) (e : p.database.Db)
      → let user = sign_up_request request.data_of in
        let m' = (handle_sign_up_command request s).1.core.manager in
        p.database.is_user_exists user.username s.core.manager.db ≡ (found, d)
        → p.database.add_user user.username user.password d ≡ (added, e)
        → (m' ≡ manager_on d s.core.manager)
          ⊎ (((added ≡ none) × (m' ≡ manager_on e s.core.manager))
              ⊎ ((added ≡ some tt)
                  × (m' ≡ create_new_client_fund_data user.username (manager_on e s.core.manager))))
  unfolding handle_sign_up_command
  sign_up-cases request s none d added e h k = inl (rw (handle_sign_up_command, h) refl)
  sign_up-cases request s (some true) d added e h k = inl (rw (handle_sign_up_command, h) refl)
  sign_up-cases request s (some false) d none e h k =
      inr (inl (refl, rw (handle_sign_up_command, h, k) refl))
  sign_up-cases request s (some false) d (some _) e h k =
      inr (inr (refl, rw (handle_sign_up_command, h, k) refl))

module _ (be : Backend) (queue : ConcurrentQueue) (clock : ℕ → ℕ) where
  -- Only the tables count.
  pub same_tables :
      (m : ClientDataManager (on_postgres be queue clock)) (d : Postgres)
      → d.tables ≡ m.db.tables
      → IsMirrored be queue clock m
      → IsMirrored be queue clock (record m { db = d })
  same_tables m d e i = record { mirrors = λ c. rw e (i.mirrors c); owned = λ c. rw e (i.owned c) }

  Added-IsMirrored :
      (username password : String) (m : ClientDataManager (on_postgres be queue clock))
      (d : Postgres)
      → Added be username password m.db d
      → IsMirrored be queue clock m
      → IsMirrored be queue clock (create_new_client_fund_data username (record m { db = d }))
  unfolding create_new_client_fund_data
  Added-IsMirrored username password m d a i =
      let rows = m.db.tables.clients_balances in
      let row : ClientBalance = record { username = username; funds = no_money } in
      let no_row = i.owned username a.was_unknown in
      record {
        mirrors = λ c.
            rw
              (
                a.balances_now,
                balance_in-append row c rows,
                find-assign username c no_money m.clients_funds_data,
              )
              (elim (Bool-cases (username == c)) [
                | inl e ↦
                    let no_row_c : balance_in c rows ≡ none =
                      subst (λ u. balance_in u rows ≡ none) ((username_key.same_iff username c).0 e)
                        no_row in
                    rw (no_row_c, e) refl
                | inr e ↦ ground (arith, i.mirrors c)
              ]);
        owned = λ c h.
            rw (a.balances_now, balance_in-append row c rows)
              (ground (arith, Added-password be username password c m.db d a, i.owned c));
      }

  -- While the connection holds, an insert that the tables refuse leaves them as they were.
  refused_tables :
      (username password : String) (d : Postgres)
      → Connected be
      → (add_user be username password d).0 ≡ none
      → (add_user be username password d).1.tables ≡ d.tables
  unfolding add_user
  refused_tables username password d steady e = ground (arith, steady d.transactions)

  -- If the connection holds, and the table clients_balances has for every client the balance that the memory has, and rows of
  -- users only, then both hold again after a sign-up, be the name new or taken, and whether or not it
  -- can be stored.
  pub handle_sign_up_command-IsMirrored :
      {b : Books} (request : TradeRequest) (s : Server (on_postgres be queue clock) b)
      → Connected be
      → IsMirrored be queue clock s.core.manager
      → IsMirrored be queue clock (handle_sign_up_command request s).1.core.manager
  handle_sign_up_command-IsMirrored request s steady i =
      let user = sign_up_request request.data_of in
      let m = s.core.manager in
      let asked = is_user_exists be user.username m.db in
      let added = add_user be user.username user.password asked.1 in
      let read = (database-IsReadOnly be).0 user.username m.db in
      let j = same_tables m asked.1 read i in
      elim (sign_up-cases request s asked.0 asked.1 added.0 added.1 refl refl) [
        | inl e ↦ subst (IsMirrored be queue clock) (sym e) j
        | inr (inl (failed, e)) ↦
            let same = refused_tables user.username user.password asked.1 steady failed in
            subst (IsMirrored be queue clock) (sym e) (same_tables m added.1 (same ∙ read) i)
        | inr (inr (done, e)) ↦ subst (IsMirrored be queue clock) (sym e) (
            Added-IsMirrored user.username user.password (manager_on asked.1 m) added.1
              (add_user-Added be user.username user.password asked.1 done) j)
      ]
