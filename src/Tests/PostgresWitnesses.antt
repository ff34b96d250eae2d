-- ===== src/Tests/PostgresWitnesses.antt =====
-- The theorems about the database at small tables.
use mathlib.Core.List.{Permᴰ}
use stock_app.Common.{◌≡◌, ◌≢◌, refl, true, false, String, none, some, List, [], ◌∷◌, arith}
use stock_app.Common.Int.{pos}
use stock_app.Common.Equality.{username_key, id_key, ◌==◌}
use stock_app.Common.Map.{find, assign}
use stock_app.Double.{of_int}
use stock_app.Proto.{buy, sell, TradeOrder, Quote, AccountBalance}
use stock_app.Queue.{selection_queue}
use stock_app.Core.Loop.{Core}
use stock_app.Core.Cancel.{book_orders}
use stock_app.Core.Consistency.{IsConsistent}
use stock_app.Core.Persistence.{save_all_active_orders_to_db}
use stock_app.Core.PersistenceLaws.{after_saves}
use stock_app.Core.Startup.{launch}
use stock_app.ClientDataManager.State.{ClientDataManager}
use stock_app.ClientDataManager.Balances.{
  change_client_balance, change_four_balances, update_clients_balances_in_db,
  change_client_balances_according_match,
}
use stock_app.Postgres.Tables.{active_table, no_rows}
use stock_app.Postgres.Methods.{
  password_of, has_user, add_user, is_user_exists, authenticate_user, load_active_orders_from_db,
  update_actual_client_balance_in_db,
}
use stock_app.Postgres.Users.{add_user-authenticate_user}
use stock_app.Postgres.ActiveOrders.{load_active_orders_from_db-after_saves}
use stock_app.Postgres.Restart.{launch-save_all_active_orders_to_db}
use stock_app.Postgres.Mirror.{balance_in}
use stock_app.Postgres.Refinement.{IsMirrored, change_client_balances_according_match-IsMirrored}
use stock_app.Postgres.Balances.{launch-IsMirrored}
use stock_app.Tests.Fixtures.{plain, plain_host, no_tables, books, list_queue, order, empty_core}

user1_user2 : ◌≢◌ {A = String} "User1" "User2"
user1_user2 h = let e : false ≡ true = (username_key.same_iff "User1" "User2").1 h in ground arith

add_user-authenticate_user_example :
    let d = (add_user plain "User1" "secret" no_tables).1 in
    ((is_user_exists plain "User1" d).0 ≡ some true)
    × ((authenticate_user plain "User1" "secret" d).0 ≡ some true)
    × ((add_user plain "User1" "other" d).0 ≡ none)
    × (has_user "User2" d.tables.users ≡ has_user "User2" [])
    × ((authenticate_user plain "User2" "guess" d).0
        ≡ some (elim (password_of "User2" []) [ none ↦ false | some hashed ↦ "guess" == hashed ]))
unfolding add_user has_user password_of
add_user-authenticate_user_example =
    add_user-authenticate_user plain "User1" "secret" "other" "User2" "guess" no_tables user1_user2
      refl refl

abbrev two_buys : List TradeOrder
two_buys = order buy 1 1 620 10 "User1" ∷ order buy 2 2 630 20 "User2" ∷ []

sell_buy : sell ≢ buy
sell_buy h = cc

load_active_orders_from_db-after_saves_example :
    let d = after_saves plain_host two_buys no_tables in
    (read : List TradeOrder) × ((load_active_orders_from_db plain buy d).0 ≡ some read)
    × Permᴰ read two_buys
    × ((load_active_orders_from_db plain sell d).0
        ≡ (load_active_orders_from_db plain sell no_tables).0)
load_active_orders_from_db-after_saves_example =
    load_active_orders_from_db-after_saves plain list_queue (λ n. n) two_buys no_tables (λ _. refl)
      buy sell sell_buy ((refl, refl, refl), ((refl, refl, refl), tt)) refl

abbrev quote : Quote
quote = record { timestamp = pos 5; price = of_int (pos 62) }

-- A server with one order to buy, and one to start after it.
abbrev one_order : Core plain_host books
one_order =
    let o = order buy 1 1 620 10 "User1" in
    let c = empty_core plain_host no_tables in
    let m = c.manager in
    record c {
      buy_orders_book = books.buys.push o books.buys.empty;
      manager = record m { active_buy_orders = assign (pos 1) o [] };
    }

abbrev restarted : Core plain_host books
restarted = empty_core plain_host (save_all_active_orders_to_db one_order).1.manager.db

one_order-IsConsistent : IsConsistent one_order
unfolding selection_queue find assign
one_order-IsConsistent = record {
  buys_agree = record {
    all_active = ((refl, refl, omega arith, omega arith), tt);
    distinct = (tt, tt);
  };
  sells_agree = record { all_active = tt; distinct = tt };
}

launch-save_all_active_orders_to_db_example :
    (c : Core plain_host books) × ((save_all_active_orders_to_db one_order).0 ≡ some tt)
    × (launch restarted ≡ (some tt, c))
    × Permᴰ (book_orders buy c) (book_orders buy one_order)
    × Permᴰ (book_orders sell c) (book_orders sell one_order)
    × IsConsistent c
    × (active_table buy c.manager.db.tables ≡ [])
    × (active_table sell c.manager.db.tables ≡ [])
unfolding selection_queue
launch-save_all_active_orders_to_db_example =
    launch-save_all_active_orders_to_db plain list_queue (λ n. n) one_order restarted (λ _. refl)
      one_order-IsConsistent refl refl ((refl, refl), tt) tt books.buys.contents-empty
      books.sells.contents-empty refl

-- Two users with an account each.
abbrev rich : AccountBalance
rich = record { usd_balance = of_int (pos 100); rub_balance = of_int (pos 100) }

abbrev pub two_accounts : ClientDataManager plain_host
two_accounts =
    let c = empty_core plain_host (record {
      tables = record no_rows {
        users =
            record { username = "User1"; password = "secret" }
            ∷ record { username = "User2"; password = "hidden" }
            ∷ [];
        clients_balances =
            record { username = "User1"; funds = rich }
            ∷ record { username = "User2"; funds = rich }
            ∷ [];
      };
      transactions = 2;
    }) in
    let m = c.manager in record m { clients_funds_data = ("User1", rich) ∷ ("User2", rich) ∷ [] }

pub two_accounts-IsMirrored : IsMirrored plain list_queue (λ n. n) two_accounts
unfolding balance_in find password_of
two_accounts-IsMirrored = record { mirrors = λ client. refl; owned = λ client h. ground arith }

-- A server with these accounts, and one that starts on its database.
abbrev with_accounts : Core plain_host books
with_accounts = record (empty_core plain_host two_accounts.db) { manager = two_accounts }

launch-IsMirrored_example :
    let fresh = empty_core plain_host two_accounts.db in
    ((launch fresh).0 ≡ some tt)
    × ((client : String)
        → find client (launch fresh).1.manager.clients_funds_data
          ≡ find client two_accounts.clients_funds_data)
    × IsMirrored plain list_queue (λ n. n) (launch fresh).1.manager
launch-IsMirrored_example =
    launch-IsMirrored plain list_queue (λ n. n) with_accounts
      (empty_core plain_host two_accounts.db) (λ n. refl) two_accounts-IsMirrored
      ((user1_user2, tt), (tt, tt)) refl refl

change_client_balances_according_match-IsMirrored_example :
    IsMirrored plain list_queue
      (λ n. n)
      (change_client_balances_according_match "User1" "User2"
        (pos 3)
        (of_int (pos 186))
        two_accounts).1
unfolding find assign change_client_balances_according_match change_four_balances
    change_client_balance update_clients_balances_in_db update_actual_client_balance_in_db
change_client_balances_according_match-IsMirrored_example =
    change_client_balances_according_match-IsMirrored plain list_queue (λ n. n) "User1" "User2"
      (pos 3) (of_int (pos 186)) two_accounts two_accounts-IsMirrored refl
