-- ===== src/Boot.antt =====
-- The start of the server process: main of server/main.cpp up to io_context.run(), the constructor of
-- `Server` (server/server.cpp), and init_database and init_auth of server/session_manager.cpp. Whether
-- PostgreSQL lets a `Database` be made with a configuration is a parameter.
use mathlib.Core.List.{Permᴰ}
use mathlib.Core.List.Permᴰ
use stock_app.Common.{
  ℕ, ◌≡◌, refl, ap, true, false, Option, none, some, String, List, [], ◌∷◌, ◌⊎◌, inl, inr, All,
  All-map, All-perm,
}
use stock_app.Common.Equality.{username_key}
use stock_app.Common.Map.{assign, find-assign_self}
use stock_app.Proto.{buy, sell, TradeOrder, ClientBalance}
use stock_app.Database.{Void}
use stock_app.Platform.{Platform}
use stock_app.Config.{PropertyTree, Config, read_config, listening_port}
use stock_app.ClientDataManager.Startup.{assign_funds}
use stock_app.ClientDataManager.Conservation.{Funds, Known, Known-assign}
use stock_app.Core.Loop.{Books, Core}
use stock_app.Core.Cancel.{book_orders}
use stock_app.Core.Passes.{Sound}
use stock_app.Core.Persistence.{with_db}
use stock_app.Session.Keeping.{db-Kept}
use stock_app.Core.Startup.{
  Stored, Rows, launch, launch-start, started, start_run, started-IsConsistent,
}
use stock_app.ClientDataManager.Waiting.{at_test}
use stock_app.Session.State.{Server}
use stock_app.Session.Identity.{OneSessionEachIn}

-- How the start ends: an exception reaches the `catch` of main and the process quits, a null pointer is
-- used, or the server listens on a port.
pub data Outcome (p : Platform) (b : Books) : Type 0 where
  quits crashes : Outcome p b
  listens : ℕ → Server p b → Outcome p b

module _ {p : Platform} {b : Books} where
  -- The constructors of `Core` and `ClientDataManager`.
  abbrev pub new_core : p.database.Db → Core p b
  new_core d = record {
    buy_orders_book = b.buys.empty;
    sell_orders_book = b.sells.empty;
    manager = record {
      clients_funds_data = [];
      active_buy_orders = [];
      active_sell_orders = [];
      completed_orders = [];
      quote_history = [];
      buy_orders_queue = p.concurrent_queue.empty;
      sell_orders_queue = p.concurrent_queue.empty;
      db = d;
      reads = 0;
    };
  }

  -- The constructor of `SessionManager`, with the core and the key that it gets.
  abbrev pub new_server : String → Core p b → Server p b
  new_server jwt_secret_key c = record {
    core = c;
    clients_sessions = [];
    stop_new_sessions = false;
    is_running = true;
    secret_key = jwt_secret_key;
    client_username = λ _. "";
    ids = 0;
    waiter = at_test;
    written = [];
    closed = [];
  }

  abbrev after_launch : Config → Option Void × Core p b → Outcome p b
  after_launch config (none, c) = quits
  after_launch config (some _, c) =
      listens (listening_port config) (new_server config.jwt_secret_key c)

  -- main and the two init functions read the same file. When `connect` is none the constructor of
  -- `Database` throws; that is caught, and database_ stays null until init_core uses it. The endpoint is
  -- taken to be free.
  unfoldable pub boot : PropertyTree → (Config → Option p.database.Db) → Outcome p b
  boot boost connect = elim (read_config boost "server_config.ini") [
    | none ↦ quits
    | some config ↦ elim (connect config) [
      | none ↦ crashes
      | some d ↦ after_launch config (launch (new_core d))
    ]
  ]

-- The client has a row in the table of balances.
abbrev pub HasRow : String → List ClientBalance → Type 0
HasRow client [] = ⊥
HasRow client (row ∷ rows) = (row.username ≡ client) ⊎ HasRow client rows

assign_funds-keeps :
    (rows : List ClientBalance) (client : String) (funds : Funds)
    → Known funds client
    → Known (assign_funds rows funds) client
unfolding assign_funds
assign_funds-keeps [] client funds k = k
assign_funds-keeps (row ∷ rows) client funds k =
    assign_funds-keeps rows client (assign row.username row.funds funds)
      (Known-assign row.username client row.funds funds k)

-- Who has a row has an account after the load.
HasRow-Known :
    (rows : List ClientBalance) (client : String) (funds : Funds)
    → HasRow client rows
    → Known (assign_funds rows funds) client
unfolding assign_funds
HasRow-Known [] client funds h = elim h [ ]
HasRow-Known (row ∷ rows) client funds (inl e) =
    assign_funds-keeps rows client (assign row.username row.funds funds)
      (row.funds, rw (← e) (find-assign_self row.username row.funds funds))
HasRow-Known (row ∷ rows) client funds (inr h) =
    HasRow-Known rows client (assign row.username row.funds funds) h

module _ {p : Platform} {b : Books} where
  -- A core that has been started with nothing waiting is sound.
  started-Sound :
      (os ss : List TradeOrder) (d : p.database.Db) (st : Stored p d os ss)
      → Rows buy os
      → Rows sell ss
      → All (λ o. HasRow o.username st.balances) os
      → All (λ o. HasRow o.username st.balances) ss
      → Permᴰ (book_orders buy (started os ss (new_core {b = b} d) st)) os
        × Permᴰ (book_orders sell (started os ss (new_core {b = b} d) st)) ss
        × Sound (started os ss (new_core {b = b} d) st)
  started-Sound os ss d st rb rs kb ks =
      let (perm_b, perm_s, agree) =
        started-IsConsistent os ss (new_core {b = b} d) st rb rs b.buys.contents-empty
          b.sells.contents-empty in
      let known : (o : TradeOrder)
          → HasRow o.username st.balances
          → Known (assign_funds st.balances []) o.username =
        λ o h. HasRow-Known st.balances o.username [] h in
      let nothing = p.concurrent_queue.contents-empty in
      (
        perm_b,
        perm_s,
        record {
          buys_ready = record {
            all_active = rw nothing agree.buys_agree.all_active;
            distinct = rw nothing agree.buys_agree.distinct;
          };
          sells_ready = record {
            all_active = rw nothing agree.sells_agree.all_active;
            distinct = rw nothing agree.sells_agree.distinct;
          };
          buyers_known = rw nothing (All-perm _ (Permᴰ.symm perm_b) (All-map _ _ known os kb));
          sellers_known = rw nothing (All-perm _ (Permᴰ.symm perm_s) (All-map _ _ known ss ks));
        },
      )

  -- If the configuration can be read and the database opened, both of its tables of active orders have
  -- rows of their type with distinct ids and positive amounts that fit an int32, every owner of one has
  -- a row in the table of balances, and nothing throws: the process listens on the configured port,
  -- with no session and told to run; the books hold the rows; and the state is one from which
  -- the server's steps keep the books sound and a user's session unique.
  pub boot-Sound :
      (boost : PropertyTree) (connect : Config → Option p.database.Db) (config : Config)
      (d : p.database.Db) (os ss : List TradeOrder) (st : Stored p d os ss)
      → read_config boost "server_config.ini" ≡ some config
      → connect config ≡ some d
      → Rows buy os
      → Rows sell ss
      → All (λ o. HasRow o.username st.balances) os
      → All (λ o. HasRow o.username st.balances) ss
      → (s : Server p b) × (boot boost connect ≡ listens (listening_port config) s)
        × (s.clients_sessions ≡ [])
        × (s.is_running ≡ true)
        × Permᴰ (book_orders buy s.core) os
        × Permᴰ (book_orders sell s.core) ss
        × Sound s.core
        × OneSessionEachIn s
  unfolding boot
  boot-Sound boost connect config d os ss st reads opens rb rs kb ks =
      let (perm_b, perm_s, sound) = started-Sound os ss d st rb rs kb ks in
      let c = started os ss (new_core {b = b} d) st in
      let run = launch-start (new_core {b = b} d) c (start_run os ss (new_core {b = b} d) st) in
      let d' = (p.database.truncate_active_orders_table c.manager.db).1 in
      (
        new_server config.jwt_secret_key (with_db d' c),
        rw (boot, reads, opens) (ap (after_launch config) run),
        refl,
        refl,
        perm_b,
        perm_s,
        (db-Kept c d' sound).0,
        tt,
      )
