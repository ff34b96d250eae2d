-- ===== src/Core/Startup.antt =====
-- init_core and init_client_data_manager of server/session_manager.cpp, and the state that the server
-- starts from.
use mathlib.Core.List.{Permᴰ}
use mathlib.Core.List.Permᴰ
use mathlib.Core.List.{append-nil}
use mathlib.Core.Path.{subst}
use stock_app.Common.{
  ◌≡◌, ◌≢◌, refl, sym, ◌∙◌, ap, Option, none, some, List, [], ◌∷◌, ◌++◌, ◌^◌, All, All-map₂,
  All-perm,
}
use stock_app.Common.Int.{ℤ, pos, ◌<ℤ◌}
use stock_app.Common.Equality.{id_key}
use stock_app.Common.Map.{Map, find, assign, find-assign_self, find-assign_ne}
use stock_app.Proto.{TradeType, buy, sell, TradeOrder, ClientBalance, Quote}
use stock_app.Database.{Void}
use stock_app.Platform.{Platform}
use stock_app.ClientDataManager.State.{ClientDataManager}
use stock_app.ClientDataManager.Startup.{
  assign_funds, assign_orders, initialize_from_database, amount_last_completed_orders,
  amount_quote_history,
}
use stock_app.Core.Loop.{Books, Core}
use stock_app.Core.Cancel.{book_orders}
use stock_app.Core.Consistency.{IsActive, Distinct, Distinct-perm, IsConsistent}
use stock_app.Core.Persistence.{with_db, load_all_active_orders_from_db, push_all}
use stock_app.Core.PersistenceLaws.{contents-push_all}

-- A later assignment of another id changes nothing.
find-assign_orders_other :
    (os : List TradeOrder) (id : ℤ) (m : Map ℤ TradeOrder)
    → All (λ y. id ≢ y.order_id) os
    → find id (assign_orders os m) ≡ find id m
unfolding assign_orders
find-assign_orders_other [] id m h = refl
find-assign_orders_other (o ∷ os) id m h =
    find-assign_orders_other os id (assign o.order_id o m) h.1
    ∙ find-assign_ne o.order_id id o m (λ e. h.0 (sym e))

-- With distinct ids, every order is found as it was given.
find-assign_orders :
    (os : List TradeOrder) (m : Map ℤ TradeOrder)
    → Distinct os
    → All (λ o. find o.order_id (assign_orders os m) ≡ some o) os
unfolding assign_orders
find-assign_orders [] m h = tt
find-assign_orders (o ∷ os) m h = (
  find-assign_orders_other os o.order_id (assign o.order_id o m) h.0
      ∙ find-assign_self o.order_id o m,
  find-assign_orders os (assign o.order_id o m) h.1,
)

-- The rows of a table of active orders.
pub record Rows (t : TradeType) (os : List TradeOrder) : Type 0 where
  pub of_type :
      All (λ o. (o.type ≡ t) × (pos 0 <ℤ o.usd_amount) × (o.usd_amount <ℤ pos (2 ^ 31))) os
  pub distinct : Distinct os

Rows-IsActive :
    (t : TradeType) (os : List TradeOrder) (m : Map ℤ TradeOrder)
    → Rows t os
    → All (IsActive (assign_orders os m) t) os
Rows-IsActive t os m r =
    All-map₂ _ _ (IsActive (assign_orders os m) t) (λ o h e. (h.0, e, h.1, h.2)) os r.of_type
      (find-assign_orders os m r.distinct)

-- What the seven calls of the start return, one after the other, when none throws: both tables are read
-- twice, with the same orders.
pub record Stored (p : Platform) (d : p.database.Db) (os ss : List TradeOrder) : Type 0 where
  pub balances : List ClientBalance
  pub completed : List TradeOrder
  pub quotes : List Quote
  pub d1 : p.database.Db
  pub d2 : p.database.Db
  pub d3 : p.database.Db
  pub d4 : p.database.Db
  pub d5 : p.database.Db
  pub d6 : p.database.Db
  pub d7 : p.database.Db
  pub buys_there : p.database.load_active_orders_from_db buy d ≡ (some os, d1)
  pub sells_there : p.database.load_active_orders_from_db sell d1 ≡ (some ss, d2)
  pub balances_there : p.database.load_clients_balances_from_db d2 ≡ (some balances, d3)
  pub buys_again : p.database.load_active_orders_from_db buy d3 ≡ (some os, d4)
  pub sells_again : p.database.load_active_orders_from_db sell d4 ≡ (some ss, d5)
  pub completed_there :
      p.database.load_last_completed_orders amount_last_completed_orders d5 ≡ (some completed, d6)
  pub quotes_there : p.database.load_quote_history amount_quote_history d6 ≡ (some quotes, d7)

empty_book :
    {l : List TradeOrder} (os : List TradeOrder) {k : List TradeOrder}
    → Permᴰ l (os ++ k)
    → k ≡ []
    → Permᴰ l os
empty_book {l} os perm e =
    subst (λ x. Permᴰ l x) (append-nil os) (subst (λ x. Permᴰ l (os ++ x)) e perm)

module _ {p : Platform} where
  -- The manager after init_client_data_manager.
  abbrev pub filled_manager :
      (os ss : List TradeOrder) (m : ClientDataManager p)
      → Stored p m.db os ss
      → ClientDataManager p
  filled_manager os ss m st = record m {
    clients_funds_data = assign_funds st.balances m.clients_funds_data;
    active_buy_orders = assign_orders os m.active_buy_orders;
    active_sell_orders = assign_orders ss m.active_sell_orders;
    completed_orders = m.completed_orders ++ st.completed;
    quote_history = m.quote_history ++ st.quotes;
    db = st.d7;
  }

  initialize_run :
      (os ss : List TradeOrder) (m : ClientDataManager p) (st : Stored p m.db os ss)
      → initialize_from_database (record m { db = st.d2 }) ≡ (some tt, filled_manager os ss m st)
  unfolding initialize_from_database
  initialize_run os ss m st =
      rw
        (
          initialize_from_database, st.balances_there, st.buys_again, st.sells_again,
          st.completed_there, st.quotes_there,
        )
        refl

module _ {p : Platform} {b : Books} where
  -- init_core, then init_client_data_manager. What either throws ends the start.
  unfoldable pub start : Core p b → Option Void × Core p b
  start c =
      let (done, c') = load_all_active_orders_from_db c in
      elim done [
        | none ↦ (none, c')
        | some _ ↦
            let (done', m) = initialize_from_database c'.manager in
            (done', record c' { manager = m })
      ]

  -- What is done after the loads, unless one has thrown.
  abbrev after_start : Option Void × Core p b → Option Void × Core p b
  after_start (none, c) = (none, c)
  after_start (some _, c) =
      (some tt, with_db (p.database.truncate_active_orders_table c.manager.db).1 c)

  -- The constructor of `Server`, which starts the threads after this: the orders that have been loaded
  -- are removed from the database, and an exception of that is caught.
  unfoldable pub launch : Core p b → Option Void × Core p b
  launch c = after_start (start c)

  pub launch-start :
      (c c' : Core p b)
      → start c ≡ (some tt, c')
      → launch c ≡ (some tt, with_db (p.database.truncate_active_orders_table c'.manager.db).1 c')
  unfolding launch
  launch-start c c' e = ap after_start e

  -- The core after init_core.
  abbrev pub filled_books :
      (os ss : List TradeOrder) (c : Core p b) → Stored p c.manager.db os ss → Core p b
  filled_books os ss c st =
      let m = c.manager in
      record c {
        buy_orders_book = push_all b.buys os c.buy_orders_book;
        sell_orders_book = push_all b.sells ss c.sell_orders_book;
        manager = record m { db = st.d2 };
      }

  load_run :
      (c : Core p b) (os ss : List TradeOrder) (st : Stored p c.manager.db os ss)
      → load_all_active_orders_from_db c ≡ (some tt, filled_books os ss c st)
  unfolding load_all_active_orders_from_db
  load_run c os ss st =
      let h = st.buys_there in
      let k = st.sells_there in rw (load_all_active_orders_from_db, h, h, k, h, k) refl

  -- The core after the start.
  abbrev pub started :
      (os ss : List TradeOrder) (c : Core p b) → Stored p c.manager.db os ss → Core p b
  started os ss c st = record (filled_books os ss c st) {
    manager = filled_manager os ss c.manager st;
  }

  pub start_run :
      (os ss : List TradeOrder) (c : Core p b) (st : Stored p c.manager.db os ss)
      → start c ≡ (some tt, started os ss c st)
  unfolding start
  start_run os ss c st =
      rw (start, load_run c os ss st, load_run c os ss st, initialize_run os ss c.manager st) refl

  pub started-IsConsistent :
      (os ss : List TradeOrder) (c : Core p b) (st : Stored p c.manager.db os ss)
      → Rows buy os
      → Rows sell ss
      → book_orders buy c ≡ []
      → book_orders sell c ≡ []
      → Permᴰ (book_orders buy (started os ss c st)) os
        × Permᴰ (book_orders sell (started os ss c st)) ss
        × IsConsistent (started os ss c st)
  started-IsConsistent os ss c st rb rs eb es =
      let m = c.manager in
      let perm_b = empty_book os (contents-push_all b.buys os c.buy_orders_book) eb in
      let perm_s = empty_book ss (contents-push_all b.sells ss c.sell_orders_book) es in
      (
        perm_b,
        perm_s,
        record {
          buys_agree = record {
            all_active =
                All-perm _ (Permᴰ.symm perm_b) (Rows-IsActive buy os m.active_buy_orders rb);
            distinct = Distinct-perm (Permᴰ.symm perm_b) rb.distinct;
          };
          sells_agree = record {
            all_active =
                All-perm _ (Permᴰ.symm perm_s) (Rows-IsActive sell ss m.active_sell_orders rs);
            distinct = Distinct-perm (Permᴰ.symm perm_s) rs.distinct;
          };
        },
      )

  -- If both tables of active orders have rows of their type with distinct ids and positive amounts
  -- that fit an int32, and nothing throws, a server with empty books starts: the books hold the rows,
  -- and agree with the active orders.
  pub start-IsConsistent :
      (c : Core p b) (os ss : List TradeOrder)
      → Stored p c.manager.db os ss
      → Rows buy os
      → Rows sell ss
      → book_orders buy c ≡ []
      → book_orders sell c ≡ []
      → (c' : Core p b) × (start c ≡ (some tt, c'))
        × Permᴰ (book_orders buy c') os
        × Permᴰ (book_orders sell c') ss
        × IsConsistent c'
  start-IsConsistent c os ss st rb rs eb es =
      let (perm_b, perm_s, consistent) = started-IsConsistent os ss c st rb rs eb es in
      (started os ss c st, start_run os ss c st, perm_b, perm_s, consistent)
