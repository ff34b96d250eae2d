-- ===== src/Postgres/Restart.antt =====
-- A server that stops and starts again on the same database.
use mathlib.Core.List.{Permᴰ, reverse}
use mathlib.Core.List.Permᴰ
use stock_app.Common.{
  ℕ, zero, suc, ◌≡◌, refl, ◌∙◌, ap, true, some, List, [], map, All, All-perm, All-map, All-map₂,
}
use stock_app.Common.Int.{ℤ}
use stock_app.Common.Map.{Map}
use stock_app.Proto.{TradeType, buy, sell, TradeOrder}
use stock_app.Queue.{ConcurrentQueue}
use stock_app.Core.Loop.{Books, Core}
use stock_app.Core.Cancel.{book_orders}
use stock_app.Core.Consistency.{IsActive, Distinct, Distinct-perm, IsConsistent}
use stock_app.Core.Persistence.{with_db, save_all_active_orders_to_db}
use stock_app.Core.PersistenceLaws.{after_saves, save_those}
use stock_app.Core.Startup.{Stored, Rows, launch, launch-start, start-IsConsistent}
use stock_app.ClientDataManager.Startup.{amount_last_completed_orders, amount_quote_history}
use stock_app.Postgres.Backend.{Backend}
use stock_app.Postgres.Tables.{active_table, Postgres, next_transaction}
use stock_app.Postgres.Methods.{
  take, active_row, active_order, completed_order, stored_quote, truncate_active_orders_table,
  load_clients_balances_from_db, load_last_completed_orders, load_quote_history,
}
use stock_app.Postgres.ActiveOrders.{
  on_postgres, Connected, IsStorable, save_run, load_run, saves_tables, loaded, loaded-perm,
}

-- The database after a number of calls that read.
abbrev later : ℕ → Postgres → Postgres
later zero d = d
later (suc n) d = next_transaction (later n d)

module _ (be : Backend) (queue : ConcurrentQueue) (clock : ℕ → ℕ) where
  -- What a load of one type returns.
  abbrev pub rows_of : TradeType → Postgres → List TradeOrder
  rows_of t d = map (active_order be t) (be.scan_active (active_table t d.tables))

  -- What the start reads.
  unfoldable pub stored :
      (d : Postgres)
      → Connected be
      → Stored (on_postgres be queue clock) d (rows_of buy d) (rows_of sell d)
  unfolding load_clients_balances_from_db load_last_completed_orders load_quote_history
  stored d up = record {
    balances = be.scan_balances d.tables.clients_balances;
    completed =
        map (completed_order be)
          (take amount_last_completed_orders (reverse d.tables.completed_orders));
    quotes = map (stored_quote be) (take amount_quote_history (reverse d.tables.quote_history));
    d1 = later 1 d;
    d2 = later 2 d;
    d3 = later 3 d;
    d4 = later 4 d;
    d5 = later 5 d;
    d6 = later 6 d;
    d7 = later 7 d;
    buys_there = load_run be buy (later 0 d) up;
    sells_there = load_run be sell (later 1 d) up;
    balances_there = rw (load_clients_balances_from_db, up (later 2 d).transactions) refl;
    buys_again = load_run be buy (later 3 d) up;
    sells_again = load_run be sell (later 4 d) up;
    completed_there = rw (load_last_completed_orders, up (later 5 d).transactions) refl;
    quotes_there = rw (load_quote_history, up (later 6 d).transactions) refl;
  }

  stored_orders :
      (os ss : List TradeOrder) (d : Postgres)
      → Connected be
      → active_table buy d.tables ≡ map active_row os
      → active_table sell d.tables ≡ map active_row ss
      → Stored (on_postgres be queue clock) d (loaded be buy os) (loaded be sell ss)
  stored_orders os ss d up eb es = rw (← eb, ← es) (stored d up)

  -- The orders of a book that agrees with its map, as rows.
  storable-Rows :
      (t : TradeType) (active : Map ℤ TradeOrder) (os xs : List TradeOrder)
      → Permᴰ xs os
      → All (IsActive active t) os
      → Distinct os
      → Rows t xs
  storable-Rows t active os xs perm h distinct = record {
    of_type =
        All-perm _ (Permᴰ.symm perm) (All-map (IsActive active t) _ (λ o k. (k.0, k.2, k.3)) os h);
    distinct = Distinct-perm (Permᴰ.symm perm) distinct;
  }

  -- The username can be stored, and the time comes back.
  abbrev pub FitsTable : TradeOrder → Type 0
  FitsTable o = (be.fits o.username ≡ true) × (be.read_millis o.timestamp ≡ o.timestamp)

  IsActive-IsStorable :
      (t : TradeType) (active : Map ℤ TradeOrder) (os xs : List TradeOrder)
      → Permᴰ xs os
      → All (IsActive active t) os
      → All FitsTable os
      → All (IsStorable be t) xs
  IsActive-IsStorable t active os xs perm h k =
      All-perm _ (Permᴰ.symm perm)
        (All-map₂ (IsActive active t) FitsTable (IsStorable be t) (λ o i j. (i.0, j.0, j.1)) os h k)

  -- Both tables after the orders of both books have been saved.
  saved_rows :
      (os ss : List TradeOrder) (d : Postgres)
      → Connected be
      → All (IsStorable be buy) os
      → All (IsStorable be sell) ss
      → active_table buy d.tables ≡ []
      → active_table sell d.tables ≡ []
      → let p = on_postgres be queue clock in
        let t = (after_saves p ss (after_saves p os d)).tables in
        (active_table buy t ≡ map active_row os) × (active_table sell t ≡ map active_row ss)
  saved_rows os ss d up ho hs eb es =
      let d' = after_saves (on_postgres be queue clock) os d in
      let now = saves_tables be queue clock sell ss d' up hs in
      let before = saves_tables be queue clock buy os d up ho in
      (rw (now, before, eb) refl, rw (now, before, es) refl)

  truncated :
      (d : Postgres)
      → Connected be
      → let t = (truncate_active_orders_table be d).1.tables in
        (active_table buy t ≡ []) × (active_table sell t ≡ [])
  unfolding truncate_active_orders_table
  truncated d up =
      let h = up d.transactions in
      (rw (truncate_active_orders_table, h) refl, rw (truncate_active_orders_table, h) refl)

  -- A server whose books agree with its active orders, whose database has no active orders, and whose
  -- connection holds, stops and saves its books, if the usernames fit a VARCHAR(255) and the times are
  -- ones that a TIMESTAMP keeps. A server that is launched with empty books on the database that this
  -- leaves holds the same orders, with all their fields, its books agree with its active orders, and
  -- its database has no active orders again.
  pub launch-save_all_active_orders_to_db :
      {b : Books} (c fresh : Core (on_postgres be queue clock) b)
      → Connected be
      → IsConsistent c
      → active_table buy c.manager.db.tables ≡ []
      → active_table sell c.manager.db.tables ≡ []
      → All FitsTable (book_orders buy c)
      → All FitsTable (book_orders sell c)
      → book_orders buy fresh ≡ []
      → book_orders sell fresh ≡ []
      → fresh.manager.db ≡ (save_all_active_orders_to_db c).1.manager.db
      → (c' : Core (on_postgres be queue clock) b) × ((save_all_active_orders_to_db c).0 ≡ some tt)
        × (launch fresh ≡ (some tt, c'))
        × Permᴰ (book_orders buy c') (book_orders buy c)
        × Permᴰ (book_orders sell c') (book_orders sell c)
        × IsConsistent c'
        × (active_table buy c'.manager.db.tables ≡ [])
        × (active_table sell c'.manager.db.tables ≡ [])
  launch-save_all_active_orders_to_db c fresh up k eb es fb fs nb ns same =
      let (c1, os, ss, run, _, _, po, ps, db) =
        save_those FitsTable c (λ o d h. ap (λ r. r.0) (save_run be o.type o d up (refl, h.0, h.1)))
          fb fs in
      let buys = k.buys_agree in
      let sells = k.sells_agree in
      let ho = IsActive-IsStorable buy c.manager.active_buy_orders _ os po buys.all_active fb in
      let hs = IsActive-IsStorable sell c.manager.active_sell_orders _ ss ps sells.all_active fs in
      let (rows_b, rows_s) = saved_rows os ss c.manager.db up ho hs eb es in
      let now = same ∙ ap (λ r. r.1.manager.db) run ∙ db in
      let lo = loaded-perm be buy os ho in
      let ls = loaded-perm be sell ss hs in
      let (c', started, qb, qs, consistent) =
        start-IsConsistent fresh (loaded be buy os) (loaded be sell ss)
          (stored_orders os ss fresh.manager.db up (rw now rows_b) (rw now rows_s))
          (storable-Rows buy c.manager.active_buy_orders _ _ (Permᴰ.trans lo po) buys.all_active
            buys.distinct)
          (storable-Rows sell c.manager.active_sell_orders _ _ (Permᴰ.trans ls ps) sells.all_active
            sells.distinct)
          nb ns in
      let (none_b, none_s) = truncated c'.manager.db up in
      (
        with_db (truncate_active_orders_table be c'.manager.db).1 c',
        ap (λ r. r.0) run,
        launch-start fresh c' started,
        Permᴰ.trans qb (Permᴰ.trans lo po),
        Permᴰ.trans qs (Permᴰ.trans ls ps),
        record { buys_agree = consistent.buys_agree; sells_agree = consistent.sells_agree },
        none_b,
        none_s,
      )
