-- ===== src/Postgres/ActiveOrders.antt =====
-- The active orders: what was saved is loaded.
use mathlib.Core.List.{Permᴰ}
use mathlib.Core.Path.{subst}
use mathlib.Core.List.{append-nil, append_assoc}
use stock_app.Common.{ℕ, suc, ◌≡◌, ◌≢◌, refl, sym, ap, true, some, List, [], ◌∷◌, ◌++◌, map, All}
use stock_app.Proto.{TradeType, buy, sell, TradeOrder}
use stock_app.Queue.{ConcurrentQueue}
use stock_app.Platform.{Platform}
use stock_app.Core.PersistenceLaws.{after_saves}
use stock_app.Postgres.Backend.{Backend, ActiveRow}
use stock_app.Postgres.Tables.{Tables, active_table, set_active_table, Postgres}
use stock_app.Postgres.Methods.{
  active_row, active_order, save_active_order_to_db, load_active_orders_from_db, database,
}

-- The server on PostgreSQL.
abbrev pub on_postgres : Backend → ConcurrentQueue → (ℕ → ℕ) → Platform
on_postgres be queue clock = record {
  database = database be;
  concurrent_queue = queue;
  clock = clock;
}

perm_map : {A B : Type 0} (f : A → B) {xs ys : List A} → Permᴰ xs ys → Permᴰ (map f xs) (map f ys)
perm_map f Permᴰ.nil = Permᴰ.nil
perm_map f (Permᴰ.cons e p) = Permᴰ.cons (ap f e) (perm_map f p)
perm_map f (Permᴰ.swap {l = l} e g) = Permᴰ.swap (ap f e) (ap f g)
perm_map f (Permᴰ.trans p q) = Permᴰ.trans (perm_map f p) (perm_map f q)

pub same_table :
    (t : TradeType) (rows : List ActiveRow) (x : Tables)
    → active_table t (set_active_table t rows x) ≡ rows
same_table buy rows x = refl
same_table sell rows x = refl

pub other_table :
    (t u : TradeType) (rows : List ActiveRow) (x : Tables)
    → u ≢ t
    → active_table u (set_active_table t rows x) ≡ active_table u x
other_table buy buy rows x ne = absurd (ne refl)
other_table buy sell rows x ne = refl
other_table sell buy rows x ne = refl
other_table sell sell rows x ne = absurd (ne refl)

module _ (be : Backend) where
  -- The connection never fails.
  abbrev pub Connected : Type 0
  Connected = (n : ℕ) → be.goes_through n ≡ true

  -- The order is of the type, its username can be stored, and its time comes back as it is.
  abbrev pub IsStorable : TradeType → TradeOrder → Type 0
  IsStorable t o =
      (o.type ≡ t) × (be.fits o.username ≡ true) × (be.read_millis o.timestamp ≡ o.timestamp)

  abbrev saved : TradeType → TradeOrder → Postgres → Postgres
  saved t o d = record {
    tables = set_active_table t (active_table t d.tables ++ active_row o ∷ []) d.tables;
    transactions = suc d.transactions;
  }

  pub save_run :
      (t : TradeType) (o : TradeOrder) (d : Postgres)
      → Connected
      → IsStorable t o
      → save_active_order_to_db be o d ≡ (some tt, saved t o d)
  unfolding save_active_order_to_db
  save_run t o d up h = rw (save_active_order_to_db, up d.transactions, h.1, h.0) refl

  pub load_run :
      (t : TradeType) (d : Postgres)
      → Connected
      → load_active_orders_from_db be t d ≡ (
        some (map (active_order be t) (be.scan_active (active_table t d.tables))),
        record d { transactions = suc d.transactions },
      )
  unfolding load_active_orders_from_db
  load_run t d up = rw (load_active_orders_from_db, up d.transactions) refl

  row_back :
      (t : TradeType) (o : TradeOrder) → IsStorable t o → active_order be t (active_row o) ≡ o
  unfolding active_row active_order
  row_back t o h = rw (h.2, sym h.0) refl

  rows_back :
      (t : TradeType) (os : List TradeOrder)
      → All (IsStorable t) os
      → map (active_order be t) (map active_row os) ≡ os
  rows_back t [] h = refl
  rows_back t (o ∷ os) h = rw (row_back t o h.0, rows_back t os h.1) refl

  -- What a number of saves of orders of one type leave in the tables.
  pub saves_tables :
      (queue : ConcurrentQueue) (clock : ℕ → ℕ) (t : TradeType) (os : List TradeOrder)
      (d : Postgres)
      → Connected
      → All (IsStorable t) os
      → (after_saves (on_postgres be queue clock) os d).tables
        ≡ set_active_table t (active_table t d.tables ++ map active_row os) d.tables
  unfolding after_saves
  saves_tables queue clock buy [] d up h = rw (append-nil d.tables.active_buy_orders) refl
  saves_tables queue clock sell [] d up h = rw (append-nil d.tables.active_sell_orders) refl
  saves_tables queue clock buy (o ∷ os) d up h =
      rw
        (
          after_saves,
          save_run buy o d up h.0,
          saves_tables queue clock buy os (saved buy o d) up h.1,
          append_assoc d.tables.active_buy_orders (active_row o ∷ []) (map active_row os),
        )
        refl
  saves_tables queue clock sell (o ∷ os) d up h =
      rw
        (
          after_saves,
          save_run sell o d up h.0,
          saves_tables queue clock sell os (saved sell o d) up h.1,
          append_assoc d.tables.active_sell_orders (active_row o ∷ []) (map active_row os),
        )
        refl

  -- Saved into an empty table, the orders are the rows that a load returns, in some order.
  abbrev pub loaded : TradeType → List TradeOrder → List TradeOrder
  loaded t os = map (active_order be t) (be.scan_active (map active_row os))

  pub loaded-perm :
      (t : TradeType) (os : List TradeOrder) → All (IsStorable t) os → Permᴰ (loaded t os) os
  loaded-perm t os h =
      subst (λ r. Permᴰ (loaded t os) r) (rows_back t os h)
        (perm_map (active_order be t) (be.scan_active-perm (map active_row os)))

  -- Orders of one type saved one after the other into an empty table, while the connection holds, with
  -- usernames that fit a VARCHAR(255) and times that a TIMESTAMP keeps, are what a load returns, in
  -- some order and with every field as it was; a load of the other type returns the rows that its
  -- table had before.
  pub load_active_orders_from_db-after_saves :
      (queue : ConcurrentQueue) (clock : ℕ → ℕ) (os : List TradeOrder) (d : Postgres)
      → Connected
      → (t u : TradeType) → u ≢ t
      → All (IsStorable t) os
      → active_table t d.tables ≡ []
      → let d' = after_saves (on_postgres be queue clock) os d in
        (read : List TradeOrder) × ((load_active_orders_from_db be t d').0 ≡ some read)
        × Permᴰ read os
        × ((load_active_orders_from_db be u d').0 ≡ (load_active_orders_from_db be u d).0)
  load_active_orders_from_db-after_saves queue clock os d up t u ne h empty =
      let d' = after_saves (on_postgres be queue clock) os d in
      let now = saves_tables queue clock t os d up h in
      (
        loaded t os,
        rw
            (
              load_run t d' up,
              now,
              same_table t (active_table t d.tables ++ map active_row os) d.tables,
              empty,
            )
            refl,
        loaded-perm t os h,
        rw
            (
              load_run u d' up,
              load_run u d up,
              now,
              other_table t u (active_table t d.tables ++ map active_row os) d.tables ne,
            )
            refl,
      )
