-- ===== src/Postgres/Balances.antt =====
-- The balances of a server that starts again on its database: initialize_from_database of
-- server/client_data_manager.cpp on the table that the server has kept.
use mathlib.Core.List.{Permᴰ}
use mathlib.Core.List.Permᴰ
use mathlib.Core.Path.{subst}
use stock_app.Common.{
  ℕ, ◌≡◌, ◌≢◌, refl, sym, ◌∙◌, ap, none, some, String, List, [], ◌∷◌, arith, All, All-perm,
  Bool-cases, inl, inr,
}
use stock_app.Common.Equality.{username_key, ◌==◌, ==_ne}
use stock_app.Common.Map.{find, assign, find-assign_self, find-assign_ne}
use stock_app.Proto.{buy, sell, ClientBalance}
use stock_app.Queue.{ConcurrentQueue}
use stock_app.ClientDataManager.Startup.{assign_funds}
use stock_app.ClientDataManager.Conservation.{Funds}
use stock_app.Core.Loop.{Books, Core}
use stock_app.Core.Startup.{launch, launch-start, started, start_run}
use stock_app.Postgres.Backend.{Backend}
use stock_app.Postgres.Tables.{Postgres}
use stock_app.Postgres.Methods.{truncate_active_orders_table, password_of}
use stock_app.Postgres.ActiveOrders.{on_postgres, Connected}
use stock_app.Postgres.Mirror.{balance_in}
use stock_app.Postgres.Refinement.{IsMirrored}
use stock_app.Postgres.Restart.{stored, rows_of}

-- No client has two rows.
abbrev pub OneRowEach : List ClientBalance → Type 0
OneRowEach [] = Unit
OneRowEach (row ∷ rows) = All (λ r. row.username ≢ r.username) rows × OneRowEach rows

OneRowEach-perm : {xs ys : List ClientBalance} → Permᴰ xs ys → OneRowEach xs → OneRowEach ys
OneRowEach-perm Permᴰ.nil h = h
OneRowEach-perm (Permᴰ.cons {l₂ = l} e p) h =
    (subst (λ x. All (λ r. x.username ≢ r.username) l) e (All-perm _ p h.0), OneRowEach-perm p h.1)
OneRowEach-perm (Permᴰ.swap {l = l} e f) h =
    let e' = ap (λ (r : ClientBalance). r.username) e in
    let f' = ap (λ (r : ClientBalance). r.username) f in
    (
      (λ p. h.0.0 (e' ∙ sym p ∙ sym f'), subst (λ x. All (λ r. x.username ≢ r.username) l) f h.1.0),
      (subst (λ x. All (λ r. x.username ≢ r.username) l) e h.0.1, h.1.1),
    )
OneRowEach-perm (Permᴰ.trans p q) h = OneRowEach-perm q (OneRowEach-perm p h)

balance_in-cons :
    (client : String) (xs ys : List ClientBalance) {x y : ClientBalance}
    → x ≡ y
    → balance_in client xs ≡ balance_in client ys
    → balance_in client (x ∷ xs) ≡ balance_in client (y ∷ ys)
unfolding balance_in
balance_in-cons client xs ys {x} {y} e h =
    subst (λ z. balance_in client (x ∷ xs) ≡ balance_in client (z ∷ ys)) e (rw h refl)

balance_in-swap :
    (client : String) (x y : ClientBalance) (l : List ClientBalance)
    → x.username ≢ y.username
    → balance_in client (x ∷ y ∷ l) ≡ balance_in client (y ∷ x ∷ l)
unfolding balance_in
balance_in-swap client x y l ne = elim (Bool-cases (x.username == client)) [
  | inl e ↦
      let same = (username_key.same_iff x.username client).0 e in
      rw (e, ==_ne y.username client (λ f. ne (same ∙ sym f))) refl
  | inr e ↦ rw e refl
]

-- The order of the rows does not matter.
balance_in-perm :
    (client : String) {xs ys : List ClientBalance}
    → Permᴰ xs ys
    → OneRowEach xs
    → balance_in client xs ≡ balance_in client ys
balance_in-perm client Permᴰ.nil h = refl
balance_in-perm client (Permᴰ.cons {l₁ = xs} {l₂ = ys} e p) h =
    balance_in-cons client xs ys e (balance_in-perm client p h.1)
balance_in-perm client (Permᴰ.swap {a = x} {b = y} {a' = y'} {b' = x'} {l = l} e f) h =
    balance_in-swap client x y l h.0.0
    ∙ balance_in-cons client (x ∷ l) _ f (balance_in-cons client l l e refl)
balance_in-perm client (Permᴰ.trans p q) h =
    balance_in-perm client p h ∙ balance_in-perm client q (OneRowEach-perm p h)

find-assign_funds_other :
    (rows : List ClientBalance) (client : String) (funds : Funds)
    → All (λ r. client ≢ r.username) rows
    → find client (assign_funds rows funds) ≡ find client funds
unfolding assign_funds
find-assign_funds_other [] client funds h = refl
find-assign_funds_other (row ∷ rows) client funds h =
    find-assign_funds_other rows client (assign row.username row.funds funds) h.1
    ∙ find-assign_ne row.username client row.funds funds (λ e. h.0 (sym e))

-- What the loop of initialize_from_database leaves for a client.
find-assign_funds :
    (rows : List ClientBalance) (client : String) (funds : Funds)
    → OneRowEach rows
    → find client funds ≡ none
    → find client (assign_funds rows funds) ≡ balance_in client rows
unfolding assign_funds balance_in
find-assign_funds [] client funds h new = new
find-assign_funds (row ∷ rows) client funds h new = elim (Bool-cases (row.username == client)) [
  | inl e ↦
      let same = (username_key.same_iff row.username client).0 e in
      rw e (
        find-assign_funds_other rows client (assign row.username row.funds funds)
          (subst (λ c. All (λ r. c ≢ r.username) rows) same h.0)
        ∙ subst (λ c. find c (assign row.username row.funds funds) ≡ some row.funds) same
            (find-assign_self row.username row.funds funds))
  | inr e ↦ rw e (
      find-assign_funds rows client (assign row.username row.funds funds) h.1 (
        find-assign_ne row.username client row.funds funds
          (λ f. absurd (ground (arith, (username_key.same_iff row.username client).1 f)))
        ∙ new))
]

module _ (be : Backend) where
  truncated_balances :
      (d : Postgres)
      → Connected be
      → let d' = (truncate_active_orders_table be d).1 in
        (d'.tables.clients_balances ≡ d.tables.clients_balances)
        × (d'.tables.users ≡ d.tables.users)
  unfolding truncate_active_orders_table
  truncated_balances d up =
      let h = up d.transactions in
      (rw (truncate_active_orders_table, h) refl, rw (truncate_active_orders_table, h) refl)

module _ (be : Backend) (queue : ConcurrentQueue) (clock : ℕ → ℕ) {b : Books} where
  -- Suppose that the table clients_balances has for every client the balance that the memory of a
  -- server has, with one row for each and rows of users only. A server that is launched on this
  -- database while the connection holds, whether or not the first has stopped properly, starts; every
  -- client has the balance again, and the table still has it.
  pub launch-IsMirrored :
      (c fresh : Core (on_postgres be queue clock) b)
      → Connected be
      → IsMirrored be queue clock c.manager
      → OneRowEach c.manager.db.tables.clients_balances
      → fresh.manager.clients_funds_data ≡ []
      → fresh.manager.db ≡ c.manager.db
      → let c' = (launch fresh).1 in
        ((launch fresh).0 ≡ some tt)
        × ((client : String)
            → find client c'.manager.clients_funds_data ≡ find client c.manager.clients_funds_data)
        × IsMirrored be queue clock c'.manager
  unfolding find stored
  launch-IsMirrored c fresh up mirror one no_funds same =
      let d = fresh.manager.db in
      let st = stored be queue clock d up in
      let c1 = started (rows_of be queue clock buy d) (rows_of be queue clock sell d) fresh st in
      let run =
        launch-start fresh c1
          (start_run (rows_of be queue clock buy d) (rows_of be queue clock sell d) fresh st) in
      let rows = d.tables.clients_balances in
      let scanned = be.scan_balances-perm rows in
      let one_each : OneRowEach rows = rw same one in
      let back : (client : String)
          → find client c1.manager.clients_funds_data ≡ balance_in client rows =
        λ client.
          rw no_funds (
            find-assign_funds (be.scan_balances rows) client []
              (OneRowEach-perm (Permᴰ.symm scanned) one_each) refl)
          ∙ balance_in-perm client scanned (OneRowEach-perm (Permᴰ.symm scanned) one_each) in
      let (kept, users) = truncated_balances be c1.manager.db up in
      rw run (
        refl,
        λ client.
            back client
            ∙ ap (λ x. balance_in client x.tables.clients_balances) same
            ∙ mirror.mirrors client,
        record {
          mirrors = λ client. ap (balance_in client) kept ∙ sym (back client);
          owned = λ client e.
              rw (kept, same)
                (mirror.owned client (
                  subst (λ x. password_of client x.tables.users ≡ none) same
                    (subst (λ us. password_of client us ≡ none) users e)));
        },
      )
