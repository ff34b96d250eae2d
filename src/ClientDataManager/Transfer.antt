-- ===== src/ClientDataManager/Transfer.antt =====
-- What a match does to the balances of its two clients, and of everybody else.
use stock_app.Common.{◌≡◌, ◌≢◌, sym, true, some, String}
use stock_app.Common.Int.{ℤ}
use stock_app.Common.Equality.{username_key}
use stock_app.Common.Map.{find, assign, find-assign_self, find-assign_ne}
use stock_app.Double.{Double, of_int, ◌+ᵈ◌, ◌-ᵈ◌}
use stock_app.Proto.{AccountBalance, ClientBalance}
use stock_app.Platform.{Platform}
use stock_app.ClientDataManager.State.{ClientDataManager}
use stock_app.ClientDataManager.Balances.{
  WalletType, rub, usd, ChangeBalanceType, increase, decrease, adjust, change_client_balance,
  change_four_balances, change_client_balances_according_match, update_clients_balances_in_db,
}
use stock_app.ClientDataManager.Conservation.{Funds, Known, change_four_balances-chain}

-- The seller's account after the match, and the buyer's.
abbrev pub sold : ℤ → Double → AccountBalance → AccountBalance
sold amount cost a = record {
  usd_balance = a.usd_balance -ᵈ of_int amount;
  rub_balance = a.rub_balance +ᵈ cost;
}

abbrev pub bought : ℤ → Double → AccountBalance → AccountBalance
bought amount cost a = record {
  usd_balance = a.usd_balance +ᵈ of_int amount;
  rub_balance = a.rub_balance -ᵈ cost;
}

-- The USD and RUB of a match have gone from one client to another, and nobody else's.
pub record Transferred (s b : String) (amount : ℤ) (cost : Double) (x y : AccountBalance)
    (f f' : Funds) : Type 0 where
  pub seller_paid : find s f' ≡ some (sold amount cost x)
  pub buyer_paid : find b f' ≡ some (bought amount cost y)
  pub others_same : (c : String) → s ≢ c → b ≢ c → find c f' ≡ find c f

module _ (s b : String) (amount : ℤ) (cost : Double) (x y : AccountBalance) where
  -- The balances after each of the four changes.
  abbrev funds1 : Funds → Funds
  funds1 f = assign s (adjust decrease usd (of_int amount) x) f

  abbrev funds2 : Funds → Funds
  funds2 f = assign s (sold amount cost x) (funds1 f)

  abbrev funds3 : Funds → Funds
  funds3 f = assign b (adjust increase usd (of_int amount) y) (funds2 f)

  abbrev pub traded_funds : Funds → Funds
  traded_funds f = assign b (bought amount cost y) (funds3 f)

  traded_funds-Transferred :
      (f : Funds) → s ≢ b → Transferred s b amount cost x y f (traded_funds f)
  traded_funds-Transferred f ne = record {
    seller_paid =
        rw
          (
            find-assign_ne b s _ (funds3 f) (λ e. ne (sym e)),
            find-assign_ne b s _ (funds2 f) (λ e. ne (sym e)),
          )
          (find-assign_self s _ (funds1 f));
    buyer_paid = find-assign_self b _ (funds3 f);
    others_same = λ c ns nb. rw (
      find-assign_ne b c _ (funds3 f) nb,
      find-assign_ne b c _ (funds2 f) nb,
      find-assign_ne s c _ (funds1 f) ns,
      find-assign_ne s c _ f ns,
    );
  }

-- The database takes the balance of a client and does not throw.
abbrev pub SavesBalances : Platform → Type 0
SavesBalances q =
    (r : ClientBalance) (d : q.database.Db)
    → (d' : q.database.Db) × (q.database.update_actual_client_balance_in_db r d ≡ (some tt, d'))

module _ {p : Platform} where
  pub change_known :
      (client : String) (kind : ChangeBalanceType) (wallet : WalletType) (x : Double)
      (a : AccountBalance) (m : ClientDataManager p)
      → find client m.clients_funds_data ≡ some a
      → change_client_balance client kind wallet x m ≡ (
        true,
        record m {
          clients_funds_data = assign client (adjust kind wallet x a) m.clients_funds_data;
        },
      )
  unfolding change_client_balance
  change_known client kind wallet x a m e = rw (change_client_balance, e)

  pub change_four_balances_lem :
      (s b : String) (amount : ℤ) (cost : Double) (x y : AccountBalance) (m : ClientDataManager p)
      → s ≢ b
      → find s m.clients_funds_data ≡ some x
      → find b m.clients_funds_data ≡ some y
      → change_four_balances s b amount cost m ≡ (
        true,
        record m { clients_funds_data = traded_funds s b amount cost x y m.clients_funds_data },
      )
  unfolding adjust
  change_four_balances_lem s b amount cost x y m ne ex ey =
      let f = m.clients_funds_data in
      change_four_balances-chain s b amount cost m
        (record m { clients_funds_data = funds1 s b amount cost x y f })
        (record m { clients_funds_data = funds2 s b amount cost x y f })
        (record m { clients_funds_data = funds3 s b amount cost x y f })
        (record m { clients_funds_data = traded_funds s b amount cost x y f })
        (change_known s decrease usd (of_int amount) x m ex)
        (change_known s increase rub cost _ _ (find-assign_self s _ f))
        (change_known b increase usd (of_int amount) y _ (
          rw (find-assign_ne s b _ (funds1 s b amount cost x y f) ne, find-assign_ne s b _ f ne)
            ey))
        (change_known b decrease rub cost _ _ (find-assign_self b _ (funds2 s b amount cost x y f)))

  -- With both clients known and a database that takes the balances, the saving succeeds and leaves
  -- everything but the database as it is.
  pub save_lem :
      (s b : String) (m : ClientDataManager p)
      → SavesBalances p
      → Known m.clients_funds_data s
      → Known m.clients_funds_data b
      → (d : p.database.Db) × (update_clients_balances_in_db s b m ≡ (true, record m { db = d }))
  unfolding update_clients_balances_in_db
  save_lem s b m saves (x, ex) (y, ey) =
      let (d1, e1) = saves (record { username = s; funds = x }) m.db in
      let (d2, e2) = saves (record { username = b; funds = y }) d1 in
      (d2, rw (update_clients_balances_in_db, ex, ey, e1, e2))

  -- A match between two different clients who have accounts, with a database that takes the new
  -- balances, succeeds: the seller gives the USD and gets the RUB, the buyer the other way round,
  -- and no other balance, order or quote changes.
  pub change_client_balances_according_match_lem :
      (s b : String) (amount : ℤ) (cost : Double) (x y : AccountBalance) (m : ClientDataManager p)
      → SavesBalances p
      → s ≢ b
      → find s m.clients_funds_data ≡ some x
      → find b m.clients_funds_data ≡ some y
      → (f : Funds) × (d : p.database.Db) × (change_client_balances_according_match s b amount cost
            m
          ≡ (true, record m { clients_funds_data = f; db = d }))
        × Transferred s b amount cost x y m.clients_funds_data f
  unfolding change_client_balances_according_match
  change_client_balances_according_match_lem s b amount cost x y m saves ne ex ey =
      let f = traded_funds s b amount cost x y m.clients_funds_data in
      let done = traded_funds-Transferred s b amount cost x y m.clients_funds_data ne in
      let (d, e) =
        save_lem s b (record m { clients_funds_data = f }) saves
          (sold amount cost x, done.seller_paid) (bought amount cost y, done.buyer_paid) in
      (
        f,
        d,
        rw (
          change_client_balances_according_match,
          change_four_balances_lem s b amount cost x y m ne ex ey,
          e,
        ),
        done,
      )
