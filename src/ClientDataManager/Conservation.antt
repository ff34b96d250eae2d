-- ===== src/ClientDataManager/Conservation.antt =====
-- The clients that stay known under the changes of a match.
use stock_app.Common.{◌≡◌, inl, inr, true, some, String, Bool-cases}
use stock_app.Common.Int.{ℤ}
use stock_app.Common.Equality.{username_key, ◌==◌}
use stock_app.Common.Map.{Map, find, assign, find-assign}
use stock_app.Double.{Double, of_int}
use stock_app.Proto.{AccountBalance}
use stock_app.Platform.{Platform}
use stock_app.ClientDataManager.State.{ClientDataManager}
use stock_app.ClientDataManager.Balances.{
  WalletType, rub, usd, ChangeBalanceType, increase, decrease, adjust, change_client_balance,
  change_four_balances,
}

abbrev pub Funds : Type 0
Funds = Map String AccountBalance

-- The client has an account.
abbrev pub Known : Funds → String → Type 0
Known funds client = (b : AccountBalance) × (find client funds ≡ some b)

-- No account is gone.
abbrev pub KeepsAccounts : Funds → Funds → Type 0
KeepsAccounts funds funds' = (client : String) → Known funds client → Known funds' client

pub Known-assign :
    (k client : String) (v : AccountBalance) (funds : Funds)
    → Known funds client
    → Known (assign k v funds) client
Known-assign k client v funds (b, e) = elim (Bool-cases (k == client)) [
  | inl same ↦ (v, rw (find-assign, same))
  | inr other ↦ (b, rw (find-assign, other) e)
]

module _ {p : Platform} where
  -- A known client's balance is changed, and no account is gone.
  change_client_balance-KeepsAccounts :
      (client : String) (kind : ChangeBalanceType) (wallet : WalletType) (x : Double)
      (m : ClientDataManager p)
      → Known m.clients_funds_data client
      → (funds : Funds) × (change_client_balance client kind wallet x m
          ≡ (true, record m { clients_funds_data = funds }))
        × KeepsAccounts m.clients_funds_data funds
  unfolding change_client_balance
  change_client_balance-KeepsAccounts client kind wallet x m (b, e) = (
    assign client (adjust kind wallet x b) m.clients_funds_data,
    rw (e, change_client_balance),
    λ other k. Known-assign client other (adjust kind wallet x b) m.clients_funds_data k,
  )

  -- A chain of four changes that each succeed.
  pub change_four_balances-chain :
      (s b : String) (amount : ℤ) (cost : Double) (m m1 m2 m3 m4 : ClientDataManager p)
      → change_client_balance s decrease usd (of_int amount) m ≡ (true, m1)
      → change_client_balance s increase rub cost m1 ≡ (true, m2)
      → change_client_balance b increase usd (of_int amount) m2 ≡ (true, m3)
      → change_client_balance b decrease rub cost m3 ≡ (true, m4)
      → change_four_balances s b amount cost m ≡ (true, m4)
  unfolding change_four_balances
  change_four_balances-chain s b amount cost m m1 m2 m3 m4 e1 e2 e3 e4 =
      rw (change_four_balances, e1, e2, e3, e4)

  -- The four changes of a match between known clients all succeed and leave every client
  -- known; nothing but the balances changes.
  pub change_four_balances-KeepsAccounts :
      (s b : String) (amount : ℤ) (cost : Double) (m : ClientDataManager p)
      → Known m.clients_funds_data s
      → Known m.clients_funds_data b
      → (funds : Funds) × (change_four_balances s b amount cost m
          ≡ (true, record m { clients_funds_data = funds }))
        × KeepsAccounts m.clients_funds_data funds
  unfolding change_four_balances
  change_four_balances-KeepsAccounts s b amount cost m ks kb =
      let x = of_int amount in
      let (f1, e1, m1) = change_client_balance-KeepsAccounts s decrease usd x m ks in
      let (f2, e2, m2) =
        change_client_balance-KeepsAccounts s increase rub cost
          (record m { clients_funds_data = f1 }) (m1 s ks) in
      let (f3, e3, m3) =
        change_client_balance-KeepsAccounts b increase usd x (record m { clients_funds_data = f2 })
          (m2 b (m1 b kb)) in
      let (f4, e4, m4) =
        change_client_balance-KeepsAccounts b decrease rub cost
          (record m { clients_funds_data = f3 }) (m3 b (m2 b (m1 b kb))) in
      (
        f4,
        change_four_balances-chain s b amount cost m _ _ _ _ e1 e2 e3 e4,
        λ c k. m4 c (m3 c (m2 c (m1 c k))),
      )
