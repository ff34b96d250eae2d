-- ===== src/ClientDataManager/Balances.antt =====
-- The balances: change_client_balance, change_client_balances_according_match, get_client_balance,
-- update_clients_balances_in_db and create_new_client_fund_data.
use stock_app.Common.{true, false, none, some, String}
use stock_app.Common.Int.{ℤ, pos}
use stock_app.Common.Equality.{username_key}
use stock_app.Common.Map.{find, assign}
use stock_app.Double.{Double, of_int, ◌+ᵈ◌, ◌-ᵈ◌}
use stock_app.Proto.{AccountBalance}
use stock_app.Database.{Void}
use stock_app.Platform.{Platform}
use stock_app.ClientDataManager.State.{
  ClientDataManager, Test, Try, ◌and_then◌, ◌>>=◌, ◌>>◌, returns_normally, call,
}

pub data WalletType : Type 0 where
  rub usd : WalletType

pub data ChangeBalanceType : Type 0 where
  increase decrease : ChangeBalanceType

-- The setter that change_client_balance calls on the account.
unfoldable pub adjust : ChangeBalanceType → WalletType → Double → AccountBalance → AccountBalance
adjust increase rub x b = record b { rub_balance = b.rub_balance +ᵈ x }
adjust increase usd x b = record b { usd_balance = b.usd_balance +ᵈ x }
adjust decrease rub x b = record b { rub_balance = b.rub_balance -ᵈ x }
adjust decrease usd x b = record b { usd_balance = b.usd_balance -ᵈ x }

module _ {p : Platform} where
  unfoldable pub change_client_balance : String → ChangeBalanceType → WalletType → Double → Test p
  unfolding adjust
  change_client_balance client kind wallet amount m = elim (find client m.clients_funds_data) [
    | none ↦ (false, m)
    | some balance ↦ (
      true,
      record m {
        clients_funds_data = assign client (adjust kind wallet amount balance) m.clients_funds_data;
      },
    )
  ]

  -- Throws for a client that is not there.
  unfoldable pub get_client_balance : String → Try p AccountBalance
  get_client_balance client m = (find client m.clients_funds_data, m)

  save_balance : String → AccountBalance → Try p Void
  save_balance client funds =
      call (
        p.database.update_actual_client_balance_in_db (record { username = client; funds = funds }))

  -- The two messages are built before the first call of the database.
  unfoldable pub update_clients_balances_in_db : String → String → Test p
  unfolding get_client_balance save_balance
  update_clients_balances_in_db client_sell client_buy = returns_normally do
    sell_funds ← get_client_balance client_sell
    buy_funds ← get_client_balance client_buy
    save_balance client_sell sell_funds
    save_balance client_buy buy_funds

  -- The four changes made under one lock.
  unfoldable pub change_four_balances : String → String → ℤ → Double → Test p
  change_four_balances client_sell client_buy amount cost =
      change_client_balance client_sell decrease usd (of_int amount)
      and_then change_client_balance client_sell increase rub cost
      and_then change_client_balance client_buy increase usd (of_int amount)
      and_then change_client_balance client_buy decrease rub cost

  unfoldable pub change_client_balances_according_match : String → String → ℤ → Double → Test p
  change_client_balances_according_match client_sell client_buy amount cost =
      change_four_balances client_sell client_buy amount cost
      and_then update_clients_balances_in_db client_sell client_buy

  unfoldable pub create_new_client_fund_data : String → ClientDataManager p → ClientDataManager p
  create_new_client_fund_data new_key m = record m {
    clients_funds_data =
        assign new_key (record { usd_balance = pos 0; rub_balance = pos 0 }) m.clients_funds_data;
  }
