-- ===== src/Session/SignUp.antt =====
-- Signing up.
use stock_app.Common.{
  ◌≡◌, ◌≢◌, ◌⊎◌, inl, inr, refl, Bool, true, false, Option, none, some, String, arith,
}
use stock_app.Common.Int.{pos}
use stock_app.Common.Equality.{username_key}
use stock_app.Common.Map.{find, find-assign_self, find-assign_ne}
use stock_app.Proto.{TradeRequest, AccountBalance, sign_up_request}
use stock_app.Platform.{Platform}
use stock_app.ClientDataManager.Balances.{create_new_client_fund_data}
use stock_app.Core.Loop.{Books}
use stock_app.Session.State.{Server}
use stock_app.Session.Commands.{handle_sign_up_command}

abbrev pub no_money : AccountBalance
no_money = record { usd_balance = pos 0; rub_balance = pos 0 }

module _ {p : Platform} {b : Books} where
  -- If the database knows no such user and adds one, a sign-up succeeds: the user has an account with
  -- no money, and nobody else's balance changes. If it knows the user, or throws, no balance changes.
  pub handle_sign_up_command_lem :
      (request : TradeRequest) (s : Server p b) (found : Option Bool) (d : p.database.Db)
      (added : Option (Unit {0})) (e : p.database.Db)
      → let user = sign_up_request request.data_of in
        let r = handle_sign_up_command request s in
        p.database.is_user_exists user.username s.core.manager.db ≡ (found, d)
        → p.database.add_user user.username user.password d ≡ (added, e)
        → ((found ≡ some false)
            × (added ≡ some tt)
            × (r.0 ≡ some true)
            × (find user.username r.1.core.manager.clients_funds_data ≡ some no_money)
            × ((other : String)
                → user.username ≢ other
                → find other r.1.core.manager.clients_funds_data
                  ≡ find other s.core.manager.clients_funds_data))
          ⊎ ((r.0 ≢ some true)
              × (r.1.core.manager.clients_funds_data ≡ s.core.manager.clients_funds_data))
  unfolding handle_sign_up_command create_new_client_fund_data
  handle_sign_up_command_lem request s none d added e h k =
      inr (rw (handle_sign_up_command, h) (λ x. ground arith), rw (handle_sign_up_command, h) refl)
  handle_sign_up_command_lem request s (some true) d added e h k =
      inr (rw (handle_sign_up_command, h) (λ x. ground arith), rw (handle_sign_up_command, h) refl)
  handle_sign_up_command_lem request s (some false) d none e h k = inr (
    rw (handle_sign_up_command, h, k) (λ x. ground arith),
    rw (handle_sign_up_command, h, k) refl,
  )
  handle_sign_up_command_lem request s (some false) d (some tt) e h k =
      let user = sign_up_request request.data_of in
      let funds = s.core.manager.clients_funds_data in
      inl (
        refl,
        refl,
        rw (handle_sign_up_command, h, k) refl,
        rw (handle_sign_up_command, h, k) (find-assign_self user.username no_money funds),
        λ other ne.
            rw (handle_sign_up_command, h, k)
              (find-assign_ne user.username other no_money funds ne),
      )
