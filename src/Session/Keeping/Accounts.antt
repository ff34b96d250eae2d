-- ===== src/Session/Keeping/Accounts.antt =====
-- A sign-up keeps the books sound and every account.
use stock_app.Common.{◌≡◌, ◌≢◌, ◌⊎◌, inl, inr, refl, Bool, true, false, Option, none, some, String}
use stock_app.Common.Equality.{username_key}
use stock_app.Common.Map.{find}
use stock_app.Proto
use stock_app.Proto.{
  TradeType, buy, sell, TradeOrder, TradeRequest, TradeResponse, CommandType, sign_up_request,
  sign_in_request, cancel_order,
}
use stock_app.Database.{Void}
use stock_app.Platform.{Platform}
use stock_app.ClientDataManager.Balances.{create_new_client_fund_data}
use stock_app.ClientDataManager.Conservation.{Known-assign}
use stock_app.Core.Loop.{Books, Core}
use stock_app.Core.Passes.{Sound}
use stock_app.Session.State.{Server}
use stock_app.Session.SignUp.{no_money}
use stock_app.Session.Commands.{handle_sign_up_command}
use stock_app.Session.Keeping.{Fits, Kept, same-Sound, db-Kept}

module _ {p : Platform} {b : Books} where
  -- A new account holds nothing.
  account-Kept :
      (user : String) (c : Core p b) (d : p.database.Db)
      → find user c.manager.clients_funds_data ≡ none
      → Sound c
      → let m = c.manager in
        Kept c (record c { manager = create_new_client_fund_data user (record m { db = d }) })
  unfolding create_new_client_fund_data
  account-Kept user c d new h =
      let m = c.manager in
      let funds = m.clients_funds_data in
      (
        same-Sound c (create_new_client_fund_data user (record m { db = d }))
            (record { same_buy_queue = refl; same_sell_queue = refl })
            (record { same_buys = refl; same_sells = refl })
            (λ client k. Known-assign user client no_money funds k) h,
        λ client k. Known-assign user client no_money funds k,
      )

  sign_up_cases :
      (request : TradeRequest) (s : Server p b) (found : Option Bool) (d : p.database.Db)
      (added : Option Void) (e : p.database.Db)
      → let user = sign_up_request request.data_of in
        p.database.is_user_exists user.username s.core.manager.db ≡ (found, d)
        → p.database.add_user user.username user.password d ≡ (added, e)
        → (find user.username s.core.manager.clients_funds_data ≡ none) ⊎ (found ≢ some false)
        → Sound s.core
        → Kept s.core (handle_sign_up_command request s).1.core
  unfolding handle_sign_up_command
  sign_up_cases request s none d added e h k fit sound =
      rw (handle_sign_up_command, h) (db-Kept s.core d sound)
  sign_up_cases request s (some true) d added e h k fit sound =
      rw (handle_sign_up_command, h) (db-Kept s.core d sound)
  sign_up_cases request s (some false) d none e h k fit sound =
      rw (handle_sign_up_command, h, k) (db-Kept s.core e sound)
  sign_up_cases request s (some false) d (some tt) e h k (inr known) sound = absurd (known refl)
  sign_up_cases request s (some false) d (some tt) e h k (inl new) sound =
      rw (handle_sign_up_command, h, k)
        (account-Kept (sign_up_request request.data_of).username s.core e new sound)

  pub sign_up-Kept :
      (request : TradeRequest) (s : Server p b)
      → Fits Proto.sign_up request s
      → Sound s.core
      → Kept s.core (handle_sign_up_command request s).1.core
  sign_up-Kept request s fit sound =
      let user = sign_up_request request.data_of in
      let r = p.database.is_user_exists user.username s.core.manager.db in
      let a = p.database.add_user user.username user.password r.1 in
      sign_up_cases request s r.0 r.1 a.0 a.1 refl refl fit sound
