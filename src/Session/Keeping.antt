-- ===== src/Session/Keeping.antt =====
-- What every request keeps: the books stay sound, and every account is kept.
mod Accounts
mod Orders
pub mod Requests
pub mod Runs
use mathlib.Core.List.{Permᴰ}
use mathlib.Core.List.Permᴰ
use mathlib.Core.Path.{subst}
use stock_app.Common.{
  ◌≡◌, ◌≢◌, ◌⊎◌, inl, inr, refl, sym, ◌∙◌, ap, Bool, true, false, Option, none, some, String, ◌^◌,
  ◌∷◌, arith, All, All-perm, Bool-cases, ℕ, suc,
}
use stock_app.Common.Int.{ℤ, pos, ◌<ℤ◌}
use stock_app.Common.Equality.{username_key}
use stock_app.Common.Map.{find, assign}
use stock_app.Proto
use stock_app.Proto.{
  TradeType, buy, sell, TradeOrder, TradeRequest, TradeResponse, CommandType, sign_up_request,
  sign_in_request, cancel_order,
}
use stock_app.Database.{Void}
use stock_app.Platform.{Platform}
use stock_app.Auth.{Jwt, verify_token}
use stock_app.ClientDataManager.State.{ClientDataManager, active_orders}
use stock_app.ClientDataManager.Balances.{create_new_client_fund_data}
use stock_app.ClientDataManager.Listing.{opposite, SameActive}
use stock_app.ClientDataManager.OrderQueues.{
  push, push_order_to_order_queue, order_queue, set_order_queue, queued_orders,
}
use stock_app.ClientDataManager.Conservation.{Funds, Known, KeepsAccounts, Known-assign}
use stock_app.Core.Loop.{Books, Core}
use stock_app.Core.IntakeLaws.{side_orders}
use stock_app.Core.Queues.{SameQueues}
use stock_app.Core.Passes.{Sound, SameClients}
use stock_app.Core.CancelSound.{
  SideSound, Sound-side, sides-Sound, kept-SideSound, cancel_active_order-Sound,
}
use stock_app.Session.State.{Session, Server, continue_with-rule, on_database}
use stock_app.Session.Manager.{close_this_session, remove_session}
use stock_app.Session.SignUp.{no_money}
use stock_app.Session.Commands.{
  handle_sign_up_command, handle_sign_in_command, sign_in_if, handle_make_order_command,
  handle_cancel_active_order_command, stamped_order, after_stamp,
}
use stock_app.Session.Handler.{
  handle_received_command, run_command, check_token, reject_token, needs_token, empty_response,
}
use stock_app.Session.Ordering.{Listed, Listed-Ready, Ready-same, make_order-Listed, queued_as}

module _ {p : Platform} {b : Books} where
  -- What is asked of a request: a new order has a positive amount that fits an int32, an id that no
  -- order of its side has, and an owner with an account; and the database knows every name that has
  -- an account.
  abbrev pub Fits : CommandType → TradeRequest → Server p b → Type 0
  Fits Proto.make_order request s =
      let o = stamped_order request s in
      (pos 0 <ℤ o.usd_amount)
      × (o.usd_amount <ℤ pos (2 ^ 31))
      × All (λ y. o.order_id ≢ y.order_id) (side_orders o.type s.core)
      × Known s.core.manager.clients_funds_data o.username
  Fits Proto.sign_up request s =
      let user = (sign_up_request request.data_of).username in
      let m = s.core.manager in
      (find user m.clients_funds_data ≡ none)
      ⊎ ((p.database.is_user_exists user m.db).0 ≢ some false)
  Fits _ request s = Unit

  -- The books stay sound, and no account is gone.
  abbrev pub Kept : Core p b → Core p b → Type 0
  Kept c c' = Sound c' × SameClients c c'

  pub Kept-refl : {c : Core p b} → Sound c → Kept c c
  Kept-refl h = (h, λ _ k. k)

  pub same-Sound :
      (c : Core p b) (m : ClientDataManager p)
      → SameQueues c.manager m
      → SameActive c.manager m
      → ((client : String)
          → Known c.manager.clients_funds_data client
          → Known m.clients_funds_data client)
      → Sound c
      → Sound (record c { manager = m })
  same-Sound c m queues active keep h =
      let c' = record c { manager = m } in
      sides-Sound buy
        (kept-SideSound buy c c' (rw queues.same_buy_queue (Permᴰ.refl (side_orders buy c)))
          active.same_buys keep (Sound-side buy h))
        (kept-SideSound sell c c' (rw queues.same_sell_queue (Permᴰ.refl (side_orders sell c)))
          active.same_sells keep (Sound-side sell h))

  -- Another state of the database, and more looks at the clock.
  pub db-Kept :
      (c : Core p b) (d : p.database.Db)
      → Sound c
      → let m = c.manager in Kept c (record c { manager = record m { db = d } })
  db-Kept c d h =
      let m = c.manager in
      (
        same-Sound c (record m { db = d })
            (record { same_buy_queue = refl; same_sell_queue = refl })
            (record { same_buys = refl; same_sells = refl }) (λ _ k. k) h,
        λ _ k. k,
      )
