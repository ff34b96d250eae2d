-- ===== src/Session/Keeping/Requests.antt =====
-- Every request keeps the books sound and every account.
use mathlib.Core.Path.{subst}
use stock_app.Common.{◌≡◌, inl, inr, refl, Bool, String, arith, Bool-cases}
use stock_app.Common.Equality.{username_key}
use stock_app.Proto
use stock_app.Proto.{
  TradeType, buy, sell, TradeOrder, TradeRequest, TradeResponse, CommandType, sign_up_request,
  sign_in_request, cancel_order,
}
use stock_app.Platform.{Platform}
use stock_app.Auth.{Jwt, verify_token}
use stock_app.Core.Loop.{Books}
use stock_app.Core.Passes.{Sound}
use stock_app.Core.CancelSound.{cancel_active_order-Sound}
use stock_app.Session.State.{Session, Server, continue_with-rule, on_database}
use stock_app.Session.Manager.{close_this_session, remove_session}
use stock_app.Session.Commands.{
  handle_sign_up_command, handle_sign_in_command, sign_in_if, handle_make_order_command,
  handle_cancel_active_order_command, stamped_order,
}
use stock_app.Session.Handler.{
  handle_received_command, run_command, check_token, reject_token, needs_token, empty_response,
}
use stock_app.Session.Handler.{answer}
use stock_app.Session.Keeping.{Fits, Kept, Kept-refl, db-Kept}
use stock_app.Session.Keeping.Accounts.{sign_up-Kept}
use stock_app.Session.Keeping.Orders.{make_order-Kept}

module _ {p : Platform} {b : Books} where
  pub sign_in_if_core :
      (jwt : Jwt) (self : Session) (user : String) (response : TradeResponse) (right : Bool)
      (s : Server p b)
      → (sign_in_if jwt self user response right s).1.core ≡ s.core
  unfolding sign_in_if
  sign_in_if_core jwt self user response right s = ground arith

module _ {p : Platform} {b : Books} (jwt : Jwt) where
  sign_in-Kept :
      (self : Session) (request : TradeRequest) (response : TradeResponse) (s : Server p b)
      → Sound s.core
      → Kept s.core (handle_sign_in_command jwt self request response s).1.core
  unfolding handle_sign_in_command
  sign_in-Kept self request response s h =
      let user = sign_in_request request.data_of in
      let r = p.database.authenticate_user user.username user.password s.core.manager.db in
      continue_with-rule (λ t. Kept s.core t.core)
        (on_database (p.database.authenticate_user user.username user.password) s) _
        (db-Kept s.core r.1 h)
        (λ right k. rw (sign_in_if_core jwt self user.username response right _) k)

  cancel-Kept :
      (self : Session) (request : TradeRequest) (s : Server p b)
      → Sound s.core
      → Kept s.core (handle_cancel_active_order_command self request s).1.core
  unfolding handle_cancel_active_order_command
  cancel-Kept self request s h =
      let cancel = cancel_order request.data_of in
      let (sound, funds) =
        cancel_active_order-Sound cancel.type cancel.order_id (s.client_username self) s.core h in
      (sound, λ _ k. rw funds k)

  run_command-Kept :
      (self : Session) (c : CommandType) (request : TradeRequest) (response : TradeResponse)
      (s : Server p b)
      → Fits c request s
      → Sound s.core
      → Kept s.core (run_command jwt self c request response s).1.core
  unfolding run_command
  run_command-Kept self Proto.sign_up request response s fit h =
      continue_with-rule (λ t. Kept s.core t.core) (handle_sign_up_command request s) _
        (sign_up-Kept request s fit h) (λ _ k. k)
  run_command-Kept self Proto.sign_in request response s fit h =
      continue_with-rule (λ t. Kept s.core t.core)
        (handle_sign_in_command jwt self request response s) _
        (sign_in-Kept self request response s h) (λ _ k. k)
  run_command-Kept self Proto.make_order request response s fit h =
      continue_with-rule (λ t. Kept s.core t.core) (handle_make_order_command request s) _
        (make_order-Kept request s fit h) (λ _ k. k)
  run_command-Kept self Proto.view_balance request response s fit h = Kept-refl h
  run_command-Kept self Proto.view_all_active_orders request response s fit h = Kept-refl h
  run_command-Kept self Proto.view_completed_trades request response s fit h = Kept-refl h
  run_command-Kept self Proto.view_quote_history request response s fit h = Kept-refl h
  run_command-Kept self Proto.cancel_active_order request response s fit h =
      cancel-Kept self request s h
  run_command-Kept self (Proto.unknown_command n) request response s fit h = Kept-refl h

  Fits-rejected :
      (self : Session) (c : CommandType) (request : TradeRequest) (s : Server p b)
      → Fits c request s
      → Fits c request (reject_token jwt self empty_response s)
  unfolding reject_token close_this_session remove_session stamped_order
  Fits-rejected self Proto.sign_up request s h = h
  Fits-rejected self Proto.sign_in request s h = h
  Fits-rejected self Proto.make_order request s h = h
  Fits-rejected self Proto.view_balance request s h = h
  Fits-rejected self Proto.view_all_active_orders request s h = h
  Fits-rejected self Proto.view_completed_trades request s h = h
  Fits-rejected self Proto.view_quote_history request s h = h
  Fits-rejected self Proto.cancel_active_order request s h = h
  Fits-rejected self (Proto.unknown_command n) request s h = h

  pub checked_core :
      (self : Session) (request : TradeRequest) (s : Server p b)
      → (check_token jwt self request s).core ≡ s.core
  unfolding check_token reject_token close_this_session remove_session
  checked_core self request s = ground arith

  -- After the test of the token the core and the request are as they were.
  checked :
      (self : Session) (request : TradeRequest) (s : Server p b)
      → Fits request.command request s
      → ((check_token jwt self request s).core ≡ s.core)
        × Fits request.command request (check_token jwt self request s)
  unfolding check_token reject_token close_this_session remove_session
  checked self request s fit = elim (Bool-cases (needs_token request.command)) [
    | inl e ↦
        elim (Bool-cases (verify_token jwt s.secret_key request.jwt (s.client_username self))) [
          | inl v ↦ rw (e, v) (refl, fit)
          | inr v ↦ rw (e, v) (refl, Fits-rejected self request.command request s fit)
        ]
    | inr e ↦ rw e (refl, fit)
  ]

  pub answer-Kept :
      (self : Session) (request : TradeRequest) (s : Server p b)
      → Fits request.command request s
      → Sound s.core
      → Kept s.core (answer jwt self request s).1.core
  unfolding answer handle_received_command
  answer-Kept self request s fit h =
      let s' = check_token jwt self request s in
      let (same, fit') = checked self request s fit in
      continue_with-rule (λ t. Kept s.core t.core) (handle_received_command jwt self request s) _
        (subst (λ c. Kept c (handle_received_command jwt self request s).1.core) same
          (run_command-Kept self request.command request empty_response s' fit' (rw same h)))
        (λ _ k. k)
