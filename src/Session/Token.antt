-- ===== src/Session/Token.antt =====
-- What the token of a request decides, and what it does not.
use stock_app.Common.{
  ℕ, ◌≡◌, ◌≢◌, ◌∷◌, All, ◌⊎◌, refl, Bool, true, false, Option, some, String, arith, eqb, Bool-cases,
  inl, inr,
}
use stock_app.Proto
use stock_app.Proto.{TradeRequest, TradeResponse, CommandType, sign_in_request, jwt_data}
use stock_app.Platform.{Platform}
use stock_app.Auth.{Jwt, verify_token, generate_token, verify_token-generate_token}
use stock_app.Core.Loop.{Books}
use stock_app.Session.State.{Session, Server}
use stock_app.Session.Manager.{remove_session, close_this_session, is_user_logged_in}
use stock_app.Session.Identity.{OneSessionEachIn, erase_session-gone}
use stock_app.Session.Commands.{
  sign_in_if, handle_make_order_command, handle_view_balance_command,
  handle_cancel_active_order_command, after_stamp, stamped_order, signed_in,
}
use stock_app.Session.Handler.{
  handle_received_command, run_command, check_token, reject_token, needs_token, empty_response,
}

eqb_self : (n : ℕ) → eqb n n ≡ true
eqb_self n = ground arith

module _ {p : Platform} {b : Books} (jwt : Jwt) (self : Session) where
  -- Two runs with one result, and one core at the end.
  abbrev SameOutcome : {A : Type 0} → Option A × Server p b → Option A × Server p b → Type 0
  SameOutcome r r' = (r.0 ≡ r'.0) × (r.1.core ≡ r'.1.core)

  run_rejected :
      (request : TradeRequest) (response : TradeResponse) (s : Server p b) (c : CommandType)
      → needs_token c ≡ true
      → SameOutcome
          (run_command jwt self c request response (reject_token jwt self response s))
          (run_command jwt self c request response s)
  unfolding run_command reject_token close_this_session remove_session handle_make_order_command
      stamped_order after_stamp handle_view_balance_command handle_cancel_active_order_command
  run_rejected request response s Proto.sign_up n = ground arith
  run_rejected request response s Proto.sign_in n = ground arith
  run_rejected request response s Proto.make_order n = (ground arith, ground arith)
  run_rejected request response s Proto.view_balance n = (refl, refl)
  run_rejected request response s Proto.view_all_active_orders n = (refl, refl)
  run_rejected request response s Proto.view_completed_trades n = (refl, refl)
  run_rejected request response s Proto.view_quote_history n = (refl, refl)
  run_rejected request response s Proto.cancel_active_order n = (refl, refl)
  run_rejected request response s (Proto.unknown_command k) n = (refl, refl)

  -- Suppose that the listed sessions are different objects and no two of them are signed in as one
  -- user. A request other than a sign-up or a sign-in with an invalid token is carried out all the
  -- same: the response, the books, the balances, the orders and the database are those of the command
  -- itself. Before it, one empty response has been written to the session, its socket has been closed,
  -- and the session is in the list no more.
  pub handle_received_command_ignores_token :
      (request : TradeRequest) (s : Server p b)
      → needs_token request.command ≡ true
      → verify_token jwt s.secret_key request.jwt (s.client_username self) ≡ false
      → OneSessionEachIn s
      → ((handle_received_command jwt self request s).0
          ≡ (run_command jwt self request.command request empty_response s).0)
        × ((handle_received_command jwt self request s).1.core
            ≡ (run_command jwt self request.command request empty_response s).1.core)
        × ((check_token jwt self request s).written ≡ (self, empty_response) ∷ s.written)
        × ((check_token jwt self request s).closed ≡ self ∷ s.closed)
        × All (λ i. i ≢ self) (check_token jwt self request s).clients_sessions
  unfolding handle_received_command check_token reject_token close_this_session remove_session
  handle_received_command_ignores_token request s n v one =
      let rejected : check_token jwt self request s ≡ reject_token jwt self empty_response s =
        rw (n, v) refl in
      let (same, core) = run_rejected request empty_response s request.command n in
      (
        rw rejected same,
        rw rejected core,
        rw rejected refl,
        rw rejected refl,
        rw rejected (erase_session-gone s.client_username self s.clients_sessions one),
      )

  -- A sign-in with the right password of a user who is not signed in succeeds: the session takes the
  -- user's name, and the token of the response is accepted from it. With a wrong password, or when the
  -- user is signed in already, it is refused with the status that says so, and nothing changes.
  pub sign_in_if_lem :
      (user : String) (response : TradeResponse) (right : Bool) (s : Server p b)
      → let r = sign_in_if jwt self user response right s in
        ((right ≡ true)
          × (is_user_logged_in user s ≡ false)
          × (token : String) × (r.0 ≡ some (true, record response { data_of = jwt_data token }))
          × (r.1.client_username self ≡ user)
          × (verify_token jwt r.1.secret_key token (r.1.client_username self) ≡ true))
        ⊎ (((right ≡ true)
              × (is_user_logged_in user s ≡ true)
              × (r ≡ (
                some (false, record response { response_msg = Proto.user_already_logged_in }),
                s,
              )))
            ⊎ ((right ≡ false)
                × (r ≡ (
                  some (
                    false,
                    record response { response_msg = Proto.invalid_username_or_password },
                  ),
                  s,
                ))))
  unfolding sign_in_if
  sign_in_if_lem user response false s = inr (inr (refl, refl))
  sign_in_if_lem user response true s = elim (Bool-cases (is_user_logged_in user s)) [
    | inl e ↦ inr (inl (refl, e, rw e refl))
    | inr e ↦
        let name : (signed_in self user s).client_username self ≡ user = rw (eqb_self self) refl in
        inl (
          refl,
          e,
          generate_token jwt s.secret_key user,
          rw e refl,
          rw e name,
          rw (e, name) ((verify_token-generate_token jwt s.secret_key user user).1 refl),
        )
  ]
