-- ===== src/Client/OnStock.antt =====
-- The client whose socket leads to a session of the server.
use stock_app.Common.{
  ℕ, ◌≡◌, ◌⊎◌, refl, sym, inl, inr, true, false, Option, none, some, String, arith, eqb, Bool-cases,
  Option-cases,
}
use stock_app.Common.Int.{ℤ}
use stock_app.Proto
use stock_app.Proto.{CommandType, TradeRequest, TradeResponse, sign_in_request}
use stock_app.Platform.{Platform}
use stock_app.Auth.{Jwt, verify_token, verify_token-generate_token}
use stock_app.Core.Loop.{Books}
use stock_app.Session.State.{Session, Server, with_manager}
use stock_app.Session.Manager.{is_user_logged_in}
use stock_app.Session.Commands.{sign_in_if, handle_sign_in_command}
use stock_app.Session.Handler.{
  needs_token, answer, handle_received_command, run_command, check_token,
}
use stock_app.Client.Terminal.{Client, World, Reply, read_fails, answered, Terminal, returned}
use stock_app.Client.Requests.{
  adds_identity, with_identity, handle_received_response_from_stock, is_accepted, with_token,
  get_response_from_stock, send_request_to_stock,
}
use stock_app.Client.Interface.{perform_auth_request}

eqb_self : (n : ℕ) → eqb n n ≡ true
eqb_self n = ground arith

-- The client adds its identity to the commands for which the server tests it.
same_commands : (c : CommandType) → needs_token c ≡ adds_identity c
same_commands Proto.sign_up = refl
same_commands Proto.sign_in = refl
same_commands Proto.make_order = refl
same_commands Proto.view_balance = refl
same_commands Proto.view_all_active_orders = refl
same_commands Proto.view_completed_trades = refl
same_commands Proto.view_quote_history = refl
same_commands Proto.cancel_active_order = refl
same_commands (Proto.unknown_command k) = refl

module _ (p : Platform) (b : Books) (jwt : Jwt) (self : Session) (stod : String → Option ℤ) where
  -- Without a response, the client's read ends with an error.
  abbrev reply_of : Option TradeResponse × Server p b → Reply × Server p b
  reply_of (none, s) = (read_fails, s)
  reply_of (some response, s) = (answered response, s)

  abbrev pub stock : World
  stock = record {
    Net = Server p b;
    exchange = λ request s. reply_of (answer jwt self request s);
    stod = stod;
  }

  -- A request with the token of the session's user changes nothing by the test.
  passes :
      (request : TradeRequest) (c : Client) (s : Server p b)
      → needs_token request.command ≡ true
      → verify_token jwt s.secret_key c.jwt_token (s.client_username self) ≡ true
      → check_token jwt self (with_identity c request) s ≡ s
  unfolding check_token with_identity
  passes request c s n v = rw (with_identity, sym (same_commands request.command), n, n) (rw v refl)

  -- A sign-in of the client either succeeds: the session and the client have taken the name, and the
  -- client's next request, whose command needs a token, passes the test of its token and changes
  -- nothing by it. Or it fails, and the client is as it was.
  pub perform_auth_request_lem :
      (username password : String) (t : Terminal stock) (request : TradeRequest)
      → needs_token request.command ≡ true
      → let r = perform_auth_request {w = stock} username password Proto.sign_in t in
        ((r.0 ≡ returned true)
          × (r.1.client.client_username ≡ username)
          × (r.1.net.client_username self ≡ username)
          × (check_token jwt self (with_identity r.1.client request) r.1.net ≡ r.1.net))
        ⊎ ((r.0 ≡ returned false) × (r.1.client ≡ t.client))
  unfolding sign_in_if perform_auth_request send_request_to_stock with_identity
      get_response_from_stock handle_received_response_from_stock is_accepted with_token answer
      handle_received_command check_token run_command handle_sign_in_command
  perform_auth_request_lem username password t request n =
      let s = t.net in
      let asked = p.database.authenticate_user username password s.core.manager.db in
      let m = s.core.manager in
      let s' : Server p b = with_manager (record m { db = asked.1 }) s in
      elim (Option-cases asked.0) [
        | inl e ↦ inr (rw (perform_auth_request, e) refl, rw (perform_auth_request, e) refl)
        | inr (false, e) ↦
            inr (rw (perform_auth_request, e) refl, rw (perform_auth_request, e) refl)
        | inr (true, e) ↦ elim (Bool-cases (is_user_logged_in username s')) [
          | inl l ↦ inr (rw (perform_auth_request, e, l) refl, rw (perform_auth_request, e, l) refl)
          | inr l ↦ inl (
            rw (perform_auth_request, e, l) refl,
            rw (perform_auth_request, e, l) refl,
            rw (perform_auth_request, e, l, eqb_self self) refl,
            rw (perform_auth_request, e, l)
                (passes request _ _ n (
                  rw (eqb_self self)
                    ((verify_token-generate_token jwt s.secret_key username username).1 refl))),
          )
        ]
      ]
