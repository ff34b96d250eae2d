-- ===== src/Session/Handler.antt =====
-- handle_received_command.
use stock_app.Common.{Bool, true, false, not, some, ◌∷◌, if◌then◌else◌}
use stock_app.Proto
use stock_app.Proto.{TradeRequest, TradeResponse, CommandType, Status, no_response_data}
use stock_app.Platform.{Platform}
use stock_app.Auth.{Jwt, verify_token}
use stock_app.ClientDataManager.Views.{
  get_all_active_orders, get_last_completed_orders, get_quote_history,
}
use stock_app.Core.Loop.{Books}
use stock_app.Session.State.{Session, Server, Handler, ◌>>=◌, returning}
use stock_app.Session.Manager.{close_this_session}
use stock_app.Session.Commands.{
  handle_sign_up_command, handle_sign_in_command, handle_make_order_command,
  handle_view_balance_command, handle_cancel_active_order_command,
}

abbrev pub needs_token : CommandType → Bool
needs_token Proto.sign_in = false
needs_token Proto.sign_up = false
needs_token _ = true

abbrev pub with_status : Status → TradeResponse → TradeResponse
with_status status response = record response { response_msg = status }

-- A new response.
abbrev pub empty_response : TradeResponse
empty_response = record { response_msg = Proto.error; data_of = no_response_data }

module _ {p : Platform} {b : Books} (jwt : Jwt) (self : Session) where
  -- The response to an invalid token: it is written, and the session is closed.
  unfoldable pub reject_token : TradeResponse → Server p b → Server p b
  reject_token response s =
      close_this_session self (record s { written = (self, response) ∷ s.written })

  -- The test before the switch. Nothing returns from the function there.
  unfoldable pub check_token : TradeRequest → Server p b → Server p b
  check_token request s =
      if needs_token request.command
      then (if not (verify_token jwt s.secret_key request.jwt (s.client_username self))
          then reject_token empty_response s
          else s)
      else s

  -- The switch.
  unfoldable pub run_command :
      CommandType → TradeRequest → TradeResponse → Handler p b TradeResponse
  run_command Proto.sign_up request response s =
      (handle_sign_up_command request >>= λ done. returning (
          with_status (if done then Proto.sign_up_successful else Proto.username_already_taken)
            response))
        s
  run_command Proto.sign_in request response s =
      (handle_sign_in_command jwt self request response >>= λ r.
      returning (if r.0 then with_status Proto.sign_in_successful r.1 else r.1))
        s
  run_command Proto.make_order request response s =
      (handle_make_order_command request >>= λ done.
      returning
        (with_status (if done then Proto.order_successfully_created else Proto.error) response))
        s
  run_command Proto.view_balance request response s =
      let (done, response') = handle_view_balance_command request response s in
      (some (with_status (if done then Proto.success_view_balance else Proto.error) response'), s)
  run_command Proto.view_all_active_orders request response s = (
    some (record {
      response_msg = Proto.success_view_all_active_orders;
      data_of = Proto.active_data (get_all_active_orders s.core.manager);
    }),
    s,
  )
  run_command Proto.view_completed_trades request response s = (
    some (record {
      response_msg = Proto.success_view_completed_trades;
      data_of = Proto.completed_data (get_last_completed_orders s.core.manager);
    }),
    s,
  )
  run_command Proto.view_quote_history request response s = (
    some (record {
      response_msg = Proto.success_view_quote_history;
      data_of = Proto.quotes_data (get_quote_history s.core.manager);
    }),
    s,
  )
  run_command Proto.cancel_active_order request response s =
      let (done, s') = handle_cancel_active_order_command self request s in
      (
        some (
            with_status
              (if done then Proto.success_cancel_active_order else Proto.error_cancel_active_order)
              response),
        s',
      )
  run_command (Proto.unknown_command _) request response s =
      (some (with_status Proto.error response), s)

  unfoldable pub handle_received_command : TradeRequest → Handler p b TradeResponse
  handle_received_command request s =
      run_command request.command request empty_response (check_token request s)

  -- The end of the handler of a message that was read: the response is written.
  unfoldable pub answer : TradeRequest → Handler p b TradeResponse
  answer request = handle_received_command request >>= λ response s.
      (some response, record s { written = (self, response) ∷ s.written })
