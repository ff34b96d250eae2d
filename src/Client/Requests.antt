-- ===== src/Client/Requests.antt =====
-- The requests that `Client` forms and sends, and what it makes of the responses.
use stock_app.Common.{Bool, true, false, String, if◌then◌else◌}
use stock_app.Common.Int.{ℤ}
use stock_app.Double.{Double}
use stock_app.Proto
use stock_app.Proto.{
  TradeType, TradeOrder, CancelTradeOrder, CommandType, TradeRequest, TradeResponse, ResponseData,
  Status, default_order,
}
use stock_app.Client.Terminal.{
  Client, World, Reply, write_fails, read_fails, answered, returned, throws, Ui,
}

-- The time and the id are those of a default-constructed order.
unfoldable pub form_order : Client → TradeType → Double → ℤ → TradeOrder
form_order self trade_type usd_cost usd_amount = record default_order {
  type = trade_type;
  usd_cost = usd_cost;
  usd_amount = usd_amount;
  usd_volume = usd_amount;
  username = self.client_username;
}

-- `Client::cancel_order`
unfoldable pub cancel_order_message : TradeType → ℤ → CancelTradeOrder
cancel_order_message trade_type order_id = record { type = trade_type; order_id = order_id }

-- `response.jwt()`
abbrev pub jwt_of : ResponseData → String
jwt_of (Proto.jwt_data token) = token
jwt_of _ = ""

-- `request.command() != SIGN_UP && request.command() != SIGN_IN`
abbrev pub adds_identity : CommandType → Bool
adds_identity Proto.sign_up = false
adds_identity Proto.sign_in = false
adds_identity _ = true

-- What the function returns, but for what it prints.
unfoldable pub is_accepted : Status → Bool
is_accepted Proto.sign_up_successful = true
is_accepted Proto.username_already_taken = false
is_accepted Proto.sign_in_successful = true
is_accepted Proto.invalid_username_or_password = false
is_accepted Proto.user_already_logged_in = false
is_accepted Proto.order_successfully_created = true
is_accepted Proto.success_view_balance = true
is_accepted Proto.success_view_all_active_orders = true
is_accepted Proto.success_view_completed_trades = true
is_accepted Proto.success_view_quote_history = true
is_accepted Proto.success_cancel_active_order = true
is_accepted Proto.error_cancel_active_order = true
is_accepted Proto.error = true
is_accepted Proto.order_matched = false

-- Where the token is saved.
unfoldable pub with_token : Status → ResponseData → Client → Client
with_token Proto.sign_in_successful data_of self = record self { jwt_token = jwt_of data_of }
with_token _ data_of self = self

unfoldable pub handle_received_response_from_stock : TradeResponse → Client → Bool × Client
handle_received_response_from_stock response self =
    (is_accepted response.response_msg, with_token response.response_msg response.data_of self)

-- The request as it is sent.
unfoldable pub with_identity : Client → TradeRequest → TradeRequest
with_identity self request =
    if adds_identity request.command
    then record request { jwt = self.jwt_token; username = self.client_username }
    else request

module _ {w : World} where
  -- get_response_from_stock, after the request has been written.
  unfoldable pub get_response_from_stock : Reply × w.Net → Ui w Bool
  get_response_from_stock (write_fails, net) t = (throws, record t { net = net })
  get_response_from_stock (read_fails, net) t = (returned false, record t { net = net })
  get_response_from_stock (answered response, net) t =
      let (accepted, self) = handle_received_response_from_stock response t.client in
      (returned accepted, record t { net = net; client = self })

  unfoldable pub send_request_to_stock : TradeRequest → Ui w Bool
  send_request_to_stock request t =
      get_response_from_stock (w.exchange (with_identity t.client request) t.net) t
