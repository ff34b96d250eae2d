-- ===== src/Client/Interface.antt =====
-- `UserInterface` of client/user_interface.cpp.
use stock_app.Common.{
  ℕ, zero, suc, ◌^◌, ◌-◌, Bool, true, false, not, ◌||◌, String, length, if◌then◌else◌,
}
use stock_app.Common.Int.{ℤ, pos, eqb_ℤ}
use stock_app.Double.{hundredth, of_int}
use stock_app.Proto
use stock_app.Proto.{
  TradeType, buy, sell, Credentials, CommandType, RequestData, TradeRequest, no_request_data,
}
use stock_app.Database.{Void}
use stock_app.Client.Numbers.{int_type, int64_type, double_type}
use stock_app.Client.Terminal.{
  World, returned, waits, exits, Ui, ◌>>=◌, returning, menu_choice, auth_input, numeric_input,
  then_continue,
}
use stock_app.Client.Requests.{form_order, cancel_order_message, send_request_to_stock}

-- A new request.
abbrev pub request_with : CommandType → RequestData → TradeRequest
request_with command data_of = record {
  command = command;
  username = "";
  jwt = "";
  data_of = data_of;
}

-- `(menu_order_type == 1) ? BUY : SELL`
abbrev pub chosen_type : ℤ → TradeType
chosen_type n = if eqb_ℤ n (pos 1) then buy else sell

module _ {w : World} where
  -- `client_.set_username(username)` after a sign-in.
  abbrev pub set_username : String → Ui w Bool
  set_username username t =
      let c = t.client in
      (returned true, record t { client = record c { client_username = username } })

  unfoldable pub perform_auth_request : String → String → CommandType → Ui w Bool
  perform_auth_request username password Proto.sign_up = send_request_to_stock (
      request_with Proto.sign_up
        (Proto.sign_up_data (record { username = username; password = password })))
  perform_auth_request username password Proto.sign_in =
      send_request_to_stock (
        request_with Proto.sign_in
          (Proto.sign_in_data (record { username = username; password = password })))
      >>= λ accepted. if accepted then set_username username else returning false
  perform_auth_request username password _ = returning false

  -- Sending and leaving the result.
  abbrev pub send_only : TradeRequest → Ui w Void
  send_only request = send_request_to_stock request >>= λ _. returning tt

  unfoldable pub handle_make_order : Ui w Void
  handle_make_order = menu_choice (pos 1) (pos 2) >>= λ menu_order_type.
      numeric_input double_type hundredth (of_int (pos 1000)) >>= λ usd_cost.
      numeric_input int_type (pos 1) (pos 1_000_000) >>= λ usd_amount t.
      send_only
        (request_with Proto.make_order (
          Proto.order_data (form_order t.client (chosen_type menu_order_type) usd_cost usd_amount)))
        t

  unfoldable pub handle_cancel_order : Ui w Void
  handle_cancel_order = menu_choice (pos 1) (pos 2) >>= λ menu_order_type.
      numeric_input int64_type (pos 1) (pos (2 ^ 63 - 1)) >>= λ cancel_order_id. send_only (
        request_with Proto.cancel_active_order
          (Proto.cancel_data (cancel_order_message (chosen_type menu_order_type) cancel_order_id)))

  -- handle_view_balance, handle_view_active_orders, handle_view_completed_trades and
  -- handle_view_quote_history
  unfoldable pub handle_view : CommandType → Ui w Void
  handle_view command = send_only (request_with command no_request_data)

  -- `client_.close()`, and the wait for the thread of the io_context.
  unfoldable pub handle_exit : Ui w Void
  handle_exit t = (returned tt, record t { closed = true })

  abbrev pub go_on : Ui w Void → Ui w Bool
  go_on f = f >>= λ _. returning false

  -- The switch of stock_menu: true when it returns.
  unfoldable pub stock_menu_option : ℤ → Ui w Bool
  stock_menu_option n =
      if eqb_ℤ n (pos 1)
      then go_on handle_make_order
      else if eqb_ℤ n (pos 2)
      then go_on (handle_view Proto.view_balance)
      else if eqb_ℤ n (pos 3)
      then go_on (handle_view Proto.view_all_active_orders)
      else if eqb_ℤ n (pos 4)
      then go_on (handle_view Proto.view_completed_trades)
      else if eqb_ℤ n (pos 5)
      then go_on (handle_view Proto.view_quote_history)
      else if eqb_ℤ n (pos 6)
      then go_on handle_cancel_order
      else if eqb_ℤ n (pos 7)
      then (handle_exit >>= λ _. returning true)
      else returning false

  -- One pass of the loop of stock_menu.
  unfoldable pub stock_menu_pass : Ui w Bool
  stock_menu_pass = menu_choice (pos 1) (pos 7) >>= stock_menu_option

  -- After a sign-up, a sign-in is attempted.
  unfoldable pub after_auth_request : ℤ → String → String → Bool → Ui w Bool
  after_auth_request n client_username client_password accepted =
      if not accepted
      then returning false
      else if eqb_ℤ n (pos 1)
      then perform_auth_request client_username client_password Proto.sign_in
      else returning true

  -- The options 1 and 2: true when the user is signed in.
  unfoldable pub authenticate : ℤ → Ui w Bool
  authenticate n = auth_input >>= λ client_username. auth_input >>= λ client_password.
      perform_auth_request client_username client_password
        (if eqb_ℤ n (pos 1) then Proto.sign_up else Proto.sign_in)
      >>= λ accepted. after_auth_request n client_username client_password accepted

  -- `exit(0)`, after the socket has been closed.
  unfoldable pub leave : Ui w Bool
  leave t = (exits, record t { closed = true })

  -- The switch of auth_menu.
  unfoldable pub auth_menu_option : ℤ → Ui w Bool
  auth_menu_option n =
      if eqb_ℤ n (pos 1) || eqb_ℤ n (pos 2)
      then authenticate n
      else if eqb_ℤ n (pos 3)
      then leave
      else returning false

  -- One pass of the loop of auth_menu.
  unfoldable pub auth_menu_pass : Ui w Bool
  auth_menu_pass = menu_choice (pos 1) (pos 3) >>= auth_menu_option

  -- `while (true)`: the fuel is the number of lines, of which every pass reads one.
  unfoldable pub menu_loop : Ui w Bool → ℕ → Ui w Void
  menu_loop pass zero t = (waits, t)
  menu_loop pass (suc fuel) t =
      then_continue (pass t)
        (λ done t'. elim done [ true ↦ (returned tt, t') | false ↦ menu_loop pass fuel t' ])

  unfoldable pub auth_menu : Ui w Void
  auth_menu t = menu_loop auth_menu_pass (suc (length t.lines)) t

  unfoldable pub stock_menu : Ui w Void
  stock_menu t = menu_loop stock_menu_pass (suc (length t.lines)) t

  -- `UserInterface::run`
  unfoldable pub run : Ui w Void
  run = auth_menu >>= λ _. stock_menu
