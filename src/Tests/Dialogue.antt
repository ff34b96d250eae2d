-- ===== src/Tests/Dialogue.antt =====
-- A dialogue with the client, whose socket leads to a server on an empty database.
use stock_app.Common.{◌≡◌, refl, false, some, List, [], ◌∷◌, map}
use stock_app.Common.Int.{ℤ, pos, ◌*ℤ◌}
use stock_app.Double.{of_int, hundredth}
use stock_app.Proto.{buy}
use stock_app.Database.{Void}
use stock_app.Client.OnStock.{stock}
use stock_app.Tests.Fixtures.{books, open_jwt, empty_server, plain_host, no_tables}
use stock_app.Client.Terminal.{World, Terminal, Outcome, auth_input}
use stock_app.ClientDataManager.OrderQueues.{queued_orders, push_order_to_order_queue}
use stock_app.Client.Numbers.{
  skip_spaces, read_digits, read_sign, sto, menu_option, valid_menu_option_num_choice,
  is_auth_input, get_valid_auth_input, convert, get_valid_numeric_input,
}
use stock_app.Client.Requests.{
  form_order, is_accepted, with_token, handle_received_response_from_stock, with_identity,
  get_response_from_stock, send_request_to_stock,
}
use stock_app.Client.Interface.{
  perform_auth_request, handle_make_order, handle_exit, stock_menu_option, stock_menu_pass,
  after_auth_request, authenticate, auth_menu_option, auth_menu_pass, menu_loop, auth_menu,
  stock_menu, run,
}
use stock_app.Session.Commands.{
  handle_sign_up_command, sign_in_if, handle_sign_in_command, stamped_order, after_stamp,
  handle_make_order_command,
}
use stock_app.Session.Handler.{check_token, run_command, handle_received_command, answer}
use stock_app.Session.Manager.{some_session_has, is_user_logged_in}
use stock_app.Postgres.Methods.{password_of, has_user, is_user_exists, add_user, authenticate_user}
use stock_app.ClientDataManager.Balances.{create_new_client_fund_data}
use stock_app.ClientDataManager.ActiveOrders.{push_order_to_active_orders}
use stock_app.Common.Word.{to_int16}
use stock_app.Auth.{generate_token, verify_token}

abbrev world : World
world = stock plain_host books open_jwt 1 (λ _. some (of_int (pos 62)))

abbrev prompt : Terminal world
prompt = record {
  lines = "1" ∷ "User1" ∷ "secret" ∷ "1" ∷ "1" ∷ "62" ∷ "10" ∷ "7" ∷ [];
  client = record { client_username = ""; jwt_token = "" };
  net = empty_server plain_host no_tables;
  closed = false;
}

-- Signing up, an order to buy 10 USD, and the exit.
abbrev end_state : Outcome Void × Terminal world
end_state = run prompt

abbrev waiting : List ℤ
waiting = map (λ o. o.usd_amount) (queued_orders buy end_state.1.net.core.manager)

-- The order waits at the server.
dialogue_waiting : waiting ≡ pos 10 ∷ []
unfolding skip_spaces read_digits read_sign sto menu_option valid_menu_option_num_choice
    is_auth_input get_valid_auth_input convert get_valid_numeric_input auth_input form_order
    is_accepted with_token handle_received_response_from_stock with_identity get_response_from_stock
    send_request_to_stock perform_auth_request handle_make_order handle_exit stock_menu_option
    stock_menu_pass after_auth_request authenticate auth_menu_option auth_menu_pass menu_loop
    auth_menu stock_menu run handle_sign_up_command sign_in_if handle_sign_in_command stamped_order
    after_stamp handle_make_order_command check_token run_command handle_received_command answer
    some_session_has is_user_logged_in password_of has_user is_user_exists add_user
    authenticate_user create_new_client_fund_data push_order_to_active_orders
    push_order_to_order_queue to_int16 generate_token verify_token ◌*ℤ◌ hundredth
dialogue_waiting = refl
