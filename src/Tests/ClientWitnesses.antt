-- ===== src/Tests/ClientWitnesses.antt =====
-- The theorems about the client at short inputs.
use stock_app.Common.{
  ◌*◌, ◌^◌, ◌≡◌, ◌⊎◌, ◌-◌, ◌^◌, refl, true, false, String, Option, none, some, List, [], ◌∷◌,
}
use stock_app.Common.Int.{ℤ, pos, negsuc, ◌≤ℤ◌}
use stock_app.Common.Word.{to_int16}
use stock_app.Proto
use stock_app.Proto.{TradeType, TradeOrder, TradeRequest, TradeResponse, no_response_data}
use stock_app.Platform.{Platform}
use stock_app.Session.Handler.{check_token}
use stock_app.Client.Numbers.{
  NumericType, codes, skip_spaces, read_digits, read_sign, sto, converted, out_of_range,
  invalid_argument, menu_option, valid_menu_option_num_choice, convert, get_valid_numeric_input,
}
use stock_app.Client.Reading.{Outcomes, inputs_lem}
use stock_app.Client.Terminal.{World, answered, Terminal, returned, waits}
use stock_app.Client.Requests.{with_identity}
use stock_app.Client.Interface.{
  request_with, perform_auth_request, handle_make_order, handle_cancel_order,
}
use stock_app.Client.Orders.{sent, IsOffered, handle_make_order_lem, handle_cancel_order_lem}
use stock_app.Client.OnStock.{stock, perform_auth_request_lem}
use stock_app.Tests.Fixtures.{host, books, noting_database, accepts, open_jwt, empty_server, asking}

-- "  -12x" is -12, and 5 characters are read; a short keeps 16 bits.
sto_minus_twelve : sto 32 (codes "  -12x") ≡ converted (negsuc 11) 5
unfolding sto read_digits read_sign skip_spaces
sto_minus_twelve = refl

sto_too_large : sto 32 (codes "2147483648") ≡ out_of_range
unfolding sto read_digits read_sign skip_spaces
sto_too_large = refl

sto_no_number : sto 64 (codes "x1") ≡ invalid_argument
unfolding sto read_digits read_sign skip_spaces
sto_no_number = refl

-- The menus take 65537 for 1, and 1abc.
narrowed : menu_option "65537" ≡ some (pos 1)
unfolding menu_option sto read_digits read_sign skip_spaces to_int16
narrowed = refl

partly_read : menu_option "1abc" ≡ some (pos 1)
unfolding menu_option sto read_digits read_sign skip_spaces to_int16
partly_read = refl

inputs_example :
    Outcomes menu_option
      (pos 1)
      (pos 3)
      ("abc" ∷ "5" ∷ "2" ∷ [])
      (valid_menu_option_num_choice (pos 1) (pos 3) ("abc" ∷ "5" ∷ "2" ∷ []))
    × ((stod : String → Option ℤ) (type : NumericType)
        → Outcomes
            (convert stod type)
            (pos 1)
            (pos 3)
            ("abc" ∷ "5" ∷ "2" ∷ [])
            (get_valid_numeric_input stod type (pos 1) (pos 3) ("abc" ∷ "5" ∷ "2" ∷ [])))
inputs_example = inputs_lem (pos 1) (pos 3) ("abc" ∷ "5" ∷ "2" ∷ [])

-- A stock that creates every order, and a stod that knows one number.
abbrev obliging : World
obliging = record {
  Net = List TradeRequest;
  exchange = λ request net. (
    answered
        (record { response_msg = Proto.order_successfully_created; data_of = no_response_data }),
    request ∷ net,
  );
  stod = λ _. some (pos (21 * 2 ^ 1073));
}

abbrev at_prompt : List String → Terminal obliging
at_prompt lines = record {
  lines = lines;
  client = record { client_username = "User1"; jwt_token = "token" };
  net = [];
  closed = false;
}

handle_make_order_example :
    let t = at_prompt ("1" ∷ "10.5" ∷ "7" ∷ []) in
    (((handle_make_order t).0 ≡ waits) × ((handle_make_order t).1.net ≡ []))
    ⊎ ((o : TradeOrder) × (rest : List String) × IsOffered t o
        × (handle_make_order t ≡ sent (request_with Proto.make_order (Proto.order_data o)) t rest))
handle_make_order_example = handle_make_order_lem (at_prompt ("1" ∷ "10.5" ∷ "7" ∷ []))

handle_cancel_order_example :
    let t = at_prompt ("2" ∷ "4" ∷ []) in
    (((handle_cancel_order t).0 ≡ waits) × ((handle_cancel_order t).1.net ≡ []))
    ⊎ ((type : TradeType) × (id : ℤ) × (rest : List String) × (pos 1 ≤ℤ id)
        × (id ≤ℤ pos (2 ^ 63 - 1))
        × (handle_cancel_order t
            ≡ sent
                (request_with Proto.cancel_active_order
                  (Proto.cancel_data (record { type = type; order_id = id })))
                t
                rest))
handle_cancel_order_example = handle_cancel_order_lem (at_prompt ("2" ∷ "4" ∷ []))

-- A server that finds every password right.
abbrev trusting : Platform
trusting = record host {
  database = record noting_database { authenticate_user = λ _ _. accepts true };
}

abbrev at_stock : Terminal (stock trusting books open_jwt 1 (λ _. none))
at_stock = record {
  lines = [];
  client = record { client_username = ""; jwt_token = "" };
  net = empty_server trusting [];
  closed = false;
}

perform_auth_request_example :
    let w = stock trusting books open_jwt 1 (λ _. none) in
    let r = perform_auth_request {w = w} "User1" "secret" Proto.sign_in at_stock in
    ((r.0 ≡ returned true)
      × (r.1.client.client_username ≡ "User1")
      × (r.1.net.client_username 1 ≡ "User1")
      × (check_token open_jwt 1
            (with_identity r.1.client (asking Proto.view_balance Proto.no_request_data))
            r.1.net
          ≡ r.1.net))
    ⊎ ((r.0 ≡ returned false) × (r.1.client ≡ at_stock.client))
perform_auth_request_example =
    perform_auth_request_lem trusting books open_jwt 1 (λ _. none) "User1" "secret" at_stock
      (asking Proto.view_balance Proto.no_request_data) refl
