-- ===== src/Tests/SessionWitnesses.antt =====
-- The theorems about sessions, tokens and ids at the server of Fixtures.
use mathlib.Core.List.{Permᴰ}
use stock_app.Common.{
  ℕ, ◌≡◌, ◌≢◌, ◌↔◌, ◌⊎◌, ◌%◌, ◌^◌, ◌≤◌, refl, true, false, String, some, [], ◌∷◌, arith, eqb, All,
}
use stock_app.Common.Int.{ℤ, pos, ◌<ℤ◌}
use stock_app.Common.Equality.{username_key, id_key}
use stock_app.Common.Map.{find, assign}
use stock_app.Common.Word.{to_int64}
use stock_app.Proto
use stock_app.Proto.{
  TradeRequest, TradeResponse, buy, sell, TradeOrder, jwt_data, order_data, cancel_data,
  sign_in_data, sign_up_data,
}
use stock_app.Queue.{selection_queue}
use stock_app.TimeOrderUtils.{generate_id, generate_id_unique, generate_id_negative}
use stock_app.Auth.{verify_token}
use stock_app.ClientDataManager.Balances.{create_new_client_fund_data}
use stock_app.ClientDataManager.ActiveOrders.{push_order_to_active_orders}
use stock_app.ClientDataManager.OrderQueues.{push, push_order_to_order_queue}
use stock_app.Core.Intake.{place_by_type, place_order_to_priority_queue}
use stock_app.Core.IntakeLaws.{Ready, side_orders}
use stock_app.Session.State.{Server}
use stock_app.Session.Manager.{is_user_logged_in, try_to_create_new_session_client_connection}
use stock_app.Session.Commands.{handle_make_order_command, stamped_order, after_stamp, sign_in_if}
use stock_app.Session.Handler.{
  answer, handle_received_command, run_command, check_token, empty_response,
}
use stock_app.Session.Identity.{OneSessionEachIn, handle_received_command-OneSessionEach}
use stock_app.Session.Runs.{stays, goes, requests, connects, Reaches-OneSessionEach}
use stock_app.Session.Wire.{
  Codec, frame, htonl_bytes, async_read_data_from_socket, answer_all,
  async_read_data_from_socket_lem,
}
use stock_app.Session.Token.{handle_received_command_ignores_token, sign_in_if_lem}
use stock_app.Session.Ordering.{make_order-Ready}
use stock_app.Tests.Fixtures.{host, books, order, three_orders, two_sessions, open_jwt, asking}

abbrev user2 : Proto.Credentials
user2 = record { username = "User2"; password = "secret" }

one_two : ◌≢◌ {A = ℕ} 1 2
one_two h = ground arith

pub user1_nobody : ◌≢◌ {A = String} "User1" ""
user1_nobody h = let e : false ≡ true = (username_key.same_iff "User1" "").1 h in ground arith

pub two_sessions-OneSessionEach : OneSessionEachIn two_sessions
two_sessions-OneSessionEach = (((one_two, λ h. absurd (user1_nobody h)), tt), (tt, tt))

handle_received_command-OneSessionEach_example :
    OneSessionEachIn
      (handle_received_command open_jwt 2
        (asking Proto.sign_in (sign_in_data user2))
        two_sessions).1
handle_received_command-OneSessionEach_example =
    handle_received_command-OneSessionEach open_jwt 2 (asking Proto.sign_in (sign_in_data user2))
      two_sessions two_sessions-OneSessionEach

-- A connection, then a sign-in on the second session.
abbrev with_third : Server host books
with_third = try_to_create_new_session_client_connection (3 ∷ []) two_sessions

abbrev signing_in : TradeRequest
signing_in = asking Proto.sign_in (sign_in_data user2)

one_three : ◌≢◌ {A = ℕ} 1 3
one_three h = ground arith

two_three : ◌≢◌ {A = ℕ} 2 3
two_three h = ground arith

Reaches-OneSessionEach_example : OneSessionEachIn (answer open_jwt 2 signing_in with_third).1
Reaches-OneSessionEach_example =
    Reaches-OneSessionEach open_jwt two_sessions (answer open_jwt 2 signing_in with_third).1
      (goes (connects 3 two_sessions (one_three, (two_three, tt))) (
        goes (requests 2 signing_in with_third)
          (stays (answer open_jwt 2 signing_in with_third).1)))
      two_sessions-OneSessionEach

-- A codec for this one request.
abbrev one_byte : Codec
one_byte = record { serialize = λ _. 7 ∷ []; parse = λ _. signing_in }

async_read_data_from_socket_example :
    async_read_data_from_socket one_byte open_jwt 2 11
      (0 ∷ 0 ∷ 0 ∷ 1 ∷ 7 ∷ 0 ∷ 0 ∷ 0 ∷ 1 ∷ 7 ∷ [])
      two_sessions
    ≡ answer_all one_byte open_jwt 2 (signing_in ∷ signing_in ∷ []) two_sessions
unfolding frame htonl_bytes
async_read_data_from_socket_example =
    async_read_data_from_socket_lem one_byte open_jwt 2 (signing_in ∷ signing_in ∷ []) two_sessions
      ((omega arith, refl), ((omega arith, refl), tt))

abbrev cancel_one : TradeRequest
cancel_one =
    asking Proto.cancel_active_order (cancel_data (record { type = buy; order_id = pos 1 }))

forged : verify_token open_jwt "key" "forged" "User1" ≡ false
unfolding verify_token
forged = refl

handle_received_command_ignores_token_example :
    ((handle_received_command open_jwt 1 cancel_one two_sessions).0
      ≡ (run_command open_jwt 1 Proto.cancel_active_order cancel_one empty_response two_sessions).0)
    × ((handle_received_command open_jwt 1 cancel_one two_sessions).1.core
        ≡ (run_command open_jwt 1 Proto.cancel_active_order cancel_one empty_response
            two_sessions).1.core)
    × ((check_token open_jwt 1 cancel_one two_sessions).written
        ≡ (1, empty_response) ∷ two_sessions.written)
    × ((check_token open_jwt 1 cancel_one two_sessions).closed ≡ 1 ∷ two_sessions.closed)
    × All (λ i. i ≢ 1) (check_token open_jwt 1 cancel_one two_sessions).clients_sessions
handle_received_command_ignores_token_example =
    handle_received_command_ignores_token open_jwt 1 cancel_one two_sessions refl forged
      two_sessions-OneSessionEach

sign_in_if_example :
    let r = sign_in_if open_jwt 2 "User2" empty_response true two_sessions in
    ((true ≡ true)
      × (is_user_logged_in "User2" two_sessions ≡ false)
      × (token : String) × (r.0
          ≡ some (true, record { response_msg = Proto.error; data_of = jwt_data token }))
      × (r.1.client_username 2 ≡ "User2")
      × (verify_token open_jwt r.1.secret_key token (r.1.client_username 2) ≡ true))
    ⊎ (((true ≡ true)
          × (is_user_logged_in "User2" two_sessions ≡ true)
          × (r ≡ (
            some (false, record empty_response { response_msg = Proto.user_already_logged_in }),
            two_sessions,
          )))
        ⊎ ((true ≡ false)
            × (r ≡ (
              some (
                false,
                record empty_response { response_msg = Proto.invalid_username_or_password },
              ),
              two_sessions,
            ))))
sign_in_if_example = sign_in_if_lem open_jwt 2 "User2" empty_response true two_sessions

zero_one : ◌≢◌ {A = ℕ} (0 % 2 ^ 32) (1 % 2 ^ 32)
zero_one h = ground arith

generate_id_unique_example : generate_id 5 0 ≢ generate_id 5 1
generate_id_unique_example = generate_id_unique 5 5 0 1 zero_one

generate_id_negative_example :
    (generate_id 1_764_000_000_000 0 <ℤ pos 0) ↔ (2 ^ 31 ≤ 1_764_000_000_000 % 2 ^ 32)
generate_id_negative_example = generate_id_negative 1_764_000_000_000 0

abbrev pub new_order : TradeRequest
new_order = asking Proto.make_order (order_data (order buy 0 0 600 9 "User1"))

new_order_taken : (handle_make_order_command new_order two_sessions).0 ≡ some true
unfolding handle_make_order_command push_order_to_order_queue push stamped_order after_stamp
new_order_taken = refl

abbrev new_id : ℤ
new_id = pos 4_294_967_296

new_order_stamped :
    stamped_order new_order two_sessions
    ≡ (let o = order buy 0 0 600 9 "User1" in record o { order_id = new_id })
unfolding stamped_order generate_id to_int64 push_order_to_active_orders place_by_type
    place_order_to_priority_queue create_new_client_fund_data
new_order_stamped = refl

pub ids_differ : (a b : ℕ) → eqb a b ≡ false → pos a ≢ pos b
ids_differ a b e h = ground arith

pub buys-Ready : Ready buy three_orders
unfolding find assign create_new_client_fund_data push_order_to_active_orders selection_queue
    place_by_type place_order_to_priority_queue
buys-Ready = record {
  all_active =
      ((refl, refl, omega arith, omega arith), ((refl, refl, omega arith, omega arith), tt));
  distinct = ((ids_differ 2 1 refl, tt), (tt, tt));
}

pub sells-Ready : Ready sell three_orders
unfolding find assign create_new_client_fund_data push_order_to_active_orders selection_queue
    place_by_type place_order_to_priority_queue
sells-Ready = record {
  all_active = ((refl, refl, omega arith, omega arith), tt);
  distinct = (tt, tt);
}

pub new_order_new :
    All
      (λ y. (stamped_order new_order two_sessions).order_id ≢ y.order_id)
      (side_orders buy three_orders)
unfolding stamped_order generate_id to_int64 push_order_to_active_orders place_by_type
    selection_queue place_order_to_priority_queue create_new_client_fund_data
new_order_new = (ids_differ 4_294_967_296 2 refl, (ids_differ 4_294_967_296 1 refl, tt))

pub new_order_low : pos 0 <ℤ (stamped_order new_order two_sessions).usd_amount
unfolding stamped_order
new_order_low = omega arith

pub new_order_high : (stamped_order new_order two_sessions).usd_amount <ℤ pos (2 ^ 31)
unfolding stamped_order
new_order_high = omega arith

new_order_type : (stamped_order new_order two_sessions).type ≡ buy
unfolding stamped_order
new_order_type = refl

make_order-Ready_example :
    let o = stamped_order new_order two_sessions in
    let c = (handle_make_order_command new_order two_sessions).1.core in
    Permᴰ (side_orders buy c) (o ∷ side_orders buy three_orders)
    × Ready buy c
    × Ready sell c
    × (c.manager.clients_funds_data ≡ three_orders.manager.clients_funds_data)
make_order-Ready_example =
    make_order-Ready buy new_order two_sessions new_order_taken new_order_type new_order_low
      new_order_high new_order_new buys-Ready sells-Ready
