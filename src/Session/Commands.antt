-- ===== src/Session/Commands.antt =====
-- The handlers of the single commands.
use stock_app.Common.{suc, Bool, true, false, not, none, some, String, eqb, if◌then◌else◌}
use stock_app.Common.Int.{pos}
use stock_app.Proto.{
  TradeOrder, TradeRequest, TradeResponse, jwt_data, balance_data, invalid_username_or_password,
  user_already_logged_in, sign_up_request, sign_in_request, order_of, cancel_order,
}
use stock_app.Platform.{Platform}
use stock_app.Auth.{Jwt, generate_token}
use stock_app.TimeOrderUtils.{generate_id}
use stock_app.ClientDataManager.Balances.{create_new_client_fund_data, get_client_balance}
use stock_app.ClientDataManager.ActiveOrders.{push_order_to_active_orders}
use stock_app.ClientDataManager.OrderQueues.{push_order_to_order_queue}
use stock_app.ClientDataManager.Waiting.{notify_order_received}
use stock_app.Core.Loop.{Books}
use stock_app.Core.Removal.{cancel_active_order}
use stock_app.Session.State.{
  Session, Server, Handler, ◌>>=◌, ◌>>◌, returning, with_manager, on_manager, on_database,
}
use stock_app.Session.Manager.{is_user_logged_in}

module _ {p : Platform} {b : Books} where
  unfoldable pub handle_sign_up_command : TradeRequest → Handler p b Bool
  handle_sign_up_command request =
      let user = sign_up_request request.data_of in
      on_database (p.database.is_user_exists user.username) >>= λ exists.
      if exists
      then returning false
      else (on_database (p.database.add_user user.username user.password)
          >> on_manager (λ m. (true, create_new_client_fund_data user.username m)))

  -- The session takes the name of the user.
  abbrev pub signed_in : Session → String → Server p b → Server p b
  signed_in self username s = record s {
    client_username = λ i. if eqb i self then username else s.client_username i;
  }

  -- After the database has said whether the password is right.
  unfoldable pub sign_in_if :
      Jwt → Session → String → TradeResponse → Bool → Handler p b (Bool × TradeResponse)
  sign_in_if jwt self username response right s =
      if not right
      then (some (false, record response { response_msg = invalid_username_or_password }), s)
      else if is_user_logged_in username s
      then (some (false, record response { response_msg = user_already_logged_in }), s)
      else (
        some (
          true,
          record response { data_of = jwt_data (generate_token jwt s.secret_key username) },
        ),
        signed_in self username s,
      )

  -- With what it sets in the response.
  unfoldable pub handle_sign_in_command :
      Jwt → Session → TradeRequest → TradeResponse → Handler p b (Bool × TradeResponse)
  handle_sign_in_command jwt self request response =
      let user = sign_in_request request.data_of in
      on_database (p.database.authenticate_user user.username user.password)
      >>= sign_in_if jwt self user.username response

  -- The order of the request with the time and the id that it gets.
  unfoldable pub stamped_order : TradeRequest → Server p b → TradeOrder
  stamped_order request s =
      let order = order_of request.data_of in
      let reads = s.core.manager.reads in
      record order {
        timestamp = pos (p.clock reads);
        order_id = generate_id (p.clock (suc reads)) s.ids;
      }

  -- After the two looks at the clock.
  unfoldable pub after_stamp : Server p b → Server p b
  after_stamp s =
      let m = s.core.manager in
      let s' = with_manager (record m { reads = suc (suc m.reads) }) s in
      record s' { ids = suc s.ids }

  -- From its beginning to its end. The push, the new entry among the active orders and the notification
  -- are steps of their own for the other threads; Core.Race and ClientDataManager.Waiting are about
  -- what comes between.
  unfoldable pub handle_make_order_command : TradeRequest → Handler p b Bool
  unfolding notify_order_received
  handle_make_order_command request s =
      let order = stamped_order request s in
      let s' = after_stamp s in
      let (pushed, m) = push_order_to_order_queue order.type order s'.core.manager in
      if not pushed
      then (some false, with_manager m s')
      else (let s'' = with_manager (push_order_to_active_orders order m) s' in
          (some true, record s'' { waiter = notify_order_received s''.waiter }))

  unfoldable pub handle_view_balance_command :
      TradeRequest → TradeResponse → Server p b → Bool × TradeResponse
  handle_view_balance_command request response s =
      elim ((get_client_balance request.username s.core.manager).0) [
        | none ↦ (false, response)
        | some balance ↦ (true, record response { data_of = balance_data balance })
      ]

  unfoldable pub handle_cancel_active_order_command :
      Session → TradeRequest → Server p b → Bool × Server p b
  handle_cancel_active_order_command self request s =
      let cancel = cancel_order request.data_of in
      let (done, c) =
        cancel_active_order cancel.type cancel.order_id (s.client_username self) s.core in
      (done, record s { core = c })
