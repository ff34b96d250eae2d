-- ===== src/Postgres/Runs.antt =====
-- The server on PostgreSQL as a whole: the table of balances stays the balances in memory.
use mathlib.Core.List.Permᴰ
use mathlib.Core.Path.{subst}
use mathlib.Core.Option.{some-injective}
use stock_app.Common.{◌≡◌, refl, sym, ◌∙◌, ap, true, ℕ, some, [], All-perm}
use stock_app.Common.Equality.{username_key}
use stock_app.Proto
use stock_app.Proto.{TradeRequest, TradeResponse, CommandType, sign_in_request, cancel_order}
use stock_app.Queue.{ConcurrentQueue}
use stock_app.Auth.{Jwt}
use stock_app.Core.Loop.{Books, Core}
use stock_app.Core.Conservation.{AllKnown}
use stock_app.Core.IntakeLaws.{complement_order_books-IsConsistent}
use stock_app.Core.Passes.{Sound}
use stock_app.Core.Persistence.{stock_pass}
use stock_app.Session.State.{Session, Server, continue_with-rule, on_database}
use stock_app.Session.Manager.{close_this_session, remove_session}
use stock_app.Session.Stop.{stop_lem}
use stock_app.Session.Commands.{
  handle_sign_up_command, handle_sign_in_command, handle_make_order_command,
  handle_cancel_active_order_command,
}
use stock_app.Session.Handler.{
  answer, handle_received_command, run_command, check_token, empty_response,
}
use stock_app.Session.Runs.{
  Step, Reaches, requests, connects, disconnects, matches, stops, stays, goes,
}
use stock_app.Session.Keeping.Requests.{sign_in_if_core, checked_core}
use stock_app.Session.Keeping.Runs.{StepFits, RunFits, connected_core, Step-Kept}
use stock_app.Postgres.Backend.{Backend}
use stock_app.Postgres.Methods.{authenticate_user}
use stock_app.Postgres.Rollback.{database-IsReadOnly}
use stock_app.Postgres.ActiveOrders.{Connected, on_postgres}
use stock_app.Postgres.Refinement.{IsMirrored}
use stock_app.Postgres.SignUp.{same_tables, handle_sign_up_command-IsMirrored}
use stock_app.Postgres.Accounts.{
  SameAccounts-IsMirrored, cancel_active_order-SameAccounts, complement_order_books-SameAccounts,
  make_order-SameAccounts,
}
use stock_app.Postgres.Matching.{process_orders-IsMirrored}

second : {A B : Type 0} → A × B → B
second x = x.1

module _ (be : Backend) (queue : ConcurrentQueue) (clock : ℕ → ℕ) {b : Books} (jwt : Jwt)
    (steady : Connected be) where
  abbrev Mirrored : Server (on_postgres be queue clock) b → Type 0
  Mirrored s = IsMirrored be queue clock s.core.manager

  sign_in-IsMirrored :
      (self : Session) (request : TradeRequest) (response : TradeResponse)
      (s : Server (on_postgres be queue clock) b)
      → Mirrored s
      → Mirrored (handle_sign_in_command jwt self request response s).1
  unfolding handle_sign_in_command
  sign_in-IsMirrored self request response s i =
      let user = sign_in_request request.data_of in
      let m = s.core.manager in
      let r = authenticate_user be user.username user.password m.db in
      continue_with-rule Mirrored (on_database (authenticate_user be user.username user.password) s)
        _
        (same_tables be queue clock m r.1
          ((database-IsReadOnly be).1 user.username user.password m.db) i)
        (λ right k. rw (sign_in_if_core jwt self user.username response right _) k)

  run_command-IsMirrored :
      (self : Session) (c : CommandType) (request : TradeRequest) (response : TradeResponse)
      (s : Server (on_postgres be queue clock) b)
      → Mirrored s
      → Mirrored (run_command jwt self c request response s).1
  unfolding run_command handle_cancel_active_order_command
  run_command-IsMirrored self Proto.sign_up request response s i =
      continue_with-rule Mirrored (handle_sign_up_command request s) _
        (handle_sign_up_command-IsMirrored be queue clock request s steady i) (λ _ k. k)
  run_command-IsMirrored self Proto.sign_in request response s i =
      continue_with-rule Mirrored (handle_sign_in_command jwt self request response s) _
        (sign_in-IsMirrored self request response s i) (λ _ k. k)
  run_command-IsMirrored self Proto.make_order request response s i =
      continue_with-rule Mirrored (handle_make_order_command request s) _
        (SameAccounts-IsMirrored be queue clock (make_order-SameAccounts be queue clock request s)
          i)
        (λ _ k. k)
  run_command-IsMirrored self Proto.view_balance request response s i = i
  run_command-IsMirrored self Proto.view_all_active_orders request response s i = i
  run_command-IsMirrored self Proto.view_completed_trades request response s i = i
  run_command-IsMirrored self Proto.view_quote_history request response s i = i
  run_command-IsMirrored self Proto.cancel_active_order request response s i =
      let cancel = cancel_order request.data_of in
      SameAccounts-IsMirrored be queue clock
        (cancel_active_order-SameAccounts be queue clock cancel.type cancel.order_id
          (s.client_username self) s.core)
        i
  run_command-IsMirrored self (Proto.unknown_command n) request response s i = i

  answer-IsMirrored :
      (self : Session) (request : TradeRequest) (s : Server (on_postgres be queue clock) b)
      → Mirrored s
      → Mirrored (answer jwt self request s).1
  unfolding answer handle_received_command
  answer-IsMirrored self request s i =
      continue_with-rule Mirrored (handle_received_command jwt self request s) _
        (run_command-IsMirrored self request.command request empty_response
          (check_token jwt self request s) (rw (checked_core jwt self request s) i))
        (λ _ k. k)

  pass-IsMirrored :
      (c : Core (on_postgres be queue clock) b)
      → Sound c
      → IsMirrored be queue clock c.manager
      → (c' : Core (on_postgres be queue clock) b) × (stock_pass true c ≡ some (some tt, c'))
        × IsMirrored be queue clock c'.manager
  unfolding stock_pass
  pass-IsMirrored c h i =
      let (c1, run1, _, _, _, buys, sells, funds) =
        complement_order_books-IsConsistent c h.buys_ready h.sells_ready in
      let known : AllKnown c1 = record {
        buyers_known = rw funds (All-perm _ (Permᴰ.symm buys) h.buyers_known);
        sellers_known = rw funds (All-perm _ (Permᴰ.symm sells) h.sellers_known);
      } in
      let i1 =
        SameAccounts-IsMirrored be queue clock
          (complement_order_books-SameAccounts be queue clock c c1 run1) i in
      let (c2, run2, i2) = process_orders-IsMirrored be queue clock steady c1 known i1 in
      (c2, rw (stock_pass, run1, run2) refl, i2)

  Step-IsMirrored :
      {s t : Server (on_postgres be queue clock) b} (step : Step jwt s t)
      → StepFits jwt step
      → Sound s.core
      → Mirrored s
      → Mirrored t
  unfolding second close_this_session remove_session
  Step-IsMirrored (requests self request s) fit h i = answer-IsMirrored self request s i
  Step-IsMirrored (connects k s new) fit h i = rw (connected_core jwt k s) i
  Step-IsMirrored (disconnects self s) fit h i = i
  Step-IsMirrored (matches running result c s e) fit h i =
      let (c', run, j) = pass-IsMirrored s.core h i in
      let e' : stock_pass true s.core ≡ some (result, c) = rw fit at e in
      subst (λ d. IsMirrored be queue clock d.manager)
        (ap second (some-injective _ _ (sym run ∙ e'))) j
  Step-IsMirrored (stops s) fit h i = let (_, _, _, _, same) = stop_lem [] s in rw same i

  -- Suppose that the connection holds, that the orders of both sides, waiting and in the books, are
  -- active, with distinct ids and positive amounts that fit an int32, and of clients who have
  -- accounts, and that the table clients_balances has for every client the balance that the memory
  -- has, and rows of users only. Whatever steps the server then takes (requests on any sessions,
  -- each handled from its beginning to its end before the next step, new connections, closed
  -- sockets, passes of the matching thread and stops), as long as every new order has a positive
  -- amount that fits an int32, an id that is new to its side and an owner with an account, a name
  -- that is signed up has no account or is not new to the database, and the matching passes see a
  -- running server: in the state that is reached the table again has for every client the balance
  -- that the memory has, and rows of users only.
  pub Reaches-IsMirrored :
      (s t : Server (on_postgres be queue clock) b) (run : Reaches jwt s t)
      → RunFits jwt run
      → Sound s.core
      → IsMirrored be queue clock s.core.manager
      → IsMirrored be queue clock t.core.manager
  Reaches-IsMirrored s t (stays _) fit h i = i
  Reaches-IsMirrored s t (goes first rest) fit h i =
      Reaches-IsMirrored _ t rest fit.1 (Step-Kept jwt first fit.0 h).0
        (Step-IsMirrored first fit.0 h i)
