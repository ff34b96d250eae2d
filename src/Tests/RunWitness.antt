-- ===== src/Tests/RunWitness.antt =====
-- A run of the server of Fixtures: a new order, and a pass of the matching thread.
use stock_app.Common.{arith, [], ◌∷◌, ℕ, ◌≡◌, ◌↔◌, false, refl, true, none, some}
use stock_app.Common.Equality.{username_key, id_key}
use stock_app.Common.Map.{find, assign}
use stock_app.Proto
use stock_app.Queue.{selection_queue}
use stock_app.ClientDataManager.Balances.{create_new_client_fund_data}
use stock_app.ClientDataManager.ActiveOrders.{push_order_to_active_orders}
use stock_app.Proto.{TradeOrder, buy, sell}
use stock_app.Core.Loop.{Core, execute}
use stock_app.Core.Race.{then_listed, execute_unlisted}
use stock_app.Core.Cancel.{book_orders}
use stock_app.Core.Removal.{cancel_active_order}
use stock_app.Core.RemovalLaws.{has}
use stock_app.Core.Intake.{place_by_type, place_order_to_priority_queue}
use stock_app.Core.Passes.{Sound, SameClients}
use stock_app.Core.Persistence.{stock_pass}
use stock_app.Session.State.{Server}
use stock_app.Session.Manager.{is_user_logged_in, get_session_by_username, Turn, run, stop}
use stock_app.Session.Lookup.{Listed, get_session_by_username_iff, run_lem}
use stock_app.Session.Commands.{stamped_order}
use stock_app.Session.Handler.{answer}
use stock_app.Session.Runs.{stays, goes, requests, matches}
use stock_app.Session.Keeping.{Fits}
use stock_app.Session.Keeping.Requests.{answer-Kept}
use stock_app.Session.Keeping.Runs.{Reaches-Sound}
use stock_app.Tests.Fixtures.{
  host, books, order, three_orders, two_sessions, open_jwt, passed, passed-eq,
}
use stock_app.Tests.SessionWitnesses.{
  new_order, two_sessions-OneSessionEach, user1_nobody, buys-Ready, sells-Ready, new_order_low,
  new_order_high, new_order_new,
}

three-Sound : Sound three_orders
unfolding find assign create_new_client_fund_data push_order_to_active_orders selection_queue
    place_by_type place_order_to_priority_queue
three-Sound = record {
  buys_ready = buys-Ready;
  sells_ready = sells-Ready;
  buyers_known = ((_, refl), ((_, refl), tt));
  sellers_known = ((_, refl), tt);
}

new_order-Fits : Fits Proto.make_order new_order two_sessions
unfolding stamped_order find assign create_new_client_fund_data push_order_to_active_orders
    place_order_to_priority_queue place_by_type
new_order-Fits = (new_order_low, new_order_high, new_order_new, (_, refl))

abbrev with_order_made : Server host books
with_order_made = (answer open_jwt 1 new_order two_sessions).1

made-Sound : Sound with_order_made.core
made-Sound = (answer-Kept open_jwt 1 new_order two_sessions new_order-Fits three-Sound).0

abbrev with_pass : Server host books
with_pass = record with_order_made { core = passed with_order_made.core }

Reaches-Sound_example :
    Sound with_pass.core
    × SameClients three_orders with_pass.core
    × (c : Core host books) × (stock_pass true with_pass.core ≡ some (some tt, c))
Reaches-Sound_example =
    Reaches-Sound open_jwt two_sessions with_pass
      (goes (requests 1 new_order two_sessions) (
        goes
          (matches true (some tt) (passed with_order_made.core) with_order_made
            (passed-eq with_order_made.core made-Sound))
          (stays with_pass)))
      (new_order-Fits, (refl, tt)) three-Sound

get_session_by_username_iff_example :
    ((i : ℕ)
      → (get_session_by_username "User1" two_sessions ≡ some i)
        ↔ (Listed i (1 ∷ 2 ∷ []) × (two_sessions.client_username i ≡ "User1")))
    × ((get_session_by_username "User1" two_sessions ≡ none)
        ↔ (is_user_logged_in "User1" two_sessions ≡ false))
get_session_by_username_iff_example =
    get_session_by_username_iff "User1" two_sessions two_sessions-OneSessionEach user1_nobody

-- A turn in which nothing happens.
abbrev quiet : Turn host books
quiet = record { meanwhile = λ s. s; fresh = [] }

run_lem_example :
    (run (record { meanwhile = λ s. stop s; fresh = 3 ∷ [] } ∷ quiet ∷ []) two_sessions
      ≡ (true, stop two_sessions))
    × ((stop two_sessions).clients_sessions ≡ [])
run_lem_example = run_lem (λ s. s) (3 ∷ []) quiet [] two_sessions refl

-- An order whose session has not yet made it active, and one that it meets.
abbrev early : TradeOrder
early = order buy 9 9 640 10 "User2"

abbrev late : TradeOrder
late = order sell 3 3 610 50 "User3"

early_absent : find early.order_id three_orders.manager.active_buy_orders ≡ none
unfolding find assign create_new_client_fund_data push_order_to_active_orders
    place_order_to_priority_queue place_by_type
early_absent = refl

early_not_booked : has early.order_id (book_orders buy three_orders) ≡ false
unfolding has selection_queue create_new_client_fund_data push_order_to_active_orders
    place_order_to_priority_queue place_by_type
early_not_booked = refl

execute_unlisted_example :
    let c = then_listed early (execute early late three_orders) in
    (c.manager.clients_funds_data ≡ three_orders.manager.clients_funds_data)
    × (find early.order_id c.manager.active_buy_orders ≡ some early)
    × (book_orders buy c ≡ book_orders buy three_orders)
    × ((cancel_active_order buy early.order_id "User2" c).0 ≡ false)
execute_unlisted_example =
    execute_unlisted early late three_orders refl refl (omega arith) early_absent early_not_booked
