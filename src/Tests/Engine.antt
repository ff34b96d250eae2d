-- ===== src/Tests/Engine.antt =====
-- The cases of tests/core_test.cpp, and cancellations.
use stock_app.Common.{
  ℕ, ◌*◌, ◌^◌, ◌≡◌, refl, true, false, String, Option, none, some, List, [], ◌∷◌,
}
use stock_app.Common.Int.{ℤ, pos, ◌+ℤ◌, ◌*ℤ◌, ◌-ℤ◌}
use stock_app.Double.{units, ◌+ᵈ◌, ◌-ᵈ◌, times_int, near, rounded, excess, epsilon}
use stock_app.Common.Word.{to_int32}
use stock_app.Common.Equality.{username_key, id_key}
use stock_app.Common.Map.{Map, find, assign, erase}
use stock_app.Proto.{buy, sell, TradeOrder, AccountBalance}
use stock_app.Queue.{selection_queue}
use stock_app.Queue.Selection.{take_best}
use stock_app.ClientDataManager.Balances.{
  adjust, change_client_balance, get_client_balance, update_clients_balances_in_db,
  change_four_balances, change_client_balances_according_match, create_new_client_fund_data,
}
use stock_app.ClientDataManager.ActiveOrders.{
  reduce, update_active_order_usd_amount, remove_order_from_active_orders, add_order_to_completed,
  push_order_to_active_orders,
}
use stock_app.Core.Order.{buy_order_comparator, sell_order_comparator, crosses}
use stock_app.Core.Match.{
  transaction_amount, transaction_cost, update_active_order_usd_amount_in_client_data_manager,
  match_orders, complete_if_filled, push_if_left,
}
use stock_app.Core.Loop.{Core, execute, process_round, process_rounds, process_orders}
use stock_app.Core.Intake.{place_by_type, place_order_to_priority_queue}
use stock_app.Core.Removal.{
  remove_loop, remove_from_queue, remove_order_by_id, may_cancel, cancel_active_order,
}
use stock_app.Tests.Fixtures.{host, books, order, with_orders, three_orders}

-- What is left to sell and to buy, each with its id.
abbrev amounts : Map ℤ TradeOrder → List (ℤ × ℤ)
amounts [] = []
amounts ((id, o) ∷ m) = (id, o.usd_amount) ∷ amounts m

-- The balances in RUB and USD, and the amounts of the active orders.
abbrev outcome :
    Option (Core host books) → Option (Map String AccountBalance × List (ℤ × ℤ) × List (ℤ × ℤ))
outcome none = none
outcome (some c) = some (
  c.manager.clients_funds_data,
  amounts c.manager.active_buy_orders,
  amounts c.manager.active_sell_orders,
)

abbrev whole : ℕ → ℕ → ℤ
whole got paid = pos (got * units) -ℤ pos (paid * units)

abbrev holds : String → ℤ → ℤ → String × AccountBalance
holds client usd rub = (client, record { usd_balance = usd; rub_balance = rub })

-- ExamlpeTestCase, NonIntersectingOrders, MatchingOrdersWithSamePriceAndVolume and
-- MultipleOrderExecution.
core_test :
    (outcome (process_orders three_orders)
      ≡ some (
        holds "User1" (whole 10 0) (whole 0 620)
            ∷ holds "User2" (whole 20 0) (whole 0 1260)
            ∷ holds "User3" (whole 0 30) (whole 1880 0)
            ∷ [],
        [],
        (pos 3, pos 20) ∷ [],
      ))
    × (outcome (
          process_orders
            (with_orders (order sell 2 2 610 10 "Seller" ∷ order buy 1 1 600 10 "Buyer" ∷ [])))
        ≡ some (
          holds "Buyer" (pos 0) (pos 0) ∷ holds "Seller" (pos 0) (pos 0) ∷ [],
          (pos 1, pos 10) ∷ [],
          (pos 2, pos 10) ∷ [],
        ))
    × (outcome (
          process_orders
            (with_orders (order sell 2 2 725 15 "Seller" ∷ order buy 1 1 725 15 "Buyer" ∷ [])))
        ≡ some (
          holds "Buyer" (whole 15 0) (pos 0 -ℤ pos (2175 * 2 ^ 1073))
              ∷ holds "Seller" (whole 0 15) (pos (2175 * 2 ^ 1073))
              ∷ [],
          [],
          [],
        ))
    × (outcome (
          process_orders (
            with_orders (
              order sell 5 5 635 25 "Seller2"
              ∷ order sell 4 4 620 30 "Seller1"
              ∷ order buy 3 3 630 10 "Buyer3"
              ∷ order buy 2 2 640 15 "Buyer2"
              ∷ order buy 1 1 650 20 "Buyer1"
              ∷ [])))
        ≡ some (
          holds "Buyer1" (whole 20 0) (whole 0 1300)
              ∷ holds "Buyer2" (whole 15 0) (whole 0 960)
              ∷ holds "Buyer3" (pos 0) (pos 0)
              ∷ holds "Seller1" (whole 0 30) (whole 1940 0)
              ∷ holds "Seller2" (whole 0 5) (whole 320 0)
              ∷ [],
          (pos 3, pos 10) ∷ [],
          (pos 5, pos 20) ∷ [],
        ))
unfolding ◌+ᵈ◌ ◌-ᵈ◌ times_int near rounded excess epsilon ◌+ℤ◌ ◌-ℤ◌ ◌*ℤ◌ to_int32 find assign erase
    selection_queue take_best adjust change_client_balance get_client_balance
    update_clients_balances_in_db change_four_balances change_client_balances_according_match
    create_new_client_fund_data reduce update_active_order_usd_amount
    remove_order_from_active_orders add_order_to_completed push_order_to_active_orders
    buy_order_comparator sell_order_comparator crosses transaction_amount transaction_cost
    update_active_order_usd_amount_in_client_data_manager match_orders complete_if_filled
    push_if_left execute process_round process_rounds process_orders place_by_type
    place_order_to_priority_queue
core_test = (refl, refl, refl, refl)

-- Only the owner cancels, and only what is there.
cancellations :
    ((cancel_active_order buy (pos 2) "User2" three_orders).0 ≡ true)
    × ((cancel_active_order buy (pos 2) "User1" three_orders).0 ≡ false)
    × ((cancel_active_order sell (pos 2) "User2" three_orders).0 ≡ false)
    × (outcome (process_orders (cancel_active_order buy (pos 2) "User2" three_orders).1)
        ≡ some (
          holds "User1" (whole 10 0) (whole 0 620)
              ∷ holds "User2" (pos 0) (pos 0)
              ∷ holds "User3" (whole 0 10) (whole 620 0)
              ∷ [],
          [],
          (pos 3, pos 40) ∷ [],
        ))
unfolding ◌+ᵈ◌ ◌-ᵈ◌ times_int near rounded excess epsilon ◌+ℤ◌ ◌-ℤ◌ ◌*ℤ◌ to_int32 find assign erase
    selection_queue take_best adjust change_client_balance get_client_balance
    update_clients_balances_in_db change_four_balances change_client_balances_according_match
    create_new_client_fund_data reduce update_active_order_usd_amount
    remove_order_from_active_orders add_order_to_completed push_order_to_active_orders
    buy_order_comparator sell_order_comparator crosses transaction_amount transaction_cost
    update_active_order_usd_amount_in_client_data_manager match_orders complete_if_filled
    push_if_left execute process_round process_rounds process_orders place_by_type
    place_order_to_priority_queue remove_loop remove_from_queue remove_order_by_id may_cancel
    cancel_active_order
cancellations = (refl, refl, refl, refl)

-- 0.1 + 0.2, and what 75.000001 is near to.
doubles :
    (pos (3602879701896397 * 2 ^ 1019) +ᵈ pos (3602879701896397 * 2 ^ 1020)
      ≡ pos (1351079888211149 * 2 ^ 1022))
    × (near (pos (659706985461693 * 2 ^ 1031)) (pos (75 * 2 ^ 1074)) ≡ true)
    × (near (pos (329853497128893 * 2 ^ 1032)) (pos (659706985461693 * 2 ^ 1031)) ≡ true)
unfolding ◌+ᵈ◌ ◌-ᵈ◌ near rounded excess epsilon ◌+ℤ◌ ◌-ℤ◌
doubles = (refl, refl, refl)
