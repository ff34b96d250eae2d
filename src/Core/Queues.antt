-- ===== src/Core/Queues.antt =====
-- The matching leaves the queues of new orders as they are.
use stock_app.Common.{◌≡◌, refl, ◌∙◌, ap, some, String, arith}
use stock_app.Common.Int.{ℤ}
use stock_app.Double.{Double}
use stock_app.Proto.{TradeType, buy, sell, TradeOrder}
use stock_app.Platform.{Platform}
use stock_app.ClientDataManager.State.{ClientDataManager, after_test-rule}
use stock_app.ClientDataManager.Balances.{
  change_client_balance, change_four_balances, change_client_balances_according_match,
  update_clients_balances_in_db,
}
use stock_app.ClientDataManager.ActiveOrders.{
  reduce, update_active_order_usd_amount, remove_order_from_active_orders, add_order_to_completed,
}
use stock_app.ClientDataManager.OrderQueues.{queued_orders}
use stock_app.Core.Match.{
  transaction_amount, transaction_cost, match_orders, complete_if_filled,
  update_active_order_usd_amount_in_client_data_manager,
}
use stock_app.Core.Loop.{Books, Core, execute, process_round, process_orders}
use stock_app.Core.Rounds.{taken, process_round_cases, Keeps, process_orders_rule}

module _ {p : Platform} where
  -- The queues of new orders are the same in two states.
  pub record SameQueues (m n : ClientDataManager p) : Type 0 where
    pub same_buy_queue : n.buy_orders_queue ≡ m.buy_orders_queue
    pub same_sell_queue : n.sell_orders_queue ≡ m.sell_orders_queue

  SameQueues-trans :
      {m n o : ClientDataManager p} → SameQueues m n → SameQueues n o → SameQueues m o
  SameQueues-trans h k = record {
    same_buy_queue = k.same_buy_queue ∙ h.same_buy_queue;
    same_sell_queue = k.same_sell_queue ∙ h.same_sell_queue;
  }

  pub remove_order-SameQueues :
      (id : ℤ) (t : TradeType) (m : ClientDataManager p)
      → SameQueues m (remove_order_from_active_orders id t m).1
  unfolding remove_order_from_active_orders
  remove_order-SameQueues id buy m = ground arith
  remove_order-SameQueues id sell m = ground arith

  update_active-SameQueues :
      (o : TradeOrder) (amount : ℤ) (m : ClientDataManager p)
      → SameQueues m (update_active_order_usd_amount o amount m).1
  unfolding update_active_order_usd_amount
  update_active-SameQueues o amount m = ground arith

  add_order_to_completed-SameQueues :
      (o : TradeOrder) (m : ClientDataManager p) → SameQueues m (add_order_to_completed o m).1
  unfolding add_order_to_completed remove_order_from_active_orders
  add_order_to_completed-SameQueues o m = ground arith

  complete_if_filled-SameQueues :
      (o : TradeOrder) (m : ClientDataManager p) → SameQueues m (complete_if_filled o m)
  unfolding complete_if_filled
  complete_if_filled-SameQueues o m = ground (arith, add_order_to_completed-SameQueues o m)

  change_balances-SameQueues :
      (s b : String) (amount : ℤ) (cost : Double) (m : ClientDataManager p)
      → SameQueues m (change_client_balances_according_match s b amount cost m).1
  unfolding change_client_balances_according_match change_four_balances change_client_balance
      update_clients_balances_in_db
  change_balances-SameQueues s b amount cost m = ground arith

  update_two-SameQueues :
      (s b : TradeOrder) (amount : ℤ) (m : ClientDataManager p)
      → SameQueues m (update_active_order_usd_amount_in_client_data_manager s b amount m).1
  unfolding update_active_order_usd_amount_in_client_data_manager
  update_two-SameQueues s b amount m =
      let r = update_active_order_usd_amount s amount m in
      after_test-rule (SameQueues m) r (update_active_order_usd_amount b amount)
        (update_active-SameQueues s amount m)
        (λ h. SameQueues-trans h (update_active-SameQueues b amount r.1))

  match_orders-SameQueues :
      (s b : TradeOrder) (m : ClientDataManager p) → SameQueues m (match_orders s b m).3
  unfolding match_orders
  match_orders-SameQueues s b m =
      let amount = transaction_amount s b in
      let r =
        update_active_order_usd_amount_in_client_data_manager (reduce amount s) (reduce amount b)
          amount m in
      after_test-rule (SameQueues m) r
        (change_client_balances_according_match s.username b.username amount (transaction_cost s b))
        (update_two-SameQueues (reduce amount s) (reduce amount b) amount m)
        (λ h.
          SameQueues-trans h
            (change_balances-SameQueues s.username b.username amount (transaction_cost s b) r.1))

  execute-SameQueues :
      {b : Books} (o s : TradeOrder) (c : Core p b) → SameQueues c.manager (execute o s c).manager
  unfolding execute
  execute-SameQueues o s c =
      let (_, s', o', m) = match_orders s o c.manager in
      SameQueues-trans (match_orders-SameQueues s o c.manager) (
        SameQueues-trans (complete_if_filled-SameQueues o' m)
          (complete_if_filled-SameQueues s' (complete_if_filled o' m)))

  pub queued_same :
      (t : TradeType) {m n : ClientDataManager p}
      → SameQueues m n
      → queued_orders t n ≡ queued_orders t m
  queued_same buy h = ap p.concurrent_queue.contents h.same_buy_queue
  queued_same sell h = ap p.concurrent_queue.contents h.same_sell_queue

module _ {p : Platform} {b : Books} where
  round-SameQueues :
      (m : ClientDataManager p) (c : Core p b)
      → SameQueues m c.manager
      → Keeps (λ d. SameQueues m d.manager) (λ d. SameQueues m d.manager) (process_round c)
  round-SameQueues m c h =
      process_round_cases (Keeps (λ d. SameQueues m d.manager) (λ d. SameQueues m d.manager)) c
        (λ _. h) (λ _. h)
        (λ o bs s ss _ _ _. SameQueues-trans h (execute-SameQueues o s (taken c bs ss)))
        (λ _ _ _ _ _ _ _. h)

  pub process_orders-SameQueues :
      (c : Core p b)
      → (c' : Core p b) × (process_orders c ≡ some c') × SameQueues c.manager c'.manager
  process_orders-SameQueues c =
      let m = c.manager in
      process_orders_rule (λ d. SameQueues m d.manager) (λ d. SameQueues m d.manager)
        (round-SameQueues m) c (record { same_buy_queue = refl; same_sell_queue = refl })
