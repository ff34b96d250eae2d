-- ===== src/ClientDataManager/OrderQueues.antt =====
-- The order queues between the sessions and the matching thread: OrderQueue of
-- server/order_queue.cpp, and the queue operations of server/client_data_manager.cpp.
use stock_app.Common.{
  ◌≡◌, refl, Bool, true, false, none, some, List, [], eqb, eqb_iff, length, nil_of_length,
  Option-cases, inl, inr, arith,
}
use stock_app.Proto.{TradeType, buy, sell, TradeOrder, default_order}
use stock_app.Queue.{ConcurrentQueue}
use stock_app.Platform.{Platform}
use stock_app.ClientDataManager.State.{ClientDataManager, Test}

module _ (queue : ConcurrentQueue) where
  -- OrderQueue::push
  unfoldable pub push : TradeOrder → queue.Queue → Bool × queue.Queue
  push order q = queue.enqueue order q

  -- OrderQueue::pop, with the order that its reference then holds.
  unfoldable pub pop : queue.Queue → TradeOrder × Bool × queue.Queue
  pop q = elim (queue.try_dequeue q) [
    | none ↦ (default_order, false, q)
    | some (order, rest) ↦ (order, true, rest)
  ]

  pub pop-some :
      (q rest : queue.Queue) (order : TradeOrder)
      → queue.try_dequeue q ≡ some (order, rest)
      → pop q ≡ (order, true, rest)
  unfolding pop
  pop-some q rest order e = rw (pop, e)

  -- OrderQueue::is_empty
  unfoldable pub is_empty : queue.Queue → Bool
  is_empty q = eqb (queue.size_approx q) 0

module _ (queue : ConcurrentQueue) where
  -- What the test says of the orders that wait, and that a queue that is not empty yields one.
  pub is_empty-nil : (q : queue.Queue) → is_empty queue q ≡ true → queue.contents q ≡ []
  unfolding is_empty
  is_empty-nil q e =
      nil_of_length (queue.contents q)
        (omega (arith, queue.size_approx_lem q, (eqb_iff (queue.size_approx q) 0).0 e))

  pub not_empty-some :
      (q : queue.Queue)
      → is_empty queue q ≡ false
      → (x : TradeOrder × queue.Queue) × (queue.try_dequeue q ≡ some x)
  unfolding is_empty
  not_empty-some q e = elim (Option-cases (queue.try_dequeue q)) [
    | inl f ↦
        let none_there : length (queue.contents q) ≡ 0 = rw (queue.dequeue_none q f) refl in
        absurd (ground (arith, queue.size_approx_lem q))
    | inr (x, f) ↦ (x, f)
  ]

module _ {p : Platform} where
  abbrev pub order_queue : TradeType → ClientDataManager p → p.concurrent_queue.Queue
  order_queue buy m = m.buy_orders_queue
  order_queue sell m = m.sell_orders_queue

  abbrev pub set_order_queue :
      TradeType → p.concurrent_queue.Queue → ClientDataManager p → ClientDataManager p
  set_order_queue buy q m = record m { buy_orders_queue = q }
  set_order_queue sell q m = record m { sell_orders_queue = q }

  unfoldable pub is_empty_order_queue : TradeType → ClientDataManager p → Bool
  unfolding is_empty
  is_empty_order_queue type m = is_empty p.concurrent_queue (order_queue type m)

  unfoldable pub push_order_to_order_queue : TradeType → TradeOrder → Test p
  unfolding push
  push_order_to_order_queue type order m =
      let (done, q) = push p.concurrent_queue order (order_queue type m) in
      (done, set_order_queue type q m)

  unfoldable pub pop_order_from_order_queue :
      TradeType → ClientDataManager p → TradeOrder × Bool × ClientDataManager p
  unfolding pop
  pop_order_from_order_queue type m =
      let (order, done, q) = pop p.concurrent_queue (order_queue type m) in
      (order, done, set_order_queue type q m)

  -- The orders that wait in a queue.
  abbrev pub queued_orders : TradeType → ClientDataManager p → List TradeOrder
  queued_orders type m = p.concurrent_queue.contents (order_queue type m)
