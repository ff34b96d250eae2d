-- ===== src/Queue/Concurrent.antt =====
-- What server/order_queue.cpp calls of moodycamel::ConcurrentQueue<TradeOrder>, which is vendored.
-- The laws are the documented ones for a queue on which no other call is in flight: an element that
-- was enqueued is there until it is dequeued, and `size_approx` is then the number of elements.
-- The order in which elements of several producers come out is left open.
use mathlib.Core.List.{Permᴰ}
use stock_app.Common.{ℕ, ◌≡◌, Bool, true, false, Option, none, some, List, [], ◌∷◌, length}
use stock_app.Proto.{TradeOrder}

pub record ConcurrentQueue : Type 1 where
  pub Queue : Type 0
  pub empty : Queue
  pub enqueue : TradeOrder → Queue → Bool × Queue
  pub try_dequeue : Queue → Option (TradeOrder × Queue)
  pub size_approx : Queue → ℕ
  pub contents : Queue → List TradeOrder
  pub contents-empty : contents empty ≡ []
  pub enqueue_done :
      (x : TradeOrder) (q r : Queue) → enqueue x q ≡ (true, r) → Permᴰ (contents r) (x ∷ contents q)
  pub enqueue_failed :
      (x : TradeOrder) (q r : Queue) → enqueue x q ≡ (false, r) → contents r ≡ contents q
  pub dequeue_none : (q : Queue) → try_dequeue q ≡ none → contents q ≡ []
  pub dequeue_some :
      (q r : Queue) (x : TradeOrder)
      → try_dequeue q ≡ some (x, r)
      → Permᴰ (contents q) (x ∷ contents r)
  pub size_approx_lem : (q : Queue) → size_approx q ≡ length (contents q)
