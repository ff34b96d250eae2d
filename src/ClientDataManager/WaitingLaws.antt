-- ===== src/ClientDataManager/WaitingLaws.antt =====
-- When the wait of the matching thread ends, and when it does not.
use stock_app.Common.{
  ℕ, zero, suc, ◌≡◌, refl, ap, Bool, true, false, List, [], ◌∷◌, length, length-perm, arith,
  Bool-cases, inl, inr,
}
use stock_app.Proto.{TradeType, buy, sell, TradeOrder}
use stock_app.Queue.{ConcurrentQueue}
use stock_app.Platform.{Platform}
use stock_app.ClientDataManager.State.{ClientDataManager}
use stock_app.ClientDataManager.OrderQueues.{
  is_empty, push, is_empty_order_queue, push_order_to_order_queue,
}
use stock_app.ClientDataManager.Waiting.{
  Waiter, at_test, at_wait, asleep, past, Event, goes_on, wakes, gets, told_of_order, stopped,
  told_to_stop, Waiting, notify_all, notify_order_received, notify_to_stop_matching_orders,
  has_reason, stock_loop_wait_for_orders, happens, all_happen,
}

given : {A : Type 0} (r : Bool × A) {a : Bool} → r.0 ≡ a → r ≡ (a, r.1)
given (x, q) h = ap (λ y. (y, q)) h

-- A queue that takes an order is not empty.
pushed-not_empty :
    (queue : ConcurrentQueue) (o : TradeOrder) (q : queue.Queue)
    → (push queue o q).0 ≡ true
    → is_empty queue (push queue o q).1 ≡ false
unfolding is_empty push
pushed-not_empty queue o q e =
    let r = queue.enqueue o q in
    let more = length-perm (queue.enqueue_done o q r.1 (given r e)) in
    ground (arith, more, queue.size_approx_lem r.1)

-- A queue that is not empty is not empty after a push, whether or not the push succeeds.
push-not_empty :
    (queue : ConcurrentQueue) (o : TradeOrder) (q : queue.Queue)
    → is_empty queue q ≡ false
    → is_empty queue (push queue o q).1 ≡ false
unfolding is_empty push
push-not_empty queue o q h =
    let r = queue.enqueue o q in
    elim (Bool-cases r.0) [
      | inl e ↦ pushed-not_empty queue o q e
      | inr e ↦
          let same = ap length (queue.enqueue_failed o q r.1 (given r e)) in
          ground (arith, same, queue.size_approx_lem q, queue.size_approx_lem r.1)
    ]

woken_past : (w : Waiter) → notify_all w ≡ past → w ≡ past
woken_past at_test h = cc
woken_past at_wait h = h
woken_past asleep h = cc
woken_past past h = h

-- The matching thread goes on so many times.
abbrev pub goes_on_for : ℕ → List Event
goes_on_for zero = []
goes_on_for (suc n) = goes_on ∷ goes_on_for n

-- Where a thread is for good that goes on after there is a reason and it has been notified.
abbrev pub settled : Waiter → Waiter
settled at_wait = asleep
settled _ = past

module _ {p : Platform} where
  -- An order more is no reason less.
  has_reason-gets :
      (running : Bool) (t : TradeType) (o : TradeOrder) (m : ClientDataManager p)
      → has_reason running m ≡ true
      → has_reason running (push_order_to_order_queue t o m).1 ≡ true
  unfolding has_reason is_empty_order_queue push_order_to_order_queue
  has_reason-gets running buy o m h =
      ground (arith, push-not_empty p.concurrent_queue o m.buy_orders_queue)
  has_reason-gets running sell o m h =
      ground (arith, push-not_empty p.concurrent_queue o m.sell_orders_queue)

  -- The thread is past its wait only while it has something to do.
  abbrev pub Justified : Waiting p → Type 0
  Justified w = w.waiter ≡ past → has_reason w.is_running w.manager ≡ true

  goes_on-Justified :
      (running : Bool) (m : ClientDataManager p) (w : Waiter)
      → (w ≡ past → has_reason running m ≡ true)
      → stock_loop_wait_for_orders running m w ≡ past
      → has_reason running m ≡ true
  unfolding stock_loop_wait_for_orders
  goes_on-Justified running m at_test h e = elim (Bool-cases (has_reason running m)) [
    | inl r ↦ r
    | inr r ↦ ground arith
  ]
  goes_on-Justified running m at_wait h e = cc
  goes_on-Justified running m asleep h e = cc
  goes_on-Justified running m past h e = h refl

  happens-Justified : (e : Event) (w : Waiting p) → Justified w → Justified (happens e w)
  unfolding happens notify_order_received notify_to_stop_matching_orders has_reason
  happens-Justified goes_on w h = goes_on-Justified w.is_running w.manager w.waiter h
  happens-Justified wakes w h = λ e. h (woken_past w.waiter e)
  happens-Justified (gets t o) w h = λ e. has_reason-gets w.is_running t o w.manager (h e)
  happens-Justified told_of_order w h = λ e. h (woken_past w.waiter e)
  happens-Justified stopped w h = λ e. ground arith
  happens-Justified told_to_stop w h = λ e. h (woken_past w.waiter e)

  -- Whatever happens in whatever order, when the matching thread is past its wait an order waits in a
  -- queue or the session manager is not running, if that is so at the start.
  pub all_happen-Justified :
      (es : List Event) (w : Waiting p) → Justified w → Justified (all_happen es w)
  unfolding all_happen
  all_happen-Justified [] w h = h
  all_happen-Justified (e ∷ es) w h =
      all_happen-Justified es (happens e w) (happens-Justified e w h)

  stays_asleep :
      (n : ℕ) (w : Waiting p) → w.waiter ≡ asleep → (all_happen (goes_on_for n) w).waiter ≡ asleep
  unfolding all_happen happens stock_loop_wait_for_orders
  stays_asleep zero w h = h
  stays_asleep (suc n) w h = stays_asleep n (happens goes_on w) (rw h refl)

  stays_past :
      (n : ℕ) (w : Waiting p) → w.waiter ≡ past → (all_happen (goes_on_for n) w).waiter ≡ past
  unfolding all_happen happens stock_loop_wait_for_orders
  stays_past zero w h = h
  stays_past (suc n) w h = stays_past n (happens goes_on w) (rw h refl)

  -- From each place, with a reason.
  settles :
      (n : ℕ) (x : Waiter) (w : Waiting p)
      → w.waiter ≡ notify_all x
      → has_reason w.is_running w.manager ≡ true
      → (all_happen (goes_on_for (suc n)) w).waiter ≡ settled x
  unfolding all_happen happens stock_loop_wait_for_orders
  settles n at_test w h r = stays_past n (happens goes_on w) (rw (h, r) refl)
  settles n at_wait w h r = stays_asleep n (happens goes_on w) (rw h refl)
  settles n asleep w h r = stays_past n (happens goes_on w) (rw (h, r) refl)
  settles n past w h r = stays_past n (happens goes_on w) (rw h refl)

  reason_queued :
      (running : Bool) (t : TradeType) (o : TradeOrder) (m : ClientDataManager p)
      → (push_order_to_order_queue t o m).0 ≡ true
      → has_reason running (push_order_to_order_queue t o m).1 ≡ true
  unfolding has_reason is_empty_order_queue push_order_to_order_queue
  reason_queued running buy o m h =
      ground (arith, pushed-not_empty p.concurrent_queue o m.buy_orders_queue)
  reason_queued running sell o m h =
      ground (arith, pushed-not_empty p.concurrent_queue o m.sell_orders_queue)

  -- After an order that its queue takes, or a stop, and the notification of it, the matching thread is
  -- past its wait as soon as it has gone on once, if at the start it was before its test, asleep or
  -- past the wait. If its test had failed and it was not yet asleep, it sleeps, however often it goes
  -- on: the notification is lost.
  pub notification_lem :
      (n : ℕ) (t : TradeType) (o : TradeOrder) (w : Waiting p)
      → (push_order_to_order_queue t o w.manager).0 ≡ true
      → ((all_happen (gets t o ∷ told_of_order ∷ goes_on_for (suc n)) w).waiter ≡ settled w.waiter)
        × ((all_happen (stopped ∷ told_to_stop ∷ goes_on_for (suc n)) w).waiter ≡ settled w.waiter)
  unfolding all_happen happens notify_order_received notify_to_stop_matching_orders has_reason
  notification_lem n t o w taken = (
    settles n w.waiter (happens told_of_order (happens (gets t o) w)) refl
        (reason_queued w.is_running t o w.manager taken),
    settles n w.waiter (happens told_to_stop (happens stopped w)) refl (ground arith),
  )
