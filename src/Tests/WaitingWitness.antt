-- ===== src/Tests/WaitingWitness.antt =====
-- The wait of the matching thread at the server of Fixtures.
use stock_app.Common.{◌≡◌, refl, true, List, [], ◌∷◌}
use stock_app.Proto.{buy}
use stock_app.ClientDataManager.OrderQueues.{push, push_order_to_order_queue}
use stock_app.ClientDataManager.Waiting.{
  Waiter, at_test, at_wait, asleep, Event, goes_on, wakes, gets, told_of_order, stopped,
  told_to_stop, Waiting, all_happen,
}
use stock_app.ClientDataManager.WaitingLaws.{
  Justified, goes_on_for, all_happen-Justified, notification_lem,
}
use stock_app.Tests.Fixtures.{host, order, initial}

abbrev thread_at : Waiter → Waiting host
thread_at w = record { manager = initial.manager; is_running = true; waiter = w }

abbrev happenings : List Event
happenings =
    goes_on
    ∷ gets buy (order buy 1 1 620 10 "User1")
    ∷ goes_on
    ∷ wakes
    ∷ told_of_order
    ∷ goes_on
    ∷ []

all_happen-Justified_example : Justified (all_happen happenings (thread_at at_test))
all_happen-Justified_example = all_happen-Justified happenings (thread_at at_test) (λ e. cc)

-- The notification that is lost.
notification_lem_example :
    ((all_happen
        (gets buy (order buy 1 1 620 10 "User1") ∷ told_of_order ∷ goes_on_for 3)
        (thread_at at_wait)).waiter
      ≡ asleep)
    × ((all_happen (stopped ∷ told_to_stop ∷ goes_on_for 3) (thread_at at_wait)).waiter ≡ asleep)
unfolding push push_order_to_order_queue
notification_lem_example =
    notification_lem 2 buy (order buy 1 1 620 10 "User1") (thread_at at_wait) refl
