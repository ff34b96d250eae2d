-- ===== src/Tests/Witnesses.antt =====
-- The theorems about the engine at the books of Fixtures.
use mathlib.Core.List.{Permᴰ}
use stock_app.Common.{
  All, List, inl, inr, sym, ◌∙◌, ◌&&◌, ◌||◌, ◌≡◌, ◌≢◌, ◌↔◌, ◌⊎◌, refl, Bool, not, true, false, some,
  [], ◌∷◌, arith, eqb, ℕ,
}
use mathlib.Core.Path.{subst}
use stock_app.Common.Int.{pos, eqb_ℤ, eqb_ℤ_iff, ◌-ℤ◌}
use stock_app.Common.Equality.{id_key}
use stock_app.Common.Map.{find, assign}
use stock_app.Proto.{buy, sell, AccountBalance}
use stock_app.Queue.{selection_queue}
use stock_app.ClientDataManager.State.{ClientDataManager}
use stock_app.ClientDataManager.Balances.{create_new_client_fund_data}
use stock_app.ClientDataManager.ActiveOrders.{push_order_to_active_orders}
use stock_app.ClientDataManager.OrderQueues.{push_order_to_order_queue, queued_orders}
use stock_app.Double.{Double, near, ◌-ᵈ◌, rounded, excess, epsilon}
use stock_app.Core.Loop.{Core, process_orders}
use stock_app.Core.Intake.{place_by_type, place_order_to_priority_queue, complement_order_books}
use stock_app.Core.IntakeLaws.{Ready, side_orders, complement_order_books-IsConsistent}
use stock_app.Core.Removal.{may_cancel, cancel_active_order}
use stock_app.Core.RemovalLaws.{has}
use stock_app.Core.Cancel.{
  Cancellable, Cancelled, book_orders, cancel_active_order_iff, cancel_active_order_lem,
  cancel_active_order_refused,
}
use stock_app.Core.Persistence.{stock_pass}
use stock_app.Core.PersistenceLaws.{SavesOrders, stock_pass_lem}
use stock_app.Core.Stopping.{Pass, ended, saved, SavedAll, stock_loop, stock_loop_lem}
use stock_app.Core.Crossing.{Apart, HasCost, HasCosts, Uncrossed, process_orders_uncrosses}
use stock_app.Core.Consistency.{IsConsistent, process_orders-IsConsistent}
use stock_app.Tests.Fixtures.{halves, host, books, order, three_orders, one_waiting}

-- The costs of the orders.
abbrev prices : List Double
prices = halves 120 ∷ halves 122 ∷ halves 124 ∷ halves 126 ∷ halves 128 ∷ []

abbrev OneOf : List Double → Double → Type 0
OneOf [] x = ⊥
OneOf (y ∷ l) x = (y ≡ x) ⊎ OneOf l x

abbrev apart_from : Double → List Double → Bool
apart_from x [] = true
apart_from x (y ∷ l) = (not (near x y) || eqb_ℤ x y) && apart_from x l

abbrev all_apart : List Double → List Double → Bool
all_apart [] m = true
all_apart (x ∷ l) m = apart_from x m && all_apart l m

apart_from_sound :
    (x y : Double) (l : List Double) → apart_from x l ≡ true → OneOf l y → near x y ≡ true → x ≡ y
apart_from_sound x y [] h k n = elim k [ ]
apart_from_sound x y (z ∷ l) h (inl e) n =
    let here : near x z ≡ true = subst (λ t. near x t ≡ true) (sym e) n in
    let same : eqb_ℤ x z ≡ true = ground arith in (eqb_ℤ_iff x z).0 same ∙ e
apart_from_sound x y (z ∷ l) h (inr k) n =
    let rest : apart_from x l ≡ true = ground arith in apart_from_sound x y l rest k n

all_apart_sound :
    (x y : Double) (l m : List Double)
    → all_apart l m ≡ true
    → OneOf l x
    → OneOf m y
    → near x y ≡ true
    → x ≡ y
all_apart_sound x y [] m h k j n = elim k [ ]
all_apart_sound x y (z ∷ l) m h (inl e) j n =
    let first : apart_from z m ≡ true = ground arith in
    apart_from_sound x y m (subst (λ t. apart_from t m ≡ true) e first) j n
all_apart_sound x y (z ∷ l) m h (inr k) j n =
    let rest : all_apart l m ≡ true = ground arith in all_apart_sound x y l m rest k j n

prices_far : all_apart prices prices ≡ true
unfolding near ◌-ᵈ◌ rounded excess epsilon ◌-ℤ◌
prices_far = refl

prices-Apart : Apart (OneOf prices)
prices-Apart x y h k = all_apart_sound x y prices prices prices_far h k

at_62 : OneOf prices (halves 124)
at_62 = inr (inr (inl refl))

at_63 : OneOf prices (halves 126)
at_63 = inr (inr (inr (inl refl)))

three_orders-HasCosts : HasCosts (OneOf prices) three_orders
unfolding selection_queue place_by_type place_order_to_priority_queue
three_orders-HasCosts = record {
  buys_have = (at_63, (at_62, tt));
  sells_have = (inr (inl refl), tt);
}

process_orders_uncrosses_example :
    (c : Core host books) × (process_orders three_orders ≡ some c) × Uncrossed c
process_orders_uncrosses_example =
    process_orders_uncrosses (OneOf prices) prices-Apart three_orders three_orders-HasCosts

differ : (a b : ℕ) → eqb a b ≡ false → pos a ≢ pos b
differ a b e h = ground arith

three_orders-IsConsistent : IsConsistent three_orders
unfolding selection_queue place_by_type place_order_to_priority_queue find assign
    create_new_client_fund_data push_order_to_active_orders
three_orders-IsConsistent = record {
  buys_agree = record {
    all_active =
        ((refl, refl, omega arith, omega arith), ((refl, refl, omega arith, omega arith), tt));
    distinct = ((differ 2 1 refl, tt), (tt, tt));
  };
  sells_agree = record {
    all_active = ((refl, refl, omega arith, omega arith), tt);
    distinct = (tt, tt);
  };
}

process_orders-IsConsistent_example :
    (c : Core host books) × (process_orders three_orders ≡ some c) × IsConsistent c
process_orders-IsConsistent_example =
    process_orders-IsConsistent three_orders three_orders-IsConsistent

abbrev nothing : AccountBalance
nothing = record { usd_balance = pos 0; rub_balance = pos 0 }

cancel_active_order_iff_example :
    ((cancel_active_order buy (pos 2) "User2" three_orders).0 ≡ true)
    ↔ Cancellable buy (pos 2) "User2" three_orders
cancel_active_order_iff_example = cancel_active_order_iff buy (pos 2) "User2" three_orders

two_Cancellable : Cancellable buy (pos 2) "User2" three_orders
unfolding find assign has create_new_client_fund_data push_order_to_active_orders selection_queue
    place_by_type place_order_to_priority_queue
two_Cancellable = record {
  order = order buy 2 2 630 20 "User2";
  is_active = refl;
  is_owner = refl;
  in_book = refl;
}

cancel_active_order_lem_example :
    Cancelled buy (pos 2) three_orders (cancel_active_order buy (pos 2) "User2" three_orders).1
cancel_active_order_lem_example =
    cancel_active_order_lem buy (pos 2) "User2" three_orders
      ((cancel_active_order_iff buy (pos 2) "User2" three_orders).1 two_Cancellable)

refused : (cancel_active_order buy (pos 2) "User1" three_orders).0 ≡ false
unfolding cancel_active_order may_cancel find assign create_new_client_fund_data
    push_order_to_active_orders place_by_type place_order_to_priority_queue
refused = refl

cancel_active_order_refused_example :
    let c = (cancel_active_order buy (pos 2) "User1" three_orders).1 in
    (c.manager ≡ three_orders.manager)
    × Permᴰ (book_orders buy c) (book_orders buy three_orders)
    × (book_orders sell c ≡ book_orders sell three_orders)
cancel_active_order_refused_example =
    cancel_active_order_refused buy (pos 2) "User1" three_orders refused

waiting_buys-Ready : Ready buy one_waiting
unfolding find assign create_new_client_fund_data push_order_to_active_orders selection_queue
    place_by_type place_order_to_priority_queue push_order_to_order_queue
waiting_buys-Ready = record {
  all_active = (
    (refl, refl, omega arith, omega arith),
    ((refl, refl, omega arith, omega arith), ((refl, refl, omega arith, omega arith), tt)),
  );
  distinct = ((differ 5 2 refl, (differ 5 1 refl, tt)), ((differ 2 1 refl, tt), (tt, tt)));
}

waiting_sells-Ready : Ready sell one_waiting
unfolding find assign create_new_client_fund_data push_order_to_active_orders selection_queue
    place_by_type place_order_to_priority_queue push_order_to_order_queue
waiting_sells-Ready = record {
  all_active =
      ((refl, refl, omega arith, omega arith), ((refl, refl, omega arith, omega arith), tt));
  distinct = ((differ 4 3 refl, tt), (tt, tt));
}

complement_order_books-IsConsistent_example :
    (c : Core host books) × (complement_order_books one_waiting ≡ some c)
    × IsConsistent c
    × (queued_orders buy c.manager ≡ [])
    × (queued_orders sell c.manager ≡ [])
    × Permᴰ (book_orders buy c) (side_orders buy one_waiting)
    × Permᴰ (book_orders sell c) (side_orders sell one_waiting)
    × (c.manager.clients_funds_data ≡ one_waiting.manager.clients_funds_data)
complement_order_books-IsConsistent_example =
    complement_order_books-IsConsistent one_waiting waiting_buys-Ready waiting_sells-Ready

three_priced : All (HasCost (OneOf prices)) (side_orders buy one_waiting)
unfolding create_new_client_fund_data push_order_to_active_orders selection_queue place_by_type
    place_order_to_priority_queue push_order_to_order_queue
three_priced = (inl refl, (at_63, (at_62, tt)))

two_priced : All (HasCost (OneOf prices)) (side_orders sell one_waiting)
unfolding create_new_client_fund_data push_order_to_active_orders selection_queue place_by_type
    place_order_to_priority_queue push_order_to_order_queue
two_priced = (inr (inr (inr (inr (inl refl)))), (inr (inl refl), tt))

stock_pass_example :
    (c : Core host books) × (stock_pass true one_waiting ≡ some (some tt, c))
    × IsConsistent c
    × Uncrossed c
stock_pass_example =
    stock_pass_lem (OneOf prices) one_waiting prices-Apart waiting_buys-Ready waiting_sells-Ready
      three_priced two_priced

host-SavesOrders : SavesOrders host
host-SavesOrders o d = refl

-- A pass during which nothing arrives, and what the head of the loop finds after it.
abbrev stopping : Bool → Pass host books
stopping seen = record { runs_at_head = true; meanwhile = λ c. c; runs_at_test = not seen }

abbrev stopped : Pass host books
stopped = record { runs_at_head = false; meanwhile = λ c. c; runs_at_test = false }

stock_loop_example :
    (((stopping false).runs_at_test ≡ false)
      × (c : Core host books) × (stock_loop (stopping false ∷ stopped ∷ []) one_waiting
          ≡ some (saved, c))
      × SavedAll one_waiting c)
    ⊎ (((stopping false).runs_at_test ≡ true)
        × (moved : Core host books) × (c : Core host books) × (complement_order_books one_waiting
            ≡ some moved)
        × (process_orders moved ≡ some c)
        × (stock_loop (stopping false ∷ stopped ∷ []) one_waiting ≡ some (ended, c))
        × IsConsistent c)
stock_loop_example =
    stock_loop_lem (stopping false) stopped [] one_waiting refl refl waiting_buys-Ready
      waiting_sells-Ready host-SavesOrders
