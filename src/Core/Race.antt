-- ===== src/Core/Race.antt =====
-- What the matching does with an order that is not yet active: handle_make_order_comand of
-- server/session_client_connection.cpp puts an order into its queue first, and the matching thread may
-- take it from there before it is among the active orders.
use stock_app.Common.{
  ◌≡◌, refl, ◌∙◌, ap, Bool, true, false, none, some, arith, Bool-cases, inl, inr,
}
use stock_app.Common.Int.{ℤ, ◌≤ℤ◌}
use stock_app.Common.Word.{to_int32-sub_self}
use stock_app.Common.Equality.{id_key}
use stock_app.Common.Map.{find, find-assign_self}
use stock_app.Proto.{buy, sell, TradeOrder}
use stock_app.Platform.{Platform}
use stock_app.Queue.{PriorityQueue}
use stock_app.ClientDataManager.State.{ClientDataManager, active_orders, Test, after_test}
use stock_app.ClientDataManager.Balances.{change_client_balances_according_match}
use stock_app.ClientDataManager.ActiveOrders.{
  reduce, update_active_order_usd_amount, push_order_to_active_orders,
}
use stock_app.Core.Match.{
  transaction_amount, transaction_cost, match_orders, push_if_left,
  update_active_order_usd_amount_in_client_data_manager,
}
use stock_app.Core.Loop.{Books, Core, execute}
use stock_app.Core.RemovalLaws.{has}
use stock_app.Core.Removal.{cancel_active_order}
use stock_app.Core.Cancel.{book_orders, cancel_active_order_iff}
use stock_app.Core.Conservation.{execute_funds, funds-update_active_order_usd_amount}

-- The smaller amount is the buyer's.
amount_of_buyer :
    (s o : TradeOrder) → o.usd_amount ≤ℤ s.usd_amount → transaction_amount s o ≡ o.usd_amount
unfolding transaction_amount
amount_of_buyer s o h = ground arith

nothing_left :
    {cmp : TradeOrder → TradeOrder → Bool} (book : PriorityQueue cmp) (o : TradeOrder) (a : ℤ)
    (q : book.Queue)
    → a ≡ o.usd_amount
    → push_if_left book (reduce a o) q ≡ q
unfolding push_if_left reduce
nothing_left book o a q e = rw (e, push_if_left, to_int32-sub_self o.usd_amount)

module _ {p : Platform} where
  update_absent :
      (o : TradeOrder) (amount : ℤ) (m : ClientDataManager p)
      → o.type ≡ buy
      → find o.order_id m.active_buy_orders ≡ none
      → update_active_order_usd_amount o amount m ≡ (false, m)
  unfolding update_active_order_usd_amount
  update_absent o amount m is_buy absent =
      let there : find o.order_id (active_orders o.type m) ≡ none = rw is_buy absent in
      rw (there, update_active_order_usd_amount) refl

  update_sell :
      (s : TradeOrder) (amount : ℤ) (m : ClientDataManager p)
      → s.type ≡ sell
      → (update_active_order_usd_amount s amount m).1.active_buy_orders ≡ m.active_buy_orders
  unfolding update_active_order_usd_amount
  update_sell s amount m is_sell = ground arith

  fails_anyway :
      (r : Bool × ClientDataManager p) (g : Test p)
      → g r.1 ≡ (false, r.1)
      → after_test r g ≡ (false, r.1)
  fails_anyway (true, m) g h = h
  fails_anyway (false, m) g h = refl

  -- The buyer's order is not active, so the match fails after the seller's has been changed.
  unlisted_match :
      (s o : TradeOrder) (m : ClientDataManager p)
      → s.type ≡ sell
      → o.type ≡ buy
      → find o.order_id m.active_buy_orders ≡ none
      → let amount = transaction_amount s o in
        match_orders s o m ≡ (
          false,
          reduce amount s,
          reduce amount o,
          (update_active_order_usd_amount (reduce amount s) amount m).1,
        )
  unfolding match_orders update_active_order_usd_amount_in_client_data_manager reduce
  unlisted_match s o m is_sell is_buy absent =
      let amount = transaction_amount s o in
      let r = update_active_order_usd_amount (reduce amount s) amount m in
      let missing =
        update_absent (reduce amount o) amount r.1 is_buy
          (rw (update_sell (reduce amount s) amount m is_sell) absent) in
      let both = fails_anyway r (update_active_order_usd_amount (reduce amount o) amount) missing in
      ap
        (λ (q : Bool × ClientDataManager p).
          let x = after_test q (
            change_client_balances_according_match s.username o.username amount
              (transaction_cost s o)) in
          (x.0, reduce amount s, reduce amount o, x.1))
        both

  funds-push_active :
      (o : TradeOrder) (m : ClientDataManager p)
      → (push_order_to_active_orders o m).clients_funds_data ≡ m.clients_funds_data
  unfolding push_order_to_active_orders
  funds-push_active o m = ground arith

  push_active_lem :
      (o : TradeOrder) (m : ClientDataManager p)
      → o.type ≡ buy
      → find o.order_id (push_order_to_active_orders o m).active_buy_orders ≡ some o
  unfolding push_order_to_active_orders
  push_active_lem o m is_buy = ground (arith, find-assign_self o.order_id o m.active_buy_orders)

module _ {p : Platform} {b : Books} where
  -- The session goes on and puts the order among the active ones.
  abbrev pub then_listed : TradeOrder → Core p b → Core p b
  then_listed o c = record c { manager = push_order_to_active_orders o c.manager }

  -- Suppose that the matching meets a buyer's order that is not yet active with a seller's order of at
  -- least its amount, and no other order with its id is in the book. The match moves no money and
  -- leaves nothing of the buyer's order in the book. When the session has then made the order active,
  -- it is shown with all of its amount, the book is as it was without it, and its owner cannot cancel
  -- it.
  pub execute_unlisted :
      (o s : TradeOrder) (c : Core p b)
      → o.type ≡ buy
      → s.type ≡ sell
      → o.usd_amount ≤ℤ s.usd_amount
      → find o.order_id c.manager.active_buy_orders ≡ none
      → has o.order_id (book_orders buy c) ≡ false
      → let c' = then_listed o (execute o s c) in
        (c'.manager.clients_funds_data ≡ c.manager.clients_funds_data)
        × (find o.order_id c'.manager.active_buy_orders ≡ some o)
        × (book_orders buy c' ≡ book_orders buy c)
        × ((cancel_active_order buy o.order_id o.username c').0 ≡ false)
  unfolding execute push_order_to_active_orders
  execute_unlisted o s c is_buy is_sell smaller absent no_book =
      let c' = then_listed o (execute o s c) in
      let e = unlisted_match s o c.manager is_sell is_buy absent in
      let amount = transaction_amount s o in
      let m1 = (update_active_order_usd_amount (reduce amount s) amount c.manager).1 in
      let book : c'.buy_orders_book ≡ c.buy_orders_book =
        ap (λ r. push_if_left b.buys r.2 c.buy_orders_book) e
        ∙ nothing_left b.buys o amount c.buy_orders_book (amount_of_buyer s o smaller) in
      let same : book_orders buy c' ≡ book_orders buy c = ap b.buys.contents book in
      (
        funds-push_active o (execute o s c).manager
            ∙ execute_funds o s c
            ∙ ap
                (λ (r : Bool × TradeOrder × TradeOrder × ClientDataManager p).
                  r.3.clients_funds_data)
                e
            ∙ funds-update_active_order_usd_amount (reduce amount s) amount c.manager,
        push_active_lem o (execute o s c).manager is_buy,
        same,
        elim (Bool-cases (cancel_active_order buy o.order_id o.username c').0) [
          | inl done ↦
              let there = ((cancel_active_order_iff buy o.order_id o.username c').0 done).in_book in
              absurd (ground (arith, same, there))
          | inr refused ↦ refused
        ],
      )
