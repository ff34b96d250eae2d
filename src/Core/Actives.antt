-- ===== src/Core/Actives.antt =====
-- What a match between two active orders does to the maps of active orders.
use mathlib.Core.Path.{subst}
use stock_app.Common.{
  ◌≡◌, refl, Bool, true, false, ◌&&◌, Option, none, some, if◌then◌else◌, Bool-cases, inl, inr,
}
use stock_app.Common.Int.{ℤ, pos, eqb_ℤ}
use stock_app.Common.Equality.{id_key, ◌==◌}
use stock_app.Common.Map.{Map, find, assign, find-assign}
use stock_app.Proto.{buy, sell, TradeOrder}
use stock_app.Platform.{Platform}
use stock_app.ClientDataManager.State.{ClientDataManager, active_orders}
use stock_app.ClientDataManager.ActiveOrders.{reduce, update_active_order_usd_amount}
use stock_app.ClientDataManager.Listing.{
  opposite, SameActive, change_client_balances-SameActive, find-add_order_to_completed,
  add_order_to_completed-opposite,
}
use stock_app.Core.Match.{
  transaction_amount, transaction_cost, update_active_order_usd_amount_in_client_data_manager,
  match_orders, complete_if_filled,
}

-- Where an order is found once it has been reduced, and removed if nothing is left of it.
abbrev pub after_match : TradeOrder → TradeOrder → Map ℤ TradeOrder → ℤ → Option TradeOrder
after_match order order' active id =
    if order.order_id == id
    then if eqb_ℤ order'.usd_amount (pos 0) then none else some order'
    else find id active

merge_tests :
    (filled same : Bool) (x : TradeOrder) (other : Option TradeOrder)
    → (if filled && same then none else if same then some x else other)
      ≡ (if same then if filled then none else some x else other)
merge_tests true true x other = refl
merge_tests true false x other = refl
merge_tests false true x other = refl
merge_tests false false x other = refl

module _ {p : Platform} where
  find-complete_if_filled :
      (o : TradeOrder) (other : ℤ) (m : ClientDataManager p)
      → find other (active_orders o.type (complete_if_filled o m)) ≡ (
          if eqb_ℤ o.usd_amount (pos 0) && (o.order_id == other)
          then none
          else find other (active_orders o.type m))
  unfolding complete_if_filled
  find-complete_if_filled o other m = elim (Bool-cases (eqb_ℤ o.usd_amount (pos 0))) [
    | inl e ↦ rw e (find-add_order_to_completed o other m)
    | inr e ↦ rw e refl
  ]

  complete_if_filled-opposite :
      (o : TradeOrder) (m : ClientDataManager p)
      → active_orders (opposite o.type) (complete_if_filled o m) ≡ active_orders (opposite o.type) m
  unfolding complete_if_filled
  complete_if_filled-opposite o m = elim (Bool-cases (eqb_ℤ o.usd_amount (pos 0))) [
    | inl e ↦ rw e (add_order_to_completed-opposite o m)
    | inr e ↦ rw e refl
  ]

  complete_buy :
      (o : TradeOrder) (other : ℤ) (m : ClientDataManager p)
      → o.type ≡ buy
      → find other (complete_if_filled o m).active_buy_orders ≡ (
          if eqb_ℤ o.usd_amount (pos 0) && (o.order_id == other)
          then none
          else find other m.active_buy_orders)
  complete_buy o other m e =
      subst
        (λ t. find other (active_orders t (complete_if_filled o m)) ≡ (
          if eqb_ℤ o.usd_amount (pos 0) && (o.order_id == other)
          then none
          else find other (active_orders t m)))
        e (find-complete_if_filled o other m)

  complete_sell :
      (o : TradeOrder) (other : ℤ) (m : ClientDataManager p)
      → o.type ≡ sell
      → find other (complete_if_filled o m).active_sell_orders ≡ (
          if eqb_ℤ o.usd_amount (pos 0) && (o.order_id == other)
          then none
          else find other m.active_sell_orders)
  complete_sell o other m e =
      subst
        (λ t. find other (active_orders t (complete_if_filled o m)) ≡ (
          if eqb_ℤ o.usd_amount (pos 0) && (o.order_id == other)
          then none
          else find other (active_orders t m)))
        e (find-complete_if_filled o other m)

  complete_buy_keeps_sells :
      (o : TradeOrder) (m : ClientDataManager p)
      → o.type ≡ buy
      → (complete_if_filled o m).active_sell_orders ≡ m.active_sell_orders
  complete_buy_keeps_sells o m e =
      subst
        (λ t. active_orders (opposite t) (complete_if_filled o m) ≡ active_orders (opposite t) m) e
        (complete_if_filled-opposite o m)

  complete_sell_keeps_buys :
      (o : TradeOrder) (m : ClientDataManager p)
      → o.type ≡ sell
      → (complete_if_filled o m).active_buy_orders ≡ m.active_buy_orders
  complete_sell_keeps_buys o m e =
      subst
        (λ t. active_orders (opposite t) (complete_if_filled o m) ≡ active_orders (opposite t) m) e
        (complete_if_filled-opposite o m)

  update_buy :
      (o a : TradeOrder) (t : ℤ) (m : ClientDataManager p)
      → o.type ≡ buy
      → find o.order_id m.active_buy_orders ≡ some a
      → update_active_order_usd_amount o t m ≡ (
        true,
        record m { active_buy_orders = assign o.order_id (reduce t a) m.active_buy_orders },
      )
  unfolding update_active_order_usd_amount
  update_buy o a t m e f = rw (update_active_order_usd_amount, e) (rw f (rw e))

  update_sell :
      (o a : TradeOrder) (t : ℤ) (m : ClientDataManager p)
      → o.type ≡ sell
      → find o.order_id m.active_sell_orders ≡ some a
      → update_active_order_usd_amount o t m ≡ (
        true,
        record m { active_sell_orders = assign o.order_id (reduce t a) m.active_sell_orders },
      )
  unfolding update_active_order_usd_amount
  update_sell o a t m e f = rw (update_active_order_usd_amount, e) (rw f (rw e))

  -- Both orders of a match.
  module _ (s o : TradeOrder) (m : ClientDataManager p) (is_buy : o.type ≡ buy)
      (is_sell : s.type ≡ sell) (buy_active : find o.order_id m.active_buy_orders ≡ some o)
      (sell_active : find s.order_id m.active_sell_orders ≡ some s) where
    -- The amounts of the active orders follow the orders'.
    pub update_two :
        (t : ℤ)
        → update_active_order_usd_amount_in_client_data_manager (reduce t s) (reduce t o) t m ≡ (
          true,
          record m {
            active_buy_orders = assign o.order_id (reduce t o) m.active_buy_orders;
            active_sell_orders = assign s.order_id (reduce t s) m.active_sell_orders;
          },
        )
    unfolding update_active_order_usd_amount_in_client_data_manager reduce
    update_two t = rw (
      update_active_order_usd_amount_in_client_data_manager,
      update_sell (reduce t s) s t m is_sell sell_active,
      update_buy (reduce t o) o t
          (record m { active_sell_orders = assign s.order_id (reduce t s) m.active_sell_orders })
          is_buy buy_active,
    )

    abbrev pub traded : ClientDataManager p
    traded = record m {
      active_buy_orders = assign o.order_id (reduce (transaction_amount s o) o) m.active_buy_orders;
      active_sell_orders =
          assign s.order_id (reduce (transaction_amount s o) s) m.active_sell_orders;
    }

    match_orders-SameActive : SameActive traded (match_orders s o m).3
    unfolding match_orders
    match_orders-SameActive =
        rw (match_orders, update_two (transaction_amount s o))
          (change_client_balances-SameActive s.username o.username (transaction_amount s o)
            (transaction_cost s o) traded)

    -- After the match the two orders are active with what is left of them, if anything is.
    pub match_active_buys :
        (id : ℤ)
        → find id
            (complete_if_filled (reduce (transaction_amount s o) s) (
              complete_if_filled
                (reduce (transaction_amount s o) o)
                (match_orders s o m).3)).active_buy_orders
          ≡ after_match o (reduce (transaction_amount s o) o) m.active_buy_orders id
    unfolding reduce
    match_active_buys id =
        let o' = reduce (transaction_amount s o) o in
        rw
          (
            complete_sell_keeps_buys (reduce (transaction_amount s o) s) _ is_sell,
            complete_buy o' id (match_orders s o m).3 is_buy,
            match_orders-SameActive.same_buys,
            find-assign o.order_id id o' m.active_buy_orders,
          )
          (merge_tests (eqb_ℤ o'.usd_amount (pos 0)) (o.order_id == id) _ _)

    pub match_active_sells :
        (id : ℤ)
        → find id
            (complete_if_filled (reduce (transaction_amount s o) s) (
              complete_if_filled
                (reduce (transaction_amount s o) o)
                (match_orders s o m).3)).active_sell_orders
          ≡ after_match s (reduce (transaction_amount s o) s) m.active_sell_orders id
    unfolding reduce
    match_active_sells id =
        let s' = reduce (transaction_amount s o) s in
        rw
          (
            complete_sell s' id
                (complete_if_filled (reduce (transaction_amount s o) o) (match_orders s o m).3)
                is_sell,
            complete_buy_keeps_sells (reduce (transaction_amount s o) o) _ is_buy,
            match_orders-SameActive.same_sells,
            find-assign s.order_id id s' m.active_sell_orders,
          )
          (merge_tests (eqb_ℤ s'.usd_amount (pos 0)) (s.order_id == id) _ _)
