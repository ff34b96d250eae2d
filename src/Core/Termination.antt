-- ===== src/Core/Termination.antt =====
-- The loop of process_orders ends: every match uses up one of its two orders.
use stock_app.Common.{
  Bool, suc, ◌≤◌, ◌≡◌, refl, ◌⊎◌, inl, inr, length, arith, length-perm, Bool-cases,
}
use stock_app.Common.Int.{pos, ltb_ℤ}
use stock_app.Common.Word.{to_int32-sub_self}
use stock_app.Proto.{TradeOrder}
use stock_app.Platform.{Platform}
use stock_app.Queue.{PriorityQueue}
use stock_app.ClientDataManager.ActiveOrders.{reduce}
use stock_app.Core.Match.{transaction_amount, push_if_left, match_orders}
use stock_app.Core.Loop.{Books, Core, execute, orders_left}

-- After a match at least one of the two orders has nothing left, whatever their amounts were.
pub match_uses_up :
    (s b : TradeOrder)
    → ((reduce (transaction_amount s b) s).usd_amount ≡ pos 0)
      ⊎ ((reduce (transaction_amount s b) b).usd_amount ≡ pos 0)
unfolding reduce transaction_amount
match_uses_up s b = elim (Bool-cases (ltb_ℤ b.usd_amount s.usd_amount)) [
  | inl e ↦ inr (rw e (to_int32-sub_self b.usd_amount))
  | inr e ↦ inl (rw e (to_int32-sub_self s.usd_amount))
]

module _ {cmp : TradeOrder → TradeOrder → Bool} (book : PriorityQueue cmp) where
  pub length-push_if_left :
      (o : TradeOrder) (q : book.Queue)
      → length (book.contents (push_if_left book o q)) ≤ suc (length (book.contents q))
  unfolding push_if_left
  length-push_if_left o q = ground (arith, length-perm (book.contents-push o q))

  pub length-push_if_left_used :
      (o : TradeOrder) (q : book.Queue)
      → o.usd_amount ≡ pos 0
      → length (book.contents (push_if_left book o q)) ≡ length (book.contents q)
  unfolding push_if_left
  length-push_if_left_used o q e = rw e refl

module _ {p : Platform} {b : Books} where
  -- With both orders already out of the books, at most one comes back.
  pub execute_left :
      (buy_order sell_order : TradeOrder) (c : Core p b)
      → orders_left (execute buy_order sell_order c) ≤ suc (orders_left c)
  unfolding execute match_orders
  execute_left buy_order sell_order c =
      let amount = transaction_amount sell_order buy_order in
      elim (match_uses_up sell_order buy_order) [
        | inl e ↦ omega (
          arith,
          length-push_if_left_used b.sells (reduce amount sell_order) c.sell_orders_book e,
          length-push_if_left b.buys (reduce amount buy_order) c.buy_orders_book,
        )
        | inr e ↦ omega (
          arith,
          length-push_if_left_used b.buys (reduce amount buy_order) c.buy_orders_book e,
          length-push_if_left b.sells (reduce amount sell_order) c.sell_orders_book,
        )
      ]
