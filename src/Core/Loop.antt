-- ===== src/Core/Loop.antt =====
-- The state of `Core` and the loop of process_orders.
use stock_app.Common.{ℕ, zero, suc, ◌+◌, Option, none, some, length, if◌then◌else◌}
use stock_app.Proto.{TradeOrder}
use stock_app.Platform.{Platform}
use stock_app.Queue.{PriorityQueue}
use stock_app.ClientDataManager.State.{ClientDataManager}
use stock_app.Core.Order.{buy_order_comparator, sell_order_comparator, crosses}
use stock_app.Core.Match.{match_orders, complete_if_filled, push_if_left}

-- The two books' queues.
pub record Books : Type 1 where
  pub buys : PriorityQueue buy_order_comparator
  pub sells : PriorityQueue sell_order_comparator

-- The books, and the client data manager that the core reaches through the session manager.
pub record Core (p : Platform) (b : Books) : Type 0 where
  pub buy_orders_book : b.buys.Queue
  pub sell_orders_book : b.sells.Queue
  pub manager : ClientDataManager p

-- A round of the loop leaves it or goes on.
pub data Round (p : Platform) (b : Books) : Type 0 where
  finished : Core p b → Round p b
  continued : Core p b → Round p b

module _ {p : Platform} {b : Books} where
  -- The orders match: the body of the `if`, with both orders taken out of the books.
  unfoldable pub execute : TradeOrder → TradeOrder → Core p b → Core p b
  execute buy_order sell_order c =
      let (_, sell_order', buy_order', m) = match_orders sell_order buy_order c.manager in
      record {
        buy_orders_book = push_if_left b.buys buy_order' c.buy_orders_book;
        sell_orders_book = push_if_left b.sells sell_order' c.sell_orders_book;
        manager = complete_if_filled sell_order' (complete_if_filled buy_order' m);
      }

  -- One round of `while (!buy_orders_book_.empty() && !sell_orders_book_.empty())`.
  unfoldable pub process_round : Core p b → Round p b
  process_round c = elim (b.buys.pop c.buy_orders_book) [
    | none ↦ finished c
    | some (buy_order, buys) ↦ elim (b.sells.pop c.sell_orders_book) [
      | none ↦ finished c
      | some (sell_order, sells) ↦
          if crosses buy_order sell_order
          then continued (
              execute buy_order sell_order
                (record c { buy_orders_book = buys; sell_orders_book = sells }))
          else finished (record c {
            buy_orders_book = b.buys.push buy_order buys;
            sell_orders_book = b.sells.push sell_order sells;
          })
    ]
  ]

  -- `none` means that the fuel ran out.
  unfoldable pub process_rounds : ℕ → Core p b → Option (Core p b)
  process_rounds zero c = none
  process_rounds (suc fuel) c = elim (process_round c) [
    | finished c' ↦ some c'
    | continued c' ↦ process_rounds fuel c'
  ]

  abbrev pub orders_left : Core p b → ℕ
  orders_left c =
      length (b.buys.contents c.buy_orders_book) + length (b.sells.contents c.sell_orders_book)

  -- A round that goes on takes an order out for good, so one more round than orders is enough.
  unfoldable pub process_orders : Core p b → Option (Core p b)
  process_orders c = process_rounds (suc (orders_left c)) c
