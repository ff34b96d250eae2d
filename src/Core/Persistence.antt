-- ===== src/Core/Persistence.antt =====
-- load_all_active_orders_from_db and save_all_active_orders_to_db of server/core.cpp, and one pass of
-- stock_loop.
use stock_app.Common.{
  ℕ, zero, suc, Bool, not, Option, none, some, List, [], ◌∷◌, length, if◌then◌else◌,
}
use stock_app.Proto.{buy, sell, TradeOrder}
use stock_app.Database.{Void}
use stock_app.Platform.{Platform}
use stock_app.Queue.{PriorityQueue}
use stock_app.Core.Loop.{Books, Core, process_orders}
use stock_app.Core.Intake.{complement_order_books}

module _ {cmp : TradeOrder → TradeOrder → Bool} (book : PriorityQueue cmp) where
  -- `for (const auto& order : orders) { book.push(order); }`
  unfoldable pub push_all : List TradeOrder → book.Queue → book.Queue
  push_all [] q = q
  push_all (order ∷ orders) q = push_all orders (book.push order q)

  -- `while (!book.empty())`: an order is taken out after it has been saved. The fuel is the number of
  -- orders.
  unfoldable pub save_loop :
      (p : Platform) → ℕ → book.Queue → p.database.Db → Option Void × book.Queue × p.database.Db
  save_loop p zero q d = (some tt, q, d)
  save_loop p (suc fuel) q d = elim (book.pop q) [
    | none ↦ (some tt, q, d)
    | some (order, rest) ↦
        let (done, d') = p.database.save_active_order_to_db order d in
        elim done [ none ↦ (none, q, d') | some _ ↦ save_loop p fuel rest d' ]
  ]

module _ {p : Platform} {b : Books} where
  abbrev pub with_db : p.database.Db → Core p b → Core p b
  with_db d c = let m = c.manager in record c { manager = record m { db = d } }

  unfoldable pub load_all_active_orders_from_db : Core p b → Option Void × Core p b
  load_all_active_orders_from_db c =
      let (found, d) = p.database.load_active_orders_from_db buy c.manager.db in
      elim found [
        | none ↦ (none, with_db d c)
        | some buys ↦
            let c' = record (with_db d c) {
              buy_orders_book = push_all b.buys buys c.buy_orders_book;
            } in
            let (found', d') = p.database.load_active_orders_from_db sell d in
            elim found' [
              | none ↦ (none, with_db d' c')
              | some sells ↦ (
                some tt,
                record (with_db d' c') {
                  sell_orders_book = push_all b.sells sells c.sell_orders_book;
                },
              )
            ]
      ]

  unfoldable pub save_all_active_orders_to_db : Core p b → Option Void × Core p b
  save_all_active_orders_to_db c =
      let (done, q, d) =
        save_loop b.buys p (length (b.buys.contents c.buy_orders_book)) c.buy_orders_book
          c.manager.db in
      let c' = record (with_db d c) { buy_orders_book = q } in
      elim done [
        | none ↦ (none, c')
        | some _ ↦
            let (done', r, d') =
              save_loop b.sells p (length (b.sells.contents c.sell_orders_book)) c.sell_orders_book
                d in
            (done', record (with_db d' c') { sell_orders_book = r })
      ]

  -- The body of stock_loop after the wait, with what is_running says at its test; `none` means that a
  -- loop in it ran out of fuel.
  unfoldable pub stock_pass : Bool → Core p b → Option (Option Void × Core p b)
  stock_pass running c = elim (complement_order_books c) [
    | none ↦ none
    | some c' ↦
        if not running
        then some (save_all_active_orders_to_db c')
        else (elim (process_orders c') [ none ↦ none | some c'' ↦ some (some tt, c'') ])
  ]
