-- ===== src/Core/PersistenceLaws.antt =====
-- A pass of the matching thread, and what the books and the database hold after a load or a save.
use mathlib.Core.List.{Permᴰ}
use mathlib.Core.List.Permᴰ
use mathlib.Core.Path.{subst}
use mathlib.Core.Option.{some-injective}
use stock_app.Common.{
  ℕ, zero, suc, ◌≡◌, ◌≤◌, refl, sym, ◌∙◌, Bool, true, some, List, [], ◌∷◌, ◌++◌, length,
  length-perm, nil_of_length, arith, All, All-perm, All-always, Option-cases, inl, inr,
}
use stock_app.Double.{Double}
use stock_app.Proto.{buy, sell, TradeOrder}
use stock_app.Platform.{Platform}
use stock_app.Queue.{PriorityQueue}
use stock_app.Core.Loop.{Books, Core}
use stock_app.Core.IntakeLaws.{Ready, side_orders, complement_order_books-IsConsistent}
use stock_app.Core.Cancel.{book_orders}
use stock_app.Core.Crossing.{Apart, HasCost, HasCosts, Uncrossed, process_orders_uncrosses}
use stock_app.Core.Consistency.{IsConsistent, process_orders-IsConsistent}
use stock_app.Core.Persistence.{
  push_all, save_loop, save_all_active_orders_to_db, load_all_active_orders_from_db, stock_pass,
  with_db,
}

module _ {p : Platform} {b : Books} where
  -- If the orders of both sides, waiting and in the books, are active, with positive amounts that
  -- fit an int32, their ids distinct, and the code's test takes no two different ones of their costs
  -- for near, a pass of the running matching thread ends; then the books agree with the active
  -- orders, and every buyer bids less than every seller asks.
  pub stock_pass_lem :
      (costs : Double → Type 0) (c : Core p b)
      → Apart costs
      → Ready buy c
      → Ready sell c
      → All (HasCost costs) (side_orders buy c)
      → All (HasCost costs) (side_orders sell c)
      → (c' : Core p b) × (stock_pass true c ≡ some (some tt, c')) × IsConsistent c' × Uncrossed c'
  unfolding stock_pass
  stock_pass_lem costs c apart rb rs gb gs =
      let (c1, run1, consistent, _, _, buys, sells, _) =
        complement_order_books-IsConsistent c rb rs in
      let priced : HasCosts costs c1 = record {
        buys_have = All-perm (HasCost costs) (Permᴰ.symm buys) gb;
        sells_have = All-perm (HasCost costs) (Permᴰ.symm sells) gs;
      } in
      let (c2, run2, consistent2) = process_orders-IsConsistent c1 consistent in
      let (c3, run3, uncrossed) = process_orders_uncrosses costs apart c1 priced in
      (
        c2,
        rw (stock_pass, run1, run2) refl,
        consistent2,
        subst Uncrossed (some-injective _ _ (sym run3 ∙ run2)) uncrossed,
      )

-- The database takes every order, or every one with a property, and does not throw.
abbrev pub SavesOrders : Platform → Type 0
SavesOrders p =
    (o : TradeOrder) (d : p.database.Db) → (p.database.save_active_order_to_db o d).0 ≡ some tt

abbrev pub SavesThose : (TradeOrder → Type 0) → Platform → Type 0
SavesThose P p =
    (o : TradeOrder) (d : p.database.Db)
    → P o
    → (p.database.save_active_order_to_db o d).0 ≡ some tt

-- The database after one save of each order, in the order of the list.
unfoldable pub after_saves : (p : Platform) → List TradeOrder → p.database.Db → p.database.Db
after_saves p [] d = d
after_saves p (o ∷ os) d = after_saves p os (p.database.save_active_order_to_db o d).1

module _ {cmp : TradeOrder → TradeOrder → Bool} (book : PriorityQueue cmp) where
  -- A save that goes through empties the book, and saves each of its orders once.
  save_loop_lem :
      (P : TradeOrder → Type 0) (p : Platform) (fuel : ℕ) (q : book.Queue) (d : p.database.Db)
      → SavesThose P p
      → All P (book.contents q)
      → length (book.contents q) ≤ fuel
      → (r : book.Queue) × (os : List TradeOrder) × (save_loop book p fuel q d
          ≡ (some tt, r, after_saves p os d))
        × (book.contents r ≡ [])
        × Permᴰ os (book.contents q)
  unfolding save_loop after_saves
  save_loop_lem P p zero q d saves those h =
      let nil = nil_of_length (book.contents q) (omega (arith, h)) in
      (q, [], refl, nil, rw nil Permᴰ.nil)
  save_loop_lem P p (suc fuel) q d saves those h = elim (Option-cases (book.pop q)) [
    | inl e ↦ let nil = book.pop_none q e in (q, [], rw (e, save_loop) refl, nil, rw nil Permᴰ.nil)
    | inr (x, e) ↦
        let perm = book.pop_some q x.0 x.1 e in
        let (first, rest) = All-perm P perm those in
        let (r, os, run, nil, all) =
          save_loop_lem P p fuel x.1 (p.database.save_active_order_to_db x.0 d).1 saves rest
            (omega (arith, length-perm perm)) in
        (
          r,
          x.0 ∷ os,
          rw (e, save_loop, after_saves, saves x.0 d first) run,
          nil,
          Permᴰ.trans (Permᴰ.cons refl all) (Permᴰ.symm perm),
        )
  ]

  -- Pushing a list onto a book adds each of its orders once.
  pub contents-push_all :
      (os : List TradeOrder) (q : book.Queue)
      → Permᴰ (book.contents (push_all book os q)) (os ++ book.contents q)
  unfolding push_all
  contents-push_all [] q = Permᴰ.refl (book.contents q)
  contents-push_all (o ∷ os) q = Permᴰ.trans (contents-push_all os (book.push o q)) (
      Permᴰ.trans (Permᴰ.append_left os (book.contents-push o q))
        (Permᴰ.middle o os (book.contents q)))

module _ {p : Platform} {b : Books} where
  -- The same for the orders of the books alone.
  pub save_those :
      (P : TradeOrder → Type 0) (c : Core p b)
      → SavesThose P p
      → All P (book_orders buy c)
      → All P (book_orders sell c)
      → (c' : Core p b) × (os : List TradeOrder) × (ss : List TradeOrder)
        × (save_all_active_orders_to_db c ≡ (some tt, c'))
        × (book_orders buy c' ≡ [])
        × (book_orders sell c' ≡ [])
        × Permᴰ os (book_orders buy c)
        × Permᴰ ss (book_orders sell c)
        × (c'.manager.db ≡ after_saves p ss (after_saves p os c.manager.db))
  unfolding save_all_active_orders_to_db
  save_those P c saves buys sells =
      let (q, os, run, nil, all) =
        save_loop_lem b.buys P p (length (b.buys.contents c.buy_orders_book)) c.buy_orders_book
          c.manager.db saves buys (omega arith) in
      let d = after_saves p os c.manager.db in
      let (r, ss, run', nil', all') =
        save_loop_lem b.sells P p (length (b.sells.contents c.sell_orders_book)) c.sell_orders_book
          d saves sells (omega arith) in
      (
        record (with_db (after_saves p ss d) c) { buy_orders_book = q; sell_orders_book = r },
        os,
        ss,
        rw (save_all_active_orders_to_db, run, run, run') refl,
        nil,
        nil',
        all,
        all',
        refl,
      )

  -- With a database that takes every order, save_all_active_orders_to_db succeeds: both books are
  -- empty then, and the database has been given each order of the books exactly once.
  pub save_all_active_orders_to_db_lem :
      (c : Core p b)
      → SavesOrders p
      → (c' : Core p b) × (os : List TradeOrder) × (ss : List TradeOrder)
        × (save_all_active_orders_to_db c ≡ (some tt, c'))
        × (book_orders buy c' ≡ [])
        × (book_orders sell c' ≡ [])
        × Permᴰ os (book_orders buy c)
        × Permᴰ ss (book_orders sell c)
        × (c'.manager.db ≡ after_saves p ss (after_saves p os c.manager.db))
  save_all_active_orders_to_db_lem c saves =
      save_those (λ _. Unit) c (λ o d _. saves o d) (All-always _ (λ _. tt) (book_orders buy c))
        (All-always _ (λ _. tt) (book_orders sell c))

  -- When the database returns the orders of both tables, load_all_active_orders_from_db succeeds and
  -- adds each of them to the book of its side exactly once.
  pub load_all_active_orders_from_db_lem :
      (c : Core p b) (os ss : List TradeOrder) (d d' : p.database.Db)
      → p.database.load_active_orders_from_db buy c.manager.db ≡ (some os, d)
      → p.database.load_active_orders_from_db sell d ≡ (some ss, d')
      → (c' : Core p b) × (load_all_active_orders_from_db c ≡ (some tt, c'))
        × Permᴰ (book_orders buy c') (os ++ book_orders buy c)
        × Permᴰ (book_orders sell c') (ss ++ book_orders sell c)
  unfolding load_all_active_orders_from_db
  load_all_active_orders_from_db_lem c os ss d d' h k = (
    record (with_db d' c) {
      buy_orders_book = push_all b.buys os c.buy_orders_book;
      sell_orders_book = push_all b.sells ss c.sell_orders_book;
    },
    rw (load_all_active_orders_from_db, h, h, k, h, k) refl,
    contents-push_all b.buys os c.buy_orders_book,
    contents-push_all b.sells ss c.sell_orders_book,
  )
