-- ===== src/Core/Stopping.antt =====
-- stock_loop of server/core.cpp, and how it ends.
use mathlib.Core.List.{Permᴰ}
use stock_app.Common.{
  ◌≡◌, ◌⊎◌, inl, inr, refl, Bool, true, false, not, Option, none, some, List, [], ◌∷◌, Bool-cases,
  if◌then◌else◌,
}
use stock_app.Proto.{buy, sell, TradeOrder}
use stock_app.Platform.{Platform}
use stock_app.Core.Loop.{Books, Core, process_orders}
use stock_app.Core.Intake.{complement_order_books}
use stock_app.Core.IntakeLaws.{Ready, side_orders, complement_order_books-IsConsistent}
use stock_app.Core.Cancel.{book_orders}
use stock_app.Core.Consistency.{IsConsistent, process_orders-IsConsistent}
use stock_app.Core.Persistence.{stock_pass}
use stock_app.Core.PersistenceLaws.{SavesOrders, after_saves, save_all_active_orders_to_db_lem}

-- What the other threads do during a pass: what is_running is at the head of the loop, what they have
-- changed when the wait for orders returns, and what is_running is after the intake.
pub record Pass (p : Platform) (b : Books) : Type 0 where
  pub runs_at_head : Bool
  pub meanwhile : Core p b → Core p b
  pub runs_at_test : Bool

-- The loop has not ended yet; it has ended by its condition, or by `break` after the save; or a call of
-- the database has thrown.
pub data Ending : Type 0 where
  goes_on ended saved threw : Ending

module _ {p : Platform} {b : Books} where
  -- `none` means that a loop in a pass ran out of fuel.
  unfoldable pub stock_loop : List (Pass p b) → Core p b → Option (Ending × Core p b)
  stock_loop [] c = some (goes_on, c)
  stock_loop (w ∷ ws) c =
      if not w.runs_at_head
      then some (ended, c)
      else (elim (stock_pass w.runs_at_test (w.meanwhile c)) [
        | none ↦ none
        | some (done, c') ↦ elim done [
          | none ↦ some (threw, c')
          | some _ ↦ elim w.runs_at_test [ true ↦ stock_loop ws c' | false ↦ some (saved, c') ]
        ]
      ])

  -- What the loop has saved at its end: every order, waiting or in the books, once.
  pub record SavedAll (c c' : Core p b) : Type 0 where
    pub moved : Core p b
    pub taken_in : complement_order_books c ≡ some moved
    pub buys : List TradeOrder
    pub sells : List TradeOrder
    pub all_buys : Permᴰ buys (side_orders buy c)
    pub all_sells : Permᴰ sells (side_orders sell c)
    pub no_buys : book_orders buy c' ≡ []
    pub no_sells : book_orders sell c' ≡ []
    pub given : c'.manager.db ≡ after_saves p sells (after_saves p buys moved.manager.db)

  stop_seen :
      (w : Pass p b) (ws : List (Pass p b)) (c : Core p b)
      → w.runs_at_head ≡ true
      → w.runs_at_test ≡ false
      → Ready buy (w.meanwhile c)
      → Ready sell (w.meanwhile c)
      → SavesOrders p
      → (c' : Core p b) × (stock_loop (w ∷ ws) c ≡ some (saved, c')) × SavedAll (w.meanwhile c) c'
  unfolding stock_loop stock_pass
  stop_seen w ws c head test rb rs saves =
      let (c1, run1, _, _, _, perm_b, perm_s, _) =
        complement_order_books-IsConsistent (w.meanwhile c) rb rs in
      let (c', os, ss, run, nb, ns, po, ps, db) = save_all_active_orders_to_db_lem c1 saves in
      (
        c',
        rw (stock_loop, head, stock_pass, run1, test, run, test, run) refl,
        record {
          moved = c1;
          taken_in = run1;
          buys = os;
          sells = ss;
          all_buys = Permᴰ.trans po perm_b;
          all_sells = Permᴰ.trans ps perm_s;
          no_buys = nb;
          no_sells = ns;
          given = db;
        },
      )

  stop_missed :
      (w next : Pass p b) (ws : List (Pass p b)) (c : Core p b)
      → w.runs_at_head ≡ true
      → w.runs_at_test ≡ true
      → next.runs_at_head ≡ false
      → Ready buy (w.meanwhile c)
      → Ready sell (w.meanwhile c)
      → (moved : Core p b) × (c' : Core p b) × (complement_order_books (w.meanwhile c) ≡ some moved)
        × (process_orders moved ≡ some c')
        × (stock_loop (w ∷ next ∷ ws) c ≡ some (ended, c'))
        × IsConsistent c'
  unfolding stock_loop stock_pass
  stop_missed w next ws c head test stopped rb rs =
      let (c1, run1, consistent, _, _, _, _, _) =
        complement_order_books-IsConsistent (w.meanwhile c) rb rs in
      let (c2, run2, consistent2) = process_orders-IsConsistent c1 consistent in
      (
        c1,
        c2,
        run1,
        run2,
        rw (stock_loop, head, stock_pass, run1, test, run2, test, stopped) refl,
        consistent2,
      )

  -- Suppose that the orders of both sides, waiting and in the books, are active with distinct ids, that
  -- the database takes every order, and that is_running turns false during a pass of stock_loop. If
  -- the test after the intake sees it, the loop ends after every one of these orders has been given to
  -- the database exactly once. If it turns false later, the loop ends with the books as the matching
  -- has left them, and nothing is saved.
  pub stock_loop_lem :
      (w next : Pass p b) (ws : List (Pass p b)) (c : Core p b)
      → w.runs_at_head ≡ true
      → next.runs_at_head ≡ false
      → Ready buy (w.meanwhile c)
      → Ready sell (w.meanwhile c)
      → SavesOrders p
      → ((w.runs_at_test ≡ false)
          × (c' : Core p b) × (stock_loop (w ∷ next ∷ ws) c ≡ some (saved, c'))
          × SavedAll (w.meanwhile c) c')
        ⊎ ((w.runs_at_test ≡ true)
            × (moved : Core p b) × (c' : Core p b) × (complement_order_books (w.meanwhile c)
                ≡ some moved)
            × (process_orders moved ≡ some c')
            × (stock_loop (w ∷ next ∷ ws) c ≡ some (ended, c'))
            × IsConsistent c')
  stock_loop_lem w next ws c head stopped rb rs saves = elim (Bool-cases w.runs_at_test) [
    | inl e ↦
        let (moved, c', taken, matched, run, consistent) =
          stop_missed w next ws c head e stopped rb rs in
        inr (e, moved, c', taken, matched, run, consistent)
    | inr e ↦
        let (c', run, all) = stop_seen w (next ∷ ws) c head e rb rs saves in inl (e, c', run, all)
  ]
