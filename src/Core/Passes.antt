-- ===== src/Core/Passes.antt =====
-- What a pass of the matching thread keeps: the orders of both sides are active, their owners have
-- accounts, and no account is lost.
use mathlib.Core.List.Permᴰ
use mathlib.Core.Path.{subst}
use mathlib.Core.Option.{some-injective}
use stock_app.Common.{◌≡◌, refl, sym, ◌∙◌, ap, true, some, [], All, All-perm, ◌++◌}
use stock_app.Proto.{TradeType, buy, sell}
use stock_app.Platform.{Platform}
use stock_app.ClientDataManager.OrderQueues.{queued_orders}
use stock_app.ClientDataManager.Conservation.{Known, KeepsAccounts}
use stock_app.Core.Loop.{Books, Core}
use stock_app.Core.Cancel.{book_orders}
use stock_app.Core.Consistency.{process_orders-IsConsistent}
use stock_app.Core.Conservation.{AllKnown, Intact, process_orders-Intact}
use stock_app.Core.IntakeLaws.{Ready, side_orders, complement_order_books-IsConsistent}
use stock_app.Core.Persistence.{stock_pass}
use stock_app.Core.Queues.{SameQueues, queued_same, process_orders-SameQueues}

module _ {p : Platform} {b : Books} where
  -- The orders of both sides, waiting and in the books, are active with distinct ids, and whoever owns
  -- one of them has an account.
  pub record Sound (c : Core p b) : Type 0 where
    pub buys_ready : Ready buy c
    pub sells_ready : Ready sell c
    pub buyers_known : All (λ o. Known c.manager.clients_funds_data o.username) (side_orders buy c)
    pub sellers_known :
        All (λ o. Known c.manager.clients_funds_data o.username) (side_orders sell c)

  -- No account is gone.
  abbrev pub SameClients : Core p b → Core p b → Type 0
  SameClients c c' = KeepsAccounts c.manager.clients_funds_data c'.manager.clients_funds_data

  -- What is in the books is active, and nothing waits.
  side_empty :
      (t : TradeType) (c : Core p b)
      → queued_orders t c.manager ≡ []
      → side_orders t c ≡ book_orders t c
  side_empty t c h = ap (λ l. l ++ book_orders t c) h

  pub stock_pass-Sound :
      (c : Core p b)
      → Sound c
      → (c' : Core p b) × (stock_pass true c ≡ some (some tt, c')) × Sound c' × SameClients c c'
  unfolding stock_pass
  stock_pass-Sound c h =
      let (c1, run1, consistent, nil_b, nil_s, buys, sells, funds) =
        complement_order_books-IsConsistent c h.buys_ready h.sells_ready in
      let known : AllKnown c1 = record {
        buyers_known = rw funds (All-perm _ (Permᴰ.symm buys) h.buyers_known);
        sellers_known = rw funds (All-perm _ (Permᴰ.symm sells) h.sellers_known);
      } in
      let (c2, run2, agree) = process_orders-IsConsistent c1 consistent in
      let (c3, run3, kept) = process_orders-Intact c1 known in
      let (c4, run4, queues) = process_orders-SameQueues c1 in
      let kept2 : Intact c1.manager.clients_funds_data c2 =
        subst (Intact c1.manager.clients_funds_data) (some-injective _ _ (sym run3 ∙ run2)) kept in
      let queues2 : SameQueues c1.manager c2.manager =
        subst (λ d. SameQueues c1.manager d.manager) (some-injective _ _ (sym run4 ∙ run2))
          queues in
      let at_buys = side_empty buy c2 (queued_same buy queues2 ∙ nil_b) in
      let at_sells = side_empty sell c2 (queued_same sell queues2 ∙ nil_s) in
      (
        c2,
        rw (stock_pass, run1, run2) refl,
        record {
          buys_ready = record {
            all_active = rw at_buys agree.buys_agree.all_active;
            distinct = rw at_buys agree.buys_agree.distinct;
          };
          sells_ready = record {
            all_active = rw at_sells agree.sells_agree.all_active;
            distinct = rw at_sells agree.sells_agree.distinct;
          };
          buyers_known = rw at_buys kept2.known.buyers_known;
          sellers_known = rw at_sells kept2.known.sellers_known;
        },
        λ client k. kept2.kept client (rw funds k),
      )
