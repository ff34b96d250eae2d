-- ===== src/Session/Keeping/Orders.antt =====
-- A new order keeps the books sound and every account.
use mathlib.Core.List.Permᴰ
use mathlib.Core.Path.{subst}
use stock_app.Common.{
  ◌≡◌, ◌≢◌, inl, inr, refl, sym, ap, Bool, true, false, some, ◌^◌, ◌∷◌, All, All-perm, Bool-cases,
  ℕ, suc,
}
use stock_app.Common.Int.{pos, ◌<ℤ◌}
use stock_app.Common.Equality.{username_key}
use stock_app.Proto
use stock_app.Proto.{
  TradeType, buy, sell, TradeOrder, TradeRequest, TradeResponse, CommandType, sign_up_request,
  sign_in_request, cancel_order,
}
use stock_app.Platform.{Platform}
use stock_app.ClientDataManager.Listing.{opposite}
use stock_app.ClientDataManager.OrderQueues.{push, push_order_to_order_queue, order_queue}
use stock_app.ClientDataManager.Conservation.{Known}
use stock_app.Core.Loop.{Books, Core}
use stock_app.Core.IntakeLaws.{side_orders}
use stock_app.Core.Passes.{Sound}
use stock_app.Core.CancelSound.{Sound-side, sides-Sound, kept-SideSound}
use stock_app.Session.State.{Server}
use stock_app.Session.Commands.{handle_make_order_command, stamped_order, after_stamp}
use stock_app.Session.Ordering.{Listed, Listed-Ready, make_order-Listed, queued_as}
use stock_app.Session.Keeping.{Fits, Kept}

not_taken : {A : Type 0} (r : Bool × A) → r.0 ≡ false → r ≡ (false, r.1)
not_taken (a, q) h = ap (λ x. (x, q)) h

module _ {p : Platform} {b : Books} where
  -- A queue that does not take the order has the orders that it had.
  refused-Kept :
      (t : TradeType) (o : TradeOrder) (n : ℕ) (c : Core p b)
      → (p.concurrent_queue.enqueue o (order_queue t c.manager)).0 ≡ false
      → Sound c
      → Kept c (record c { manager = queued_as t o (record c.manager { reads = n }) })
  refused-Kept buy o n c full h =
      let m = c.manager in
      let c' = record c { manager = queued_as buy o (record m { reads = n }) } in
      let same =
        p.concurrent_queue.enqueue_failed o m.buy_orders_queue _
          (not_taken (p.concurrent_queue.enqueue o m.buy_orders_queue) full) in
      (
        sides-Sound buy
            (kept-SideSound buy c c' (rw same (Permᴰ.refl (side_orders buy c))) refl (λ _ k. k)
              (Sound-side buy h))
            (kept-SideSound sell c c' (Permᴰ.refl (side_orders sell c)) refl (λ _ k. k)
              (Sound-side sell h)),
        λ _ k. k,
      )
  refused-Kept sell o n c full h =
      let m = c.manager in
      let c' = record c { manager = queued_as sell o (record m { reads = n }) } in
      let same =
        p.concurrent_queue.enqueue_failed o m.sell_orders_queue _
          (not_taken (p.concurrent_queue.enqueue o m.sell_orders_queue) full) in
      (
        sides-Sound sell
            (kept-SideSound sell c c' (rw same (Permᴰ.refl (side_orders sell c))) refl (λ _ k. k)
              (Sound-side sell h))
            (kept-SideSound buy c c' (Permᴰ.refl (side_orders buy c)) refl (λ _ k. k)
              (Sound-side buy h)),
        λ _ k. k,
      )

  Listed-Sound :
      (t : TradeType) (o : TradeOrder) (c c' : Core p b)
      → Listed t o c c'
      → o.type ≡ t
      → pos 0 <ℤ o.usd_amount
      → o.usd_amount <ℤ pos (2 ^ 31)
      → All (λ y. o.order_id ≢ y.order_id) (side_orders t c)
      → Known c.manager.clients_funds_data o.username
      → Sound c
      → Sound c'
  Listed-Sound t o c c' l is_type low high new known h =
      let (ready, owners) = Sound-side t h in
      let (perm, ready') = Listed-Ready t o c c' l is_type low high new ready in
      sides-Sound t
        (
          ready',
          All-perm _ (Permᴰ.symm perm) (
              subst (λ funds. All (λ x. Known funds x.username) (o ∷ side_orders t c))
                (sym l.funds_same) (known, owners)),
        )
        (kept-SideSound (opposite t) c c' (rw l.same_side (Permᴰ.refl (side_orders (opposite t) c)))
          l.same_active (λ _ k. rw l.funds_same k) (Sound-side (opposite t) h))

  -- How often the clock was read does not matter to a queue.
  same_refusal :
      (t : TradeType) (o : TradeOrder) (n : ℕ) (c : Core p b)
      → let m = c.manager in
        (p.concurrent_queue.enqueue o (order_queue t (record m { reads = n }))).0 ≡ false
        → (p.concurrent_queue.enqueue o (order_queue t m)).0 ≡ false
  same_refusal buy o n c h = h
  same_refusal sell o n c h = h

  pub make_order-Kept :
      (request : TradeRequest) (s : Server p b)
      → Fits Proto.make_order request s
      → Sound s.core
      → Kept s.core (handle_make_order_command request s).1.core
  unfolding handle_make_order_command push_order_to_order_queue push after_stamp
  make_order-Kept request s fit sound =
      let o = stamped_order request s in
      let c = s.core in
      let m = c.manager in
      let n = suc (suc m.reads) in
      elim (Bool-cases
        (p.concurrent_queue.enqueue o (order_queue o.type (record m { reads = n }))).0) [
          | inl yes_it_did ↦
              let done : (handle_make_order_command request s).0 ≡ some true =
                rw (handle_make_order_command, yes_it_did) refl in
              let l = make_order-Listed request s done in
              (
                Listed-Sound o.type o c _ l refl fit.0 fit.1 fit.2 fit.3 sound,
                λ _ k. rw l.funds_same k,
              )
          | inr full ↦
              rw (handle_make_order_command, full)
                (refused-Kept o.type o n c (same_refusal o.type o n c full) sound)
        ]
