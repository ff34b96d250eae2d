-- ===== src/Session/Ordering.antt =====
-- An order that a client makes waits in its queue and is active, as complement_order_books wants it.
use mathlib.Core.List.{Permᴰ}
use mathlib.Core.List.Permᴰ
use mathlib.Core.Path.{subst}
use stock_app.Common.{
  ◌≡◌, ◌≢◌, refl, ap, Bool, true, some, ◌∷◌, arith, All, All-map₂, All-perm, Bool-cases, inl, inr,
  ◌^◌,
}
use stock_app.Common.Int.{ℤ, pos, ◌<ℤ◌}
use stock_app.Common.Equality.{id_key}
use stock_app.Common.Map.{Map, assign, find-assign_self, find-assign_ne}
use stock_app.Proto.{TradeType, buy, sell, TradeOrder, TradeRequest}
use stock_app.Platform.{Platform}
use stock_app.ClientDataManager.State.{ClientDataManager, active_orders, set_active_orders}
use stock_app.ClientDataManager.Listing.{opposite}
use stock_app.ClientDataManager.ActiveOrders.{push_order_to_active_orders}
use stock_app.ClientDataManager.OrderQueues.{
  push, push_order_to_order_queue, order_queue, set_order_queue, queued_orders,
}
use stock_app.Core.Loop.{Books, Core}
use stock_app.Core.Cancel.{book_orders}
use stock_app.Core.Consistency.{IsActive, Distinct-perm}
use stock_app.Core.IntakeLaws.{Ready, side_orders}
use stock_app.Session.State.{Server}
use stock_app.Session.Commands.{handle_make_order_command, stamped_order, after_stamp}

-- An active order stays active when another one is added.
still-IsActive :
    (t : TradeType) (o y : TradeOrder) (active : Map ℤ TradeOrder)
    → o.order_id ≢ y.order_id
    → IsActive active t y
    → IsActive (assign o.order_id o active) t y
still-IsActive t o y active ne h =
    (h.0, rw (find-assign_ne o.order_id y.order_id o active ne) h.1, h.2, h.3)

took : {A : Type 0} (r : Bool × A) → r.0 ≡ true → r ≡ (true, r.1)
took (a, q) h = ap (λ x. (x, q)) h

module _ {p : Platform} where
  -- The order is put into the queue of a type.
  abbrev pub queued_as : TradeType → TradeOrder → ClientDataManager p → ClientDataManager p
  queued_as t o m = set_order_queue t (p.concurrent_queue.enqueue o (order_queue t m)).1 m

module _ {p : Platform} {b : Books} where
  -- The order is put into the queue of a type, and among the active orders of the type.
  abbrev listed_as : TradeType → TradeOrder → Core p b → Core p b
  listed_as t o c =
      let m = queued_as t o c.manager in
      record c { manager = set_active_orders t (assign o.order_id o (active_orders t m)) m }

  -- The queue takes the order, and the map gets it, on one side only.
  pub record Listed (t : TradeType) (o : TradeOrder) (c c' : Core p b) : Type 0 where
    pub waiting : Permᴰ (queued_orders t c'.manager) (o ∷ queued_orders t c.manager)
    pub same_book : book_orders t c' ≡ book_orders t c
    pub active_now : active_orders t c'.manager ≡ assign o.order_id o (active_orders t c.manager)
    pub same_side : side_orders (opposite t) c' ≡ side_orders (opposite t) c
    pub same_active : active_orders (opposite t) c'.manager ≡ active_orders (opposite t) c.manager
    pub funds_same : c'.manager.clients_funds_data ≡ c.manager.clients_funds_data

  listed_as-Listed :
      (t : TradeType) (o : TradeOrder) (c : Core p b)
      → (p.concurrent_queue.enqueue o (order_queue t c.manager)).0 ≡ true
      → Listed t o c (listed_as t o c)
  listed_as-Listed buy o c done = record {
    waiting =
        p.concurrent_queue.enqueue_done o c.manager.buy_orders_queue _
          (took (p.concurrent_queue.enqueue o c.manager.buy_orders_queue) done);
    same_book = refl;
    active_now = refl;
    same_side = refl;
    same_active = refl;
    funds_same = refl;
  }
  listed_as-Listed sell o c done = record {
    waiting =
        p.concurrent_queue.enqueue_done o c.manager.sell_orders_queue _
          (took (p.concurrent_queue.enqueue o c.manager.sell_orders_queue) done);
    same_book = refl;
    active_now = refl;
    same_side = refl;
    same_active = refl;
    funds_same = refl;
  }

  pub Listed-Ready :
      (t : TradeType) (o : TradeOrder) (c c' : Core p b)
      → Listed t o c c'
      → o.type ≡ t
      → pos 0 <ℤ o.usd_amount
      → o.usd_amount <ℤ pos (2 ^ 31)
      → All (λ y. o.order_id ≢ y.order_id) (side_orders t c)
      → Ready t c
      → Permᴰ (side_orders t c') (o ∷ side_orders t c) × Ready t c'
  Listed-Ready t o c c' l is_type low high new r =
      let active = active_orders t c.manager in
      let perm : Permᴰ (side_orders t c') (o ∷ side_orders t c) =
        rw l.same_book (Permᴰ.append_right (book_orders t c) l.waiting) in
      (
        perm,
        record {
          all_active = rw l.active_now (
              All-perm (IsActive (assign o.order_id o active) t) (Permᴰ.symm perm) (
                (is_type, find-assign_self o.order_id o active, low, high),
                All-map₂ _ _ (IsActive (assign o.order_id o active) t)
                    (λ y ne h. still-IsActive t o y active ne h) (side_orders t c) new r.all_active,
              ));
          distinct = Distinct-perm (Permᴰ.symm perm) (new, r.distinct);
        },
      )

  pub Ready-same :
      (t : TradeType) (c c' : Core p b)
      → side_orders t c' ≡ side_orders t c
      → active_orders t c'.manager ≡ active_orders t c.manager
      → Ready t c
      → Ready t c'
  Ready-same t c c' e f r = record {
    all_active = rw (e, f) r.all_active;
    distinct = rw e r.distinct;
  }

  -- How often the clock was read does not matter.
  Listed-reads :
      (t : TradeType) (o : TradeOrder) (s : Server p b) (c' : Core p b)
      → Listed t o (after_stamp s).core c'
      → Listed t o s.core c'
  unfolding after_stamp
  Listed-reads buy o s c' l = record {
    waiting = l.waiting;
    same_book = l.same_book;
    active_now = l.active_now;
    same_side = l.same_side;
    same_active = l.same_active;
    funds_same = l.funds_same;
  }
  Listed-reads sell o s c' l = record {
    waiting = l.waiting;
    same_book = l.same_book;
    active_now = l.active_now;
    same_side = l.same_side;
    same_active = l.same_active;
    funds_same = l.funds_same;
  }

  -- A handle_make_order_command that succeeds has listed the order.
  pub make_order-Listed :
      (request : TradeRequest) (s : Server p b)
      → (handle_make_order_command request s).0 ≡ some true
      → let o = stamped_order request s in
        Listed o.type o s.core (handle_make_order_command request s).1.core
  unfolding handle_make_order_command push_order_to_order_queue push push_order_to_active_orders
  make_order-Listed request s h =
      let o = stamped_order request s in
      let c = (after_stamp s).core in
      Listed-reads o.type o s _
        (elim (Bool-cases (p.concurrent_queue.enqueue o (order_queue o.type c.manager)).0) [
          | inl e ↦ rw (handle_make_order_command, e) (listed_as-Listed o.type o c e)
          | inr e ↦ absurd (ground (arith, rw (handle_make_order_command, e) at h))
        ])

  -- If the orders of both sides, waiting and in the books, are active and their ids are distinct, and
  -- the queue takes the client's order, which has a positive amount that fits an int32 and an id that
  -- no order of its side has, then the order joins the orders of its side, both sides are as before in
  -- this respect, and no balance has changed.
  pub make_order-Ready :
      (t : TradeType) (request : TradeRequest) (s : Server p b)
      → let o = stamped_order request s in
        let c' = (handle_make_order_command request s).1.core in
        (handle_make_order_command request s).0 ≡ some true
        → o.type ≡ t
        → pos 0 <ℤ o.usd_amount
        → o.usd_amount <ℤ pos (2 ^ 31)
        → All (λ y. o.order_id ≢ y.order_id) (side_orders t s.core)
        → Ready t s.core
        → Ready (opposite t) s.core
        → Permᴰ (side_orders t c') (o ∷ side_orders t s.core)
          × Ready t c'
          × Ready (opposite t) c'
          × (c'.manager.clients_funds_data ≡ s.core.manager.clients_funds_data)
  make_order-Ready t request s done is_type low high new here there =
      let c' = (handle_make_order_command request s).1.core in
      let o = stamped_order request s in
      let l : Listed t o s.core c' =
        subst (λ u. Listed u o s.core c') is_type (make_order-Listed request s done) in
      let (perm, ready) = Listed-Ready t o s.core c' l is_type low high new here in
      (perm, ready, Ready-same (opposite t) s.core c' l.same_side l.same_active there, l.funds_same)
