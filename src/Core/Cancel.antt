-- ===== src/Core/Cancel.antt =====
-- cancel_active_order: who can cancel what, and what is left afterwards.
use mathlib.Core.List.{Permᴰ}
use mathlib.Core.List.Permᴰ
use stock_app.Common.{
  ◌≡◌, ◌≢◌, ◌↔◌, refl, sym, ◌∙◌, Bool, true, false, ◌&&◌, none, some, String, List, arith,
  Bool-cases, Option-cases, inl, inr,
}
use stock_app.Common.Int.{ℤ}
use stock_app.Common.Equality.{id_key, username_key, ==_self, ==_ne}
use stock_app.Common.Map.{find}
use stock_app.Proto.{TradeType, buy, sell, TradeOrder}
use stock_app.Platform.{Platform}
use stock_app.ClientDataManager.State.{ClientDataManager, active_orders}
use stock_app.ClientDataManager.ActiveOrders.{remove_order_from_active_orders}
use stock_app.ClientDataManager.Listing.{opposite, find-remove_order, remove_order_opposite}
use stock_app.Core.Conservation.{funds-remove_order_from_active_orders}
use stock_app.Core.Loop.{Books, Core}
use stock_app.Core.Removal.{remove_order_by_id, may_cancel, cancel_active_order}
use stock_app.Core.RemovalLaws.{without, has, without-absent, remove_from_queue_lem}

and_true : (a b : Bool) → (a && b) ≡ true → (a ≡ true) × (b ≡ true)
and_true a b h = ground arith

may_cancel_owner :
    {p : Platform} (t : TradeType) (id : ℤ) (client : String) (m : ClientDataManager p)
    → may_cancel t id client m ≡ true
    → (o : TradeOrder) × (find id (active_orders t m) ≡ some o) × (o.username ≡ client)
unfolding may_cancel
may_cancel_owner t id client m h = elim (Option-cases (find id (active_orders t m))) [
  | inl e ↦ ground arith
  | inr (o, e) ↦ (o, e, (username_key.same_iff o.username client).0 (rw (may_cancel, e) at h))
]

owner_may_cancel :
    {p : Platform} (t : TradeType) (id : ℤ) (client : String) (m : ClientDataManager p)
    (o : TradeOrder)
    → find id (active_orders t m) ≡ some o
    → o.username ≡ client
    → may_cancel t id client m ≡ true
unfolding may_cancel
owner_may_cancel t id client m o e own =
    rw (may_cancel, e) ((username_key.same_iff o.username client).1 own)

module _ {p : Platform} {b : Books} where
  -- What the book of a side holds.
  abbrev pub book_orders : TradeType → Core p b → List TradeOrder
  book_orders buy c = b.buys.contents c.buy_orders_book
  book_orders sell c = b.sells.contents c.sell_orders_book

  -- The client owns the active order with this id, and the order is in the book.
  pub record Cancellable (t : TradeType) (id : ℤ) (client : String) (c : Core p b) : Type 0 where
    pub order : TradeOrder
    pub is_active : find id (active_orders t c.manager) ≡ some order
    pub is_owner : order.username ≡ client
    pub in_book : has id (book_orders t c) ≡ true

  -- remove_order_by_id on its side, and nothing on the other.
  remove_order_by_id_lem :
      (t : TradeType) (id : ℤ) (c : Core p b)
      → ((remove_order_by_id id t c).0 ≡ has id (book_orders t c))
        × Permᴰ (book_orders t (remove_order_by_id id t c).1) (without id (book_orders t c))
        × (book_orders (opposite t) (remove_order_by_id id t c).1 ≡ book_orders (opposite t) c)
        × ((remove_order_by_id id t c).1.manager ≡ c.manager)
  unfolding remove_order_by_id
  remove_order_by_id_lem buy id c =
      let (perm, found) = remove_from_queue_lem b.buys c.buy_orders_book id in
      (found, perm, refl, refl)
  remove_order_by_id_lem sell id c =
      let (perm, found) = remove_from_queue_lem b.sells c.sell_orders_book id in
      (found, perm, refl, refl)

  cancel_result :
      (t : TradeType) (id : ℤ) (client : String) (c : Core p b)
      → (cancel_active_order t id client c).0
        ≡ (may_cancel t id client c.manager && has id (book_orders t c))
  unfolding cancel_active_order
  cancel_result t id client c = ground (arith, (remove_order_by_id_lem t id c).0)

  -- A cancellation succeeds exactly if an order with the id is active, the client owns it, and the book
  -- of its side holds an order with the id.
  pub cancel_active_order_iff :
      (t : TradeType) (id : ℤ) (client : String) (c : Core p b)
      → ((cancel_active_order t id client c).0 ≡ true) ↔ Cancellable t id client c
  cancel_active_order_iff t id client c = (
    λ h.
        let both = and_true _ _ (sym (cancel_result t id client c) ∙ h) in
        let (o, e, own) = may_cancel_owner t id client c.manager both.0 in
        record { order = o; is_active = e; is_owner = own; in_book = both.1 },
    λ k.
        cancel_result t id client c
        ∙ rw (owner_may_cancel t id client c.manager k.order k.is_active k.is_owner, k.in_book),
  )

  -- After a cancellation the order is gone from the active orders and from its book, and all else is
  -- as before: the other active orders, the other orders of the book, the other side, the balances.
  pub record Cancelled (t : TradeType) (id : ℤ) (c c' : Core p b) : Type 0 where
    pub not_active : find id (active_orders t c'.manager) ≡ none
    pub others_active :
        (other : ℤ)
        → id ≢ other
        → find other (active_orders t c'.manager) ≡ find other (active_orders t c.manager)
    pub off_book : Permᴰ (book_orders t c') (without id (book_orders t c))
    pub other_side_active :
        active_orders (opposite t) c'.manager ≡ active_orders (opposite t) c.manager
    pub other_book : book_orders (opposite t) c' ≡ book_orders (opposite t) c
    pub funds_same : c'.manager.clients_funds_data ≡ c.manager.clients_funds_data

  -- The state after a cancellation that went through.
  cancel_done :
      (t : TradeType) (id : ℤ) (client : String) (c : Core p b)
      → (cancel_active_order t id client c).0 ≡ true
      → (cancel_active_order t id client c).1 ≡ (
          let c' = (remove_order_by_id id t c).1 in
          record c' { manager = (remove_order_from_active_orders id t c'.manager).1 })
  unfolding cancel_active_order
  cancel_done t id client c h = ground arith

  -- The manager and the books after the second and third step.
  abbrev both_removed : TradeType → ℤ → Core p b → Core p b
  both_removed t id c =
      let c' = (remove_order_by_id id t c).1 in
      record c' { manager = (remove_order_from_active_orders id t c'.manager).1 }

  book_orders-manager :
      (t : TradeType) (c : Core p b) (m : ClientDataManager p)
      → book_orders t (record c { manager = m }) ≡ book_orders t c
  book_orders-manager buy c m = refl
  book_orders-manager sell c m = refl

  both_removed-Cancelled :
      (t : TradeType) (id : ℤ) (c : Core p b) → Cancelled t id c (both_removed t id c)
  both_removed-Cancelled t id c =
      let c' = (remove_order_by_id id t c).1 in
      let (_, perm, other, same) = remove_order_by_id_lem t id c in
      let m' = (remove_order_from_active_orders id t c'.manager).1 in
      record {
        not_active = rw (find-remove_order t id id c'.manager, ==_self id);
        others_active = λ k ne. rw (find-remove_order t id k c'.manager, ==_ne id k ne, same);
        off_book = rw (book_orders-manager t c' m') perm;
        other_side_active = rw (remove_order_opposite t id c'.manager, same);
        other_book = rw (book_orders-manager (opposite t) c' m') other;
        funds_same = rw (funds-remove_order_from_active_orders id t c'.manager, same);
      }

  -- After a cancellation that succeeds the order is neither active nor in its book, and the other
  -- active orders, the other orders of the book, the other side and the balances are as before.
  pub cancel_active_order_lem :
      (t : TradeType) (id : ℤ) (client : String) (c : Core p b)
      → (cancel_active_order t id client c).0 ≡ true
      → Cancelled t id c (cancel_active_order t id client c).1
  cancel_active_order_lem t id client c h =
      rw (cancel_done t id client c h) (both_removed-Cancelled t id c)

  -- A cancellation that is refused changes neither the client data nor what the books hold.
  pub cancel_active_order_refused :
      (t : TradeType) (id : ℤ) (client : String) (c : Core p b)
      → (cancel_active_order t id client c).0 ≡ false
      → let c' = (cancel_active_order t id client c).1 in
        (c'.manager ≡ c.manager)
        × Permᴰ (book_orders t c') (book_orders t c)
        × (book_orders (opposite t) c' ≡ book_orders (opposite t) c)
  unfolding cancel_active_order
  cancel_active_order_refused t id client c h =
      elim (Bool-cases (may_cancel t id client c.manager)) [
        | inl allowed ↦
            let (found, perm, other, same) = remove_order_by_id_lem t id c in
            let absent : has id (book_orders t c) ≡ false =
              rw allowed at (sym (cancel_result t id client c) ∙ h) in
            rw (cancel_active_order, allowed, found, absent)
              (same, rw (without-absent id _ absent) at perm, other)
        | inr refused ↦ rw (cancel_active_order, refused) (refl, Permᴰ.refl _, refl)
      ]
