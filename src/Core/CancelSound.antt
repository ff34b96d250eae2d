-- ===== src/Core/CancelSound.antt =====
-- A cancellation, and a change of one side, keep the books sound.
use mathlib.Core.List.{Permᴰ}
use mathlib.Core.List.Permᴰ
use stock_app.Common.{
  ◌≡◌, ◌≢◌, refl, ◌∙◌, ap, true, false, List, [], ◌∷◌, ◌++◌, String, arith, All, All-map, All-map₂,
  All-perm, Bool-cases, inl, inr,
}
use stock_app.Common.Int.{ℤ, eqb_ℤ, eqb_ℤ_iff}
use stock_app.Common.Equality.{id_key}
use stock_app.Common.Map.{find}
use stock_app.Proto.{TradeType, buy, sell, TradeOrder}
use stock_app.Platform.{Platform}
use stock_app.ClientDataManager.State.{active_orders}
use stock_app.ClientDataManager.Listing.{opposite}
use stock_app.ClientDataManager.OrderQueues.{queued_orders}
use stock_app.ClientDataManager.Conservation.{Known}
use stock_app.Core.Loop.{Books, Core}
use stock_app.Core.Removal.{remove_order_by_id, cancel_active_order}
use stock_app.Core.RemovalLaws.{without, has}
use stock_app.Core.Cancel.{
  book_orders, Cancelled, cancel_active_order_lem, cancel_active_order_iff,
  cancel_active_order_refused,
}
use stock_app.Core.Consistency.{IsActive, Distinct, Distinct-perm}
use stock_app.Core.IntakeLaws.{Ready, side_orders}
use stock_app.Core.Queues.{SameQueues, queued_same, remove_order-SameQueues}
use stock_app.Core.Passes.{Sound}

All-without {ℓ} :
    (P : TradeOrder → Type ℓ) (id : ℤ) (l : List TradeOrder) → All P l → All P (without id l)
unfolding without
All-without P id [] h = tt
All-without P id (x ∷ l) h = elim (Bool-cases (eqb_ℤ x.order_id id)) [
  | inl e ↦ rw e (All-without P id l h.1)
  | inr e ↦ rw e (h.0, All-without P id l h.1)
]

Distinct-without : (id : ℤ) (l : List TradeOrder) → Distinct l → Distinct (without id l)
unfolding without
Distinct-without id [] h = tt
Distinct-without id (x ∷ l) h = elim (Bool-cases (eqb_ℤ x.order_id id)) [
  | inl e ↦ rw e (Distinct-without id l h.1)
  | inr e ↦ rw e (All-without _ id l h.0, Distinct-without id l h.1)
]

-- Nothing with the id is left.
without_ne : (id : ℤ) (l : List TradeOrder) → All (λ y. id ≢ y.order_id) (without id l)
unfolding without
without_ne id [] = tt
without_ne id (x ∷ l) = elim (Bool-cases (eqb_ℤ x.order_id id)) [
  | inl e ↦ rw e (without_ne id l)
  | inr e ↦ rw e (ground (arith, eqb_ℤ_iff x.order_id id), without_ne id l)
]

has-ne :
    (id k : ℤ) (l : List TradeOrder)
    → All (λ y. k ≢ y.order_id) l
    → has id l ≡ true
    → eqb_ℤ k id ≡ false
unfolding has
has-ne id k [] h e = ground arith
has-ne id k (x ∷ l) h e = elim (Bool-cases (eqb_ℤ x.order_id id)) [
  | inl f ↦ ground (arith, eqb_ℤ_iff x.order_id id, eqb_ℤ_iff k id, h.0)
  | inr f ↦ has-ne id k l h.1 (ground arith)
]

All-append_right {ℓ κ} :
    {A : Type ℓ} (P : A → Type κ) (xs ys : List A) → All P (xs ++ ys) → All P ys
All-append_right P [] ys h = h
All-append_right P (x ∷ xs) ys h = All-append_right P xs ys h.1

-- An id of the book is not one of the queue, so the side loses what the book loses.
without-side :
    (id : ℤ) (waiting book : List TradeOrder)
    → Distinct (waiting ++ book)
    → has id book ≡ true
    → without id (waiting ++ book) ≡ waiting ++ without id book
unfolding without
without-side id [] book d h = refl
without-side id (x ∷ waiting) book d h =
    rw (has-ne id x.order_id book (All-append_right _ waiting book d.0) h)
      (ap (λ l. x ∷ l) (without-side id waiting book d.1 h))

module _ {p : Platform} {b : Books} where
  -- One side of `Sound`.
  abbrev pub SideSound : TradeType → Core p b → Type 0
  SideSound t c =
      Ready t c × All (λ o. Known c.manager.clients_funds_data o.username) (side_orders t c)

  pub Sound-side : (t : TradeType) {c : Core p b} → Sound c → SideSound t c
  Sound-side buy h = (h.buys_ready, h.buyers_known)
  Sound-side sell h = (h.sells_ready, h.sellers_known)

  pub sides-Sound :
      (t : TradeType) {c : Core p b} → SideSound t c → SideSound (opposite t) c → Sound c
  sides-Sound buy h k = record {
    buys_ready = h.0;
    buyers_known = h.1;
    sells_ready = k.0;
    sellers_known = k.1;
  }
  sides-Sound sell h k = record {
    buys_ready = k.0;
    buyers_known = k.1;
    sells_ready = h.0;
    sellers_known = h.1;
  }

  -- A side on which the same orders stand, perhaps in another order, and are active as before.
  pub kept-SideSound :
      (t : TradeType) (c c' : Core p b)
      → Permᴰ (side_orders t c') (side_orders t c)
      → active_orders t c'.manager ≡ active_orders t c.manager
      → ((client : String)
          → Known c.manager.clients_funds_data client
          → Known c'.manager.clients_funds_data client)
      → SideSound t c
      → SideSound t c'
  kept-SideSound t c c' perm same keep h = (
    record {
      all_active = All-perm _ (Permᴰ.symm perm) (rw same h.0.all_active);
      distinct = Distinct-perm (Permᴰ.symm perm) h.0.distinct;
    },
    All-perm _ (Permᴰ.symm perm) (All-map _ _ (λ o k. keep o.username k) _ h.1),
  )

  removed-SideSound :
      (t : TradeType) (id : ℤ) (c c' : Core p b)
      → Permᴰ (side_orders t c') (without id (side_orders t c))
      → ((other : ℤ)
          → id ≢ other
          → find other (active_orders t c'.manager) ≡ find other (active_orders t c.manager))
      → c'.manager.clients_funds_data ≡ c.manager.clients_funds_data
      → SideSound t c
      → SideSound t c'
  removed-SideSound t id c c' perm others funds h =
      let side = side_orders t c in
      (
        record {
          all_active = All-perm _ (Permᴰ.symm perm) (
              All-map₂ _ _ (IsActive (active_orders t c'.manager) t)
                (λ y ne a. (a.0, others y.order_id ne ∙ a.1, a.2, a.3)) (without id side)
                (without_ne id side) (All-without _ id side h.0.all_active));
          distinct = Distinct-perm (Permᴰ.symm perm) (Distinct-without id side h.0.distinct);
        },
        All-perm _ (Permᴰ.symm perm) (rw funds (All-without _ id side h.1)),
      )

  cancel-SameQueues :
      (t : TradeType) (id : ℤ) (client : String) (c : Core p b)
      → SameQueues c.manager (cancel_active_order t id client c).1.manager
  unfolding cancel_active_order remove_order_by_id
  cancel-SameQueues buy id client c = ground (arith, remove_order-SameQueues id buy c.manager)
  cancel-SameQueues sell id client c = ground (arith, remove_order-SameQueues id sell c.manager)

  side_same :
      (t : TradeType) (c c' : Core p b)
      → SameQueues c.manager c'.manager
      → Permᴰ (book_orders t c') (book_orders t c)
      → Permᴰ (side_orders t c') (side_orders t c)
  side_same t c c' queues perm = rw (queued_same t queues) (Permᴰ.append_left _ perm)

  -- Whether it succeeds or is refused, a cancellation keeps the books sound and the balances as they
  -- are.
  pub cancel_active_order-Sound :
      (t : TradeType) (id : ℤ) (client : String) (c : Core p b)
      → Sound c
      → Sound (cancel_active_order t id client c).1
        × ((cancel_active_order t id client c).1.manager.clients_funds_data
            ≡ c.manager.clients_funds_data)
  cancel_active_order-Sound t id client c h =
      let c' = (cancel_active_order t id client c).1 in
      let queues = cancel-SameQueues t id client c in
      let own = Sound-side t h in
      let other = Sound-side (opposite t) h in
      elim (Bool-cases (cancel_active_order t id client c).0) [
        | inl done ↦
            let gone : Cancelled t id c c' = cancel_active_order_lem t id client c done in
            let there = ((cancel_active_order_iff t id client c).0 done).in_book in
            let left =
              without-side id (queued_orders t c.manager) (book_orders t c) own.0.distinct there in
            let perm : Permᴰ (side_orders t c') (without id (side_orders t c)) =
              rw (left, queued_same t queues) (Permᴰ.append_left _ gone.off_book) in
            let funds = gone.funds_same in
            (
              sides-Sound t (removed-SideSound t id c c' perm gone.others_active funds own) (
                  kept-SideSound (opposite t) c c'
                    (side_same (opposite t) c c' queues
                      (rw gone.other_book (Permᴰ.refl (book_orders (opposite t) c))))
                    gone.other_side_active (λ _ k. rw funds k) other),
              funds,
            )
        | inr refused ↦
            let (same, perm, there) = cancel_active_order_refused t id client c refused in
            (
              sides-Sound t
                  (kept-SideSound t c c' (side_same t c c' queues perm) (ap (active_orders t) same)
                    (λ _ k. rw same k) own)
                  (kept-SideSound (opposite t) c c'
                    (side_same (opposite t) c c' queues
                      (rw there (Permᴰ.refl (book_orders (opposite t) c))))
                    (ap (active_orders (opposite t)) same) (λ _ k. rw same k) other),
              rw same refl,
            )
      ]
