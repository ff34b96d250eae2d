-- ===== src/Core/IntakeLaws.antt =====
-- complement_order_books moves every waiting order into its book, and loses none.
use mathlib.Core.List.{Permᴰ}
use mathlib.Core.List.Permᴰ
use mathlib.Core.Path.{subst}
use stock_app.Common.{
  ℕ, zero, suc, ◌≡◌, ◌<◌, refl, ap, ◌∙◌, Bool, true, some, List, [], ◌∷◌, ◌++◌, length, length-perm,
  arith, All, All-perm, All-map, All-append_left, Bool-cases, inl, inr,
}
use stock_app.Proto.{TradeType, buy, sell, TradeOrder}
use stock_app.Platform.{Platform}
use stock_app.ClientDataManager.State.{ClientDataManager, active_orders}
use stock_app.ClientDataManager.Listing.{opposite, SameActive}
use stock_app.ClientDataManager.OrderQueues.{
  pop-some, is_empty-nil, not_empty-some, order_queue, set_order_queue, is_empty_order_queue,
  pop_order_from_order_queue, queued_orders,
}
use stock_app.Core.Loop.{Books, Core}
use stock_app.Core.Cancel.{book_orders}
use stock_app.Core.Consistency.{IsActive, Distinct, Distinct-perm, IsConsistent}
use stock_app.Core.Intake.{
  place_by_type, place_order_to_priority_queue, complement_step, complement_loop,
  complement_order_books,
}

-- An order goes from the one list to the other.
moved_order :
    (o : TradeOrder) (waiting rest book book' : List TradeOrder)
    → Permᴰ waiting (o ∷ rest)
    → Permᴰ book' (o ∷ book)
    → Permᴰ (rest ++ book') (waiting ++ book)
moved_order o waiting rest book book' p q =
    Permᴰ.trans (Permᴰ.append_left rest q)
      (Permᴰ.trans (Permᴰ.middle o rest book) (Permᴰ.append_right book (Permᴰ.symm p)))

popped :
    {p : Platform} (t : TradeType) (m : ClientDataManager p) (order : TradeOrder)
    (rest : p.concurrent_queue.Queue)
    → p.concurrent_queue.try_dequeue (order_queue t m) ≡ some (order, rest)
    → pop_order_from_order_queue t m ≡ (order, true, set_order_queue t rest m)
unfolding pop_order_from_order_queue
popped {p} t m order rest e =
    ap (λ (r : TradeOrder × Bool × p.concurrent_queue.Queue). (r.0, r.1, set_order_queue t r.2 m))
      (pop-some p.concurrent_queue (order_queue t m) rest order e)

module _ {p : Platform} {b : Books} where
  -- What moving orders from one queue into its book leaves as it was.
  pub record SameElsewhere (t : TradeType) (c c' : Core p b) : Type 0 where
    pub other_book : book_orders (opposite t) c' ≡ book_orders (opposite t) c
    pub other_queue : order_queue (opposite t) c'.manager ≡ order_queue (opposite t) c.manager
    pub same_active : SameActive c.manager c'.manager
    pub funds_same : c'.manager.clients_funds_data ≡ c.manager.clients_funds_data

  -- The orders of a side, waiting or in the book.
  abbrev pub side_orders : TradeType → Core p b → List TradeOrder
  side_orders t c = queued_orders t c.manager ++ book_orders t c

  stepped :
      (t : TradeType) (c : Core p b) (order : TradeOrder) (rest : p.concurrent_queue.Queue)
      → p.concurrent_queue.try_dequeue (order_queue t c.manager) ≡ some (order, rest)
      → order.type ≡ t
      → complement_step t c
        ≡ place_by_type t order (record c { manager = set_order_queue t rest c.manager })
  unfolding complement_step place_order_to_priority_queue
  stepped t c order rest e is_type =
      ap (λ r. place_order_to_priority_queue r.0 (record c { manager = r.2 }))
        (popped t c.manager order rest e)
      ∙ ap (λ u. place_by_type u order (record c { manager = set_order_queue t rest c.manager }))
          is_type

  -- One order of the right type is moved.
  abbrev Moves : TradeType → TradeOrder → p.concurrent_queue.Queue → Core p b → Core p b → Type 0
  Moves t order rest c c' =
      (order_queue t c'.manager ≡ rest)
      × Permᴰ (book_orders t c') (order ∷ book_orders t c)
      × SameElsewhere t c c'

  place-Moves :
      (t : TradeType) (c : Core p b) (order : TradeOrder) (rest : p.concurrent_queue.Queue)
      → Moves t order rest c
          (place_by_type t order (record c { manager = set_order_queue t rest c.manager }))
  unfolding place_by_type
  place-Moves buy c order rest = (
    refl,
    b.buys.contents-push order c.buy_orders_book,
    record {
      other_book = refl;
      other_queue = refl;
      same_active = record { same_buys = refl; same_sells = refl };
      funds_same = refl;
    },
  )
  place-Moves sell c order rest = (
    refl,
    b.sells.contents-push order c.sell_orders_book,
    record {
      other_book = refl;
      other_queue = refl;
      same_active = record { same_buys = refl; same_sells = refl };
      funds_same = refl;
    },
  )

  complement_step-Moves :
      (t : TradeType) (c : Core p b) (order : TradeOrder) (rest : p.concurrent_queue.Queue)
      → p.concurrent_queue.try_dequeue (order_queue t c.manager) ≡ some (order, rest)
      → order.type ≡ t
      → Moves t order rest c (complement_step t c)
  complement_step-Moves t c order rest e is_type =
      rw (stepped t c order rest e is_type) (place-Moves t c order rest)

  SameElsewhere-refl : (t : TradeType) (c : Core p b) → SameElsewhere t c c
  SameElsewhere-refl t c = record {
    other_book = refl;
    other_queue = refl;
    same_active = record { same_buys = refl; same_sells = refl };
    funds_same = refl;
  }

  SameElsewhere-trans :
      (t : TradeType) {c d e : Core p b}
      → SameElsewhere t c d
      → SameElsewhere t d e
      → SameElsewhere t c e
  SameElsewhere-trans t m n = record {
    other_book = n.other_book ∙ m.other_book;
    other_queue = n.other_queue ∙ m.other_queue;
    same_active = record {
      same_buys = n.same_active.same_buys ∙ m.same_active.same_buys;
      same_sells = n.same_active.same_sells ∙ m.same_active.same_sells;
    };
    funds_same = n.funds_same ∙ m.funds_same;
  }

  -- The loop over one queue ends, with the queue empty and all of its orders in the book.
  complement_loop_lem :
      (fuel : ℕ) (t : TradeType) (c : Core p b)
      → length (queued_orders t c.manager) < fuel
      → All (λ o. o.type ≡ t) (queued_orders t c.manager)
      → (c' : Core p b) × (complement_loop fuel t c ≡ some c')
        × (queued_orders t c'.manager ≡ [])
        × Permᴰ (book_orders t c') (side_orders t c)
        × SameElsewhere t c c'
  unfolding complement_loop is_empty_order_queue
  complement_loop_lem zero t c h types = absurd (omega arith)
  complement_loop_lem (suc fuel) t c h types =
      let q = order_queue t c.manager in
      elim (Bool-cases (is_empty_order_queue t c.manager)) [
        | inl e ↦
            let nil = is_empty-nil p.concurrent_queue q e in
            (
              c,
              rw (complement_loop, e),
              nil,
              rw nil (Permᴰ.refl (book_orders t c)),
              SameElsewhere-refl t c,
            )
        | inr e ↦
            let (x, f) = not_empty-some p.concurrent_queue q e in
            let perm = p.concurrent_queue.dequeue_some q x.1 x.0 f in
            let (is_type, rest_types) = All-perm (λ o. o.type ≡ t) perm types in
            let (left, placed, kept) = complement_step-Moves t c x.0 x.1 f is_type in
            let waiting = ap p.concurrent_queue.contents left in
            let (c', run, nil, all, same) =
              complement_loop_lem fuel t (complement_step t c)
                (rw waiting (omega (arith, length-perm perm))) (rw waiting rest_types) in
            (
              c',
              rw (complement_loop, e) run,
              nil,
              Permᴰ.trans (rw waiting at all) (moved_order x.0 _ _ _ _ perm placed),
              SameElsewhere-trans t kept same,
            )
      ]

  -- Every order of a side, waiting or in the book, is active as it is, and no two have one id.
  pub record Ready (t : TradeType) (c : Core p b) : Type 0 where
    pub all_active : All (IsActive (active_orders t c.manager) t) (side_orders t c)
    pub distinct : Distinct (side_orders t c)

  side_elsewhere :
      {c c' : Core p b} → SameElsewhere buy c c' → side_orders sell c' ≡ side_orders sell c
  side_elsewhere same = rw (same.other_queue, same.other_book)

  -- Moving the buy orders leaves the sellers' side as it was.
  Ready-elsewhere : {c c' : Core p b} → SameElsewhere buy c c' → Ready sell c → Ready sell c'
  Ready-elsewhere same r = record {
    all_active = rw (same.other_queue, same.other_book, same.same_active.same_sells) r.all_active;
    distinct = rw (same.other_queue, same.other_book) r.distinct;
  }

  side_loop :
      (t : TradeType) (c : Core p b)
      → Ready t c
      → (c' : Core p b) × (complement_loop (suc (length (queued_orders t c.manager))) t c ≡ some c')
        × (queued_orders t c'.manager ≡ [])
        × Permᴰ (book_orders t c') (side_orders t c)
        × SameElsewhere t c c'
  side_loop t c r =
      complement_loop_lem (suc (length (queued_orders t c.manager))) t c (omega arith) (
        All-map _ _ (λ o h. h.0) _
          (All-append_left _ (queued_orders t c.manager) (book_orders t c) r.all_active))

  -- If every order of both sides, waiting or in its book, is active, with a positive amount that
  -- fits an int32, and the ids of a side are distinct, complement_order_books ends: both queues are
  -- empty, each book holds the orders that waited for it and the ones it had, the books agree with
  -- the active orders, and no balance has changed.
  pub complement_order_books-IsConsistent :
      (c : Core p b)
      → Ready buy c
      → Ready sell c
      → (c' : Core p b) × (complement_order_books c ≡ some c')
        × IsConsistent c'
        × (queued_orders buy c'.manager ≡ [])
        × (queued_orders sell c'.manager ≡ [])
        × Permᴰ (book_orders buy c') (side_orders buy c)
        × Permᴰ (book_orders sell c') (side_orders sell c)
        × (c'.manager.clients_funds_data ≡ c.manager.clients_funds_data)
  unfolding complement_order_books
  complement_order_books-IsConsistent c rb rs =
      let (c1, run1, nil1, perm1, same1) = side_loop buy c rb in
      let rs1 = Ready-elsewhere same1 rs in
      let (c2, run2, nil2, perm2, same2) = side_loop sell c1 rs1 in
      (
        c2,
        rw (complement_order_books, run1) run2,
        record {
          buys_agree = record {
            all_active =
                rw (same2.other_book, same2.same_active.same_buys, same1.same_active.same_buys)
                  (All-perm _ (Permᴰ.symm perm1) rb.all_active);
            distinct = rw same2.other_book (Distinct-perm (Permᴰ.symm perm1) rb.distinct);
          };
          sells_agree = record {
            all_active =
                rw same2.same_active.same_sells (All-perm _ (Permᴰ.symm perm2) rs1.all_active);
            distinct = Distinct-perm (Permᴰ.symm perm2) rs1.distinct;
          };
        },
        ap p.concurrent_queue.contents same2.other_queue ∙ nil1,
        nil2,
        rw same2.other_book perm1,
        subst (λ l. Permᴰ (book_orders sell c2) l) (side_elsewhere same1) perm2,
        same2.funds_same ∙ same1.funds_same,
      )
