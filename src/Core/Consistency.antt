-- ===== src/Core/Consistency.antt =====
-- The order books agree with the maps of active orders of the client data manager: what a book holds
-- is active with the same content. The books are what the engine trades from, the maps what the
-- clients see.
use mathlib.Core.Path.{subst}
use mathlib.Core.List.{Permᴰ}
use mathlib.Core.List.Permᴰ
use stock_app.Common.{
  ◌≡◌, ◌≢◌, ◌^◌, refl, sym, ◌∙◌, ap, Bool, true, false, some, List, [], ◌∷◌, arith, All, All-perm,
  All-map₂, Bool-cases, inl, inr,
}
use stock_app.Common.Int.{ℤ, pos, ◌≤ℤ◌, ◌<ℤ◌, eqb_ℤ, ltb_ℤ, int_laws}
use stock_app.Common.Word.{to_int32-sub}
use stock_app.Common.Equality.{id_key, ==_self, ==_ne}
use stock_app.Common.Map.{Map, find}
use stock_app.Proto.{TradeType, buy, sell, TradeOrder}
use stock_app.Platform.{Platform}
use stock_app.Queue.{PriorityQueue}
use stock_app.ClientDataManager.ActiveOrders.{reduce}
use stock_app.Core.Match.{transaction_amount, match_orders, push_if_left}
use stock_app.Core.Actives.{after_match, match_active_buys, match_active_sells}
use stock_app.Core.Contents.{All-push, All-pop}
use stock_app.Core.Loop.{Books, Core, execute, process_round, process_orders}
use stock_app.Core.Rounds.{taken, process_round_cases, Keeps, process_orders_rule}

-- No two orders of the list have one id.
abbrev pub Distinct : List TradeOrder → Type 0
Distinct [] = Unit
Distinct (x ∷ xs) = All (λ y. x.order_id ≢ y.order_id) xs × Distinct xs

pub Distinct-perm : {xs ys : List TradeOrder} → Permᴰ xs ys → Distinct xs → Distinct ys
Distinct-perm Permᴰ.nil h = h
Distinct-perm (Permᴰ.cons {l₂ = l} e p) h =
    (subst (λ x. All (λ y. x.order_id ≢ y.order_id) l) e (All-perm _ p h.0), Distinct-perm p h.1)
Distinct-perm (Permᴰ.swap {l = l} e f) h =
    let e' = ap (λ (o : TradeOrder). o.order_id) e in
    let f' = ap (λ (o : TradeOrder). o.order_id) f in
    (
      (λ p. h.0.0 (e' ∙ sym p ∙ sym f'), subst (λ x. All (λ y. x.order_id ≢ y.order_id) l) f h.1.0),
      (subst (λ x. All (λ y. x.order_id ≢ y.order_id) l) e h.0.1, h.1.1),
    )
Distinct-perm (Permᴰ.trans p q) h = Distinct-perm q (Distinct-perm p h)

-- The order is among the active ones, as it is, with an amount that is positive and fits an int32.
abbrev pub IsActive : Map ℤ TradeOrder → TradeType → TradeOrder → Type 0
IsActive active t o =
    (o.type ≡ t)
    × (find o.order_id active ≡ some o)
    × (pos 0 <ℤ o.usd_amount)
    × (o.usd_amount <ℤ pos (2 ^ 31))

positive-not_zero : (a : ℤ) → pos 0 <ℤ a → eqb_ℤ a (pos 0) ≡ false
positive-not_zero a h = ground arith

ltb_ℤ→lt : (a b : ℤ) → ltb_ℤ a b ≡ true → a <ℤ b
ltb_ℤ→lt a b h = ground arith

amount_bounds :
    (s o : TradeOrder)
    → pos 0 <ℤ s.usd_amount
    → pos 0 <ℤ o.usd_amount
    → (pos 0 ≤ℤ transaction_amount s o)
      × (transaction_amount s o ≤ℤ s.usd_amount)
      × (transaction_amount s o ≤ℤ o.usd_amount)
unfolding transaction_amount
amount_bounds s o hs ho = ground arith

-- What is left of an active order is between 0 and what it was.
reduce_bounds :
    (o : TradeOrder) (t : ℤ)
    → pos 0 ≤ℤ t
    → t ≤ℤ o.usd_amount
    → o.usd_amount <ℤ pos (2 ^ 31)
    → (reduce t o).usd_amount <ℤ pos (2 ^ 31)
unfolding reduce
reduce_bounds o t h k l = rw (to_int32-sub o.usd_amount t h k l) (omega int_laws)

module _ {cmp : TradeOrder → TradeOrder → Bool} (book : PriorityQueue cmp) where
  -- One book against its map.
  pub record Agrees (active : Map ℤ TradeOrder) (t : TradeType) (q : book.Queue) : Type 0 where
    pub all_active : All (IsActive active t) (book.contents q)
    pub distinct : Distinct (book.contents q)

  -- An order is put back.
  push-Agrees :
      (active : Map ℤ TradeOrder) (t : TradeType) (o : TradeOrder) (q : book.Queue)
      → IsActive active t o
      → All (λ y. o.order_id ≢ y.order_id) (book.contents q)
      → Agrees active t q
      → Agrees active t (book.push o q)
  push-Agrees active t o q h new a = record {
    all_active = All-push book (IsActive active t) o q h a.all_active;
    distinct = Distinct-perm (Permᴰ.symm (book.contents-push o q)) (new, a.distinct);
  }

  -- The best order is taken out, and its id is not among the rest.
  pop-Agrees :
      (active : Map ℤ TradeOrder) (t : TradeType) (q : book.Queue) (o : TradeOrder) (r : book.Queue)
      → book.pop q ≡ some (o, r)
      → Agrees active t q
      → IsActive active t o
        × All (λ y. o.order_id ≢ y.order_id) (book.contents r)
        × Agrees active t r
  pop-Agrees active t q o r e a =
      let (h, hs) = All-pop book (IsActive active t) q o r e a.all_active in
      let (new, rest) = Distinct-perm (book.pop_some q o r e) a.distinct in
      (h, new, record { all_active = hs; distinct = rest })

  module _ (active active' : Map ℤ TradeOrder) (t : TradeType) (o : TradeOrder) (amount : ℤ)
      (h : IsActive active t o) (low : pos 0 ≤ℤ amount) (high : amount ≤ℤ o.usd_amount)
      (changed : (id : ℤ) → find id active' ≡ after_match o (reduce amount o) active id) where
    rest-IsActive :
        (y : TradeOrder) → o.order_id ≢ y.order_id → IsActive active t y → IsActive active' t y
    rest-IsActive y ne a =
        (a.0, rw (changed y.order_id, ==_ne o.order_id y.order_id ne) a.1, a.2, a.3)

    reduced-IsActive : pos 0 <ℤ (reduce amount o).usd_amount → IsActive active' t (reduce amount o)
    unfolding reduce
    reduced-IsActive left = (
      h.0,
      rw
          (
            changed o.order_id,
            ==_self o.order_id,
            positive-not_zero (reduce amount o).usd_amount left,
          )
          refl,
      left,
      reduce_bounds o amount low high h.3,
    )

    reduced-new :
        (l : List TradeOrder)
        → All (λ y. o.order_id ≢ y.order_id) l
        → All (λ y. (reduce amount o).order_id ≢ y.order_id) l
    unfolding reduce
    reduced-new l new = new

    -- The order is reduced, in the book and in the map, and leaves both when nothing is left.
    settle-Agrees :
        (q : book.Queue)
        → All (λ y. o.order_id ≢ y.order_id) (book.contents q)
        → Agrees active t q
        → Agrees active' t (push_if_left book (reduce amount o) q)
    unfolding push_if_left
    settle-Agrees q new a =
        let rest : Agrees active' t q = record {
          all_active =
              All-map₂ _ _ (IsActive active' t) rest-IsActive (book.contents q) new a.all_active;
          distinct = a.distinct;
        } in
        elim (Bool-cases (ltb_ℤ (pos 0) (reduce amount o).usd_amount)) [
          | inl e ↦ rw e (
              push-Agrees active' t (reduce amount o) q
                (reduced-IsActive (ltb_ℤ→lt (pos 0) (reduce amount o).usd_amount e))
                (reduced-new (book.contents q) new) rest)
          | inr e ↦ rw e rest
        ]

module _ {p : Platform} {b : Books} where
  -- Both books agree with their maps.
  pub record IsConsistent (c : Core p b) : Type 0 where
    pub buys_agree : Agrees b.buys c.manager.active_buy_orders buy c.buy_orders_book
    pub sells_agree : Agrees b.sells c.manager.active_sell_orders sell c.sell_orders_book

  execute-IsConsistent :
      (c : Core p b) (o s : TradeOrder)
      → IsActive c.manager.active_buy_orders buy o
      → IsActive c.manager.active_sell_orders sell s
      → All (λ y. o.order_id ≢ y.order_id) (b.buys.contents c.buy_orders_book)
      → All (λ y. s.order_id ≢ y.order_id) (b.sells.contents c.sell_orders_book)
      → IsConsistent c
      → IsConsistent (execute o s c)
  unfolding execute match_orders
  execute-IsConsistent c o s ho hs new_o new_s k =
      let t = transaction_amount s o in
      let (low, high_s, high_o) = amount_bounds s o hs.2 ho.2 in
      record {
        buys_agree =
            settle-Agrees b.buys c.manager.active_buy_orders _ buy o t ho low high_o
              (match_active_buys s o c.manager ho.0 hs.0 ho.1 hs.1) c.buy_orders_book new_o
              k.buys_agree;
        sells_agree =
            settle-Agrees b.sells c.manager.active_sell_orders _ sell s t hs low high_s
              (match_active_sells s o c.manager ho.0 hs.0 ho.1 hs.1) c.sell_orders_book new_s
              k.sells_agree;
      }

  round-IsConsistent :
      (c : Core p b) → IsConsistent c → Keeps IsConsistent IsConsistent (process_round c)
  round-IsConsistent c k =
      process_round_cases (Keeps IsConsistent IsConsistent) c (λ _. k) (λ _. k)
        (λ o bs s ss e f _.
          let (ho, new_o, abs) = pop-Agrees b.buys _ buy c.buy_orders_book o bs e k.buys_agree in
          let (hs, new_s, ass) =
            pop-Agrees b.sells _ sell c.sell_orders_book s ss f k.sells_agree in
          execute-IsConsistent (taken c bs ss) o s ho hs new_o new_s
            (record { buys_agree = abs; sells_agree = ass }))
        (λ o bs s ss e f _.
          let (ho, new_o, abs) = pop-Agrees b.buys _ buy c.buy_orders_book o bs e k.buys_agree in
          let (hs, new_s, ass) =
            pop-Agrees b.sells _ sell c.sell_orders_book s ss f k.sells_agree in
          record {
            buys_agree = push-Agrees b.buys _ buy o bs ho new_o abs;
            sells_agree = push-Agrees b.sells _ sell s ss hs new_s ass;
          })

  -- If the books agree with the active orders - what a book holds is active with the same content, its
  -- ids are distinct and its amounts positive and below 2^31 - then process_orders ends, and the books
  -- still agree with the active orders.
  pub process_orders-IsConsistent :
      (c : Core p b)
      → IsConsistent c
      → (c' : Core p b) × (process_orders c ≡ some c') × IsConsistent c'
  process_orders-IsConsistent = process_orders_rule IsConsistent IsConsistent round-IsConsistent
