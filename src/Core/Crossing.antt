-- ===== src/Core/Crossing.antt =====
-- What process_orders leaves, when the comparators order the books: that is, when no two costs that
-- differ are taken for near. `costs` says which costs there are.
use mathlib.Core.Path.{subst}
use stock_app.Common.{
  ◌≡◌, sym, ◌∙◌, inl, inr, Bool-cases, Bool, true, false, some, arith, All, All-map, All-map₂,
  All-always, if◌then◌else◌,
}
use stock_app.Common.Int.{◌≤ℤ◌, ◌<ℤ◌, ltb_ℤ, eqb_ℤ, eqb_ℤ_iff}
use stock_app.Double.{Double, near, near_self}
use stock_app.Proto.{TradeOrder}
use stock_app.Platform.{Platform}
use stock_app.Queue.{PriorityQueue, IsStrictWeak}
use stock_app.ClientDataManager.ActiveOrders.{reduce}
use stock_app.Core.Order.{buy_order_comparator, sell_order_comparator, crosses}
use stock_app.Core.Match.{match_orders}
use stock_app.Core.Contents.{All-push, All-push_if_left, All-pop}
use stock_app.Core.Loop.{Books, Core, execute, process_round, process_orders}
use stock_app.Core.Rounds.{taken, process_round_cases, Keeps, process_orders_rule}

-- By cost, and by time among equal costs.
abbrev after_by : (Double → Double → Bool) → TradeOrder → TradeOrder → Bool
after_by worse a b =
    if eqb_ℤ a.usd_cost b.usd_cost
    then ltb_ℤ b.timestamp a.timestamp
    else worse a.usd_cost b.usd_cost

after_by-asym_lt : (a b : TradeOrder) → after_by ltb_ℤ a b ≡ true → after_by ltb_ℤ b a ≡ false
after_by-asym_lt a b h = ground arith

after_by-neg_trans_lt :
    (a b c : TradeOrder)
    → after_by ltb_ℤ a b ≡ false
    → after_by ltb_ℤ b c ≡ false
    → after_by ltb_ℤ a c ≡ false
after_by-neg_trans_lt a b c h k = ground arith

abbrev gtb_ℤ : Double → Double → Bool
gtb_ℤ x y = ltb_ℤ y x

after_by-asym_gt : (a b : TradeOrder) → after_by gtb_ℤ a b ≡ true → after_by gtb_ℤ b a ≡ false
after_by-asym_gt a b h = ground arith

after_by-neg_trans_gt :
    (a b c : TradeOrder)
    → after_by gtb_ℤ a b ≡ false
    → after_by gtb_ℤ b c ≡ false
    → after_by gtb_ℤ a c ≡ false
after_by-neg_trans_gt a b c h k = ground arith

misses : (o s : TradeOrder) → crosses o s ≡ false → o.usd_cost <ℤ s.usd_cost
unfolding crosses
misses o s h = elim (Bool-cases (eqb_ℤ o.usd_cost s.usd_cost)) [
  | inl e ↦
      let same = (eqb_ℤ_iff o.usd_cost s.usd_cost).0 e in
      let self : near o.usd_cost s.usd_cost ≡ true =
        subst (λ x. near o.usd_cost x ≡ true) same (near_self o.usd_cost) in
      absurd (ground arith)
  | inr e ↦ ground arith
]

-- The code takes only equal ones of the costs for near.
abbrev pub Apart : (Double → Type 0) → Type 0
Apart costs = (x y : Double) → costs x → costs y → near x y ≡ true → x ≡ y

abbrev pub HasCost : (Double → Type 0) → TradeOrder → Type 0
HasCost costs o = costs o.usd_cost

module _ {p : Platform} {b : Books} where
  pub record HasCosts (costs : Double → Type 0) (c : Core p b) : Type 0 where
    pub buys_have : All (HasCost costs) (b.buys.contents c.buy_orders_book)
    pub sells_have : All (HasCost costs) (b.sells.contents c.sell_orders_book)

  -- Every buyer bids less than every seller asks.
  abbrev pub Uncrossed : Core p b → Type 0
  Uncrossed c =
      All (λ o. All (λ s. o.usd_cost <ℤ s.usd_cost) (b.sells.contents c.sell_orders_book))
        (b.buys.contents c.buy_orders_book)

module _ (costs : Double → Type 0) (apart : Apart costs) where
  near-eq : (x y : Double) → costs x → costs y → near x y ≡ eqb_ℤ x y
  near-eq x y h k = elim (Bool-cases (near x y)) [
    | inl e ↦ e ∙ sym ((eqb_ℤ_iff x y).1 (apart x y h k e))
    | inr e ↦ elim (Bool-cases (eqb_ℤ x y)) [
      | inl f ↦
          let self : near x y ≡ true =
            subst (λ z. near x z ≡ true) ((eqb_ℤ_iff x y).0 f) (near_self x) in
          absurd (ground arith)
      | inr f ↦ e ∙ sym f
    ]
  ]

  buy_order_comparator-by_cost :
      (a b : TradeOrder)
      → (HasCost costs) a
      → (HasCost costs) b
      → buy_order_comparator a b ≡ after_by ltb_ℤ a b
  unfolding buy_order_comparator
  buy_order_comparator-by_cost a b ha hb = rw (near-eq a.usd_cost b.usd_cost ha hb)

  sell_order_comparator-by_cost :
      (a b : TradeOrder)
      → (HasCost costs) a
      → (HasCost costs) b
      → sell_order_comparator a b ≡ after_by (λ x y. ltb_ℤ y x) a b
  unfolding sell_order_comparator
  sell_order_comparator-by_cost a b ha hb = rw (near-eq a.usd_cost b.usd_cost ha hb)

  pub buy_order_comparator-IsStrictWeak : IsStrictWeak buy_order_comparator (HasCost costs)
  buy_order_comparator-IsStrictWeak = record {
    asym = λ a b ha hb e.
        rw (buy_order_comparator-by_cost b a hb ha)
          (after_by-asym_lt a b (rw (buy_order_comparator-by_cost a b ha hb) at e));
    neg_trans = λ a b c ha hb hc e f. rw (buy_order_comparator-by_cost a c ha hc) (
        after_by-neg_trans_lt a b c (rw (buy_order_comparator-by_cost a b ha hb) at e)
          (rw (buy_order_comparator-by_cost b c hb hc) at f));
  }

  pub sell_order_comparator-IsStrictWeak : IsStrictWeak sell_order_comparator (HasCost costs)
  sell_order_comparator-IsStrictWeak = record {
    asym = λ a b ha hb e.
        rw (sell_order_comparator-by_cost b a hb ha)
          (after_by-asym_gt a b (rw (sell_order_comparator-by_cost a b ha hb) at e));
    neg_trans = λ a b c ha hb hc e f. rw (sell_order_comparator-by_cost a c ha hc) (
        after_by-neg_trans_gt a b c (rw (sell_order_comparator-by_cost a b ha hb) at e)
          (rw (sell_order_comparator-by_cost b c hb hc) at f));
  }

  -- The best buyer bids the most, and the best seller asks the least.
  buy_best :
      (a b : TradeOrder)
      → buy_order_comparator a b ≡ false
      → (HasCost costs) a
      → (HasCost costs) b
      → b.usd_cost ≤ℤ a.usd_cost
  buy_best a b h ha hb =
      let e : after_by ltb_ℤ a b ≡ false = rw (buy_order_comparator-by_cost a b ha hb) at h in
      ground arith

  sell_best :
      (a b : TradeOrder)
      → sell_order_comparator a b ≡ false
      → (HasCost costs) a
      → (HasCost costs) b
      → a.usd_cost ≤ℤ b.usd_cost
  sell_best a b h ha hb =
      let e : after_by gtb_ℤ a b ≡ false = rw (sell_order_comparator-by_cost a b ha hb) at h in
      ground arith

  -- Nobody left in the book, or put back into it, bids more than the best buyer.
  buys_bounded :
      (buys : PriorityQueue buy_order_comparator) (q : buys.Queue) (o : TradeOrder)
      (bs : buys.Queue)
      → buys.pop q ≡ some (o, bs)
      → All (HasCost costs) (buys.contents q)
      → All (λ y. y.usd_cost ≤ℤ o.usd_cost) (buys.contents (buys.push o bs))
  buys_bounded buys q o bs e g =
      let (ho, hbs) = All-pop buys (HasCost costs) q o bs e g in
      All-push buys (λ y. y.usd_cost ≤ℤ o.usd_cost) o bs (omega arith)
        (All-map₂ _ _ (λ y. y.usd_cost ≤ℤ o.usd_cost) (λ y k hy. buy_best o y k ho hy) _
          (buys.pop_best (HasCost costs) q o bs buy_order_comparator-IsStrictWeak g e) hbs)

  sells_bounded :
      (sells : PriorityQueue sell_order_comparator) (q : sells.Queue) (s : TradeOrder)
      (ss : sells.Queue)
      → sells.pop q ≡ some (s, ss)
      → All (HasCost costs) (sells.contents q)
      → All (λ y. s.usd_cost ≤ℤ y.usd_cost) (sells.contents (sells.push s ss))
  sells_bounded sells q s ss e g =
      let (hs, hss) = All-pop sells (HasCost costs) q s ss e g in
      All-push sells (λ y. s.usd_cost ≤ℤ y.usd_cost) s ss (omega arith)
        (All-map₂ _ _ (λ y. s.usd_cost ≤ℤ y.usd_cost) (λ y k hy. sell_best s y k hs hy) _
          (sells.pop_best (HasCost costs) q s ss sell_order_comparator-IsStrictWeak g e) hss)

  module _ {p : Platform} {b : Books} where
    execute-HasCosts :
        (o s : TradeOrder) (c : Core p b)
        → (HasCost costs) o
        → (HasCost costs) s
        → (HasCosts costs) c
        → (HasCosts costs) (execute o s c)
    unfolding execute match_orders reduce
    execute-HasCosts o s c ho hs g = record {
      buys_have = All-push_if_left b.buys (HasCost costs) _ c.buy_orders_book ho g.buys_have;
      sells_have = All-push_if_left b.sells (HasCost costs) _ c.sell_orders_book hs g.sells_have;
    }

    push-HasCosts :
        (c : Core p b) (o : TradeOrder) (bs : b.buys.Queue) (s : TradeOrder) (ss : b.sells.Queue)
        → b.buys.pop c.buy_orders_book ≡ some (o, bs)
        → b.sells.pop c.sell_orders_book ≡ some (s, ss)
        → (HasCosts costs) c
        → (HasCosts costs) (taken c (b.buys.push o bs) (b.sells.push s ss))
    push-HasCosts c o bs s ss e f g =
        let (ho, hbs) = All-pop b.buys (HasCost costs) c.buy_orders_book o bs e g.buys_have in
        let (hs, hss) = All-pop b.sells (HasCost costs) c.sell_orders_book s ss f g.sells_have in
        record {
          buys_have = All-push b.buys (HasCost costs) o bs ho hbs;
          sells_have = All-push b.sells (HasCost costs) s ss hs hss;
        }

    abbrev Settled : Core p b → Type 0
    Settled c = (HasCosts costs) c × Uncrossed c

    round-Settled :
        (c : Core p b) → (HasCosts costs) c → Keeps (HasCosts costs) Settled (process_round c)
    round-Settled c g =
        process_round_cases (Keeps (HasCosts costs) Settled) c
          (λ e. (g, rw (b.buys.pop_none c.buy_orders_book e) tt))
          (λ e. (g, rw (b.sells.pop_none c.sell_orders_book e) (All-always _ (λ x. tt) _)))
          (λ o bs s ss e f _.
            let (ho, hbs) = All-pop b.buys (HasCost costs) c.buy_orders_book o bs e g.buys_have in
            let (hs, hss) =
              All-pop b.sells (HasCost costs) c.sell_orders_book s ss f g.sells_have in
            execute-HasCosts o s (taken c bs ss) ho hs
              (record { buys_have = hbs; sells_have = hss }))
          (λ o bs s ss e f miss. (
            push-HasCosts c o bs s ss e f g,
            All-map (λ y. y.usd_cost ≤ℤ o.usd_cost) _
                (λ y below.
                  All-map (λ z. s.usd_cost ≤ℤ z.usd_cost) (λ z. y.usd_cost <ℤ z.usd_cost)
                    (λ z above. omega (arith, misses o s miss)) _
                    (sells_bounded b.sells c.sell_orders_book s ss f g.sells_have))
                _ (buys_bounded b.buys c.buy_orders_book o bs e g.buys_have),
          ))

    -- If the code's test takes no two different costs of the orders for near, process_orders ends, and
    -- after it every buyer bids less than every seller asks.
    pub process_orders_uncrosses :
        (c : Core p b)
        → (HasCosts costs) c
        → (c' : Core p b) × (process_orders c ≡ some c') × Uncrossed c'
    process_orders_uncrosses c g =
        let (c', run, settled) = process_orders_rule (HasCosts costs) Settled round-Settled c g in
        (c', run, settled.1)
