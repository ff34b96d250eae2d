-- ===== src/Core/Rounds.antt =====
-- How to reason about the loop of process_orders: the ways in which a round ends, and the rule for
-- the whole loop.
use stock_app.Common.{
  ℕ, zero, suc, ◌<◌, ◌≡◌, refl, inl, inr, true, false, none, some, arith, length-perm, Option-cases,
  Bool-cases,
}
use stock_app.Proto.{TradeOrder}
use stock_app.Platform.{Platform}
use stock_app.Core.Order.{crosses}
use stock_app.Core.Loop.{
  Books, Core, Round, finished, continued, execute, process_round, process_rounds, process_orders,
  orders_left,
}
use stock_app.Core.Termination.{execute_left}

module _ {p : Platform} {b : Books} where
  -- The core while a round has both best orders in hand.
  abbrev pub taken : Core p b → b.buys.Queue → b.sells.Queue → Core p b
  taken c buys sells = record c { buy_orders_book = buys; sell_orders_book = sells }

  pub process_round_cases {ℓ} :
      (P : Round p b → Type ℓ) (c : Core p b)
      → (b.buys.pop c.buy_orders_book ≡ none → P (finished c))
      → (b.sells.pop c.sell_orders_book ≡ none → P (finished c))
      → ((buy_order : TradeOrder) (buys : b.buys.Queue) (sell_order : TradeOrder)
            (sells : b.sells.Queue)
          → b.buys.pop c.buy_orders_book ≡ some (buy_order, buys)
          → b.sells.pop c.sell_orders_book ≡ some (sell_order, sells)
          → crosses buy_order sell_order ≡ true
          → P (continued (execute buy_order sell_order (taken c buys sells))))
      → ((buy_order : TradeOrder) (buys : b.buys.Queue) (sell_order : TradeOrder)
            (sells : b.sells.Queue)
          → b.buys.pop c.buy_orders_book ≡ some (buy_order, buys)
          → b.sells.pop c.sell_orders_book ≡ some (sell_order, sells)
          → crosses buy_order sell_order ≡ false
          → P (finished (taken c (b.buys.push buy_order buys) (b.sells.push sell_order sells))))
      → P (process_round c)
  unfolding process_round
  process_round_cases P c no_buy no_sell meet miss =
      elim (Option-cases (b.buys.pop c.buy_orders_book)) [
        | inl e ↦ rw (e, process_round) (no_buy e)
        | inr (o, e) ↦ elim (Option-cases (b.sells.pop c.sell_orders_book)) [
          | inl f ↦ rw (e, f, process_round) (no_sell f)
          | inr (t, f) ↦ elim (Bool-cases (crosses o.0 t.0)) [
            | inl g ↦ rw (e, f, g, process_round) (meet o.0 o.1 t.0 t.1 e f g)
            | inr g ↦ rw (e, f, g, process_round) (miss o.0 o.1 t.0 t.1 e f g)
          ]
        ]
      ]

  -- A round that goes on leaves fewer orders in the books.
  abbrev Shrinks : ℕ → Round p b → Type 0
  Shrinks n (finished c) = Unit
  Shrinks n (continued c) = orders_left c < n

  process_round_less : (c : Core p b) → Shrinks (orders_left c) (process_round c)
  process_round_less c =
      process_round_cases (Shrinks (orders_left c)) c (λ _. tt) (λ _. tt)
        (λ o bs s ss e f g. omega (
          arith,
          length-perm (b.buys.pop_some c.buy_orders_book o bs e),
          length-perm (b.sells.pop_some c.sell_orders_book s ss f),
          execute_left o s (taken c bs ss),
        ))
        (λ o bs s ss e f g. tt)

  -- What a round must show of an invariant `I` of the loop, and of a goal `Q` at its end.
  abbrev pub Keeps {ℓ} : (Core p b → Type ℓ) → (Core p b → Type ℓ) → Round p b → Type ℓ
  Keeps I Q (finished c) = Q c
  Keeps I Q (continued c) = I c

  module _ {ℓ} (I : Core p b → Type ℓ) (Q : Core p b → Type ℓ)
      (keep : (c : Core p b) → I c → Keeps I Q (process_round c)) where
    process_rounds_rule :
        (fuel : ℕ) (c : Core p b)
        → orders_left c < fuel
        → I c
        → (c' : Core p b) × (process_rounds fuel c ≡ some c') × Q c'
    unfolding process_rounds
    process_rounds_rule zero c h i = elim h [ ]
    process_rounds_rule (suc fuel) c h i =
        next (process_round c) refl (process_round_less c) (keep c i)
          (λ d s. process_rounds_rule fuel d (omega arith))
      where
        next :
            (r : Round p b)
            → process_round c ≡ r
            → Shrinks (orders_left c) r
            → Keeps I Q r
            → ((d : Core p b)
                → orders_left d < orders_left c
                → I d
                → (c' : Core p b) × (process_rounds fuel d ≡ some c') × Q c')
            → (c' : Core p b) × (process_rounds (suc fuel) c ≡ some c') × Q c'
        next (finished d) e s k rest = (d, rw (e, process_rounds), k)
        next (continued d) e s k rest =
            let (c', run, q) = rest d s k in (c', rw (e, process_rounds) run, q)

    -- The loop ends, and at its end the goal holds.
    pub process_orders_rule :
        (c : Core p b) → I c → (c' : Core p b) × (process_orders c ≡ some c') × Q c'
    unfolding process_orders
    process_orders_rule c i = process_rounds_rule (suc (orders_left c)) c (omega arith) i
