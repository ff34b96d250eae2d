-- ===== src/Core/Comparators.antt =====
-- The comparators of server/core.hpp on arbitrary costs.
use stock_app.Common.{ℕ, ◌*◌, ◌^◌, ◌≡◌, refl, true, false, arith}
use stock_app.Common.Int.{pos, ◌-ℤ◌}
use stock_app.Double.{near, ◌-ᵈ◌, rounded, excess, epsilon}
use stock_app.Proto.{TradeOrder, buy}
use stock_app.Queue.{IsStrictWeak}
use stock_app.Core.Order.{buy_order_comparator, sell_order_comparator}

-- At so many times 2^-23 RUB.
abbrev costing : ℕ → TradeOrder
costing steps = record {
  type = buy;
  usd_cost = pos (steps * 2 ^ 1051);
  usd_amount = pos 1;
  timestamp = pos 0;
  order_id = pos 0;
  usd_volume = pos 1;
  username = "";
}

true-false : true ≡ false → ⊥
true-false h = ground arith

-- On arbitrary orders neither comparator is a strict weak order, as std::priority_queue requires:
-- costs that are 5 / 2^23 apart are taken for equal, and costs that are 10 / 2^23 apart are not.
pub comparators_not-IsStrictWeak :
    (¬ IsStrictWeak buy_order_comparator (λ _. Unit))
    × (¬ IsStrictWeak sell_order_comparator (λ _. Unit))
unfolding buy_order_comparator sell_order_comparator ◌-ℤ◌ near ◌-ᵈ◌ rounded excess epsilon
comparators_not-IsStrictWeak = (
  λ sw. true-false (sw.neg_trans (costing 0) (costing 5) (costing 10) tt tt tt refl refl),
  λ sw. true-false (sw.neg_trans (costing 10) (costing 5) (costing 0) tt tt tt refl refl),
)
