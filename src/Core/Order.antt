-- ===== src/Core/Order.antt =====
-- The comparators of the two books (server/core.hpp) and the test by which two orders meet.
use stock_app.Common.{Bool, ◌||◌, if◌then◌else◌}
use stock_app.Common.Int.{ltb_ℤ}
use stock_app.Double.{near}
use stock_app.Proto.{TradeOrder}

-- BuyOrderComparator: `a` comes out after `b`.
unfoldable pub buy_order_comparator : TradeOrder → TradeOrder → Bool
buy_order_comparator a b =
    if near a.usd_cost b.usd_cost
    then ltb_ℤ b.timestamp a.timestamp
    else ltb_ℤ a.usd_cost b.usd_cost

-- SellOrderComparator
unfoldable pub sell_order_comparator : TradeOrder → TradeOrder → Bool
sell_order_comparator a b =
    if near a.usd_cost b.usd_cost
    then ltb_ℤ b.timestamp a.timestamp
    else ltb_ℤ b.usd_cost a.usd_cost

-- The condition under which process_orders matches the two best orders.
unfoldable pub crosses : TradeOrder → TradeOrder → Bool
crosses buy_order sell_order =
    ltb_ℤ sell_order.usd_cost buy_order.usd_cost || near buy_order.usd_cost sell_order.usd_cost
