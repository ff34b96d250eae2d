-- ===== src/Postgres/History.antt =====
-- The completed orders and the quotes: what was saved last is loaded first.
use stock_app.Common.{List}
use stock_app.Common.Int.{pos}
use stock_app.Common.Equality.{username_key}
use stock_app.Proto.{TradeOrder}
use stock_app.Postgres.Backend.{Backend}
use stock_app.Postgres.Tables.{Postgres}

module _ (be : Backend) where
  -- A completed order as it is read: its amount is not stored.
  abbrev pub completed_now : TradeOrder → TradeOrder
  completed_now o = record o { usd_amount = pos 0; timestamp = be.read_millis o.timestamp }
