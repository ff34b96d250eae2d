-- ===== src/Platform.antt =====
-- What the server runs on: the database behind `IDatabase`, the vendored concurrent queue, and the
-- system clock, whose n-th reading in milliseconds since 1970 is `clock n`.
use stock_app.Common.{ℕ}
use stock_app.Database.{IDatabase}
use stock_app.Queue.{ConcurrentQueue}

pub record Platform : Type 1 where
  pub database : IDatabase
  pub concurrent_queue : ConcurrentQueue
  pub clock : ℕ → ℕ
