-- ===== src/Queue.antt =====
-- What the core and the client data manager use of the two kinds of queue: std::priority_queue, by
-- its documented contract, and moodycamel::ConcurrentQueue, which is vendored.
mod Priority
pub mod Selection
mod Concurrent
pub use Priority.*
pub use Concurrent.*
unfoldable pub use Selection.{selection_queue}
