-- ===== src/Core.antt =====
-- `Core` of server/core.cpp: the two order books and the matching engine. All of it runs under
-- core_mutex_, on the matching thread but for remove_order_by_id.
pub mod Order
pub mod Match
pub mod Loop
pub mod Termination
pub mod Rounds
pub mod Contents
pub mod Crossing
mod Comparators
pub mod Actives
pub mod Settlement
pub mod Removal
pub mod Intake
pub mod Persistence
pub mod Startup
pub mod Stopping
pub mod Queues
pub mod Passes
pub mod Race
pub mod CancelSound
pub mod PersistenceLaws
pub mod IntakeLaws
pub mod RemovalLaws
pub mod Cancel
pub mod Consistency
pub mod Conservation
