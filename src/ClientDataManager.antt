-- ===== src/ClientDataManager.antt =====
-- `ClientDataManager` of server/client_data_manager.cpp: the balances, the active and completed
-- orders and the quotes that the server keeps in memory. Each operation runs under
-- client_data_mutex_, so one call is one step on the state.
pub mod State
pub mod Balances
pub mod ActiveOrders
pub mod OrderQueues
pub mod Conservation
pub mod Transfer
pub mod Listing
pub mod Views
pub mod Waiting
pub mod WaitingLaws
pub mod ViewLaws
pub mod Startup
