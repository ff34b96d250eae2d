-- ===== src/Postgres.antt =====
-- `Database` of server/database.cpp: the methods of IDatabase as SQL transactions on PostgreSQL.
pub mod Backend
pub mod Tables
pub mod Methods
pub mod Rollback
pub mod Users
pub mod ActiveOrders
pub mod Restart
pub mod Balances
pub mod History
pub mod Mirror
pub mod Refinement
pub mod SignUp
pub mod Accounts
pub mod Matching
pub mod Runs
