-- ===== src/Session.antt =====
-- `SessionClientConnection` of server/session_client_connection.cpp, and what it uses of
-- `SessionManager` of server/session_manager.cpp: sessions, commands and responses.
pub mod State
pub mod Manager
pub mod Commands
pub mod Handler
pub mod Identity
pub mod Keeping
pub mod Runs
pub mod Wire
pub mod SignUp
pub mod Stop
pub mod Lookup
pub mod Ordering
pub mod Token
