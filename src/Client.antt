-- ===== src/Client.antt =====
-- The client: client/client.cpp and client/user_interface.cpp.
pub mod Numbers
pub mod Terminal
pub mod Reading
pub mod Requests
pub mod Interface
pub mod Lines
pub mod Menus
pub mod Orders
pub mod OnStock
