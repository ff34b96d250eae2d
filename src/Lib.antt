-- ===== src/Lib.antt =====
-- The stock exchange server of this repository (server/): clients place orders to buy and sell USD
-- for RUB, a matching thread trades them, and balances, orders and quotes are kept in memory and in a
-- database.
--
-- Common: lists over the native numbers, signed integers, machine words, maps, key equality.
-- Double: the `double` of costs and balances as IEEE 754 has it, with its rounding: a whole number of
--   units of 2^-1074. Infinities, NaN and the sign of zero are not modelled.
-- Proto: the messages of proto/trade_market_protocol.proto.
-- Config: config/config.cpp, with boost's ini reader as a parameter, and the logging level of
--   common/common.cpp.
-- Queue: the contracts of std::priority_queue and of the vendored moodycamel::ConcurrentQueue, both
--   parameters, and a priority queue that meets the first.
-- Database: IDatabase of server/database.hpp, an interface of calls that may throw.
-- Platform: the database, the concurrent queue and the clock that the server runs on, one parameter.
-- ClientDataManager: server/client_data_manager.cpp and server/order_queue.cpp. The state is the
--   record of the class's fields; a member function that returns a bool is a function from the state
--   to the bool and the new state, and a `try` block is a chain of calls that may throw. Waiting has
--   the wait on the condition variable, event by event.
-- Core: server/core.cpp and server/core.hpp. Order has the comparators, Match match_orders, Loop
--   process_orders, Intake complement_order_books, Persistence the saving and loading of the books
--   and a pass of stock_loop, Stopping stock_loop, Startup init_core and init_client_data_manager of
--   server/session_manager.cpp and the start of server/server.cpp, Removal remove_order_by_id and
--   cancel_active_order of server/client_data_manager.cpp; the other modules prove.
-- TimeOrderUtils: server/time_order_utils.cpp. Auth: server/auth.cpp, over jwt-cpp as a parameter.
-- Session: the commands of server/session_client_connection.cpp (Commands, Handler) and the list of
--   sessions of server/session_manager.cpp (Manager). A session object is a number, and the state has
--   the core, the list of sessions, the name of each session and what was written and closed. A
--   handler may throw; the exception then leaves handle_received_command. Wire has the
--   bytes of the messages on a socket, Runs the steps of the whole server in any order, and Keeping
--   what they keep.
-- Locks: the mutexes of server/, which operation locks which and inside which, and threads that run
--   the operations. The calls that leave a function early by an exception are in Operations.
-- Boot: server/main.cpp and the constructor of server/server.cpp, until the process listens.
-- Postgres: `Database` of server/database.cpp. Backend has what is not in the repository, PostgreSQL
--   through libpqxx and bcrypt, as a parameter with laws; Tables has the rows and a transaction, Methods
--   the methods of the class. The other
--   modules are about its tables and about the server on it: Matching and Runs about its steps.
-- Client: client/client.cpp and client/user_interface.cpp. Numbers has std::stoi, std::stoll and the
--   loops that read the standard input, Terminal the state, with the stock behind the socket and
--   std::stod as parameters, Requests the class Client, Interface the class UserInterface. OnStock puts
--   a session of the server at the other end of the socket.
-- Tests: the cases of tests/core_test.cpp, a client's dialogue with a server on PostgreSQL, and the
--   theorems at concrete books.
--
-- The server's threads meet at mutexes. In the steps of the whole server (Session.Runs) a request is
-- handled from its beginning to its end: the lock-free push and the later locked insert of make_order
-- are together one step, and so are the three locked parts of cancel_active_order. What can come
-- between is looked at apart: Core.Race has a match between the two parts of make_order,
-- ClientDataManager.Waiting the notifications, Locks the mutexes. Log lines are left out. An
-- unordered_map is an association list, so nothing depends on its order. A commit that throws may
-- have been applied or not; Backend says which.
--
-- The loops of process_orders and complement_order_books run on fuel: one round more than there are
-- orders. Every round of the first that goes on takes an order out for good, and every round of the
-- second takes one out of a queue, so this is enough, and the theorems say that the loops end. The
-- loops of the client's menus run on one round more than the input has lines.
--
-- Not modelled: the sockets themselves, the joining of the threads, the client's main, log lines, the
-- text that the client prints, the generated protocol code and the vendored queue.
pub mod Common
pub mod Double
pub mod Proto
pub mod Config
pub mod Queue
pub mod Database
pub mod Platform
pub mod ClientDataManager
pub mod Core
pub mod TimeOrderUtils
pub mod Auth
pub mod Session
pub mod Boot
pub mod Locks
pub mod Postgres
pub mod Client
pub mod Tests
