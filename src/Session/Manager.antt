-- ===== src/Session/Manager.antt =====
-- The list of sessions: server/session_manager.cpp, and close_this_session of
-- server/session_client_connection.cpp.
use stock_app.Common.{
  Bool, true, false, Option, none, some, String, List, [], ◌∷◌, ◌++◌, eqb, if◌then◌else◌, not,
}
use stock_app.Common.Equality.{username_key, ◌==◌}
use stock_app.Platform.{Platform}
use stock_app.Core.Loop.{Books}
use stock_app.ClientDataManager.Waiting.{notify_to_stop_matching_orders}
use stock_app.Session.State.{Session, Server}

unfoldable pub some_session_has : (Session → String) → List Session → String → Bool
some_session_has name [] username = false
some_session_has name (i ∷ rest) username =
    if name i == username then true else some_session_has name rest username

unfoldable pub first_session_of : (Session → String) → List Session → String → Option Session
first_session_of name [] username = none
first_session_of name (i ∷ rest) username =
    if name i == username then some i else first_session_of name rest username

-- `erase(find(…))`: the first one only.
unfoldable pub erase_session : Session → List Session → List Session
erase_session i [] = []
erase_session i (j ∷ rest) = if eqb j i then rest else j ∷ erase_session i rest

-- What the other threads do to the server while SessionManager::run sleeps, and the session objects for
-- the connections that have come in.
pub record Turn (p : Platform) (b : Books) : Type 0 where
  pub meanwhile : Server p b → Server p b
  pub fresh : List Session

module _ {p : Platform} {b : Books} where
  unfoldable pub is_user_logged_in : String → Server p b → Bool
  is_user_logged_in username s = some_session_has s.client_username s.clients_sessions username

  -- `none` is a null pointer.
  unfoldable pub get_session_by_username : String → Server p b → Option Session
  get_session_by_username username s =
      first_session_of s.client_username s.clients_sessions username

  unfoldable pub remove_session : Session → Server p b → Server p b
  remove_session i s = record s { clients_sessions = erase_session i s.clients_sessions }

  -- The socket is closed, whatever that returns, and the session leaves the list.
  unfoldable pub close_this_session : Session → Server p b → Server p b
  close_this_session i s = remove_session i (record s { closed = i ∷ s.closed })

  unfoldable pub allowed_to_create_new_connection : Server p b → Bool
  allowed_to_create_new_connection s = if s.stop_new_sessions then false else true

  -- The loop over the new connections, each with the session object that is made for it.
  unfoldable pub add_sessions : List Session → Server p b → Server p b
  add_sessions [] s = s
  add_sessions (i ∷ rest) s = add_sessions rest (record s {
    client_username = λ j. if eqb j i then "" else s.client_username j;
    clients_sessions = s.clients_sessions ++ i ∷ [];
  })

  unfoldable pub try_to_create_new_session_client_connection :
      List Session → Server p b → Server p b
  try_to_create_new_session_client_connection fresh s =
      if not (allowed_to_create_new_connection s) then s else add_sessions fresh s

  unfoldable pub close_sessions : List Session → Server p b → Server p b
  close_sessions [] s = s
  close_sessions (i ∷ rest) s = close_sessions rest (close_this_session i s)

  unfoldable pub stop_all_sessions : Server p b → Server p b
  stop_all_sessions s =
      let s' = close_sessions s.clients_sessions (record s { stop_new_sessions = true }) in
      record s' { clients_sessions = [] }

  unfoldable pub stop : Server p b → Server p b
  unfolding notify_to_stop_matching_orders
  stop s =
      stop_all_sessions
        (record s { is_running = false; waiter = notify_to_stop_matching_orders s.waiter })

  -- The turns of the loop of run. In each the thread sleeps, while the others do what they do, and takes
  -- the new connections that are there then. The result says whether the loop has ended.
  unfoldable pub run : List (Turn p b) → Server p b → Bool × Server p b
  run [] s = (false, s)
  run (turn ∷ turns) s =
      let rest =
        run turns (try_to_create_new_session_client_connection turn.fresh (turn.meanwhile s)) in
      if not s.is_running then (true, s) else rest
