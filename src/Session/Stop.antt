-- ===== src/Session/Stop.antt =====
-- Stopping the server.
use stock_app.Common.{◌≡◌, refl, true, false, List, [], ◌∷◌}
use stock_app.Platform.{Platform}
use stock_app.Core.Loop.{Books}
use stock_app.ClientDataManager.Waiting.{notify_to_stop_matching_orders}
use stock_app.Session.State.{Session, Server}
use stock_app.Session.Manager.{
  close_this_session, remove_session, close_sessions, stop_all_sessions, stop,
  allowed_to_create_new_connection, try_to_create_new_session_client_connection,
}

-- The sessions, the last first.
unfoldable pub reversed_onto : List Session → List Session → List Session
reversed_onto [] l = l
reversed_onto (i ∷ rest) l = reversed_onto rest (i ∷ l)

module _ {p : Platform} {b : Books} where
  close_sessions_lem :
      (l : List Session) (s : Server p b)
      → ((close_sessions l s).closed ≡ reversed_onto l s.closed)
        × ((close_sessions l s).stop_new_sessions ≡ s.stop_new_sessions)
        × ((close_sessions l s).is_running ≡ s.is_running)
        × ((close_sessions l s).core ≡ s.core)
  unfolding close_sessions close_this_session remove_session reversed_onto
  close_sessions_lem [] s = (refl, refl, refl, refl)
  close_sessions_lem (i ∷ rest) s = close_sessions_lem rest (close_this_session i s)

  -- After stop no session is listed, each that was has had its socket closed, in the order of the
  -- list, the server is not running, new connections no longer become sessions, and the books, the
  -- balances and the orders are untouched.
  pub stop_lem :
      (fresh : List Session) (s : Server p b)
      → let s' = stop s in
        (s'.clients_sessions ≡ [])
        × (s'.closed ≡ reversed_onto s.clients_sessions s.closed)
        × (s'.is_running ≡ false)
        × (try_to_create_new_session_client_connection fresh s' ≡ s')
        × (s'.core ≡ s.core)
  unfolding stop stop_all_sessions try_to_create_new_session_client_connection
      allowed_to_create_new_connection
  stop_lem fresh s =
      let (closed, stopped, running, core) = close_sessions_lem s.clients_sessions (record s {
        is_running = false;
        waiter = notify_to_stop_matching_orders s.waiter;
        stop_new_sessions = true;
      }) in
      (refl, closed, running, rw stopped refl, core)
