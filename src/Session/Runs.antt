-- ===== src/Session/Runs.antt =====
-- The server as a whole: requests on its sessions, connections, closed sockets, passes of the matching
-- thread and the stop, in any order, each from its beginning to its end. That a pass of the matching
-- thread may fall between two parts of make_order is left out here: Core.Race is about it.
use stock_app.Common.{
  ℕ, ◌≡◌, ◌≢◌, refl, sym, ◌∙◌, Bool, true, false, Option, some, String, List, [], ◌∷◌, ◌++◌, arith,
  eqb, All, All-map₂, Bool-cases, inl, inr, if◌then◌else◌,
}
use stock_app.Proto.{TradeRequest}
use stock_app.Database.{Void}
use stock_app.Platform.{Platform}
use stock_app.Auth.{Jwt}
use stock_app.Core.Loop.{Books, Core}
use stock_app.Core.Persistence.{stock_pass}
use stock_app.Session.State.{Session, Server, continue_with-rule}
use stock_app.Session.Manager.{
  close_this_session, remove_session, add_sessions, try_to_create_new_session_client_connection,
  allowed_to_create_new_connection, stop, stop_all_sessions,
}
use stock_app.Session.Handler.{answer, handle_received_command}
use stock_app.Session.Identity.{
  OneSessionEach, OneSessionEachIn, handle_received_command-OneSessionEach,
  erase_session-OneSessionEach,
}

All-append_one {ℓ κ} :
    {A : Type ℓ} (P : A → Type κ) (xs : List A) (x : A) → All P xs → P x → All P (xs ++ x ∷ [])
All-append_one P [] x h k = (k, tt)
All-append_one P (y ∷ xs) x h k = (h.0, All-append_one P xs x h.1 k)

other_eqb : (i j : ℕ) → i ≢ j → eqb i j ≡ false
other_eqb i j h = ground arith

same_eqb : (i : ℕ) → eqb i i ≡ true
same_eqb i = ground arith

-- The names after an object has been made for a connection.
abbrev unnamed : Session → (Session → String) → Session → String
unnamed i name j = if eqb j i then "" else name j

-- An object that is new and has no name yet.
appended-OneSessionEach :
    (name : Session → String) (i : Session) (l : List Session)
    → All (λ j. j ≢ i) l
    → OneSessionEach name l
    → OneSessionEach (unnamed i name) (l ++ i ∷ [])
appended-OneSessionEach name i [] new h = (tt, tt)
appended-OneSessionEach name i (k ∷ l) new h =
    let own : unnamed i name k ≡ name k = rw (other_eqb k i new.0) refl in
    (
      All-append_one _ l i
          (All-map₂ _ _
            (λ j. (k ≢ j) × ((unnamed i name k ≡ unnamed i name j) → unnamed i name k ≡ ""))
            (λ j ne both. (both.0, λ e. rw own (both.1 (sym own ∙ e ∙ rw (other_eqb j i ne) refl))))
            l new.1 h.0)
          (new.0, λ e. e ∙ rw (same_eqb i) refl),
      appended-OneSessionEach name i l new.1 h.1,
    )

module _ {p : Platform} {b : Books} (jwt : Jwt) where
  -- A step of the server. A new connection gets an object that is not listed.
  pub data Step : Server p b → Server p b → Type 0 where
    requests :
        (self : Session) (request : TradeRequest) (s : Server p b)
        → Step s (answer jwt self request s).1
    connects :
        (i : Session) (s : Server p b)
        → All (λ j. j ≢ i) s.clients_sessions
        → Step s (try_to_create_new_session_client_connection (i ∷ []) s)
    disconnects : (self : Session) (s : Server p b) → Step s (close_this_session self s)
    matches :
        (running : Bool) (done : Option Void) (c : Core p b) (s : Server p b)
        → stock_pass running s.core ≡ some (done, c)
        → Step s (record s { core = c })
    stops : (s : Server p b) → Step s (stop s)

  pub data Reaches : Server p b → Server p b → Type 0 where
    stays : (s : Server p b) → Reaches s s
    goes : {s t u : Server p b} → Step s t → Reaches t u → Reaches s u

  Step-OneSessionEach : {s t : Server p b} → Step s t → OneSessionEachIn s → OneSessionEachIn t
  unfolding answer try_to_create_new_session_client_connection allowed_to_create_new_connection
      add_sessions close_this_session remove_session stop stop_all_sessions
  Step-OneSessionEach (requests self request s) h =
      continue_with-rule OneSessionEachIn (handle_received_command jwt self request s) _
        (handle_received_command-OneSessionEach jwt self request s h) (λ _ k. k)
  Step-OneSessionEach (connects i s new) h = elim (Bool-cases s.stop_new_sessions) [
    | inl e ↦ rw e h
    | inr e ↦ rw e (appended-OneSessionEach s.client_username i s.clients_sessions new h)
  ]
  Step-OneSessionEach (disconnects self s) h =
      erase_session-OneSessionEach s.client_username self s.clients_sessions h
  Step-OneSessionEach (matches running _ c s e) h = h
  Step-OneSessionEach (stops s) h = tt

  -- If the listed sessions are different objects and no two of them are signed in as one user, that is
  -- so in every state that the server can reach, by requests on any sessions, new connections, closed
  -- sockets, passes of the matching thread and stops in any order, whatever the database answers.
  pub Reaches-OneSessionEach :
      (s t : Server p b) → Reaches s t → OneSessionEachIn s → OneSessionEachIn t
  Reaches-OneSessionEach s t (stays _) h = h
  Reaches-OneSessionEach s t (goes first rest) h =
      Reaches-OneSessionEach _ t rest (Step-OneSessionEach first h)
