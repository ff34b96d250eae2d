-- ===== src/Session/Identity.antt =====
-- Signing in: no user has two sessions, and the token that a session is given is accepted from it.
use stock_app.Common.{
  ◌≡◌, ◌≢◌, inl, inr, sym, Bool, true, false, String, List, [], ◌∷◌, arith, eqb, ◌∙◌, All, All-map,
  All-map₂, Bool-cases, if◌then◌else◌,
}
use stock_app.Common.Equality.{username_key, ◌==◌}
use stock_app.Proto
use stock_app.Proto.{TradeRequest, TradeResponse, CommandType, sign_in_request, jwt_data}
use stock_app.Platform.{Platform}
use stock_app.Auth.{Jwt, verify_token}
use stock_app.Core.Loop.{Books}
use stock_app.Session.State.{Session, Server, on_database, continue_with-rule}
use stock_app.Session.Manager.{
  some_session_has, erase_session, is_user_logged_in, remove_session, close_this_session,
}
use stock_app.Session.Commands.{
  handle_sign_up_command, sign_in_if, handle_sign_in_command, handle_make_order_command,
  handle_cancel_active_order_command, after_stamp,
}
use stock_app.Session.Handler.{
  needs_token, handle_received_command, run_command, check_token, reject_token,
}

-- The sessions of the list are different objects, and two of one name have none yet.
abbrev pub OneSessionEach : (Session → String) → List Session → Type 0
OneSessionEach name [] = Unit
OneSessionEach name (i ∷ rest) =
    All (λ j. (i ≢ j) × ((name i ≡ name j) → name i ≡ "")) rest × OneSessionEach name rest

-- The names after a sign-in.
abbrev renamed : Session → String → (Session → String) → Session → String
renamed self user name i = if eqb i self then user else name i

All-erase_session :
    (P : Session → Type 0) (i : Session) (l : List Session) → All P l → All P (erase_session i l)
unfolding erase_session
All-erase_session P i [] h = tt
All-erase_session P i (j ∷ l) h = elim (Bool-cases (eqb j i)) [
  | inl e ↦ rw e h.1
  | inr e ↦ rw e (h.0, All-erase_session P i l h.1)
]

pub erase_session-OneSessionEach :
    (name : Session → String) (i : Session) (l : List Session)
    → OneSessionEach name l
    → OneSessionEach name (erase_session i l)
unfolding erase_session
erase_session-OneSessionEach name i [] h = tt
erase_session-OneSessionEach name i (j ∷ l) h = elim (Bool-cases (eqb j i)) [
  | inl e ↦ rw e h.1
  | inr e ↦ rw e (All-erase_session _ i l h.0, erase_session-OneSessionEach name i l h.1)
]

-- What is taken out is not there any more.
pub erase_session-gone :
    (name : Session → String) (i : Session) (l : List Session)
    → OneSessionEach name l
    → All (λ j. j ≢ i) (erase_session i l)
unfolding erase_session
erase_session-gone name i [] h = tt
erase_session-gone name i (j ∷ l) h = elim (Bool-cases (eqb j i)) [
  | inl e ↦
      let same : j ≡ i = ground arith in
      rw e (All-map _ (λ k. k ≢ i) (λ k other q. other.0 (same ∙ sym q)) l h.0)
  | inr e ↦ rw e (λ q. ground (arith, q, e), erase_session-gone name i l h.1)
]

-- A name that no session of the list has.
not_there :
    (name : Session → String) (l : List Session) (user : String)
    → some_session_has name l user ≡ false
    → All (λ j. name j ≢ user) l
unfolding some_session_has
not_there name [] user h = tt
not_there name (i ∷ l) user h = elim (Bool-cases (name i == user)) [
  | inl e ↦ absurd (ground (arith, rw e at h))
  | inr e ↦ (
    λ same. ground (arith, (username_key.same_iff (name i) user).1 same),
    not_there name l user (rw e at h),
  )
]

renamed-pair :
    (name : Session → String) (self : Session) (user : String) (i j : Session)
    → name i ≢ user
    → name j ≢ user
    → i ≢ j
    → ((name i ≡ name j) → name i ≡ "")
    → (renamed self user name i ≡ renamed self user name j)
    → renamed self user name i ≡ ""
renamed-pair name self user i j hi hj ne h e = elim (Bool-cases (eqb i self)) [
  | inl ei ↦ elim (Bool-cases (eqb j self)) [
    | inl ej ↦ absurd (ground arith)
    | inr ej ↦ absurd (hj (sym (rw (ei, ej) at e)))
  ]
  | inr ei ↦ elim (Bool-cases (eqb j self)) [
    | inl ej ↦ absurd (hi (rw (ei, ej) at e))
    | inr ej ↦ rw ei (h (rw (ei, ej) at e))
  ]
]

renamed-OneSessionEach :
    (name : Session → String) (self : Session) (user : String) (l : List Session)
    → All (λ j. name j ≢ user) l
    → OneSessionEach name l
    → OneSessionEach (renamed self user name) l
renamed-OneSessionEach name self user [] fresh h = tt
renamed-OneSessionEach name self user (i ∷ l) fresh h = (
  All-map₂ _ _
      (λ j.
        (i ≢ j)
        × ((renamed self user name i ≡ renamed self user name j) → renamed self user name i ≡ ""))
      (λ j hj both. (both.0, renamed-pair name self user i j fresh.0 hj both.0 both.1)) l fresh.1
      h.0,
  renamed-OneSessionEach name self user l fresh.1 h.1,
)

module _ {p : Platform} {b : Books} where
  abbrev pub OneSessionEachIn : Server p b → Type 0
  OneSessionEachIn s = OneSessionEach s.client_username s.clients_sessions

  record SameSessions (s s' : Server p b) : Type 0 where
    same_list : s'.clients_sessions ≡ s.clients_sessions
    same_names : s'.client_username ≡ s.client_username

  sign_up-SameSessions :
      (request : TradeRequest) (s : Server p b)
      → SameSessions s (handle_sign_up_command request s).1
  unfolding handle_sign_up_command
  sign_up-SameSessions request s = record { same_list = ground arith; same_names = ground arith }

  make_order-SameSessions :
      (request : TradeRequest) (s : Server p b)
      → SameSessions s (handle_make_order_command request s).1
  unfolding handle_make_order_command after_stamp
  make_order-SameSessions request s = record { same_list = ground arith; same_names = ground arith }

  SameSessions-OneSessionEach :
      {s s' : Server p b} → SameSessions s s' → OneSessionEachIn s → OneSessionEachIn s'
  SameSessions-OneSessionEach same h = rw (same.same_list, same.same_names) h

  sign_in_if-OneSessionEach :
      (jwt : Jwt) (self : Session) (user : String) (response : TradeResponse) (right : Bool)
      (s : Server p b)
      → OneSessionEachIn s
      → OneSessionEachIn (sign_in_if jwt self user response right s).1
  unfolding sign_in_if is_user_logged_in
  sign_in_if-OneSessionEach jwt self user response false s h = h
  sign_in_if-OneSessionEach jwt self user response true s h =
      elim (Bool-cases (some_session_has s.client_username s.clients_sessions user)) [
        | inl e ↦ rw e h
        | inr e ↦ rw e (
            renamed-OneSessionEach s.client_username self user s.clients_sessions
              (not_there s.client_username s.clients_sessions user e) h)
      ]

  sign_in-OneSessionEach :
      (jwt : Jwt) (self : Session) (request : TradeRequest) (response : TradeResponse)
      (s : Server p b)
      → OneSessionEachIn s
      → OneSessionEachIn (handle_sign_in_command jwt self request response s).1
  unfolding handle_sign_in_command
  sign_in-OneSessionEach jwt self request response s h =
      let user = sign_in_request request.data_of in
      continue_with-rule OneSessionEachIn
        (on_database (p.database.authenticate_user user.username user.password) s) _ h
        (λ right k. sign_in_if-OneSessionEach jwt self user.username response right _ k)

  run_command-OneSessionEach :
      (jwt : Jwt) (self : Session) (c : CommandType) (request : TradeRequest)
      (response : TradeResponse) (s : Server p b)
      → OneSessionEachIn s
      → OneSessionEachIn (run_command jwt self c request response s).1
  unfolding run_command handle_cancel_active_order_command
  run_command-OneSessionEach jwt self Proto.sign_up request response s h =
      continue_with-rule OneSessionEachIn (handle_sign_up_command request s) _
        (SameSessions-OneSessionEach (sign_up-SameSessions request s) h) (λ _ k. k)
  run_command-OneSessionEach jwt self Proto.sign_in request response s h =
      continue_with-rule OneSessionEachIn (handle_sign_in_command jwt self request response s) _
        (sign_in-OneSessionEach jwt self request response s h) (λ _ k. k)
  run_command-OneSessionEach jwt self Proto.make_order request response s h =
      continue_with-rule OneSessionEachIn (handle_make_order_command request s) _
        (SameSessions-OneSessionEach (make_order-SameSessions request s) h) (λ _ k. k)
  run_command-OneSessionEach jwt self Proto.view_balance request response s h = h
  run_command-OneSessionEach jwt self Proto.view_all_active_orders request response s h = h
  run_command-OneSessionEach jwt self Proto.view_completed_trades request response s h = h
  run_command-OneSessionEach jwt self Proto.view_quote_history request response s h = h
  run_command-OneSessionEach jwt self Proto.cancel_active_order request response s h = h
  run_command-OneSessionEach jwt self (Proto.unknown_command n) request response s h = h

  check_token-OneSessionEach :
      (jwt : Jwt) (self : Session) (request : TradeRequest) (s : Server p b)
      → OneSessionEachIn s
      → OneSessionEachIn (check_token jwt self request s)
  unfolding check_token reject_token close_this_session remove_session
  check_token-OneSessionEach jwt self request s h =
      elim (Bool-cases (needs_token request.command)) [
        | inl e ↦
            elim (Bool-cases (verify_token jwt s.secret_key request.jwt (s.client_username self))) [
              | inl v ↦ rw (e, v) h
              | inr v ↦
                  rw (e, v)
                    (erase_session-OneSessionEach s.client_username self s.clients_sessions h)
            ]
        | inr e ↦ rw e h
      ]

  -- If the listed sessions are different objects and no two of them are signed in as one user, that is
  -- still so after any request on any session, whatever the database answers or throws.
  pub handle_received_command-OneSessionEach :
      (jwt : Jwt) (self : Session) (request : TradeRequest) (s : Server p b)
      → OneSessionEachIn s
      → OneSessionEachIn (handle_received_command jwt self request s).1
  unfolding handle_received_command
  handle_received_command-OneSessionEach jwt self request s h =
      run_command-OneSessionEach jwt self request.command request _ _
        (check_token-OneSessionEach jwt self request s h)
