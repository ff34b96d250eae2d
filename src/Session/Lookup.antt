-- ===== src/Session/Lookup.antt =====
-- get_session_by_username finds the session of a user, and run ends after a stop.
use mathlib.Core.Path.{subst}
use mathlib.Core.Option.{some-injective}
use stock_app.Common.{
  ◌≡◌, ◌≢◌, ◌↔◌, ◌⊎◌, inl, inr, refl, sym, ap, ◌∙◌, true, false, none, some, String, List, [], ◌∷◌,
  arith, All, Bool-cases,
}
use stock_app.Common.Equality.{username_key, ◌==◌}
use stock_app.Platform.{Platform}
use stock_app.Core.Loop.{Books}
use stock_app.Session.State.{Session, Server}
use stock_app.Session.Manager.{
  some_session_has, first_session_of, is_user_logged_in, get_session_by_username, Turn, run, stop,
  try_to_create_new_session_client_connection,
}
use stock_app.Session.Identity.{OneSessionEach, OneSessionEachIn}
use stock_app.Session.Stop.{stop_lem}

-- The session is in the list.
abbrev pub Listed : Session → List Session → Type 0
Listed i [] = ⊥
Listed i (j ∷ l) = (j ≡ i) ⊎ Listed i l

All-Listed : (P : Session → Type 0) (i : Session) (l : List Session) → All P l → Listed i l → P i
All-Listed P i [] h k = elim k [ ]
All-Listed P i (j ∷ l) h (inl e) = subst P e h.0
All-Listed P i (j ∷ l) h (inr k) = All-Listed P i l h.1 k

first_found :
    (name : Session → String) (l : List Session) (user : String) (i : Session)
    → first_session_of name l user ≡ some i
    → Listed i l × (name i ≡ user)
unfolding first_session_of
first_found name [] user i h = cc
first_found name (j ∷ l) user i h = elim (Bool-cases (name j == user)) [
  | inl e ↦
      let here : j ≡ i = some-injective _ _ (rw e at h) in
      (inl here, subst (λ k. name k ≡ user) here ((username_key.same_iff (name j) user).0 e))
  | inr e ↦ let (there, same) = first_found name l user i (rw e at h) in (inr there, same)
]

-- Two sessions of one name would have none.
found_first :
    (name : Session → String) (l : List Session) (user : String) (i : Session)
    → OneSessionEach name l
    → user ≢ ""
    → Listed i l
    → name i ≡ user
    → first_session_of name l user ≡ some i
unfolding first_session_of
found_first name [] user i h someone k same = elim k [ ]
found_first name (j ∷ l) user i h someone (inl e) same =
    let here : name j ≡ user = subst (λ k. name k ≡ user) (sym e) same in
    rw (first_session_of, (username_key.same_iff (name j) user).1 here) (ap some e)
found_first name (j ∷ l) user i h someone (inr k) same = elim (Bool-cases (name j == user)) [
  | inl e ↦
      let here = (username_key.same_iff (name j) user).0 e in
      let both = All-Listed _ i l h.0 k in absurd (someone (sym here ∙ both.1 (here ∙ sym same)))
  | inr e ↦ rw (first_session_of, e) (found_first name l user i h.1 someone k same)
]

nobody_found :
    (name : Session → String) (l : List Session) (user : String)
    → (some_session_has name l user ≡ false) ↔ (first_session_of name l user ≡ none)
unfolding some_session_has first_session_of
nobody_found name [] user = (λ _. refl, λ _. refl)
nobody_found name (j ∷ l) user = elim (Bool-cases (name j == user)) [
  | inl e ↦ (λ h. absurd (ground arith), λ h. absurd (ground arith))
  | inr e ↦
      let (there, back) = nobody_found name l user in
      (
        λ h. rw (first_session_of, e) (there (rw e at h)),
        λ h. rw (some_session_has, e) (back (rw e at h)),
      )
]

module _ {p : Platform} {b : Books} where
  -- If the listed sessions are different objects, no two of them are signed in as one user, and the
  -- name is not empty, get_session_by_username returns exactly the listed session that is signed in as the user, and a
  -- null pointer exactly if is_user_logged_in says that there is none.
  pub get_session_by_username_iff :
      (user : String) (s : Server p b)
      → OneSessionEachIn s
      → user ≢ ""
      → ((i : Session)
          → (get_session_by_username user s ≡ some i)
            ↔ (Listed i s.clients_sessions × (s.client_username i ≡ user)))
        × ((get_session_by_username user s ≡ none) ↔ (is_user_logged_in user s ≡ false))
  unfolding get_session_by_username is_user_logged_in
  get_session_by_username_iff user s h someone =
      let name = s.client_username in
      let l = s.clients_sessions in
      let (there, back) = nobody_found name l user in
      (
        λ i. (first_found name l user i, λ k. found_first name l user i h someone k.0 k.1),
        (back, there),
      )

  turn_taken :
      (turn : Turn p b) (turns : List (Turn p b)) (s : Server p b)
      → s.is_running ≡ true
      → run (turn ∷ turns) s
        ≡ run turns (try_to_create_new_session_client_connection turn.fresh (turn.meanwhile s))
  unfolding run
  turn_taken turn turns s h = ground arith

  turn_refused :
      (turn : Turn p b) (turns : List (Turn p b)) (s : Server p b)
      → s.is_running ≡ false
      → run (turn ∷ turns) s ≡ (true, s)
  unfolding run
  turn_refused turn turns s h = ground arith

  -- When the server is stopped while SessionManager::run sleeps, the loop ends at its next test, and
  -- the server is as the stop has left it, whatever connections have come in: no session is listed.
  pub run_lem :
      (before : Server p b → Server p b) (fresh : List Session) (next : Turn p b)
      (turns : List (Turn p b)) (s : Server p b)
      → s.is_running ≡ true
      → let stopping : Turn p b = record { meanwhile = λ t. stop (before t); fresh = fresh } in
        (run (stopping ∷ next ∷ turns) s ≡ (true, stop (before s)))
        × ((stop (before s)).clients_sessions ≡ [])
  run_lem before fresh next turns s running =
      let (none_listed, _, ended, closed, _) = stop_lem fresh (before s) in
      (
        turn_taken (record { meanwhile = λ t. stop (before t); fresh = fresh }) (next ∷ turns) s
              running
            ∙ ap (run (next ∷ turns)) closed
            ∙ turn_refused next turns (stop (before s)) ended,
        none_listed,
      )
