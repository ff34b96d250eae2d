-- ===== src/Session/Keeping/Runs.antt =====
-- The server as a whole keeps the books sound and every account.
use mathlib.Core.Path.{subst}
use mathlib.Core.Option.{some-injective}
use stock_app.Common.{◌≡◌, sym, ◌∙◌, ap, true, some, ◌∷◌, [], arith}
use stock_app.Common.Equality.{username_key}
use stock_app.Platform.{Platform}
use stock_app.Auth.{Jwt}
use stock_app.Core.Loop.{Books, Core}
use stock_app.Core.Passes.{Sound, SameClients}
use stock_app.Session.State.{Session, Server}
use stock_app.Session.Manager.{close_this_session, remove_session}
use stock_app.Core.Persistence.{stock_pass}
use stock_app.Core.Passes.{stock_pass-Sound}
use stock_app.Session.Manager.{
  try_to_create_new_session_client_connection, allowed_to_create_new_connection, add_sessions,
}
use stock_app.Session.Stop.{stop_lem}
use stock_app.Session.Runs.{
  Step, Reaches, requests, connects, disconnects, matches, stops, stays, goes,
}
use stock_app.Session.Keeping.{Fits, Kept, Kept-refl}
use stock_app.Session.Keeping.Requests.{answer-Kept}

second : {A B : Type 0} → A × B → B
second x = x.1

module _ {p : Platform} {b : Books} (jwt : Jwt) where
  -- What is asked of a step: its request fits, and the matching thread has not been told to stop.
  abbrev pub StepFits : {s t : Server p b} → Step jwt s t → Type 0
  StepFits (requests self request s) = Fits request.command request s
  StepFits (connects i s new) = Unit
  StepFits (disconnects self s) = Unit
  StepFits (matches running result c s e) = running ≡ true
  StepFits (stops s) = Unit

  abbrev pub RunFits : {s t : Server p b} → Reaches jwt s t → Type 0
  RunFits (stays s) = Unit
  RunFits (goes first rest) = StepFits first × RunFits rest

  pub connected_core :
      (i : Session) (s : Server p b)
      → (try_to_create_new_session_client_connection (i ∷ []) s).core ≡ s.core
  unfolding try_to_create_new_session_client_connection allowed_to_create_new_connection
      add_sessions
  connected_core i s = ground arith

  pub Step-Kept :
      {s t : Server p b} (step : Step jwt s t) → StepFits step → Sound s.core → Kept s.core t.core
  unfolding second close_this_session remove_session
  Step-Kept (requests self request s) fit h = answer-Kept jwt self request s fit h
  Step-Kept (connects i s new) fit h = rw (connected_core i s) (Kept-refl h)
  Step-Kept (disconnects self s) fit h = Kept-refl h
  Step-Kept (matches running result c s e) fit h =
      let (c', run, sound, same) = stock_pass-Sound s.core h in
      let e' : stock_pass true s.core ≡ some (result, c) = rw fit at e in
      subst (Kept s.core) (ap second (some-injective _ _ (sym run ∙ e'))) (sound, same)
  Step-Kept (stops s) fit h = let (_, _, _, _, same) = stop_lem [] s in rw same (Kept-refl h)

  Reaches-Kept :
      {s t : Server p b} (run : Reaches jwt s t) → RunFits run → Sound s.core → Kept s.core t.core
  Reaches-Kept (stays s) fit h = Kept-refl h
  Reaches-Kept (goes first rest) fit h =
      let (sound, same) = Step-Kept first fit.0 h in
      let (sound', same') = Reaches-Kept rest fit.1 sound in
      (sound', λ client k. same' client (same client k))

  -- Suppose that the orders of both sides, waiting and in the books, are active, with distinct ids and
  -- positive amounts that fit an int32, and of clients who have accounts. Whatever steps the server then takes, one after the other (requests
  -- on any sessions, each handled from its beginning to its end before the next step, new connections,
  -- closed sockets, passes of the matching thread and stops), as long as every new order has a positive
  -- amount that fits an int32, an id that is new to its side and an owner with an account, a name that
  -- is signed up has no account or is not new to the database, and the matching passes see a running
  -- server: the same is true of the orders in the state that is reached, no client has lost an account,
  -- and one more pass of the matching thread ends.
  pub Reaches-Sound :
      (s t : Server p b) (run : Reaches jwt s t)
      → RunFits run
      → Sound s.core
      → Sound t.core
        × SameClients s.core t.core
        × (c : Core p b) × (stock_pass true t.core ≡ some (some tt, c))
  Reaches-Sound s t run fit h =
      let (sound, same) = Reaches-Kept run fit h in
      let (c, ends, _, _) = stock_pass-Sound t.core sound in (sound, same, c, ends)
