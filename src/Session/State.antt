-- ===== src/Session/State.antt =====
-- The server as the sessions see it, and the form of their handlers.
use stock_app.Common.{ℕ, Bool, Option, none, some, String, List}
use stock_app.Proto.{TradeResponse}
use stock_app.Platform.{Platform}
use stock_app.ClientDataManager.State.{ClientDataManager}
use stock_app.ClientDataManager.Waiting.{Waiter}
use stock_app.Core.Loop.{Books, Core}

-- A session object is a number. It lives on after it has left clients_sessions_, for as long as an
-- operation on its socket holds it.
abbrev pub Session : Type 0
Session = ℕ

pub record Server (p : Platform) (b : Books) : Type 0 where
  -- the core, the client data manager and the database
  pub core : Core p b
  -- SessionManager
  pub clients_sessions : List Session
  pub stop_new_sessions : Bool
  pub is_running : Bool
  -- secret_key_ of the Auth
  pub secret_key : String
  -- username_ of each session object
  pub client_username : Session → String
  -- where the matching thread is with its wait
  pub waiter : Waiter
  -- how many ids have been generated
  pub ids : ℕ
  -- what was handed to a socket to be written, the last first, and the sockets that were closed
  pub written : List (Session × TradeResponse)
  pub closed : List Session

-- A member function that may throw.
abbrev pub Handler : Platform → Books → Type 0 → Type 0
Handler p b A = Server p b → Option A × Server p b

abbrev pub continue_with :
    {p : Platform} {b : Books} {A B : Type 0}
    → Option A × Server p b
    → (A → Handler p b B)
    → Option B × Server p b
continue_with (some a, s) g = g a s
continue_with (none, s) g = (none, s)

-- What holds after the call, and is kept by what follows, holds at the end.
pub continue_with-rule {ℓ} :
    {p : Platform} {b : Books} {A B : Type 0} (P : Server p b → Type ℓ) (r : Option A × Server p b)
    (g : A → Handler p b B)
    → P r.1
    → ((a : A) → P r.1 → P (g a r.1).1)
    → P (continue_with r g).1
continue_with-rule P (some a, s) g h k = k a h
continue_with-rule P (none, s) g h k = h

infixl 5 ◌>>=◌ ◌>>◌
abbrev pub ◌>>=◌ :
    {p : Platform} {b : Books} {A B : Type 0} → Handler p b A → (A → Handler p b B) → Handler p b B
◌>>=◌ f g s = continue_with (f s) g

abbrev pub ◌>>◌ :
    {p : Platform} {b : Books} {A B : Type 0} → Handler p b A → Handler p b B → Handler p b B
f >> g = f >>= λ _. g

module _ {p : Platform} {b : Books} where
  abbrev pub returning : {A : Type 0} → A → Handler p b A
  returning a s = (some a, s)

  -- The state with another client data manager.
  abbrev pub with_manager : ClientDataManager p → Server p b → Server p b
  with_manager m s = let c = s.core in record s { core = record c { manager = m } }

  -- A call of the client data manager, and one of the database.
  abbrev pub on_manager :
      {A : Type 0} → (ClientDataManager p → A × ClientDataManager p) → Handler p b A
  on_manager f s = let (a, m) = f s.core.manager in (some a, with_manager m s)

  abbrev pub on_database : {A : Type 0} → (p.database.Db → Option A × p.database.Db) → Handler p b A
  on_database f s =
      let m = s.core.manager in let (a, d) = f m.db in (a, with_manager (record m { db = d }) s)
