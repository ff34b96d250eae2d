-- ===== src/Postgres/Users.antt =====
-- Users: who is added can sign in with that password, and is not added again.
use mathlib.Core.Path.{subst}
use stock_app.Common.{
  ◌≡◌, ◌≢◌, refl, true, false, none, some, String, List, [], ◌∷◌, ◌++◌, arith, Bool-cases,
  Option-cases, inl, inr, if◌then◌else◌,
}
use stock_app.Common.Int.{pos}
use stock_app.Common.Equality.{username_key, ◌==◌, ==_self, ==_ne}
use stock_app.Postgres.Backend.{Backend}
use stock_app.Postgres.Tables.{UserRow, Postgres}
use stock_app.Postgres.Methods.{password_of, has_user, is_user_exists, add_user, authenticate_user}

-- The last row counts for a user who has none before it, and for nobody else.
password_of-append :
    (username other password : String) (rows : List UserRow)
    → password_of other (rows ++ (record { username = username; password = password }) ∷ [])
      ≡ elim (password_of other rows) [
        | none ↦ if username == other then some password else none
        | some found ↦ some found
      ]
unfolding password_of
password_of-append username other password [] = ground arith
password_of-append username other password (row ∷ rows) =
    elim (Bool-cases (row.username == other)) [
      | inl e ↦ rw e refl
      | inr e ↦ rw e (password_of-append username other password rows)
    ]

module _ (be : Backend) where
  -- What an add_user that went through has found and left.
  pub record Added (username password : String) (d d' : Postgres) : Type 0 where
    pub was_unknown : password_of username d.tables.users ≡ none
    pub users_now :
        d'.tables.users
        ≡ d.tables.users
          ++ (record { username = username; password = be.generate_hash d.transactions password })
            ∷ []
    pub balances_now :
        d'.tables.clients_balances
        ≡ d.tables.clients_balances
          ++ (record {
            username = username;
            funds = record { usd_balance = pos 0; rub_balance = pos 0 };
          })
            ∷ []

  pub add_user-Added :
      (username password : String) (d : Postgres)
      → (add_user be username password d).0 ≡ some tt
      → Added username password d (add_user be username password d).1
  unfolding add_user has_user
  add_user-Added username password d h = record {
    was_unknown = ground arith;
    users_now = ground arith;
    balances_now = ground arith;
  }

  -- The user's first row after that, and another's.
  pub Added-password :
      (username password other : String) (d d' : Postgres)
      → Added username password d d'
      → password_of other d'.tables.users ≡ (
          if username == other
          then some (be.generate_hash d.transactions password)
          else password_of other d.tables.users)
  Added-password username password other d d' a = elim (Bool-cases (username == other)) [
    | inl e ↦
        let none_there : password_of other d.tables.users ≡ none =
          subst (λ u. password_of u d.tables.users ≡ none)
            ((username_key.same_iff username other).0 e) a.was_unknown in
        rw
          (
            a.users_now,
            password_of-append username other (be.generate_hash d.transactions password)
                d.tables.users,
            none_there,
            e,
          )
          refl
    | inr e ↦
        let rows = d.tables.users in
        let append =
          password_of-append username other (be.generate_hash d.transactions password) rows in
        elim (Option-cases (password_of other rows)) [
          | inl f ↦ rw (a.users_now, append, f, e) refl
          | inr (x, f) ↦ rw (a.users_now, append, f) (rw e refl)
        ]
  ]

  again_refused :
      (username again : String) (d : Postgres) {hashed : String}
      → password_of username d.tables.users ≡ some hashed
      → (add_user be username again d).0 ≡ none
  unfolding add_user has_user
  again_refused username again d e = ground arith

  -- When add_user has gone through and the connection holds, the user exists and is authenticated with
  -- the password, cannot be added a second time with any password, and every other user exists or not
  -- and is authenticated or not as before.
  pub add_user-authenticate_user :
      (username password again other given : String) (d : Postgres)
      → username ≢ other
      → let d' = (add_user be username password d).1 in
        (add_user be username password d).0 ≡ some tt
        → be.goes_through d'.transactions ≡ true
        → ((is_user_exists be username d').0 ≡ some true)
          × ((authenticate_user be username password d').0 ≡ some true)
          × ((add_user be username again d').0 ≡ none)
          × (has_user other d'.tables.users ≡ has_user other d.tables.users)
          × ((authenticate_user be other given d').0
              ≡ some (elim (password_of other d.tables.users) [
                | none ↦ false
                | some hashed ↦ be.validate_password given hashed
              ]))
  unfolding is_user_exists authenticate_user has_user
  add_user-authenticate_user username password again other given d ne done holds =
      let d' = (add_user be username password d).1 in
      let a = add_user-Added username password d done in
      let known : password_of username d'.tables.users
          ≡ some (be.generate_hash d.transactions password) =
        rw (Added-password username password username d d' a, ==_self username) refl in
      let same : password_of other d'.tables.users ≡ password_of other d.tables.users =
        rw (Added-password username password other d d' a, ==_ne username other ne) refl in
      (
        rw (holds, has_user, known) refl,
        rw (holds, known, be.validate-generate d.transactions password) refl,
        again_refused username again d' known,
        rw (has_user, same) refl,
        rw (holds, same) refl,
      )
