-- ===== src/Auth.antt =====
-- server/auth.cpp over jwt-cpp, which is third-party.
use stock_app.Common.{◌≡◌, ◌↔◌, Bool, true, false, String, Option, none, some}
use stock_app.Common.Equality.{username_key, ◌==◌}

-- What Auth calls of jwt-cpp, with HS256. `none` and false are exceptions. The laws are the
-- library's documented round trip: a signed token decodes, passes the verification with the same
-- key, and has the subject that was set.
pub record Jwt : Type 1 where
  pub Token : Type 0
  pub sign : String → String → String
  pub decode : String → Option Token
  pub verify : String → Token → Bool
  pub get_subject : Token → Option String
  pub sign_lem :
      (secret_key subject : String)
      → (token : Token) × (decode (sign secret_key subject) ≡ some token)
        × (verify secret_key token ≡ true)
        × (get_subject token ≡ some subject)

module _ (jwt : Jwt) where
  unfoldable pub generate_token : String → String → String
  generate_token secret_key username = jwt.sign secret_key username

  unfoldable pub verify_token : String → String → String → Bool
  verify_token secret_key token username = elim (jwt.decode token) [
    | none ↦ false
    | some decoded ↦ elim (jwt.verify secret_key decoded) [
      | false ↦ false
      | true ↦ elim (jwt.get_subject decoded) [ none ↦ false | some subject ↦ username == subject ]
    ]
  ]

  -- A generated token verifies for the user that it was made for, and for no other.
  pub verify_token-generate_token :
      (secret_key username other : String)
      → (verify_token secret_key (generate_token secret_key username) other ≡ true)
        ↔ (other ≡ username)
  unfolding verify_token generate_token
  verify_token-generate_token secret_key username other =
      let (token, decoded, verified, subject) = jwt.sign_lem secret_key username in
      rw (verify_token, decoded, verified, subject) (username_key.same_iff other username)
