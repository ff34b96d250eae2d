-- ===== src/Config.antt =====
-- The configuration: `Config` and read_config of config/config.hpp and config/config.cpp, and
-- set_logging_level of common/common.cpp. The reader of ini files is boost::property_tree, a
-- parameter: a call of it returns a value or throws.
use mathlib.Core.Path.{subst}
use mathlib.Core.Option.{some-injective}
use stock_app.Common.{refl, ap, arith, ℕ, Option, none, some, String, ◌^◌, ◌≡◌, if◌then◌else◌}
use stock_app.Common.Int.{ℤ, pos, negsuc, ◌≤ℤ◌, ◌<ℤ◌}
use stock_app.Common.Equality.{username_key, ◌==◌}
use stock_app.Common.Word.{residue16}

pub record PropertyTree : Type 1 where
  pub Tree : Type 0
  pub read_ini : String → Option Tree
  pub get_string : String → Tree → Option String
  pub get_short : String → Tree → Option ℤ
  pub get_short_fits :
      (path : String) (pt : Tree) (x : ℤ)
      → get_short path pt ≡ some x
      → (negsuc 32767 ≤ℤ x) × (x <ℤ pos (2 ^ 15))

pub record Config : Type 0 where
  pub host : String
  pub port : ℤ
  pub log_level : String
  pub dbname : String
  pub dbuser : String
  pub dbpassword : String
  pub dbhost : String
  pub dbport : ℤ
  pub jwt_secret_key : String

infixl 5 ◌>>=◌
abbrev ◌>>=◌ : {A B : Type 0} → Option A → (A → Option B) → Option B
none >>= f = none
some a >>= f = f a

-- `none` is an exception.
unfoldable pub read_config : (boost : PropertyTree) → String → Option Config
read_config boost filename = do
  pt ← boost.read_ini filename
  host ← boost.get_string "server.host" pt
  port ← boost.get_short "server.port" pt
  log_level ← boost.get_string "server.log_level" pt
  dbname ← boost.get_string "database.dbname" pt
  dbuser ← boost.get_string "database.user" pt
  dbpassword ← boost.get_string "database.password" pt
  dbhost ← boost.get_string "database.host" pt
  dbport ← boost.get_short "database.port" pt
  jwt_secret_key ← boost.get_string "jwt.secret_key" pt
  some (record {
    host = host;
    port = port;
    log_level = log_level;
    dbname = dbname;
    dbuser = dbuser;
    dbpassword = dbpassword;
    dbhost = dbhost;
    dbport = dbport;
    jwt_secret_key = jwt_secret_key;
  })

-- spdlog::level::level_enum
pub data LevelEnum : Type 0 where
  debug info warn err critical : LevelEnum

unfoldable pub set_logging_level : Config → LevelEnum
set_logging_level config =
    if config.log_level == "debug"
    then debug
    else if config.log_level == "info"
    then info
    else if config.log_level == "warn"
    then warn
    else if config.log_level == "error"
    then err
    else if config.log_level == "critical"
    then critical
    else debug

-- The port of the endpoint that the acceptor of server/server.cpp is bound to: boost::asio takes it as
-- an unsigned short.
unfoldable pub listening_port : Config → ℕ
listening_port config = residue16 config.port

port_kept : (x : ℤ) → pos 0 ≤ℤ x → x <ℤ pos (2 ^ 15) → pos (residue16 x) ≡ x
port_kept (pos n) h k = ground arith
port_kept (negsuc n) h k = absurd (omega arith)

-- Inversion of a chain that went through.
>>=-eq-some :
    {A B : Type 0} (m : Option A) (f : A → Option B) {b : B}
    → (m >>= f) ≡ some b
    → (a : A) × (m ≡ some a) × (f a ≡ some b)
>>=-eq-some none f h = cc
>>=-eq-some (some a) f h = (a, refl, h)

-- A configuration that can be read has a port of 16 bits with a sign. A port that is not negative is the
-- one that the server listens on.
pub read_config-port :
    (boost : PropertyTree) (filename : String) (config : Config)
    → read_config boost filename ≡ some config
    → (negsuc 32767 ≤ℤ config.port)
      × (config.port <ℤ pos (2 ^ 15))
      × (pos 0 ≤ℤ config.port → pos (listening_port config) ≡ config.port)
unfolding read_config listening_port
read_config-port boost filename config h =
    let (pt, _, h1) = >>=-eq-some (boost.read_ini filename) _ h in
    let (host, _, h2) = >>=-eq-some (boost.get_string "server.host" pt) _ h1 in
    let (port, e, h3) = >>=-eq-some (boost.get_short "server.port" pt) _ h2 in
    let (_, _, h4) = >>=-eq-some (boost.get_string "server.log_level" pt) _ h3 in
    let (_, _, h5) = >>=-eq-some (boost.get_string "database.dbname" pt) _ h4 in
    let (_, _, h6) = >>=-eq-some (boost.get_string "database.user" pt) _ h5 in
    let (_, _, h7) = >>=-eq-some (boost.get_string "database.password" pt) _ h6 in
    let (_, _, h8) = >>=-eq-some (boost.get_string "database.host" pt) _ h7 in
    let (_, _, h9) = >>=-eq-some (boost.get_short "database.port" pt) _ h8 in
    let (_, _, last) = >>=-eq-some (boost.get_string "jwt.secret_key" pt) _ h9 in
    let same : port ≡ config.port = ap (λ c. c.port) (some-injective _ _ last) in
    let (low, high) = boost.get_short_fits "server.port" pt port e in
    let low' = subst (λ x. negsuc 32767 ≤ℤ x) same low in
    let high' = subst (λ x. x <ℤ pos (2 ^ 15)) same high in
    (low', high', λ h. port_kept config.port h high')
