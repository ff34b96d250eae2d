-- ===== src/Tests/BootWitness.antt =====
-- The start of a server whose database has two rows of active orders, and their owners' balances.
use mathlib.Core.List.{Permᴰ}
use mathlib.Core.Path.{subst}
use mathlib.Core.Option.{some-injective}
use stock_app.Common.{◌≡◌, refl, true, inl, inr, Option, some, List, [], ◌∷◌, arith, ◌^◌}
use stock_app.Common.Int.{ℤ, pos, negsuc, ◌≤ℤ◌, ◌<ℤ◌}
use stock_app.Proto.{TradeType, buy, sell, TradeOrder, ClientBalance}
use stock_app.Platform.{Platform}
use stock_app.Config.{PropertyTree, Config, read_config, listening_port}
use stock_app.Core.Cancel.{book_orders}
use stock_app.Core.Passes.{Sound}
use stock_app.Core.Startup.{Stored, Rows}
use stock_app.Session.State.{Server}
use stock_app.Session.Identity.{OneSessionEachIn}
use stock_app.Session.SignUp.{no_money}
use stock_app.Boot.{listens, boot, boot-Sound}
use stock_app.Tests.Fixtures.{host, books, order, noting_database}

abbrev rows : TradeType → List TradeOrder
rows buy = order buy 1 1 620 10 "User1" ∷ []
rows sell = order sell 3 3 640 50 "User3" ∷ []

abbrev two_balances : List ClientBalance
two_balances =
    (record { username = "User1"; funds = no_money })
    ∷ (record { username = "User3"; funds = no_money })
    ∷ []

abbrev stocked_host : Platform
stocked_host = record host {
  database = record noting_database {
    load_active_orders_from_db = λ t d. (some (rows t), d);
    load_clients_balances_from_db = λ d. (some two_balances, d);
  };
}

abbrev stocked : Stored stocked_host [] (rows buy) (rows sell)
stocked = record {
  balances = two_balances;
  completed = [];
  quotes = [];
  d1 = [];
  d2 = [];
  d3 = [];
  d4 = [];
  d5 = [];
  d6 = [];
  d7 = [];
  buys_there = refl;
  sells_there = refl;
  balances_there = refl;
  buys_again = refl;
  sells_again = refl;
  completed_there = refl;
  quotes_there = refl;
}

buy_rows : Rows buy (rows buy)
buy_rows = record { of_type = ((refl, omega arith, omega arith), tt); distinct = (tt, tt) }

sell_rows : Rows sell (rows sell)
sell_rows = record { of_type = ((refl, omega arith, omega arith), tt); distinct = (tt, tt) }

-- A reader of ini files that finds the same text and the same number everywhere.
port_fits :
    (x : ℤ)
    → ◌≡◌ {A = Option ℤ} (some (pos 5555)) (some x)
    → (negsuc 32767 ≤ℤ x) × (x <ℤ pos (2 ^ 15))
port_fits x h =
    subst (λ y. (negsuc 32767 ≤ℤ y) × (y <ℤ pos (2 ^ 15))) (some-injective _ _ h)
      (omega arith, omega arith)

abbrev same_entries : PropertyTree
same_entries = record {
  Tree = Unit {0};
  read_ini = λ _. some tt;
  get_string = λ _ _. some "stock";
  get_short = λ _ _. some (pos 5555);
  get_short_fits = λ _ _ x h. port_fits x h;
}

abbrev stock_config : Config
stock_config = record {
  host = "stock";
  port = pos 5555;
  log_level = "stock";
  dbname = "stock";
  dbuser = "stock";
  dbpassword = "stock";
  dbhost = "stock";
  dbport = pos 5555;
  jwt_secret_key = "stock";
}

config_there : read_config same_entries "server_config.ini" ≡ some stock_config
unfolding read_config
config_there = refl

boot-Sound_example :
    (s : Server stocked_host books) × (boot same_entries (λ _. some [])
      ≡ listens (listening_port stock_config) s)
    × (s.clients_sessions ≡ [])
    × (s.is_running ≡ true)
    × Permᴰ (book_orders buy s.core) (rows buy)
    × Permᴰ (book_orders sell s.core) (rows sell)
    × Sound s.core
    × OneSessionEachIn s
boot-Sound_example =
    boot-Sound same_entries (λ _. some []) stock_config [] (rows buy) (rows sell) stocked
      config_there refl buy_rows sell_rows (inl refl, tt) (inr (inl refl), tt)
