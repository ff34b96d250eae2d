-- ===== src/Tests/Fixtures.antt =====
-- A server to run the code on: a database that notes the balances it is given, a concurrent queue
-- that is a list, a clock that counts, books that select from a list, and a few orders.
use mathlib.Core.List.{Permᴰ}
use mathlib.Core.List.Permᴰ
use mathlib.Core.List.{append-nil}
use mathlib.Core.Path.{subst}
use mathlib.Core.Option.{some-injective}
use stock_app.Common.{
  ℕ, ◌*◌, ◌/◌, ◌^◌, ◌≡◌, refl, sym, ap, ◌∙◌, Bool, true, false, String, Option, none, some, List,
  [], ◌∷◌, ◌++◌, length, eqb, if◌then◌else◌,
}
use stock_app.Common.Int.{pos}
use stock_app.Common.Equality.{username_key, ◌==◌, ==_self}
use stock_app.Double.{Double}
use stock_app.Proto.{
  TradeType, buy, sell, TradeOrder, ClientBalance, CommandType, RequestData, TradeRequest,
}
use stock_app.Database.{IDatabase, Void}
use stock_app.Postgres.Backend.{Backend}
use stock_app.Postgres.Tables.{Postgres, no_rows}
use stock_app.Postgres.ActiveOrders.{on_postgres}
use stock_app.Queue.{ConcurrentQueue, selection_queue}
use stock_app.Platform.{Platform}
use stock_app.Auth.{Jwt}
use stock_app.ClientDataManager.Waiting.{at_test}
use stock_app.Session.State.{Server}
use stock_app.ClientDataManager.ActiveOrders.{push_order_to_active_orders}
use stock_app.ClientDataManager.Balances.{create_new_client_fund_data}
use stock_app.ClientDataManager.OrderQueues.{push_order_to_order_queue}
use stock_app.Core.Intake.{place_order_to_priority_queue}
use stock_app.Core.Loop.{Books, Core}
use stock_app.Core.Passes.{Sound, stock_pass-Sound}
use stock_app.Core.Persistence.{stock_pass}

abbrev pub accepts : {A : Type 0} → A → List ClientBalance → Option A × List ClientBalance
accepts a d = (some a, d)

abbrev pub noting_database : IDatabase
noting_database = record {
  Db = List ClientBalance;
  is_user_exists = λ _. accepts false;
  add_user = λ _ _. accepts tt;
  authenticate_user = λ _ _. accepts false;
  save_active_order_to_db = λ _. accepts tt;
  load_active_orders_from_db = λ _. accepts [];
  update_actual_client_balance_in_db = λ b d. (some tt, b ∷ d);
  load_clients_balances_from_db = accepts [];
  save_completed_order_to_db = λ _ _. accepts tt;
  load_last_completed_orders = λ _. accepts [];
  save_qoute_to_db = λ _. accepts tt;
  load_quote_history = λ _. accepts [];
  truncate_active_orders_table = accepts tt;
}

abbrev take_first : List TradeOrder → Option (TradeOrder × List TradeOrder)
take_first [] = none
take_first (x ∷ xs) = some (x, xs)

pub take_first-none : (q : List TradeOrder) → take_first q ≡ none → q ≡ []
take_first-none [] h = refl
take_first-none (x ∷ xs) h = cc

pub take_first-some :
    (q r : List TradeOrder) (x : TradeOrder) → take_first q ≡ some (x, r) → Permᴰ q (x ∷ r)
take_first-some [] r x h = cc
take_first-some (y ∷ ys) r x h =
    subst (λ t. Permᴰ (y ∷ ys) (t.0 ∷ t.1)) (some-injective _ _ h) (Permᴰ.refl (y ∷ ys))

pub append_one : (x : TradeOrder) (q : List TradeOrder) → Permᴰ (q ++ x ∷ []) (x ∷ q)
append_one x q = subst (λ l. Permᴰ (q ++ x ∷ []) (x ∷ l)) (append-nil q) (Permᴰ.middle x q [])

pub never_full :
    (x : TradeOrder) (q r : List TradeOrder)
    → ◌≡◌ {A = Bool × List TradeOrder} (true, q ++ x ∷ []) (false, r)
    → r ≡ q
never_full x q r h = cc

abbrev pub list_queue : ConcurrentQueue
list_queue = record {
  Queue = List TradeOrder;
  empty = [];
  enqueue = λ x q. (true, q ++ x ∷ []);
  try_dequeue = take_first;
  size_approx = length;
  contents = λ q. q;
  contents-empty = refl;
  enqueue_done =
      λ x q r h. subst (λ (t : Bool × List TradeOrder). Permᴰ t.1 (x ∷ q)) h (append_one x q);
  enqueue_failed = never_full;
  dequeue_none = take_first-none;
  dequeue_some = take_first-some;
  size_approx_lem = λ q. refl;
}

abbrev pub host : Platform
host = record { database = noting_database; concurrent_queue = list_queue; clock = λ n. n }

abbrev pub books : Books
books = record { buys = selection_queue _; sells = selection_queue _ }

-- So many halves of a RUB or USD.
abbrev pub halves : ℕ → Double
halves n = pos (n * 2 ^ 1073)

-- An order at a cost given in tenths of a RUB, a multiple of five of them.
abbrev pub order : TradeType → ℕ → ℕ → ℕ → ℕ → String → TradeOrder
order type id time tenths amount username = record {
  type = type;
  usd_cost = halves (tenths / 5);
  usd_amount = pos amount;
  timestamp = pos time;
  order_id = pos id;
  usd_volume = pos amount;
  username = username;
}

abbrev pub initial : Core host books
initial = record {
  buy_orders_book = books.buys.empty;
  sell_orders_book = books.sells.empty;
  manager = record {
    clients_funds_data = [];
    active_buy_orders = [];
    active_sell_orders = [];
    completed_orders = [];
    quote_history = [];
    buy_orders_queue = [];
    sell_orders_queue = [];
    db = [];
    reads = 0;
  };
}

-- add_order_to_containers of tests/core_test.cpp
abbrev pub with_order : TradeOrder → Core host books → Core host books
with_order o c = place_order_to_priority_queue o (record c {
  manager = push_order_to_active_orders o (create_new_client_fund_data o.username c.manager);
})

abbrev pub with_orders : List TradeOrder → Core host books
with_orders [] = initial
with_orders (o ∷ os) = with_order o (with_orders os)

abbrev pub three_orders : Core host books
three_orders = with_orders (
    order sell 3 3 610 50 "User3"
    ∷ order buy 2 2 630 20 "User2"
    ∷ order buy 1 1 620 10 "User1"
    ∷ [])

-- An order that waits in its queue.
abbrev pub with_waiting : TradeOrder → Core host books → Core host books
with_waiting o c = record c {
  manager = (push_order_to_order_queue o.type o (push_order_to_active_orders o c.manager)).1;
}

abbrev pub one_waiting : Core host books
one_waiting =
    with_waiting (order sell 4 4 640 7 "User3")
      (with_waiting (order buy 5 5 600 9 "User1") three_orders)

-- A token that names its subject, and is signed by everybody.
abbrev pub open_jwt : Jwt
open_jwt = record {
  Token = String;
  sign = λ _ subject. subject;
  decode = λ token. some token;
  verify = λ _ _. true;
  get_subject = λ token. some token;
  sign_lem = λ _ subject. (subject, refl, refl, refl);
}

-- Two sessions, of which the first is User1's.
abbrev pub two_sessions : Server host books
two_sessions = record {
  core = three_orders;
  clients_sessions = 1 ∷ 2 ∷ [];
  stop_new_sessions = false;
  is_running = true;
  secret_key = "key";
  client_username = λ i. if eqb i 1 then "User1" else "";
  ids = 0;
  waiter = at_test;
  written = [];
  closed = [];
}

abbrev pub asking : CommandType → RequestData → TradeRequest
asking command data_of = record {
  command = command;
  username = "User1";
  jwt = "forged";
  data_of = data_of;
}

-- A server with nothing in it, on a database.
abbrev pub empty_core : (p : Platform) → p.database.Db → Core p books
empty_core p d = record {
  buy_orders_book = books.buys.empty;
  sell_orders_book = books.sells.empty;
  manager = record {
    clients_funds_data = [];
    active_buy_orders = [];
    active_sell_orders = [];
    completed_orders = [];
    quote_history = [];
    buy_orders_queue = p.concurrent_queue.empty;
    sell_orders_queue = p.concurrent_queue.empty;
    db = d;
    reads = 0;
  };
}

abbrev pub empty_server : (p : Platform) → p.database.Db → Server p books
empty_server p d = record {
  core = empty_core p d;
  clients_sessions = 1 ∷ [];
  stop_new_sessions = false;
  is_running = true;
  secret_key = "key";
  client_username = λ _. "";
  ids = 0;
  waiter = at_test;
  written = [];
  closed = [];
}

-- A database that keeps passwords as they are, and whose connection never fails.
abbrev pub plain : Backend
plain = record {
  goes_through = λ _. true;
  in_doubt = λ _. false;
  fits = λ _. true;
  read_millis = λ t. t;
  generate_hash = λ _ password. password;
  validate_password = λ password hashed. password == hashed;
  validate-generate = λ _ password. ==_self password;
  generate_hash_fits = λ _ _. refl;
  scan_active = λ rows. rows;
  scan_active-perm = λ rows. Permᴰ.refl rows;
  scan_balances = λ rows. rows;
  scan_balances-perm = λ rows. Permᴰ.refl rows;
}

abbrev pub plain_host : Platform
plain_host = on_postgres plain list_queue (λ n. n)

abbrev pub no_tables : Postgres
no_tables = record { tables = no_rows; transactions = 0 }

module _ {p : Platform} {b : Books} where
  -- What a pass of the matching thread makes of the core.
  abbrev after_pass : Core p b → Option (Option Void × Core p b) → Core p b
  after_pass c none = c
  after_pass c (some (_, c')) = c'

  abbrev pub passed : Core p b → Core p b
  passed c = after_pass c (stock_pass true c)

  pub passed-eq : (c : Core p b) → Sound c → stock_pass true c ≡ some (some tt, passed c)
  passed-eq c h =
      let (_, run, _, _) = stock_pass-Sound c h in
      run ∙ ap (λ r. some (some tt, after_pass c r)) (sym run)
