-- ===== src/Tests/PostgresRun.antt =====
-- A run of a server on PostgreSQL with two orders that meet: a sign-up, and a pass of the matching
-- thread.
use stock_app.Common.{refl, inl, [], arith}
use stock_app.Common.Int.{pos}
use stock_app.Common.Equality.{username_key, id_key}
use stock_app.Common.Map.{find, assign}
use stock_app.Proto
use stock_app.Proto.{buy, sell, TradeOrder, TradeRequest, sign_up_data}
use stock_app.Queue.{selection_queue}
use stock_app.Core.Loop.{Core}
use stock_app.Core.Passes.{Sound}
use stock_app.Session.State.{Server}
use stock_app.Session.Handler.{answer}
use stock_app.Session.Runs.{stays, goes, requests, matches}
use stock_app.Session.Keeping.{Fits}
use stock_app.Session.Keeping.Requests.{answer-Kept}
use stock_app.Postgres.Refinement.{IsMirrored}
use stock_app.Postgres.Runs.{Reaches-IsMirrored}
use stock_app.Tests.Fixtures.{
  plain, plain_host, list_queue, books, order, no_tables, empty_server, asking, open_jwt, passed,
  passed-eq,
}
use stock_app.Tests.PostgresWitnesses.{two_accounts, two_accounts-IsMirrored}

abbrev buys_ten : TradeOrder
buys_ten = order buy 1 1 620 10 "User1"

abbrev sells_fifty : TradeOrder
sells_fifty = order sell 3 3 610 50 "User2"

abbrev two_orders : Core plain_host books
two_orders = record {
  buy_orders_book = books.buys.push buys_ten books.buys.empty;
  sell_orders_book = books.sells.push sells_fifty books.sells.empty;
  manager = record two_accounts {
    active_buy_orders = assign (pos 1) buys_ten [];
    active_sell_orders = assign (pos 3) sells_fifty [];
  };
}

two_orders-Sound : Sound two_orders
unfolding find assign selection_queue
two_orders-Sound = record {
  buys_ready = record {
    all_active = ((refl, refl, omega arith, omega arith), tt);
    distinct = (tt, tt);
  };
  sells_ready = record {
    all_active = ((refl, refl, omega arith, omega arith), tt);
    distinct = (tt, tt);
  };
  buyers_known = ((_, refl), tt);
  sellers_known = ((_, refl), tt);
}

abbrev trading : Server plain_host books
trading = record (empty_server plain_host no_tables) { core = two_orders }

abbrev signs_up : TradeRequest
signs_up = asking Proto.sign_up (sign_up_data (record { username = "User3"; password = "known" }))

signs_up-Fits : Fits Proto.sign_up signs_up trading
unfolding find
signs_up-Fits = inl refl

abbrev signed : Server plain_host books
signed = (answer open_jwt 1 signs_up trading).1

signed-Sound : Sound signed.core
signed-Sound = (answer-Kept open_jwt 1 signs_up trading signs_up-Fits two_orders-Sound).0

abbrev traded : Server plain_host books
traded = record signed { core = passed signed.core }

still-IsMirrored : IsMirrored plain list_queue (λ n. n) two_orders.manager
still-IsMirrored = record {
  mirrors = two_accounts-IsMirrored.mirrors;
  owned = two_accounts-IsMirrored.owned;
}

Reaches-IsMirrored_example : IsMirrored plain list_queue (λ n. n) traded.core.manager
Reaches-IsMirrored_example =
    Reaches-IsMirrored plain list_queue (λ n. n) open_jwt (λ _. refl) trading traded
      (goes (requests 1 signs_up trading) (
        goes (matches _ _ (passed signed.core) signed (passed-eq signed.core signed-Sound))
          (stays traded)))
      (signs_up-Fits, (refl, tt)) two_orders-Sound still-IsMirrored
