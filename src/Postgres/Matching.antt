-- ===== src/Postgres/Matching.antt =====
-- The matching on PostgreSQL: the table of balances follows every match.
use stock_app.Common.{ℕ, ◌≡◌, refl, true, some, String}
use stock_app.Common.Int.{ℤ}
use stock_app.Common.Equality.{username_key}
use stock_app.Double.{Double}
use stock_app.Proto.{TradeOrder}
use stock_app.Platform.{Platform}
use stock_app.Queue.{ConcurrentQueue}
use stock_app.ClientDataManager.State.{ClientDataManager, after_test-rule}
use stock_app.ClientDataManager.Balances.{change_client_balances_according_match}
use stock_app.ClientDataManager.Conservation.{Known, change_four_balances-KeepsAccounts}
use stock_app.ClientDataManager.Transfer.{SavesBalances, save_lem}
use stock_app.ClientDataManager.ActiveOrders.{reduce}
use stock_app.Core.Match.{
  transaction_amount, transaction_cost, match_orders, complete_if_filled,
  update_active_order_usd_amount_in_client_data_manager,
}
use stock_app.Core.Contents.{All-pop}
use stock_app.Core.Conservation.{AllKnown, Intact, funds-update_two, round-Intact}
use stock_app.Core.Loop.{
  Books, Core, Round, finished, continued, execute, process_round, process_orders,
}
use stock_app.Core.Rounds.{taken, process_round_cases, Keeps, process_orders_rule}
use stock_app.Postgres.Backend.{Backend}
use stock_app.Postgres.Methods.{update_actual_client_balance_in_db}
use stock_app.Postgres.ActiveOrders.{Connected, on_postgres}
use stock_app.Postgres.Refinement.{IsMirrored, change_client_balances_according_match-IsMirrored}
use stock_app.Postgres.Accounts.{
  SameAccounts-trans, SameAccounts-IsMirrored, update_two-SameAccounts,
  complete_if_filled-SameAccounts,
}

-- A round that keeps two invariants keeps both.
Keeps-both :
    {p : Platform} {b : Books} (I J : Core p b → Type 0) (r : Round p b)
    → Keeps I I r
    → Keeps J J r
    → Keeps (λ c. I c × J c) (λ c. I c × J c) r
Keeps-both I J (finished c) h k = (h, k)
Keeps-both I J (continued c) h k = (h, k)

Keeps-last :
    {p : Platform} {b : Books} (I J : Core p b → Type 0) (r : Round p b)
    → Keeps (λ c. I c × J c) (λ c. I c × J c) r
    → Keeps (λ c. I c × J c) J r
Keeps-last I J (finished c) h = h.1
Keeps-last I J (continued c) h = h

module _ (be : Backend) (queue : ConcurrentQueue) (clock : ℕ → ℕ) (steady : Connected be) where
  saves : SavesBalances (on_postgres be queue clock)
  unfolding update_actual_client_balance_in_db
  saves r d = ((update_actual_client_balance_in_db be r d).1, rw (steady d.transactions) refl)

  -- A match between two clients who have accounts goes through.
  goes_through :
      (s b : String) (amount : ℤ) (cost : Double)
      (m : ClientDataManager (on_postgres be queue clock))
      → Known m.clients_funds_data s
      → Known m.clients_funds_data b
      → (change_client_balances_according_match s b amount cost m).0 ≡ true
  unfolding change_client_balances_according_match
  goes_through s b amount cost m ks kb =
      let (funds, e, moved) = change_four_balances-KeepsAccounts s b amount cost m ks kb in
      let (_, f) =
        save_lem s b (record m { clients_funds_data = funds }) saves (moved s ks) (moved b kb) in
      rw (change_client_balances_according_match, e, f) refl

  match_orders-IsMirrored :
      (s b : TradeOrder) (m : ClientDataManager (on_postgres be queue clock))
      → Known m.clients_funds_data s.username
      → Known m.clients_funds_data b.username
      → IsMirrored be queue clock m
      → IsMirrored be queue clock (match_orders s b m).3
  unfolding match_orders
  match_orders-IsMirrored s b m ks kb i =
      let amount = transaction_amount s b in
      let cost = transaction_cost s b in
      let s' = reduce amount s in
      let b' = reduce amount b in
      let r = update_active_order_usd_amount_in_client_data_manager s' b' amount m in
      let funds = funds-update_two s' b' amount m in
      after_test-rule (IsMirrored be queue clock) r
        (change_client_balances_according_match s.username b.username amount cost)
        (SameAccounts-IsMirrored be queue clock
          (update_two-SameAccounts be queue clock s' b' amount m) i)
        (λ j.
          change_client_balances_according_match-IsMirrored be queue clock s.username b.username
            amount cost r.1 j
            (goes_through s.username b.username amount cost r.1 (rw funds ks) (rw funds kb)))

  execute-IsMirrored :
      {b : Books} (o s : TradeOrder) (c : Core (on_postgres be queue clock) b)
      → Known c.manager.clients_funds_data o.username
      → Known c.manager.clients_funds_data s.username
      → IsMirrored be queue clock c.manager
      → IsMirrored be queue clock (execute o s c).manager
  unfolding execute
  execute-IsMirrored o s c ko ks i =
      let (_, s', o', m) = match_orders s o c.manager in
      SameAccounts-IsMirrored be queue clock
        (SameAccounts-trans be queue clock (complete_if_filled-SameAccounts be queue clock o' m)
          (complete_if_filled-SameAccounts be queue clock s' (complete_if_filled o' m)))
        (match_orders-IsMirrored s o c.manager ks ko i)

  module _ {b : Books} where
    abbrev Mirrored : Core (on_postgres be queue clock) b → Type 0
    Mirrored c = IsMirrored be queue clock c.manager

    abbrev KnownTo : Core (on_postgres be queue clock) b → TradeOrder → Type 0
    KnownTo c o = Known c.manager.clients_funds_data o.username

    round-IsMirrored :
        (c : Core (on_postgres be queue clock) b)
        → AllKnown c
        → Mirrored c
        → Keeps Mirrored Mirrored (process_round c)
    round-IsMirrored c known i =
        process_round_cases (Keeps Mirrored Mirrored) c (λ _. i) (λ _. i)
          (λ o bs s ss e f _.
            let (ko, _) = All-pop b.buys (KnownTo c) c.buy_orders_book o bs e known.buyers_known in
            let (ks, _) =
              All-pop b.sells (KnownTo c) c.sell_orders_book s ss f known.sellers_known in
            execute-IsMirrored o s (taken c bs ss) ko ks i)
          (λ _ _ _ _ _ _ _. i)

    -- While the connection holds and whoever owns an order in the books has an account.
    pub process_orders-IsMirrored :
        (c : Core (on_postgres be queue clock) b)
        → AllKnown c
        → IsMirrored be queue clock c.manager
        → (c' : Core (on_postgres be queue clock) b) × (process_orders c ≡ some c')
          × IsMirrored be queue clock c'.manager
    process_orders-IsMirrored c k i =
        let start = c.manager.clients_funds_data in
        process_orders_rule (λ d. Intact start d × Mirrored d) Mirrored
          (λ d h. Keeps-last (Intact start) Mirrored (process_round d) (
            Keeps-both (Intact start) Mirrored (process_round d) (round-Intact start d h.0)
              (round-IsMirrored d h.0.known h.1)))
          c (record { known = k; kept = λ _ a. a }, i)
