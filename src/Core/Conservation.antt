-- ===== src/Core/Conservation.antt =====
-- The matching engine loses no account.
use stock_app.Common.{◌≡◌, some, String, arith, All, All-map}
use stock_app.Common.Int.{ℤ, ◌+ℤ◌}
use stock_app.Double.{Double}
use stock_app.Proto.{TradeType, TradeOrder}
use stock_app.Platform.{Platform}
use stock_app.ClientDataManager.State.{ClientDataManager, after_test-rule}
use stock_app.ClientDataManager.Balances.{
  change_client_balances_according_match, update_clients_balances_in_db,
}
use stock_app.ClientDataManager.ActiveOrders.{
  reduce, update_active_order_usd_amount, remove_order_from_active_orders, add_order_to_completed,
}
use stock_app.ClientDataManager.Conservation.{
  Funds, Known, KeepsAccounts, change_four_balances-KeepsAccounts,
}
use stock_app.Core.Match.{
  transaction_amount, transaction_cost, update_active_order_usd_amount_in_client_data_manager,
  match_orders, complete_if_filled,
}
use stock_app.Core.Contents.{All-push, All-push_if_left, All-pop}
use stock_app.Core.Loop.{Books, Core, execute, process_round, process_orders}
use stock_app.Core.Rounds.{taken, process_round_cases, Keeps, process_orders_rule}

module _ {p : Platform} where
  pub funds-update_active_order_usd_amount :
      (o : TradeOrder) (amount : ℤ) (m : ClientDataManager p)
      → (update_active_order_usd_amount o amount m).1.clients_funds_data ≡ m.clients_funds_data
  unfolding update_active_order_usd_amount
  funds-update_active_order_usd_amount o amount m = ground arith

  pub funds-remove_order_from_active_orders :
      (id : ℤ) (t : TradeType) (m : ClientDataManager p)
      → (remove_order_from_active_orders id t m).1.clients_funds_data ≡ m.clients_funds_data
  unfolding remove_order_from_active_orders
  funds-remove_order_from_active_orders id t m = ground arith

  pub funds-add_order_to_completed :
      (o : TradeOrder) (m : ClientDataManager p)
      → (add_order_to_completed o m).1.clients_funds_data ≡ m.clients_funds_data
  unfolding add_order_to_completed remove_order_from_active_orders
  funds-add_order_to_completed o m = ground arith

  pub funds-complete_if_filled :
      (o : TradeOrder) (m : ClientDataManager p)
      → (complete_if_filled o m).clients_funds_data ≡ m.clients_funds_data
  unfolding complete_if_filled
  funds-complete_if_filled o m = ground (arith, funds-add_order_to_completed o m)

  funds-update_clients_balances_in_db :
      (s b : String) (m : ClientDataManager p)
      → (update_clients_balances_in_db s b m).1.clients_funds_data ≡ m.clients_funds_data
  unfolding update_clients_balances_in_db
  funds-update_clients_balances_in_db s b m = ground arith

  pub funds-update_two :
      (s b : TradeOrder) (amount : ℤ) (m : ClientDataManager p)
      → (update_active_order_usd_amount_in_client_data_manager s b amount m).1.clients_funds_data
        ≡ m.clients_funds_data
  unfolding update_active_order_usd_amount_in_client_data_manager
  funds-update_two s b amount m = ground (
    arith,
    funds-update_active_order_usd_amount s amount m,
    funds-update_active_order_usd_amount b amount (update_active_order_usd_amount s amount m).1,
  )

  change_according_match-KeepsAccounts :
      (s b : String) (amount : ℤ) (cost : Double) (m : ClientDataManager p)
      → Known m.clients_funds_data s
      → Known m.clients_funds_data b
      → KeepsAccounts m.clients_funds_data
          (change_client_balances_according_match s b amount cost m).1.clients_funds_data
  unfolding change_client_balances_according_match
  change_according_match-KeepsAccounts s b amount cost m ks kb =
      let (funds, e, moved) = change_four_balances-KeepsAccounts s b amount cost m ks kb in
      rw (change_client_balances_according_match, e, funds-update_clients_balances_in_db) moved

  -- Whatever fails in a match between known clients, no account is gone.
  match_orders-KeepsAccounts :
      (s b : TradeOrder) (m : ClientDataManager p)
      → Known m.clients_funds_data s.username
      → Known m.clients_funds_data b.username
      → KeepsAccounts m.clients_funds_data (match_orders s b m).3.clients_funds_data
  unfolding match_orders ◌+ℤ◌
  match_orders-KeepsAccounts s b m ks kb =
      let amount = transaction_amount s b in
      let r =
        update_active_order_usd_amount_in_client_data_manager (reduce amount s) (reduce amount b)
          amount m in
      let same : r.1.clients_funds_data ≡ m.clients_funds_data =
        funds-update_two (reduce amount s) (reduce amount b) amount m in
      after_test-rule (λ n. KeepsAccounts m.clients_funds_data n.clients_funds_data) r
        (change_client_balances_according_match s.username b.username amount (transaction_cost s b))
        (rw same (λ _ k. k))
        (λ moved client k.
          change_according_match-KeepsAccounts s.username b.username amount (transaction_cost s b)
            r.1 (moved s.username ks) (moved b.username kb) client (moved client k))

  pub execute_funds :
      {b : Books} (o s : TradeOrder) (c : Core p b)
      → (execute o s c).manager.clients_funds_data
        ≡ (match_orders s o c.manager).3.clients_funds_data
  unfolding execute
  execute_funds o s c = rw (funds-complete_if_filled, funds-complete_if_filled)

module _ {p : Platform} {b : Books} where
  -- Every order in the books is of a client who has an account.
  pub record AllKnown (c : Core p b) : Type 0 where
    pub buyers_known :
        All (λ o. Known c.manager.clients_funds_data o.username) (b.buys.contents c.buy_orders_book)
    pub sellers_known :
        All
          (λ o. Known c.manager.clients_funds_data o.username)
          (b.sells.contents c.sell_orders_book)

  -- Against the accounts at the start.
  pub record Intact (start : Funds) (c : Core p b) : Type 0 where
    pub known : AllKnown c
    pub kept : KeepsAccounts start c.manager.clients_funds_data

  -- A match between two orders.
  execute-KeepsAccounts :
      (c : Core p b) (o : TradeOrder) (s : TradeOrder)
      → Known c.manager.clients_funds_data o.username
      → Known c.manager.clients_funds_data s.username
      → KeepsAccounts c.manager.clients_funds_data (execute o s c).manager.clients_funds_data
  execute-KeepsAccounts c o s ko ks =
      rw (execute_funds o s c) (match_orders-KeepsAccounts s o c.manager ks ko)

  execute-AllKnown :
      (c : Core p b) (o s : TradeOrder)
      → Known c.manager.clients_funds_data o.username
      → Known c.manager.clients_funds_data s.username
      → AllKnown c
      → AllKnown (execute o s c)
  unfolding execute match_orders reduce
  execute-AllKnown c o s ko ks k =
      let kept = execute-KeepsAccounts c o s ko ks in
      record {
        buyers_known =
            All-push_if_left b.buys _ _ c.buy_orders_book (kept o.username ko)
              (All-map _ _ (λ x known. kept x.username known) _ k.buyers_known);
        sellers_known =
            All-push_if_left b.sells _ _ c.sell_orders_book (kept s.username ks)
              (All-map _ _ (λ x known. kept x.username known) _ k.sellers_known);
      }

  abbrev KnownTo : Core p b → TradeOrder → Type 0
  KnownTo c o = Known c.manager.clients_funds_data o.username

  pub round-Intact :
      (start : Funds) (c : Core p b)
      → Intact start c
      → Keeps (Intact start) (Intact start) (process_round c)
  unfolding ◌+ℤ◌
  round-Intact start c k =
      let known = k.known in
      process_round_cases (Keeps (Intact start) (Intact start)) c (λ _. k) (λ _. k)
        (λ o bs s ss e f _.
          let (ko, kbs) = All-pop b.buys (KnownTo c) c.buy_orders_book o bs e known.buyers_known in
          let (ks, kss) =
            All-pop b.sells (KnownTo c) c.sell_orders_book s ss f known.sellers_known in
          record {
            known =
                execute-AllKnown (taken c bs ss) o s ko ks
                  (record { buyers_known = kbs; sellers_known = kss });
            kept = λ client a.
                execute-KeepsAccounts (taken c bs ss) o s ko ks client (k.kept client a);
          })
        (λ o bs s ss e f _.
          let (ko, kbs) = All-pop b.buys (KnownTo c) c.buy_orders_book o bs e known.buyers_known in
          let (ks, kss) =
            All-pop b.sells (KnownTo c) c.sell_orders_book s ss f known.sellers_known in
          record {
            known = record {
              buyers_known = All-push b.buys (KnownTo c) o bs ko kbs;
              sellers_known = All-push b.sells (KnownTo c) s ss ks kss;
            };
            kept = k.kept;
          })

  -- The accounts stay too, and whoever owns an order in the books still has one.
  pub process_orders-Intact :
      (c : Core p b)
      → AllKnown c
      → (c' : Core p b) × (process_orders c ≡ some c') × Intact c.manager.clients_funds_data c'
  process_orders-Intact c k =
      let start = c.manager.clients_funds_data in
      process_orders_rule (Intact start) (Intact start) (round-Intact start) c
        (record { known = k; kept = λ _ a. a })
