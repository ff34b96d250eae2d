-- ===== src/Postgres/Accounts.antt =====
-- The operations that touch neither the balances in memory nor the accounts in the database.
use mathlib.Core.Path.{subst}
use mathlib.Core.Option.{some-injective}
use stock_app.Common.{
  ℕ, zero, suc, ◌≡◌, refl, ◌∙◌, none, some, String, arith, Bool-cases, Option-cases, inl, inr,
  length,
}
use stock_app.Common.Int.{ℤ}
use stock_app.Common.Equality.{username_key}
use stock_app.Proto.{TradeType, buy, sell, TradeOrder, TradeRequest}
use stock_app.Queue.{ConcurrentQueue}
use stock_app.ClientDataManager.State.{ClientDataManager, after_test-rule}
use stock_app.ClientDataManager.ActiveOrders.{
  update_active_order_usd_amount, remove_order_from_active_orders, add_order_to_completed,
  push_order_to_active_orders,
}
use stock_app.ClientDataManager.OrderQueues.{
  is_empty_order_queue, push_order_to_order_queue, pop_order_from_order_queue, queued_orders,
}
use stock_app.Core.Match.{complete_if_filled, update_active_order_usd_amount_in_client_data_manager}
use stock_app.Core.Loop.{Books, Core}
use stock_app.Core.Intake.{
  place_by_type, place_order_to_priority_queue, complement_step, complement_loop,
  complement_order_books,
}
use stock_app.Core.Removal.{remove_order_by_id, cancel_active_order}
use stock_app.Session.State.{Server}
use stock_app.Session.Commands.{handle_make_order_command, stamped_order, after_stamp}
use stock_app.Postgres.Backend.{Backend}
use stock_app.Postgres.Methods.{save_completed_order_to_db, save_qoute_to_db}
use stock_app.Postgres.ActiveOrders.{on_postgres}
use stock_app.Postgres.Refinement.{IsMirrored}

module _ (be : Backend) (queue : ConcurrentQueue) (clock : ℕ → ℕ) where
  abbrev Manager : Type 0
  Manager = ClientDataManager (on_postgres be queue clock)

  -- The balances in memory, the users and the rows of balances are the same in two states.
  pub record SameAccounts (m n : ClientDataManager (on_postgres be queue clock)) : Type 0 where
    pub same_funds : n.clients_funds_data ≡ m.clients_funds_data
    pub same_users : n.db.tables.users ≡ m.db.tables.users
    pub same_rows : n.db.tables.clients_balances ≡ m.db.tables.clients_balances

  pub SameAccounts-refl : (m : Manager) → SameAccounts m m
  SameAccounts-refl m = record { same_funds = refl; same_users = refl; same_rows = refl }

  pub SameAccounts-trans :
      {m n o : Manager} → SameAccounts m n → SameAccounts n o → SameAccounts m o
  SameAccounts-trans h k = record {
    same_funds = k.same_funds ∙ h.same_funds;
    same_users = k.same_users ∙ h.same_users;
    same_rows = k.same_rows ∙ h.same_rows;
  }

  pub SameAccounts-IsMirrored :
      {m n : Manager} → SameAccounts m n → IsMirrored be queue clock m → IsMirrored be queue clock n
  SameAccounts-IsMirrored h i = record {
    mirrors = λ c. rw (h.same_funds, h.same_rows) (i.mirrors c);
    owned = λ c. rw (h.same_users, h.same_rows) (i.owned c);
  }

  update_active-SameAccounts :
      (o : TradeOrder) (amount : ℤ) (m : Manager)
      → SameAccounts m (update_active_order_usd_amount o amount m).1
  unfolding update_active_order_usd_amount
  update_active-SameAccounts o amount m = ground arith

  pub update_two-SameAccounts :
      (s b : TradeOrder) (amount : ℤ) (m : Manager)
      → SameAccounts m (update_active_order_usd_amount_in_client_data_manager s b amount m).1
  unfolding update_active_order_usd_amount_in_client_data_manager
  update_two-SameAccounts s b amount m =
      let r = update_active_order_usd_amount s amount m in
      after_test-rule (SameAccounts m) r (update_active_order_usd_amount b amount)
        (update_active-SameAccounts s amount m)
        (λ h. SameAccounts-trans h (update_active-SameAccounts b amount r.1))

  remove_order-SameAccounts :
      (id : ℤ) (t : TradeType) (m : Manager)
      → SameAccounts m (remove_order_from_active_orders id t m).1
  unfolding remove_order_from_active_orders
  remove_order-SameAccounts id buy m = ground arith
  remove_order-SameAccounts id sell m = ground arith

  add_order_to_completed-SameAccounts :
      (o : TradeOrder) (m : Manager) → SameAccounts m (add_order_to_completed o m).1
  unfolding add_order_to_completed save_completed_order_to_db save_qoute_to_db
      remove_order_from_active_orders
  add_order_to_completed-SameAccounts o m = ground arith

  pub complete_if_filled-SameAccounts :
      (o : TradeOrder) (m : Manager) → SameAccounts m (complete_if_filled o m)
  unfolding complete_if_filled
  complete_if_filled-SameAccounts o m = ground (arith, add_order_to_completed-SameAccounts o m)

  pub cancel_active_order-SameAccounts :
      {b : Books} (t : TradeType) (id : ℤ) (client : String)
      (c : Core (on_postgres be queue clock) b)
      → SameAccounts c.manager (cancel_active_order t id client c).1.manager
  unfolding cancel_active_order remove_order_by_id
  cancel_active_order-SameAccounts buy id client c =
      ground (arith, remove_order-SameAccounts id buy c.manager)
  cancel_active_order-SameAccounts sell id client c =
      ground (arith, remove_order-SameAccounts id sell c.manager)

  place_by_type_manager :
      {b : Books} (t : TradeType) (o : TradeOrder) (c : Core (on_postgres be queue clock) b)
      → (place_by_type t o c).manager ≡ c.manager
  unfolding place_by_type
  place_by_type_manager buy o c = refl
  place_by_type_manager sell o c = refl

  complement_step-SameAccounts :
      {b : Books} (t : TradeType) (c : Core (on_postgres be queue clock) b)
      → SameAccounts c.manager (complement_step t c).manager
  unfolding complement_step pop_order_from_order_queue place_order_to_priority_queue
  complement_step-SameAccounts buy c =
      rw place_by_type_manager (record { same_funds = refl; same_users = refl; same_rows = refl })
  complement_step-SameAccounts sell c =
      rw place_by_type_manager (record { same_funds = refl; same_users = refl; same_rows = refl })

  complement_loop-SameAccounts :
      {b : Books} (fuel : ℕ) (t : TradeType) (c c' : Core (on_postgres be queue clock) b)
      → complement_loop fuel t c ≡ some c'
      → SameAccounts c.manager c'.manager
  unfolding complement_loop
  complement_loop-SameAccounts zero t c c' e = cc
  complement_loop-SameAccounts (suc fuel) t c c' e =
      elim (Bool-cases (is_empty_order_queue t c.manager)) [
        | inl stop ↦
            subst (λ d. SameAccounts c.manager d.manager)
              (some-injective _ _ (rw (complement_loop, stop) at e)) (SameAccounts-refl c.manager)
        | inr more ↦ SameAccounts-trans (complement_step-SameAccounts t c) (
            complement_loop-SameAccounts fuel t (complement_step t c) c'
              (rw (complement_loop, more) at e))
      ]

  pub complement_order_books-SameAccounts :
      {b : Books} (c c' : Core (on_postgres be queue clock) b)
      → complement_order_books c ≡ some c'
      → SameAccounts c.manager c'.manager
  unfolding complement_order_books
  complement_order_books-SameAccounts c c' e =
      let n = suc (length (queued_orders buy c.manager)) in
      elim (Option-cases (complement_loop n buy c)) [
        | inl h ↦ absurd (stuck (rw (complement_order_books, h) at e))
        | inr (c1, h) ↦ SameAccounts-trans (complement_loop-SameAccounts n buy c c1 h) (
            complement_loop-SameAccounts (suc (length (queued_orders sell c1.manager))) sell c1 c'
              (rw (complement_order_books, h) at e))
      ]
    where
      stuck : none ≡ some c' → ⊥
      stuck h = cc

  pushed-SameAccounts :
      (t : TradeType) (o : TradeOrder) (m : Manager)
      → SameAccounts m (push_order_to_order_queue t o m).1
  unfolding push_order_to_order_queue
  pushed-SameAccounts buy o m = record { same_funds = refl; same_users = refl; same_rows = refl }
  pushed-SameAccounts sell o m = record { same_funds = refl; same_users = refl; same_rows = refl }

  listed_as :
      (t : TradeType) (o : TradeOrder) (m : Manager)
      → o.type ≡ t
      → SameAccounts m (push_order_to_active_orders o m)
  unfolding push_order_to_active_orders
  listed_as buy o m e = rw e (record { same_funds = refl; same_users = refl; same_rows = refl })
  listed_as sell o m e = rw e (record { same_funds = refl; same_users = refl; same_rows = refl })

  pub make_order-SameAccounts :
      {b : Books} (request : TradeRequest) (s : Server (on_postgres be queue clock) b)
      → SameAccounts s.core.manager (handle_make_order_command request s).1.core.manager
  unfolding handle_make_order_command after_stamp
  make_order-SameAccounts request s =
      let o = stamped_order request s in
      let m = s.core.manager in
      let r = push_order_to_order_queue o.type o (record m { reads = suc (suc m.reads) }) in
      let pushed : SameAccounts m r.1 =
        SameAccounts-trans (record { same_funds = refl; same_users = refl; same_rows = refl })
          (pushed-SameAccounts o.type o (record m { reads = suc (suc m.reads) })) in
      elim (Bool-cases r.0) [
        | inl e ↦
            rw (handle_make_order_command, e)
              (SameAccounts-trans pushed (listed_as o.type o r.1 refl))
        | inr e ↦ rw (handle_make_order_command, e) pushed
      ]
