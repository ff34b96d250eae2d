-- ===== src/Client/Menus.antt =====
-- The menus read at least one line in every pass, so that the fuel of their loops is enough.
use stock_app.Common.{
  ℕ, zero, suc, ◌≡◌, ◌<◌, refl, Bool, true, false, not, ◌||◌, String, length, arith,
}
use stock_app.Common.Int.{ℤ, pos, eqb_ℤ}
use stock_app.Proto.{CommandType, TradeRequest}
use stock_app.Proto
use stock_app.Database.{Void}
use stock_app.Client.Terminal.{
  World, Terminal, Outcome, returned, waits, exits, throws, Ui, then_continue,
}
use stock_app.Client.Interface.{
  go_on, send_only, perform_auth_request, handle_make_order, handle_cancel_order, handle_view,
  handle_exit, stock_menu_option, stock_menu_pass, after_auth_request, authenticate, leave,
  auth_menu_option, auth_menu_pass, menu_loop, auth_menu, stock_menu,
}
use stock_app.Client.Lines.{
  Shrinks, Reads, bind-Shrinks, bind-Reads, returning-Shrinks, send-Shrinks, choice-Reads,
  choice-Shrinks, numeric-Shrinks, auth_input-Shrinks, set_username-Shrinks, if-Shrinks,
}

module _ {w : World} where
  send_only-Shrinks : (request : TradeRequest) → Shrinks (send_only {w = w} request)
  send_only-Shrinks request = bind-Shrinks _ _ (send-Shrinks request) (λ _. returning-Shrinks tt)

  make_order-Shrinks : Shrinks (handle_make_order {w = w})
  unfolding handle_make_order
  make_order-Shrinks = bind-Shrinks _ _ (choice-Shrinks _ _) (λ n.
      bind-Shrinks _ _ (numeric-Shrinks _ _ _) (λ usd_cost.
        bind-Shrinks _ _ (numeric-Shrinks _ _ _)
          (λ usd_amount. record { adds_none = λ t. (send_only-Shrinks _).adds_none t })))

  cancel-Shrinks : Shrinks (handle_cancel_order {w = w})
  unfolding handle_cancel_order
  cancel-Shrinks =
      bind-Shrinks _ _ (choice-Shrinks _ _)
        (λ n. bind-Shrinks _ _ (numeric-Shrinks _ _ _) (λ id. send_only-Shrinks _))

  view-Shrinks : (command : CommandType) → Shrinks (handle_view {w = w} command)
  unfolding handle_view
  view-Shrinks command = send_only-Shrinks _

  perform-Shrinks :
      (username password : String) (command : CommandType)
      → Shrinks (perform_auth_request {w = w} username password command)
  unfolding perform_auth_request
  perform-Shrinks username password Proto.sign_up = send-Shrinks _
  perform-Shrinks username password Proto.sign_in = bind-Shrinks _ _ (send-Shrinks _) (λ accepted.
      if-Shrinks accepted _ _ (set_username-Shrinks username) (returning-Shrinks false))
  perform-Shrinks username password _ = returning-Shrinks false

  go_on-Shrinks : (f : Ui w Void) → Shrinks f → Shrinks (go_on f)
  go_on-Shrinks f h = bind-Shrinks f _ h (λ _. returning-Shrinks false)

  exit-Shrinks : Shrinks (handle_exit {w = w})
  unfolding handle_exit
  exit-Shrinks = record { adds_none = λ t. omega arith }

  leave-Shrinks : Shrinks (leave {w = w})
  unfolding leave
  leave-Shrinks = record { adds_none = λ t. omega arith }

  stock_menu_option-Shrinks : (n : ℤ) → Shrinks (stock_menu_option {w = w} n)
  unfolding stock_menu_option
  stock_menu_option-Shrinks n =
      let is : ℕ → Bool = λ k. eqb_ℤ n (pos k) in
      if-Shrinks (is 1) _ _ (go_on-Shrinks _ make_order-Shrinks) (
        if-Shrinks (is 2) _ _ (go_on-Shrinks _ (view-Shrinks Proto.view_balance)) (
          if-Shrinks (is 3) _ _ (go_on-Shrinks _ (view-Shrinks Proto.view_all_active_orders)) (
            if-Shrinks (is 4) _ _ (go_on-Shrinks _ (view-Shrinks Proto.view_completed_trades)) (
              if-Shrinks (is 5) _ _ (go_on-Shrinks _ (view-Shrinks Proto.view_quote_history)) (
                if-Shrinks (is 6) _ _ (go_on-Shrinks _ cancel-Shrinks) (
                  if-Shrinks (is 7) _ _
                    (bind-Shrinks _ _ exit-Shrinks (λ _. returning-Shrinks true))
                    (returning-Shrinks false)))))))

  stock_menu_pass-Reads : Reads (stock_menu_pass {w = w})
  unfolding stock_menu_pass
  stock_menu_pass-Reads = bind-Reads _ _ (choice-Reads _ _) stock_menu_option-Shrinks

  after_auth-Shrinks :
      (n : ℤ) (username password : String) (accepted : Bool)
      → Shrinks (after_auth_request {w = w} n username password accepted)
  unfolding after_auth_request
  after_auth-Shrinks n username password accepted =
      if-Shrinks (not accepted) _ _ (returning-Shrinks false) (
        if-Shrinks (eqb_ℤ n (pos 1)) _ _ (perform-Shrinks username password Proto.sign_in)
          (returning-Shrinks true))

  authenticate-Shrinks : (n : ℤ) → Shrinks (authenticate {w = w} n)
  unfolding authenticate
  authenticate-Shrinks n = bind-Shrinks _ _ auth_input-Shrinks (λ username.
      bind-Shrinks _ _ auth_input-Shrinks (λ password.
        bind-Shrinks _ _ (perform-Shrinks username password _)
          (after_auth-Shrinks n username password)))

  auth_menu_option-Shrinks : (n : ℤ) → Shrinks (auth_menu_option {w = w} n)
  unfolding auth_menu_option
  auth_menu_option-Shrinks n =
      if-Shrinks (eqb_ℤ n (pos 1) || eqb_ℤ n (pos 2)) _ _ (authenticate-Shrinks n)
        (if-Shrinks (eqb_ℤ n (pos 3)) _ _ leave-Shrinks (returning-Shrinks false))

  auth_menu_pass-Reads : Reads (auth_menu_pass {w = w})
  unfolding auth_menu_pass
  auth_menu_pass-Reads = bind-Reads _ _ (choice-Reads _ _) auth_menu_option-Shrinks

  abbrev next_pass : Ui w Bool → ℕ → Bool → Ui w Void
  next_pass pass fuel done t = elim done [ true ↦ (returned tt, t) | false ↦ menu_loop pass fuel t ]

  -- Two amounts of fuel, both above the number of lines, give the same.
  loop_rest :
      (pass : Ui w Bool) (m n : ℕ) (r : Outcome Bool × Terminal w)
      → ((a : Bool) → r.0 ≡ returned a → menu_loop pass m r.1 ≡ menu_loop pass n r.1)
      → then_continue r (next_pass pass m) ≡ then_continue r (next_pass pass n)
  loop_rest pass m n (returned true, t) h = refl
  loop_rest pass m n (returned false, t) h = h false refl
  loop_rest pass m n (waits, t) h = refl
  loop_rest pass m n (exits, t) h = refl
  loop_rest pass m n (throws, t) h = refl

  menu_loop_enough :
      (pass : Ui w Bool) (m n : ℕ) (t : Terminal w)
      → Reads pass
      → length t.lines < m
      → length t.lines < n
      → menu_loop pass m t ≡ menu_loop pass n t
  unfolding menu_loop
  menu_loop_enough pass zero n t reads h k = absurd (omega (arith, h))
  menu_loop_enough pass (suc m) zero t reads h k = absurd (omega (arith, k))
  menu_loop_enough pass (suc m) (suc n) t reads h k = loop_rest pass m n (pass t) (λ a e.
      let one = reads.reads_one t a e in
      menu_loop_enough pass m n (pass t).1 reads (omega (arith, one)) (omega (arith, one)))

  -- The fuel of the loops of both menus is enough: with any fuel above the number of the lines of the
  -- input, the loop has the same outcome and leaves the same state, whatever the stock answers.
  pub menus_enough :
      (t : Terminal w) (fuel : ℕ)
      → length t.lines < fuel
      → (auth_menu t ≡ menu_loop auth_menu_pass fuel t)
        × (stock_menu t ≡ menu_loop stock_menu_pass fuel t)
  unfolding auth_menu stock_menu
  menus_enough t fuel h = (
    menu_loop_enough auth_menu_pass (suc (length t.lines)) fuel t auth_menu_pass-Reads (omega arith)
        h,
    menu_loop_enough stock_menu_pass (suc (length t.lines)) fuel t stock_menu_pass-Reads
        (omega arith) h,
  )
