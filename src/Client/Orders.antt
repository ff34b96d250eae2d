-- ===== src/Client/Orders.antt =====
-- What the client sends for an order, and to cancel one.
use mathlib.Core.Path.{subst}
use mathlib.Core.Option.{some-injective}
use stock_app.Common.{
  ap, ◌≡◌, ◌⊎◌, ◌^◌, ◌-◌, refl, sym, ◌∙◌, inl, inr, Option, some, String, List, arith, Option-cases,
}
use stock_app.Common.Int.{ℤ, pos, ◌≤ℤ◌}
use stock_app.Double.{hundredth, of_int}
use stock_app.Proto
use stock_app.Proto.{TradeType, TradeOrder, TradeRequest}
use stock_app.Database.{Void}
use stock_app.Client.Numbers.{
  int_type, int64_type, double_type, valid_menu_option_num_choice, get_valid_numeric_input, convert,
}
use stock_app.Client.Reading.{inputs_lem, Outcomes}
use stock_app.Client.Terminal.{World, Terminal, Outcome, waits, then_continue, returning}
use stock_app.Client.Requests.{
  form_order, cancel_order_message, with_identity, get_response_from_stock, send_request_to_stock,
}
use stock_app.Client.Interface.{chosen_type, handle_make_order, handle_cancel_order}

-- What a loop returns is within its bounds.
in_bounds :
    (read : String → Option ℤ) (low high : ℤ) (lines rest : List String) (v : ℤ)
    (r : Option (ℤ × List String))
    → Outcomes read low high lines r
    → r ≡ some (v, rest)
    → (low ≤ℤ v) × (v ≤ℤ high)
in_bounds read low high lines rest v r (inl (e, _)) h = absurd (ground (arith, e, h))
in_bounds read low high lines rest v r (inr (u, left, e, f)) h =
    let same = ap (λ (p : ℤ × List String). p.0) (some-injective _ _ (sym e ∙ h)) in
    (subst (λ x. low ≤ℤ x) same f.at_least, subst (λ x. x ≤ℤ high) same f.at_most)

module _ {w : World} where
  -- The request has been sent with the identity of the client, and its response handled.
  abbrev pub sent : TradeRequest → Terminal w → List String → Outcome Void × Terminal w
  sent request t rest =
      then_continue
        (get_response_from_stock
          (w.exchange
            (record request { username = t.client.client_username; jwt = t.client.jwt_token })
            t.net)
          (record t { lines = rest }))
        (λ _. returning tt)

  -- The order is the client's, and its cost and amount are within the bounds of the interface.
  pub record IsOffered (t : Terminal w) (order : TradeOrder) : Type 0 where
    pub own : order.username ≡ t.client.client_username
    pub cost_at_least : hundredth ≤ℤ order.usd_cost
    pub cost_at_most : order.usd_cost ≤ℤ of_int (pos 1000)
    pub amount_at_least : pos 1 ≤ℤ order.usd_amount
    pub amount_at_most : order.usd_amount ≤ℤ pos 1_000_000
    pub whole_volume : order.usd_volume ≡ order.usd_amount

  -- handle_make_order either reads the input to its end and sends nothing, or sends one request with
  -- the client's username and token: to make an order of the client with a cost from 0.01 to 1000, an
  -- amount from 1 to 1000000, and this amount as its volume.
  pub handle_make_order_lem :
      (t : Terminal w)
      → (((handle_make_order t).0 ≡ waits) × ((handle_make_order t).1.net ≡ t.net))
        ⊎ ((order : TradeOrder) × (rest : List String) × IsOffered t order
            × (handle_make_order t
                ≡ sent
                    (record {
                      command = Proto.make_order;
                      username = "";
                      jwt = "";
                      data_of = Proto.order_data order;
                    })
                    t
                    rest))
  unfolding handle_make_order send_request_to_stock with_identity form_order
  handle_make_order_lem t =
      let low = hundredth in
      let high = of_int (pos 1000) in
      elim (Option-cases (valid_menu_option_num_choice (pos 1) (pos 2) t.lines)) [
        | inl e ↦ inl (rw (handle_make_order, e) refl, rw (handle_make_order, e) refl)
        | inr ((n, ls), e) ↦
            elim (Option-cases (get_valid_numeric_input w.stod double_type low high ls)) [
              | inl e' ↦
                  inl (rw (handle_make_order, e, e') refl, rw (handle_make_order, e, e') refl)
              | inr ((cost, ls'), e') ↦
                  let (low_cost, high_cost) =
                    in_bounds (convert w.stod double_type) low high ls ls' cost _
                      ((inputs_lem low high ls).1 w.stod double_type) e' in
                  elim (Option-cases
                    (get_valid_numeric_input w.stod int_type (pos 1) (pos 1_000_000) ls')) [
                      | inl e'' ↦ inl (
                        rw (handle_make_order, e, e', e'') refl,
                        rw (handle_make_order, e, e', e'') refl,
                      )
                      | inr ((amount, rest), e'') ↦
                          let (low_amount, high_amount) =
                            in_bounds (convert w.stod int_type) (pos 1) (pos 1_000_000) ls' rest
                              amount _ ((inputs_lem (pos 1) (pos 1_000_000) ls').1 w.stod int_type)
                              e'' in
                          inr (
                            form_order t.client (chosen_type n) cost amount,
                            rest,
                            record {
                              own = refl;
                              cost_at_least = low_cost;
                              cost_at_most = high_cost;
                              amount_at_least = low_amount;
                              amount_at_most = high_amount;
                              whole_volume = refl;
                            },
                            rw (handle_make_order, e, e', e'') refl,
                          )
                    ]
            ]
      ]

  -- handle_cancel_order either reads the input to its end and sends nothing, or sends one request with
  -- the client's username and token, to cancel an order with an id from 1 to 2^63 - 1: an order whose
  -- id is negative cannot be cancelled with this client.
  pub handle_cancel_order_lem :
      (t : Terminal w)
      → (((handle_cancel_order t).0 ≡ waits) × ((handle_cancel_order t).1.net ≡ t.net))
        ⊎ ((type : TradeType) × (id : ℤ) × (rest : List String) × (pos 1 ≤ℤ id)
            × (id ≤ℤ pos (2 ^ 63 - 1))
            × (handle_cancel_order t
                ≡ sent
                    (record {
                      command = Proto.cancel_active_order;
                      username = "";
                      jwt = "";
                      data_of = Proto.cancel_data (record { type = type; order_id = id });
                    })
                    t
                    rest))
  unfolding handle_cancel_order send_request_to_stock with_identity cancel_order_message
  handle_cancel_order_lem t =
      let high = pos (2 ^ 63 - 1) in
      elim (Option-cases (valid_menu_option_num_choice (pos 1) (pos 2) t.lines)) [
        | inl e ↦ inl (rw (handle_cancel_order, e) refl, rw (handle_cancel_order, e) refl)
        | inr ((n, ls), e) ↦
            elim (Option-cases (get_valid_numeric_input w.stod int64_type (pos 1) high ls)) [
              | inl e' ↦
                  inl (rw (handle_cancel_order, e, e') refl, rw (handle_cancel_order, e, e') refl)
              | inr ((id, rest), e') ↦
                  let (low_id, high_id) =
                    in_bounds (convert w.stod int64_type) (pos 1) high ls rest id _
                      ((inputs_lem (pos 1) high ls).1 w.stod int64_type) e' in
                  inr
                    (chosen_type n, id, rest, low_id, high_id, rw (handle_cancel_order, e, e') refl)
            ]
      ]
