-- ===== src/Client/Lines.antt =====
-- What the functions of the user interface do to the lines of the input: none is added, and a loop that
-- reads a number reads one.
use stock_app.Common.{
  ℕ, ◌≡◌, ◌≤◌, ◌<◌, refl, inl, inr, Bool, true, false, Option, some, String, List, [], ◌∷◌, length,
  arith, Option-cases, if◌then◌else◌,
}
use stock_app.Common.Int.{ℤ}
use stock_app.Proto.{TradeRequest}
use stock_app.Client.Numbers.{
  NumericType, menu_option, convert, valid_menu_option_num_choice, get_valid_auth_input,
  get_valid_numeric_input,
}
use stock_app.Client.Reading.{inputs_lem, reads_line}
use stock_app.Client.Terminal.{
  World, Reply, write_fails, read_fails, answered, Terminal, Outcome, returned, waits, exits,
  throws, Ui, then_continue, ◌>>=◌, returning, reading, menu_choice, auth_input, numeric_input,
}
use stock_app.Client.Requests.{with_identity, get_response_from_stock, send_request_to_stock}
use stock_app.Client.Interface.{set_username}

get_valid_auth_input-length :
    (lines : List String) → length (get_valid_auth_input lines).1 ≤ length lines
unfolding get_valid_auth_input
get_valid_auth_input-length [] = omega arith
get_valid_auth_input-length (line ∷ rest) = ground (arith, get_valid_auth_input-length rest)

module _ {w : World} where
  -- No lines are added, and one is read by a call that returns.
  pub record Shrinks {A : Type 0} (f : Ui w A) : Type 0 where
    pub adds_none : (t : Terminal w) → length (f t).1.lines ≤ length t.lines

  pub record Reads {A : Type 0} (f : Ui w A) : Type 0 where
    pub adds_none : (t : Terminal w) → length (f t).1.lines ≤ length t.lines
    pub reads_one :
        (t : Terminal w) (a : A) → (f t).0 ≡ returned a → length (f t).1.lines < length t.lines

  then-Shrinks :
      {A B : Type 0} (r : Outcome A × Terminal w) (g : A → Ui w B) (n : ℕ)
      → length r.1.lines ≤ n
      → ((a : A) → Shrinks (g a))
      → length (then_continue r g).1.lines ≤ n
  then-Shrinks (returned a, t) g n h k = omega (arith, (k a).adds_none t)
  then-Shrinks (waits, t) g n h k = h
  then-Shrinks (exits, t) g n h k = h
  then-Shrinks (throws, t) g n h k = h

  pub bind-Shrinks :
      {A B : Type 0} (f : Ui w A) (g : A → Ui w B)
      → Shrinks f
      → ((a : A) → Shrinks (g a))
      → Shrinks (f >>= g)
  bind-Shrinks f g h k = record {
    adds_none = λ t. then-Shrinks (f t) g (length t.lines) (h.adds_none t) k;
  }

  then-Reads :
      {A B : Type 0} (r : Outcome A × Terminal w) (g : A → Ui w B) (n : ℕ) (b : B)
      → ((a : A) → r.0 ≡ returned a → length r.1.lines < n)
      → ((a : A) → Shrinks (g a))
      → (then_continue r g).0 ≡ returned b
      → length (then_continue r g).1.lines < n
  then-Reads (returned a, t) g n b h k e = omega (arith, (k a).adds_none t, h a refl)
  then-Reads (waits, t) g n b h k e = absurd cc
  then-Reads (exits, t) g n b h k e = absurd cc
  then-Reads (throws, t) g n b h k e = absurd cc

  pub bind-Reads :
      {A B : Type 0} (f : Ui w A) (g : A → Ui w B)
      → Reads f
      → ((a : A) → Shrinks (g a))
      → Reads (f >>= g)
  bind-Reads f g h k = record {
    adds_none = λ t. then-Shrinks (f t) g (length t.lines) (h.adds_none t) k;
    reads_one = λ t b e. then-Reads (f t) g (length t.lines) b (h.reads_one t) k e;
  }

  pub returning-Shrinks : {A : Type 0} (a : A) → Shrinks (returning {w = w} a)
  returning-Shrinks a = record { adds_none = λ t. omega arith }

  response-lines :
      (r : Reply × w.Net) (t : Terminal w) → (get_response_from_stock {w = w} r t).1.lines ≡ t.lines
  unfolding get_response_from_stock
  response-lines (write_fails, net) t = refl
  response-lines (read_fails, net) t = refl
  response-lines (answered response, net) t = refl

  pub send-Shrinks : (request : TradeRequest) → Shrinks (send_request_to_stock {w = w} request)
  unfolding send_request_to_stock
  send-Shrinks request = record {
    adds_none = λ t.
        rw (response-lines (w.exchange (with_identity t.client request) t.net) t) (omega arith);
  }

  -- A loop that reads lines, by what it returns.
  reading-Reads :
      {A : Type 0} (loop : List String → Option (A × List String))
      → ((lines rest : List String) (a : A)
          → loop lines ≡ some (a, rest)
          → length rest < length lines)
      → Reads (λ t. reading {w = w} (loop t.lines) t)
  reading-Reads loop h = record {
    adds_none = λ t. elim (Option-cases (loop t.lines)) [
      | inl e ↦ rw e (omega arith)
      | inr ((a, rest), e) ↦ rw e (omega (arith, h t.lines rest a e))
    ];
    reads_one = λ t a done. elim (Option-cases (loop t.lines)) [
      | inl e ↦ absurd (ground (arith, rw e at done))
      | inr ((b, rest), e) ↦ rw e (omega (arith, h t.lines rest b e))
    ];
  }

  pub choice-Reads : (low high : ℤ) → Reads (menu_choice {w = w} low high)
  choice-Reads low high = reading-Reads (valid_menu_option_num_choice low high) (λ lines rest v e.
      reads_line menu_option low high lines rest v _ (inputs_lem low high lines).0 e)

  weaken : {A : Type 0} (f : Ui w A) → Reads f → Shrinks f
  weaken f h = record { adds_none = h.adds_none }

  pub choice-Shrinks : (low high : ℤ) → Shrinks (menu_choice {w = w} low high)
  choice-Shrinks low high = weaken _ (choice-Reads low high)

  pub numeric-Shrinks :
      (type : NumericType) (low high : ℤ) → Shrinks (numeric_input {w = w} type low high)
  numeric-Shrinks type low high = weaken _ (
      reading-Reads (get_valid_numeric_input w.stod type low high) (λ lines rest v e.
        reads_line (convert w.stod type) low high lines rest v _
          ((inputs_lem low high lines).1 w.stod type) e))

  pub auth_input-Shrinks : Shrinks (auth_input {w = w})
  unfolding auth_input
  auth_input-Shrinks = record { adds_none = λ t. get_valid_auth_input-length t.lines }

  pub set_username-Shrinks : (username : String) → Shrinks (set_username {w = w} username)
  set_username-Shrinks username = record { adds_none = λ t. omega arith }

  pub if-Shrinks :
      {A : Type 0} (b : Bool) (f g : Ui w A) → Shrinks f → Shrinks g → Shrinks (if b then f else g)
  if-Shrinks true f g h k = h
  if-Shrinks false f g h k = k
