-- ===== src/Client/Terminal.antt =====
-- The client's state, the stock behind its socket, and what a function of the user interface does.
use stock_app.Common.{Bool, Option, none, some, String, List}
use stock_app.Common.Int.{ℤ}
use stock_app.Proto.{TradeRequest, TradeResponse}
use stock_app.Client.Numbers.{
  NumericType, valid_menu_option_num_choice, get_valid_auth_input, get_valid_numeric_input,
}

-- The fields of `Client`, but for the socket.
pub record Client : Type 0 where
  pub client_username : String
  pub jwt_token : String

-- What comes of writing a request to the socket and reading the response: boost::asio::write throws, a
-- read reports an error, or there is a response.
pub data Reply : Type 0 where
  write_fails read_fails : Reply
  answered : TradeResponse → Reply

-- The other end of the socket, and std::stod, which returns `none` for what it throws at.
pub record World : Type 1 where
  pub Net : Type 0
  pub exchange : TradeRequest → Net → Reply × Net
  pub stod : String → Option ℤ

pub record Terminal (w : World) : Type 0 where
  -- the lines of the standard input that have not been read
  pub lines : List String
  pub client : Client
  pub net : w.Net
  -- the socket has been closed
  pub closed : Bool

-- A call returns, reads empty lines for ever, ends the process, or throws.
pub data Outcome (A : Type 0) : Type 0 where
  returned : A → Outcome A
  waits exits throws : Outcome A

abbrev pub Ui : World → Type 0 → Type 0
Ui w A = Terminal w → Outcome A × Terminal w

abbrev pub then_continue :
    {w : World} {A B : Type 0} → Outcome A × Terminal w → (A → Ui w B) → Outcome B × Terminal w
then_continue (returned a, t) g = g a t
then_continue (waits, t) g = (waits, t)
then_continue (exits, t) g = (exits, t)
then_continue (throws, t) g = (throws, t)

infixl 5 ◌>>=◌
abbrev pub ◌>>=◌ : {w : World} {A B : Type 0} → Ui w A → (A → Ui w B) → Ui w B
◌>>=◌ f g t = then_continue (f t) g

module _ {w : World} where
  abbrev pub returning : {A : Type 0} → A → Ui w A
  returning a t = (returned a, t)

  -- A loop that reads lines: what it returns, and the lines that it leaves.
  abbrev pub reading : {A : Type 0} → Option (A × List String) → Ui w A
  reading none t = (waits, t)
  reading (some (a, rest)) t = (returned a, record t { lines = rest })

  abbrev pub menu_choice : ℤ → ℤ → Ui w ℤ
  menu_choice lower_bound upper_bound t =
      reading (valid_menu_option_num_choice lower_bound upper_bound t.lines) t

  unfoldable pub auth_input : Ui w String
  auth_input t = reading (some (get_valid_auth_input t.lines)) t

  abbrev pub numeric_input : NumericType → ℤ → ℤ → Ui w ℤ
  numeric_input type min_value max_value t =
      reading (get_valid_numeric_input w.stod type min_value max_value t.lines) t
