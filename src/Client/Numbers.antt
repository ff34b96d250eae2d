-- ===== src/Client/Numbers.antt =====
-- `std::stoi` and `std::stoll`, and the three loops of client/user_interface.cpp that read the standard
-- input until a line is accepted. The input is its lines, each ended by a newline. A line is its bytes,
-- one character for each. After the last line std::getline gives an empty one, again and again.
use Prim.Native.Char.{code}
use Prim.Native.String.{String}
use stock_app.Common.{
  ℕ, suc, ◌+◌, ◌-◌, ◌*◌, ◌^◌, Bool, true, false, not, ◌&&◌, ◌||◌, Option, none, some, List, [], ◌∷◌,
  length, leb, eqb, if◌then◌else◌,
}
use stock_app.Common.Int.{ℤ, pos, sub_ℕ, ltb_ℤ}
use stock_app.Common.Word.{to_int16}

-- `a <= b`
abbrev pub leb_ℤ : ℤ → ℤ → Bool
leb_ℤ a b = not (ltb_ℤ b a)

abbrev pub codes : String → List ℕ
codes String.[] = []
codes (String.◌∷◌ c s) = code c ∷ codes s

-- What a conversion does: it throws one of two exceptions, or returns a value and the number of
-- characters that it has read.
pub data Conversion : Type 0 where
  invalid_argument out_of_range : Conversion
  converted : ℤ → ℕ → Conversion

-- The C locale's `isspace` and `isdigit`.
abbrev is_space : ℕ → Bool
is_space c = eqb c 32 || (leb 9 c && leb c 13)

abbrev is_digit : ℕ → Bool
is_digit c = leb 48 c && leb c 57

-- How many spaces come first, and what follows them.
unfoldable pub skip_spaces : List ℕ → ℕ × List ℕ
skip_spaces [] = (0, [])
skip_spaces (c ∷ cs) =
    let (n, rest) = skip_spaces cs in if is_space c then (suc n, rest) else (0, c ∷ cs)

-- The number that the first digits make, after `value`, and how many digits there are.
unfoldable pub read_digits : ℕ → List ℕ → ℕ × ℕ
read_digits value [] = (value, 0)
read_digits value (c ∷ cs) =
    let (all, n) = read_digits (10 * value + (c - 48)) cs in
    if is_digit c then (all, suc n) else (value, 0)

-- Whether there is a minus sign, how long the sign is, and what follows it.
unfoldable pub read_sign : List ℕ → Bool × ℕ × List ℕ
read_sign [] = (false, 0, [])
read_sign (c ∷ cs) =
    if eqb c 45 then (true, 1, cs) else if eqb c 43 then (false, 1, cs) else (false, 0, c ∷ cs)

-- `std::stoi` for 32 bits, `std::stoll` for 64.
unfoldable pub sto : ℕ → List ℕ → Conversion
sto bits text =
    let (spaces, after_spaces) = skip_spaces text in
    let (negative, sign, after_sign) = read_sign after_spaces in
    let (size, digits) = read_digits 0 after_sign in
    let value = if negative then sub_ℕ 0 size else pos size in
    if eqb digits 0
    then invalid_argument
    else if leb_ℤ (sub_ℕ 0 (2 ^ (bits - 1))) value && ltb_ℤ value (pos (2 ^ (bits - 1)))
    then converted value (spaces + sign + digits)
    else out_of_range

-- `short menu_option_num = std::stoi(input)`
unfoldable pub menu_option : String → Option ℤ
menu_option input = elim (sto 32 (codes input)) [
  | invalid_argument ↦ none
  | out_of_range ↦ none
  | converted value _ ↦ some (to_int16 value)
]

-- `none`: no line is accepted, and the loop goes on for ever with empty lines.
unfoldable pub valid_menu_option_num_choice : ℤ → ℤ → List String → Option (ℤ × List String)
valid_menu_option_num_choice lower_bound upper_bound [] = none
valid_menu_option_num_choice lower_bound upper_bound (input ∷ rest) =
    let again = valid_menu_option_num_choice lower_bound upper_bound rest in
    elim (menu_option input) [
      | none ↦ again
      | some n ↦ if leb_ℤ lower_bound n && leb_ℤ n upper_bound then some (n, rest) else again
    ]

-- The input has no space, and at most MAX_AUTH_CHAR_LENGTH characters.
abbrev has_space : List ℕ → Bool
has_space [] = false
has_space (c ∷ cs) = eqb c 32 || has_space cs

unfoldable pub is_auth_input : String → Bool
is_auth_input input = not (has_space (codes input)) && leb (length (codes input)) 20

-- The empty line after the last one is accepted.
unfoldable pub get_valid_auth_input : List String → String × List String
get_valid_auth_input [] = ("", [])
get_valid_auth_input (input ∷ rest) =
    if is_auth_input input then (input, rest) else get_valid_auth_input rest

-- The three instances of the template.
pub data NumericType : Type 0 where
  int_type int64_type double_type : NumericType

-- A conversion that has to read the whole input.
abbrev whole : List ℕ → Conversion → Option ℤ
whole text (converted value read) = if eqb read (length text) then some value else none
whole text _ = none

-- `std::stod` is a parameter, `none` when it throws or returns a value that is not finite.
unfoldable pub convert : (String → Option ℤ) → NumericType → String → Option ℤ
convert stod int_type input = whole (codes input) (sto 32 (codes input))
convert stod int64_type input = whole (codes input) (sto 64 (codes input))
convert stod double_type input = stod input

-- `none`: as in valid_menu_option_num_choice.
unfoldable pub get_valid_numeric_input :
    (String → Option ℤ) → NumericType → ℤ → ℤ → List String → Option (ℤ × List String)
get_valid_numeric_input stod type min_value max_value [] = none
get_valid_numeric_input stod type min_value max_value (input ∷ rest) =
    let again = get_valid_numeric_input stod type min_value max_value rest in
    elim (convert stod type input) [
      | none ↦ again
      | some value ↦
          if leb_ℤ min_value value && leb_ℤ value max_value then some (value, rest) else again
    ]
