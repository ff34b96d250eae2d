-- ===== src/Client/Reading.antt =====
-- The loops that read a number: which line they accept.
use mathlib.Core.Path.{subst}
use mathlib.Core.Option.{some-injective}
use stock_app.Common.{
  ◌≡◌, ◌⊎◌, ◌<◌, inl, inr, refl, sym, ◌∙◌, ap, Bool, false, ◌&&◌, Option, none, some, String, List,
  [], ◌∷◌, ◌++◌, length, length-append, All, arith, Bool-cases, Option-cases, if◌then◌else◌,
}
use stock_app.Common.Int.{ℤ, ◌≤ℤ◌}
use stock_app.Client.Numbers.{
  leb_ℤ, NumericType, menu_option, valid_menu_option_num_choice, convert, get_valid_numeric_input,
}

module _ (read : String → Option ℤ) (low high : ℤ) where
  abbrev in_range : Option ℤ → Bool
  in_range none = false
  in_range (some v) = leb_ℤ low v && leb_ℤ v high

  -- The line is not a number, or one that is out of the bounds.
  abbrev pub Rejected : String → Type 0
  Rejected line = in_range (read line) ≡ false

  -- The lines before it are rejected, the line has this value, and the others follow it.
  pub record FirstAccepted (lines : List String) (v : ℤ) (rest : List String) : Type 0 where
    pub before : List String
    pub line : String
    pub split : lines ≡ before ++ line ∷ rest
    pub all_rejected : All Rejected before
    pub value : read line ≡ some v
    pub at_least : low ≤ℤ v
    pub at_most : v ≤ℤ high

  abbrev pub Outcomes : List String → Option (ℤ × List String) → Type 0
  Outcomes lines r =
      ((r ≡ none) × All Rejected lines)
      ⊎ ((v : ℤ) × (rest : List String) × (r ≡ some (v, rest)) × FirstAccepted lines v rest)

  -- Both loops, and what each makes of a line.
  abbrev scan_line : String → List String → Option (ℤ × List String) → Option (ℤ × List String)
  scan_line line rest again = elim (read line) [
    | none ↦ again
    | some v ↦ if leb_ℤ low v && leb_ℤ v high then some (v, rest) else again
  ]

  abbrev scan : List String → Option (ℤ × List String)
  scan [] = none
  scan (line ∷ rest) = scan_line line rest (scan rest)

  -- A line that is rejected is passed over.
  pass_over :
      (line : String) (rest : List String) (r : Option (ℤ × List String))
      → Rejected line
      → Outcomes rest r
      → Outcomes (line ∷ rest) r
  pass_over line rest r h (inl (e, all)) = inl (e, (h, all))
  pass_over line rest r h (inr (v, left, e, f)) = inr (
    v,
    left,
    e,
    record {
      before = line ∷ f.before;
      line = f.line;
      split = ap (λ l. line ∷ l) f.split;
      all_rejected = (h, f.all_rejected);
      value = f.value;
      at_least = f.at_least;
      at_most = f.at_most;
    },
  )

  pub scan_lem : (lines : List String) → Outcomes lines (scan lines)
  scan_lem [] = inl (refl, tt)
  scan_lem (line ∷ rest) =
      let go : Rejected line
          → scan (line ∷ rest) ≡ scan rest
          → Outcomes (line ∷ rest) (scan (line ∷ rest)) =
        λ h e.
          subst (Outcomes (line ∷ rest)) (sym e)
            (pass_over line rest (scan rest) h (scan_lem rest)) in
      elim (Option-cases (read line)) [
        | inl e ↦ go (rw e refl) (rw (scan_line, e) refl)
        | inr (v, e) ↦ elim (Bool-cases (leb_ℤ low v && leb_ℤ v high)) [
          | inl b ↦ inr (
            v,
            rest,
            rw (scan_line, e, b) refl,
            record {
              before = [];
              line = line;
              split = refl;
              all_rejected = tt;
              value = e;
              at_least = ground arith;
              at_most = ground arith;
            },
          )
          | inr b ↦ go (rw e b) (rw (scan_line, e, b) refl)
        ]
      ]

choice-scan :
    (low high : ℤ) (lines : List String)
    → valid_menu_option_num_choice low high lines ≡ scan menu_option low high lines
unfolding valid_menu_option_num_choice
choice-scan low high [] = refl
choice-scan low high (line ∷ rest) =
    ap (scan_line menu_option low high line rest) (choice-scan low high rest)

numeric-scan :
    (stod : String → Option ℤ) (type : NumericType) (low high : ℤ) (lines : List String)
    → get_valid_numeric_input stod type low high lines ≡ scan (convert stod type) low high lines
unfolding get_valid_numeric_input
numeric-scan stod type low high [] = refl
numeric-scan stod type low high (line ∷ rest) =
    ap (scan_line (convert stod type) low high line rest) (numeric-scan stod type low high rest)

-- valid_menu_option_num_choice and get_valid_numeric_input return the value of the first line that
-- their conversion makes a number within the bounds, and leave the lines after it; only when no line
-- is such do they never return.
pub inputs_lem :
    (low high : ℤ) (lines : List String)
    → Outcomes menu_option low high lines (valid_menu_option_num_choice low high lines)
      × ((stod : String → Option ℤ) (type : NumericType)
          → Outcomes
              (convert stod type)
              low
              high
              lines
              (get_valid_numeric_input stod type low high lines))
inputs_lem low high lines = (
  subst (Outcomes menu_option low high lines) (sym (choice-scan low high lines))
      (scan_lem menu_option low high lines),
  λ stod type.
      subst (Outcomes (convert stod type) low high lines)
        (sym (numeric-scan stod type low high lines)) (scan_lem (convert stod type) low high lines),
)

-- A loop that returns has read a line.
pub reads_line :
    (read : String → Option ℤ) (low high : ℤ) (lines rest : List String) (v : ℤ)
    (r : Option (ℤ × List String))
    → Outcomes read low high lines r
    → r ≡ some (v, rest)
    → length rest < length lines
reads_line read low high lines rest v r (inl (e, _)) h = absurd (ground (arith, e, h))
reads_line read low high lines rest v r (inr (u, left, e, f)) h =
    subst (λ (p : ℤ × List String). length p.1 < length lines) (some-injective _ _ (sym e ∙ h))
      (rw (f.split, length-append f.before (f.line ∷ left)) (omega arith))
