-- ===== src/Postgres/Mirror.antt =====
-- The table clients_balances as the stored view of the balances in memory.
use mathlib.Core.Path.{subst}
use stock_app.Common.{
  ◌≡◌, ◌≢◌, ◌⊎◌, inl, inr, refl, sym, ◌∙◌, false, Option, none, some, String, List, [], ◌∷◌, ◌++◌,
  arith, Bool-cases, Option-cases, if◌then◌else◌,
}
use stock_app.Common.Int.{ℤ}
use stock_app.Common.Equality.{username_key, ◌==◌, ==_ne, same_or_other}
use stock_app.Common.Map.{Map, find, assign, find-assign_ne}
use stock_app.Double.{Double, of_int}
use stock_app.Proto.{AccountBalance, ClientBalance}
use stock_app.Platform.{Platform}
use stock_app.ClientDataManager.State.{ClientDataManager, Test, ◌and_then◌, after_test-rule}
use stock_app.ClientDataManager.Balances.{
  WalletType, rub, usd, ChangeBalanceType, increase, decrease, adjust, change_client_balance,
  change_four_balances,
}
use stock_app.ClientDataManager.Transfer.{change_known}
use stock_app.Postgres.Methods.{update_balances}

-- The balance that the table has for a client: that of the client's first row.
unfoldable pub balance_in : String → List ClientBalance → Option AccountBalance
balance_in client [] = none
balance_in client (row ∷ rows) =
    if row.username == client then some row.funds else balance_in client rows

pub balance_in-update_ne :
    (r : ClientBalance) (client : String) (rows : List ClientBalance)
    → r.username ≢ client
    → balance_in client (update_balances r rows) ≡ balance_in client rows
unfolding balance_in update_balances
balance_in-update_ne r client [] ne = refl
balance_in-update_ne r client (row ∷ rows) ne =
    let ih = balance_in-update_ne r client rows ne in
    elim (Bool-cases (row.username == r.username)) [
      | inl e ↦
          let here = (username_key.same_iff row.username r.username).0 e in
          rw (e, ih, here, ==_ne r.username client ne) refl
      | inr e ↦ rw (e, ih) refl
    ]

pub balance_in-update_self :
    (r : ClientBalance) (rows : List ClientBalance) {found : AccountBalance}
    → balance_in r.username rows ≡ some found
    → balance_in r.username (update_balances r rows) ≡ some r.funds
unfolding balance_in update_balances
balance_in-update_self r [] h = cc
balance_in-update_self r (row ∷ rows) {found} h = elim (Bool-cases (row.username == r.username)) [
  | inl e ↦ rw (e, e) refl
  | inr e ↦
      let rest : balance_in r.username rows ≡ some found = ground arith in
      rw (e, e) (balance_in-update_self r rows rest)
]

-- A client who has a row keeps one.
pub balance_in-update_kept :
    (r : ClientBalance) (client : String) (rows : List ClientBalance) {found : AccountBalance}
    → balance_in client rows ≡ some found
    → (now : AccountBalance) × (balance_in client (update_balances r rows) ≡ some now)
balance_in-update_kept r client rows {found} h = elim (same_or_other r.username client) [
  | inl same ↦ (
    r.funds,
    subst (λ c. balance_in c (update_balances r rows) ≡ some r.funds) same
        (balance_in-update_self r rows (subst (λ c. balance_in c rows ≡ some found) (sym same) h)),
  )
  | inr other ↦ (found, balance_in-update_ne r client rows other ∙ h)
]

pub balance_in-update_none :
    (r : ClientBalance) (client : String) (rows : List ClientBalance)
    → balance_in client rows ≡ none
    → balance_in client (update_balances r rows) ≡ none
unfolding balance_in update_balances
balance_in-update_none r client [] h = refl
balance_in-update_none r client (row ∷ rows) h =
    ground (arith, balance_in-update_none r client rows)

-- A last row counts for a client who has none before it, and for nobody else.
pub balance_in-append :
    (r : ClientBalance) (client : String) (rows : List ClientBalance)
    → balance_in client (rows ++ r ∷ []) ≡ elim (balance_in client rows) [
      | none ↦ if r.username == client then some r.funds else none
      | some found ↦ some found
    ]
unfolding balance_in
balance_in-append r client [] = refl
balance_in-append r client (row ∷ rows) = elim (Bool-cases (row.username == client)) [
  | inl e ↦ rw e refl
  | inr e ↦ rw e (balance_in-append r client rows)
]

module _ {p : Platform} (s b : String) (m : ClientDataManager p) where
  -- What the changes of a match between two clients do, whether all are made or not.
  pub record Changed (m' : ClientDataManager p) : Type 0 where
    pub same_db : m'.db ≡ m.db
    pub others_same :
        (c : String) → s ≢ c → b ≢ c → find c m'.clients_funds_data ≡ find c m.clients_funds_data
    pub was_known :
        (c : String) → find c m.clients_funds_data ≡ none → find c m'.clients_funds_data ≡ none

  change_unknown :
      (client : String) (kind : ChangeBalanceType) (wallet : WalletType) (x : Double)
      (m' : ClientDataManager p)
      → find client m'.clients_funds_data ≡ none
      → change_client_balance client kind wallet x m' ≡ (false, m')
  unfolding change_client_balance
  change_unknown client kind wallet x m' e = rw (change_client_balance, e) refl

  assign-Changed :
      (client : String) (a a' : AccountBalance) (m' : ClientDataManager p)
      → (client ≡ s) ⊎ (client ≡ b)
      → find client m'.clients_funds_data ≡ some a
      → Changed m'
      → Changed (record m' { clients_funds_data = assign client a' m'.clients_funds_data })
  assign-Changed client a a' m' who e k =
      let f = m'.clients_funds_data in
      record {
        same_db = k.same_db;
        others_same = λ c ns nb.
            let other : client ≢ c =
              λ q. elim who [ inl w ↦ ns (sym w ∙ q) | inr w ↦ nb (sym w ∙ q) ] in
            find-assign_ne client c a' f other ∙ k.others_same c ns nb;
        was_known = λ c h.
            let gone = k.was_known c h in
            let other : client ≢ c =
              λ q. ground (arith, e, subst (λ d. find d f ≡ none) (sym q) gone) in
            find-assign_ne client c a' f other ∙ gone;
      }

  change-Changed :
      (client : String) (kind : ChangeBalanceType) (wallet : WalletType) (x : Double)
      (m' : ClientDataManager p)
      → (client ≡ s) ⊎ (client ≡ b)
      → Changed m'
      → Changed (change_client_balance client kind wallet x m').1
  change-Changed client kind wallet x m' who k =
      elim (Option-cases (find client m'.clients_funds_data)) [
        | inl e ↦ subst (λ r. Changed r.1) (sym (change_unknown client kind wallet x m' e)) k
        | inr (a, e) ↦
            subst (λ r. Changed r.1) (sym (change_known client kind wallet x a m' e))
              (assign-Changed client a (adjust kind wallet x a) m' who e k)
      ]

  abbrev Keeps : Test p → Type 0
  Keeps f = (m' : ClientDataManager p) → Changed m' → Changed (f m').1

  and_then-Keeps : (f g : Test p) → Keeps f → Keeps g → Keeps (f and_then g)
  and_then-Keeps f g kf kg m' k = after_test-rule Changed (f m') g (kf m' k) (λ k'. kg (f m').1 k')

  pub change_four-Changed :
      (amount : ℤ) (cost : Double) → Changed (change_four_balances s b amount cost m).1
  unfolding change_four_balances
  change_four-Changed amount cost =
      let one = change_client_balance s decrease usd (of_int amount) in
      let two = change_client_balance s increase rub cost in
      let three = change_client_balance b increase usd (of_int amount) in
      let four = change_client_balance b decrease rub cost in
      and_then-Keeps one (two and_then three and_then four)
        (λ m'. change-Changed s decrease usd (of_int amount) m' (inl refl))
        (and_then-Keeps two (three and_then four)
          (λ m'. change-Changed s increase rub cost m' (inl refl))
          (and_then-Keeps three four
            (λ m'. change-Changed b increase usd (of_int amount) m' (inr refl))
            (λ m'. change-Changed b decrease rub cost m' (inr refl))))
        m (record { same_db = refl; others_same = λ c _ _. refl; was_known = λ c h. h })

module _ (s b : String) (x y : AccountBalance) (rows : List ClientBalance) where
  -- The rows after the two saves.
  abbrev pub first_saved : List ClientBalance
  first_saved = update_balances (record { username = s; funds = x }) rows

  abbrev pub both_saved : List ClientBalance
  both_saved = update_balances (record { username = b; funds = y }) first_saved

  -- Both clients had a row, and `f'` differs from the rows at the two clients only.
  pub both_saved-mirrors :
      {u v : AccountBalance} (f' : Map String AccountBalance) (c : String)
      → balance_in s rows ≡ some u
      → balance_in b rows ≡ some v
      → find s f' ≡ some x
      → find b f' ≡ some y
      → (s ≢ c → b ≢ c → find c f' ≡ balance_in c rows)
      → balance_in c both_saved ≡ find c f'
  both_saved-mirrors f' c rs rb es eb others =
      let at_b : balance_in b both_saved ≡ find b f' =
        let (w, kept) = balance_in-update_kept (record { username = s; funds = x }) b rows rb in
        balance_in-update_self (record { username = b; funds = y }) first_saved kept ∙ sym eb in
      let skip_b : b ≢ c → balance_in c both_saved ≡ balance_in c first_saved =
        balance_in-update_ne (record { username = b; funds = y }) c first_saved in
      elim (same_or_other b c) [
        | inl same ↦ subst (λ d. balance_in d both_saved ≡ find d f') same at_b
        | inr nb ↦ elim (same_or_other s c) [
          | inl same ↦
              let at_s : b ≢ s → balance_in s both_saved ≡ find s f' = λ ne.
                balance_in-update_ne (record { username = b; funds = y }) s first_saved ne
                ∙ balance_in-update_self (record { username = s; funds = x }) rows rs
                ∙ sym es in
              subst (λ d. balance_in d both_saved ≡ find d f') same (at_s (λ q. nb (q ∙ same)))
          | inr ns ↦
              skip_b nb
              ∙ balance_in-update_ne (record { username = s; funds = x }) c rows ns
              ∙ sym (others ns nb)
        ]
      ]
