-- ===== src/Core/RemovalLaws.antt =====
-- Removing an id from a book takes out exactly the orders with that id.
use mathlib.Core.List.{Permᴰ}
use mathlib.Core.List.Permᴰ
use mathlib.Core.Path.{subst}
use mathlib.Core.List.{append-nil}
use stock_app.Common.{
  ℕ, zero, suc, ◌≤◌, ◌≡◌, refl, ◌∙◌, Bool, true, false, ◌||◌, List, [], ◌∷◌, ◌++◌, length,
  length-perm, nil_of_length, arith, if◌then◌else◌, Bool-cases, Option-cases, inl, inr,
}
use stock_app.Common.Int.{ℤ, eqb_ℤ}
use stock_app.Proto.{TradeOrder}
use stock_app.Queue.{PriorityQueue}
use stock_app.Core.Removal.{remove_loop, remove_from_queue}

-- The orders with other ids, and whether there is one with this id.
unfoldable pub without : ℤ → List TradeOrder → List TradeOrder
without id [] = []
without id (x ∷ xs) = if eqb_ℤ x.order_id id then without id xs else x ∷ without id xs

unfoldable pub has : ℤ → List TradeOrder → Bool
has id [] = false
has id (x ∷ xs) = eqb_ℤ x.order_id id || has id xs

without-cons :
    (id : ℤ) (xs ys : List TradeOrder) {x y : TradeOrder}
    → x ≡ y
    → Permᴰ (without id xs) (without id ys)
    → Permᴰ (without id (x ∷ xs)) (without id (y ∷ ys))
unfolding without
without-cons id xs ys {x} {y} e p =
    subst (λ z. Permᴰ (without id (x ∷ xs)) (without id (z ∷ ys))) e
      (elim (Bool-cases (eqb_ℤ x.order_id id)) [
        | inl same ↦ rw same p
        | inr other ↦ rw other (Permᴰ.cons refl p)
      ])

without-swap :
    (id : ℤ) (x y : TradeOrder) (l : List TradeOrder)
    → Permᴰ (without id (x ∷ y ∷ l)) (without id (y ∷ x ∷ l))
unfolding without
without-swap id x y l = elim (Bool-cases (eqb_ℤ x.order_id id)) [
  | inl e ↦ rw e (Permᴰ.refl _)
  | inr e ↦ elim (Bool-cases (eqb_ℤ y.order_id id)) [
    | inl f ↦ rw (e, f) (Permᴰ.refl _)
    | inr f ↦ rw (e, f) (Permᴰ.swap refl refl)
  ]
]

pub without-perm :
    (id : ℤ) {xs ys : List TradeOrder} → Permᴰ xs ys → Permᴰ (without id xs) (without id ys)
unfolding without
without-perm id Permᴰ.nil = Permᴰ.nil
without-perm id (Permᴰ.cons {l₁ = xs} {l₂ = ys} e p) = without-cons id xs ys e (without-perm id p)
without-perm id (Permᴰ.swap {a = x} {b = y} {a' = y'} {b' = x'} {l = l} e f) =
    Permᴰ.trans (without-swap id x y l)
      (without-cons id (x ∷ l) (x' ∷ l) f (without-cons id l l e (Permᴰ.refl (without id l))))
without-perm id (Permᴰ.trans p q) = Permᴰ.trans (without-perm id p) (without-perm id q)

or_swap : (a b c : Bool) → (a || (b || c)) ≡ (b || (a || c))
or_swap a b c = ground arith

or_true : (a : Bool) → (a || true) ≡ true
or_true true = refl
or_true false = refl

or_false : (a : Bool) → (a || false) ≡ a
or_false true = refl
or_false false = refl

pub has-perm : (id : ℤ) {xs ys : List TradeOrder} → Permᴰ xs ys → has id xs ≡ has id ys
unfolding has
has-perm id Permᴰ.nil = refl
has-perm id (Permᴰ.cons e p) = rw (e, has-perm id p)
has-perm id (Permᴰ.swap {a' = x} {b' = y} {l = l} e f) =
    rw (e, f) (or_swap (eqb_ℤ y.order_id id) (eqb_ℤ x.order_id id) (has id l))
has-perm id (Permᴰ.trans p q) = has-perm id p ∙ has-perm id q

-- Nothing goes if the id is not there.
pub without-absent : (id : ℤ) (l : List TradeOrder) → has id l ≡ false → without id l ≡ l
unfolding has without
without-absent id [] h = refl
without-absent id (x ∷ xs) h = ground (arith, without-absent id xs)

module _ {cmp : TradeOrder → TradeOrder → Bool} (book : PriorityQueue cmp) where
  -- What one pass of the loop, or all of it, has achieved: from `q` and `t` to `done`.
  Removed : ℤ → book.Queue → book.Queue → Bool → book.Queue × Bool → Type 0
  Removed id q t found done =
      Permᴰ (book.contents done.0) (without id (book.contents q) ++ book.contents t)
      × (done.1 ≡ (has id (book.contents q) || found))

  Removed-empty :
      (id : ℤ) (q t : book.Queue) (found : Bool)
      → book.contents q ≡ []
      → Removed id q t found (t, found)
  unfolding Removed without has
  Removed-empty id q t found e = rw e (Permᴰ.refl (book.contents t), refl)

  -- The order that is taken out has the id, or another one.
  Removed-same :
      (id : ℤ) (q r t : book.Queue) (found : Bool) (o : TradeOrder) (done : book.Queue × Bool)
      → Permᴰ (book.contents q) (o ∷ book.contents r)
      → eqb_ℤ o.order_id id ≡ true
      → Removed id r t true done
      → Removed id q t found done
  unfolding Removed without has
  Removed-same id q r t found o done p same h = (
    Permᴰ.trans h.0
        (Permᴰ.append_right (book.contents t) (Permᴰ.symm (rw same at (without-perm id p)))),
    rw (h.1, has-perm id p, same) (or_true (has id (book.contents r))),
  )

  Removed-other :
      (id : ℤ) (q r t : book.Queue) (found : Bool) (o : TradeOrder) (done : book.Queue × Bool)
      → Permᴰ (book.contents q) (o ∷ book.contents r)
      → eqb_ℤ o.order_id id ≡ false
      → Removed id r (book.push o t) found done
      → Removed id q t found done
  unfolding Removed without has
  Removed-other id q r t found o done p other h =
      let rest = without id (book.contents r) in
      (
        Permᴰ.trans h.0 (
            Permᴰ.trans (Permᴰ.append_left rest (book.contents-push o t)) (
              Permᴰ.trans (Permᴰ.middle o rest (book.contents t)) (
                Permᴰ.append_right (book.contents t)
                  (Permᴰ.symm (rw other at (without-perm id p)))))),
        rw (h.1, has-perm id p, other),
      )

  -- The loop moves what stays to the second queue, and remembers whether it dropped an order.
  remove_loop-Removed :
      (fuel : ℕ) (id : ℤ) (q t : book.Queue) (found : Bool)
      → length (book.contents q) ≤ fuel
      → Removed id q t found (remove_loop book fuel id q t found)
  unfolding remove_loop
  remove_loop-Removed zero id q t found h =
      Removed-empty id q t found (nil_of_length (book.contents q) h)
  remove_loop-Removed (suc fuel) id q t found h = elim (Option-cases (book.pop q)) [
    | inl e ↦ rw (e, remove_loop) (Removed-empty id q t found (book.pop_none q e))
    | inr (x, e) ↦
        let p = book.pop_some q x.0 x.1 e in
        let shorter : length (book.contents x.1) ≤ fuel = omega (arith, length-perm p) in
        elim (Bool-cases (eqb_ℤ x.0.order_id id)) [
          | inl same ↦
              rw (e, remove_loop, same)
                (Removed-same id q x.1 t found x.0 _ p same
                  (remove_loop-Removed fuel id x.1 t true shorter))
          | inr other ↦
              rw (e, remove_loop, other)
                (Removed-other id q x.1 t found x.0 _ p other
                  (remove_loop-Removed fuel id x.1 (book.push x.0 t) found shorter))
        ]
  ]

  -- remove_from_queue keeps exactly the orders with other ids, each as often, and returns whether
  -- there was an order with the id.
  pub remove_from_queue_lem :
      (q : book.Queue) (id : ℤ)
      → Permᴰ (book.contents (remove_from_queue book q id).0) (without id (book.contents q))
        × ((remove_from_queue book q id).1 ≡ has id (book.contents q))
  unfolding remove_from_queue Removed
  remove_from_queue_lem q id =
      let (p, e) =
        remove_loop-Removed (length (book.contents q)) id q book.empty false (omega arith) in
      (rw (book.contents-empty, append-nil) at p, e ∙ or_false (has id (book.contents q)))
