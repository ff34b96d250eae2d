-- ===== src/Queue/Selection.antt =====
-- A priority queue that meets the contract: an unordered list, from which `pop` selects a greatest
-- element.
use mathlib.Core.List.{Permᴰ}
use mathlib.Core.List.Permᴰ
use mathlib.Core.Path.{subst}
use mathlib.Core.Option.{some-injective}
use stock_app.Common.{
  ◌≡◌, refl, inl, inr, Bool, true, false, Option, none, some, List, [], ◌∷◌, All, All-perm,
  Bool-cases, if◌then◌else◌,
}
use stock_app.Queue.Priority.{IsStrictWeak, PriorityQueue}

module _ {A : Type 0} (cmp : A → A → Bool) where
  -- The greatest of an element and a list, and what is left.
  select : A → List A → A × List A
  select b [] = (b, [])
  select b (y ∷ ys) =
      let (m, rest) = select (if cmp b y then y else b) ys in (m, (if cmp b y then b else y) ∷ rest)

  select-perm : (b : A) (ys : List A) → Permᴰ (b ∷ ys) ((select b ys).0 ∷ (select b ys).1)
  unfolding select
  select-perm b [] = Permᴰ.refl (b ∷ [])
  select-perm b (y ∷ ys) = elim (Bool-cases (cmp b y)) [
    | inl e ↦ rw e (Permᴰ.trans (Permᴰ.cons refl (select-perm y ys)) (Permᴰ.swap refl refl))
    | inr e ↦ rw e (
        Permᴰ.trans (Permᴰ.swap refl refl)
          (Permᴰ.trans (Permᴰ.cons refl (select-perm b ys)) (Permᴰ.swap refl refl)))
  ]

  module _ (P : A → Type 0) (sw : IsStrictWeak cmp P) where
    irrefl : (a : A) → P a → cmp a a ≡ false
    irrefl a pa = elim (Bool-cases (cmp a a)) [ inl e ↦ sw.asym a a pa pa e | inr e ↦ e ]

    -- Both of two elements come out after what the greater of them comes out after.
    after_both :
        (c : Bool) (m b y : A)
        → cmp b y ≡ c
        → P m
        → P b
        → P y
        → cmp m (if c then y else b) ≡ false
        → (cmp m b ≡ false) × (cmp m y ≡ false)
    after_both true m b y e pm pb py h = (sw.neg_trans m y b pm py pb h (sw.asym b y pb py e), h)
    after_both false m b y e pm pb py h = (h, sw.neg_trans m b y pm pb py h e)

    greater : (c : Bool) (b y : A) → P b → P y → P (if c then y else b)
    greater true b y pb py = py
    greater false b y pb py = pb

    -- The selected element is no lesser than any.
    select-best :
        (b : A) (ys : List A)
        → P b
        → All P ys
        → P (select b ys).0 × All (λ z. cmp (select b ys).0 z ≡ false) (b ∷ ys)
    unfolding select
    select-best b [] pb ps = (pb, (irrefl b pb, tt))
    select-best b (y ∷ ys) pb ps =
        let best = select-best (if cmp b y then y else b) ys (greater (cmp b y) b y pb ps.0) ps.1 in
        let both = after_both (cmp b y) _ b y refl best.0 pb ps.0 best.1.0 in
        (best.0, (both.0, (both.1, best.1.1)))

  unfoldable pub take_best : List A → Option (A × List A)
  unfolding select
  take_best [] = none
  take_best (x ∷ xs) = some (select x xs)

  pub take_best-none : (q : List A) → take_best q ≡ none → q ≡ []
  unfolding take_best
  take_best-none [] h = refl
  take_best-none (x ∷ xs) h = cc

  pub take_best-some :
      (q : List A) (x : A) (r : List A) → take_best q ≡ some (x, r) → Permᴰ q (x ∷ r)
  unfolding take_best
  take_best-some [] x r h = cc
  take_best-some (y ∷ ys) x r h =
      subst (λ t. Permᴰ (y ∷ ys) (t.0 ∷ t.1)) (some-injective _ _ h) (select-perm y ys)

  pub take_best-best :
      (P : A → Type 0) (q : List A) (x : A) (r : List A)
      → IsStrictWeak cmp P
      → All P q
      → take_best q ≡ some (x, r)
      → All (λ y. cmp x y ≡ false) r
  unfolding take_best
  take_best-best P [] x r sw ps h = cc
  take_best-best P (y ∷ ys) x r sw ps h =
      subst (λ t. All (λ z. cmp t.0 z ≡ false) t.1) (some-injective _ _ h)
        (All-perm _ (select-perm y ys) (select-best P sw y ys ps.0 ps.1).1).1

  unfoldable pub selection_queue : PriorityQueue cmp
  unfolding take_best
  selection_queue = record {
    Queue = List A;
    empty = [];
    push = λ x q. x ∷ q;
    pop = take_best;
    contents = λ q. q;
    contents-empty = refl;
    contents-push = λ x q. Permᴰ.refl (x ∷ q);
    pop_none = take_best-none;
    pop_some = take_best-some;
    pop_best = take_best-best;
  }
