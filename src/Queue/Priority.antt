-- ===== src/Queue/Priority.antt =====
-- The contract of std::priority_queue over a comparator: `cmp a b` says that `a` comes out after `b`.
use mathlib.Core.List.{Permᴰ}
use stock_app.Common.{◌≡◌, Bool, true, false, Option, none, some, List, [], ◌∷◌, All}

-- What the comparator must satisfy on the elements that meet `P` (the named requirement Compare).
pub record IsStrictWeak {A : Type 0} (cmp : A → A → Bool) (P : A → Type 0) : Type 0 where
  pub asym : (a b : A) → P a → P b → cmp a b ≡ true → cmp b a ≡ false
  pub neg_trans :
      (a b c : A) → P a → P b → P c → cmp a b ≡ false → cmp b c ≡ false → cmp a c ≡ false

-- `pop` is `top()` followed by `pop()`; `none` is `empty()`. Which of several elements that the
-- comparator does not tell apart comes first is left open.
pub record PriorityQueue {A : Type 0} (cmp : A → A → Bool) : Type 1 where
  pub Queue : Type 0
  pub empty : Queue
  pub push : A → Queue → Queue
  pub pop : Queue → Option (A × Queue)
  pub contents : Queue → List A
  pub contents-empty : contents empty ≡ []
  pub contents-push : (x : A) (q : Queue) → Permᴰ (contents (push x q)) (x ∷ contents q)
  pub pop_none : (q : Queue) → pop q ≡ none → contents q ≡ []
  pub pop_some :
      (q : Queue) (x : A) (r : Queue) → pop q ≡ some (x, r) → Permᴰ (contents q) (x ∷ contents r)
  pub pop_best :
      (P : A → Type 0) (q : Queue) (x : A) (r : Queue)
      → IsStrictWeak cmp P
      → All P (contents q)
      → pop q ≡ some (x, r)
      → All (λ y. cmp x y ≡ false) (contents r)
