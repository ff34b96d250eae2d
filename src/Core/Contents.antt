-- ===== src/Core/Contents.antt =====
-- What holds of every order of a book, under the operations of the book.
use mathlib.Core.List.Permᴰ
use stock_app.Common.{◌≡◌, inl, inr, Bool, some, All, All-perm, Bool-cases}
use stock_app.Common.Int.{pos, ltb_ℤ}
use stock_app.Proto.{TradeOrder}
use stock_app.Queue.{PriorityQueue}
use stock_app.Core.Match.{push_if_left}

module _ {ℓ} {cmp : TradeOrder → TradeOrder → Bool} (book : PriorityQueue cmp)
    (P : TradeOrder → Type ℓ) where
  pub All-push :
      (o : TradeOrder) (q : book.Queue)
      → P o
      → All P (book.contents q)
      → All P (book.contents (book.push o q))
  All-push o q po pq = All-perm P (Permᴰ.symm (book.contents-push o q)) (po, pq)

  pub All-push_if_left :
      (o : TradeOrder) (q : book.Queue)
      → P o
      → All P (book.contents q)
      → All P (book.contents (push_if_left book o q))
  unfolding push_if_left
  All-push_if_left o q po pq = elim (Bool-cases (ltb_ℤ (pos 0) o.usd_amount)) [
    | inl e ↦ rw e (All-push o q po pq)
    | inr e ↦ rw e pq
  ]

  -- The order taken out, and the ones that stay.
  pub All-pop :
      (q : book.Queue) (o : TradeOrder) (r : book.Queue)
      → book.pop q ≡ some (o, r)
      → All P (book.contents q)
      → P o × All P (book.contents r)
  All-pop q o r e h = All-perm P (book.pop_some q o r e) h
