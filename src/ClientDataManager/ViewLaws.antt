-- ===== src/ClientDataManager/ViewLaws.antt =====
-- get_last_completed_oreders shows every completed order once, in the list of its type.
use mathlib.Core.List.{Permᴰ}
use mathlib.Core.List.Permᴰ
use stock_app.Common.{◌≡◌, refl, List, [], ◌∷◌, ◌++◌, All}
use stock_app.Proto.{TradeType, buy, sell, TradeOrder, CompletedOrders}
use stock_app.Platform.{Platform}
use stock_app.ClientDataManager.State.{ClientDataManager}
use stock_app.ClientDataManager.Views.{sort_by_type, get_last_completed_orders}

-- What the two lists of a response are to the orders that they were made of.
pub record IsSorted (orders buys sells : List TradeOrder) : Type 0 where
  pub is_all : Permᴰ (buys ++ sells) orders
  pub is_buys : All (λ o. o.type ≡ buy) buys
  pub is_sells : All (λ o. o.type ≡ sell) sells

abbrev SortedWith : TradeType → TradeOrder → List TradeOrder → Type 0
SortedWith t o rest =
    let shown = sort_by_type rest in
    let added : CompletedOrders = elim t [
      | buy ↦ record shown { completed_buy_orders = o ∷ shown.completed_buy_orders }
      | sell ↦ record shown { completed_sell_orders = o ∷ shown.completed_sell_orders }
    ] in
    IsSorted (o ∷ rest) added.completed_buy_orders added.completed_sell_orders

add-IsSorted :
    (t : TradeType) (o : TradeOrder) (rest : List TradeOrder)
    → o.type ≡ t
    → IsSorted rest
        (sort_by_type rest).completed_buy_orders
        (sort_by_type rest).completed_sell_orders
    → SortedWith t o rest
add-IsSorted buy o rest e h = record {
  is_all = Permᴰ.cons refl h.is_all;
  is_buys = (e, h.is_buys);
  is_sells = h.is_sells;
}
add-IsSorted sell o rest e h = record {
  is_all = Permᴰ.trans (Permᴰ.middle o _ _) (Permᴰ.cons refl h.is_all);
  is_buys = h.is_buys;
  is_sells = (e, h.is_sells);
}

sort_by_type-IsSorted :
    (orders : List TradeOrder)
    → IsSorted orders
        (sort_by_type orders).completed_buy_orders
        (sort_by_type orders).completed_sell_orders
unfolding sort_by_type
sort_by_type-IsSorted [] = record { is_all = Permᴰ.nil; is_buys = tt; is_sells = tt }
sort_by_type-IsSorted (o ∷ rest) = add-IsSorted o.type o rest refl (sort_by_type-IsSorted rest)

-- get_last_completed_oreders shows every completed order exactly once: the buy orders in the one list
-- and the sell orders in the other.
pub get_last_completed_orders-IsSorted :
    {p : Platform} (m : ClientDataManager p)
    → IsSorted m.completed_orders
        (get_last_completed_orders m).completed_buy_orders
        (get_last_completed_orders m).completed_sell_orders
unfolding get_last_completed_orders
get_last_completed_orders-IsSorted m = sort_by_type-IsSorted m.completed_orders
