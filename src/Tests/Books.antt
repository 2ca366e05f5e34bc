-- ===== src/Tests/Books.antt =====
-- The theorems on books and levels, at small books.
use pe_exchange.Common.{◌≡◌, refl, true, false, [], ◌∷◌, arith}
use pe_exchange.Types.{Order, PrintedOrder}
use pe_exchange.Orderbook.Levels.Shows.{IsOrder, Shows, Shows-add, Shows-remove}
use pe_exchange.Orderbook.Levels.{add_to_levels, count_levels, delete_from}
use pe_exchange.Orderbook.Levels.Remove.{deduct_level, delete_from_lem}
use pe_exchange.Orderbook.Orders.{find_order, best_sell_in, best_buy_in}
use pe_exchange.Orderbook.Orders.BestSell.{ChosenSell, best_sell_in-ChosenSell}
use pe_exchange.Orderbook.Orders.BestBuy.{ChosenBuy, best_buy_in-ChosenBuy}
use pe_exchange.Orderbook.Orders.Find.{FindsNamed, find_order-FindsNamed}
use pe_exchange.Tests.State.{order, sell_five, buy_eight, sell_five-IsOrder, resting}

best_sell_in-ChosenSell_example :
    ChosenSell
      (order false 1 9 0 ∷ sell_five ∷ order false 2 9 1 ∷ [])
      12
      (best_sell_in (order false 1 9 0 ∷ sell_five ∷ order false 2 9 1 ∷ []) 12)
best_sell_in-ChosenSell_example =
    best_sell_in-ChosenSell (order false 1 9 0 ∷ sell_five ∷ order false 2 9 1 ∷ []) 12

best_buy_in-ChosenBuy_example :
    ChosenBuy
      (order true 1 9 0 ∷ buy_eight ∷ order true 2 12 1 ∷ [])
      10
      (best_buy_in (order true 1 9 0 ∷ buy_eight ∷ order true 2 12 1 ∷ []) 10)
best_buy_in-ChosenBuy_example =
    best_buy_in-ChosenBuy (order true 1 9 0 ∷ buy_eight ∷ order true 2 12 1 ∷ []) 10 (omega arith)

find_order-FindsNamed_example :
    FindsNamed 0 0 resting.buy_orders resting.sell_orders 2
      (find_order 2 0 0 resting.buy_orders resting.sell_orders)
find_order-FindsNamed_example = find_order-FindsNamed 0 0 resting.buy_orders resting.sell_orders 2

-- Levels that show a book of one sell order, and the book with another at its price.
abbrev level_five : PrintedOrder
level_five = record { quantity = 5; price = 10; num_orders = 1 }

level-Shows : Shows (level_five ∷ []) 1 (sell_five ∷ [])
level-Shows = record {
  below = (omega arith, tt);
  held = (omega arith, tt);
  stored = refl;
  quantities = λ p. refl;
  orders = λ p. refl;
}

abbrev sell_seven : Order
sell_seven = order false 7 10 1

sell_seven-IsOrder : IsOrder sell_seven
sell_seven-IsOrder = record {
  quantity_pos = omega arith;
  quantity_max = omega arith;
  price_pos = omega arith;
  price_max = omega arith;
}

Shows-add_example :
    Shows
      (add_to_levels (level_five ∷ []) sell_seven)
      (count_levels (add_to_levels (level_five ∷ []) sell_seven) 0)
      (sell_five ∷ sell_seven ∷ [])
Shows-add_example =
    Shows-add (level_five ∷ []) 1 (sell_five ∷ []) sell_seven level-Shows (sell_five-IsOrder, tt)
      sell_seven-IsOrder (omega arith)

Shows-remove_example :
    Shows
      (delete_from (level_five ∷ []) 1 0 (level_five ∷ []) sell_five)
      (count_levels (delete_from (level_five ∷ []) 1 0 (level_five ∷ []) sell_five) 0)
      []
Shows-remove_example =
    Shows-remove (level_five ∷ []) 1 (sell_five ∷ []) 0 sell_five level-Shows
      (sell_five-IsOrder, tt) refl (omega arith)

delete_from_lem_example :
    delete_from (level_five ∷ []) 1 0 (level_five ∷ []) sell_five
    ≡ deduct_level (level_five ∷ []) sell_five
delete_from_lem_example = delete_from_lem (level_five ∷ []) sell_five 1 tt refl
