-- ===== src/Orderbook/Orders.antt =====
-- The books of pe_orderbook.c: adding, deleting and looking up orders. A book is the list of its
-- orders, oldest first, and a pointer to one of them is its position in that list.
pub mod BestSell
pub mod BestBuy
pub mod Find
use pe_exchange.Common.{
  ℕ, zero, suc, ◌+◌, Bool, true, false, List, [], ◌∷◌, ◌++◌, Option, none, some, ltb, leb, ◌==◌,
  ◌&&◌, if◌then◌else◌, get_or, erase_at, modify,
}
use pe_exchange.Types.{Order, Orderbook, Exchange}

unfoldable pub add_to_tail : Order → Orderbook → Orderbook
add_to_tail o list = list ++ (o ∷ [])

unfoldable pub add_order : Exchange → Order → Exchange
unfolding add_to_tail
add_order s o =
    if o.is_buy
    then record s { buy_orders = modify s.buy_orders o.product_id (add_to_tail o) }
    else record s { sell_orders = modify s.sell_orders o.product_id (add_to_tail o) }

-- The order at the position goes; `cancel_order` also frees it.
unfoldable pub delete_order : ℕ → Orderbook → Orderbook
delete_order i list = erase_at list i

unfoldable pub cancel_order : ℕ → Orderbook → Orderbook
unfolding delete_order
cancel_order i list = delete_order i list

-- A pointer to an order in the books: the book, the position, and what is found there.
pub record Found : Type 0 where
  pub is_buy : Bool
  pub product : ℕ
  pub position : ℕ
  pub order : Order

-- One of the two inner loops of `find_order`, from position `i` on.
unfoldable pub find_in : Orderbook → ℕ → ℕ → ℕ → Option (ℕ × Order)
find_in [] i trader_id id = none
find_in (o ∷ os) i trader_id id =
    let rest = find_in os (suc i) trader_id id in
    if o.order_id == id && o.trader_id == trader_id then some (i, o) else rest

-- What the two searches of product `i` come to: the buy order, else the sell order, else the
-- next products' result.
unfoldable pub found_in : ℕ → Option (ℕ × Order) → Option (ℕ × Order) → Option Found → Option Found
found_in i (some (k, o)) in_sells rest =
    some (record { is_buy = true; product = i; position = k; order = o })
found_in i none (some (k, o)) rest =
    some (record { is_buy = false; product = i; position = k; order = o })
found_in i none none rest = rest

-- The loop over products, with `n` of them left, the next at index `i`.
unfoldable pub find_order_from : ℕ → ℕ → ℕ → ℕ → List Orderbook → List Orderbook → Option Found
find_order_from zero i trader_id id buys sells = none
find_order_from (suc n) i trader_id id buys sells =
    found_in i (find_in (get_or buys i []) 0 trader_id id)
      (find_in (get_or sells i []) 0 trader_id id)
      (find_order_from n (suc i) trader_id id buys sells)

unfoldable pub find_order : ℕ → ℕ → ℕ → List Orderbook → List Orderbook → Option Found
unfolding find_order_from
find_order num_products trader_id id buys sells =
    find_order_from num_products 0 trader_id id buys sells

-- The loop of `find_best_sell` from position `i` on: the best order so far and its price.
unfoldable pub cheapest_from : Orderbook → ℕ → ℕ × Order → ℕ → (ℕ × Order) × ℕ
cheapest_from [] i best min_price = (best, min_price)
cheapest_from (o ∷ os) i best min_price =
    let better = ltb o.price min_price in
    cheapest_from os (suc i) (if better then (i, o) else best)
      (if better then o.price else min_price)

unfoldable pub best_sell_in : Orderbook → ℕ → Option (ℕ × Order)
unfolding cheapest_from
best_sell_in [] price = none
best_sell_in (o ∷ os) price =
    let (best, min_price) = cheapest_from (o ∷ os) 0 (0, o) o.price in
    if leb min_price price then some best else none

unfoldable pub find_best_sell : Order → List Orderbook → Option (ℕ × Order)
unfolding best_sell_in
find_best_sell buy sells = best_sell_in (get_or sells buy.product_id []) buy.price

-- The loop of `find_best_buy`.
unfoldable pub dearest_from : Orderbook → ℕ → Option (ℕ × Order) → ℕ → Option (ℕ × Order) × ℕ
dearest_from [] i best max_price = (best, max_price)
dearest_from (o ∷ os) i best max_price =
    let better = ltb max_price o.price in
    dearest_from os (suc i) (if better then some (i, o) else best)
      (if better then o.price else max_price)

unfoldable pub best_buy_in : Orderbook → ℕ → Option (ℕ × Order)
unfolding dearest_from
best_buy_in os price =
    let (best, max_price) = dearest_from os 0 none 0 in if leb price max_price then best else none

unfoldable pub find_best_buy : Order → List Orderbook → Option (ℕ × Order)
unfolding best_buy_in
find_best_buy sell buys = best_buy_in (get_or buys sell.product_id []) sell.price
