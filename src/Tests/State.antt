-- ===== src/Tests/State.antt =====
-- A small exchange for the tests: two traders, two products, and a sell order that rests.
use pe_exchange.Common.{
  ℕ, zero, suc, ◌+◌, ◌<◌, refl, Bool, true, false, List, [], ◌∷◌, arith, length, replicate, get_or,
  int_max,
}
use pe_exchange.Common.Text.{Bytes, codes}
use pe_exchange.Types.{Order, Trader, Exchange}
use pe_exchange.Setup.{initialise_trader, start_exchange}
use pe_exchange.Setup.Start.{start_exchange-IsValid}
use pe_exchange.Orderbook.Matching.{add_rest}
use pe_exchange.Orderbook.Invariant.Steps.{IsValid}
use pe_exchange.Orderbook.Invariant.Open.{Incoming}
use pe_exchange.Orderbook.Invariant.Place.{add_sell-IsValid}
use pe_exchange.Orderbook.Levels.Shows.{IsOrder, max_value}
use pe_exchange.Orderbook.Levels.Descending.{book_quantity}
use pe_exchange.Pipes.Messages.Keeps.{IsRoomy}

abbrev pub products : List Bytes
products = codes "GPU" ∷ codes "Router" ∷ []

abbrev pub traders : List Trader
traders = initialise_trader 0 5 6 1000 ∷ initialise_trader 1 7 8 1001 ∷ []

abbrev pub start : Exchange
start = start_exchange products traders

pub start-IsValid : IsValid 2 start
unfolding initialise_trader
start-IsValid = start_exchange-IsValid products traders (refl, (refl, tt))

-- `num` of product 0 at `price`.
abbrev pub order : Bool → ℕ → ℕ → ℕ → Order
order is_buy num price trader_id = record {
  product = codes "GPU";
  quantity = num;
  price = price;
  order_id = 0;
  product_id = 0;
  trader_id = trader_id;
  is_buy = is_buy;
}

abbrev pub sell_five : Order
sell_five = order false 5 10 0

abbrev pub buy_eight : Order
buy_eight = order true 8 12 1

pub sell_five-IsOrder : IsOrder sell_five
sell_five-IsOrder = record {
  quantity_pos = omega arith;
  quantity_max = omega arith;
  price_pos = omega arith;
  price_max = omega arith;
}

pub buy_eight-IsOrder : IsOrder buy_eight
buy_eight-IsOrder = record {
  quantity_pos = omega arith;
  quantity_max = omega arith;
  price_pos = omega arith;
  price_max = omega arith;
}

sell-Incoming : Incoming 2 (length start.trader_list) sell_five
unfolding start_exchange
sell-Incoming = record { product = omega arith; trader = omega arith; ranges = sell_five-IsOrder }

-- The exchange with the sell order in it.
abbrev pub resting : Exchange
resting = add_rest start sell_five

pub resting-IsValid : IsValid 2 resting
unfolding start_exchange
resting-IsValid =
    add_sell-IsValid 2 start sell_five start-IsValid sell-Incoming refl (omega arith) tt

pub buy-Incoming : Incoming 2 (length resting.trader_list) buy_eight
unfolding start_exchange add_rest
buy-Incoming = record { product = omega arith; trader = omega arith; ranges = buy_eight-IsOrder }

no_orders_roomy : (i p : ℕ) → book_quantity p (get_or (replicate 2 []) i []) + max_value < int_max
no_orders_roomy zero p = omega arith
no_orders_roomy (suc zero) p = omega arith
no_orders_roomy (suc (suc i)) p = omega arith

one_order_roomy :
    (i p : ℕ) → book_quantity p (get_or ((sell_five ∷ []) ∷ [] ∷ []) i []) + max_value < int_max
one_order_roomy zero p = ground arith
one_order_roomy (suc zero) p = omega arith
one_order_roomy (suc (suc i)) p = omega arith

pub resting-IsRoomy : IsRoomy resting
unfolding start_exchange add_rest
resting-IsRoomy = record { buys = no_orders_roomy; sells = one_order_roomy }
