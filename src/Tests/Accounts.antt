-- ===== src/Tests/Accounts.antt =====
-- The theorems on accounts, on new orders and on the start, at the small exchange.
use pe_exchange.Common.{◌≡◌, refl, true, false, some, arith}
use pe_exchange.Common.Text.{Bytes, codes}
use pe_exchange.Types.{Order, Trader}
use pe_exchange.Setup.{initialise_trader, start_exchange}
use pe_exchange.Setup.Start.{start_exchange-IsValid}
use pe_exchange.Orderbook.Matching.{add_rest}
use pe_exchange.Orderbook.Invariant.Steps.{IsValid}
use pe_exchange.Orderbook.Matching.{settle_buy, settle_sell}
use pe_exchange.Orderbook.Matching.Conserve.{Conserves, settle_buy-Conserves, settle_sell-Conserves}
use pe_exchange.Orderbook.Create.{create_order, create_buy_sell_order}
use pe_exchange.Orderbook.Create.Created.{
  NamesSide, Created, create_order-Created, create_buy_sell_order-Created,
}
use pe_exchange.Common.Scan.{scan_word, scan_int}
use pe_exchange.Tests.State.{
  products, traders, start, start-IsValid, order, sell_five, buy_eight, resting, resting-IsValid,
}

start_exchange-IsValid_example : IsValid 2 (start_exchange products traders)
unfolding initialise_trader
start_exchange-IsValid_example = start_exchange-IsValid products traders (refl, (refl, tt))

settle_buy-Conserves_example : Conserves 2 resting (settle_buy resting buy_eight sell_five 5)
unfolding start_exchange add_rest
settle_buy-Conserves_example =
    settle_buy-Conserves 2 resting buy_eight sell_five 5 resting-IsValid.accounts
      (record { product = omega arith; trader = omega arith })
      (record { product = omega arith; trader = omega arith })

-- A total price above 2^31.
abbrev sell_dear : Order
sell_dear = order false 5000 999999 0

abbrev buy_dear : Order
buy_dear = order true 5000 999999 1

settle_sell-Conserves_example : Conserves 2 start (settle_sell start sell_dear buy_dear 5000)
unfolding start_exchange
settle_sell-Conserves_example =
    settle_sell-Conserves 2 start sell_dear buy_dear 5000 start-IsValid.accounts
      (record { product = omega arith; trader = omega arith })
      (record { product = omega arith; trader = omega arith })

abbrev first_trader : Trader
first_trader = initialise_trader 0 5 6 1000

abbrev sell_message : Bytes
sell_message = codes "SELL 0 GPU 5 10;"

sell_message_created :
    create_buy_sell_order sell_message first_trader products
    ≡ some (record first_trader { order_id = 1 }, sell_five)
unfolding create_buy_sell_order initialise_trader scan_word scan_int
sell_message_created = refl

sell_message_created_by :
    create_order sell_message first_trader products false
    ≡ some (record first_trader { order_id = 1 }, sell_five)
unfolding create_order initialise_trader scan_word scan_int
sell_message_created_by = refl

create_order-Created_example :
    Created products first_trader false (record first_trader { order_id = 1 }) sell_five
create_order-Created_example =
    create_order-Created sell_message first_trader products false sell_message_created_by

create_buy_sell_order-Created_example :
    (word rest : Bytes) × (scan_word sell_message ≡ some (word, rest))
    × NamesSide word false
    × Created products first_trader false (record first_trader { order_id = 1 }) sell_five
create_buy_sell_order-Created_example =
    create_buy_sell_order-Created sell_message first_trader products sell_message_created
