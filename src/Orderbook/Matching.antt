-- ===== src/Orderbook/Matching.antt =====
-- Matching: the last part of pe_orderbook.c. The new order is a local value that is passed along;
-- the resting order is a position in its book. `true` is the return value 1: some of the new order
-- is left.
pub mod Accounts
pub mod Positions
pub mod Conserve
pub mod Fee
use pe_exchange.Common.{
  ℕ, zero, suc, ◌+◌, ◌-◌, ◌*◌, ◌/◌, ◌%◌, ◌^◌, Bool, true, false, List, [], ◌++◌, Option, none, some,
  ltb, ◌==◌, if◌then◌else◌, add_int, sub_int, add_long, sub_long, int_of_long, long_of_int,
  long_mod, long_max, length, get_or, set, modify,
}
use pe_exchange.Common.Double.{to_double}
use pe_exchange.Types.{Order, TraderBalances, Trader, Event, Exchange}
use pe_exchange.Pipes.Writing.{write_fill}
use pe_exchange.Printing.{print_match, print_bk_pos}
use pe_exchange.Orderbook.Levels.{add_order_prints, cancel_order_prints}
use pe_exchange.Orderbook.Orders.{delete_order, add_order, find_best_sell, find_best_buy}

-- The double 0.01, times 2^59.
abbrev pub one_percent : ℕ
one_percent = 5764607523034235

-- round(total * 0.01) of a total that is not negative: it is made a double, and so is the product; `round`
-- takes the nearest integer, halves upwards.
unfoldable pub percent : ℕ → ℕ
unfolding to_double
percent total = (to_double (to_double total * one_percent) + 2 ^ 58) / 2 ^ 59

-- round_int(total * 0.01). Rounding does not depend on the sign.
unfoldable pub round_percent : ℕ → ℕ
unfolding percent
round_percent total =
    if ltb total long_max then percent total else (long_mod - percent (long_mod - total)) % long_mod

-- `trader_list[t]->trader_prod_info[p]` changed in place.
unfoldable pub adjust : List Trader → ℕ → ℕ → (TraderBalances → TraderBalances) → List Trader
adjust traders t p f =
    modify traders t λ tr. record tr { trader_prod_info = modify tr.trader_prod_info p f }

abbrev pub gain_quantity : ℕ → TraderBalances → TraderBalances
gain_quantity n b = record b { quantity = add_int b.quantity n }

abbrev pub lose_quantity : ℕ → TraderBalances → TraderBalances
lose_quantity n b = record b { quantity = sub_int b.quantity n }

abbrev pub gain_balance : ℕ → TraderBalances → TraderBalances
gain_balance n b = record b { balance = add_long b.balance n }

abbrev pub lose_balance : ℕ → TraderBalances → TraderBalances
lose_balance n b = record b { balance = sub_long b.balance n }

-- The four statements in turn: the two traders may be one.
unfoldable pub update_inventory : List Trader → ℕ → ℕ → ℕ → ℕ → ℕ → List Trader
unfolding adjust
update_inventory traders buyer seller total_price quantity prod =
    let t1 = adjust traders buyer prod (gain_quantity quantity) in
    let t2 = adjust t1 buyer prod (lose_balance total_price) in
    let t3 = adjust t2 seller prod (lose_quantity quantity) in
    adjust t3 seller prod (gain_balance total_price)

unfoldable pub emit : Exchange → List Event → Exchange
emit s events = record s { output = s.output ++ events }

-- What each branch of `match_new_buy` does first: messages, money, positions, the printed line.
unfoldable pub settle_buy : Exchange → Order → Order → ℕ → Exchange
unfolding emit round_percent update_inventory print_match
settle_buy s buy sell quantity =
    let s1 = emit s (write_fill buy sell quantity s.trader_list) in
    let total_price = sell.price * quantity % long_mod in
    let fee = round_percent total_price in
    let prod = buy.product_id in
    let charged = adjust s1.trader_list buy.trader_id prod (lose_balance fee) in
    let s2 = record s1 {
      trader_list = update_inventory charged buy.trader_id sell.trader_id total_price quantity prod;
    } in
    print_match s2 buy sell total_price fee

-- The same for `match_new_sell`, where `total_price` and `fee` are ints.
unfoldable pub settle_sell : Exchange → Order → Order → ℕ → Exchange
unfolding emit round_percent update_inventory print_match
settle_sell s sell buy quantity =
    let s1 = emit s (write_fill buy sell quantity s.trader_list) in
    let total_price = long_of_int (int_of_long (buy.price * quantity % long_mod)) in
    let fee = long_of_int (int_of_long (round_percent total_price)) in
    let prod = sell.product_id in
    let charged = adjust s1.trader_list sell.trader_id prod (lose_balance fee) in
    let s2 = record s1 {
      trader_list = update_inventory charged buy.trader_id sell.trader_id total_price quantity prod;
    } in
    print_match s2 sell buy total_price fee

-- The resting order `old` at position `k` leaves the levels, and its book.
unfoldable pub drop_sell : Exchange → ℕ → ℕ → Order → Exchange
unfolding delete_order
drop_sell s prod k old = record s {
  printed_orders = cancel_order_prints s.printed_orders old;
  sell_orders = modify s.sell_orders prod (delete_order k);
}

unfoldable pub drop_buy : Exchange → ℕ → ℕ → Order → Exchange
unfolding delete_order
drop_buy s prod k old = record s {
  printed_orders = cancel_order_prints s.printed_orders old;
  buy_orders = modify s.buy_orders prod (delete_order k);
}

-- The resting order stays with less quantity: out of the levels, changed in place, and in again.
unfoldable pub shrink_sell : Exchange → ℕ → ℕ → Order → ℕ → Exchange
shrink_sell s prod k old filled =
    let left = record old { quantity = old.quantity - filled } in
    record s {
      printed_orders = add_order_prints (cancel_order_prints s.printed_orders old) left;
      sell_orders = modify s.sell_orders prod (λ os. set os k left);
    }

unfoldable pub shrink_buy : Exchange → ℕ → ℕ → Order → ℕ → Exchange
shrink_buy s prod k old filled =
    let left = record old { quantity = old.quantity - filled } in
    record s {
      printed_orders = add_order_prints (cancel_order_prints s.printed_orders old) left;
      buy_orders = modify s.buy_orders prod (λ os. set os k left);
    }

unfoldable pub match_new_buy : Exchange → Order → ℕ → Order → Exchange × Order × Bool
unfolding settle_buy drop_sell shrink_sell
match_new_buy s buy k sell =
    if buy.quantity == sell.quantity
    then (drop_sell (settle_buy s buy sell sell.quantity) buy.product_id k sell, buy, false)
    else if ltb sell.quantity buy.quantity
    then (
      drop_sell (settle_buy s buy sell sell.quantity) buy.product_id k sell,
      record buy { quantity = buy.quantity - sell.quantity },
      true,
    )
    else (
      shrink_sell (settle_buy s buy sell buy.quantity) buy.product_id k sell buy.quantity,
      buy,
      false,
    )

unfoldable pub match_new_sell : Exchange → Order → ℕ → Order → Exchange × Order × Bool
unfolding settle_sell drop_buy shrink_buy
match_new_sell s sell k buy =
    if buy.quantity == sell.quantity
    then (drop_buy (settle_sell s sell buy sell.quantity) sell.product_id k buy, sell, false)
    else if ltb sell.quantity buy.quantity
    then (
      shrink_buy (settle_sell s sell buy sell.quantity) sell.product_id k buy sell.quantity,
      sell,
      false,
    )
    else (
      drop_buy (settle_sell s sell buy buy.quantity) sell.product_id k buy,
      record sell { quantity = sell.quantity - buy.quantity },
      true,
    )

-- The two loops of `check_for_match`; `none` means that the fuel ran out.
unfoldable pub match_buys : ℕ → Exchange → Order → Option (Exchange × Order × Bool)
unfolding match_new_buy
match_buys zero s o = none
match_buys (suc fuel) s o =
    if ltb 0 o.quantity
    then elim (find_best_sell o s.sell_orders) [
      | none ↦ some (s, o, true)
      | some (k, sell) ↦
          let (s', o', more) = match_new_buy s o k sell in
          elim more [ true ↦ match_buys fuel s' o' | false ↦ some (s', o', false) ]
    ]
    else some (s, o, true)

unfoldable pub match_sells : ℕ → Exchange → Order → Option (Exchange × Order × Bool)
unfolding match_new_sell
match_sells zero s o = none
match_sells (suc fuel) s o =
    if ltb 0 o.quantity
    then elim (find_best_buy o s.buy_orders) [
      | none ↦ some (s, o, true)
      | some (k, buy) ↦
          let (s', o', more) = match_new_sell s o k buy in
          elim more [ true ↦ match_sells fuel s' o' | false ↦ some (s', o', false) ]
    ]
    else some (s, o, true)

-- Every round but the last uses up an order of the other side.
unfoldable pub check_for_match : Exchange → Order → Option (Exchange × Order × Bool)
unfolding match_buys match_sells
check_for_match s o =
    if o.is_buy
    then match_buys (suc (length (get_or s.sell_orders o.product_id []))) s o
    else match_sells (suc (length (get_or s.buy_orders o.product_id []))) s o

-- What the callers of `check_for_match` do with an order that is left: into the levels, and to the
-- tail of its book.
unfoldable pub add_rest : Exchange → Order → Exchange
unfolding add_order
add_rest s o = add_order (record s { printed_orders = add_order_prints s.printed_orders o }) o

-- The end of `buy_sell_msg` and of `amend_msg`, from the call of `check_for_match` on.
unfoldable pub finish_order : Exchange → Order → Option Exchange
finish_order s o = elim (check_for_match s o) [
  | none ↦ none
  | some (s', o', more) ↦ some (print_bk_pos (if more then add_rest s' o' else s'))
]
