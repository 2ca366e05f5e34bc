-- ===== src/Orderbook/Levels.antt =====
-- The price levels that the exchange prints (struct printed_orderbook), most expensive first: the
-- first half of pe_orderbook.c. A pointer to a level is its position in the list.
pub mod Descending
pub mod Add
pub mod Remove
pub mod Shows
use pe_exchange.Common.{
  ℕ, zero, suc, ◌+◌, Bool, true, false, List, [], ◌∷◌, ltb, leb, ◌==◌, if◌then◌else◌, add_int,
  sub_int, length, set, drop, tail, modify,
}
use pe_exchange.Types.{Order, PrintedOrder, PrintedOrderbook, Exchange}

unfoldable pub create_printed_order : Order → PrintedOrder
create_printed_order o = record { quantity = o.quantity; price = o.price; num_orders = 1 }

-- `ctr` of `set_len`
unfoldable pub count_levels : List PrintedOrder → ℕ → ℕ
count_levels [] ctr = ctr
count_levels (l ∷ ls) ctr = count_levels ls (add_int ctr 1)

unfoldable pub set_len : PrintedOrderbook → Bool → PrintedOrderbook
unfolding count_levels
set_len b true = record b { buy_len = count_levels b.head_buy 0 }
set_len b false = record b { sell_len = count_levels b.head_sell 0 }

-- The two tests at `temp`, the level where the search stopped, before `rest`.
unfoldable pub add_at : PrintedOrder → List PrintedOrder → Order → List PrintedOrder
unfolding create_printed_order
add_at temp rest o =
    if temp.price == o.price
    then record temp {
      quantity = add_int temp.quantity o.quantity;
      num_orders = add_int temp.num_orders 1;
    }
      ∷ rest
    else if ltb o.price temp.price
    then temp ∷ create_printed_order o ∷ rest
    else temp ∷ rest

-- The search: on to the next level while that one is no cheaper than the order.
unfoldable pub add_from : PrintedOrder → List PrintedOrder → Order → List PrintedOrder
unfolding add_at
add_from temp [] o = add_at temp [] o
add_from temp (l ∷ ls) o =
    if leb o.price l.price then temp ∷ add_from l ls o else add_at temp (l ∷ ls) o

-- The body of `add_to_prints`, which the source writes once for each side.
unfoldable pub add_to_levels : List PrintedOrder → Order → List PrintedOrder
unfolding add_from
add_to_levels [] o = create_printed_order o ∷ []
add_to_levels (l ∷ ls) o =
    if ltb l.price o.price then create_printed_order o ∷ l ∷ ls else add_from l ls o

unfoldable pub add_to_prints : PrintedOrderbook → Order → Bool → PrintedOrderbook
unfolding add_to_levels
add_to_prints b o true = record b { head_buy = add_to_levels b.head_buy o }
add_to_prints b o false = record b { head_sell = add_to_levels b.head_sell o }

unfoldable pub add_order_prints : List PrintedOrderbook → Order → List PrintedOrderbook
unfolding add_to_prints set_len
add_order_prints books o =
    modify books o.product_id λ b. set_len (add_to_prints b o o.is_buy) o.is_buy

-- From the head on: the first next level at the node's price is skipped, `after` takes its place.
unfoldable pub skip_level : List PrintedOrder → ℕ → List PrintedOrder → List PrintedOrder
skip_level [] price after = []
skip_level (t ∷ []) price after = t ∷ after
skip_level (t ∷ n ∷ ls) price after =
    let later = skip_level (n ∷ ls) price after in if n.price == price then t ∷ after else t ∷ later

-- `remove_from_products` on one side: its list, its stored length, and the node at position `i`.
unfoldable pub remove_from_levels : List PrintedOrder → ℕ → ℕ → PrintedOrder → List PrintedOrder
unfolding skip_level
remove_from_levels levels len i node =
    if len == 1
    then []
    else if i == 0
    then tail levels
    else skip_level levels node.price (drop (suc i) levels)

unfoldable pub deduct : PrintedOrder → Order → PrintedOrder
deduct t o = record t {
  quantity = sub_int t.quantity o.quantity;
  num_orders = sub_int t.num_orders 1;
}

-- The loop of `delete_order_prints` at position `i`, with the levels from there on still to come.
-- `levels` is the whole list, as the rounds before have left it.
unfoldable pub delete_from :
    List PrintedOrder → ℕ → ℕ → List PrintedOrder → Order → List PrintedOrder
unfolding remove_from_levels deduct
delete_from levels len i [] o = levels
delete_from levels len i (t ∷ ts) o =
    let t' = deduct t o in
    let levels' = set levels i t' in
    let on_hit = delete_from levels' len (suc i) ts o in
    let on_miss = delete_from levels len (suc i) ts o in
    if o.price == t.price
    then (if t'.quantity == 0 then remove_from_levels levels' len i t' else on_hit)
    else on_miss

unfoldable pub delete_order_prints : PrintedOrderbook → Order → PrintedOrderbook
unfolding delete_from
delete_order_prints b o =
    if o.is_buy
    then record b { head_buy = delete_from b.head_buy b.buy_len 0 b.head_buy o }
    else record b { head_sell = delete_from b.head_sell b.sell_len 0 b.head_sell o }

unfoldable pub cancel_order_prints : List PrintedOrderbook → Order → List PrintedOrderbook
unfolding delete_order_prints set_len
cancel_order_prints books o =
    modify books o.product_id λ b. set_len (delete_order_prints b o) o.is_buy
