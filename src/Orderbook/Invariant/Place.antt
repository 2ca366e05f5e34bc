-- ===== src/Orderbook/Invariant/Place.antt =====
-- `check_for_match`, and what its callers do with the result: the rest of the order is added to the
-- levels and to the tail of its book.
use pe_exchange.Common.{
  ℕ, suc, ◌+◌, ◌<◌, ◌≡◌, refl, ◌∙◌, ◌⊎◌, inl, inr, Bool, true, false, [], some, arith, length,
  Bool-cases, modify, length-modify, modify-id, get_or-get_elem?, get_elem?, int_max,
}
use pe_exchange.Types.{Order, Orderbook, PrintedOrderbook, Exchange}
use pe_exchange.Orderbook.Levels.{add_order_prints}
use pe_exchange.Orderbook.Levels.Descending.{book_quantity}
use pe_exchange.Orderbook.Orders.{add_to_tail}
use pe_exchange.Orderbook.Matching.{check_for_match, add_rest}
use pe_exchange.Orderbook.Invariant.Product.{
  ProductOk, ProductsOk-modify, added, added_buy, added_sell, Over, Under,
}
use pe_exchange.Orderbook.Invariant.Steps.{IsValid}
use pe_exchange.Orderbook.Invariant.Open.{Incoming}
use pe_exchange.Orderbook.Invariant.BuyRound.{sells_of}
use pe_exchange.Orderbook.Invariant.SellRound.{buys_of}
use pe_exchange.Orderbook.Invariant.BuyLoop.{BuyMatched, match_buys-Ends}
use pe_exchange.Orderbook.Invariant.SellLoop.{SellMatched, match_sells-Ends}

-- The result of matching a new order of either side.
abbrev pub Matched : ℕ → Exchange → Order → Exchange × Order × Bool → Type 0
Matched n s o r =
    ((o.is_buy ≡ true) × BuyMatched n s o r) ⊎ ((o.is_buy ≡ false) × SellMatched n s o r)

-- On a valid exchange, `check_for_match` returns for every order within the limits, of a known
-- product and trader. The exchange stays valid; the sum of all balances and fees is kept modulo
-- 2^64 and that of all positions in each product modulo 2^32; the books of the order's own side
-- stay as they were; of the order only the quantity changes; what it got is what the other book
-- lost; and if the result says that some of it is left, its quantity is positive and no order of
-- the other book meets its price.
pub check_for_match-Matched :
    (n : ℕ) (s : Exchange) (o : Order)
    → IsValid n s
    → Incoming n (length s.trader_list) o
    → (r : Exchange × Order × Bool) × (check_for_match s o ≡ some r) × Matched n s o r
unfolding check_for_match
check_for_match-Matched n s o v w = elim (Bool-cases o.is_buy) [
  | inl buy ↦
      let e = match_buys-Ends n (suc (length (sells_of s o.product_id))) s o v w (omega arith) in
      (e.0, simp buy (e.1), inl (buy, e.2))
  | inr sell ↦
      let e = match_sells-Ends n (suc (length (buys_of s o.product_id))) s o v w (omega arith) in
      (e.0, simp sell (e.1), inr (sell, e.2))
]

add_rest_buy :
    (s : Exchange) (o : Order)
    → o.is_buy ≡ true
    → add_rest s o ≡ record s {
      printed_orders = add_order_prints s.printed_orders o;
      buy_orders = modify s.buy_orders o.product_id (add_to_tail o);
    }
unfolding add_rest
add_rest_buy s o e = simp e

add_rest_sell :
    (s : Exchange) (o : Order)
    → o.is_buy ≡ false
    → add_rest s o ≡ record s {
      printed_orders = add_order_prints s.printed_orders o;
      sell_orders = modify s.sell_orders o.product_id (add_to_tail o);
    }
unfolding add_rest
add_rest_sell s o e = simp e

module _ (n : ℕ) (s : Exchange) (o : Order) (v : IsValid n s)
    (w : Incoming n (length s.trader_list) o) where
  keep_buy :
      o.is_buy ≡ true
      → book_quantity o.price (buys_of s o.product_id) + o.quantity < int_max
      → Over o.price (sells_of s o.product_id)
      → (bs ss : Orderbook) (b : PrintedOrderbook) → get_elem? s.buy_orders o.product_id ≡ some bs
      → get_elem? s.sell_orders o.product_id ≡ some ss
      → get_elem? s.printed_orders o.product_id ≡ some b
      → ProductOk o.product_id (length s.trader_list) bs ss b
      → ProductOk o.product_id (length s.trader_list) (add_to_tail o bs) ss (added o b)
  unfolding add_to_tail
  keep_buy buy fits over bs ss b eb es ep ok =
      added_buy o.product_id (length s.trader_list) bs ss b ok o w.ranges
        (record { product = refl; side = buy; trader = w.trader })
        (rw (get_or-get_elem? s.buy_orders o.product_id [] eb) at fits)
        (rw (get_or-get_elem? s.sell_orders o.product_id [] es) at over)

  keep_sell :
      o.is_buy ≡ false
      → book_quantity o.price (sells_of s o.product_id) + o.quantity < int_max
      → Under (buys_of s o.product_id) o.price
      → (bs ss : Orderbook) (b : PrintedOrderbook) → get_elem? s.buy_orders o.product_id ≡ some bs
      → get_elem? s.sell_orders o.product_id ≡ some ss
      → get_elem? s.printed_orders o.product_id ≡ some b
      → ProductOk o.product_id (length s.trader_list) bs ss b
      → ProductOk o.product_id (length s.trader_list) bs (add_to_tail o ss) (added o b)
  unfolding add_to_tail
  keep_sell sell fits under bs ss b eb es ep ok =
      added_sell o.product_id (length s.trader_list) bs ss b ok o w.ranges
        (record { product = refl; side = sell; trader = w.trader })
        (rw (get_or-get_elem? s.sell_orders o.product_id [] es) at fits)
        (rw (get_or-get_elem? s.buy_orders o.product_id [] eb) at under)

  pub add_buy-IsValid :
      o.is_buy ≡ true
      → book_quantity o.price (buys_of s o.product_id) + o.quantity < int_max
      → Over o.price (sells_of s o.product_id)
      → IsValid n (add_rest s o)
  unfolding add_order_prints
  add_buy-IsValid buy fits over = rw (add_rest_buy s o buy) (record {
    num_buys = length-modify s.buy_orders o.product_id _ ∙ v.num_buys;
    num_sells = v.num_sells;
    num_printed = length-modify s.printed_orders o.product_id _ ∙ v.num_printed;
    accounts = v.accounts;
    products = rw (modify-id s.sell_orders o.product_id) at (
        ProductsOk-modify (length s.trader_list) o.product_id s.buy_orders s.sell_orders
          s.printed_orders (add_to_tail o) (λ x. x) (added o) v.products (keep_buy buy fits over));
  })

  pub add_sell-IsValid :
      o.is_buy ≡ false
      → book_quantity o.price (sells_of s o.product_id) + o.quantity < int_max
      → Under (buys_of s o.product_id) o.price
      → IsValid n (add_rest s o)
  unfolding add_order_prints
  add_sell-IsValid sell fits under = rw (add_rest_sell s o sell) (record {
    num_buys = v.num_buys;
    num_sells = length-modify s.sell_orders o.product_id _ ∙ v.num_sells;
    num_printed = length-modify s.printed_orders o.product_id _ ∙ v.num_printed;
    accounts = v.accounts;
    products = rw (modify-id s.buy_orders o.product_id) at (
        ProductsOk-modify (length s.trader_list) o.product_id s.buy_orders s.sell_orders
          s.printed_orders (λ x. x) (add_to_tail o) (added o) v.products
          (keep_sell sell fits under));
  })
