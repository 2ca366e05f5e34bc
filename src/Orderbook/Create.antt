-- ===== src/Orderbook/Create.antt =====
-- Making orders: the first part of pe_orderbook.c.
pub mod Created
use pe_exchange.Common.{
  ◌>>=◌, ℕ, suc, ◌+◌, Bool, true, false, List, [], ◌∷◌, Option, none, some, ◌==◌, ◌||◌, not,
  if◌then◌else◌,
}
use pe_exchange.Common.Text.{Bytes, codes}
use pe_exchange.Common.Scan.{scan_word, scan_int, same_text, int_ltb}
use pe_exchange.Types.{Order, Trader}

-- What `sscanf(str, "%*s %d %s %d %d;", …)` fills in when it returns 4.
pub record Fields : Type 0 where
  pub order_id : ℕ
  pub product : Bytes
  pub quantity : ℕ
  pub price : ℕ

unfoldable pub scan_order : Bytes → Option Fields
scan_order str = do
  (_, s1) ← scan_word str
  (order_id, s2) ← scan_int s1
  (product, s3) ← scan_word s2
  (quantity, s4) ← scan_int s3
  (price, _) ← scan_int s4
  some (record { order_id = order_id; product = product; quantity = quantity; price = price })

-- The loop that looks for the product, at index `i`.
unfoldable pub find_product : Bytes → List Bytes → ℕ → Option ℕ
unfolding same_text
find_product product [] i = none
find_product product (p ∷ ps) i =
    let rest = find_product product ps (suc i) in if same_text product p then some i else rest

abbrev pub max_int : ℕ
max_int = 999999

-- `x < low || x > 999999`, on an int
unfoldable pub out_of_range : ℕ → ℕ → Bool
out_of_range low x = int_ltb max_int x || int_ltb x low

-- The checks after the product was found, and the new order with the trader's counter moved on.
unfoldable pub make_order : Fields → ℕ → Trader → Bool → Option (Trader × Order)
unfolding out_of_range
make_order f prod_ind t is_buy =
    if out_of_range 1 f.quantity
    then none
    else if not (f.order_id == t.order_id) || out_of_range 0 f.order_id
    then none
    else if out_of_range 1 f.price
    then none
    else some (
      record t { order_id = suc t.order_id },
      record {
        product = f.product;
        quantity = f.quantity;
        price = f.price;
        order_id = f.order_id;
        product_id = prod_ind;
        trader_id = t.id;
        is_buy = is_buy;
      },
    )

-- `none` is the null pointer; else the trader with its new counter, and the order.
unfoldable pub create_order : Bytes → Trader → List Bytes → Bool → Option (Trader × Order)
unfolding scan_order find_product make_order
create_order str t products is_buy = do
  f ← scan_order str
  prod_ind ← find_product f.product products 0
  make_order f prod_ind t is_buy

unfoldable pub create_buy_sell_order : Bytes → Trader → List Bytes → Option (Trader × Order)
unfolding create_order
create_buy_sell_order str t products = do
  (sell_or_buy, _) ← scan_word str
  if same_text sell_or_buy (codes "SELL")
      then create_order str t products false
      else if same_text sell_or_buy (codes "BUY")
      then create_order str t products true
      else none

unfoldable pub create_amended_order : ℕ → ℕ → Order → Order
create_amended_order new_price new_quantity o = record {
  product = o.product;
  quantity = new_quantity;
  price = new_price;
  order_id = o.order_id;
  product_id = o.product_id;
  trader_id = o.trader_id;
  is_buy = o.is_buy;
}
