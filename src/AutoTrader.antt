-- ===== src/AutoTrader.antt =====
-- pe_trader.c: the automatic trader, which answers each offer of the market with an order for all of it.
pub mod Lengths
pub mod Texts
pub mod Answers
pub mod Trading
use pe_exchange.Common.{
  ◌>>=◌, ℕ, zero, suc, ◌+◌, ◌-◌, ◌/◌, Bool, true, false, List, [], ◌∷◌, ◌++◌, Option, none, some,
  ltb, leb, if◌then◌else◌, int_max, int_mod, add_int, length, ◌==◌,
}
use pe_exchange.Common.Text.{Bytes, codes, show_int}
use pe_exchange.Common.Scan.{scan_word, scan_int, same_text, int_ltb}
use pe_exchange.Types.{Order}

-- The product, quantity and price of an offer, as far as they can be scanned; else the zeros of
-- `curr_buy = {0}`. One function for each of the three.
unfoldable pub fill_price : Bytes → ℕ → Option (ℕ × Bytes) → Bytes × ℕ × ℕ
fill_price product quantity none = (product, quantity, 0)
fill_price product quantity (some (price, _)) = (product, quantity, price)

unfoldable pub fill_quantity : Bytes → Option (ℕ × Bytes) → Bytes × ℕ × ℕ
unfolding fill_price
fill_quantity product none = (product, 0, 0)
fill_quantity product (some (quantity, s)) = fill_price product quantity (scan_int s)

unfoldable pub fill_product : Option (Bytes × Bytes) → Bytes × ℕ × ℕ
unfolding fill_quantity
fill_product none = ([], 0, 0)
fill_product (some (product, s)) = fill_quantity product (scan_int s)

unfoldable pub scan_offer : Bytes → Bytes × ℕ × ℕ
unfolding fill_product
scan_offer s = fill_product (scan_word s)

-- `none` is the result 0; else the order, and `trader_order_ID` after it. A message of less than two
-- words, which leaves the source's buffers unset, is not answered.
unfoldable pub create_buy_order : Bytes → ℕ → Option (Order × ℕ)
create_buy_order sell_str trader_order_id = do
  (market, s1) ← scan_word sell_str
  (sell, s2) ← scan_word s1
  let (product, quantity, price) = scan_offer s2
  if same_text market (codes "MARKET")
      then (if same_text sell (codes "SELL")
          then some (
            record {
              product = product;
              quantity = quantity;
              price = price;
              order_id = trader_order_id;
              product_id = 0;
              trader_id = 0;
              is_buy = false;
            },
            add_int trader_order_id 1,
          )
          else none)
      else none

-- The digits of a number, in fewer than `n + 1` divisions.
unfoldable pub count_digits : ℕ → ℕ → ℕ
count_digits zero n = 0
count_digits (suc fuel) n =
    let rest = count_digits fuel (n / 10) in if n / 10 == 0 then 1 else suc rest

-- On an int: the division goes towards zero, so a sign is not counted.
unfoldable pub strlen_digit : ℕ → ℕ
unfolding count_digits
strlen_digit x = let n = if ltb x int_max then x else int_mod - x in count_digits (suc n) n

unfoldable pub find_buy_str_len : Order → ℕ
find_buy_str_len o =
    4
    + (strlen_digit o.order_id + 1)
    + (length o.product + 1)
    + (strlen_digit o.quantity + 1)
    + (strlen_digit o.price + 1)
    + 1

unfoldable pub create_buy_str : Order → Bytes
create_buy_str o =
    codes "BUY "
    ++ (show_int o.order_id
        ++ (codes " "
            ++ (o.product
                ++ (codes " "
                    ++ (show_int o.quantity ++ (codes " " ++ (show_int o.price ++ codes ";")))))))
