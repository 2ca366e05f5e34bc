-- ===== src/Tests/Texts.antt =====
-- The theorems on texts and numbers: an offer and its answer, a product file, a fee.
use pe_exchange.Common.{ℕ, ◌+◌, ◌≡◌, refl, Bool, true, false, [], ◌∷◌, ◌++◌, some, arith, length}
use pe_exchange.Common.Text.{Bytes, codes}
use pe_exchange.Common.Scan.{is_space}
use pe_exchange.Types.{Order, Trader}
use pe_exchange.Setup.{initialise_trader}
use pe_exchange.Setup.Products.{get_products, read_products}
use pe_exchange.Setup.Accepted.{IsNames, get_products-IsNames, IsEnded, read_products_ends}
use pe_exchange.Orderbook.Create.{create_buy_sell_order, find_product}
use pe_exchange.Orderbook.Matching.{round_percent}
use pe_exchange.Orderbook.Matching.Fee.{round_percent-nearest}
use pe_exchange.Pipes.Writing.{market_msg}
use pe_exchange.AutoTrader.{create_buy_order, create_buy_str, find_buy_str_len}
use pe_exchange.AutoTrader.Lengths.{find_buy_str_len-create_buy_str}
use pe_exchange.AutoTrader.Answers.{IsOffer, create_buy_str-create_buy_sell_order}
use pe_exchange.Tests.State.{products}

abbrev second_trader : Trader
second_trader = record (initialise_trader 1 7 8 1001) { order_id = 12 }

abbrev answer_order : ℕ → ℕ → Bool → Order
answer_order product_id trader_id is_buy = record {
  product = codes "Router";
  quantity = 70;
  price = 305;
  order_id = 12;
  product_id = product_id;
  trader_id = trader_id;
  is_buy = is_buy;
}

router-IsOffer : IsOffer (codes "Router") 12 70 305
unfolding is_space
router-IsOffer = record {
  word = record {
    some_character = omega arith;
    no_space = (refl, (refl, (refl, (refl, (refl, (refl, tt))))));
  };
  id_max = omega arith;
  quantity_pos = omega arith;
  quantity_max = omega arith;
  price_pos = omega arith;
  price_max = omega arith;
}

router_found : find_product (codes "Router") products 0 ≡ some 1
unfolding find_product
router_found = refl

create_buy_str-create_buy_sell_order_example :
    (create_buy_order (market_msg false (codes "Router") 70 305) 12
      ≡ some (answer_order 0 0 false, 13))
    × (create_buy_sell_order (create_buy_str (answer_order 0 0 false)) second_trader products
        ≡ some (record second_trader { order_id = 13 }, answer_order 1 1 true))
unfolding initialise_trader
create_buy_str-create_buy_sell_order_example =
    create_buy_str-create_buy_sell_order products 1 second_trader (codes "Router") 70 305
      router-IsOffer router_found

find_buy_str_len-create_buy_str_example :
    find_buy_str_len (answer_order 0 0 false) ≡ length (create_buy_str (answer_order 0 0 false)) + 1
find_buy_str_len-create_buy_str_example =
    find_buy_str_len-create_buy_str (answer_order 0 0 false) (omega arith) (omega arith)
      (omega arith)

abbrev product_file : Bytes
product_file = codes "2" ++ (10 ∷ (codes "GPU" ++ (10 ∷ (codes "Router" ++ (10 ∷ [])))))

product_file_read : get_products (some product_file) 2 ≡ some products
unfolding get_products
product_file_read = refl

get_products-IsNames_example : IsNames 2 products
get_products-IsNames_example = get_products-IsNames product_file 2 (omega arith) product_file_read

read_products_ends_example :
    IsEnded (read_products 5 (codes "GPU" ++ (10 ∷ [])) 1 [])
    × (read_products 5 (codes "GPU" ++ (10 ∷ [])) 1 []
        ≡ read_products 9 (codes "GPU" ++ (10 ∷ [])) 1 [])
read_products_ends_example =
    read_products_ends 5 9 (codes "GPU" ++ (10 ∷ [])) 1 [] (omega arith) (omega arith)

round_percent-nearest_example : round_percent 250 ≡ 3
round_percent-nearest_example = round_percent-nearest 250 (omega arith)
