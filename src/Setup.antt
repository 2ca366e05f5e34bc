-- ===== src/Setup.antt =====
-- pe_setup.c: reading the product file (`Products`), and the first state of the exchange.
pub mod Products
pub mod Start
pub mod Accepted
pub mod Launch
use pe_exchange.Common.{ℕ, zero, suc, ◌+◌, Bool, true, List, [], ◌∷◌, take, replicate, length}
use pe_exchange.Common.Text.{Bytes}
use pe_exchange.Types.{Orderbook, PrintedOrderbook, TraderBalances, Trader, Exchange}
use pe_exchange.Orderbook.Matching.{emit}
use pe_exchange.Pipes.Writing.{write_market_open}

-- strncpy(…, 16)
abbrev pub copy_name : Bytes → Bytes
copy_name name = take 16 name

unfoldable pub initialise_product_list : List Bytes → List PrintedOrderbook
initialise_product_list [] = []
initialise_product_list (p ∷ ps) =
    record { product = copy_name p; head_buy = []; head_sell = []; buy_len = 0; sell_len = 0 }
    ∷ initialise_product_list ps

-- The buy books and the sell books.
unfoldable pub initialise_prod_orders : ℕ → List Orderbook × List Orderbook
initialise_prod_orders num_products = (replicate num_products [], replicate num_products [])

-- The trader of a process and its two descriptors. The names of the pipes are left out.
unfoldable pub initialise_trader : ℕ → ℕ → ℕ → ℕ → Trader
initialise_trader i ex_fd tr_fd fork_res = record {
  id = i;
  pid = fork_res;
  order_id = 0;
  ex_fd = ex_fd;
  tr_fd = tr_fd;
  trader_prod_info = [];
  alive = true;
}

unfoldable pub new_balances : List Bytes → List TraderBalances
new_balances [] = []
new_balances (p ∷ ps) =
    record { product = copy_name p; quantity = 0; balance = 0 } ∷ new_balances ps

unfoldable pub initialise_trader_inventory : List Bytes → List Trader → List Trader
unfolding new_balances
initialise_trader_inventory products [] = []
initialise_trader_inventory products (t ∷ ts) =
    record t { trader_prod_info = new_balances products } ∷ initialise_trader_inventory products ts

-- What main sets up once the traders run, and MARKET OPEN to them.
unfoldable pub start_exchange : List Bytes → List Trader → Exchange
unfolding initialise_product_list initialise_prod_orders initialise_trader_inventory emit
start_exchange products traders =
    let ts = initialise_trader_inventory products traders in
    let (buys, sells) = initialise_prod_orders (length products) in
    emit
      (record {
        trader_list = ts;
        buy_orders = buys;
        sell_orders = sells;
        printed_orders = initialise_product_list products;
        exchange_fees = 0;
        output = [];
      })
      (write_market_open ts)
