-- ===== src/Printing.antt =====
-- pe_printing.c: the text that the exchange prints. Each function returns what it prints.
use pe_exchange.Common.{
  ℕ, suc, List, [], ◌∷◌, ◌++◌, ltb, ◌==◌, if◌then◌else◌, add_long, int_max, length, ◌&&◌,
}
use pe_exchange.Common.Text.{Bytes, codes, show, show_int, show_long}
use pe_exchange.Types.{
  Order, PrintedOrder, PrintedOrderbook, TraderBalances, Trader, Exchange, printed,
}

abbrev pub newline : Bytes
newline = 10 ∷ []

abbrev pub tab : Bytes
tab = 9 ∷ []

-- LOG_PREFIX
abbrev pub log_prefix : Bytes
log_prefix = codes "[PEX]"

-- The products with a space between two; `n` of them are left.
unfoldable pub product_names : List Bytes → Bytes
product_names [] = []
product_names (p ∷ []) = p
product_names (p ∷ q ∷ ps) = p ++ (codes " " ++ product_names (q ∷ ps))

unfoldable pub print_products_starting : List Bytes → Bytes
unfolding product_names
print_products_starting products =
    log_prefix
    ++ (codes " Starting"
        ++ (newline
            ++ (log_prefix
                ++ (codes " Trading "
                    ++ (show (length products)
                        ++ (codes " products: " ++ (product_names products ++ newline)))))))

-- One level: with an `s` from two orders on, nothing at all below one.
unfoldable pub print_level : Bytes → PrintedOrder → Bytes
print_level side l =
    let line =
      log_prefix
      ++ (tab
          ++ (tab
              ++ (side
                  ++ (show_int l.quantity
                      ++ (codes " @ $"
                          ++ (show_int l.price ++ (codes " (" ++ show_int l.num_orders))))))) in
    if ltb 1 l.num_orders && ltb l.num_orders int_max
    then line ++ (codes " orders)" ++ newline)
    else if l.num_orders == 1
    then line ++ (codes " order)" ++ newline)
    else []

unfoldable pub print_levels : Bytes → List PrintedOrder → Bytes
unfolding print_level
print_levels side [] = []
print_levels side (l ∷ ls) = print_level side l ++ print_levels side ls

unfoldable pub print_products : List PrintedOrderbook → Bytes
unfolding print_levels
print_products [] = []
print_products (b ∷ bs) =
    log_prefix
    ++ (tab
        ++ (codes "Product: "
            ++ (b.product
                ++ (codes "; Buy levels: "
                    ++ (show_int b.buy_len
                        ++ (codes "; Sell levels: "
                            ++ (show_int b.sell_len
                                ++ (newline
                                    ++ (print_levels (codes "SELL ") b.head_sell
                                        ++ (print_levels (codes "BUY ") b.head_buy
                                            ++ print_products bs))))))))))

unfoldable pub print_orderbook : List PrintedOrderbook → Bytes
unfolding print_products
print_orderbook books =
    log_prefix ++ (tab ++ (codes "--ORDERBOOK--" ++ (newline ++ print_products books)))

unfoldable pub print_balance : TraderBalances → Bytes
print_balance b =
    b.product
    ++ (codes " " ++ (show_int b.quantity ++ (codes " ($" ++ (show_long b.balance ++ codes ")"))))

unfoldable pub print_balances : List TraderBalances → Bytes
unfolding print_balance
print_balances [] = []
print_balances (b ∷ []) = print_balance b
print_balances (b ∷ c ∷ bs) = print_balance b ++ (codes ", " ++ print_balances (c ∷ bs))

unfoldable pub print_traders : ℕ → List Trader → Bytes
unfolding print_balances
print_traders i [] = []
print_traders i (t ∷ ts) =
    log_prefix
    ++ (tab
        ++ (codes "Trader "
            ++ (show i
                ++ (codes ": "
                    ++ (print_balances t.trader_prod_info
                        ++ (newline ++ print_traders (suc i) ts))))))

unfoldable pub print_positions : List Trader → Bytes
unfolding print_traders
print_positions traders =
    log_prefix ++ (tab ++ (codes "--POSITIONS--" ++ (newline ++ print_traders 0 traders)))

-- Adds the two reports to the output.
unfoldable pub print_bk_pos : Exchange → Exchange
unfolding print_orderbook print_positions
print_bk_pos s = record s {
  output =
      s.output
      ++ (printed (print_orderbook s.printed_orders)
          ∷ printed (print_positions s.trader_list)
          ∷ []);
}

unfoldable pub match_line : Order → Order → ℕ → ℕ → Bytes
match_line new old total_price fee =
    log_prefix
    ++ (codes " Match: Order "
        ++ (show old.order_id
            ++ (codes " [T"
                ++ (show old.trader_id
                    ++ (codes "], New Order "
                        ++ (show new.order_id
                            ++ (codes " [T"
                                ++ (show new.trader_id
                                    ++ (codes "], value: $"
                                        ++ (show_long total_price
                                            ++ (codes ", fee: $"
                                                ++ (show_long fee
                                                    ++ (codes "." ++ newline)))))))))))))

-- Prints the match and adds its fee to the exchange's.
unfoldable pub print_match : Exchange → Order → Order → ℕ → ℕ → Exchange
unfolding match_line
print_match s new old total_price fee = record s {
  output = s.output ++ (printed (match_line new old total_price fee) ∷ []);
  exchange_fees = add_long s.exchange_fees fee;
}
