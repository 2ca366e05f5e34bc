-- ===== src/Tests/Runs.antt =====
-- The program's end-to-end tests, run on the model.
use pe_exchange.Common.{ℕ, ◌≡◌, refl, List, [], ◌∷◌, ◌++◌, Option, none, some}
use pe_exchange.Common.Text.{Bytes, codes, show}
use pe_exchange.Types.{Exchange}
use pe_exchange.Printing.{print_positions, newline, tab}
use pe_exchange.Common.Scan.{scan_word, scan_int}
use pe_exchange.Common.Text.{show_int, show_long}
use pe_exchange.Orderbook.Create.{create_buy_sell_order}
use pe_exchange.Orderbook.Matching.{finish_order, check_for_match, add_rest}
use pe_exchange.Orderbook.Orders.{find_best_sell, find_best_buy}
use pe_exchange.Printing.{print_bk_pos}
use pe_exchange.Pipes.Messages.{parse_msg}
use pe_exchange.Setup.{initialise_trader, start_exchange}

abbrev products : List Bytes
products = codes "GPU" ∷ codes "Router" ∷ []

abbrev one_trader : Exchange
one_trader = start_exchange products (initialise_trader 0 5 6 1000 ∷ [])

abbrev run_messages : List Bytes → Exchange → Option Exchange
run_messages [] s = some s
run_messages (m ∷ ms) s = elim (parse_msg s products m 0) [
  | none ↦ none
  | some s' ↦ run_messages ms s'
]

abbrev reports : Option Exchange → Bytes × ℕ
reports none = ([], 0)
reports (some s) = (print_positions s.trader_list, s.exchange_fees)

abbrev match_with_self : List Bytes
match_with_self =
    codes "BUY 0 GPU 30 30;"
    ∷ codes "SELL 1 GPU 30 30;"
    ∷ codes "BUY 2 Router 40 40;"
    ∷ codes "BUY 3 Router 50 50;"
    ∷ codes "SELL 4 Router 30 70;"
    ∷ codes "SELL 5 GPU 10 10;"
    ∷ codes "SELL 6 GPU 20 20;"
    ∷ codes "SELL 7 GPU 30 30;"
    ∷ codes "SELL 8 GPU 40 40;"
    ∷ codes "SELL 9 GPU 50 50;"
    ∷ codes "SELL 10 GPU 60 60;"
    ∷ codes "BUY 11 GPU 200 200;"
    ∷ codes "BUY 12 Router 50 50;"
    ∷ codes "BUY 13 Router 60 60;"
    ∷ codes "BUY 14 Router 60 60;"
    ∷ codes "BUY 15 Router 70 70;"
    ∷ codes "BUY 16 Router 80 80;"
    ∷ codes "SELL 17 Router 500 10;"
    ∷ []

-- The positions and the fees that tests/E2E/match_with_self expects at the end.
match_with_self_positions : reports (run_messages match_with_self one_trader) ≡ (
  codes "[PEX]"
      ++ (tab
          ++ (codes "--POSITIONS--"
              ++ (newline
                  ++ (codes "[PEX]"
                      ++ (tab ++ (codes "Trader 0: GPU 0 ($-94), Router 0 ($-251)" ++ newline)))))),
  345,
)
unfolding start_exchange initialise_trader parse_msg create_buy_sell_order scan_word scan_int
    finish_order check_for_match find_best_sell print_bk_pos add_rest find_best_buy show show_int
    show_long
match_with_self_positions = refl
