-- ===== src/Tests/Trading.antt =====
-- The theorems on the automatic trader's loop, for an offer of five.
use pe_exchange.Common.{refl, true, false, [], ◌∷◌, arith, replicate}
use pe_exchange.Common.Text.{codes}
use pe_exchange.Common.Scan.{is_space}
use pe_exchange.Common.Scan.Numeral.{IsWord}
use pe_exchange.Pipes.Reading.{byte, process_msg, interrupted}
use pe_exchange.Pipes.Reading.Message.{bytes, All-IsInner}
use pe_exchange.AutoTrader.{create_buy_str}
use pe_exchange.AutoTrader.Trading.{AutoTrader, trade, process_market_msg}
use pe_exchange.AutoTrader.Trading.Reads.{Alike, process_market_msg-Alike}
use pe_exchange.AutoTrader.Trading.Offers.{IsName, market_body}
use pe_exchange.AutoTrader.Trading.Trades.{answer_to, Traded, trade-Traded}

process_market_msg-Alike_example :
    Alike
      (process_msg (replicate 50 0) (byte b'A' ∷ interrupted ∷ []))
      (process_market_msg (replicate 50 0) (byte b'A' ∷ interrupted ∷ []))
process_market_msg-Alike_example =
    process_market_msg-Alike (replicate 50 0) (byte b'A' ∷ interrupted ∷ [])

gpu-IsWord : IsWord (codes "GPU")
unfolding is_space
gpu-IsWord = record { some_character = omega arith; no_space = (refl, (refl, (refl, tt))) }

gpu-IsName : IsName (codes "GPU")
gpu-IsName = record { inner = All-IsInner (codes "GPU") refl; short = omega arith }

abbrev trader : AutoTrader
trader = record {
  order_id = 0;
  msg = replicate 50 0;
  pipe =
      bytes (market_body false (codes "GPU") 5 10)
        (byte b';' ∷ bytes (codes "MARKET BUY GPU 1 10") (byte b';' ∷ []));
  output = [];
}

-- The next message comes during the third sleep, and is no answer to the order.
trade-Traded_example :
    Traded 4 999 trader
      (create_buy_str (answer_to (codes "GPU") 5 10 0))
      (codes "MARKET BUY GPU 1 10")
      2
      []
      (trade 4 999 (false ∷ false ∷ true ∷ []) trader)
trade-Traded_example =
    trade-Traded 4 999 trader (codes "GPU") 5 10 (codes "MARKET BUY GPU 1 10") 2 [] [] gpu-IsName
      gpu-IsWord (omega arith) (omega arith) (omega arith) refl
      (All-IsInner (codes "MARKET BUY GPU 1 10") refl) (omega arith) refl
