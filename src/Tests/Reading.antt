-- ===== src/Tests/Reading.antt =====
-- The theorems on the reading of messages and on the traders' processes, at small inputs.
use pe_exchange.Pipes.Writing.{
  write_accepted, write_amended, write_cancelled, write_fill, write_invalid,
}
use pe_exchange.Pipes.Lengths.{FitsLine, IsShown, messages-FitsLine}
use pe_exchange.Orderbook.Levels.Shows.{IsOrder}
use pe_exchange.Types.{Order}
use pe_exchange.Tests.State.{traders, buy_eight, sell_five, buy_eight-IsOrder, sell_five-IsOrder}
use pe_exchange.Common.{ℕ, ◌≡◌, refl, true, List, [], ◌∷◌, none, some, arith, replicate}
use pe_exchange.Common.Text.{Bytes, codes}
use pe_exchange.Setup.Launch.{SystemResults, fork_and_pipes}
use pe_exchange.Setup.Launch.Numbered.{AreLaunched, fork_and_pipes-AreLaunched}
use pe_exchange.Pipes.Reading.{byte, overrun, process_msg}
use pe_exchange.Pipes.Reading.Message.{
  All-IsInner, bytes, IsRead, process_msg-IsRead, process_msg-overrun,
}

process_msg-IsRead_example :
    IsRead
      (codes "CANCEL 0")
      (replicate 50 0)
      (byte b'B' ∷ [])
      (process_msg (replicate 50 0) (bytes (codes "CANCEL 0") (byte b';' ∷ byte b'B' ∷ [])))
process_msg-IsRead_example =
    process_msg-IsRead (codes "CANCEL 0") (replicate 50 0) (byte b'B' ∷ [])
      (All-IsInner (codes "CANCEL 0") refl) (omega arith)

-- Three bytes and the end, into four places.
process_msg-overrun_example :
    (process_msg (replicate 4 0) (bytes (codes "BUY") (byte b';' ∷ []))).outcome ≡ overrun
process_msg-overrun_example =
    process_msg-overrun (codes "BUY") (replicate 4 0) []
      (λ e. omega arith, (λ e. omega arith, (λ e. omega arith, tt))) (omega arith)

abbrev pub good_results : ℕ → ℕ → ℕ → SystemResults
good_results ex_fd tr_fd fork_res = record {
  exchange_pipe = true;
  trader_pipe = true;
  fork_res = some fork_res;
  ex_fd = some ex_fd;
  tr_fd = some tr_fd;
}

-- The second of three traders cannot be forked.
abbrev two_of_three : List (Bytes × SystemResults)
two_of_three =
    (codes "a", good_results 5 6 1000)
    ∷ (codes "b", record (good_results 7 8 1001) { fork_res = none })
    ∷ (codes "c", good_results 9 10 1002)
    ∷ []

fork_and_pipes-AreLaunched_example :
    AreLaunched 0 two_of_three
      (fork_and_pipes two_of_three).trader_list
      (fork_and_pipes two_of_three).pids
      (fork_and_pipes two_of_three).failed_at
fork_and_pipes-AreLaunched_example = fork_and_pipes-AreLaunched two_of_three

fill-IsShown : (o : Order) → IsOrder o → o.product ≡ codes "GPU" → o.order_id ≡ 0 → IsShown o
fill-IsShown o ranges name id = record {
  ranges = ranges;
  short = rw name (omega arith);
  id_max = omega arith;
}

messages-FitsLine_example :
    FitsLine (write_accepted buy_eight 1 traders)
    × FitsLine (write_amended buy_eight 1 traders)
    × FitsLine (write_cancelled 0 (codes "GPU") 1 traders true)
    × FitsLine (write_fill buy_eight sell_five 5 traders)
    × FitsLine (write_invalid traders 1)
messages-FitsLine_example =
    messages-FitsLine traders 1 buy_eight sell_five 5
      (fill-IsShown buy_eight buy_eight-IsOrder refl refl)
      (fill-IsShown sell_five sell_five-IsOrder refl refl) (omega arith)
