-- ===== src/AutoTrader/Trading.antt =====
-- The trader's own `process_msg` and the loop of its main, from the signal that ends a `pause` on. What
-- its reads return, and when a signal arrives, are arguments.
pub mod Reads
pub mod Offers
pub mod Trades
use pe_exchange.Common.{
  ℕ, zero, suc, Bool, true, false, List, [], ◌∷◌, ◌++◌, Option, none, some, leb, ◌==◌,
  if◌then◌else◌, length, set,
}
use pe_exchange.Common.Text.{Bytes}
use pe_exchange.Common.Scan.{int_ltb}
use pe_exchange.Types.{Order, Event, wrote, killed}
use pe_exchange.Pipes.Reading.{
  ReadResult, byte, end_of_pipe, interrupted, failed, ReadOutcome, returned, overrun, waiting,
  Reading, reading, text_in,
}
use pe_exchange.AutoTrader.{create_buy_order, create_buy_str}

-- As `process_msg` of the exchange, but any negative result of read ends it, and the result of a whole
-- message is 0.
unfoldable pub close_market_msg : Bytes → ℕ → List ReadResult → Reading
close_market_msg msg count left =
    if leb (length msg) (suc count)
    then reading overrun msg left
    else reading (returned 0) (set msg (suc count) 0) left

unfoldable pub process_market_from : Bytes → ℕ → List ReadResult → Reading
unfolding close_market_msg
process_market_from msg count [] = reading waiting msg []
process_market_from msg count (end_of_pipe ∷ rs) = reading (returned 0) msg rs
process_market_from msg count (interrupted ∷ rs) = reading (returned 1) msg rs
process_market_from msg count (failed ∷ rs) = reading (returned 1) msg rs
process_market_from msg count (byte c ∷ rs) =
    let more = process_market_from (set msg count c) (suc count) rs in
    if leb (length msg) count
    then reading overrun msg rs
    else if c == b';'
    then close_market_msg (set msg count c) count rs
    else more

unfoldable pub process_market_msg : Bytes → List ReadResult → Reading
unfolding process_market_from
process_market_msg msg rs = process_market_from msg 0 rs

-- The trader's variables: `pipe` is what the reads of its pipe are going to return, `output` what it has
-- written and signalled.
pub record AutoTrader : Type 0 where
  pub order_id : ℕ
  pub msg : Bytes
  pub pipe : List ReadResult
  pub output : List Event

-- A turn of the loop goes on to the next, or ends the loop; or it waits in a read or for a signal for
-- ever, or writes outside its array.
pub data Turn : Type 0 where
  trades_on : AutoTrader → Turn
  stops : AutoTrader → Turn
  waits_on : Turn
  overruns : Turn

-- `process_msg(ex_pipe_fd, msg)`, whose result is not looked at, and what follows.
abbrev pub after_read : AutoTrader → (AutoTrader → Turn) → Reading → Turn
after_read t k r = elim r.outcome [
  | returned n ↦ k (record t { msg = r.msg; pipe = r.left })
  | overrun ↦ overruns
  | waiting ↦ waits_on
]

module _ (tr_pipe_fd exchange_pid : ℕ) where
  unfoldable pub trader_write_and_kill : AutoTrader → Bytes → AutoTrader
  trader_write_and_kill t text = record t {
    output = t.output ++ (wrote tr_pipe_fd text ∷ killed exchange_pid ∷ []);
  }

  -- The loop that waits for an answer: for each sleep, whether a signal has arrived.
  unfoldable pub wait_for_answer : List Bool → AutoTrader → Turn
  unfolding process_market_msg
  wait_for_answer [] t = waits_on
  wait_for_answer (true ∷ sleeps) t = after_read t trades_on (process_market_msg t.msg t.pipe)
  wait_for_answer (false ∷ sleeps) t =
      wait_for_answer sleeps (record t { output = t.output ++ (killed exchange_pid ∷ []) })

  -- What is done with the message that was read.
  unfoldable pub answer_msg : List Bool → AutoTrader → Turn
  unfolding trader_write_and_kill wait_for_answer
  answer_msg sleeps t = elim (create_buy_order (text_in t.msg) t.order_id) [
    | none ↦ trades_on t
    | some (o, next) ↦
        let t1 = record t { order_id = next } in
        if int_ltb o.quantity 1000
        then wait_for_answer sleeps (trader_write_and_kill t1 (create_buy_str o))
        else stops t1
  ]

  unfoldable pub trade : List Bool → AutoTrader → Turn
  unfolding answer_msg process_market_msg
  trade sleeps t = after_read t (λ t1. answer_msg sleeps t1) (process_market_msg t.msg t.pipe)
