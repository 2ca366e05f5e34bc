-- ===== src/Pipes/Messages/Parse.antt =====
-- What every message of a trader comes to: `parse_msg` as a whole.
use pe_exchange.Common.{◌>>=◌, ℕ, Bool, true, false, List, Option, none, some, length}
use pe_exchange.Common.Text.{Bytes}
use pe_exchange.Types.{Exchange}
use pe_exchange.Pipes.Writing.{write_invalid}
use pe_exchange.Orderbook.Invariant.Steps.{IsValid}
use pe_exchange.Orderbook.Invariant.Finish.{Finishes}
use pe_exchange.Pipes.Messages.{buy_sell_msg, amend_msg, cancel_msg, answer, parse_msg}
use pe_exchange.Pipes.Messages.Cases.{MessageCase, parse_msg-MessageCase}
use pe_exchange.Pipes.Messages.Keeps.{IsRoomy, Keeps, Keeps-emit, Handled, unchanged}
use pe_exchange.Pipes.Messages.NewOrder.{buy_sell_msg-Handled}
use pe_exchange.Pipes.Messages.Change.{amend_msg-Handled, cancel_msg-Keeps}

Keeps-answer :
    (n : ℕ) (s : Exchange) (trader_ind : ℕ) (r : Exchange × Bool)
    → Keeps n s r.0
    → Keeps n s (answer trader_ind r)
unfolding answer
Keeps-answer n s trader_ind (t, true) k = k
Keeps-answer n s trader_ind (t, false) k =
    Keeps-emit n s t (write_invalid t.trader_list trader_ind) k

Finishes-answer :
    (n : ℕ) (s : Exchange) (trader_ind : ℕ) (r : Option (Exchange × Bool))
    → Handled n s r
    → Finishes n s (r >>= λ x. some (answer trader_ind x))
Finishes-answer n s trader_ind none h = h
Finishes-answer n s trader_ind (some (t, good)) h = Keeps-answer n s trader_ind (t, good) h

-- For an exchange that is valid for the products, in which each price level of each book has room
-- for one more order of any size, `parse_msg` returns, whatever the text of the message and
-- whichever the trader. After it the exchange is valid again: each book is within the limits and
-- shown by the printed levels, and no buy order meets a sell order. The sum of all balances and
-- fees is kept modulo 2^64, and the sum of all positions in each product modulo 2^32.
pub parse_msg-Finishes :
    (s : Exchange) (products : List Bytes) (msg : Bytes) (trader_ind : ℕ)
    → IsValid (length products) s
    → IsRoomy s
    → Finishes (length products) s (parse_msg s products msg trader_ind)
parse_msg-Finishes s products msg trader_ind v room =
    let n = length products in
    elim (parse_msg-MessageCase products s msg trader_ind) [
      | MessageCase.new_order e ↦ rw e (
          Finishes-answer n s trader_ind (buy_sell_msg s products msg trader_ind)
            (buy_sell_msg-Handled products s v room trader_ind msg))
      | MessageCase.amend e ↦ rw e (
          Finishes-answer n s trader_ind (amend_msg s n msg trader_ind)
            (amend_msg-Handled n s v room trader_ind msg))
      | MessageCase.cancel e ↦ rw e (
          Keeps-answer n s trader_ind (cancel_msg s n msg trader_ind)
            (cancel_msg-Keeps n s v room trader_ind msg))
      | MessageCase.unknown e ↦ rw e (Keeps-answer n s trader_ind (s, false) (unchanged n s v))
    ]
