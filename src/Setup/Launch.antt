-- ===== src/Setup/Launch.antt =====
-- `fork_and_pipes` of pe_setup.c and `print_trader_starting` of pe_printing.c. What the calls of the
-- system give for each trader is an argument. The code is that of the exchange's own process; a child
-- runs the trader's binary.
pub mod Numbered
use pe_exchange.Common.{
  ℕ, suc, Bool, true, false, List, [], ◌∷◌, ◌++◌, Option, none, some, if◌then◌else◌,
}
use pe_exchange.Common.Text.{Bytes, codes, show}
use pe_exchange.Types.{Trader, Event, printed}
use pe_exchange.Printing.{log_prefix, newline}
use pe_exchange.Setup.{initialise_trader}

-- Of one trader: whether the two calls of `mkfifo` succeed, and what `fork` and the two calls of `open`
-- return, with none for a negative result.
pub record SystemResults : Type 0 where
  pub exchange_pipe : Bool
  pub trader_pipe : Bool
  pub fork_res : Option ℕ
  pub ex_fd : Option ℕ
  pub tr_fd : Option ℕ

-- The trader that is set up, and the process ID for the other array: `none` for each of the five
-- failures, tested in this order.
unfoldable pub launch : ℕ → SystemResults → Option (Trader × ℕ)
unfolding initialise_trader
launch i r =
    if r.exchange_pipe
    then (if r.trader_pipe
        then (elim r.fork_res [
          | none ↦ none
          | some fork_res ↦ elim r.ex_fd [
            | none ↦ none
            | some ex_fd ↦ elim r.tr_fd [
              | none ↦ none
              | some tr_fd ↦ some (initialise_trader i ex_fd tr_fd fork_res, fork_res)
            ]
          ]
        ])
        else none)
    else none

-- FIFO_EXCHANGE and FIFO_TRADER
abbrev pub fifo_exchange : ℕ → Bytes
fifo_exchange i = codes "/tmp/pe_exchange_" ++ show i

abbrev pub fifo_trader : ℕ → Bytes
fifo_trader i = codes "/tmp/pe_trader_" ++ show i

abbrev pub log_line : Bytes → Event
log_line text = printed (log_prefix ++ (text ++ newline))

unfoldable pub print_trader_starting : Trader → Bytes → List Event
print_trader_starting t binary =
    log_line (codes " Created FIFO " ++ fifo_exchange t.id)
    ∷ log_line (codes " Created FIFO " ++ fifo_trader t.id)
    ∷ log_line (codes " Starting trader " ++ (show t.id ++ (codes " (" ++ (binary ++ codes ")"))))
    ∷ log_line (codes " Connected to " ++ fifo_exchange t.id)
    ∷ log_line (codes " Connected to " ++ fifo_trader t.id)
    ∷ []

-- What `fork_and_pipes` leaves: its result, with none for -1, the traders and process IDs that it has
-- filled in, and what it has printed.
pub record Forked : Type 0 where
  pub failed_at : Option ℕ
  pub trader_list : List Trader
  pub pids : List ℕ
  pub output : List Event

-- The loop from index `i` on, over the binaries' names.
unfoldable pub fork_from : ℕ → List (Bytes × SystemResults) → Forked
unfolding launch print_trader_starting
fork_from i [] = record { failed_at = none; trader_list = []; pids = []; output = [] }
fork_from i ((binary, r) ∷ rest) =
    let more = fork_from (suc i) rest in
    elim (launch i r) [
      | none ↦ record { failed_at = some i; trader_list = []; pids = []; output = [] }
      | some (t, fork_res) ↦ record {
        failed_at = more.failed_at;
        trader_list = t ∷ more.trader_list;
        pids = fork_res ∷ more.pids;
        output = print_trader_starting t binary ++ more.output;
      }
    ]

unfoldable pub fork_and_pipes : List (Bytes × SystemResults) → Forked
unfolding fork_from
fork_and_pipes args = fork_from 0 args
