-- ===== src/MainLoop/Start.antt =====
-- The part of main in front of its loop.
pub mod Opened
pub mod First
use pe_exchange.Common.{
  false, ℕ, Bool, true, List, [], ◌∷◌, ◌++◌, Option, none, some, ◌==◌, if◌then◌else◌, ltb, length,
  replicate,
}
use pe_exchange.Common.Text.{Bytes}
use pe_exchange.Types.{Trader, Event, printed, Exchange}
use pe_exchange.Printing.{print_products_starting}
use pe_exchange.Signals.{SignalQueue, Signals}
use pe_exchange.Setup.{start_exchange}
use pe_exchange.Setup.Products.{minus_one, get_num_products, get_products}
use pe_exchange.Setup.Launch.{SystemResults, Forked, fork_and_pipes}
use pe_exchange.Pipes.Reading.{ReadResult}
use pe_exchange.MainLoop.{Main}

-- The global arrays, and a zero in each counter.
abbrev pub no_signals : SignalQueue
no_signals = record { queue = replicate 100 0; len = 0; front = 0; back = 0 }

-- The exchange once the traders run: what was printed before stands in front of MARKET OPEN.
unfoldable pub opened : List Bytes → List Trader → List Event → Exchange
unfolding start_exchange
opened products ts before =
    let s = start_exchange products ts in
    record s { output = (printed (print_products_starting products) ∷ before) ++ s.output }

-- The variables at the loop's first turn.
unfoldable pub main_vars : List Bytes → Forked → List (List ReadResult) → Main
unfolding opened
main_vars products f pipes = record {
  products = products;
  pids = f.pids;
  exchange = opened products f.trader_list f.output;
  signals = record { sigusr = no_signals; sigchld = no_signals };
  num_active = length f.trader_list;
  msg = replicate 50 0;
  pipes = pipes;
  freed = false;
}

-- From main's arguments after the file's name, the product file, and whether `epoll_create` succeeds;
-- `none` where main returns 1 before its loop.
unfoldable pub main_start :
    List (Bytes × SystemResults) → Option Bytes → Bool → List (List ReadResult) → Option Main
unfolding main_vars fork_and_pipes
main_start args file epoll pipes =
    let num_products = get_num_products file in
    if length args == 0
    then none
    else if num_products == minus_one
    then none
    else elim (get_products file num_products) [
      | none ↦ none
      | some products ↦
          let f = fork_and_pipes args in
          elim f.failed_at [
            | some j ↦ none
            | none ↦ if epoll then some (main_vars products f pipes) else none
          ]
    ]
