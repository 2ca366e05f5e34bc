-- ===== src/MainLoop.antt =====
-- The loop of main in pe_exchange.c, with `trader_died` and `all_traders_died` of pe_setup.c. What the
-- system gives it is an argument: what each read of a trader's pipe returns, what `epoll_wait` returns,
-- and when a signal arrives.
pub mod Steps
pub mod Alive
pub mod Running
pub mod Served
pub mod Invariant
pub mod Start
pub mod Ends
pub mod Closing
pub mod Answers
pub mod Turns
pub mod Stopping
pub mod Serving
use pe_exchange.Common.{
  ℕ, zero, suc, ◌+◌, ◌<◌, ◌≡◌, Bool, true, false, List, [], ◌∷◌, ◌++◌, Option, none, some, ltb,
  ◌==◌, ◌||◌, ◌&&◌, if◌then◌else◌, sub_int, length, get_elem?, get_or, set, modify,
}
use pe_exchange.Common.Text.{Bytes, codes, show, show_long}
use pe_exchange.Types.{Trader, Exchange, Event, printed}
use pe_exchange.Printing.{log_prefix, newline}
use pe_exchange.Signals.{Signals, SignalQueue, first_signal, pop_sigusr, pop_sigchld}
use pe_exchange.Common.Scan.{int_ltb}
use pe_exchange.Setup.Products.{cut_last}
use pe_exchange.Orderbook.Matching.{emit}
use pe_exchange.Pipes.Reading.{
  ReadResult, ReadOutcome, returned, overrun, waiting, Reading, process_msg, text_in, clear_msg,
}
use pe_exchange.Pipes.Messages.{parse_msg}

-- The trader is marked dead; the calls that take its pipe from epoll, unlink and close it change
-- nothing that is modelled.
unfoldable pub trader_died : Exchange → ℕ → Exchange
unfolding emit
trader_died s i =
    emit (record s { trader_list = modify s.trader_list i (λ t. record t { alive = false }) })
      (printed (log_prefix ++ (codes " Trader " ++ (show i ++ (codes " disconnected" ++ newline))))
        ∷ [])

-- The last two lines that are printed. The memory is given back before.
unfoldable pub all_traders_died : Exchange → Exchange
unfolding emit
all_traders_died s = emit s (
    printed (log_prefix ++ (codes " Trading completed" ++ newline))
    ∷ printed (
        log_prefix
        ++ (codes " Exchange fees collected: $" ++ (show_long s.exchange_fees ++ newline)))
    ∷ [])

-- The variables of main. `pipes` is what the reads of each trader's pipe are going to return,
-- and `freed` whether `free_all` has given back the memory of the exchange.
pub record Main : Type 0 where
  pub products : List Bytes
  pub pids : List ℕ
  pub exchange : Exchange
  pub signals : Signals
  pub num_active : ℕ
  pub msg : Bytes
  pub pipes : List (List ReadResult)
  pub freed : Bool

-- How a part of the loop ends: main goes on; it exits with 0 after the last trader's death; it returns
-- 1; it waits in a read for ever; it writes or reads outside an array; it uses memory that it has
-- freed; or the fuel of a loop has run out, which no run of the program does.
pub data Round : Type 0 where
  goes_on : Main → Round
  exits : Exchange → Round
  fails : Round
  waits : Round
  faults : Round
  uses_freed : Round
  unfinished : Round

abbrev pub and_then : Round → (Main → Round) → Round
and_then (goes_on m) k = k m
and_then (exits s) k = exits s
and_then fails k = fails
and_then waits k = waits
and_then faults k = faults
and_then uses_freed k = uses_freed
and_then unfinished k = unfinished

-- The loop that looks for the trader of a process, at index `i`; none leaves `trader_ind` at -1.
unfoldable pub find_trader : ℕ → List ℕ → ℕ → Option ℕ
find_trader pid [] i = none
find_trader pid (p ∷ pids) i =
    let rest = find_trader pid pids (suc i) in if pid == p then some i else rest

unfoldable pub command_line : ℕ → Bytes → Bytes
command_line i text =
    log_prefix
    ++ (codes " [T"
        ++ (show i ++ (codes "] Parsing command: <" ++ (cut_last text ++ (codes ">" ++ newline)))))

-- The message of trader `i` is printed and handled, and the arrays are cleared. An empty text has no
-- last character to cut off: the source writes in front of its array. Whatever the text is, `parse_msg`
-- looks at the traders.
unfoldable pub handle_message : Main → Signals → ℕ → Reading → Round
unfolding emit command_line
handle_message m signals i r =
    let text = text_in r.msg in
    if length text == 0
    then faults
    else if m.freed
    then uses_freed
    else elim (parse_msg (emit m.exchange (printed (command_line i text) ∷ [])) m.products text i) [
      | none ↦ unfinished
      | some s ↦ goes_on (record m {
        exchange = s;
        signals = signals;
        msg = clear_msg r.msg;
        pipes = set m.pipes i r.left;
      })
    ]

-- `free_all`, of which only this matters: what main passes to `parse_msg` is not to be used again.
unfoldable pub free_all : Main → Main
free_all m = record m { freed = true }

-- After `process_msg`. On 0 and 1 main frees everything, and goes on as after a message: the `return 1`
-- of the source is commented out.
unfoldable pub after_reading : Main → Signals → ℕ → Reading → ReadOutcome → Round
after_reading m signals i r waiting = waits
after_reading m signals i r overrun = faults
after_reading m signals i r (returned n) =
    handle_message (if (n == 1) || (n == 0) then free_all m else m) signals i r

-- A pass of the loop over SIGUSR1.
unfoldable pub serve_message : Main → Round
unfolding find_trader after_reading first_signal pop_sigusr process_msg
serve_message m = elim (find_trader (first_signal m.signals.sigusr) m.pids 0) [
  | none ↦ faults
  | some i ↦
      let r = process_msg m.msg (get_or m.pipes i []) in
      after_reading m (pop_sigusr m.signals) i r r.outcome
]

unfoldable pub is_alive : List Trader → ℕ → Bool
is_alive [] i = false
is_alive (t ∷ ts) zero = t.alive
is_alive (t ∷ ts) (suc i) = is_alive ts i

-- A living trader dies, and is counted off.
unfoldable pub bury : ℕ → Exchange × ℕ → Exchange × ℕ
unfolding is_alive trader_died
bury i (s, num_active) =
    if is_alive s.trader_list i then (trader_died s i, sub_int num_active 1) else (s, num_active)

-- The loop over the process IDs, at index `i`: every trader of the dead process.
unfoldable pub bury_process : ℕ → List ℕ → ℕ → Exchange × ℕ → Exchange × ℕ
unfolding bury
bury_process pid [] i r = r
bury_process pid (p ∷ pids) i r = bury_process pid pids (suc i) (if pid == p then bury i r else r)

-- `if (num_active == 0)`
unfoldable pub end_if_over : Main → Exchange × ℕ → Round
unfolding all_traders_died
end_if_over m (s, num_active) =
    if num_active == 0
    then exits (all_traders_died s)
    else goes_on (record m { exchange = s; num_active = num_active })

-- A pass of the loop over SIGCHLD.
unfoldable pub serve_child : Main → Round
unfolding bury_process end_if_over first_signal pop_sigchld
serve_child m =
    end_if_over (record m { signals = pop_sigchld m.signals })
      (bury_process (first_signal m.signals.sigchld) m.pids 0 (m.exchange, m.num_active))

-- What `epoll_wait` returns: the trader whose pipe was closed, or nothing, with EINTR in errno or not.
pub data Poll : Type 0 where
  closed : ℕ → Poll
  nothing : Bool → Poll

unfoldable pub after_poll : Main → Poll → Round
unfolding bury is_alive end_if_over
after_poll m (nothing eintr) = if eintr then goes_on m else fails
after_poll m (closed i) =
    if is_alive m.exchange.trader_list i
    then end_if_over m (bury i (m.exchange, m.num_active))
    else goes_on m

-- The two inner loops, whose lengths are ints, on fuel, which is one more than the queue's length; each pass takes one signal.
unfoldable pub serve_messages : ℕ → Main → Round
unfolding serve_message
serve_messages zero m = unfinished
serve_messages (suc fuel) m =
    if int_ltb 0 m.signals.sigusr.len
    then and_then (serve_message m) (λ m'. serve_messages fuel m')
    else goes_on m

unfoldable pub serve_children : ℕ → Main → Round
unfolding serve_child
serve_children zero m = unfinished
serve_children (suc fuel) m =
    if int_ltb 0 m.signals.sigchld.len && (m.signals.sigusr.len == 0)
    then and_then (serve_child m) (λ m'. serve_children fuel m')
    else goes_on m

-- A pass of main's loop during which no signal arrives.
unfoldable pub main_round : Main → Poll → Round
unfolding serve_messages serve_children after_poll
main_round m p =
    and_then (serve_messages (suc m.signals.sigusr.len) m)
      λ m1. and_then (serve_children (suc m1.signals.sigchld.len) m1) λ m2. after_poll m2 p
