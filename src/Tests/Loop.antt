-- ===== src/Tests/Loop.antt =====
-- The theorems on main's loop, in a run of two traders.
use pe_exchange.Common.{
  zero, suc, ◌≡◌, refl, true, List, [], ◌∷◌, ◌++◌, Option, some, arith, inl, inr,
}
use pe_exchange.Common.Text.{Bytes, codes}
use pe_exchange.Types.{Exchange}
use pe_exchange.Signals.{sigchld_handler, sigusr_handler}
use pe_exchange.Signals.Fifo.{pending}
use pe_exchange.Setup.Launch.{SystemResults, fork_and_pipes}
use pe_exchange.Pipes.Reading.{ReadResult, byte}
use pe_exchange.Pipes.Reading.Message.{All-IsInner, bytes}
use pe_exchange.Pipes.Messages.{parse_msg}
use pe_exchange.Pipes.Messages.Unique.{HasUniqueIds, parse_msg-HasUniqueIds}
use pe_exchange.MainLoop.{
  Round, is_alive, trader_died, Main, goes_on, uses_freed, closed, nothing, serve_message,
  serve_messages, serve_children, main_round, after_poll,
}
use pe_exchange.Signals.{first_signal, sigusr_handler, sigchld_handler}
use pe_exchange.Setup.{start_exchange}
use pe_exchange.Setup.Products.{get_num_products, get_products}
use pe_exchange.Common.Scan.{scan_int}
use pe_exchange.MainLoop.Running.{IsSound, emit-IsSound}
use pe_exchange.MainLoop.{
  find_trader, Round, exits, fails, waits, faults, unfinished, handle_message,
}
use pe_exchange.Pipes.Reading.{text_in}
use pe_exchange.Orderbook.Create.{create_buy_sell_order}
use pe_exchange.Common.Scan.{scan_word}
use pe_exchange.Orderbook.Matching.{finish_order, check_for_match, add_rest}
use pe_exchange.Orderbook.Orders.{find_best_buy}
use pe_exchange.Printing.{print_bk_pos}
use pe_exchange.MainLoop.Steps.{Reach, here, other, message, usr1_arrives, chld_arrives, poll}
use pe_exchange.MainLoop.Start.{main_start, main_vars}
use pe_exchange.MainLoop.Start.First.{main_start-IsRunning, Balanced, Reach-Balanced}
use pe_exchange.MainLoop.Invariant.{IsRunning, Reach-IsRunning}
use pe_exchange.MainLoop.Ends.{ExitsOver, Reach-ExitsOver}
use pe_exchange.MainLoop.Closing.{AllReported, ExitsWell, serve_children-ExitsWell}
use pe_exchange.MainLoop.Answers.{
  told, after_message, serve_message-goes_on, serve_message-uses_freed,
}
use pe_exchange.MainLoop.Turns.{main_round-Reach}
use pe_exchange.MainLoop.Serving.{Serves, serve_messages-Serves}
use pe_exchange.Tests.State.{products}
use pe_exchange.Tests.Reading.{good_results}

abbrev args : List (Bytes × SystemResults)
args = (codes "a", good_results 5 6 1000) ∷ (codes "b", good_results 7 8 1001) ∷ []

abbrev file : Option Bytes
file = some (codes "2" ++ (10 ∷ codes "GPU" ++ (10 ∷ codes "Router" ++ (10 ∷ []))))

abbrev body : Bytes
body = codes "SELL 0 GPU 5 10"

-- The first trader is going to send an order, the second nothing but an end.
abbrev pipes : List (List ReadResult)
pipes = bytes body (byte b';' ∷ []) ∷ (byte b';' ∷ []) ∷ []

abbrev start : Main
start = main_vars products (fork_and_pipes args) pipes

main_start-start : main_start args file true pipes ≡ some start
unfolding main_start get_num_products scan_int get_products
main_start-start = refl

start-IsRunning : IsRunning start 0 start
start-IsRunning = main_start-IsRunning args file true pipes start (omega arith) main_start-start

-- The first trader's signal has come.
abbrev signalled : Main
signalled = record start { signals = sigusr_handler start.signals 1000 }

start-signalled : Reach start 0 signalled
start-signalled = other here (goes_on signalled) (usr1_arrives 1000) refl

signalled-IsRunning : IsRunning start 0 signalled
signalled-IsRunning =
    Reach-IsRunning start 0 signalled start-IsRunning start-signalled (omega arith)

serve_message-goes_on_example :
    (s : Exchange) × (parse_msg
        (told signalled 0 (codes "SELL 0 GPU 5 10;"))
        products
        (codes "SELL 0 GPU 5 10;")
        0
      ≡ some s)
    × (serve_message signalled ≡ goes_on (after_message signalled 0 s []))
unfolding find_trader main_vars fork_and_pipes first_signal sigusr_handler
serve_message-goes_on_example =
    serve_message-goes_on start 0 signalled 0 body [] signalled-IsRunning (omega arith) refl refl
      (All-IsInner body refl) (omega arith) (omega arith)

sell_served :
    (s : Exchange) × (parse_msg
        (told signalled 0 (codes "SELL 0 GPU 5 10;"))
        products
        (codes "SELL 0 GPU 5 10;")
        0
      ≡ some s)
    × (serve_message signalled ≡ goes_on (after_message signalled 0 s []))
unfolding find_trader main_vars fork_and_pipes first_signal sigusr_handler
sell_served =
    serve_message-goes_on start 0 signalled 0 body [] signalled-IsRunning (omega arith) refl refl
      (All-IsInner body refl) (omega arith) (omega arith)

-- After the first trader's order.
abbrev served : Main
served = after_message signalled 0 sell_served.0 []

start-served : Reach start 1 served
unfolding main_vars sigusr_handler
start-served = message start-signalled refl sell_served.2

Reach-Balanced_example : IsRunning start 1 served × Balanced served.exchange
Reach-Balanced_example =
    Reach-Balanced args file true pipes start (omega arith) main_start-start 1 served start-served
      (omega arith)

told_sell-IsSound :
    IsSound start.exchange 2 0 (told signalled 0 (codes "SELL 0 GPU 5 10;")) signalled.num_active
unfolding main_vars
told_sell-IsSound =
    emit-IsSound start.exchange 2 0 signalled.exchange signalled.num_active _
      signalled-IsRunning.sound

parse_msg-HasUniqueIds_example : HasUniqueIds sell_served.0
parse_msg-HasUniqueIds_example =
    parse_msg-HasUniqueIds (told signalled 0 (codes "SELL 0 GPU 5 10;")) sell_served.0 products
      (codes "SELL 0 GPU 5 10;") 0 told_sell-IsSound.valid told_sell-IsSound.unique sell_served.1

-- The second trader's signal: its message has no text.
abbrev lone_end : Main
lone_end = record start { signals = sigusr_handler start.signals 1001 }

serve_message-uses_freed_example : serve_message lone_end ≡ uses_freed
unfolding find_trader main_vars fork_and_pipes first_signal sigusr_handler
serve_message-uses_freed_example = serve_message-uses_freed lone_end 1 [] refl refl (omega arith)

-- The first trader dies.
abbrev one_dead : Main
one_dead = record start { exchange = trader_died start.exchange 0; num_active = 1 }

start-one_dead : Reach start 0 one_dead
unfolding after_poll is_alive main_vars fork_and_pipes
start-one_dead = other here (after_poll start (closed 0)) (poll (closed 0)) refl

Reach-ExitsOver_example : ExitsOver start 0 (after_poll one_dead (closed 1))
Reach-ExitsOver_example =
    Reach-ExitsOver start 0 one_dead (after_poll one_dead (closed 1)) start-IsRunning start-one_dead
      (omega arith) (poll (closed 1))

-- Both traders' processes have ended.
abbrev second_ended : Main
second_ended = record start { signals = sigchld_handler start.signals 1001 }

abbrev both_ended : Main
both_ended = record second_ended { signals = sigchld_handler second_ended.signals 1000 }

start-both_ended : Reach start 0 both_ended
start-both_ended =
    other (other here (goes_on second_ended) (chld_arrives 1001) refl) (goes_on both_ended)
      (chld_arrives 1000) refl

both_ended-AllReported : AllReported both_ended (pending both_ended.signals.sigchld)
unfolding main_vars fork_and_pipes is_alive sigchld_handler start_exchange
both_ended-AllReported zero a = (1000, refl, inr (inl refl))
both_ended-AllReported (suc zero) a = (1001, refl, inl refl)
both_ended-AllReported (suc (suc i)) a = absurd cc

serve_children-ExitsWell_example : ExitsWell start 0 (serve_children 3 both_ended)
unfolding main_vars sigchld_handler
serve_children-ExitsWell_example =
    serve_children-ExitsWell start 0 both_ended
      (Reach-IsRunning start 0 both_ended start-IsRunning start-both_ended (omega arith))
      (record { places = refl; front_in = omega arith; len_in = omega arith; back_at = refl }) refl
      both_ended-AllReported

-- The first trader's order is pending, and the second trader's process has ended.
abbrev both_signals : Main
both_signals = record signalled { signals = sigchld_handler signalled.signals 1001 }

start-both_signals : Reach start 0 both_signals
start-both_signals = other start-signalled (goes_on both_signals) (chld_arrives 1001) refl

serve_messages-Serves_example : Serves start 0 both_signals (serve_messages 2 both_signals)
unfolding main_vars sigusr_handler sigchld_handler
serve_messages-Serves_example =
    serve_messages-Serves start 2 0 both_signals start-IsRunning start-both_signals (omega arith)
      (omega arith)

-- Main after a round, or as it was.
abbrev main_after : Main → Round → Main
main_after m (goes_on m') = m'
main_after m (exits s) = m
main_after m fails = m
main_after m waits = m
main_after m faults = m
main_after m uses_freed = m
main_after m unfinished = m

abbrev after_both : Main
after_both = main_after start (main_round both_signals (nothing true))

round_both : main_round both_signals (nothing true) ≡ goes_on after_both
unfolding main_round main_vars fork_and_pipes sigusr_handler sigchld_handler scan_int parse_msg
    handle_message text_in create_buy_sell_order scan_word finish_order check_for_match
    find_best_buy print_bk_pos add_rest
round_both = refl

main_round-Reach_example :
    Reach start 1 after_both
    × (after_both.signals.sigusr.len ≡ 0)
    × (after_both.signals.sigchld.len ≡ 0)
unfolding main_vars sigusr_handler sigchld_handler
main_round-Reach_example =
    main_round-Reach start 0 both_signals after_both (nothing true) start-both_signals (omega arith)
      (omega arith) round_both
