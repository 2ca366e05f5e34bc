-- ===== src/Lib.antt =====
-- A stock exchange for automatic traders, in C: the program pe_exchange.
--
-- Traders are processes that send text messages through pipes (BUY, SELL, AMEND, CANCEL) and announce
-- each with a signal. The signal handlers of pe_exchange.c put the process IDs of the senders into a
-- circular queue; main takes them out, reads the sender's message and hands it to `parse_msg` of
-- pe_pipes.c. Its handlers make an order or find one (pe_orderbook.c), answer the sender, tell the
-- others, match the order with the other side of its product's book, put what is left of it at the end
-- of its own side's book, and print the books and the positions (pe_printing.c). Beside the books of
-- single orders the exchange keeps, for each product and side, a list of price levels that it prints.
--
-- The files:
--   Common      names and tests that all share; lists as arrays (Common/Lists, Common/Arrays), machine
--               integers (Common/Word), numerals (Common/Text), sscanf (Common/Scan), the rounding of
--               type double (Common/Double).
--   Types       pe_common.h: the structs, and `Exchange`, all that main passes to the handlers.
--   Orderbook   pe_orderbook.c. Levels: `add_to_prints`, `remove_from_products`,
--               `delete_order_prints`, `set_len` and their callers. Orders: the books, `find_order`,
--               `find_best_sell`, `find_best_buy`. Create: `create_order` and what calls it. Matching:
--               `match_new_buy`, `match_new_sell`, `check_for_match`. Invariant: what is true of
--               the exchange between two messages. Weight: what the books hold, and that matching adds
--               nothing to it. Linked: the same books as linked nodes in a heap.
--   Pipes       pe_pipes.c. Writing: the messages to the traders. Reading: `process_msg`, as a function
--               of what each call of read returns. Messages: `buy_sell_msg`, `amend_msg`,
--               `cancel_msg`, `parse_msg`, and what they do to the books and the traders (Effect).
--               Lengths: how long the messages to the traders are.
--   Printing    pe_printing.c.
--   Signals     the signal queues of pe_exchange.c.
--   Setup       pe_setup.c: the product file, the start of the traders (Launch), and the first state of
--               the exchange.
--   MainLoop    main of pe_exchange.c, with `trader_died` and `all_traders_died` of pe_setup.c. Start: up
--               to the loop. MainLoop itself: the passes of the loop. Steps: the passes, and what
--               arrives from outside between them, as a relation; the other files: what holds on the way
--               (Running, Invariant), of a message (Served, Answers), of the loops
--               (Turns, Stopping, Serving), at the end (Ends, Closing).
--   AutoTrader  pe_trader.c: the scan of an offer, and the order that answers it. Trading: its own
--               `process_msg`, and the loop of its main.
--   Tests       an end-to-end test of tests/E2E run on the model, and the theorems at concrete inputs.
--
-- How the code is modelled. A function of the source that changes the state takes the state and
-- returns the new one, under the source's name. A linked list is the list of its nodes, a pointer to
-- a node its position; the two books, the levels and the traders of the source are separate lists here
-- as there, so that an order and the level that shows it can disagree. What the program writes, signals
-- and prints is a list of events. Text is a list of character codes. Quantities, prices and IDs of
-- orders have been checked by `create_order` or `check_valid_amend` and are plain numbers; the counters
-- that grow without a check (levels, positions, balances, fees, queue lengths) are bit patterns of 32 or
-- 64 bits, added modulo 2^32 or 2^64. A null pointer, or a result that stands for a failure, is `none`.
-- The nodes of the books with their two pointers, in a heap, are a second model (Orderbook/Linked); its
-- functions are shown to do to the nodes what those on lists do.
-- Where the two sides of a book are treated alike by two copies of a text, the copy is one function.
--
-- Fuel. The loop of `check_for_match` has one round more than there are orders on the other side;
-- each round but the last uses one of them up. The loop over the lines of the product file has one
-- round more than there are characters. Main's two inner loops have one round more than there are
-- signals in the queue, and each round takes one. A loop of the product file or of main whose fuel
-- has run out has a result of its own, `out_of_fuel` or `unfinished`. A double has one of 64 powers
-- of two as the unit of its last digit, which is enough below 2^117. The other loops are recursions
-- over lists; the loop of `process_msg` goes along what its reads return, and waits when there is
-- nothing more.
--
-- The bound of 2147 messages. Each message adds at most 999999 to the quantity of a price level, which is
-- an int: with up to 2147 messages no level reaches 2^31.
--
-- Not modelled: the calls of the system behind `fork_and_pipes`, `create_epoll`, `set_handlers` and
-- the shutdown (what they return is an argument); a signal between two statements of one pass of
-- main's loop; the freeing of memory but for the orders of the books, and that main uses what
-- `free_all` has freed; the opening of the pipes by the automatic trader; the tests under tests/.
-- What the source leaves undefined is a result of its own in MainLoop and Reading: `faults`,
-- `overrun`, and `uses_freed` once `free_all` has given back the memory; elsewhere (a place outside
-- an array, a word longer than its buffer) it does nothing here, or fits.
pub mod Common
pub mod Types
pub mod Orderbook
pub mod Pipes
pub mod Printing
pub mod Signals
pub mod Setup
pub mod MainLoop
pub mod AutoTrader
pub mod Tests
