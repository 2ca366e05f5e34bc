-- ===== src/Pipes/Writing.antt =====
-- The writing functions of pe_pipes.c. Each returns the events that it causes, in order.
use pe_exchange.Common.{
  ℕ, suc, Bool, List, [], ◌∷◌, ◌++◌, none, some, ◌==◌, if◌then◌else◌, get_elem?,
}
use pe_exchange.Common.Text.{Bytes, codes, show}
use pe_exchange.Types.{Order, Trader, Event, wrote, killed}

unfoldable pub write_and_kill : ℕ → Bytes → ℕ → List Event
write_and_kill fd msg pid = wrote fd msg ∷ killed pid ∷ []

-- A message to one trader.
unfoldable pub send : Trader → Bytes → List Event
unfolding write_and_kill
send t msg = write_and_kill t.ex_fd msg t.pid

-- `trader_list[i]`; beyond the list the source reads invalid memory, here nothing is written.
unfoldable pub send_to : List Trader → ℕ → Bytes → List Event
unfolding send
send_to traders i msg = elim (get_elem? traders i) [ none ↦ [] | some t ↦ send t msg ]

-- `if (trader->alive != 0)`
unfoldable pub send_alive : Trader → Bytes → List Event
unfolding send
send_alive t msg = if t.alive then send t msg else []

unfoldable pub send_alive_to : List Trader → ℕ → Bytes → List Event
unfolding send_alive
send_alive_to traders i msg = elim (get_elem? traders i) [ none ↦ [] | some t ↦ send_alive t msg ]

unfoldable pub write_invalid : List Trader → ℕ → List Event
unfolding send_to
write_invalid traders trader_ind = send_to traders trader_ind (codes "INVALID;")

-- "MARKET BUY <product> <quantity> <price>;" or the same with SELL
unfoldable pub market_msg : Bool → Bytes → ℕ → ℕ → Bytes
market_msg is_buy product quantity price =
    codes (if is_buy then "MARKET BUY " else "MARKET SELL ")
    ++ (product ++ (codes " " ++ (show quantity ++ (codes " " ++ (show price ++ codes ";")))))

-- The loop over `i` that writes to every living trader but `trader_ind`.
unfoldable pub broadcast : ℕ → List Trader → ℕ → Bytes → List Event
unfolding send_alive
broadcast i [] trader_ind msg = []
broadcast i (t ∷ ts) trader_ind msg =
    (if i == trader_ind then [] else send_alive t msg) ++ broadcast (suc i) ts trader_ind msg

unfoldable pub write_accepted : Order → ℕ → List Trader → List Event
unfolding send_to market_msg broadcast
write_accepted o trader_ind traders =
    send_to traders trader_ind (codes "ACCEPTED " ++ (show o.order_id ++ codes ";"))
    ++ broadcast 0 traders trader_ind (market_msg o.is_buy o.product o.quantity o.price)

unfoldable pub write_amended : Order → ℕ → List Trader → List Event
unfolding send_to market_msg broadcast
write_amended o trader_ind traders =
    send_to traders trader_ind (codes "AMENDED " ++ (show o.order_id ++ codes ";"))
    ++ broadcast 0 traders trader_ind (market_msg o.is_buy o.product o.quantity o.price)

unfoldable pub write_cancelled : ℕ → Bytes → ℕ → List Trader → Bool → List Event
unfolding send_to market_msg broadcast
write_cancelled id product trader_ind traders is_buy =
    send_to traders trader_ind (codes "CANCELLED " ++ (show id ++ codes ";"))
    ++ broadcast 0 traders trader_ind (market_msg is_buy product 0 0)

unfoldable pub fill_msg : ℕ → ℕ → Bytes
fill_msg order_id quantity =
    codes "FILL " ++ (show order_id ++ (codes " " ++ (show quantity ++ codes ";")))

-- The buyer first. `traders` is where the two trader pointers point to.
unfoldable pub write_fill : Order → Order → ℕ → List Trader → List Event
unfolding fill_msg send_alive_to
write_fill buy sell quantity traders =
    send_alive_to traders buy.trader_id (fill_msg buy.order_id quantity)
    ++ send_alive_to traders sell.trader_id (fill_msg sell.order_id quantity)

unfoldable pub write_market_open : List Trader → List Event
unfolding send_alive
write_market_open [] = []
write_market_open (t ∷ ts) = send_alive t (codes "MARKET OPEN;") ++ write_market_open ts
