-- ===== src/Types.antt =====
-- pe_common.h: the structs of the exchange, and its whole state.
-- A linked list is the list of its nodes, and a pointer to a node is its position. A validated
-- quantity, price or ID is a plain number (its bounds are theorems); a counter that the program
-- adds to without a check is the bit pattern of its `int` or `long long`.
use pe_exchange.Common.{ℕ, Bool, List}
use pe_exchange.Common.Text.{Bytes}

-- struct order
pub record Order : Type 0 where
  pub product : Bytes
  pub quantity : ℕ
  pub price : ℕ
  pub order_id : ℕ
  pub product_id : ℕ
  pub trader_id : ℕ
  pub is_buy : Bool

-- struct orderbook: one side of one product, oldest order first.
abbrev pub Orderbook : Type 0
Orderbook = List Order

-- struct printed_order: a price level.
pub record PrintedOrder : Type 0 where
  pub quantity : ℕ
  pub price : ℕ
  pub num_orders : ℕ

-- struct printed_orderbook: the levels of one product.
pub record PrintedOrderbook : Type 0 where
  pub product : Bytes
  pub head_buy : List PrintedOrder
  pub head_sell : List PrintedOrder
  pub buy_len : ℕ
  pub sell_len : ℕ

-- struct trader_balances: `quantity` is the pattern of an int, `balance` that of a long long.
pub record TraderBalances : Type 0 where
  pub product : Bytes
  pub quantity : ℕ
  pub balance : ℕ

-- struct trader. The two pipe names are in `Setup`, which alone uses them.
pub record Trader : Type 0 where
  pub id : ℕ
  pub pid : ℕ
  pub order_id : ℕ
  pub ex_fd : ℕ
  pub tr_fd : ℕ
  pub trader_prod_info : List TraderBalances
  pub alive : Bool

-- What the outside sees, in order: bytes written to a descriptor, a signal, text on stdout.
pub data Event : Type 0 where
  wrote : ℕ → Bytes → Event
  killed : ℕ → Event
  printed : Bytes → Event

-- What main allocates and passes to every handler, with the global `exchange_fees`.
pub record Exchange : Type 0 where
  pub trader_list : List Trader
  pub buy_orders : List Orderbook
  pub sell_orders : List Orderbook
  pub printed_orders : List PrintedOrderbook
  pub exchange_fees : ℕ
  pub output : List Event
