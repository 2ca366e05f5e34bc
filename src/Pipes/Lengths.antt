-- ===== src/Pipes/Lengths.antt =====
-- The texts that the exchange writes to the traders fit its arrays, and theirs: MAX_LINE = 50 bytes with the
-- final zero.
use pe_exchange.Common.{
  ℕ, zero, suc, ◌+◌, ◌*◌, ◌/◌, ◌%◌, ◌≤◌, ◌<◌, ◌≡◌, inl, inr, Bool, true, false, List, [], ◌∷◌, ◌++◌,
  arith, ltb, ◌==◌, if◌then◌else◌, Bool-cases, length, length-append, get_elem?, Option-cases,
}
use pe_exchange.Common.Text.{Bytes, codes, show, show_digits}
use pe_exchange.Types.{Order, Trader, Event, wrote, killed, printed}
use pe_exchange.Orderbook.Create.{max_int}
use pe_exchange.Orderbook.Levels.Shows.{IsOrder}
use pe_exchange.Pipes.Writing.{
  send, send_to, send_alive, send_alive_to, write_invalid, market_msg, broadcast, write_accepted,
  write_amended, write_cancelled, fill_msg, write_fill,
}

-- Below a power of ten there are as many digits as it has zeros.
abbrev HasDigits : ℕ → ℕ → Type 0
HasDigits b k = (fuel n : ℕ) → n < b → length (show_digits fuel n) ≤ k

one_digit : HasDigits 10 1
unfolding show_digits
one_digit zero n h = omega arith
one_digit (suc fuel) n h = let one : ltb n 10 ≡ true = ground arith in simp one (omega arith)

next_digit : (b k : ℕ) → HasDigits b k → HasDigits (b * 10) (suc k)
unfolding show_digits
next_digit b k h zero n l = omega arith
next_digit b k h (suc fuel) n l = elim (Bool-cases (ltb n 10)) [
  | inl one ↦ simp one (omega arith)
  | inr more ↦ simp more (
      omega (
        arith,
        length-append (show_digits fuel (n / 10)) ((b'0' + n % 10) ∷ []),
        h fuel (n / 10) (omega arith),
      ))
]

pub length-show : (n : ℕ) → n ≤ max_int → length (show n) ≤ 6
unfolding show
length-show n h =
    next_digit 100000 5
      (next_digit 10000 4 (next_digit 1000 3 (next_digit 100 2 (next_digit 10 1 one_digit))))
      (suc n) n (omega arith)

-- Each text that is written has its place, with a zero.
abbrev pub FitsLine : List Event → Type 0
FitsLine [] = Unit {0}
FitsLine (wrote fd msg ∷ es) = (length msg + 1 ≤ 50) × FitsLine es
FitsLine (killed pid ∷ es) = FitsLine es
FitsLine (printed text ∷ es) = FitsLine es

append-FitsLine : (es fs : List Event) → FitsLine es → FitsLine fs → FitsLine (es ++ fs)
append-FitsLine [] fs h k = k
append-FitsLine (wrote fd msg ∷ es) fs h k = (h.0, append-FitsLine es fs h.1 k)
append-FitsLine (killed pid ∷ es) fs h k = append-FitsLine es fs h k
append-FitsLine (printed text ∷ es) fs h k = append-FitsLine es fs h k

module _ (msg : Bytes) (short : length msg + 1 ≤ 50) where
  send-FitsLine : (t : Trader) → FitsLine (send t msg)
  unfolding send
  send-FitsLine t = (short, tt)

  send_to-FitsLine : (traders : List Trader) (i : ℕ) → FitsLine (send_to traders i msg)
  unfolding send_to
  send_to-FitsLine traders i = elim (Option-cases (get_elem? traders i)) [
    | inl nobody ↦ rw (nobody, send_to) tt
    | inr (t, e) ↦ rw (e, send_to) (send-FitsLine t)
  ]

  send_alive-FitsLine : (t : Trader) → FitsLine (send_alive t msg)
  unfolding send_alive
  send_alive-FitsLine t = elim (Bool-cases t.alive) [
    | inl alive ↦ rw (alive, send_alive) (send-FitsLine t)
    | inr dead ↦ rw (dead, send_alive) tt
  ]

  send_alive_to-FitsLine : (traders : List Trader) (i : ℕ) → FitsLine (send_alive_to traders i msg)
  unfolding send_alive_to
  send_alive_to-FitsLine traders i = elim (Option-cases (get_elem? traders i)) [
    | inl nobody ↦ rw (nobody, send_alive_to) tt
    | inr (t, e) ↦ rw (e, send_alive_to) (send_alive-FitsLine t)
  ]

  broadcast-FitsLine :
      (i : ℕ) (traders : List Trader) (trader_ind : ℕ)
      → FitsLine (broadcast i traders trader_ind msg)
  unfolding broadcast
  broadcast-FitsLine i [] trader_ind = tt
  broadcast-FitsLine i (t ∷ ts) trader_ind =
      append-FitsLine (if i == trader_ind then [] else send_alive t msg)
        (broadcast (suc i) ts trader_ind msg) own (broadcast-FitsLine (suc i) ts trader_ind)
    where
      own : FitsLine (if i == trader_ind then [] else send_alive t msg)
      own = elim (Bool-cases (i == trader_ind)) [
        | inl sender ↦ rw sender tt
        | inr another ↦ rw another (send_alive-FitsLine t)
      ]

length-market_msg :
    (is_buy : Bool) (product : Bytes) (quantity price : ℕ)
    → length product ≤ 16
    → quantity ≤ max_int
    → price ≤ max_int
    → length (market_msg is_buy product quantity price) + 1 ≤ 50
unfolding market_msg
length-market_msg is_buy product quantity price short hq hp =
    let x2 = codes " " ++ (show price ++ codes ";") in
    let x1 = codes " " ++ (show quantity ++ x2) in
    ground (
      arith,
      length-show quantity hq,
      length-show price hp,
      length-append (codes (if is_buy then "MARKET BUY " else "MARKET SELL ")) (product ++ x1),
      length-append product x1,
      length-append (show quantity) x2,
      length-append (show price) (codes ";"),
      side is_buy,
    )
  where
    side : (b : Bool) → length (codes (if b then "MARKET BUY " else "MARKET SELL ")) ≤ 12
    side true = omega arith
    side false = omega arith

-- "ACCEPTED <id>;" and the like
length-answer :
    (word : Bytes) (id : ℕ)
    → length word ≤ 10
    → id ≤ max_int
    → length (word ++ (show id ++ codes ";")) + 1 ≤ 50
length-answer word id short h = omega (
  arith,
  short,
  length-show id h,
  length-append word (show id ++ codes ";"),
  length-append (show id) (codes ";"),
)

length-fill_msg :
    (id quantity : ℕ) → id ≤ max_int → quantity ≤ max_int → length (fill_msg id quantity) + 1 ≤ 50
unfolding fill_msg
length-fill_msg id quantity h hq = omega (
  arith,
  length-show id h,
  length-show quantity hq,
  length-append (show id) (codes " " ++ (show quantity ++ codes ";")),
  length-append (show quantity) (codes ";"),
)

-- An order as it stands in a book, with a product's name and an ID that have been checked.
pub record IsShown (o : Order) : Type 0 where
  pub ranges : IsOrder o
  pub short : length o.product ≤ 16
  pub id_max : o.order_id ≤ max_int

module _ (traders : List Trader) (trader_ind : ℕ) (o : Order) (h : IsShown o) where
  announced :
      (word : Bytes) (quantity price : ℕ)
      → length word ≤ 10
      → quantity ≤ max_int
      → price ≤ max_int
      → FitsLine (
          send_to traders trader_ind (word ++ (show o.order_id ++ codes ";"))
          ++ broadcast 0 traders trader_ind (market_msg o.is_buy o.product quantity price))
  announced word quantity price short hq hp =
      append-FitsLine (send_to traders trader_ind (word ++ (show o.order_id ++ codes ";")))
        (broadcast 0 traders trader_ind (market_msg o.is_buy o.product quantity price))
        (send_to-FitsLine (word ++ (show o.order_id ++ codes ";"))
          (length-answer word o.order_id short h.id_max) traders trader_ind)
        (broadcast-FitsLine (market_msg o.is_buy o.product quantity price)
          (length-market_msg o.is_buy o.product quantity price h.short hq hp) 0 traders trader_ind)

-- For orders within the limits, with IDs up to 999999 and product names of at most 16 characters,
-- and a quantity up to 999999, every text that `write_accepted`, `write_amended`,
-- `write_cancelled`, `write_fill` and `write_invalid` write to any trader fits an array of 50 bytes
-- with its final zero.
pub messages-FitsLine :
    (traders : List Trader) (trader_ind : ℕ) (o filled : Order) (quantity : ℕ)
    → IsShown o
    → IsShown filled
    → quantity ≤ max_int
    → FitsLine (write_accepted o trader_ind traders)
      × FitsLine (write_amended o trader_ind traders)
      × FitsLine (write_cancelled o.order_id o.product trader_ind traders o.is_buy)
      × FitsLine (write_fill o filled quantity traders)
      × FitsLine (write_invalid traders trader_ind)
unfolding write_accepted write_amended write_cancelled write_fill write_invalid
messages-FitsLine traders trader_ind o filled quantity h k hq =
    let a = announced traders trader_ind o h in
    let q : o.quantity ≤ max_int = omega (arith, h.ranges.quantity_max) in
    let p : o.price ≤ max_int = omega (arith, h.ranges.price_max) in
    (
      a (codes "ACCEPTED ") o.quantity o.price (omega arith) q p,
      a (codes "AMENDED ") o.quantity o.price (omega arith) q p,
      a (codes "CANCELLED ") 0 0 (omega arith) (omega arith) (omega arith),
      append-FitsLine (send_alive_to traders o.trader_id (fill_msg o.order_id quantity))
          (send_alive_to traders filled.trader_id (fill_msg filled.order_id quantity))
          (send_alive_to-FitsLine (fill_msg o.order_id quantity)
            (length-fill_msg o.order_id quantity h.id_max hq) traders o.trader_id)
          (send_alive_to-FitsLine (fill_msg filled.order_id quantity)
            (length-fill_msg filled.order_id quantity k.id_max hq) traders filled.trader_id),
      send_to-FitsLine (codes "INVALID;") (omega arith) traders trader_ind,
    )
