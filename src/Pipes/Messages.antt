-- ===== src/Pipes/Messages.antt =====
-- The handlers of pe_pipes.c: what the exchange does with a trader's message. `msg` is the text up to
-- its final zero. A handler returns the exchange after it, and whether the message was good; `none`
-- would mean that the fuel of `check_for_match` ran out.
pub mod Remove
pub mod Cases
pub mod Keeps
pub mod NewOrder
pub mod Change
pub mod Parse
pub mod Effect
pub mod Unique
pub mod Room
use pe_exchange.Common.{
  ◌>>=◌, ℕ, suc, ◌+◌, Bool, true, false, List, [], ◌∷◌, ◌++◌, Option, none, some, ◌==◌, ◌||◌, not,
  if◌then◌else◌, length, get_elem?, set, modify,
}
use pe_exchange.Common.Text.{Bytes, codes}
use pe_exchange.Common.Scan.{scan_int, scan_literal, skip_space}
use pe_exchange.Types.{Order, Trader, Exchange}
use pe_exchange.Printing.{print_bk_pos}
use pe_exchange.Pipes.Writing.{write_invalid, write_accepted, write_amended, write_cancelled}
use pe_exchange.Orderbook.Create.{create_buy_sell_order, create_amended_order, out_of_range}
use pe_exchange.Orderbook.Levels.{cancel_order_prints}
use pe_exchange.Orderbook.Orders.{Found, find_order, delete_order, cancel_order}
use pe_exchange.Orderbook.Matching.{emit, finish_order}

-- The loop that counts the spaces.
unfoldable pub count_spaces : Bytes → ℕ
count_spaces [] = 0
count_spaces (c ∷ s) = (if c == 32 then 1 else 0) + count_spaces s

-- A pointer to a list of orders: the side and the product.
abbrev pub ListRef : Type 0
ListRef = Bool × ℕ

unfoldable pub find_list : Order → ListRef
find_list o = if o.is_buy then (true, o.product_id) else (false, o.product_id)

-- `delete_order` on the list behind the pointer, of the order at position `k`.
unfoldable pub delete_from_list : Exchange → ListRef → ℕ → Exchange
unfolding delete_order
delete_from_list s (true, prod) k = record s {
  buy_orders = modify s.buy_orders prod (delete_order k);
}
delete_from_list s (false, prod) k = record s {
  sell_orders = modify s.sell_orders prod (delete_order k);
}

-- `cancel_order_prints`, then the order out of its list.
unfoldable pub remove_found : Exchange → Found → Exchange
unfolding find_list delete_from_list
remove_found s f =
    delete_from_list (record s { printed_orders = cancel_order_prints s.printed_orders f.order })
      (find_list f.order) f.position

-- The order accepted by `create_buy_sell_order`: answers, then matching.
unfoldable pub accept_order : Exchange → ℕ → Trader × Order → Option (Exchange × Bool)
unfolding emit
accept_order s trader_ind (t, o) = do
  let s1 = record s { trader_list = set s.trader_list trader_ind t }
  s2 ← finish_order (emit s1 (write_accepted o trader_ind s1.trader_list)) o
  some (s2, true)

unfoldable pub buy_sell_msg : Exchange → List Bytes → Bytes → ℕ → Option (Exchange × Bool)
unfolding count_spaces accept_order
buy_sell_msg s products msg trader_ind =
    if count_spaces msg == 4
    then elim (get_elem? s.trader_list trader_ind) [
      | none ↦ some (s, false)
      | some t ↦ elim (create_buy_sell_order msg t products) [
        | none ↦ some (s, false)
        | some created ↦ accept_order s trader_ind created
      ]
    ]
    else some (s, false)

-- What `sscanf(msg, "AMEND %d %d %d", …)` reads when it returns 3.
pub record Amendment : Type 0 where
  pub id : ℕ
  pub quantity : ℕ
  pub price : ℕ

unfoldable pub scan_amend : Bytes → Option Amendment
scan_amend msg = do
  s1 ← scan_literal (codes "AMEND") msg
  (id, s2) ← scan_int s1
  (quantity, s3) ← scan_int s2
  (price, _) ← scan_int s3
  some (record { id = id; quantity = quantity; price = price })

-- `amend_msg` has scanned the message before, so the scan here does not fail.
unfoldable pub check_valid_amend : Exchange → Amendment → Bytes → ℕ → ℕ → Option Found
unfolding count_spaces out_of_range
check_valid_amend s a msg num_products trader_ind =
    if not (count_spaces msg == 3)
    then none
    else if out_of_range 1 a.quantity
    then none
    else if out_of_range 1 a.price
    then none
    else if out_of_range 0 a.id
    then none
    else find_order num_products trader_ind a.id s.buy_orders s.sell_orders

-- The amended order: answers, the old one out of everything, and matching.
unfoldable pub amend_order : Exchange → ℕ → Amendment → Found → Option (Exchange × Bool)
unfolding emit create_amended_order remove_found
amend_order s trader_ind a f = do
  let new = create_amended_order a.price a.quantity f.order
  let s1 = emit s (write_amended new trader_ind s.trader_list)
  s2 ← finish_order (remove_found s1 f) new
  some (s2, true)

unfoldable pub amend_msg : Exchange → ℕ → Bytes → ℕ → Option (Exchange × Bool)
unfolding scan_amend check_valid_amend amend_order
amend_msg s num_products msg trader_ind = elim (scan_amend msg) [
  | none ↦ some (s, false)
  | some a ↦ elim (check_valid_amend s a msg num_products trader_ind) [
    | none ↦ some (s, false)
    | some f ↦ amend_order s trader_ind a f
  ]
]

unfoldable pub scan_cancel : Bytes → Option ℕ
scan_cancel msg = do s1 ← scan_literal (codes "CANCEL") msg; (id, _) ← scan_int s1; some id

-- The cancelled order: answers, the order out of everything, and the reports.
unfoldable pub cancel_found : Exchange → ℕ → ℕ → Found → Exchange
unfolding emit remove_found
cancel_found s trader_ind id f =
    let s1 = emit s (write_cancelled id f.order.product trader_ind s.trader_list f.order.is_buy) in
    print_bk_pos (remove_found s1 f)

unfoldable pub cancel_msg : Exchange → ℕ → Bytes → ℕ → Exchange × Bool
unfolding count_spaces scan_cancel out_of_range cancel_found
cancel_msg s num_products msg trader_ind =
    if count_spaces msg == 1
    then elim (scan_cancel msg) [
      | none ↦ (s, false)
      | some id ↦
          if out_of_range 0 id
          then (s, false)
          else elim (find_order num_products trader_ind id s.buy_orders s.sell_orders) [
            | none ↦ (s, false)
            | some f ↦ (cancel_found s trader_ind id f, true)
          ]
    ]
    else (s, false)

-- INVALID to the trader, if a handler returned 0.
unfoldable pub answer : ℕ → Exchange × Bool → Exchange
unfolding emit
answer trader_ind (s, true) = s
answer trader_ind (s, false) = emit s (write_invalid s.trader_list trader_ind)

-- msg[0], which is the final zero of an empty text
unfoldable pub first_char : Bytes → ℕ
first_char [] = 0
first_char (c ∷ s) = c

unfoldable pub parse_msg : Exchange → List Bytes → Bytes → ℕ → Option Exchange
unfolding buy_sell_msg amend_msg cancel_msg answer first_char
parse_msg s products msg trader_ind =
    let c = first_char msg in
    if (c == b'B') || (c == b'S')
    then (do r ← buy_sell_msg s products msg trader_ind; some (answer trader_ind r))
    else if c == b'A'
    then (do r ← amend_msg s (length products) msg trader_ind; some (answer trader_ind r))
    else if c == b'C'
    then some (answer trader_ind (cancel_msg s (length products) msg trader_ind))
    else some (answer trader_ind (s, false))
