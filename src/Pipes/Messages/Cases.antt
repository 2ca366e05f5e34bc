-- ===== src/Pipes/Messages/Cases.antt =====
-- Which way a message goes through its handler.
use pe_exchange.Common.{
  >>=-eq-some, ℕ, ◌≤◌, ◌<◌, ◌≡◌, refl, ap, subst, List, some, ◌==◌, arith, length, Bool-cases,
  Option-cases, inl, inr, int_mod,
}
use pe_exchange.Common.Text.{Bytes, codes}
use pe_exchange.Common.Scan.{scan_int, scan_literal}
use pe_exchange.Common.Scan.Bounds.{scan_int-lt}
use pe_exchange.Types.{Exchange}
use pe_exchange.Orderbook.Create.{out_of_range}
use pe_exchange.Orderbook.Create.Created.{out_of_range-false}
use pe_exchange.Orderbook.Levels.Shows.{max_value}
use pe_exchange.Orderbook.Orders.{Found, find_order}
use pe_exchange.Orderbook.Orders.Find.{FoundAt, FindsNamed, find_order-FindsNamed}
use pe_exchange.Pipes.Messages.{
  Amendment, scan_amend, check_valid_amend, amend_order, amend_msg, cancel_found, cancel_msg,
  count_spaces, scan_cancel,
}
use pe_exchange.Pipes.Messages.{accept_order, buy_sell_msg, answer, parse_msg, first_char}
use pe_exchange.Orderbook.Create.{create_buy_sell_order}
use pe_exchange.Orderbook.Create.Created.{Created, create_buy_sell_order-Created}
use pe_exchange.Types.{Trader, Order}
use pe_exchange.Common.{Bool, true, false, ◌>>=◌, get_elem?, ◌||◌, suc}

-- The scanned amendment is of ints.
record AreInts (a : Amendment) : Type 0 where
  id : a.id < int_mod
  quantity : a.quantity < int_mod
  price : a.price < int_mod

scan_amend-AreInts : (msg : Bytes) {a : Amendment} → scan_amend msg ≡ some a → AreInts a
unfolding scan_amend
scan_amend-AreInts msg e =
    let (s1, e1, h1) = >>=-eq-some (scan_literal (codes "AMEND") msg) _ e in
    let ((id, s2), e2, h2) = >>=-eq-some (scan_int s1) _ h1 in
    let ((quantity, s3), e3, h3) = >>=-eq-some (scan_int s2) _ h2 in
    let ((price, s4), e4, h4) = >>=-eq-some (scan_int s3) _ h3 in
    ground (arith, scan_int-lt s1 e2, scan_int-lt s2 e3, scan_int-lt s3 e4)

-- What `check_valid_amend` lets pass.
pub record Amendable (n trader_ind : ℕ) (s : Exchange) (a : Amendment) (f : Found) : Type 0 where
  pub quantity_pos : 1 ≤ a.quantity
  pub quantity_max : a.quantity ≤ max_value
  pub price_pos : 1 ≤ a.price
  pub price_max : a.price ≤ max_value
  pub found : FoundAt n trader_ind a.id s.buy_orders s.sell_orders f

pub found_some :
    (n trader_ind id : ℕ) (s : Exchange) {f : Found}
    → find_order n trader_ind id s.buy_orders s.sell_orders ≡ some f
    → FoundAt n trader_ind id s.buy_orders s.sell_orders f
found_some n trader_ind id s e =
    subst (FindsNamed trader_ind id s.buy_orders s.sell_orders n) e
      (find_order-FindsNamed trader_ind id s.buy_orders s.sell_orders n)

check_valid_amend-Amendable :
    (n trader_ind : ℕ) (s : Exchange) (a : Amendment) (msg : Bytes) {f : Found}
    → AreInts a
    → check_valid_amend s a msg n trader_ind ≡ some f
    → Amendable n trader_ind s a f
unfolding check_valid_amend
check_valid_amend-Amendable n trader_ind s a msg {f = f} i e = ground (
  arith,
  out_of_range-false 1 a.quantity,
  out_of_range-false 1 a.price,
  found_some n trader_ind a.id s {f = f},
)

-- `buy_sell_msg` returns 0 and changes nothing, or makes an order and goes on with it.
pub data NewCase (products : List Bytes) (s : Exchange) (msg : Bytes) (trader_ind : ℕ)
    : Type 0 where
  refused :
      buy_sell_msg s products msg trader_ind ≡ some (s, false) → NewCase products s msg trader_ind
  accepted :
      (t : Trader) (is_buy : Bool) (o : Order)
      → get_elem? s.trader_list trader_ind ≡ some t
      → Created products t is_buy (record t { order_id = suc t.order_id }) o
      → buy_sell_msg s products msg trader_ind
        ≡ accept_order s trader_ind (record t { order_id = suc t.order_id }, o)
      → NewCase products s msg trader_ind

pub buy_sell_msg-NewCase :
    (products : List Bytes) (s : Exchange) (msg : Bytes) (trader_ind : ℕ)
    → NewCase products s msg trader_ind
unfolding buy_sell_msg
buy_sell_msg-NewCase products s msg trader_ind = elim (Bool-cases (count_spaces msg == 4)) [
  | inr bad ↦ NewCase.refused (simp bad refl)
  | inl good ↦ elim (Option-cases (get_elem? s.trader_list trader_ind)) [
    | inl e ↦ NewCase.refused (simp (good, e) refl)
    | inr (t, e) ↦ elim (Option-cases (create_buy_sell_order msg t products)) [
      | inl e' ↦ NewCase.refused (simp (good, e, e') refl)
      | inr ((t', o), e') ↦
          let (word, rest, scanned, side, c) = create_buy_sell_order-Created msg t products e' in
          NewCase.accepted t o.is_buy o e (subst (λ x. Created products t o.is_buy x o) c.counter c)
            (simp (good, e, e') (ap (λ x. accept_order s trader_ind (x, o)) c.counter))
    ]
  ]
]

-- `amend_msg` returns 0 and changes nothing, or finds the order and goes on with it.
pub data AmendCase (n : ℕ) (s : Exchange) (msg : Bytes) (trader_ind : ℕ) : Type 0 where
  refused : amend_msg s n msg trader_ind ≡ some (s, false) → AmendCase n s msg trader_ind
  amended :
      (a : Amendment) (f : Found)
      → Amendable n trader_ind s a f
      → amend_msg s n msg trader_ind ≡ amend_order s trader_ind a f
      → AmendCase n s msg trader_ind

pub amend_msg-AmendCase :
    (n : ℕ) (s : Exchange) (msg : Bytes) (trader_ind : ℕ) → AmendCase n s msg trader_ind
unfolding amend_msg scan_literal
amend_msg-AmendCase n s msg trader_ind = elim (Option-cases (scan_amend msg)) [
  | inl e ↦ AmendCase.refused (simp e refl)
  | inr (a, e) ↦ elim (Option-cases (check_valid_amend s a msg n trader_ind)) [
    | inl e' ↦ AmendCase.refused (simp (e, e') refl)
    | inr (f, e') ↦
        AmendCase.amended a f
          (check_valid_amend-Amendable n trader_ind s a msg (scan_amend-AreInts msg e) e')
          (simp (e, e') refl)
  ]
]

-- `cancel_msg` returns 0 and changes nothing, or finds the order and takes it out.
pub data CancelCase (n : ℕ) (s : Exchange) (msg : Bytes) (trader_ind : ℕ) : Type 0 where
  refused : cancel_msg s n msg trader_ind ≡ (s, false) → CancelCase n s msg trader_ind
  cancelled :
      (id : ℕ) (f : Found)
      → FoundAt n trader_ind id s.buy_orders s.sell_orders f
      → cancel_msg s n msg trader_ind ≡ (cancel_found s trader_ind id f, true)
      → CancelCase n s msg trader_ind

pub cancel_msg-CancelCase :
    (n : ℕ) (s : Exchange) (msg : Bytes) (trader_ind : ℕ) → CancelCase n s msg trader_ind
unfolding cancel_msg
cancel_msg-CancelCase n s msg trader_ind = elim (Bool-cases (count_spaces msg == 1)) [
  | inr bad ↦ CancelCase.refused (simp bad refl)
  | inl good ↦ elim (Option-cases (scan_cancel msg)) [
    | inl e ↦ CancelCase.refused (simp (good, e) refl)
    | inr (id, e) ↦ elim (Bool-cases (out_of_range 0 id)) [
      | inl out ↦ CancelCase.refused (simp (good, e, out) refl)
      | inr in_range ↦ elim (Option-cases (find_order n trader_ind id s.buy_orders s.sell_orders)) [
        | inl e' ↦ CancelCase.refused (simp (good, e, in_range, e') refl)
        | inr (f, e') ↦
            CancelCase.cancelled id f (found_some n trader_ind id s e')
              (simp (good, e, in_range, e') refl)
      ]
    ]
  ]
]

-- Which handler the first letter of a message leads to.
pub data MessageCase (products : List Bytes) (s : Exchange) (msg : Bytes) (trader_ind : ℕ)
    : Type 0 where
  new_order :
      parse_msg s products msg trader_ind
        ≡ (buy_sell_msg s products msg trader_ind >>= λ r. some (answer trader_ind r))
      → MessageCase products s msg trader_ind
  amend :
      parse_msg s products msg trader_ind
        ≡ (amend_msg s (length products) msg trader_ind >>= λ r. some (answer trader_ind r))
      → MessageCase products s msg trader_ind
  cancel :
      parse_msg s products msg trader_ind
        ≡ some (answer trader_ind (cancel_msg s (length products) msg trader_ind))
      → MessageCase products s msg trader_ind
  unknown :
      parse_msg s products msg trader_ind ≡ some (answer trader_ind (s, false))
      → MessageCase products s msg trader_ind

pub parse_msg-MessageCase :
    (products : List Bytes) (s : Exchange) (msg : Bytes) (trader_ind : ℕ)
    → MessageCase products s msg trader_ind
unfolding parse_msg
parse_msg-MessageCase products s msg trader_ind =
    let c = first_char msg in
    elim (Bool-cases ((c == b'B') || (c == b'S'))) [
      | inl new ↦ MessageCase.new_order (simp new refl)
      | inr not_new ↦ elim (Bool-cases (c == b'A')) [
        | inl hit ↦ MessageCase.amend (simp (not_new, hit) refl)
        | inr not_amend ↦ elim (Bool-cases (c == b'C')) [
          | inl hit ↦ MessageCase.cancel (simp (not_new, not_amend, hit) refl)
          | inr other ↦ MessageCase.unknown (simp (not_new, not_amend, other) refl)
        ]
      ]
    ]
