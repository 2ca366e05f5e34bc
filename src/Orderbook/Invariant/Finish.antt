-- ===== src/Orderbook/Invariant/Finish.antt =====
-- A new order from the check for a match to its place in the book: `finish_order`.
use pe_exchange.Common.{
  [], ℕ, ◌+◌, ◌≤◌, ◌<◌, ◌≡◌, refl, sym, subst, inl, inr, Bool, true, false, some, none, Option,
  arith, length, if◌then◌else◌, Bool-cases, int_max, get_or,
}
use pe_exchange.Types.{Order, Exchange}
use pe_exchange.Printing.{print_bk_pos}
use pe_exchange.Orderbook.Levels.Descending.{book_quantity}
use pe_exchange.Orderbook.Matching.{finish_order, add_rest}
use pe_exchange.Orderbook.Matching.Conserve.{Conserves}
use pe_exchange.Orderbook.Invariant.Steps.{IsValid}
use pe_exchange.Orderbook.Invariant.Open.{Incoming}
use pe_exchange.Orderbook.Invariant.BuyRound.{sells_of}
use pe_exchange.Orderbook.Invariant.SellRound.{buys_of}
use pe_exchange.Orderbook.Invariant.BuyLoop.{BuyMatched}
use pe_exchange.Orderbook.Invariant.SellLoop.{SellMatched}
use pe_exchange.Orderbook.Invariant.Place.{
  Matched, check_for_match-Matched, add_buy-IsValid, add_sell-IsValid,
}

-- The level that the order may join has room for it in an int.
abbrev pub HasRoom : Exchange → Order → Type 0
HasRoom s o =
    book_quantity o.price (if o.is_buy then buys_of s o.product_id else sells_of s o.product_id)
      + o.quantity
    < int_max

-- The order as it is left.
abbrev left_order : Order → ℕ → Order
left_order o q = record o { quantity = q }

Incoming-left :
    (n m m' q : ℕ) (o : Order)
    → Incoming n m o
    → m' ≡ m
    → 1 ≤ q
    → q ≤ o.quantity
    → Incoming n m' (left_order o q)
Incoming-left n m m' q o w same one less = record {
  product = w.product;
  trader = rw same w.trader;
  ranges = record {
    quantity_pos = one;
    quantity_max = omega (arith, w.ranges.quantity_max);
    price_pos = w.ranges.price_pos;
    price_max = w.ranges.price_max;
  };
}

module _ (n : ℕ) (s : Exchange) (o : Order) (w : Incoming n (length s.trader_list) o)
    (r : Exchange × Order × Bool) where
  added_buy_rest :
      BuyMatched n s o r
      → o.is_buy ≡ true
      → book_quantity o.price (buys_of s o.product_id) + o.quantity < int_max
      → r.2 ≡ true
      → IsValid n (add_rest r.0 r.1)
  added_buy_rest m buy room more =
      subst (λ x. IsValid n (add_rest r.0 x)) (sym m.same)
        (add_buy-IsValid n r.0 (left_order o r.1.quantity) m.valid
          (Incoming-left n (length s.trader_list) (length r.0.trader_list) r.1.quantity o w
            m.conserves.traders (m.rest more).0 m.less)
          buy
          (subst
            (λ bss. book_quantity o.price (get_or bss o.product_id []) + r.1.quantity < int_max)
            (sym m.own) (omega (arith, m.less)))
          (m.rest more).1)

  added_sell_rest :
      SellMatched n s o r
      → o.is_buy ≡ false
      → book_quantity o.price (sells_of s o.product_id) + o.quantity < int_max
      → r.2 ≡ true
      → IsValid n (add_rest r.0 r.1)
  added_sell_rest m sell room more =
      subst (λ x. IsValid n (add_rest r.0 x)) (sym m.same)
        (add_sell-IsValid n r.0 (left_order o r.1.quantity) m.valid
          (Incoming-left n (length s.trader_list) (length r.0.trader_list) r.1.quantity o w
            m.conserves.traders (m.rest more).0 m.less)
          sell
          (subst
            (λ sss. book_quantity o.price (get_or sss o.product_id []) + r.1.quantity < int_max)
            (sym m.own) (omega (arith, m.less)))
          (m.rest more).1)

-- Money and books do not see what is printed, nor money the books.
Conserves-add_rest :
    (n : ℕ) (s t : Exchange) (o : Order) → Conserves n s t → Conserves n s (add_rest t o)
unfolding add_rest
Conserves-add_rest n s t o c = elim (Bool-cases o.is_buy) [
  | inl e ↦
      simp e
        (record { money = c.money; goods = c.goods; traders = c.traders; accounts = c.accounts })
  | inr e ↦
      simp e
        (record { money = c.money; goods = c.goods; traders = c.traders; accounts = c.accounts })
]

pub IsValid-print_bk_pos : (n : ℕ) (s : Exchange) → IsValid n s → IsValid n (print_bk_pos s)
unfolding print_bk_pos
IsValid-print_bk_pos n s v = record {
  num_buys = v.num_buys;
  num_sells = v.num_sells;
  num_printed = v.num_printed;
  accounts = v.accounts;
  products = v.products;
}

pub Conserves-print_bk_pos :
    (n : ℕ) (s t : Exchange) → Conserves n s t → Conserves n s (print_bk_pos t)
unfolding print_bk_pos
Conserves-print_bk_pos n s t c = record {
  money = c.money;
  goods = c.goods;
  traders = c.traders;
  accounts = c.accounts;
}

-- A finished order: the exchange is valid again, and has lost no money and no goods.
abbrev pub Finishes : ℕ → Exchange → Option Exchange → Type 0
Finishes n s none = ⊥
Finishes n s (some s') = IsValid n s' × Conserves n s s'

finish_with :
    (n : ℕ) (s : Exchange) (o : Order) (r : Exchange × Order × Bool)
    → Incoming n (length s.trader_list) o
    → HasRoom s o
    → Matched n s o r
    → IsValid n (print_bk_pos (if r.2 then add_rest r.0 r.1 else r.0))
      × Conserves n s (print_bk_pos (if r.2 then add_rest r.0 r.1 else r.0))
finish_with n s o (t, o', true) w room (inl (buy, m)) = (
  IsValid-print_bk_pos n (add_rest t o')
      (added_buy_rest n s o w (t, o', true) m buy (simp buy at room) refl),
  Conserves-print_bk_pos n s (add_rest t o') (Conserves-add_rest n s t o' m.conserves),
)
finish_with n s o (t, o', true) w room (inr (sell, m)) = (
  IsValid-print_bk_pos n (add_rest t o')
      (added_sell_rest n s o w (t, o', true) m sell (simp sell at room) refl),
  Conserves-print_bk_pos n s (add_rest t o') (Conserves-add_rest n s t o' m.conserves),
)
finish_with n s o (t, o', false) w room (inl (buy, m)) =
    (IsValid-print_bk_pos n t m.valid, Conserves-print_bk_pos n s t m.conserves)
finish_with n s o (t, o', false) w room (inr (sell, m)) =
    (IsValid-print_bk_pos n t m.valid, Conserves-print_bk_pos n s t m.conserves)

-- On a valid exchange, for an order within the limits, of a known product and trader, with room for
-- its quantity at its price on its own side, matching it and adding what is left of it always ends,
-- with a valid exchange in which the sum of all balances and fees is the same modulo 2^64 and that
-- of all positions in each product modulo 2^32.
pub finish_order-Finishes :
    (n : ℕ) (s : Exchange) (o : Order)
    → IsValid n s
    → Incoming n (length s.trader_list) o
    → HasRoom s o
    → Finishes n s (finish_order s o)
unfolding finish_order
finish_order-Finishes n s o v w room =
    let (r, e, m) = check_for_match-Matched n s o v w in
    rw (e, finish_order) (finish_with n s o r w room m)
