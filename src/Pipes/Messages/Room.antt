-- ===== src/Pipes/Messages/Room.antt =====
-- How full a price level can get: by one order of the largest size with each message.
use pe_exchange.Common.{
  ℕ, suc, ◌*◌, ◌≤◌, ◌<◌, ◌≡◌, refl, subst, List, [], ◌∷◌, some, arith, length, ◌==◌, if◌then◌else◌,
}
use pe_exchange.Common.Text.{Bytes}
use pe_exchange.Types.{Order, Orderbook, Exchange}
use pe_exchange.Orderbook.Levels.Descending.{book_quantity}
use pe_exchange.Orderbook.Levels.Shows.{max_value}
use pe_exchange.Orderbook.Invariant.Steps.{IsValid}
use pe_exchange.Orderbook.Invariant.BuyRound.{sells_of}
use pe_exchange.Orderbook.Invariant.SellRound.{buys_of}
use pe_exchange.Orderbook.Weight.{Weight, IsLight, weight, total_weight, weight-le-weights}
use pe_exchange.Pipes.Messages.{parse_msg}
use pe_exchange.Pipes.Messages.Keeps.{IsRoomy}
use pe_exchange.Pipes.Messages.Effect.{
  Effect, nothing_new, placed, replaced, Effects, parse_msg-Effects,
}

-- An order's quantity at one price.
abbrev pub at_price : ℕ → Weight
at_price p o = if o.price == p then o.quantity else 0

at_price-IsLight : (p : ℕ) → IsLight (at_price p)
at_price-IsLight p o q h = ground arith

at_price-le-quantity : (p : ℕ) (o : Order) → at_price p o ≤ o.quantity
at_price-le-quantity p o = ground arith

-- No more is open at any price than `k` orders of the largest size.
abbrev pub Holds : ℕ → Exchange → Type 0
Holds k s = (p : ℕ) → total_weight (at_price p) s ≤ k * max_value

Effect-Holds :
    (products : List Bytes) (trader_ind k : ℕ) (s s' : Exchange)
    → Holds k s
    → Effect products trader_ind s s'
    → Holds (suc k) s'
Effect-Holds products trader_ind k s s' r (nothing_new h b) p =
    omega (arith, h (at_price p) (at_price-IsLight p), r p)
Effect-Holds products trader_ind k s s' r (placed t is_buy o e c h b) p = omega (
  arith,
  h (at_price p) (at_price-IsLight p),
  r p,
  at_price-le-quantity p o,
  c.ranges.quantity_max,
)
Effect-Holds products trader_ind k s s' r (replaced old new e v h b) p =
    omega
      (arith, h (at_price p) (at_price-IsLight p), r p, at_price-le-quantity p new, v.quantity_max)

pub parse_msg-Holds :
    (k : ℕ) (s s' : Exchange) (products : List Bytes) (msg : Bytes) (trader_ind : ℕ)
    → IsValid (length products) s
    → Holds k s
    → parse_msg s products msg trader_ind ≡ some s'
    → Holds (suc k) s'
parse_msg-Holds k s s' products msg trader_ind v r e =
    Effect-Holds products trader_ind k s s' r
      (subst (Effects products trader_ind s) e (parse_msg-Effects products trader_ind s msg v))

book_quantity-weight : (p : ℕ) (os : Orderbook) → book_quantity p os ≡ weight (at_price p) os
book_quantity-weight p [] = refl
book_quantity-weight p (o ∷ os) = omega (arith, book_quantity-weight p os)

-- After fewer than 2147 messages there is room for another.
pub IsRoomy-Holds : (k : ℕ) (s : Exchange) → k < 2147 → Holds k s → IsRoomy s
IsRoomy-Holds k s few r = record {
  buys = λ i p. omega (
    arith,
    few,
    book_quantity-weight p (buys_of s i),
    weight-le-weights (at_price p) s.buy_orders i,
    r p,
  );
  sells = λ i p. omega (
    arith,
    few,
    book_quantity-weight p (sells_of s i),
    weight-le-weights (at_price p) s.sell_orders i,
    r p,
  );
}
