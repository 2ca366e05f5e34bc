-- ===== src/Orderbook/Weight.antt =====
-- What the books hold, weighed: an order's weight is any number that does not grow when its quantity
-- shrinks, such as its quantity at a price, or 1 if it has a certain name.
pub mod Matching
pub mod Loops
pub mod Finish
use pe_exchange.Common.{
  ℕ, zero, suc, ◌+◌, ◌≤◌, ◌≡◌, List, [], ◌∷◌, ◌++◌, some, arith, get_elem?, get_or, erase_at, set,
  modify,
}
use pe_exchange.Types.{Order, Orderbook, Exchange}

abbrev pub Weight : Type 0
Weight = Order → ℕ

abbrev pub IsLight : Weight → Type 0
IsLight w = (o : Order) (q : ℕ) → q ≤ o.quantity → w (record o { quantity = q }) ≤ w o

abbrev pub weight : Weight → Orderbook → ℕ
weight w [] = 0
weight w (o ∷ os) = w o + weight w os

abbrev pub weights : Weight → List Orderbook → ℕ
weights w [] = 0
weights w (os ∷ oss) = weight w os + weights w oss

-- All books of both sides.
abbrev pub total_weight : Weight → Exchange → ℕ
total_weight w s = weights w s.buy_orders + weights w s.sell_orders

module _ (w : Weight) where
  pub weight-erase_at :
      (os : Orderbook) (k : ℕ) {o : Order}
      → get_elem? os k ≡ some o
      → weight w (erase_at os k) + w o ≡ weight w os
  weight-erase_at [] k e = cc
  weight-erase_at (x ∷ os) zero e = ground arith
  weight-erase_at (x ∷ os) (suc k) e = omega (arith, weight-erase_at os k e)

  pub weight-set :
      (os : Orderbook) (k : ℕ) (v : Order) {o : Order}
      → get_elem? os k ≡ some o
      → weight w (set os k v) + w o ≡ weight w os + w v
  weight-set [] k v e = cc
  weight-set (x ∷ os) zero v e = ground arith
  weight-set (x ∷ os) (suc k) v e = omega (arith, weight-set os k v e)

  pub weight-snoc : (os : Orderbook) (o : Order) → weight w (os ++ (o ∷ [])) ≡ weight w os + w o
  weight-snoc [] o = omega arith
  weight-snoc (x ∷ os) o = omega (arith, weight-snoc os o)

  -- A change of one book.
  pub weights-modify :
      (oss : List Orderbook) (i : ℕ) (f : Orderbook → Orderbook)
      → weights w (modify oss i f) + weight w (get_or oss i [])
        ≤ weights w oss + weight w (f (get_or oss i []))
  weights-modify [] i f = omega arith
  weights-modify (os ∷ oss) zero f = omega arith
  weights-modify (os ∷ oss) (suc i) f = omega (arith, weights-modify oss i f)

  pub weight-le-weights :
      (oss : List Orderbook) (i : ℕ) → weight w (get_or oss i []) ≤ weights w oss
  weight-le-weights [] i = omega arith
  weight-le-weights (os ∷ oss) zero = omega arith
  weight-le-weights (os ∷ oss) (suc i) = omega (arith, weight-le-weights oss i)
