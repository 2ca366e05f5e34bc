-- ===== src/Orderbook/Invariant/Open.antt =====
-- The quantity that is open in a book, and what is asked of a new order.
use pe_exchange.Common.{ℕ, suc, zero, ◌+◌, ◌<◌, ◌≡◌, [], ◌∷◌, some, arith, get_elem?, erase_at, set}
use pe_exchange.Types.{Order, Orderbook}
use pe_exchange.Orderbook.Levels.Shows.{IsOrder}

abbrev pub open_quantity : Orderbook → ℕ
open_quantity [] = 0
open_quantity (o ∷ os) = o.quantity + open_quantity os

-- An order of one of `n` products and `m` traders, within the limits of `create_order`.
pub record Incoming (n m : ℕ) (o : Order) : Type 0 where
  pub product : o.product_id < n
  pub trader : o.trader_id < m
  pub ranges : IsOrder o

pub open_quantity-erase_at :
    (os : Orderbook) (k : ℕ) {o : Order}
    → get_elem? os k ≡ some o
    → open_quantity (erase_at os k) + o.quantity ≡ open_quantity os
open_quantity-erase_at [] k e = cc
open_quantity-erase_at (x ∷ os) zero e = ground arith
open_quantity-erase_at (x ∷ os) (suc k) e = ground (arith, open_quantity-erase_at os k e)

pub open_quantity-set :
    (os : Orderbook) (k : ℕ) (v : Order) {o : Order}
    → get_elem? os k ≡ some o
    → open_quantity (set os k v) + o.quantity ≡ open_quantity os + v.quantity
open_quantity-set [] k v e = cc
open_quantity-set (x ∷ os) zero v e = ground arith
open_quantity-set (x ∷ os) (suc k) v e = ground (arith, open_quantity-set os k v e)
