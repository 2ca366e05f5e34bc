-- ===== src/Orderbook/Levels/Add.antt =====
-- `add_to_prints` on one side: the new order goes to the level of its price, kept in order.
use pe_exchange.Common.{
  ℕ, ◌+◌, ◌≤◌, ◌<◌, ◌≡◌, List, [], ◌∷◌, arith, ◌==◌, if◌then◌else◌, int_mod, All,
}
use pe_exchange.Types.{Order, PrintedOrder}
use pe_exchange.Orderbook.Levels.{add_from, add_to_levels}
use pe_exchange.Orderbook.Levels.Descending.{
  Below, Descends, quantity_at, orders_at, quantity_at_above, orders_at_above, HasQuantity,
}

-- An order counted at one price.
abbrev pub share : ℕ → Order → ℕ
share p o = if o.price == p then o.quantity else 0

abbrev pub hit : ℕ → Order → ℕ
hit p o = if o.price == p then 1 else 0

-- What the order adds to its level stays below the wrap of an int.
pub record Fits (ls : List PrintedOrder) (o : Order) : Type 0 where
  pub quantity : quantity_at o.price ls + o.quantity < int_mod
  pub orders : orders_at o.price ls + 1 < int_mod

module _ (o : Order) (p : ℕ) where
  quantity_at-add_from :
      (t : PrintedOrder) (ls : List PrintedOrder)
      → Below t.price ls
      → o.price ≤ t.price
      → Fits (t ∷ ls) o
      → quantity_at p (add_from t ls o) ≡ quantity_at p (t ∷ ls) + share p o
  unfolding add_from
  quantity_at-add_from t [] b h f = ground arith
  quantity_at-add_from t (l ∷ ls) b h f = ground (
    arith,
    quantity_at-add_from l ls b.1,
    quantity_at_above l.price o.price ls b.1,
    orders_at_above l.price o.price ls b.1,
  )

  orders_at-add_from :
      (t : PrintedOrder) (ls : List PrintedOrder)
      → Below t.price ls
      → o.price ≤ t.price
      → Fits (t ∷ ls) o
      → orders_at p (add_from t ls o) ≡ orders_at p (t ∷ ls) + hit p o
  unfolding add_from
  orders_at-add_from t [] b h f = ground arith
  orders_at-add_from t (l ∷ ls) b h f = ground (
    arith,
    orders_at-add_from l ls b.1,
    quantity_at_above l.price o.price ls b.1,
    orders_at_above l.price o.price ls b.1,
  )

  -- The levels offer the order's quantity more at its price, and nothing else changes.
  pub quantity_at-add_to_levels :
      (ls : List PrintedOrder)
      → Descends ls
      → Fits ls o
      → quantity_at p (add_to_levels ls o) ≡ quantity_at p ls + share p o
  unfolding add_to_levels
  quantity_at-add_to_levels [] b f = ground arith
  quantity_at-add_to_levels (l ∷ ls) b f = ground (arith, quantity_at-add_from l ls b)

  pub orders_at-add_to_levels :
      (ls : List PrintedOrder)
      → Descends ls
      → Fits ls o
      → orders_at p (add_to_levels ls o) ≡ orders_at p ls + hit p o
  unfolding add_to_levels
  orders_at-add_to_levels [] b f = ground arith
  orders_at-add_to_levels (l ∷ ls) b f = ground (arith, orders_at-add_from l ls b)

Below-add_from :
    (o : Order) (b : ℕ) (t : PrintedOrder) (ls : List PrintedOrder)
    → Below b (t ∷ ls)
    → o.price ≤ t.price
    → Below b (add_from t ls o)
unfolding add_from
Below-add_from o b t [] d h = ground arith
Below-add_from o b t (l ∷ ls) d h = ground (arith, Below-add_from o t.price l ls)

-- The prices stay in descending order, below any bound that the order's price is below.
pub Below-add_to_levels :
    (o : Order) (b : ℕ) (ls : List PrintedOrder)
    → Below b ls
    → o.price < b
    → Below b (add_to_levels ls o)
unfolding add_to_levels
Below-add_to_levels o b [] d h = ground arith
Below-add_to_levels o b (l ∷ ls) d h = ground (arith, Below-add_from o b l ls)

HasQuantity-add_from :
    (o : Order) (t : PrintedOrder) (ls : List PrintedOrder)
    → 0 < o.quantity
    → Fits (t ∷ ls) o
    → All HasQuantity (t ∷ ls)
    → All HasQuantity (add_from t ls o)
unfolding add_from
HasQuantity-add_from o t [] q f h = ground arith
HasQuantity-add_from o t (l ∷ ls) q f h = ground (arith, HasQuantity-add_from o l ls q)

-- No level of the new list is empty.
pub HasQuantity-add_to_levels :
    (o : Order) (ls : List PrintedOrder)
    → 0 < o.quantity
    → Fits ls o
    → All HasQuantity ls
    → All HasQuantity (add_to_levels ls o)
unfolding add_to_levels
HasQuantity-add_to_levels o [] q f h = ground arith
HasQuantity-add_to_levels o (l ∷ ls) q f h = ground (arith, HasQuantity-add_from o l ls q)
