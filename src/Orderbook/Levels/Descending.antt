-- ===== src/Orderbook/Levels/Descending.antt =====
-- Price levels in strictly descending order of price, and what the list says of one price.
use pe_exchange.Common.{ℕ, ◌+◌, ◌≤◌, ◌<◌, ◌≡◌, refl, List, [], ◌∷◌, arith, ◌==◌, if◌then◌else◌}
use pe_exchange.Types.{Order, PrintedOrder}

-- All levels are below the price, each below the one before it.
abbrev pub Below : ℕ → List PrintedOrder → Type 0
Below p [] = Unit {0}
Below p (l ∷ ls) = (l.price < p) × Below l.price ls

abbrev pub Descends : List PrintedOrder → Type 0
Descends [] = Unit {0}
Descends (l ∷ ls) = Below l.price ls

-- What is offered at a price according to the levels.
abbrev pub quantity_at : ℕ → List PrintedOrder → ℕ
quantity_at p [] = 0
quantity_at p (l ∷ ls) = (if l.price == p then l.quantity else 0) + quantity_at p ls

abbrev pub orders_at : ℕ → List PrintedOrder → ℕ
orders_at p [] = 0
orders_at p (l ∷ ls) = (if l.price == p then l.num_orders else 0) + orders_at p ls

-- What the orders of a book add up to at a price.
abbrev pub book_quantity : ℕ → List Order → ℕ
book_quantity p [] = 0
book_quantity p (o ∷ os) = (if o.price == p then o.quantity else 0) + book_quantity p os

abbrev pub book_orders : ℕ → List Order → ℕ
book_orders p [] = 0
book_orders p (o ∷ os) = (if o.price == p then 1 else 0) + book_orders p os

pub Below-mono : {p q : ℕ} (ls : List PrintedOrder) → p ≤ q → Below p ls → Below q ls
Below-mono [] h b = tt
Below-mono (l ∷ ls) h b = (omega arith, b.1)

-- Nothing is offered at or above a bound.
pub quantity_at_above :
    (p q : ℕ) (ls : List PrintedOrder) → Below p ls → p ≤ q → quantity_at q ls ≡ 0
quantity_at_above p q [] b h = refl
quantity_at_above p q (l ∷ ls) b h = ground (arith, quantity_at_above l.price q ls b.1)

pub orders_at_above : (p q : ℕ) (ls : List PrintedOrder) → Below p ls → p ≤ q → orders_at q ls ≡ 0
orders_at_above p q [] b h = refl
orders_at_above p q (l ∷ ls) b h = ground (arith, orders_at_above l.price q ls b.1)

abbrev pub HasQuantity : PrintedOrder → Type 0
HasQuantity l = 0 < l.quantity

pub Below-Descends : (p : ℕ) (ls : List PrintedOrder) → Below p ls → Descends ls
Below-Descends p [] b = tt
Below-Descends p (l ∷ ls) b = b.1
