-- ===== src/Orderbook/Levels/Shows.antt =====
-- One side of a printed orderbook shows a book: its levels, in order and none empty, hold at each
-- price what the book's orders at that price add up to.
use pe_exchange.Common.{
  ℕ, zero, suc, ◌+◌, ◌≤◌, ◌<◌, ◌≡◌, List, [], ◌∷◌, ◌++◌, some, arith, int_mod, int_max, add_int,
  All, All-get_elem?, All-erase_at, length, get_elem?, erase_at, set,
}
use pe_exchange.Types.{Order, PrintedOrder}
use pe_exchange.Orderbook.Levels.{add_to_levels, count_levels, delete_from}
use pe_exchange.Orderbook.Levels.Descending.{
  Below, Descends, quantity_at, orders_at, book_quantity, book_orders, HasQuantity, Below-Descends,
}
use pe_exchange.Orderbook.Levels.Add.{
  share, hit, Fits, quantity_at-add_to_levels, orders_at-add_to_levels, Below-add_to_levels,
  HasQuantity-add_to_levels,
}
use pe_exchange.Orderbook.Levels.Remove.{
  Lies, deduct_level, delete_from_lem, quantity_at-deduct_level, orders_at-deduct_level,
  Below-deduct_level, HasQuantity-deduct_level,
}

-- The ranges that `create_order` enforces.
abbrev pub max_value : ℕ
max_value = 999999

pub record IsOrder (o : Order) : Type 0 where
  pub quantity_pos : 1 ≤ o.quantity
  pub quantity_max : o.quantity ≤ max_value
  pub price_pos : 1 ≤ o.price
  pub price_max : o.price ≤ max_value

pub record Shows (ls : List PrintedOrder) (len : ℕ) (os : List Order) : Type 0 where
  pub below : Below (suc max_value) ls
  pub held : All HasQuantity ls
  pub stored : len ≡ length ls
  pub quantities : (p : ℕ) → quantity_at p ls ≡ book_quantity p os
  pub orders : (p : ℕ) → orders_at p ls ≡ book_orders p os

length-le-Below : (b : ℕ) (ls : List PrintedOrder) → Below b ls → length ls ≤ b
length-le-Below b [] d = omega arith
length-le-Below b (l ∷ ls) d = omega (arith, length-le-Below l.price ls d.1)

count_levels-length :
    (ls : List PrintedOrder) (ctr : ℕ)
    → ctr + length ls < int_mod
    → count_levels ls ctr ≡ ctr + length ls
unfolding count_levels
count_levels-length [] ctr h = omega arith
count_levels-length (l ∷ ls) ctr h =
    let step : add_int ctr 1 ≡ ctr + 1 = omega arith in
    rw step (omega (arith, count_levels-length ls (ctr + 1)))

-- `set_len` stores the number of levels.
pub count_levels_lem :
    (ls : List PrintedOrder) → Below (suc max_value) ls → count_levels ls 0 ≡ length ls
count_levels_lem ls b =
    omega (arith, count_levels-length ls 0, length-le-Below (suc max_value) ls b)

module _ (p : ℕ) where
  pub book_orders-le : (os : List Order) → All IsOrder os → book_orders p os ≤ book_quantity p os
  book_orders-le [] h = omega arith
  book_orders-le (o ∷ os) h = ground (arith, book_orders-le os h.1)

  pub book_quantity-snoc :
      (os : List Order) (o : Order)
      → book_quantity p (os ++ (o ∷ [])) ≡ book_quantity p os + share p o
  book_quantity-snoc [] o = omega arith
  book_quantity-snoc (x ∷ os) o = omega (arith, book_quantity-snoc os o)

  pub book_orders-snoc :
      (os : List Order) (o : Order) → book_orders p (os ++ (o ∷ [])) ≡ book_orders p os + hit p o
  book_orders-snoc [] o = omega arith
  book_orders-snoc (x ∷ os) o = omega (arith, book_orders-snoc os o)

  pub book_quantity-erase_at :
      (os : List Order) (i : ℕ) {o : Order}
      → get_elem? os i ≡ some o
      → book_quantity p (erase_at os i) + share p o ≡ book_quantity p os
  book_quantity-erase_at [] i e = cc
  book_quantity-erase_at (x ∷ os) zero e = ground arith
  book_quantity-erase_at (x ∷ os) (suc i) e = ground (arith, book_quantity-erase_at os i e)

  pub book_orders-erase_at :
      (os : List Order) (i : ℕ) {o : Order}
      → get_elem? os i ≡ some o
      → book_orders p (erase_at os i) + hit p o ≡ book_orders p os
  book_orders-erase_at [] i e = cc
  book_orders-erase_at (x ∷ os) zero e = ground arith
  book_orders-erase_at (x ∷ os) (suc i) e = ground (arith, book_orders-erase_at os i e)

  pub book_quantity-set :
      (os : List Order) (i : ℕ) (v : Order) {o : Order}
      → get_elem? os i ≡ some o
      → book_quantity p (set os i v) + share p o ≡ book_quantity p os + share p v
  book_quantity-set [] i v e = cc
  book_quantity-set (x ∷ os) zero v e = ground arith
  book_quantity-set (x ∷ os) (suc i) v e = ground (arith, book_quantity-set os i v e)

  pub book_orders-set :
      (os : List Order) (i : ℕ) (v : Order) {o : Order}
      → get_elem? os i ≡ some o
      → book_orders p (set os i v) + hit p o ≡ book_orders p os + hit p v
  book_orders-set [] i v e = cc
  book_orders-set (x ∷ os) zero v e = ground arith
  book_orders-set (x ∷ os) (suc i) v e = ground (arith, book_orders-set os i v e)

-- If the levels show a book of orders within the limits, then for another order within the limits,
-- with room below 2^31 at its price, the levels after `add_to_prints`, with the length that
-- `set_len` stores, show the book with the order at its end: in descending order, none empty, and
-- with the book's quantity and number of orders at every price.
pub Shows-add :
    (ls : List PrintedOrder) (len : ℕ) (os : List Order) (o : Order)
    → Shows ls len os
    → All IsOrder os
    → IsOrder o
    → book_quantity o.price os + o.quantity < int_max
    → Shows (add_to_levels ls o) (count_levels (add_to_levels ls o) 0) (os ++ (o ∷ []))
Shows-add ls len os o s h v f = record {
  below = below';
  held = HasQuantity-add_to_levels o ls (omega arith) fits s.held;
  stored = count_levels_lem (add_to_levels ls o) below';
  quantities = λ p. omega (
    arith,
    quantity_at-add_to_levels o p ls desc fits,
    book_quantity-snoc p os o,
    s.quantities p,
  );
  orders = λ p.
      omega (arith, orders_at-add_to_levels o p ls desc fits, book_orders-snoc p os o, s.orders p);
}
  where
    desc : Descends ls
    desc = Below-Descends (suc max_value) ls s.below

    fits : Fits ls o
    fits = omega (arith, s.quantities o.price, s.orders o.price, book_orders-le o.price os h)

    below' : Below (suc max_value) (add_to_levels ls o)
    below' = Below-add_to_levels o (suc max_value) ls s.below (omega arith)

orders_of_order :
    (p : ℕ) (os : List Order) → All IsOrder os → book_quantity p os ≡ 0 → book_orders p os ≡ 0
orders_of_order p os h e = omega (arith, book_orders-le p os h)

Shows-Lies :
    (ls : List PrintedOrder) (len : ℕ) (os : List Order) (i : ℕ) (o : Order)
    → Shows ls len os
    → All IsOrder os
    → get_elem? os i ≡ some o
    → book_quantity o.price os < int_max
    → Lies ls o
Shows-Lies ls len os i o s h e f =
    let v : IsOrder o = All-get_elem? IsOrder os i h e in
    let rest = book_quantity-erase_at o.price os i e in
    let rest' = book_orders-erase_at o.price os i e in
    let none_left = orders_of_order o.price (erase_at os i) (All-erase_at IsOrder os i h) in
    let le = book_orders-le o.price os h in
    let q = s.quantities o.price in
    let n = s.orders o.price in
    record {
      some_quantity = omega arith;
      quantity = ground arith;
      orders = ground arith;
      alone = λ a. ground arith;
      int_quantity = omega arith;
      int_orders = omega arith;
    }

-- If the levels show a book of orders within the limits, whose quantity at the price of its `i`-th
-- order stays below 2^31, then the levels after `delete_order_prints` of that order, with the
-- length that `set_len` stores, show the book without it: in descending order, none empty, and with
-- the book's quantity and number of orders at every price.
pub Shows-remove :
    (ls : List PrintedOrder) (len : ℕ) (os : List Order) (i : ℕ) (o : Order)
    → Shows ls len os
    → All IsOrder os
    → get_elem? os i ≡ some o
    → book_quantity o.price os < int_max
    → Shows (delete_from ls len 0 ls o) (count_levels (delete_from ls len 0 ls o) 0) (erase_at os i)
Shows-remove ls len os i o s h e f = rw (delete_from_lem ls o len desc s.stored) (record {
  below = below';
  held = HasQuantity-deduct_level o ls s.held;
  stored = count_levels_lem (deduct_level ls o) below';
  quantities = λ p. omega (
    arith,
    quantity_at-deduct_level o p ls desc lies,
    book_quantity-erase_at p os i e,
    s.quantities p,
  );
  orders = λ p.
      omega
        (arith, orders_at-deduct_level o p ls desc lies, book_orders-erase_at p os i e, s.orders p);
})
  where
    desc : Descends ls
    desc = Below-Descends (suc max_value) ls s.below

    lies : Lies ls o
    lies = Shows-Lies ls len os i o s h e f

    below' : Below (suc max_value) (deduct_level ls o)
    below' = Below-deduct_level o (suc max_value) ls s.below
