-- ===== src/Orderbook/Invariant/Side.antt =====
-- One side of one product: its book and the levels printed for it.
use pe_exchange.Common.{
  ℕ, ◌+◌, ◌≤◌, ◌<◌, ◌≡◌, Bool, List, [], ◌∷◌, ◌++◌, some, arith, int_max, All, All-erase_at,
  All-set, All-append, get_elem?, erase_at, set,
}
use pe_exchange.Types.{Order, Orderbook, PrintedOrder}
use pe_exchange.Orderbook.Levels.{add_to_levels, count_levels, delete_from}
use pe_exchange.Orderbook.Levels.Descending.{book_quantity}
use pe_exchange.Orderbook.Levels.Shows.{
  IsOrder, Shows, Shows-add, Shows-remove, book_quantity-snoc, book_orders-snoc,
  book_quantity-erase_at, book_orders-erase_at, book_quantity-set, book_orders-set,
}

-- An order of product `i`, on this side, of one of `m` traders.
pub record Belongs (i : ℕ) (is_buy : Bool) (m : ℕ) (o : Order) : Type 0 where
  pub product : o.product_id ≡ i
  pub side : o.is_buy ≡ is_buy
  pub trader : o.trader_id < m

-- `small`: no level's quantity leaves the range of an int.
pub record SideOk (i : ℕ) (is_buy : Bool) (m : ℕ) (ls : List PrintedOrder) (len : ℕ)
    (os : Orderbook) : Type 0 where
  pub shows : Shows ls len os
  pub orders : All IsOrder os
  pub belong : All (Belongs i is_buy m) os
  pub small : (p : ℕ) → book_quantity p os < int_max

module _ (i : ℕ) (is_buy : Bool) (m : ℕ) (ls : List PrintedOrder) (len : ℕ) (os : Orderbook) where
  pub SideOk-remove :
      (k : ℕ) (o : Order)
      → SideOk i is_buy m ls len os
      → get_elem? os k ≡ some o
      → SideOk i is_buy m
          (delete_from ls len 0 ls o)
          (count_levels (delete_from ls len 0 ls o) 0)
          (erase_at os k)
  SideOk-remove k o s e = record {
    shows = Shows-remove ls len os k o s.shows s.orders e (s.small o.price);
    orders = All-erase_at IsOrder os k s.orders;
    belong = All-erase_at (Belongs i is_buy m) os k s.belong;
    small = λ p. omega (arith, book_quantity-erase_at p os k e, s.small p);
  }

  pub SideOk-add :
      (o : Order)
      → SideOk i is_buy m ls len os
      → IsOrder o
      → Belongs i is_buy m o
      → book_quantity o.price os + o.quantity < int_max
      → SideOk i is_buy m
          (add_to_levels ls o)
          (count_levels (add_to_levels ls o) 0)
          (os ++ (o ∷ []))
  SideOk-add o s v b f = record {
    shows = Shows-add ls len os o s.shows s.orders v f;
    orders = All-append IsOrder os (o ∷ []) s.orders (v, tt);
    belong = All-append (Belongs i is_buy m) os (o ∷ []) s.belong (b, tt);
    small = λ p. ground (arith, book_quantity-snoc p os o, s.small p);
  }

-- The levels do not say in which place of the book an order stands.
Shows-place :
    (ls : List PrintedOrder) (len : ℕ) (os : Orderbook) (k : ℕ) (o v : Order)
    → get_elem? os k ≡ some o
    → Shows ls len (erase_at os k ++ (v ∷ []))
    → Shows ls len (set os k v)
Shows-place ls len os k o v e s = record {
  below = s.below;
  held = s.held;
  stored = s.stored;
  quantities = λ p. omega (
    arith,
    s.quantities p,
    book_quantity-snoc p (erase_at os k) v,
    book_quantity-erase_at p os k e,
    book_quantity-set p os k v e,
  );
  orders = λ p. omega (
    arith,
    s.orders p,
    book_orders-snoc p (erase_at os k) v,
    book_orders-erase_at p os k e,
    book_orders-set p os k v e,
  );
}

module _ (i : ℕ) (is_buy : Bool) (m : ℕ) (ls : List PrintedOrder) (len : ℕ) (os : Orderbook) where
  -- Out with an order, in with what is left of it, and the book changed in place.
  pub SideOk-shrink :
      (k : ℕ) (o v : Order)
      → SideOk i is_buy m ls len os
      → get_elem? os k ≡ some o
      → IsOrder v
      → Belongs i is_buy m v
      → v.price ≡ o.price
      → v.quantity ≤ o.quantity
      → let ls' = delete_from ls len 0 ls o in
        SideOk i is_buy m (add_to_levels ls' v) (count_levels (add_to_levels ls' v) 0) (set os k v)
  SideOk-shrink k o v s e w b same less =
      let ls' = delete_from ls len 0 ls o in
      let gone = SideOk-remove i is_buy m ls len os k o s e in
      let fits : book_quantity v.price (erase_at os k) + v.quantity < int_max =
        ground (arith, book_quantity-erase_at v.price os k e, s.small v.price) in
      let added = SideOk-add i is_buy m ls' (count_levels ls' 0) (erase_at os k) v gone w b fits in
      record {
        shows =
            Shows-place (add_to_levels ls' v) (count_levels (add_to_levels ls' v) 0) os k o v e
              added.shows;
        orders = All-set IsOrder os k v s.orders w;
        belong = All-set (Belongs i is_buy m) os k v s.belong b;
        small = λ p. ground (arith, book_quantity-set p os k v e, s.small p);
      }
