-- ===== src/Pipes/Messages/Remove.antt =====
-- The order that `find_order` found, out of the levels and of its book: the middle of `amend_msg` and
-- of `cancel_msg`.
use pe_exchange.Common.{
  get_elem?-lt-length, get_or-modify_ne, length-erase_at, ap, get_or-modify_self, Bool, erase_at, ℕ,
  zero, suc, ◌≤◌, ◌<◌, ◌≡◌, refl, sym, subst, ◌∙◌, true, false, List, [], ◌∷◌, some, arith,
  All-get_elem?, length, get_elem?, get_or, modify, get_elem?-get_or, Bool-cases, inl, inr,
}
use pe_exchange.Types.{Order, Orderbook, PrintedOrderbook, Exchange}
use pe_exchange.Orderbook.Levels.Descending.{book_quantity}
use pe_exchange.Orderbook.Levels.Shows.{IsOrder, book_quantity-erase_at}
use pe_exchange.Orderbook.Orders.{Found, delete_order}
use pe_exchange.Orderbook.Orders.Find.{FoundAt}
use pe_exchange.Orderbook.Matching.{drop_sell, drop_buy}
use pe_exchange.Orderbook.Invariant.Side.{Belongs}
use pe_exchange.Orderbook.Invariant.Product.{ProductOk}
use pe_exchange.Orderbook.Invariant.Steps.{IsValid, drop_sell-IsValid, drop_buy-IsValid}
use pe_exchange.Orderbook.Invariant.BuyRound.{sells_of}
use pe_exchange.Orderbook.Invariant.SellRound.{buys_of}
use pe_exchange.Pipes.Messages.{find_list, delete_from_list, remove_found}

no_levels : PrintedOrderbook
no_levels = record { product = []; head_buy = []; head_sell = []; buy_len = 0; sell_len = 0 }

product_ok :
    (n : ℕ) (s : Exchange) (i : ℕ)
    → IsValid n s
    → i < n
    → ProductOk i
        (length s.trader_list)
        (buys_of s i)
        (sells_of s i)
        (get_or s.printed_orders i no_levels)
product_ok n s i v h =
    v.products i (buys_of s i) (sells_of s i) (get_or s.printed_orders i no_levels)
      (get_elem?-get_or s.buy_orders i [] (omega (arith, v.num_buys)))
      (get_elem?-get_or s.sell_orders i [] (omega (arith, v.num_sells)))
      (get_elem?-get_or s.printed_orders i no_levels (omega (arith, v.num_printed)))

-- A found order stands in the book of its side and product, and is within the limits.
pub found-Belongs :
    (n trader_id id : ℕ) (s : Exchange) (f : Found)
    → IsValid n s
    → FoundAt n trader_id id s.buy_orders s.sell_orders f
    → Belongs f.product f.is_buy (length s.trader_list) f.order × IsOrder f.order
found-Belongs n trader_id id s f v h =
    let ok = product_ok n s f.product v h.product in
    let m = length s.trader_list in
    elim (Bool-cases f.is_buy) [
      | inl buy ↦
          let there : get_elem? (buys_of s f.product) f.position ≡ some f.order =
            simp buy at h.there in
          rw buy (
            All-get_elem? (Belongs f.product true m) (buys_of s f.product) f.position ok.buys.belong
                there,
            All-get_elem? IsOrder (buys_of s f.product) f.position ok.buys.orders there,
          )
      | inr sell ↦
          let there : get_elem? (sells_of s f.product) f.position ≡ some f.order =
            simp sell at h.there in
          rw sell (
            All-get_elem? (Belongs f.product false m) (sells_of s f.product) f.position
                ok.sells.belong there,
            All-get_elem? IsOrder (sells_of s f.product) f.position ok.sells.orders there,
          )
    ]

pub remove_found_buy :
    (s : Exchange) (f : Found)
    → f.order.is_buy ≡ true
    → remove_found s f ≡ drop_buy s f.order.product_id f.position f.order
unfolding remove_found find_list delete_from_list drop_buy
remove_found_buy s f e = simp e

pub remove_found_sell :
    (s : Exchange) (f : Found)
    → f.order.is_buy ≡ false
    → remove_found s f ≡ drop_sell s f.order.product_id f.position f.order
unfolding remove_found find_list delete_from_list drop_sell
remove_found_sell s f e = simp e

-- Without the found order the exchange is still valid, with the same traders and fees, and no book
-- has more at any price.
pub record Removed (n : ℕ) (s s' : Exchange) : Type 0 where
  pub valid : IsValid n s'
  pub same_traders : s'.trader_list ≡ s.trader_list
  pub same_fees : s'.exchange_fees ≡ s.exchange_fees
  pub fewer_buys : (i p : ℕ) → book_quantity p (buys_of s' i) ≤ book_quantity p (buys_of s i)
  pub fewer_sells : (i p : ℕ) → book_quantity p (sells_of s' i) ≤ book_quantity p (sells_of s i)

book_quantity-modify :
    (bss : List Orderbook) (j k : ℕ) {o : Order}
    → get_elem? (get_or bss j []) k ≡ some o
    → (i p : ℕ)
    → book_quantity p (get_or (modify bss j (delete_order k)) i [])
      ≤ book_quantity p (get_or bss i [])
unfolding delete_order
book_quantity-modify [] j k e i p = omega arith
book_quantity-modify (bs ∷ bss) zero k e zero p = omega (arith, book_quantity-erase_at p bs k e)
book_quantity-modify (bs ∷ bss) zero k e (suc i) p = omega arith
book_quantity-modify (bs ∷ bss) (suc j) k e zero p = omega arith
book_quantity-modify (bs ∷ bss) (suc j) k e (suc i) p = book_quantity-modify bss j k e i p

module _ (n : ℕ) (s : Exchange) (v : IsValid n s) (k : ℕ) (o : Order) where
  drop_buy-Removed :
      get_elem? (buys_of s o.product_id) k ≡ some o → Removed n s (drop_buy s o.product_id k o)
  unfolding drop_buy
  drop_buy-Removed e = record {
    valid = drop_buy-IsValid n s v k o o.product_id refl e;
    same_traders = refl;
    same_fees = refl;
    fewer_buys = book_quantity-modify s.buy_orders o.product_id k e;
    fewer_sells = λ i p. omega arith;
  }

  drop_sell-Removed :
      get_elem? (sells_of s o.product_id) k ≡ some o → Removed n s (drop_sell s o.product_id k o)
  unfolding drop_sell
  drop_sell-Removed e = record {
    valid = drop_sell-IsValid n s v k o o.product_id refl e;
    same_traders = refl;
    same_fees = refl;
    fewer_buys = λ i p. omega arith;
    fewer_sells = book_quantity-modify s.sell_orders o.product_id k e;
  }

-- The book of a side and a product.
abbrev pub book_of : Bool → ℕ → Exchange → Orderbook
book_of true i s = buys_of s i
book_of false i s = sells_of s i

pub remove_found_valid :
    (n trader_id id : ℕ) (s : Exchange) (f : Found)
    → IsValid n s
    → FoundAt n trader_id id s.buy_orders s.sell_orders f
    → Removed n s (remove_found s f)
remove_found_valid n trader_id id s f v h =
    let own = (found-Belongs n trader_id id s f v h).0 in
    elim (Bool-cases f.is_buy) [
      | inl buy ↦
          let there : get_elem? (buys_of s f.product) f.position ≡ some f.order =
            simp buy at h.there in
          rw (remove_found_buy s f (own.side ∙ buy)) (
            drop_buy-Removed n s v f.position f.order (
              subst (λ i. get_elem? (buys_of s i) f.position ≡ some f.order) (sym own.product)
                there))
      | inr sell ↦
          let there : get_elem? (sells_of s f.product) f.position ≡ some f.order =
            simp sell at h.there in
          rw (remove_found_sell s f (own.side ∙ sell)) (
            drop_sell-Removed n s v f.position f.order (
              subst (λ i. get_elem? (sells_of s i) f.position ≡ some f.order) (sym own.product)
                there))
    ]

-- The found order is out of its book, the others stand there in their order, and no other book has
-- changed.
pub record TakenOut (s s' : Exchange) (f : Found) : Type 0 where
  pub taken : book_of f.is_buy f.product s' ≡ erase_at (book_of f.is_buy f.product s) f.position
  pub one_less :
      suc (length (book_of f.is_buy f.product s')) ≡ length (book_of f.is_buy f.product s)
  pub others :
      (is_buy : Bool) (i : ℕ)
      → ¬ ((is_buy ≡ f.is_buy) × (i ≡ f.product))
      → book_of is_buy i s' ≡ book_of is_buy i s

module _ (s : Exchange) (f : Found) (o : Order) where
  drop_buy-TakenOut :
      f.is_buy ≡ true
      → f.product < length s.buy_orders
      → get_elem? (buys_of s f.product) f.position ≡ some f.order
      → TakenOut s (drop_buy s f.product f.position o) f
  unfolding drop_buy delete_order
  drop_buy-TakenOut b inside e =
      let taken : buys_of (drop_buy s f.product f.position o) f.product
          ≡ erase_at (buys_of s f.product) f.position =
        get_or-modify_self s.buy_orders f.product (delete_order f.position) [] inside in
      record {
        taken = rw b taken;
        one_less = rw b (
            ap (λ l. suc (length l)) taken
            ∙ length-erase_at (buys_of s f.product) f.position
                (get_elem?-lt-length (buys_of s f.product) f.position e));
        others = λ is_buy i other. elim (Bool-cases is_buy) [
          | inl buy ↦ rw buy (
              get_or-modify_ne s.buy_orders (delete_order f.position) []
                (λ z. other (buy ∙ sym b, sym z)))
          | inr sell ↦ rw sell refl
        ];
      }

  drop_sell-TakenOut :
      f.is_buy ≡ false
      → f.product < length s.sell_orders
      → get_elem? (sells_of s f.product) f.position ≡ some f.order
      → TakenOut s (drop_sell s f.product f.position o) f
  unfolding drop_sell delete_order
  drop_sell-TakenOut b inside e =
      let taken : sells_of (drop_sell s f.product f.position o) f.product
          ≡ erase_at (sells_of s f.product) f.position =
        get_or-modify_self s.sell_orders f.product (delete_order f.position) [] inside in
      record {
        taken = rw b taken;
        one_less = rw b (
            ap (λ l. suc (length l)) taken
            ∙ length-erase_at (sells_of s f.product) f.position
                (get_elem?-lt-length (sells_of s f.product) f.position e));
        others = λ is_buy i other. elim (Bool-cases is_buy) [
          | inl buy ↦ rw buy refl
          | inr sell ↦ rw sell (
              get_or-modify_ne s.sell_orders (delete_order f.position) []
                (λ z. other (sell ∙ sym b, sym z)))
        ];
      }

-- On a valid exchange, an order that `find_order` may have found is taken out of its book: the book
-- is the former one without the order at the found position, and one shorter, and every other book
-- is as it was. The exchange stays valid, the levels included, the traders and the fees stay as
-- they were, and no book has more at any price.
pub remove_found-Removed :
    (n trader_id id : ℕ) (s : Exchange) (f : Found)
    → IsValid n s
    → FoundAt n trader_id id s.buy_orders s.sell_orders f
    → Removed n s (remove_found s f) × TakenOut s (remove_found s f) f
remove_found-Removed n trader_id id s f v h =
    let own = (found-Belongs n trader_id id s f v h).0 in
    (
      remove_found_valid n trader_id id s f v h,
      elim (Bool-cases f.is_buy) [
        | inl buy ↦ rw (remove_found_buy s f (own.side ∙ buy)) (
            subst (λ i. TakenOut s (drop_buy s i f.position f.order) f) (sym own.product)
              (drop_buy-TakenOut s f f.order buy (omega (arith, v.num_buys, h.product))
                (simp buy at h.there)))
        | inr sell ↦ rw (remove_found_sell s f (own.side ∙ sell)) (
            subst (λ i. TakenOut s (drop_sell s i f.position f.order) f) (sym own.product)
              (drop_sell-TakenOut s f f.order sell (omega (arith, v.num_sells, h.product))
                (simp sell at h.there)))
      ],
    )
