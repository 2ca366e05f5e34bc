-- ===== src/Orderbook/Invariant/Steps.antt =====
-- The invariant of the whole exchange, and the single steps of matching that keep it.
use pe_exchange.Common.{
  ℕ, ◌<◌, ◌≡◌, refl, ap, sym, subst, ◌∙◌, [], some, length, length-modify, modify, get_elem?,
  get_or, set, modify-id, modify-modify, get_or-get_elem?,
}
use pe_exchange.Types.{Order, Exchange}
use pe_exchange.Orderbook.Levels.{cancel_order_prints, add_order_prints}
use pe_exchange.Orderbook.Orders.{delete_order}
use pe_exchange.Orderbook.Matching.{
  settle_buy, settle_sell, drop_sell, drop_buy, shrink_sell, shrink_buy,
}
use pe_exchange.Orderbook.Matching.Accounts.{Covers}
use pe_exchange.Orderbook.Matching.Conserve.{Conserves}
use pe_exchange.Orderbook.Invariant.Product.{
  ProductsOk, ProductsOk-modify, cancelled, added, reduced, cancelled_buy, cancelled_sell,
  shrunk_buy, shrunk_sell,
}

-- An exchange of `n` products: as many books of each kind and accounts of each trader, and for every
-- product the printed levels show its two books.
pub record IsValid (n : ℕ) (s : Exchange) : Type 0 where
  pub num_buys : length s.buy_orders ≡ n
  pub num_sells : length s.sell_orders ≡ n
  pub num_printed : length s.printed_orders ≡ n
  pub accounts : Covers n s.trader_list
  pub products : ProductsOk (length s.trader_list) s.buy_orders s.sell_orders s.printed_orders

-- Money alone does not touch the books.
IsValid-money :
    (n : ℕ) (s s' : Exchange)
    → IsValid n s
    → Conserves n s s'
    → s'.buy_orders ≡ s.buy_orders
    → s'.sell_orders ≡ s.sell_orders
    → s'.printed_orders ≡ s.printed_orders
    → IsValid n s'
IsValid-money n s s' v c eb es ep = record {
  num_buys = ap length eb ∙ v.num_buys;
  num_sells = ap length es ∙ v.num_sells;
  num_printed = ap length ep ∙ v.num_printed;
  accounts = c.accounts;
  products = rw (eb, es, ep, c.traders) v.products;
}

pub settle_buy-IsValid :
    (n : ℕ) (s : Exchange) (buy sell : Order) (quantity : ℕ)
    → IsValid n s
    → Conserves n s (settle_buy s buy sell quantity)
    → IsValid n (settle_buy s buy sell quantity)
unfolding settle_buy
settle_buy-IsValid n s buy sell quantity v c =
    IsValid-money n s (settle_buy s buy sell quantity) v c refl refl refl

pub settle_sell-IsValid :
    (n : ℕ) (s : Exchange) (sell buy : Order) (quantity : ℕ)
    → IsValid n s
    → Conserves n s (settle_sell s sell buy quantity)
    → IsValid n (settle_sell s sell buy quantity)
unfolding settle_sell
settle_sell-IsValid n s sell buy quantity v c =
    IsValid-money n s (settle_sell s sell buy quantity) v c refl refl refl

module _ (n : ℕ) (s : Exchange) (v : IsValid n s) (k : ℕ) (old : Order) where
  drop_sell_own :
      get_elem? (get_or s.sell_orders old.product_id []) k ≡ some old
      → IsValid n (drop_sell s old.product_id k old)
  unfolding drop_sell cancel_order_prints
  drop_sell_own e = record {
    num_buys = v.num_buys;
    num_sells = length-modify s.sell_orders old.product_id _ ∙ v.num_sells;
    num_printed = length-modify s.printed_orders old.product_id _ ∙ v.num_printed;
    accounts = v.accounts;
    products = rw (modify-id s.buy_orders old.product_id) at (
        ProductsOk-modify (length s.trader_list) old.product_id s.buy_orders s.sell_orders
          s.printed_orders (λ x. x) (delete_order k) (cancelled old) v.products
          λ bs ss b eb es ep ok.
            cancelled_sell old.product_id (length s.trader_list) bs ss b ok k old
              (rw (get_or-get_elem? s.sell_orders old.product_id [] es) at e));
  }

  drop_buy_own :
      get_elem? (get_or s.buy_orders old.product_id []) k ≡ some old
      → IsValid n (drop_buy s old.product_id k old)
  unfolding drop_buy cancel_order_prints
  drop_buy_own e = record {
    num_buys = length-modify s.buy_orders old.product_id _ ∙ v.num_buys;
    num_sells = v.num_sells;
    num_printed = length-modify s.printed_orders old.product_id _ ∙ v.num_printed;
    accounts = v.accounts;
    products = rw (modify-id s.sell_orders old.product_id) at (
        ProductsOk-modify (length s.trader_list) old.product_id s.buy_orders s.sell_orders
          s.printed_orders (delete_order k) (λ x. x) (cancelled old) v.products
          λ bs ss b eb es ep ok.
            cancelled_buy old.product_id (length s.trader_list) bs ss b ok k old
              (rw (get_or-get_elem? s.buy_orders old.product_id [] eb) at e));
  }

  shrink_sell_own :
      (filled : ℕ)
      → get_elem? (get_or s.sell_orders old.product_id []) k ≡ some old
      → filled < old.quantity
      → IsValid n (shrink_sell s old.product_id k old filled)
  unfolding shrink_sell cancel_order_prints add_order_prints
  shrink_sell_own filled e h = record {
    num_buys = v.num_buys;
    num_sells = length-modify s.sell_orders old.product_id _ ∙ v.num_sells;
    num_printed =
        length-modify (modify s.printed_orders old.product_id _) old.product_id _
        ∙ length-modify s.printed_orders old.product_id _
        ∙ v.num_printed;
    accounts = v.accounts;
    products =
        rw
          (
            modify-id s.buy_orders old.product_id,
            ← modify-modify s.printed_orders old.product_id (cancelled old)
                (added (reduced old filled)),
          )
          at
          (ProductsOk-modify (length s.trader_list) old.product_id s.buy_orders s.sell_orders
            s.printed_orders (λ x. x) (λ os. set os k (reduced old filled))
            (λ b. added (reduced old filled) (cancelled old b)) v.products
            λ bs ss b eb es ep ok.
              shrunk_sell old.product_id (length s.trader_list) bs ss b ok k filled old
                (rw (get_or-get_elem? s.sell_orders old.product_id [] es) at e) h);
  }

  shrink_buy_own :
      (filled : ℕ)
      → get_elem? (get_or s.buy_orders old.product_id []) k ≡ some old
      → filled < old.quantity
      → IsValid n (shrink_buy s old.product_id k old filled)
  unfolding shrink_buy cancel_order_prints add_order_prints
  shrink_buy_own filled e h = record {
    num_buys = length-modify s.buy_orders old.product_id _ ∙ v.num_buys;
    num_sells = v.num_sells;
    num_printed =
        length-modify (modify s.printed_orders old.product_id _) old.product_id _
        ∙ length-modify s.printed_orders old.product_id _
        ∙ v.num_printed;
    accounts = v.accounts;
    products =
        rw
          (
            modify-id s.sell_orders old.product_id,
            ← modify-modify s.printed_orders old.product_id (cancelled old)
                (added (reduced old filled)),
          )
          at
          (ProductsOk-modify (length s.trader_list) old.product_id s.buy_orders s.sell_orders
            s.printed_orders (λ os. set os k (reduced old filled)) (λ x. x)
            (λ b. added (reduced old filled) (cancelled old b)) v.products
            λ bs ss b eb es ep ok.
              shrunk_buy old.product_id (length s.trader_list) bs ss b ok k filled old
                (rw (get_or-get_elem? s.buy_orders old.product_id [] eb) at e) h);
  }

-- The same at the product of the new order, which is the resting order's.
module _ (n : ℕ) (s : Exchange) (v : IsValid n s) (k : ℕ) (old : Order) (prod : ℕ)
    (same : old.product_id ≡ prod) where
  pub drop_sell-IsValid :
      get_elem? (get_or s.sell_orders prod []) k ≡ some old → IsValid n (drop_sell s prod k old)
  drop_sell-IsValid e =
      subst (λ p. IsValid n (drop_sell s p k old)) same
        (drop_sell_own n s v k old
          (subst (λ p. get_elem? (get_or s.sell_orders p []) k ≡ some old) (sym same) e))

  pub drop_buy-IsValid :
      get_elem? (get_or s.buy_orders prod []) k ≡ some old → IsValid n (drop_buy s prod k old)
  drop_buy-IsValid e =
      subst (λ p. IsValid n (drop_buy s p k old)) same
        (drop_buy_own n s v k old
          (subst (λ p. get_elem? (get_or s.buy_orders p []) k ≡ some old) (sym same) e))

  pub shrink_sell-IsValid :
      (filled : ℕ)
      → get_elem? (get_or s.sell_orders prod []) k ≡ some old
      → filled < old.quantity
      → IsValid n (shrink_sell s prod k old filled)
  shrink_sell-IsValid filled e h =
      subst (λ p. IsValid n (shrink_sell s p k old filled)) same
        (shrink_sell_own n s v k old filled
          (subst (λ p. get_elem? (get_or s.sell_orders p []) k ≡ some old) (sym same) e) h)

  pub shrink_buy-IsValid :
      (filled : ℕ)
      → get_elem? (get_or s.buy_orders prod []) k ≡ some old
      → filled < old.quantity
      → IsValid n (shrink_buy s prod k old filled)
  shrink_buy-IsValid filled e h =
      subst (λ p. IsValid n (shrink_buy s p k old filled)) same
        (shrink_buy_own n s v k old filled
          (subst (λ p. get_elem? (get_or s.buy_orders p []) k ≡ some old) (sym same) e) h)
