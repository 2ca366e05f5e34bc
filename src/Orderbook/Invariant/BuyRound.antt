-- ===== src/Orderbook/Invariant/BuyRound.antt =====
-- One round of matching a new buy order: what `match_new_buy` does to the exchange.
use pe_exchange.Common.{
  ℕ, suc, ◌+◌, ◌<◌, ◌≡◌, refl, false, [], some, arith, All-get_elem?, length, get_elem?, get_or,
  set, get_elem?-get_or, get_or-modify_self, length-erase_at, get_elem?-lt-length,
}
use pe_exchange.Types.{Order, Orderbook, Exchange}
use pe_exchange.Orderbook.Levels.Shows.{IsOrder}
use pe_exchange.Orderbook.Orders.{delete_order}
use pe_exchange.Orderbook.Matching.{settle_buy, drop_sell, shrink_sell}
use pe_exchange.Orderbook.Matching.Conserve.{Conserves, settle_buy-Conserves}
use pe_exchange.Orderbook.Invariant.Side.{Belongs}
use pe_exchange.Orderbook.Invariant.Product.{reduced}
use pe_exchange.Orderbook.Invariant.Steps.{
  IsValid, settle_buy-IsValid, drop_sell-IsValid, shrink_sell-IsValid,
}
use pe_exchange.Orderbook.Invariant.Open.{
  open_quantity, open_quantity-erase_at, open_quantity-set, Incoming,
}

-- The book that a new buy order is matched with.
abbrev pub sells_of : Exchange → ℕ → Orderbook
sells_of s prod = get_or s.sell_orders prod []

-- A round has taken a quantity out of the product's sell book; the buy books are as they were.
pub record BuyRound (n : ℕ) (s s' : Exchange) (prod taken : ℕ) : Type 0 where
  pub valid : IsValid n s'
  pub conserves : Conserves n s s'
  pub own : s'.buy_orders ≡ s.buy_orders
  pub open_left : open_quantity (sells_of s' prod) + taken ≡ open_quantity (sells_of s prod)

module _ (n : ℕ) (s : Exchange) (v : IsValid n s) (o : Order)
    (w : Incoming n (length s.trader_list) o) (k : ℕ) (sell : Order)
    (there : get_elem? (sells_of s o.product_id) k ≡ some sell) where
  in_books : get_elem? s.sell_orders o.product_id ≡ some (sells_of s o.product_id)
  in_books = get_elem?-get_or s.sell_orders o.product_id [] (omega (arith, v.num_sells, w.product))

  pub resting_sell : Belongs o.product_id false (length s.trader_list) sell × IsOrder sell
  resting_sell =
      let ok =
        v.products o.product_id (get_or s.buy_orders o.product_id []) (sells_of s o.product_id)
          (get_or s.printed_orders o.product_id
            (record { product = []; head_buy = []; head_sell = []; buy_len = 0; sell_len = 0 }))
          (get_elem?-get_or s.buy_orders o.product_id [] (omega (arith, v.num_buys, w.product)))
          in_books
          (get_elem?-get_or s.printed_orders o.product_id _
            (omega (arith, v.num_printed, w.product))) in
      (
        All-get_elem? (Belongs o.product_id false (length s.trader_list)) (sells_of s o.product_id)
            k ok.sells.belong there,
        All-get_elem? IsOrder (sells_of s o.product_id) k ok.sells.orders there,
      )

  paid : (quantity : ℕ) → Conserves n s (settle_buy s o sell quantity)
  paid quantity =
      settle_buy-Conserves n s o sell quantity v.accounts
        (record { product = w.product; trader = w.trader })
        (record {
          product = omega (arith, resting_sell.0.product, w.product);
          trader = resting_sell.0.trader;
        })

  -- The resting order is used up.
  pub drop_sell-BuyRound :
      BuyRound n s
        (drop_sell (settle_buy s o sell sell.quantity) o.product_id k sell)
        o.product_id
        sell.quantity
  unfolding drop_sell settle_buy delete_order
  drop_sell-BuyRound = record {
    valid =
        drop_sell-IsValid n (settle_buy s o sell sell.quantity)
          (settle_buy-IsValid n s o sell sell.quantity v c) k sell o.product_id
          resting_sell.0.product there;
    conserves = record {
      money = c.money;
      goods = c.goods;
      traders = c.traders;
      accounts = c.accounts;
    };
    own = refl;
    open_left =
        rw (get_or-modify_self s.sell_orders o.product_id (delete_order k) [] inside)
          (open_quantity-erase_at (sells_of s o.product_id) k there);
  }
    where
      c : Conserves n s (settle_buy s o sell sell.quantity)
      c = paid sell.quantity

      inside : o.product_id < length s.sell_orders
      inside = omega (arith, v.num_sells, w.product)

  -- It uses up a place of the book.
  pub drop_sell_shorter :
      suc (
        length (
          sells_of
            (drop_sell (settle_buy s o sell sell.quantity) o.product_id k sell)
            o.product_id))
      ≡ length (sells_of s o.product_id)
  unfolding drop_sell settle_buy delete_order
  drop_sell_shorter =
      rw
        (get_or-modify_self s.sell_orders o.product_id (delete_order k) []
          (omega (arith, v.num_sells, w.product)))
        (length-erase_at (sells_of s o.product_id) k
          (get_elem?-lt-length (sells_of s o.product_id) k there))

  -- The new order is used up, and the resting one keeps the rest.
  pub shrink_sell-BuyRound :
      o.quantity < sell.quantity
      → BuyRound n s
          (shrink_sell (settle_buy s o sell o.quantity) o.product_id k sell o.quantity)
          o.product_id
          o.quantity
  unfolding shrink_sell settle_buy
  shrink_sell-BuyRound h = record {
    valid =
        shrink_sell-IsValid n (settle_buy s o sell o.quantity)
          (settle_buy-IsValid n s o sell o.quantity v c) k sell o.product_id resting_sell.0.product
          o.quantity there h;
    conserves = record {
      money = c.money;
      goods = c.goods;
      traders = c.traders;
      accounts = c.accounts;
    };
    own = refl;
    open_left =
        rw
          (get_or-modify_self s.sell_orders o.product_id (λ os. set os k (reduced sell o.quantity))
            [] (omega (arith, v.num_sells, w.product)))
          (omega
            (arith, open_quantity-set (sells_of s o.product_id) k (reduced sell o.quantity) there));
  }
    where
      c : Conserves n s (settle_buy s o sell o.quantity)
      c = paid o.quantity
