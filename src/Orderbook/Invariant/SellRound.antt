-- ===== src/Orderbook/Invariant/SellRound.antt =====
-- One round of matching a new sell order: what `match_new_sell` does to the exchange.
use pe_exchange.Common.{
  ℕ, suc, ◌+◌, ◌<◌, ◌≡◌, refl, true, [], some, arith, All-get_elem?, length, get_elem?, get_or, set,
  get_elem?-get_or, get_or-modify_self, length-erase_at, get_elem?-lt-length,
}
use pe_exchange.Types.{Order, Orderbook, Exchange}
use pe_exchange.Orderbook.Levels.Shows.{IsOrder}
use pe_exchange.Orderbook.Orders.{delete_order}
use pe_exchange.Orderbook.Matching.{settle_sell, drop_buy, shrink_buy}
use pe_exchange.Orderbook.Matching.Conserve.{Conserves, settle_sell-Conserves}
use pe_exchange.Orderbook.Invariant.Side.{Belongs}
use pe_exchange.Orderbook.Invariant.Product.{reduced}
use pe_exchange.Orderbook.Invariant.Steps.{
  IsValid, settle_sell-IsValid, drop_buy-IsValid, shrink_buy-IsValid,
}
use pe_exchange.Orderbook.Invariant.Open.{
  open_quantity, open_quantity-erase_at, open_quantity-set, Incoming,
}

-- The book that a new sell order is matched with.
abbrev pub buys_of : Exchange → ℕ → Orderbook
buys_of s prod = get_or s.buy_orders prod []

-- A round has taken a quantity out of the product's buy book; the sell books are as they were.
pub record SellRound (n : ℕ) (s s' : Exchange) (prod taken : ℕ) : Type 0 where
  pub valid : IsValid n s'
  pub conserves : Conserves n s s'
  pub own : s'.sell_orders ≡ s.sell_orders
  pub open_left : open_quantity (buys_of s' prod) + taken ≡ open_quantity (buys_of s prod)

module _ (n : ℕ) (s : Exchange) (v : IsValid n s) (o : Order)
    (w : Incoming n (length s.trader_list) o) (k : ℕ) (buy : Order)
    (there : get_elem? (buys_of s o.product_id) k ≡ some buy) where
  in_books : get_elem? s.buy_orders o.product_id ≡ some (buys_of s o.product_id)
  in_books = get_elem?-get_or s.buy_orders o.product_id [] (omega (arith, v.num_buys, w.product))

  pub resting_buy : Belongs o.product_id true (length s.trader_list) buy × IsOrder buy
  resting_buy =
      let ok =
        v.products o.product_id (buys_of s o.product_id) (get_or s.sell_orders o.product_id [])
          (get_or s.printed_orders o.product_id
            (record { product = []; head_buy = []; head_sell = []; buy_len = 0; sell_len = 0 }))
          in_books
          (get_elem?-get_or s.sell_orders o.product_id [] (omega (arith, v.num_sells, w.product)))
          (get_elem?-get_or s.printed_orders o.product_id _
            (omega (arith, v.num_printed, w.product))) in
      (
        All-get_elem? (Belongs o.product_id true (length s.trader_list)) (buys_of s o.product_id) k
            ok.buys.belong there,
        All-get_elem? IsOrder (buys_of s o.product_id) k ok.buys.orders there,
      )

  paid : (quantity : ℕ) → Conserves n s (settle_sell s o buy quantity)
  paid quantity =
      settle_sell-Conserves n s o buy quantity v.accounts
        (record { product = w.product; trader = w.trader })
        (record {
          product = omega (arith, resting_buy.0.product, w.product);
          trader = resting_buy.0.trader;
        })

  -- The resting order is used up.
  pub drop_buy-SellRound :
      SellRound n s
        (drop_buy (settle_sell s o buy buy.quantity) o.product_id k buy)
        o.product_id
        buy.quantity
  unfolding drop_buy settle_sell delete_order
  drop_buy-SellRound = record {
    valid =
        drop_buy-IsValid n (settle_sell s o buy buy.quantity)
          (settle_sell-IsValid n s o buy buy.quantity v c) k buy o.product_id resting_buy.0.product
          there;
    conserves = record {
      money = c.money;
      goods = c.goods;
      traders = c.traders;
      accounts = c.accounts;
    };
    own = refl;
    open_left =
        rw (get_or-modify_self s.buy_orders o.product_id (delete_order k) [] inside)
          (open_quantity-erase_at (buys_of s o.product_id) k there);
  }
    where
      c : Conserves n s (settle_sell s o buy buy.quantity)
      c = paid buy.quantity

      inside : o.product_id < length s.buy_orders
      inside = omega (arith, v.num_buys, w.product)

  -- It uses up a place of the book.
  pub drop_buy_shorter :
      suc (
        length
          (buys_of (drop_buy (settle_sell s o buy buy.quantity) o.product_id k buy) o.product_id))
      ≡ length (buys_of s o.product_id)
  unfolding drop_buy settle_sell delete_order
  drop_buy_shorter =
      rw
        (get_or-modify_self s.buy_orders o.product_id (delete_order k) []
          (omega (arith, v.num_buys, w.product)))
        (length-erase_at (buys_of s o.product_id) k
          (get_elem?-lt-length (buys_of s o.product_id) k there))

  -- The new order is used up, and the resting one keeps the rest.
  pub shrink_buy-SellRound :
      o.quantity < buy.quantity
      → SellRound n s
          (shrink_buy (settle_sell s o buy o.quantity) o.product_id k buy o.quantity)
          o.product_id
          o.quantity
  unfolding shrink_buy settle_sell
  shrink_buy-SellRound h = record {
    valid =
        shrink_buy-IsValid n (settle_sell s o buy o.quantity)
          (settle_sell-IsValid n s o buy o.quantity v c) k buy o.product_id resting_buy.0.product
          o.quantity there h;
    conserves = record {
      money = c.money;
      goods = c.goods;
      traders = c.traders;
      accounts = c.accounts;
    };
    own = refl;
    open_left =
        rw
          (get_or-modify_self s.buy_orders o.product_id (λ os. set os k (reduced buy o.quantity)) []
            (omega (arith, v.num_buys, w.product)))
          (omega
            (arith, open_quantity-set (buys_of s o.product_id) k (reduced buy o.quantity) there));
  }
    where
      c : Conserves n s (settle_sell s o buy o.quantity)
      c = paid o.quantity
