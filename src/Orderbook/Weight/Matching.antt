-- ===== src/Orderbook/Weight/Matching.antt =====
-- Matching adds nothing to the books, and does not touch what it does not settle of a trader.
use pe_exchange.Common.{
  ℕ, zero, suc, ◌+◌, ◌-◌, ◌≤◌, ◌≡◌, refl, ap, ◌∙◌, Bool, List, [], ◌∷◌, some, arith, get_elem?,
  get_or, set,
}
use pe_exchange.Types.{Order, Trader, TraderBalances, Exchange}
use pe_exchange.Orderbook.Orders.{delete_order}
use pe_exchange.Orderbook.Matching.{
  adjust, update_inventory, settle_buy, settle_sell, drop_sell, drop_buy, shrink_sell, shrink_buy,
}
use pe_exchange.Orderbook.Weight.{
  Weight, IsLight, total_weight, weight-erase_at, weight-set, weights-modify,
}

-- A trader's order counter, and whether it is alive.
abbrev pub badges : List Trader → List (ℕ × Bool)
badges [] = []
badges (t ∷ ts) = (t.order_id, t.alive) ∷ badges ts

badges-adjust :
    (ts : List Trader) (t p : ℕ) (f : TraderBalances → TraderBalances)
    → badges (adjust ts t p f) ≡ badges ts
unfolding adjust
badges-adjust [] t p f = refl
badges-adjust (x ∷ ts) zero p f = refl
badges-adjust (x ∷ ts) (suc t) p f = ap (◌∷◌ (x.order_id, x.alive)) (badges-adjust ts t p f)

badges-update_inventory :
    (ts : List Trader) (buyer seller total quantity p : ℕ)
    → badges (update_inventory ts buyer seller total quantity p) ≡ badges ts
unfolding update_inventory
badges-update_inventory ts buyer seller total quantity p =
    badges-adjust _ seller p _
    ∙ badges-adjust _ seller p _
    ∙ badges-adjust _ buyer p _
    ∙ badges-adjust ts buyer p _

-- Less in the books, and the traders' badges as they were.
pub record Lighter (w : Weight) (s s' : Exchange) (gone : ℕ) : Type 0 where
  pub books : total_weight w s' + gone ≤ total_weight w s
  pub badges : badges s'.trader_list ≡ badges s.trader_list

module _ (w : Weight) where
  settle_buy-Lighter :
      (s : Exchange) (buy sell : Order) (q : ℕ) → Lighter w s (settle_buy s buy sell q) 0
  unfolding settle_buy
  settle_buy-Lighter s buy sell q = record {
    books = omega arith;
    badges = badges-update_inventory _ _ _ _ _ _ ∙ badges-adjust s.trader_list _ _ _;
  }

  settle_sell-Lighter :
      (s : Exchange) (sell buy : Order) (q : ℕ) → Lighter w s (settle_sell s sell buy q) 0
  unfolding settle_sell
  settle_sell-Lighter s sell buy q = record {
    books = omega arith;
    badges = badges-update_inventory _ _ _ _ _ _ ∙ badges-adjust s.trader_list _ _ _;
  }

  pub drop_sell-Lighter :
      (s : Exchange) (p k : ℕ) (o : Order)
      → get_elem? (get_or s.sell_orders p []) k ≡ some o
      → Lighter w s (drop_sell s p k o) (w o)
  unfolding drop_sell delete_order
  drop_sell-Lighter s p k o e = record {
    books = omega (
      arith,
      weights-modify w s.sell_orders p (delete_order k),
      weight-erase_at w (get_or s.sell_orders p []) k e,
    );
    badges = refl;
  }

  pub drop_buy-Lighter :
      (s : Exchange) (p k : ℕ) (o : Order)
      → get_elem? (get_or s.buy_orders p []) k ≡ some o
      → Lighter w s (drop_buy s p k o) (w o)
  unfolding drop_buy delete_order
  drop_buy-Lighter s p k o e = record {
    books = omega (
      arith,
      weights-modify w s.buy_orders p (delete_order k),
      weight-erase_at w (get_or s.buy_orders p []) k e,
    );
    badges = refl;
  }

  pub Lighter-refl : (s : Exchange) → Lighter w s s 0
  Lighter-refl s = record { books = omega arith; badges = refl }

  pub Lighter-trans :
      (s t u : Exchange) (g g' : ℕ) → Lighter w s t g → Lighter w t u g' → Lighter w s u 0
  Lighter-trans s t u g g' a b = record {
    books = omega (arith, a.books, b.books);
    badges = b.badges ∙ a.badges;
  }

  -- The settlement and what follows it, for each way that a match ends.
  pub settled_drop_sell :
      (s : Exchange) (o sell : Order) (k : ℕ)
      → get_elem? (get_or s.sell_orders o.product_id []) k ≡ some sell
      → Lighter w s (drop_sell (settle_buy s o sell sell.quantity) o.product_id k sell) 0
  settled_drop_sell s o sell k e =
      let t = settle_buy s o sell sell.quantity in
      Lighter-trans s t (drop_sell t o.product_id k sell) 0 (w sell)
        (settle_buy-Lighter s o sell sell.quantity)
        (drop_sell-Lighter t o.product_id k sell (unfold settle_buy in e))

  pub settled_drop_buy :
      (s : Exchange) (o buy : Order) (k : ℕ)
      → get_elem? (get_or s.buy_orders o.product_id []) k ≡ some buy
      → Lighter w s (drop_buy (settle_sell s o buy buy.quantity) o.product_id k buy) 0
  settled_drop_buy s o buy k e =
      let t = settle_sell s o buy buy.quantity in
      Lighter-trans s t (drop_buy t o.product_id k buy) 0 (w buy)
        (settle_sell-Lighter s o buy buy.quantity)
        (drop_buy-Lighter t o.product_id k buy (unfold settle_sell in e))

  module _ (light : IsLight w) where
    shrink_sell-Lighter :
        (s : Exchange) (p k filled : ℕ) (o : Order)
        → get_elem? (get_or s.sell_orders p []) k ≡ some o
        → Lighter w s (shrink_sell s p k o filled) 0
    unfolding shrink_sell
    shrink_sell-Lighter s p k filled o e =
        let v = record o { quantity = o.quantity - filled } in
        record {
          books = omega (
            arith,
            weights-modify w s.sell_orders p (λ os. set os k v),
            weight-set w (get_or s.sell_orders p []) k v e,
            light o (o.quantity - filled) (omega arith),
          );
          badges = refl;
        }

    shrink_buy-Lighter :
        (s : Exchange) (p k filled : ℕ) (o : Order)
        → get_elem? (get_or s.buy_orders p []) k ≡ some o
        → Lighter w s (shrink_buy s p k o filled) 0
    unfolding shrink_buy
    shrink_buy-Lighter s p k filled o e =
        let v = record o { quantity = o.quantity - filled } in
        record {
          books = omega (
            arith,
            weights-modify w s.buy_orders p (λ os. set os k v),
            weight-set w (get_or s.buy_orders p []) k v e,
            light o (o.quantity - filled) (omega arith),
          );
          badges = refl;
        }

    pub settled_shrink_sell :
        (s : Exchange) (o sell : Order) (k : ℕ)
        → get_elem? (get_or s.sell_orders o.product_id []) k ≡ some sell
        → Lighter w s
            (shrink_sell (settle_buy s o sell o.quantity) o.product_id k sell o.quantity)
            0
    settled_shrink_sell s o sell k e =
        let t = settle_buy s o sell o.quantity in
        Lighter-trans s t (shrink_sell t o.product_id k sell o.quantity) 0 0
          (settle_buy-Lighter s o sell o.quantity)
          (shrink_sell-Lighter t o.product_id k o.quantity sell (unfold settle_buy in e))

    pub settled_shrink_buy :
        (s : Exchange) (o buy : Order) (k : ℕ)
        → get_elem? (get_or s.buy_orders o.product_id []) k ≡ some buy
        → Lighter w s (shrink_buy (settle_sell s o buy o.quantity) o.product_id k buy o.quantity) 0
    settled_shrink_buy s o buy k e =
        let t = settle_sell s o buy o.quantity in
        Lighter-trans s t (shrink_buy t o.product_id k buy o.quantity) 0 0
          (settle_sell-Lighter s o buy o.quantity)
          (shrink_buy-Lighter t o.product_id k o.quantity buy (unfold settle_sell in e))
