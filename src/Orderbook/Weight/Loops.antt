-- ===== src/Orderbook/Weight/Loops.antt =====
-- The loops of `check_for_match`: nothing is added to the books.
use pe_exchange.Common.{
  ℕ, zero, suc, ◌-◌, ◌≤◌, ◌≡◌, refl, ◌∙◌, subst, inl, inr, Bool, true, false, [], Option, none,
  some, arith, ltb, ltb→lt, Bool-cases, Option-cases, get_elem?, get_or, length,
}
use pe_exchange.Types.{Order, Exchange}
use pe_exchange.Orderbook.Orders.{find_best_sell, find_best_buy}
use pe_exchange.Orderbook.Orders.BestSell.{ChosenSell, best_sell_in-ChosenSell}
use pe_exchange.Orderbook.Orders.BestBuy.{ChosenBuy, best_buy_in-ChosenBuy}
use pe_exchange.Orderbook.Matching.{
  match_new_buy, match_new_sell, match_buys, match_sells, check_for_match,
}
use pe_exchange.Orderbook.Invariant.BuyLoop.{
  match_new_buy_equal, match_new_buy_more, match_new_buy_less, after_buy, match_buys-some,
  match_buys-none, order_cases,
}
use pe_exchange.Orderbook.Invariant.SellLoop.{
  match_new_sell_equal, match_new_sell_more, match_new_sell_less, after_sell, match_sells-some,
  match_sells-none,
}
use pe_exchange.Orderbook.Weight.{Weight, IsLight}
use pe_exchange.Orderbook.Weight.Matching.{
  Lighter, Lighter-refl, Lighter-trans, settled_drop_sell, settled_drop_buy, settled_shrink_sell,
  settled_shrink_buy,
}

-- What a new order's way through the loop does to the weights: nothing is added, the order gets no
-- heavier.
pub record Weighs (w : Weight) (s : Exchange) (o : Order) (r : Exchange × Order × Bool)
    : Type 0 where
  pub lighter : Lighter w s r.0 0
  pub order : w r.1 ≤ w o
  pub price : r.1.price ≡ o.price

abbrev pub WeighsIf : Weight → Exchange → Order → Option (Exchange × Order × Bool) → Type 0
WeighsIf w s o none = Unit {0}
WeighsIf w s o (some r) = Weighs w s o r

module _ (w : Weight) (light : IsLight w) where
  unmatched : (s : Exchange) (o : Order) → Weighs w s o (s, o, true)
  unmatched s o = record { lighter = Lighter-refl w s; order = omega arith; price = refl }

  match_new_buy-Weighs :
      (s : Exchange) (o : Order) (k : ℕ) (sell : Order)
      → get_elem? (get_or s.sell_orders o.product_id []) k ≡ some sell
      → Weighs w s o (match_new_buy s o k sell)
  match_new_buy-Weighs s o k sell e = elim (order_cases o.quantity sell.quantity) [
    | inl equal ↦
        rw (match_new_buy_equal s o k sell equal)
          (record { lighter = settled_drop_sell w s o sell k e; order = omega arith; price = refl })
    | inr (inl more) ↦ rw (match_new_buy_more s o k sell more) (record {
      lighter = settled_drop_sell w s o sell k e;
      order = light o (o.quantity - sell.quantity) (omega arith);
      price = refl;
    })
    | inr (inr less) ↦ rw (match_new_buy_less s o k sell less) (record {
      lighter = settled_shrink_sell w light s o sell k e;
      order = omega arith;
      price = refl;
    })
  ]

  match_new_sell-Weighs :
      (s : Exchange) (o : Order) (k : ℕ) (buy : Order)
      → get_elem? (get_or s.buy_orders o.product_id []) k ≡ some buy
      → Weighs w s o (match_new_sell s o k buy)
  match_new_sell-Weighs s o k buy e = elim (order_cases o.quantity buy.quantity) [
    | inl equal ↦
        rw (match_new_sell_equal s o k buy equal)
          (record { lighter = settled_drop_buy w s o buy k e; order = omega arith; price = refl })
    | inr (inl more) ↦ rw (match_new_sell_more s o k buy more) (record {
      lighter = settled_drop_buy w s o buy k e;
      order = light o (o.quantity - buy.quantity) (omega arith);
      price = refl;
    })
    | inr (inr less) ↦ rw (match_new_sell_less s o k buy less) (record {
      lighter = settled_shrink_buy w light s o buy k e;
      order = omega arith;
      price = refl;
    })
  ]

  Weighs-trans :
      (s t : Exchange) (o o' : Order) (r : Exchange × Order × Bool)
      → Lighter w s t 0
      → w o' ≤ w o
      → o'.price ≡ o.price
      → Weighs w t o' r
      → Weighs w s o r
  Weighs-trans s t o o' r l h p m = record {
    lighter = Lighter-trans w s t r.0 0 0 l m.lighter;
    order = omega (arith, m.order);
    price = m.price ∙ p;
  }

  sell_there :
      (s : Exchange) (o : Order) {k : ℕ} {sell : Order}
      → find_best_sell o s.sell_orders ≡ some (k, sell)
      → get_elem? (get_or s.sell_orders o.product_id []) k ≡ some sell
  unfolding find_best_sell
  sell_there s o {k = k} {sell = sell} e =
      (subst (ChosenSell (get_or s.sell_orders o.product_id []) o.price) e
        (best_sell_in-ChosenSell (get_or s.sell_orders o.product_id []) o.price)).0.there

  buy_there :
      (s : Exchange) (o : Order) {k : ℕ} {buy : Order}
      → 1 ≤ o.price
      → find_best_buy o s.buy_orders ≡ some (k, buy)
      → get_elem? (get_or s.buy_orders o.product_id []) k ≡ some buy
  unfolding find_best_buy
  buy_there s o {k = k} {buy = buy} l e =
      (subst (ChosenBuy (get_or s.buy_orders o.product_id []) o.price) e
        (best_buy_in-ChosenBuy (get_or s.buy_orders o.product_id []) o.price l)).0.there

  onward :
      (s t : Exchange) (o o' : Order) (x : Option (Exchange × Order × Bool))
      → Weighs w s o (t, o', true)
      → WeighsIf w t o' x
      → WeighsIf w s o x
  onward s t o o' none m h = tt
  onward s t o o' (some r) m h = Weighs-trans s t o o' r m.lighter m.order m.price h

  onward_buys :
      (fuel : ℕ) (s : Exchange) (o : Order) (r : Exchange × Order × Bool)
      → Weighs w s o r
      → ((t : Exchange) (o' : Order) → WeighsIf w t o' (match_buys fuel t o'))
      → WeighsIf w s o (after_buy fuel r)
  onward_buys fuel s o (t, o', false) m ih = m
  onward_buys fuel s o (t, o', true) m ih = onward s t o o' (match_buys fuel t o') m (ih t o')

  onward_sells :
      (fuel : ℕ) (s : Exchange) (o : Order) (r : Exchange × Order × Bool)
      → 1 ≤ o.price
      → Weighs w s o r
      → ((t : Exchange) (o' : Order) → 1 ≤ o'.price → WeighsIf w t o' (match_sells fuel t o'))
      → WeighsIf w s o (after_sell fuel r)
  onward_sells fuel s o (t, o', false) l m ih = m
  onward_sells fuel s o (t, o', true) l m ih =
      onward s t o o' (match_sells fuel t o') m (ih t o' (omega (arith, m.price)))

  match_buys-Weighs : (fuel : ℕ) (s : Exchange) (o : Order) → WeighsIf w s o (match_buys fuel s o)
  unfolding match_buys
  match_buys-Weighs zero s o = tt
  match_buys-Weighs (suc fuel) s o = elim (Bool-cases (ltb 0 o.quantity)) [
    | inr empty ↦ simp empty (unmatched s o)
    | inl open_left ↦ elim (Option-cases (find_best_sell o s.sell_orders)) [
      | inl e ↦ rw (match_buys-none fuel s o (ltb→lt 0 o.quantity open_left) e) (unmatched s o)
      | inr ((k, sell), e) ↦
          rw
            (match_buys-some fuel s o (ltb→lt 0 o.quantity open_left) k sell e
              (match_new_buy s o k sell) refl)
            (onward_buys fuel s o (match_new_buy s o k sell)
              (match_new_buy-Weighs s o k sell (sell_there s o e)) (match_buys-Weighs fuel))
    ]
  ]

  match_sells-Weighs :
      (fuel : ℕ) (s : Exchange) (o : Order) → 1 ≤ o.price → WeighsIf w s o (match_sells fuel s o)
  unfolding match_sells
  match_sells-Weighs zero s o l = tt
  match_sells-Weighs (suc fuel) s o l = elim (Bool-cases (ltb 0 o.quantity)) [
    | inr empty ↦ simp empty (unmatched s o)
    | inl open_left ↦ elim (Option-cases (find_best_buy o s.buy_orders)) [
      | inl e ↦ rw (match_sells-none fuel s o (ltb→lt 0 o.quantity open_left) e) (unmatched s o)
      | inr ((k, buy), e) ↦
          rw
            (match_sells-some fuel s o (ltb→lt 0 o.quantity open_left) k buy e
              (match_new_sell s o k buy) refl)
            (onward_sells fuel s o (match_new_sell s o k buy) l
              (match_new_sell-Weighs s o k buy (buy_there s o l e)) (match_sells-Weighs fuel))
    ]
  ]

  pub check_for_match-Weighs :
      (s : Exchange) (o : Order) → 1 ≤ o.price → WeighsIf w s o (check_for_match s o)
  unfolding check_for_match
  check_for_match-Weighs s o l = elim (Bool-cases o.is_buy) [
    | inl buy ↦
        simp buy (match_buys-Weighs (suc (length (get_or s.sell_orders o.product_id []))) s o)
    | inr sell ↦
        simp sell (match_sells-Weighs (suc (length (get_or s.buy_orders o.product_id []))) s o l)
  ]
