-- ===== src/Orderbook/Invariant/SellLoop.antt =====
-- The loop of `check_for_match` for a new sell order.
use pe_exchange.Common.{
  ℕ, zero, suc, ◌+◌, ◌≤◌, ◌<◌, ◌≡◌, refl, ap, sym, subst, ◌∙◌, inl, inr, Bool, true, false, some,
  none, Option, arith, length, ltb, ◌==◌, Option-cases, lt→ltb, All-of_get_elem?,
}
use pe_exchange.Types.{Order, Exchange}
use pe_exchange.Orderbook.Orders.{find_best_buy}
use pe_exchange.Orderbook.Orders.BestBuy.{ChosenBuy, best_buy_in-ChosenBuy}
use pe_exchange.Orderbook.Matching.{settle_sell, drop_buy, shrink_buy, match_new_sell, match_sells}
use pe_exchange.Orderbook.Matching.Conserve.{Conserves, Conserves-refl, Conserves-trans}
use pe_exchange.Orderbook.Invariant.Product.{reduced, Under}
use pe_exchange.Orderbook.Invariant.Steps.{IsValid}
use pe_exchange.Orderbook.Invariant.BuyLoop.{left_of, Incoming-reduced, order_cases}
use pe_exchange.Orderbook.Invariant.Open.{open_quantity, Incoming}
use pe_exchange.Orderbook.Invariant.SellRound.{
  buys_of, SellRound, drop_buy-SellRound, drop_buy_shorter, shrink_buy-SellRound,
}

-- The loop's result for a new sell order `o`. `rest`: if some of it is left, every buy order left is
-- below its price. `filled`: what it has got is what the buy book has lost.
pub record SellMatched (n : ℕ) (s : Exchange) (o : Order) (r : Exchange × Order × Bool)
    : Type 0 where
  pub valid : IsValid n r.0
  pub conserves : Conserves n s r.0
  pub own : r.0.sell_orders ≡ s.sell_orders
  pub same : r.1 ≡ record o { quantity = r.1.quantity }
  pub less : r.1.quantity ≤ o.quantity
  pub rest : r.2 ≡ true → (1 ≤ r.1.quantity) × Under (buys_of r.0 o.product_id) o.price
  pub filled :
      open_quantity (buys_of r.0 o.product_id) + o.quantity
      ≡ open_quantity (buys_of s o.product_id) + left_of r

module _ (s : Exchange) (o : Order) (k : ℕ) (buy : Order) where
  pub match_new_sell_equal :
      o.quantity ≡ buy.quantity
      → match_new_sell s o k buy
        ≡ (drop_buy (settle_sell s o buy buy.quantity) o.product_id k buy, o, false)
  unfolding match_new_sell
  match_new_sell_equal h =
      let e : (buy.quantity == o.quantity) ≡ true = ground arith in
      simp e (ap (λ (q : ℕ). (drop_buy (settle_sell s o buy q) o.product_id k buy, o, false)) h)

  pub match_new_sell_more :
      buy.quantity < o.quantity
      → match_new_sell s o k buy ≡ (
        drop_buy (settle_sell s o buy buy.quantity) o.product_id k buy,
        reduced o buy.quantity,
        true,
      )
  unfolding match_new_sell
  match_new_sell_more h =
      let e : (buy.quantity == o.quantity) ≡ false = ground arith in
      let e' : ltb o.quantity buy.quantity ≡ false = ground arith in simp (e, e')

  pub match_new_sell_less :
      o.quantity < buy.quantity
      → match_new_sell s o k buy
        ≡ (shrink_buy (settle_sell s o buy o.quantity) o.product_id k buy o.quantity, o, false)
  unfolding match_new_sell
  match_new_sell_less h =
      let e : (buy.quantity == o.quantity) ≡ false = ground arith in
      simp (e, lt→ltb o.quantity buy.quantity h)

-- How the loop goes on after a round.
abbrev pub after_sell : ℕ → Exchange × Order × Bool → Option (Exchange × Order × Bool)
after_sell fuel (s, o, true) = match_sells fuel s o
after_sell fuel (s, o, false) = some (s, o, false)

module _ (fuel : ℕ) (s : Exchange) (o : Order) (q : 1 ≤ o.quantity) where
  pub match_sells-none :
      find_best_buy o s.buy_orders ≡ none → match_sells (suc fuel) s o ≡ some (s, o, true)
  unfolding match_sells
  match_sells-none e = simp (lt→ltb 0 o.quantity q, e)

  pub match_sells-some :
      (k : ℕ) (buy : Order)
      → find_best_buy o s.buy_orders ≡ some (k, buy)
      → (r : Exchange × Order × Bool) → match_new_sell s o k buy ≡ r
      → match_sells (suc fuel) s o ≡ after_sell fuel r
  unfolding match_sells
  match_sells-some k buy e (s', o', true) h = simp (lt→ltb 0 o.quantity q, e, h)
  match_sells-some k buy e (s', o', false) h = simp (lt→ltb 0 o.quantity q, e, h)

abbrev Ends : ℕ → ℕ → Exchange → Order → Type 0
Ends n fuel s o =
    (r : Exchange × Order × Bool) × (match_sells fuel s o ≡ some r) × SellMatched n s o r

-- A round that uses up the new order is the last.
last_round :
    (n : ℕ) (s s' : Exchange) (o : Order)
    → SellRound n s s' o.product_id o.quantity
    → SellMatched n s o (s', o, false)
last_round n s s' o b = record {
  valid = b.valid;
  conserves = b.conserves;
  own = b.own;
  same = refl;
  less = omega arith;
  rest = λ e. cc;
  filled = omega (arith, b.open_left);
}

-- A round that leaves some of it, and the rounds after.
next_round :
    (n taken : ℕ) (s s' : Exchange) (o : Order) (r : Exchange × Order × Bool)
    → SellRound n s s' o.product_id taken
    → taken ≤ o.quantity
    → SellMatched n s' (reduced o taken) r
    → SellMatched n s o r
next_round n taken s s' o r b h m = record {
  valid = m.valid;
  conserves = Conserves-trans n s s' r.0 b.conserves m.conserves;
  own = m.own ∙ b.own;
  same = m.same;
  less = omega (arith, m.less);
  rest = m.rest;
  filled = omega (arith, m.filled, b.open_left);
}

chosen_equal :
    (s : Exchange) (o : Order) (r : Option (ℕ × Order))
    → 1 ≤ o.price
    → find_best_buy o s.buy_orders ≡ r
    → ChosenBuy (buys_of s o.product_id) o.price r
unfolding find_best_buy
chosen_equal s o r l e =
    subst (ChosenBuy (buys_of s o.product_id) o.price) e
      (best_buy_in-ChosenBuy (buys_of s o.product_id) o.price l)

-- With more fuel than there are buy orders the loop ends, with the result that `SellMatched` says.
pub match_sells-Ends :
    (n fuel : ℕ) (s : Exchange) (o : Order)
    → IsValid n s
    → Incoming n (length s.trader_list) o
    → length (buys_of s o.product_id) < fuel
    → Ends n fuel s o
match_sells-Ends n zero s o v w f = absurd (omega arith)
match_sells-Ends n (suc fuel) s o v w f = elim (Option-cases (find_best_buy o s.buy_orders)) [
  | inl e ↦ (
    (s, o, true),
    match_sells-none fuel s o w.ranges.quantity_pos e,
    record {
      valid = v;
      conserves = Conserves-refl n s v.accounts;
      own = refl;
      same = refl;
      less = omega arith;
      rest = λ _. (
        w.ranges.quantity_pos,
        All-of_get_elem? (λ x. x.price < o.price) (buys_of s o.product_id)
            (chosen_equal s o none w.ranges.price_pos e),
      );
      filled = refl;
    },
  )
  | inr ((k, buy), e) ↦
      let there = (chosen_equal s o (some (k, buy)) w.ranges.price_pos e).0.there in
      let dropped = drop_buy-SellRound n s v o w k buy there in
      let s1 = drop_buy (settle_sell s o buy buy.quantity) o.product_id k buy in
      elim (order_cases o.quantity buy.quantity) [
        | inl equal ↦ (
          (s1, o, false),
          match_sells-some fuel s o w.ranges.quantity_pos k buy e (s1, o, false)
              (match_new_sell_equal s o k buy equal),
          last_round n s s1 o (subst (SellRound n s s1 o.product_id) (sym equal) dropped),
        )
        | inr (inl more) ↦
            let later =
              match_sells-Ends n fuel s1 (reduced o buy.quantity) dropped.valid
                (Incoming-reduced n (length s.trader_list) (length s1.trader_list) buy.quantity o w
                  dropped.conserves.traders more)
                (omega (arith, drop_buy_shorter n s v o w k buy there)) in
            (
              later.0,
              match_sells-some fuel s o w.ranges.quantity_pos k buy e
                    (s1, reduced o buy.quantity, true) (match_new_sell_more s o k buy more)
                  ∙ later.1,
              next_round n buy.quantity s s1 o later.0 dropped (omega arith) later.2,
            )
        | inr (inr less) ↦
            let s2 = shrink_buy (settle_sell s o buy o.quantity) o.product_id k buy o.quantity in
            (
              (s2, o, false),
              match_sells-some fuel s o w.ranges.quantity_pos k buy e (s2, o, false)
                  (match_new_sell_less s o k buy less),
              last_round n s s2 o (shrink_buy-SellRound n s v o w k buy there less),
            )
      ]
]
