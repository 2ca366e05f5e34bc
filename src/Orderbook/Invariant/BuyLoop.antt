-- ===== src/Orderbook/Invariant/BuyLoop.antt =====
-- The loop of `check_for_match` for a new buy order.
use pe_exchange.Common.{
  ℕ, zero, suc, ◌+◌, ◌≤◌, ◌<◌, ◌≡◌, refl, sym, subst, ◌∙◌, ◌⊎◌, inl, inr, Bool, true, false, some,
  none, Option, arith, length, if◌then◌else◌, ltb, ◌==◌, Option-cases, lt→ltb, All-of_get_elem?,
}
use pe_exchange.Types.{Order, Exchange}
use pe_exchange.Orderbook.Orders.{find_best_sell}
use pe_exchange.Orderbook.Orders.BestSell.{ChosenSell, best_sell_in-ChosenSell}
use pe_exchange.Orderbook.Matching.{settle_buy, drop_sell, shrink_sell, match_new_buy, match_buys}
use pe_exchange.Orderbook.Matching.Conserve.{Conserves, Conserves-refl, Conserves-trans}
use pe_exchange.Orderbook.Invariant.Product.{reduced, Over}
use pe_exchange.Orderbook.Invariant.Steps.{IsValid}
use pe_exchange.Orderbook.Invariant.Open.{open_quantity, Incoming}
use pe_exchange.Orderbook.Invariant.BuyRound.{
  sells_of, BuyRound, drop_sell-BuyRound, drop_sell_shorter, shrink_sell-BuyRound,
}

-- What is left of the new order after matching: nothing if the loop says that it is gone.
abbrev pub left_of : Exchange × Order × Bool → ℕ
left_of r = if r.2 then r.1.quantity else 0

-- The loop's result for a new buy order `o`. `rest`: if some of it is left, every sell order left is
-- above its price. `filled`: what it has got is what the sell book has lost.
pub record BuyMatched (n : ℕ) (s : Exchange) (o : Order) (r : Exchange × Order × Bool)
    : Type 0 where
  pub valid : IsValid n r.0
  pub conserves : Conserves n s r.0
  pub own : r.0.buy_orders ≡ s.buy_orders
  pub same : r.1 ≡ record o { quantity = r.1.quantity }
  pub less : r.1.quantity ≤ o.quantity
  pub rest : r.2 ≡ true → (1 ≤ r.1.quantity) × Over o.price (sells_of r.0 o.product_id)
  pub filled :
      open_quantity (sells_of r.0 o.product_id) + o.quantity
      ≡ open_quantity (sells_of s o.product_id) + left_of r

module _ (s : Exchange) (o : Order) (k : ℕ) (sell : Order) where
  pub match_new_buy_equal :
      o.quantity ≡ sell.quantity
      → match_new_buy s o k sell
        ≡ (drop_sell (settle_buy s o sell sell.quantity) o.product_id k sell, o, false)
  unfolding match_new_buy
  match_new_buy_equal h = let e : (o.quantity == sell.quantity) ≡ true = ground arith in simp e

  pub match_new_buy_more :
      sell.quantity < o.quantity
      → match_new_buy s o k sell ≡ (
        drop_sell (settle_buy s o sell sell.quantity) o.product_id k sell,
        reduced o sell.quantity,
        true,
      )
  unfolding match_new_buy
  match_new_buy_more h =
      let e : (o.quantity == sell.quantity) ≡ false = ground arith in
      simp (e, lt→ltb sell.quantity o.quantity h)

  pub match_new_buy_less :
      o.quantity < sell.quantity
      → match_new_buy s o k sell
        ≡ (shrink_sell (settle_buy s o sell o.quantity) o.product_id k sell o.quantity, o, false)
  unfolding match_new_buy
  match_new_buy_less h =
      let e : (o.quantity == sell.quantity) ≡ false = ground arith in
      let e' : ltb sell.quantity o.quantity ≡ false = ground arith in simp (e, e')

-- How the loop goes on after a round.
abbrev pub after_buy : ℕ → Exchange × Order × Bool → Option (Exchange × Order × Bool)
after_buy fuel (s, o, true) = match_buys fuel s o
after_buy fuel (s, o, false) = some (s, o, false)

module _ (fuel : ℕ) (s : Exchange) (o : Order) (q : 1 ≤ o.quantity) where
  pub match_buys-none :
      find_best_sell o s.sell_orders ≡ none → match_buys (suc fuel) s o ≡ some (s, o, true)
  unfolding match_buys
  match_buys-none e = simp (lt→ltb 0 o.quantity q, e)

  pub match_buys-some :
      (k : ℕ) (sell : Order)
      → find_best_sell o s.sell_orders ≡ some (k, sell)
      → (r : Exchange × Order × Bool) → match_new_buy s o k sell ≡ r
      → match_buys (suc fuel) s o ≡ after_buy fuel r
  unfolding match_buys
  match_buys-some k sell e (s', o', true) h = simp (lt→ltb 0 o.quantity q, e, h)
  match_buys-some k sell e (s', o', false) h = simp (lt→ltb 0 o.quantity q, e, h)

abbrev Ends : ℕ → ℕ → Exchange → Order → Type 0
Ends n fuel s o =
    (r : Exchange × Order × Bool) × (match_buys fuel s o ≡ some r) × BuyMatched n s o r

-- A round that uses up the new order is the last.
last_round :
    (n : ℕ) (s s' : Exchange) (o : Order)
    → BuyRound n s s' o.product_id o.quantity
    → BuyMatched n s o (s', o, false)
last_round n s s' o b = record {
  valid = b.valid;
  conserves = b.conserves;
  own = b.own;
  same = refl;
  less = omega arith;
  rest = λ e. cc;
  filled = omega (arith, b.open_left);
}

-- A round that leaves some of it, and the rounds after.
next_round :
    (n taken : ℕ) (s s' : Exchange) (o : Order) (r : Exchange × Order × Bool)
    → BuyRound n s s' o.product_id taken
    → taken ≤ o.quantity
    → BuyMatched n s' (reduced o taken) r
    → BuyMatched n s o r
next_round n taken s s' o r b h m = record {
  valid = m.valid;
  conserves = Conserves-trans n s s' r.0 b.conserves m.conserves;
  own = m.own ∙ b.own;
  same = m.same;
  less = omega (arith, m.less);
  rest = m.rest;
  filled = omega (arith, m.filled, b.open_left);
}

pub Incoming-reduced :
    (n m m' taken : ℕ) (o : Order)
    → Incoming n m o
    → m' ≡ m
    → taken < o.quantity
    → Incoming n m' (reduced o taken)
Incoming-reduced n m m' taken o w e h = record {
  product = w.product;
  trader = omega (arith, w.trader);
  ranges = omega (arith, w.ranges.quantity_max, w.ranges.price_pos, w.ranges.price_max);
}

chosen_equal :
    (s : Exchange) (o : Order) (r : Option (ℕ × Order))
    → find_best_sell o s.sell_orders ≡ r
    → ChosenSell (sells_of s o.product_id) o.price r
unfolding find_best_sell
chosen_equal s o r e =
    subst (ChosenSell (sells_of s o.product_id) o.price) e
      (best_sell_in-ChosenSell (sells_of s o.product_id) o.price)

pub order_cases : (a b : ℕ) → (a ≡ b) ⊎ ((b < a) ⊎ (a < b))
order_cases a b = grind arith

-- With more fuel than there are sell orders the loop ends, with the result that `BuyMatched` says.
pub match_buys-Ends :
    (n fuel : ℕ) (s : Exchange) (o : Order)
    → IsValid n s
    → Incoming n (length s.trader_list) o
    → length (sells_of s o.product_id) < fuel
    → Ends n fuel s o
match_buys-Ends n zero s o v w f = absurd (omega arith)
match_buys-Ends n (suc fuel) s o v w f = elim (Option-cases (find_best_sell o s.sell_orders)) [
  | inl e ↦ (
    (s, o, true),
    match_buys-none fuel s o w.ranges.quantity_pos e,
    record {
      valid = v;
      conserves = Conserves-refl n s v.accounts;
      own = refl;
      same = refl;
      less = omega arith;
      rest = λ _. (
        w.ranges.quantity_pos,
        All-of_get_elem? (λ x. o.price < x.price) (sells_of s o.product_id)
            (chosen_equal s o none e),
      );
      filled = refl;
    },
  )
  | inr ((k, sell), e) ↦
      let there = (chosen_equal s o (some (k, sell)) e).0.there in
      let dropped = drop_sell-BuyRound n s v o w k sell there in
      let s1 = drop_sell (settle_buy s o sell sell.quantity) o.product_id k sell in
      elim (order_cases o.quantity sell.quantity) [
        | inl equal ↦ (
          (s1, o, false),
          match_buys-some fuel s o w.ranges.quantity_pos k sell e (s1, o, false)
              (match_new_buy_equal s o k sell equal),
          last_round n s s1 o (subst (BuyRound n s s1 o.product_id) (sym equal) dropped),
        )
        | inr (inl more) ↦
            let later =
              match_buys-Ends n fuel s1 (reduced o sell.quantity) dropped.valid
                (Incoming-reduced n (length s.trader_list) (length s1.trader_list) sell.quantity o w
                  dropped.conserves.traders more)
                (omega (arith, drop_sell_shorter n s v o w k sell there)) in
            (
              later.0,
              match_buys-some fuel s o w.ranges.quantity_pos k sell e
                    (s1, reduced o sell.quantity, true) (match_new_buy_more s o k sell more)
                  ∙ later.1,
              next_round n sell.quantity s s1 o later.0 dropped (omega arith) later.2,
            )
        | inr (inr less) ↦
            let s2 = shrink_sell (settle_buy s o sell o.quantity) o.product_id k sell o.quantity in
            (
              (s2, o, false),
              match_buys-some fuel s o w.ranges.quantity_pos k sell e (s2, o, false)
                  (match_new_buy_less s o k sell less),
              last_round n s s2 o (shrink_sell-BuyRound n s v o w k sell there less),
            )
      ]
]
