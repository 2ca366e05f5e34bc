-- ===== src/Orderbook/Matching/Conserve.antt =====
-- Settling a match moves money and goods between accounts, and loses or makes up none.
use pe_exchange.Common.{
  ℕ, ◌+◌, ◌%◌, ◌<◌, ◌≡◌, refl, ◌∙◌, ap, List, arith, length, int_mod, long_mod, add_long, ◌*◌,
  long_of_int, int_of_long,
}
use pe_exchange.Types.{Order, Trader, Exchange}
use pe_exchange.Orderbook.Matching.{
  adjust, gain_quantity, lose_quantity, gain_balance, lose_balance, update_inventory, settle_buy,
  settle_sell, round_percent,
}
use pe_exchange.Orderbook.Matching.Accounts.{
  Covers, total_balance, total_quantity, length-adjust, Covers-adjust, total_balance_keep,
  total_balance_gain, total_balance_lose,
}
use pe_exchange.Orderbook.Matching.Positions.{
  total_quantity_keep, total_quantity_gain, total_quantity_lose,
}

-- The traders' balances and the exchange's fees add up to the same (as 64-bit numbers), the traders'
-- positions in each product too (as 32-bit numbers), and there are the same traders and accounts.
pub record Conserves (n : ℕ) (s s' : Exchange) : Type 0 where
  pub money :
      (total_balance s'.trader_list + s'.exchange_fees) % long_mod
      ≡ (total_balance s.trader_list + s.exchange_fees) % long_mod
  pub goods :
      (q : ℕ) → total_quantity q s'.trader_list % int_mod ≡ total_quantity q s.trader_list % int_mod
  pub traders : length s'.trader_list ≡ length s.trader_list
  pub accounts : Covers n s'.trader_list

pub Conserves-refl : (n : ℕ) (s : Exchange) → Covers n s.trader_list → Conserves n s s
Conserves-refl n s c = record { money = refl; goods = λ q. refl; traders = refl; accounts = c }

pub Conserves-trans :
    (n : ℕ) (s t u : Exchange) → Conserves n s t → Conserves n t u → Conserves n s u
Conserves-trans n s t u c d = record {
  money = d.money ∙ c.money;
  goods = λ q. d.goods q ∙ c.goods q;
  traders = d.traders ∙ c.traders;
  accounts = d.accounts;
}

module _ (n p : ℕ) (inside : p < n) (ts : List Trader) (c : Covers n ts) where
  -- With an account for each of `n` products for every trader, `update_inventory` for a product and
  -- two traders in range, who may be the same, keeps the sum of all balances modulo 2^64.
  pub total_balance-update_inventory :
      (buyer seller total quantity : ℕ)
      → buyer < length ts
      → seller < length ts
      → total_balance (update_inventory ts buyer seller total quantity p) % long_mod
        ≡ total_balance ts % long_mod
  unfolding update_inventory
  total_balance-update_inventory buyer seller total quantity hb hs =
      let t1 = adjust ts buyer p (gain_quantity quantity) in
      let c1 = Covers-adjust n ts buyer p (gain_quantity quantity) c in
      let t2 = adjust t1 buyer p (lose_balance total) in
      let c2 = Covers-adjust n t1 buyer p (lose_balance total) c1 in
      let t3 = adjust t2 seller p (lose_quantity quantity) in
      let c3 = Covers-adjust n t2 seller p (lose_quantity quantity) c2 in
      let l1 = length-adjust ts buyer p (gain_quantity quantity) in
      let l2 = length-adjust t1 buyer p (lose_balance total) in
      let l3 = length-adjust t2 seller p (lose_quantity quantity) in
      omega (
        arith,
        total_balance_keep (gain_quantity quantity) (λ b. refl) ts buyer p,
        total_balance_lose n p inside 0 t1 buyer total c1 (omega arith),
        total_balance_keep (lose_quantity quantity) (λ b. refl) t2 seller p,
        total_balance_gain n p inside 0 t3 seller total c3 (omega arith),
      )

  -- With an account for each of `n` products for every trader, `update_inventory` for a product and
  -- two traders in range, who may be the same, keeps the sum of the positions in every product
  -- modulo 2^32.
  pub total_quantity-update_inventory :
      (q buyer seller total quantity : ℕ)
      → buyer < length ts
      → seller < length ts
      → total_quantity q (update_inventory ts buyer seller total quantity p) % int_mod
        ≡ total_quantity q ts % int_mod
  unfolding update_inventory
  total_quantity-update_inventory q buyer seller total quantity hb hs =
      let t1 = adjust ts buyer p (gain_quantity quantity) in
      let c1 = Covers-adjust n ts buyer p (gain_quantity quantity) c in
      let t2 = adjust t1 buyer p (lose_balance total) in
      let c2 = Covers-adjust n t1 buyer p (lose_balance total) c1 in
      let t3 = adjust t2 seller p (lose_quantity quantity) in
      let l1 = length-adjust ts buyer p (gain_quantity quantity) in
      let l2 = length-adjust t1 buyer p (lose_balance total) in
      omega (
        arith,
        total_quantity_gain n p inside 0 ts q buyer quantity c hb,
        total_quantity_keep (lose_balance total) (λ b. refl) t1 q buyer p,
        total_quantity_lose n p inside 0 t2 q seller quantity c2 (omega arith),
        total_quantity_keep (gain_balance total) (λ b. refl) t3 q seller p,
      )

  pub Covers-update_inventory :
      (buyer seller total quantity : ℕ)
      → Covers n (update_inventory ts buyer seller total quantity p)
  unfolding update_inventory
  Covers-update_inventory buyer seller total quantity =
      Covers-adjust n _ seller p _ (
        Covers-adjust n _ seller p _ (Covers-adjust n _ buyer p _ (Covers-adjust n ts buyer p _ c)))

  pub length-update_inventory :
      (buyer seller total quantity : ℕ)
      → length (update_inventory ts buyer seller total quantity p) ≡ length ts
  unfolding update_inventory
  length-update_inventory buyer seller total quantity =
      length-adjust _ seller p _
      ∙ length-adjust _ seller p _
      ∙ length-adjust _ buyer p _
      ∙ length-adjust ts buyer p _

-- The common part of the two settlements: the fee goes from one trader to the exchange.
abbrev settled : Exchange → ℕ → ℕ → ℕ → ℕ → ℕ → ℕ → ℕ → List Trader
settled s payer p fee buyer seller total quantity =
    update_inventory (adjust s.trader_list payer p (lose_balance fee)) buyer seller total quantity p

module _ (n p : ℕ) (inside : p < n) (s s' : Exchange) (c : Covers n s.trader_list) where
  pub settled-Conserves :
      (payer fee buyer seller total quantity : ℕ)
      → payer < length s.trader_list
      → buyer < length s.trader_list
      → seller < length s.trader_list
      → s'.trader_list ≡ settled s payer p fee buyer seller total quantity
      → s'.exchange_fees ≡ add_long s.exchange_fees fee
      → Conserves n s s'
  settled-Conserves payer fee buyer seller total quantity hp hb hs e f = record {
    money =
        rw (e, f)
          (omega (
            arith,
            total_balance-update_inventory n p inside ts1 c1 buyer seller total quantity hb1 hs1,
            total_balance_lose n p inside 0 s.trader_list payer fee c hp,
          ));
    goods = λ q. rw e (
        total_quantity-update_inventory n p inside ts1 c1 q buyer seller total quantity hb1 hs1
        ∙ ap (λ k. k % int_mod)
            (total_quantity_keep (lose_balance fee) (λ b. refl) s.trader_list q payer p));
    traders = rw e (length-update_inventory n p inside ts1 c1 buyer seller total quantity ∙ l1);
    accounts = rw e (Covers-update_inventory n p inside ts1 c1 buyer seller total quantity);
  }
    where
      ts1 : List Trader
      ts1 = adjust s.trader_list payer p (lose_balance fee)

      c1 : Covers n ts1
      c1 = Covers-adjust n s.trader_list payer p (lose_balance fee) c

      l1 : length ts1 ≡ length s.trader_list
      l1 = length-adjust s.trader_list payer p (lose_balance fee)

      hb1 : buyer < length ts1
      hb1 = omega (arith, l1)

      hs1 : seller < length ts1
      hs1 = omega (arith, l1)

-- What the settlement needs of an order.
pub record IsPlaced (n m : ℕ) (o : Order) : Type 0 where
  pub product : o.product_id < n
  pub trader : o.trader_id < m

-- With an account for each of `n` products for every trader, and two orders of known products and
-- traders, the settlement of a match in `match_new_buy` keeps the sum of all balances and of the
-- fees modulo 2^64, the sum of all positions in each product modulo 2^32, and the traders and
-- accounts.
pub settle_buy-Conserves :
    (n : ℕ) (s : Exchange) (buy sell : Order) (quantity : ℕ)
    → Covers n s.trader_list
    → IsPlaced n (length s.trader_list) buy
    → IsPlaced n (length s.trader_list) sell
    → Conserves n s (settle_buy s buy sell quantity)
unfolding settle_buy
settle_buy-Conserves n s buy sell quantity c hb hs =
    let total = sell.price * quantity % long_mod in
    settled-Conserves n buy.product_id hb.product s (settle_buy s buy sell quantity) c buy.trader_id
      (round_percent total) buy.trader_id sell.trader_id total quantity hb.trader hb.trader
      hs.trader refl refl

-- With an account for each of `n` products for every trader, and two orders of known products and
-- traders, the settlement of a match in `match_new_sell` keeps the sum of all balances and of the
-- fees modulo 2^64, the sum of all positions in each product modulo 2^32, and the traders and
-- accounts, also where the total price is cut to an int.
pub settle_sell-Conserves :
    (n : ℕ) (s : Exchange) (sell buy : Order) (quantity : ℕ)
    → Covers n s.trader_list
    → IsPlaced n (length s.trader_list) sell
    → IsPlaced n (length s.trader_list) buy
    → Conserves n s (settle_sell s sell buy quantity)
unfolding settle_sell
settle_sell-Conserves n s sell buy quantity c hs hb =
    let total = long_of_int (int_of_long (buy.price * quantity % long_mod)) in
    settled-Conserves n sell.product_id hs.product s (settle_sell s sell buy quantity) c
      sell.trader_id (long_of_int (int_of_long (round_percent total))) buy.trader_id sell.trader_id
      total quantity hs.trader hb.trader hs.trader refl refl
