-- ===== src/Orderbook/Matching/Accounts.antt =====
-- The traders' accounts as a whole: what a change to one account does to the totals.
use pe_exchange.Common.{
  set, some, ◌∙◌, ℕ, zero, suc, ◌+◌, ◌%◌, ◌<◌, ◌≡◌, refl, List, [], ◌∷◌, arith, length,
  length-modify, modify, get_elem?, long_mod,
}
use pe_exchange.Types.{TraderBalances, Trader}
use pe_exchange.Orderbook.Matching.{adjust, gain_balance, lose_balance}

-- Every trader, from ID `i` on, has its place for an ID, and an account for each of `n` products.
abbrev pub CoversFrom : ℕ → ℕ → List Trader → Type 0
CoversFrom n i [] = Unit {0}
CoversFrom n i (t ∷ ts) = (length t.trader_prod_info ≡ n) × (t.id ≡ i) × CoversFrom n (suc i) ts

abbrev pub Covers : ℕ → List Trader → Type 0
Covers n ts = CoversFrom n 0 ts

-- The balances of one trader, and of all traders.
abbrev pub sum_balances : List TraderBalances → ℕ
sum_balances [] = 0
sum_balances (b ∷ bs) = b.balance + sum_balances bs

abbrev pub total_balance : List Trader → ℕ
total_balance [] = 0
total_balance (t ∷ ts) = sum_balances t.trader_prod_info + total_balance ts

-- The position in one product, of one trader and of all traders.
abbrev pub quantity_in : ℕ → List TraderBalances → ℕ
quantity_in p [] = 0
quantity_in zero (b ∷ bs) = b.quantity
quantity_in (suc p) (b ∷ bs) = quantity_in p bs

abbrev pub total_quantity : ℕ → List Trader → ℕ
total_quantity p [] = 0
total_quantity p (t ∷ ts) = quantity_in p t.trader_prod_info + total_quantity p ts

pub length-adjust :
    (ts : List Trader) (t p : ℕ) (f : TraderBalances → TraderBalances)
    → length (adjust ts t p f) ≡ length ts
unfolding adjust
length-adjust ts t p f = length-modify ts t _

CoversFrom-adjust :
    (n i : ℕ) (ts : List Trader) (t p : ℕ) (f : TraderBalances → TraderBalances)
    → CoversFrom n i ts
    → CoversFrom n i (adjust ts t p f)
unfolding adjust
CoversFrom-adjust n i [] t p f c = tt
CoversFrom-adjust n i (x ∷ ts) zero p f c = (length-modify x.trader_prod_info p f ∙ c.0, c.1, c.2)
CoversFrom-adjust n i (x ∷ ts) (suc t) p f c = (c.0, c.1, CoversFrom-adjust n (suc i) ts t p f c.2)

pub Covers-adjust :
    (n : ℕ) (ts : List Trader) (t p : ℕ) (f : TraderBalances → TraderBalances)
    → Covers n ts
    → Covers n (adjust ts t p f)
Covers-adjust n = CoversFrom-adjust n 0

-- The trader in place `t` has the ID `t`.
id_at :
    (n i : ℕ) (ts : List Trader) (t : ℕ) {x : Trader}
    → CoversFrom n i ts
    → get_elem? ts t ≡ some x
    → x.id ≡ i + t
id_at n i [] t c e = cc
id_at n i (y ∷ ts) zero c e = ground arith
id_at n i (y ∷ ts) (suc t) c e = omega (arith, id_at n (suc i) ts t c.2 e)

pub Covers-id :
    (n : ℕ) (ts : List Trader) (t : ℕ) {x : Trader}
    → Covers n ts
    → get_elem? ts t ≡ some x
    → x.id ≡ t
Covers-id n ts t c e = omega (arith, id_at n 0 ts t c e)

CoversFrom-set :
    (n i : ℕ) (ts : List Trader) (t k : ℕ) {x : Trader}
    → CoversFrom n i ts
    → get_elem? ts t ≡ some x
    → CoversFrom n i (set ts t (record x { order_id = k }))
CoversFrom-set n i [] t k c e = tt
CoversFrom-set n i (y ∷ ts) zero k c e = (ground arith, ground arith, c.2)
CoversFrom-set n i (y ∷ ts) (suc t) k c e = (c.0, c.1, CoversFrom-set n (suc i) ts t k c.2 e)

-- A trader's order counter is no part of it.
pub Covers-set :
    (n : ℕ) (ts : List Trader) (t k : ℕ) {x : Trader}
    → Covers n ts
    → get_elem? ts t ≡ some x
    → Covers n (set ts t (record x { order_id = k }))
Covers-set n = CoversFrom-set n 0

pub total_balance-set :
    (ts : List Trader) (t k : ℕ) {x : Trader}
    → get_elem? ts t ≡ some x
    → total_balance (set ts t (record x { order_id = k })) ≡ total_balance ts
total_balance-set [] t k e = refl
total_balance-set (y ∷ ts) zero k e = ground arith
total_balance-set (y ∷ ts) (suc t) k e = omega (arith, total_balance-set ts t k e)

pub total_quantity-set :
    (q : ℕ) (ts : List Trader) (t k : ℕ) {x : Trader}
    → get_elem? ts t ≡ some x
    → total_quantity q (set ts t (record x { order_id = k })) ≡ total_quantity q ts
total_quantity-set q [] t k e = refl
total_quantity-set q (y ∷ ts) zero k e = ground arith
total_quantity-set q (y ∷ ts) (suc t) k e = omega (arith, total_quantity-set q ts t k e)

-- A change that keeps balances keeps their sum.
sum_balances_keep :
    (f : TraderBalances → TraderBalances)
    → ((b : TraderBalances) → (f b).balance ≡ b.balance)
    → (bs : List TraderBalances) (p : ℕ) → sum_balances (modify bs p f) ≡ sum_balances bs
sum_balances_keep f k [] p = refl
sum_balances_keep f k (b ∷ bs) zero = omega (arith, k b)
sum_balances_keep f k (b ∷ bs) (suc p) = omega (arith, sum_balances_keep f k bs p)

pub total_balance_keep :
    (f : TraderBalances → TraderBalances)
    → ((b : TraderBalances) → (f b).balance ≡ b.balance)
    → (ts : List Trader) (t p : ℕ) → total_balance (adjust ts t p f) ≡ total_balance ts
unfolding adjust
total_balance_keep f k [] t p = refl
total_balance_keep f k (x ∷ ts) zero p = omega (arith, sum_balances_keep f k x.trader_prod_info p)
total_balance_keep f k (x ∷ ts) (suc t) p = omega (arith, total_balance_keep f k ts t p)

sum_balances_gain :
    (bs : List TraderBalances) (p x : ℕ)
    → p < length bs
    → sum_balances (modify bs p (gain_balance x)) % long_mod ≡ (sum_balances bs + x) % long_mod
sum_balances_gain [] p x h = absurd (omega arith)
sum_balances_gain (b ∷ bs) zero x h = omega arith
sum_balances_gain (b ∷ bs) (suc p) x h = omega (arith, sum_balances_gain bs p x (omega arith))

sum_balances_lose :
    (bs : List TraderBalances) (p x : ℕ)
    → p < length bs
    → (sum_balances (modify bs p (lose_balance x)) + x) % long_mod ≡ sum_balances bs % long_mod
sum_balances_lose [] p x h = absurd (omega arith)
sum_balances_lose (b ∷ bs) zero x h = omega arith
sum_balances_lose (b ∷ bs) (suc p) x h = omega (arith, sum_balances_lose bs p x (omega arith))

module _ (n p : ℕ) (inside : p < n) where
  pub total_balance_gain :
      (i : ℕ) (ts : List Trader) (t x : ℕ)
      → CoversFrom n i ts
      → t < length ts
      → total_balance (adjust ts t p (gain_balance x)) % long_mod
        ≡ (total_balance ts + x) % long_mod
  unfolding adjust
  total_balance_gain i [] t x c h = absurd (omega arith)
  total_balance_gain i (a ∷ ts) zero x c h =
      omega (arith, sum_balances_gain a.trader_prod_info p x (omega arith))
  total_balance_gain i (a ∷ ts) (suc t) x c h =
      omega (arith, total_balance_gain (suc i) ts t x c.2 (omega arith))

  pub total_balance_lose :
      (i : ℕ) (ts : List Trader) (t x : ℕ)
      → CoversFrom n i ts
      → t < length ts
      → (total_balance (adjust ts t p (lose_balance x)) + x) % long_mod
        ≡ total_balance ts % long_mod
  unfolding adjust
  total_balance_lose i [] t x c h = absurd (omega arith)
  total_balance_lose i (a ∷ ts) zero x c h =
      omega (arith, sum_balances_lose a.trader_prod_info p x (omega arith))
  total_balance_lose i (a ∷ ts) (suc t) x c h =
      omega (arith, total_balance_lose (suc i) ts t x c.2 (omega arith))
