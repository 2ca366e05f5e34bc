-- ===== src/Orderbook/Matching/Positions.antt =====
-- The traders' positions in a product, taken together.
use pe_exchange.Common.{
  ℕ, zero, suc, ◌+◌, ◌%◌, ◌<◌, ◌≡◌, refl, List, [], ◌∷◌, arith, length, modify, int_mod, ◌==◌,
  if◌then◌else◌,
}
use pe_exchange.Types.{TraderBalances, Trader}
use pe_exchange.Orderbook.Matching.{adjust, gain_quantity, lose_quantity}
use pe_exchange.Orderbook.Matching.Accounts.{CoversFrom, quantity_in, total_quantity}

abbrev at_product : ℕ → ℕ → ℕ → ℕ
at_product q p x = if q == p then x else 0

quantity_in_keep :
    (f : TraderBalances → TraderBalances)
    → ((b : TraderBalances) → (f b).quantity ≡ b.quantity)
    → (bs : List TraderBalances) (q p : ℕ) → quantity_in q (modify bs p f) ≡ quantity_in q bs
quantity_in_keep f k [] q p = refl
quantity_in_keep f k (b ∷ bs) zero zero = k b
quantity_in_keep f k (b ∷ bs) zero (suc p) = refl
quantity_in_keep f k (b ∷ bs) (suc q) zero = refl
quantity_in_keep f k (b ∷ bs) (suc q) (suc p) = quantity_in_keep f k bs q p

-- A change that keeps each position keeps their sum.
pub total_quantity_keep :
    (f : TraderBalances → TraderBalances)
    → ((b : TraderBalances) → (f b).quantity ≡ b.quantity)
    → (ts : List Trader) (q t p : ℕ) → total_quantity q (adjust ts t p f) ≡ total_quantity q ts
unfolding adjust
total_quantity_keep f k [] q t p = refl
total_quantity_keep f k (x ∷ ts) q zero p =
    omega (arith, quantity_in_keep f k x.trader_prod_info q p)
total_quantity_keep f k (x ∷ ts) q (suc t) p = omega (arith, total_quantity_keep f k ts q t p)

quantity_in_gain :
    (bs : List TraderBalances) (q p x : ℕ)
    → p < length bs
    → quantity_in q (modify bs p (gain_quantity x)) % int_mod
      ≡ (quantity_in q bs + at_product q p x) % int_mod
quantity_in_gain [] q p x h = absurd (omega arith)
quantity_in_gain (b ∷ bs) zero zero x h = ground arith
quantity_in_gain (b ∷ bs) zero (suc p) x h = ground arith
quantity_in_gain (b ∷ bs) (suc q) zero x h = ground arith
quantity_in_gain (b ∷ bs) (suc q) (suc p) x h = ground (arith, quantity_in_gain bs q p x)

quantity_in_lose :
    (bs : List TraderBalances) (q p x : ℕ)
    → p < length bs
    → (quantity_in q (modify bs p (lose_quantity x)) + at_product q p x) % int_mod
      ≡ quantity_in q bs % int_mod
quantity_in_lose [] q p x h = absurd (omega arith)
quantity_in_lose (b ∷ bs) zero zero x h = ground arith
quantity_in_lose (b ∷ bs) zero (suc p) x h = ground arith
quantity_in_lose (b ∷ bs) (suc q) zero x h = ground arith
quantity_in_lose (b ∷ bs) (suc q) (suc p) x h = ground (arith, quantity_in_lose bs q p x)

module _ (n p : ℕ) (inside : p < n) where
  pub total_quantity_gain :
      (i : ℕ) (ts : List Trader) (q t x : ℕ)
      → CoversFrom n i ts
      → t < length ts
      → total_quantity q (adjust ts t p (gain_quantity x)) % int_mod
        ≡ (total_quantity q ts + at_product q p x) % int_mod
  unfolding adjust
  total_quantity_gain i [] q t x c h = absurd (omega arith)
  total_quantity_gain i (a ∷ ts) q zero x c h =
      omega (arith, quantity_in_gain a.trader_prod_info q p x (omega arith))
  total_quantity_gain i (a ∷ ts) q (suc t) x c h =
      omega (arith, total_quantity_gain (suc i) ts q t x c.2 (omega arith))

  pub total_quantity_lose :
      (i : ℕ) (ts : List Trader) (q t x : ℕ)
      → CoversFrom n i ts
      → t < length ts
      → (total_quantity q (adjust ts t p (lose_quantity x)) + at_product q p x) % int_mod
        ≡ total_quantity q ts % int_mod
  unfolding adjust
  total_quantity_lose i [] q t x c h = absurd (omega arith)
  total_quantity_lose i (a ∷ ts) q zero x c h =
      omega (arith, quantity_in_lose a.trader_prod_info q p x (omega arith))
  total_quantity_lose i (a ∷ ts) q (suc t) x c h =
      omega (arith, total_quantity_lose (suc i) ts q t x c.2 (omega arith))
