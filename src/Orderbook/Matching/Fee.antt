-- ===== src/Orderbook/Matching/Fee.antt =====
-- `round_int(total * 0.01)`: the fee of a match.
use pe_exchange.Common.{
  ℕ, zero, suc, ◌+◌, ◌*◌, ◌/◌, ◌^◌, ◌≤◌, ◌<◌, ◌≡◌, ap, ◌∙◌, true, ltb, if◌then◌else◌, arith,
  long_max, long_mod, ◌-◌, ◌%◌,
}
use pe_exchange.Common.Double.{to_double}
use pe_exchange.Common.Double.Nearest.{IsNear40, to_double-IsNear40, to_double-small}
use pe_exchange.Orderbook.Matching.{one_percent, percent, round_percent}

-- The quotient is known by what it lies between.
quotient : (n q : ℕ) → 2 ^ 59 * q ≤ n → n < 2 ^ 59 * q + 2 ^ 59 → n / 2 ^ 59 ≡ q
quotient n q h k = omega arith

nearest-percent :
    (total m q : ℕ)
    → total < 10 ^ 12
    → IsNear40 (total * one_percent) m
    → 100 * q ≤ total + 50
    → total + 50 < 100 * q + 100
    → (m + 2 ^ 58) / 2 ^ 59 ≡ q
nearest-percent total m zero few near low high =
    quotient (m + 2 ^ 58) 0 (omega arith) (omega (arith, near.not_above))
nearest-percent total m (suc q) few near low high =
    let kept = near.keeps (2 ^ 18 * (2 * q + 1)) (omega arith) in
    quotient (m + 2 ^ 58) (suc q) (omega (arith, kept)) (omega (arith, near.not_above))

percent-nearest : (total : ℕ) → total < 10 ^ 12 → percent total ≡ (total + 50) / 100
unfolding percent
percent-nearest total few =
    ap (λ t. (to_double (t * one_percent) + 2 ^ 58) / 2 ^ 59)
      (to_double-small total (omega (arith, few)))
    ∙ nearest-percent total (to_double (total * one_percent)) ((total + 50) / 100) few
        (to_double-IsNear40 (total * one_percent) (omega (arith, few))) (omega arith) (omega arith)

-- For every total below 10^12, the fee that comes out of the product with the double 0.01, itself
-- rounded to a double, and `round` is one percent of the total to the nearest integer, upwards from
-- a half.
pub round_percent-nearest : (total : ℕ) → total < 10 ^ 12 → round_percent total ≡ (total + 50) / 100
unfolding round_percent
round_percent-nearest total few =
    let not_negative : ltb total long_max ≡ true = ground (arith, few) in
    ap (λ b. if b then percent total else (long_mod - percent (long_mod - total)) % long_mod)
      not_negative
    ∙ percent-nearest total few
