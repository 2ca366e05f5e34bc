-- ===== src/Common/Double/Nearest.antt =====
-- How near the double is that stands for a number.
use pe_exchange.Common.Double.{double_unit, round_to, to_double}
use pe_exchange.Common.Tests.{ltb, ◌==◌, Bool-cases}
use Prim.Native.Nat.{ℕ, zero, suc, ◌+◌, ◌*◌, ◌/◌, ◌%◌, ◌^◌, ◌≤◌, ◌<◌}
use mathlib.Core.Path.{◌≡◌, refl, ap, ◌∙◌}
use mathlib.Core.Logic.{inl, inr}
use mathlib.Core.Bool.{true, ◌&&◌, ◌||◌}
use native.Mathlib.Omega.{arith}
use native.Mathlib.Nat.{div-add-mod, mod-lt, le-div_iff_mul-le}

-- 2 to the power of a number.
abbrev power : ℕ → ℕ
power zero = 1
power (suc g) = 2 * power g

double_unit-divides :
    (g fuel unit n : ℕ)
    → power g * unit ≡ 2 ^ 40
    → n < 2 ^ 93
    → (c : ℕ) × (c * double_unit fuel unit n ≡ 2 ^ 40)
unfolding double_unit
double_unit-divides g zero unit n h small = (power g, h)
double_unit-divides zero (suc fuel) unit n h small = elim (Bool-cases (ltb n (2 ^ 53 * unit))) [
  | inl fits ↦ simp fits (1, h)
  | inr long ↦ absurd (ground arith)
]
double_unit-divides (suc g) (suc fuel) unit n h small = elim (Bool-cases (ltb n (2 ^ 53 * unit))) [
  | inl fits ↦ simp fits (power (suc g), h)
  | inr long ↦ simp long (double_unit-divides g fuel (2 * unit) n (grind (arith, h)) small)
]

-- The nearest multiple of a unit is not below another multiple that the number is not below.
record IsNear (unit n m : ℕ) : Type 0 where
  not_above : 2 * m ≤ 2 * n + unit
  not_below : 2 * n ≤ 2 * m + unit
  keeps : (k : ℕ) → k * unit ≤ n → k * unit ≤ m

module _ (unit n : ℕ) (pos : 0 < unit) where
  low_keeps : (k : ℕ) → k * unit ≤ n → k * unit ≤ n / unit * unit
  low_keeps k h =
      let q : k ≤ n / unit = (le-div_iff_mul-le {k = unit} {x = k} {y = n} pos).1 h in
      grind (arith, q)

  round_to-IsNear : IsNear unit n (round_to unit n)
  unfolding round_to
  round_to-IsNear =
      let parts : n / unit * unit + n % unit ≡ n = grind (arith, div-add-mod n unit) in
      let small : n % unit < unit = mod-lt n pos in
      elim (Bool-cases
        (ltb (2 * (n % unit)) unit || ((2 * (n % unit) == unit) && (n / unit % 2 == 0)))) [
          | inl down ↦
              let below : 2 * (n % unit) ≤ unit = ground arith in
              simp down (record {
                not_above = omega (arith, parts);
                not_below = omega (arith, parts, below);
                keeps = low_keeps;
              })
          | inr up ↦
              let above : unit ≤ 2 * (n % unit) = ground arith in
              simp up (record {
                not_above = omega (arith, parts, above);
                not_below = omega (arith, parts, small);
                keeps = λ k h. omega (arith, low_keeps k h);
              })
        ]

-- The same for units up to 2^40, of which all are divisors.
pub record IsNear40 (n m : ℕ) : Type 0 where
  pub not_above : 2 * m ≤ 2 * n + 2 ^ 40
  pub not_below : 2 * n ≤ 2 * m + 2 ^ 40
  pub keeps : (k : ℕ) → k * 2 ^ 40 ≤ n → k * 2 ^ 40 ≤ m

divisor_pos : (c unit : ℕ) → c * unit ≡ 2 ^ 40 → 0 < unit
divisor_pos c zero h = grind arith
divisor_pos c (suc unit) h = omega arith

divisor_le : (c unit : ℕ) → c * unit ≡ 2 ^ 40 → unit ≤ 2 ^ 40
divisor_le zero unit h = omega (arith, h)
divisor_le (suc c) unit h = grind (arith, h)

IsNear-IsNear40 : (c unit n m : ℕ) → c * unit ≡ 2 ^ 40 → IsNear unit n m → IsNear40 n m
IsNear-IsNear40 c unit n m h near = record {
  not_above = omega (arith, near.not_above, divisor_le c unit h);
  not_below = omega (arith, near.not_below, divisor_le c unit h);
  keeps = λ k below.
      let same : k * c * unit ≡ k * 2 ^ 40 = grind (arith, h) in
      let kept = near.keeps (k * c) (omega (arith, same, below)) in omega (arith, same, kept);
}

-- The double of a number below 2^93.
pub to_double-IsNear40 : (n : ℕ) → n < 2 ^ 93 → IsNear40 n (to_double n)
unfolding to_double
to_double-IsNear40 n small =
    let (c, h) = double_unit-divides 40 64 1 n refl small in
    let unit = double_unit 64 1 n in
    IsNear-IsNear40 c unit n (round_to unit n) h (round_to-IsNear unit n (divisor_pos c unit h))

round_to_one : (n : ℕ) → round_to 1 n ≡ n
round_to_one n =
    let near = round_to-IsNear 1 n (omega arith) in omega (arith, near.not_above, near.not_below)

double_unit-one : (n : ℕ) → n < 2 ^ 53 → double_unit 64 1 n ≡ 1
unfolding double_unit
double_unit-one n small = let fits : ltb n (2 ^ 53 * 1) ≡ true = ground arith in simp fits refl

-- A number of no more than 53 binary digits is a double itself.
pub to_double-small : (n : ℕ) → n < 2 ^ 53 → to_double n ≡ n
unfolding to_double
to_double-small n small = ap (λ u. round_to u n) (double_unit-one n small) ∙ round_to_one n
