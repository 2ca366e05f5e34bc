-- ===== src/Common/Double.antt =====
-- The numbers of type double, as far as a fee needs them: integers, or integers over a power of two that
-- is kept beside them. Such a number has 53 binary digits.
pub mod Nearest
use pe_exchange.Common.Tests.{ltb, ◌==◌}
use Prim.Native.Nat.{ℕ, zero, suc, ◌+◌, ◌*◌, ◌/◌, ◌%◌, ◌^◌}
use mathlib.Core.Bool.{Bool, true, false, ◌&&◌, ◌||◌}
use pe_exchange.Common.Tests.{if◌then◌else◌}

-- What the last of the 53 digits of `n` counts, from `unit` up: a power of two, which the fuel bounds.
unfoldable pub double_unit : ℕ → ℕ → ℕ → ℕ
double_unit zero unit n = unit
double_unit (suc fuel) unit n =
    let more = double_unit fuel (2 * unit) n in if ltb n (2 ^ 53 * unit) then unit else more

-- To the nearest multiple of `unit`; of two that are equally near, the even one.
unfoldable pub round_to : ℕ → ℕ → ℕ
round_to unit n =
    let low = n / unit * unit in
    let left = 2 * (n % unit) in
    if ltb left unit || ((left == unit) && (n / unit % 2 == 0)) then low else low + unit

-- The double that stands for `n`, a number below 2^117.
unfoldable pub to_double : ℕ → ℕ
unfolding double_unit round_to
to_double n = round_to (double_unit 64 1 n) n
