-- ===== src/Common/Word.antt =====
-- C's `int` and `long long` as bit patterns: a number below 2^32 or 2^64 in two's complement.
-- Conversions are those of the target: `int` from `long long` drops bits, the way back extends the
-- sign. Signed overflow, which C leaves undefined, wraps as the machine instruction does.
use Prim.Native.Nat.{ℕ, ◌+◌, ◌-◌, ◌%◌, ◌^◌}
use pe_exchange.Common.Tests.{ltb, if◌then◌else◌}

abbrev pub int_mod : ℕ
int_mod = 2 ^ 32

abbrev pub long_mod : ℕ
long_mod = 2 ^ 64

-- The first patterns that stand for a negative number.
abbrev pub int_max : ℕ
int_max = 2 ^ 31

abbrev pub long_max : ℕ
long_max = 2 ^ 63

abbrev pub add_int : ℕ → ℕ → ℕ
add_int a b = (a + b) % int_mod

abbrev pub sub_int : ℕ → ℕ → ℕ
sub_int a b = (a + (int_mod - b % int_mod)) % int_mod

abbrev pub add_long : ℕ → ℕ → ℕ
add_long a b = (a + b) % long_mod

abbrev pub sub_long : ℕ → ℕ → ℕ
sub_long a b = (a + (long_mod - b % long_mod)) % long_mod

-- (int)x of a long long x
abbrev pub int_of_long : ℕ → ℕ
int_of_long x = x % int_mod

-- (long long)x of an int x
abbrev pub long_of_int : ℕ → ℕ
long_of_int x = if ltb x int_max then x else x + (long_mod - int_mod)
