-- ===== src/Common/Text.antt =====
-- Characters as their codes, and the decimal numerals that `%d` and `%lld` print.
use Prim.Native.Char.{code}
use Prim.Native.String.{String}
use Prim.Native.Nat.{ℕ, zero, suc, ◌+◌, ◌-◌, ◌/◌, ◌%◌}
use mathlib.Core.List.{List, [], ◌∷◌, ◌++◌}
use pe_exchange.Common.Tests.{ltb, if◌then◌else◌}
use pe_exchange.Common.Word.{int_mod, int_max, long_mod, long_max}

abbrev pub Bytes : Type 0
Bytes = List ℕ

-- The characters of a literal, without C's final zero.
abbrev pub codes : String → Bytes
codes String.[] = []
codes (String.◌∷◌ c s) = code c ∷ codes s

-- Fewer rounds than `n + 1` divide `n` by ten down to one digit.
unfoldable pub show_digits : ℕ → ℕ → Bytes
show_digits zero n = []
show_digits (suc fuel) n =
    let front = show_digits fuel (n / 10) in
    if ltb n 10 then (b'0' + n) ∷ [] else front ++ ((b'0' + n % 10) ∷ [])

unfoldable pub show : ℕ → Bytes
unfolding show_digits
show n = show_digits (suc n) n

-- `%d` of an int
unfoldable pub show_int : ℕ → Bytes
unfolding show
show_int x = if ltb x int_max then show x else b'-' ∷ show (int_mod - x)

-- `%lld` of a long long
unfoldable pub show_long : ℕ → Bytes
unfolding show
show_long x = if ltb x long_max then show x else b'-' ∷ show (long_mod - x)
