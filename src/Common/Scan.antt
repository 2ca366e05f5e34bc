-- ===== src/Common/Scan.antt =====
-- The conversions of sscanf that the program uses, on a text without its final zero. An `int` out of
-- range is what glibc makes of it: strtol's result, which stops at the ends of a long, cut to 32 bits.
pub mod Bounds
pub mod Numeral
use Prim.Native.Nat.{ℕ, zero, suc, ◌+◌, ◌-◌, ◌*◌, ◌%◌, min}
use mathlib.Core.List.{List, [], ◌∷◌, ◌++◌}
use mathlib.Core.Bool.{Bool, true, false, ◌&&◌, ◌||◌}
use mathlib.Core.Option.{Option, none, some}
use pe_exchange.Common.Tests.{ltb, leb, ◌==◌, if◌then◌else◌}
use pe_exchange.Common.Word.{int_mod, int_max, long_mod, long_max}
use pe_exchange.Common.Text.{Bytes}

-- isspace
unfoldable pub is_space : ℕ → Bool
is_space c = (c == 32) || (leb 9 c && leb c 13)

-- isdigit
unfoldable pub is_digit : ℕ → Bool
is_digit c = leb b'0' c && leb c b'9'

unfoldable pub skip_space : Bytes → Bytes
unfolding is_space
skip_space [] = []
skip_space (c ∷ s) = if is_space c then skip_space s else c ∷ s

-- The characters up to the next white space, and the rest.
unfoldable pub take_word : Bytes → Bytes × Bytes
unfolding is_space
take_word [] = ([], [])
take_word (c ∷ s) =
    let (word, rest) = take_word s in if is_space c then ([], c ∷ s) else (c ∷ word, rest)

-- A conversion that has matched no character fails.
unfoldable pub some_word : Bytes × Bytes → Option (Bytes × Bytes)
some_word ([], rest) = none
some_word (c ∷ word, rest) = some (c ∷ word, rest)

-- `%s`
unfoldable pub scan_word : Bytes → Option (Bytes × Bytes)
unfolding skip_space take_word some_word
scan_word s = some_word (take_word (skip_space s))

-- The digits at the front, added to the number so far.
unfoldable pub take_digits : Bytes → ℕ → ℕ × Bytes
unfolding is_digit
take_digits [] n = (n, [])
take_digits (c ∷ s) n =
    let more = take_digits s (n * 10 + (c - b'0')) in if is_digit c then more else (n, c ∷ s)

-- The pattern of the int that is stored for a numeral.
abbrev pub store_int : Bool → ℕ → ℕ
store_int negative n =
    if negative then (long_mod - min n long_max) % int_mod else min n (long_max - 1) % int_mod

-- A sign has been read; at least one digit must follow.
unfoldable pub scan_digits : Bool → Bytes → Option (ℕ × Bytes)
unfolding take_digits
scan_digits negative [] = none
scan_digits negative (c ∷ s) =
    let (n, rest) = take_digits (c ∷ s) 0 in
    if is_digit c then some (store_int negative n, rest) else none

unfoldable pub scan_signed : Bytes → Option (ℕ × Bytes)
unfolding scan_digits
scan_signed [] = none
scan_signed (c ∷ s) =
    if c == b'-'
    then scan_digits true s
    else if c == b'+'
    then scan_digits false s
    else scan_digits false (c ∷ s)

-- `%d`
unfoldable pub scan_int : Bytes → Option (ℕ × Bytes)
unfolding skip_space scan_signed
scan_int s = scan_signed (skip_space s)

-- The characters of a format that must be there as they are.
unfoldable pub scan_literal : Bytes → Bytes → Option Bytes
scan_literal [] s = some s
scan_literal (l ∷ ls) [] = none
scan_literal (l ∷ ls) (c ∷ s) = if c == l then scan_literal ls s else none

-- strcmp(a, b) == 0
unfoldable pub same_text : Bytes → Bytes → Bool
same_text [] [] = true
same_text [] (b ∷ bs) = false
same_text (a ∷ as') [] = false
same_text (a ∷ as') (b ∷ bs) = (a == b) && same_text as' bs

-- Comparison of two ints.
abbrev pub int_ltb : ℕ → ℕ → Bool
int_ltb a b = ltb ((a + int_max) % int_mod) ((b + int_max) % int_mod)
