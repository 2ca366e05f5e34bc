-- ===== src/Common/Scan/Bounds.antt =====
-- Every int that is scanned is a 32-bit pattern.
use Prim.Native.Nat.{ℕ, ◌<◌}
use mathlib.Core.Path.{◌≡◌, refl}
use mathlib.Core.Bool.{Bool, true, false}
use mathlib.Core.List.{[], ◌∷◌}
use mathlib.Core.Option.{some}
use native.Mathlib.Omega.{arith}
use pe_exchange.Common.Word.{int_mod}
use pe_exchange.Common.Text.{Bytes}
use pe_exchange.Common.Scan.{
  take_digits, store_int, scan_digits, scan_signed, scan_int, skip_space, same_text,
}

store_int-lt : (negative : Bool) (n : ℕ) → store_int negative n < int_mod
store_int-lt true n = omega arith
store_int-lt false n = omega arith

scan_digits-lt :
    (negative : Bool) (s : Bytes) {v : ℕ} {rest : Bytes}
    → scan_digits negative s ≡ some (v, rest)
    → v < int_mod
unfolding scan_digits
scan_digits-lt negative [] e = cc
scan_digits-lt negative (c ∷ s) e = ground (arith, store_int-lt negative (take_digits (c ∷ s) 0).0)

scan_signed-lt : (s : Bytes) {v : ℕ} {rest : Bytes} → scan_signed s ≡ some (v, rest) → v < int_mod
unfolding scan_signed
scan_signed-lt [] e = cc
scan_signed-lt (c ∷ s) e =
    ground (arith, scan_digits-lt true s, scan_digits-lt false s, scan_digits-lt false (c ∷ s))

pub scan_int-lt : (s : Bytes) {v : ℕ} {rest : Bytes} → scan_int s ≡ some (v, rest) → v < int_mod
unfolding scan_int
scan_int-lt s e = scan_signed-lt (skip_space s) e

pub same_text-eq : (a b : Bytes) → same_text a b ≡ true → a ≡ b
unfolding same_text
same_text-eq [] [] e = refl
same_text-eq [] (y ∷ b) e = cc
same_text-eq (x ∷ a) [] e = cc
same_text-eq (x ∷ a) (y ∷ b) e = ground (arith, same_text-eq a b)

pub same_text_refl : (a : Bytes) → same_text a a ≡ true
unfolding same_text
same_text_refl [] = refl
same_text_refl (x ∷ a) = ground (arith, same_text_refl a)
