-- ===== src/Common/Scan/Numeral.antt =====
-- What is printed with `%d` and read back with `%d`, or with `%s`.
use Prim.Native.Nat.{ℕ, zero, suc, ◌+◌, ◌*◌, ◌/◌, ◌%◌, ◌<◌}
use mathlib.Core.Path.{◌≡◌, refl, ap, sym, ◌∙◌}
use mathlib.Core.Logic.{inl, inr}
use mathlib.Core.Bool.{true, false}
use mathlib.Core.List.{[], ◌∷◌, ◌++◌, append_assoc}
use mathlib.Core.Option.{some}
use native.Mathlib.Omega.{arith}
use pe_exchange.Common.Tests.{ltb, ◌==◌, Bool-cases}
use pe_exchange.Common.Lists.{All, length}
use pe_exchange.Common.Text.{Bytes, show_digits, show}
use pe_exchange.Common.Word.{int_max}
use pe_exchange.Common.Scan.{
  is_space, is_digit, take_word, scan_word, take_digits, store_int, scan_int,
}

-- The text does not go on with a digit.
abbrev pub NoDigit : Bytes → Type 0
NoDigit [] = Unit {0}
NoDigit (c ∷ s) = is_digit c ≡ false

is_digit-numeral : (d : ℕ) → d < 10 → is_digit (b'0' + d) ≡ true
unfolding is_digit
is_digit-numeral d h = ground arith

take_digits-digit :
    (d n m : ℕ) (s : Bytes)
    → d < 10
    → n * 10 + d ≡ m
    → take_digits ((b'0' + d) ∷ s) n ≡ take_digits s m
unfolding take_digits
take_digits-digit d n m s h e = simp (is_digit-numeral d h) (ap (take_digits s) (omega arith))

take_digits-show_digits :
    (fuel n : ℕ) (s : Bytes) → n < fuel → take_digits (show_digits fuel n ++ s) 0 ≡ take_digits s n
unfolding show_digits
take_digits-show_digits zero n s h = absurd (omega arith)
take_digits-show_digits (suc fuel) n s h = elim (Bool-cases (ltb n 10)) [
  | inl one ↦ simp one (take_digits-digit n 0 n s (ground arith) (omega arith))
  | inr more ↦
      simp (more, append_assoc (show_digits fuel (n / 10)) ((b'0' + n % 10) ∷ []) s)
        (take_digits-show_digits fuel (n / 10) ((b'0' + n % 10) ∷ s) (ground arith)
          ∙ take_digits-digit (n % 10) (n / 10) n s (omega arith) (omega arith))
]

-- A text that begins with a digit.
record Starts (s : Bytes) : Type 0 where
  first : ℕ
  others : Bytes
  split : s ≡ first ∷ others
  digit : is_digit first ≡ true

show_digits-Starts : (fuel n : ℕ) (s : Bytes) → n < fuel → Starts (show_digits fuel n ++ s)
unfolding show_digits
show_digits-Starts zero n s h = absurd (omega arith)
show_digits-Starts (suc fuel) n s h = elim (Bool-cases (ltb n 10)) [
  | inl one ↦ simp one (record {
    first = b'0' + n;
    others = s;
    split = refl;
    digit = is_digit-numeral n (ground arith);
  })
  | inr more ↦
      simp (more, append_assoc (show_digits fuel (n / 10)) ((b'0' + n % 10) ∷ []) s)
        (show_digits-Starts fuel (n / 10) ((b'0' + n % 10) ∷ s) (ground arith))
]

digit_not_space : (c : ℕ) → is_digit c ≡ true → is_space c ≡ false
unfolding is_digit is_space
digit_not_space c h = ground arith

digit_no_sign : (c : ℕ) → is_digit c ≡ true → ((c == b'-') ≡ false) × ((c == b'+') ≡ false)
unfolding is_digit
digit_no_sign c h = ground arith

scan_int-digit :
    (c : ℕ) (s : Bytes)
    → is_digit c ≡ true
    → scan_int (c ∷ s) ≡ some (store_int false (take_digits (c ∷ s) 0).0, (take_digits (c ∷ s) 0).1)
unfolding scan_int
scan_int-digit c s h =
    let not_space : is_space c ≡ false = digit_not_space c h in
    let signs = digit_no_sign c h in simp (not_space, signs.0, signs.1, h) refl

take_digits-stop : (n : ℕ) (s : Bytes) → NoDigit s → take_digits s n ≡ (n, s)
unfolding take_digits
take_digits-stop n [] h = refl
take_digits-stop n (c ∷ s) h = simp h refl

-- A number below 2^31 that is printed, with no digit after it, is read back, and nothing else is read.
pub scan_int-show :
    (n : ℕ) (s : Bytes) → n < int_max → NoDigit s → scan_int (show n ++ s) ≡ some (n, s)
unfolding show
scan_int-show n s h stop =
    let st = show_digits-Starts (suc n) n s (omega arith) in
    let all = take_digits-show_digits (suc n) n s (omega arith) ∙ take_digits-stop n s stop in
    let read : take_digits (st.first ∷ st.others) 0 ≡ (n, s) =
      ap (λ t. take_digits t 0) (sym st.split) ∙ all in
    let stored : store_int false n ≡ n = omega arith in
    rw (st.split) (
      scan_int-digit st.first st.others st.digit
      ∙ ap (λ (r : ℕ × Bytes). some (store_int false r.0, r.1)) read
      ∙ ap (λ (v : ℕ). some (v, s)) stored)

-- A word: at least one character, none of them white space.
pub record IsWord (word : Bytes) : Type 0 where
  pub some_character : 0 < length word
  pub no_space : All (λ c. is_space c ≡ false) word

take_word-append :
    (word s : Bytes)
    → All (λ c. is_space c ≡ false) word
    → take_word (word ++ (32 ∷ s)) ≡ (word, 32 ∷ s)
unfolding take_word is_space
take_word-append [] s h = refl
take_word-append (c ∷ word) s h = simp (h.0, take_word-append word s h.1) refl

-- A word that a space follows is read back with `%s`, whether or not a space stands before it.
pub scan_word-append :
    (word s : Bytes) → IsWord word → scan_word (word ++ (32 ∷ s)) ≡ some (word, 32 ∷ s)
unfolding scan_word is_space
scan_word-append [] s h = absurd (omega (arith, h.some_character))
scan_word-append (c ∷ word) s h = simp (h.no_space.0, take_word-append word s h.no_space.1) refl

pub scan_word-space : (s : Bytes) → scan_word (32 ∷ s) ≡ scan_word s
unfolding scan_word is_space
scan_word-space s = refl

pub scan_int-space : (s : Bytes) → scan_int (32 ∷ s) ≡ scan_int s
unfolding scan_int is_space
scan_int-space s = refl
