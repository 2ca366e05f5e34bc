-- ===== src/AutoTrader/Lengths.antt =====
-- The length of the trader's text, which is counted before it is written.
use pe_exchange.Common.{
  ℕ, zero, suc, ◌+◌, ◌/◌, ◌<◌, ◌≡◌, refl, sym, ◌∙◌, true, false, ◌∷◌, ◌++◌, ltb, ◌==◌, arith,
  int_max, length, length-append, Bool-cases, inl, inr, lt→ltb,
}
use pe_exchange.Common.Text.{codes, show, show_digits, show_int}
use pe_exchange.Types.{Order}
use pe_exchange.AutoTrader.{count_digits, strlen_digit, find_buy_str_len, create_buy_str}

pub show_int-pos : (n : ℕ) → n < int_max → show_int n ≡ show n
unfolding show_int
show_int-pos n h = simp (lt→ltb n int_max h) refl

length-show_digits : (fuel n : ℕ) → n < fuel → length (show_digits fuel n) ≡ count_digits fuel n
unfolding show_digits count_digits
length-show_digits zero n h = absurd (omega arith)
length-show_digits (suc fuel) n h = elim (Bool-cases (ltb n 10)) [
  | inl one ↦ let z : (n / 10 == 0) ≡ true = ground arith in simp (one, z) refl
  | inr more ↦
      let z : (n / 10 == 0) ≡ false = ground arith in
      simp (more, z)
        (length-append (show_digits fuel (n / 10)) _
          ∙ omega (arith, length-show_digits fuel (n / 10) (ground arith)))
]

strlen_digit-length : (n : ℕ) → n < int_max → strlen_digit n ≡ length (show_int n)
unfolding strlen_digit show
strlen_digit-length n h =
    rw (show_int-pos n h)
      (simp (lt→ltb n int_max h) (sym (length-show_digits (suc n) n (omega arith))))

-- For an order whose ID, quantity and price are below 2^31, the array of `find_buy_str_len` bytes
-- has room for the text of `create_buy_str` and its final zero, and for nothing more.
pub find_buy_str_len-create_buy_str :
    (o : Order)
    → o.order_id < int_max
    → o.quantity < int_max
    → o.price < int_max
    → find_buy_str_len o ≡ length (create_buy_str o) + 1
unfolding find_buy_str_len create_buy_str
find_buy_str_len-create_buy_str o hi hq hp =
    let x4 = codes ";" in
    let x3 = 32 ∷ (show_int o.price ++ x4) in
    let x2 = 32 ∷ (show_int o.quantity ++ x3) in
    let x1 = 32 ∷ (o.product ++ x2) in
    rw
      (
        strlen_digit-length o.order_id hi,
        strlen_digit-length o.quantity hq,
        strlen_digit-length o.price hp,
      )
      (omega (
        arith,
        length-append (show_int o.order_id) x1,
        length-append o.product x2,
        length-append (show_int o.quantity) x3,
        length-append (show_int o.price) x4,
      ))
