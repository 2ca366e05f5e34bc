-- ===== src/AutoTrader/Trading/Offers.antt =====
-- The announcements of orders fit the traders' arrays of 50 bytes, and can be read whole.
use pe_exchange.Common.{
  ℕ, zero, suc, ◌+◌, ◌/◌, ◌%◌, ◌≤◌, ◌≡◌, refl, inl, inr, Bool, false, [], ◌∷◌, ◌++◌, arith, ltb,
  if◌then◌else◌, Bool-cases, length, length-append, All, All-append, append_assoc,
}
use pe_exchange.Common.Text.{Bytes, codes, show, show_digits}
use pe_exchange.Orderbook.Create.{max_int}
use pe_exchange.Pipes.Writing.{market_msg}
use pe_exchange.Pipes.Lengths.{length-show}
use pe_exchange.Pipes.Reading.Message.{IsInner, All-IsInner}

show_digits-IsInner : (fuel n : ℕ) → All IsInner (show_digits fuel n)
unfolding show_digits
show_digits-IsInner zero n = tt
show_digits-IsInner (suc fuel) n = elim (Bool-cases (ltb n 10)) [
  | inl one ↦ simp one ((λ e. ground arith, λ e. ground arith), tt)
  | inr more ↦ simp more (
      All-append IsInner (show_digits fuel (n / 10)) ((b'0' + n % 10) ∷ [])
        (show_digits-IsInner fuel (n / 10)) ((λ e. omega arith, λ e. omega arith), tt))
]

show-IsInner : (n : ℕ) → All IsInner (show n)
unfolding show
show-IsInner n = show_digits-IsInner (suc n) n

-- The announcement without its end.
abbrev pub market_body : Bool → Bytes → ℕ → ℕ → Bytes
market_body is_buy product quantity price =
    codes (if is_buy then "MARKET BUY " else "MARKET SELL ")
    ++ (product ++ (codes " " ++ (show quantity ++ (codes " " ++ show price))))

pub market_msg_body :
    (is_buy : Bool) (product : Bytes) (quantity price : ℕ)
    → market_msg is_buy product quantity price
      ≡ market_body is_buy product quantity price ++ codes ";"
unfolding market_msg
market_msg_body is_buy product quantity price =
    rw
      (
        append_assoc (codes (if is_buy then "MARKET BUY " else "MARKET SELL "))
            (product ++ (codes " " ++ (show quantity ++ (codes " " ++ show price)))) (codes ";"),
        append_assoc product (codes " " ++ (show quantity ++ (codes " " ++ show price)))
            (codes ";"),
        append_assoc (show quantity) (codes " " ++ show price) (codes ";"),
      )
      refl

-- A product's name as `get_products` accepts it: short, without an end of a message or a text.
pub record IsName (product : Bytes) : Type 0 where
  pub inner : All IsInner product
  pub short : length product ≤ 16

space-IsInner : IsInner 32
space-IsInner = (λ e. omega arith, λ e. omega arith)

pub market_body-IsInner :
    (product : Bytes) (quantity price : ℕ)
    → IsName product
    → All IsInner (market_body false product quantity price)
market_body-IsInner product quantity price h =
    let z = λ (n : ℕ). show-IsInner n in
    let x4 = show price in
    let x3 = show quantity ++ (codes " " ++ x4) in
    All-append IsInner (codes "MARKET SELL ") (product ++ (codes " " ++ x3))
      (All-IsInner (codes "MARKET SELL ") refl)
      (All-append IsInner product (codes " " ++ x3) h.inner (
        space-IsInner,
        All-append IsInner (show quantity) (codes " " ++ x4) (z quantity) (space-IsInner, z price),
      ))

pub length-market_body :
    (product : Bytes) (quantity price : ℕ)
    → IsName product
    → quantity ≤ max_int
    → price ≤ max_int
    → length (market_body false product quantity price) + 2 ≤ 50
length-market_body product quantity price h hq hp = omega (
  arith,
  h.short,
  length-show quantity hq,
  length-show price hp,
  length-append product (codes " " ++ (show quantity ++ (codes " " ++ show price))),
  length-append (show quantity) (codes " " ++ show price),
)
