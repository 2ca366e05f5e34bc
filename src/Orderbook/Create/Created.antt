-- ===== src/Orderbook/Create/Created.antt =====
-- What `create_order` accepts, and the order that it makes.
use pe_exchange.Common.{
  sym, subst, >>=-eq-some, ℕ, suc, ◌+◌, ◌≤◌, ◌<◌, ◌≡◌, Bool, true, false, List, [], ◌∷◌, Option,
  none, some, arith, get_elem?, int_mod, Bool-cases, inl, inr,
}
use pe_exchange.Common.Text.{Bytes, codes}
use pe_exchange.Common.Scan.{scan_word, scan_int, same_text}
use pe_exchange.Common.Scan.Bounds.{scan_int-lt, same_text-eq}
use pe_exchange.Types.{Order, Trader}
use pe_exchange.Orderbook.Levels.Shows.{IsOrder}
use pe_exchange.Orderbook.Create.{
  Fields, scan_order, find_product, max_int, out_of_range, make_order, create_order,
  create_buy_sell_order,
}

pub out_of_range-false :
    (low x : ℕ)
    → low ≤ max_int
    → x < int_mod
    → out_of_range low x ≡ false
    → (low ≤ x) × (x ≤ max_int)
unfolding out_of_range
out_of_range-false low x l h e = ground arith

-- The scanned numbers are ints.
record AreInts (f : Fields) : Type 0 where
  order_id : f.order_id < int_mod
  quantity : f.quantity < int_mod
  price : f.price < int_mod

scan_order-AreInts : (str : Bytes) {f : Fields} → scan_order str ≡ some f → AreInts f
unfolding scan_order
scan_order-AreInts str {f} e =
    let ((_, s1), e1, h1) = >>=-eq-some (scan_word str) _ e in
    let ((id, s2), e2, h2) = >>=-eq-some (scan_int s1) _ h1 in
    let ((product, s3), e3, h3) = >>=-eq-some (scan_word s2) _ h2 in
    let ((quantity, s4), e4, h4) = >>=-eq-some (scan_int s3) _ h3 in
    let ((price, s5), e5, h5) = >>=-eq-some (scan_int s4) _ h4 in
    ground (arith, scan_int-lt s1 e2, scan_int-lt s3 e4, scan_int-lt s4 e5)

-- The product is found at an index where its name stands.
find_product-there :
    (product : Bytes) (ps : List Bytes) (i : ℕ) {j : ℕ}
    → find_product product ps i ≡ some j
    → (k : ℕ) × (j ≡ i + k) × (get_elem? ps k ≡ some product)
unfolding find_product
find_product-there product [] i e = cc
find_product-there product (p ∷ ps) i e = elim (Bool-cases (same_text product p)) [
  | inl same ↦ (0, ground arith, ground (arith, same_text-eq product p same))
  | inr other ↦
      let (k, at, there) = find_product-there product ps (suc i) (simp other at e) in
      (suc k, omega arith, there)
]

-- A new order of the trader `t` on a side, and the trader after it.
pub record Created (products : List Bytes) (t : Trader) (is_buy : Bool) (t' : Trader) (o : Order)
    : Type 0 where
  pub ranges : IsOrder o
  pub product : get_elem? products o.product_id ≡ some o.product
  pub trader : o.trader_id ≡ t.id
  pub side : o.is_buy ≡ is_buy
  pub order_id : o.order_id ≡ t.order_id
  pub id_max : o.order_id ≤ max_int
  pub counter : t' ≡ record t { order_id = suc t.order_id }

make_order-Created :
    (products : List Bytes) (f : Fields) (prod : ℕ) (t : Trader) (is_buy : Bool) {t' : Trader}
    {o : Order}
    → AreInts f
    → get_elem? products prod ≡ some f.product
    → make_order f prod t is_buy ≡ some (t', o)
    → Created products t is_buy t' o
unfolding make_order
make_order-Created products f prod t is_buy a p e = ground (
  arith,
  out_of_range-false 1 f.quantity,
  out_of_range-false 0 f.order_id,
  out_of_range-false 1 f.price,
)

-- If `create_order` makes an order, its quantity and price are from 1 to 999999, its product's name
-- stands at its product index, it is the trader's, of the given side, its ID is the one that the
-- trader's counter was at and at most 999999, and of the trader only the counter has changed, by
-- one.
pub create_order-Created :
    (str : Bytes) (t : Trader) (products : List Bytes) (is_buy : Bool) {t' : Trader} {o : Order}
    → create_order str t products is_buy ≡ some (t', o)
    → Created products t is_buy t' o
unfolding create_order
create_order-Created str t products is_buy e =
    let (f, e1, h1) = >>=-eq-some (scan_order str) _ e in
    let (prod, e2, h2) = >>=-eq-some (find_product f.product products 0) _ h1 in
    let (k, at, there) = find_product-there f.product products 0 e2 in
    let here : prod ≡ k = omega arith in
    make_order-Created products f prod t is_buy (scan_order-AreInts str e1) (rw here there) h2

none-ne-some {ℓ} : {A : Type ℓ} {a : A} → ◌≡◌ {A = Option A} none (some a) → ⊥
none-ne-some e = cc

-- The side that a message's first word names.
abbrev pub NamesSide : Bytes → Bool → Type 0
NamesSide word true = word ≡ codes "BUY"
NamesSide word false = word ≡ codes "SELL"

-- If `create_buy_sell_order` makes an order from a message, the message's first word is BUY for a
-- buy order and SELL for a sell order, and the order is as `create_order` makes it for that side:
-- within the limits, of a known product, of the trader and with the trader's next ID, which is used
-- up.
pub create_buy_sell_order-Created :
    (str : Bytes) (t : Trader) (products : List Bytes) {t' : Trader} {o : Order}
    → create_buy_sell_order str t products ≡ some (t', o)
    → (word rest : Bytes) × (scan_word str ≡ some (word, rest))
      × NamesSide word o.is_buy
      × Created products t o.is_buy t' o
unfolding create_buy_sell_order
create_buy_sell_order-Created str t products {t' = t'} {o = o} e =
    let ((word, rest), e1, h1) = >>=-eq-some (scan_word str) _ e in
    elim (Bool-cases (same_text word (codes "SELL"))) [
      | inl sell ↦
          let c = create_order-Created str t products false (simp sell at h1) in
          (
            word,
            rest,
            e1,
            subst (NamesSide word) (sym c.side) (same_text-eq word (codes "SELL") sell),
            subst (λ b. Created products t b t' o) (sym c.side) c,
          )
      | inr no_sell ↦ elim (Bool-cases (same_text word (codes "BUY"))) [
        | inl buy ↦
            let c = create_order-Created str t products true (simp (no_sell, buy) at h1) in
            (
              word,
              rest,
              e1,
              subst (NamesSide word) (sym c.side) (same_text-eq word (codes "BUY") buy),
              subst (λ b. Created products t b t' o) (sym c.side) c,
            )
        | inr no_buy ↦ absurd (none-ne-some (simp (no_sell, no_buy) at h1))
      ]
    ]
