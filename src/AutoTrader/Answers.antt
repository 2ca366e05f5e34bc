-- ===== src/AutoTrader/Answers.antt =====
-- An offer that the exchange announces, the order that the trader sends for it, and that order at the
-- exchange.
use pe_exchange.Common.{
  ◌>>=◌, ℕ, suc, ◌≤◌, ◌≡◌, refl, ap, ◌∙◌, true, false, List, ◌∷◌, ◌++◌, Option, none, some, ◌==◌,
  if◌then◌else◌, arith, add_int,
}
use pe_exchange.Common.Text.{Bytes, codes, show}
use pe_exchange.Common.Scan.{same_text}
use pe_exchange.Common.Scan.Numeral.{IsWord, scan_word-append}
use pe_exchange.Types.{Order, Trader}
use pe_exchange.Orderbook.Create.{
  Fields, find_product, out_of_range, make_order, create_order, create_buy_sell_order, max_int,
}
use pe_exchange.Pipes.Writing.{market_msg}
use pe_exchange.AutoTrader.{create_buy_order, create_buy_str}
use pe_exchange.AutoTrader.Lengths.{show_int-pos}
use pe_exchange.AutoTrader.Texts.{
  order_text, buy-IsWord, scan_order-text, create_buy_order-market_msg,
}

-- An order as the exchange accepts it: within the limits.
pub record IsOffer (product : Bytes) (id quantity price : ℕ) : Type 0 where
  pub word : IsWord product
  pub id_max : id ≤ max_int
  pub quantity_pos : 1 ≤ quantity
  pub quantity_max : quantity ≤ max_int
  pub price_pos : 1 ≤ price
  pub price_max : price ≤ max_int

in_range : (low x : ℕ) → low ≤ x → x ≤ max_int → out_of_range low x ≡ false
unfolding out_of_range
in_range low x h k = ground arith

module _ (products : List Bytes) (prod : ℕ) (t : Trader) (product : Bytes)
    (quantity price : ℕ) where
  abbrev made : Order
  made = record {
    product = product;
    quantity = quantity;
    price = price;
    order_id = t.order_id;
    product_id = prod;
    trader_id = t.id;
    is_buy = true;
  }

  made_order :
      IsOffer product t.order_id quantity price
      → make_order
          (record { order_id = t.order_id; product = product; quantity = quantity; price = price })
          prod
          t
          true
        ≡ some (record t { order_id = suc t.order_id }, made)
  unfolding make_order
  made_order f =
      let same : (t.order_id == t.order_id) ≡ true = ground arith in
      simp
        (
          in_range 1 quantity f.quantity_pos f.quantity_max,
          in_range 1 price f.price_pos f.price_max,
          in_range 0 t.order_id (omega arith) f.id_max,
          same,
        )
        refl

  abbrev buy_text : Bytes
  buy_text = codes "BUY" ++ order_text t.order_id product quantity price

  buy_text-create_order :
      IsOffer product t.order_id quantity price
      → find_product product products 0 ≡ some prod
      → create_order buy_text t products true ≡ some (record t { order_id = suc t.order_id }, made)
  unfolding create_order
  buy_text-create_order f e =
      let fields : Fields = record {
        order_id = t.order_id;
        product = product;
        quantity = quantity;
        price = price;
      } in
      ap (λ r. r >>= λ f'. find_product f'.product products 0 >>= λ p. make_order f' p t true)
        (scan_order-text (codes "BUY") product t.order_id quantity price buy-IsWord f.word
          (omega (arith, f.id_max)) (omega (arith, f.quantity_max)) (omega (arith, f.price_max)))
      ∙ ap (λ r. r >>= λ p. make_order fields p t true) e
      ∙ made_order f

  buy_text-create_buy_sell_order :
      IsOffer product t.order_id quantity price
      → find_product product products 0 ≡ some prod
      → create_buy_sell_order buy_text t products
        ≡ some (record t { order_id = suc t.order_id }, made)
  unfolding create_buy_sell_order same_text
  buy_text-create_buy_sell_order f e =
      let x1 =
        show t.order_id
        ++ (32 ∷ (product ++ (32 ∷ (show quantity ++ (32 ∷ (show price ++ codes ";")))))) in
      ap
        (λ (r : Option (Bytes × Bytes)). r >>= λ w.
          if same_text w.0 (codes "SELL")
          then create_order buy_text t products false
          else if same_text w.0 (codes "BUY")
          then create_order buy_text t products true
          else none)
        (scan_word-append (codes "BUY") x1 buy-IsWord)
      ∙ buy_text-create_order f e

  -- The order that `create_buy_order` makes.
  abbrev bought : Order
  bought = record {
    product = product;
    quantity = quantity;
    price = price;
    order_id = t.order_id;
    product_id = 0;
    trader_id = 0;
    is_buy = false;
  }

  bought_text : IsOffer product t.order_id quantity price → create_buy_str bought ≡ buy_text
  unfolding create_buy_str
  bought_text f =
      rw
        (
          show_int-pos t.order_id (omega (arith, f.id_max)),
          show_int-pos quantity (omega (arith, f.quantity_max)),
          show_int-pos price (omega (arith, f.price_max)),
        )
        refl

  -- For an offer of a product whose name is one word and is known to the exchange, with quantity,
  -- price and the next order ID within the limits, `create_buy_order` makes of the announcement of
  -- the exchange an order for all of it, and the text that `create_buy_str` writes for this order
  -- is accepted by the exchange's `create_buy_sell_order` as a buy order for the same product,
  -- quantity and price, if the exchange expects the same ID from the trader; both move on to the
  -- next ID.
  pub create_buy_str-create_buy_sell_order :
      IsOffer product t.order_id quantity price
      → find_product product products 0 ≡ some prod
      → (create_buy_order (market_msg false product quantity price) t.order_id
          ≡ some (bought, suc t.order_id))
        × (create_buy_sell_order (create_buy_str bought) t products
            ≡ some (record t { order_id = suc t.order_id }, made))
  create_buy_str-create_buy_sell_order f e =
      let next : add_int t.order_id 1 ≡ suc t.order_id = omega (arith, f.id_max) in
      (
        create_buy_order-market_msg (codes "BUY") product t.order_id quantity price buy-IsWord
              f.word (omega (arith, f.id_max)) (omega (arith, f.quantity_max))
              (omega (arith, f.price_max))
            ∙ ap (λ (k : ℕ). some (bought, k)) next,
        rw (bought_text f) (buy_text-create_buy_sell_order f e),
      )
