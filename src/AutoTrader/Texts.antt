-- ===== src/AutoTrader/Texts.antt =====
-- The texts of an offer and of an order, scanned.
use pe_exchange.Common.{ℕ, ◌<◌, ◌≡◌, refl, ap, ◌∙◌, false, ◌∷◌, ◌++◌, some, arith, int_max, add_int}
use pe_exchange.Common.Text.{Bytes, codes, show}
use pe_exchange.Common.Scan.{is_space, is_digit}
use pe_exchange.Common.Scan.Bounds.{same_text_refl}
use pe_exchange.Common.Scan.Numeral.{
  NoDigit, IsWord, scan_int-show, scan_word-append, scan_word-space, scan_int-space,
}
use pe_exchange.Orderbook.Create.{scan_order}
use pe_exchange.Pipes.Writing.{market_msg}
use pe_exchange.AutoTrader.{scan_offer, fill_price, fill_quantity, fill_product, create_buy_order}

-- The text after the first word of an order.
abbrev pub order_text : ℕ → Bytes → ℕ → ℕ → Bytes
order_text id product quantity price =
    32 ∷ (show id ++ (32 ∷ (product ++ (32 ∷ (show quantity ++ (32 ∷ (show price ++ codes ";")))))))

no_digit : (s : Bytes) → NoDigit (32 ∷ s)
unfolding is_digit
no_digit s = refl

end-NoDigit : NoDigit (codes ";")
unfolding is_digit
end-NoDigit = refl

market-IsWord : IsWord (codes "MARKET")
unfolding is_space
market-IsWord = record {
  some_character = omega arith;
  no_space = (refl, (refl, (refl, (refl, (refl, (refl, tt))))));
}

sell-IsWord : IsWord (codes "SELL")
unfolding is_space
sell-IsWord = record { some_character = omega arith; no_space = (refl, (refl, (refl, (refl, tt)))) }

pub buy-IsWord : IsWord (codes "BUY")
unfolding is_space
buy-IsWord = record { some_character = omega arith; no_space = (refl, (refl, (refl, tt))) }

module _ (word product : Bytes) (id quantity price : ℕ) (w : IsWord word) (pw : IsWord product)
    (hi : id < int_max) (hq : quantity < int_max) (hp : price < int_max) where
  pub scan_order-text :
      scan_order (word ++ order_text id product quantity price)
      ≡ some (record { order_id = id; product = product; quantity = quantity; price = price })
  unfolding scan_order
  scan_order-text =
      let x4 = show price ++ codes ";" in
      let x3 = show quantity ++ (32 ∷ x4) in
      let x2 = product ++ (32 ∷ x3) in
      let x1 = show id ++ (32 ∷ x2) in
      let e1 = scan_word-append word x1 w in
      let e2 = scan_int-space x1 ∙ scan_int-show id (32 ∷ x2) hi (no_digit x2) in
      let e3 = scan_word-space x2 ∙ scan_word-append product x3 pw in
      let e4 = scan_int-space x3 ∙ scan_int-show quantity (32 ∷ x4) hq (no_digit x4) in
      let e5 = scan_int-space x4 ∙ scan_int-show price (codes ";") hp end-NoDigit in
      simp (e1, e2, e3, e4, e5) refl

  scan_offer-text :
      scan_offer (32 ∷ (product ++ (32 ∷ (show quantity ++ (32 ∷ (show price ++ codes ";"))))))
      ≡ (product, quantity, price)
  unfolding scan_offer fill_price
  scan_offer-text =
      let x4 = show price ++ codes ";" in
      let x3 = show quantity ++ (32 ∷ x4) in
      let x2 = product ++ (32 ∷ x3) in
      let e3 = scan_word-space x2 ∙ scan_word-append product x3 pw in
      let e4 = scan_int-space x3 ∙ scan_int-show quantity (32 ∷ x4) hq (no_digit x4) in
      let e5 = scan_int-space x4 ∙ scan_int-show price (codes ";") hp end-NoDigit in
      ap fill_product e3 ∙ ap (fill_quantity product) e4 ∙ ap (fill_price product quantity) e5

  -- The offer that `write_accepted` announces for a sell order is answered with an order for all of it.
  pub create_buy_order-market_msg :
      create_buy_order (market_msg false product quantity price) id
      ≡ some (
        record {
          product = product;
          quantity = quantity;
          price = price;
          order_id = id;
          product_id = 0;
          trader_id = 0;
          is_buy = false;
        },
        add_int id 1,
      )
  unfolding create_buy_order market_msg
  create_buy_order-market_msg =
      let x = 32 ∷ (product ++ (32 ∷ (show quantity ++ (32 ∷ (show price ++ codes ";"))))) in
      let e1 = scan_word-append (codes "MARKET") (codes "SELL" ++ x) market-IsWord in
      let e2 =
        scan_word-space (codes "SELL" ++ x)
        ∙ scan_word-append (codes "SELL")
            (product ++ (32 ∷ (show quantity ++ (32 ∷ (show price ++ codes ";"))))) sell-IsWord in
      simp (e1, e2, scan_offer-text, same_text_refl (codes "MARKET"), same_text_refl (codes "SELL"))
        refl
