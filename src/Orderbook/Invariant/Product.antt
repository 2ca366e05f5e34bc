-- ===== src/Orderbook/Invariant/Product.antt =====
-- One product: its two books and its printed orderbook, and the invariant of all products.
use pe_exchange.Common.{
  All-map, All-set, All-erase_at, All-append, ℕ, ◌+◌, ◌-◌, ◌≤◌, ◌<◌, ◌≡◌, refl, sym, subst, ◌∙◌,
  Bool, true, false, List, [], ◌∷◌, ◌++◌, some, arith, ℕ_discrete, int_max, All, All-get_elem?,
  get_elem?, erase_at, set, modify, get_elem?-modify_ne, get_elem?-modify_inv,
}
use pe_exchange.Types.{Order, Orderbook, PrintedOrderbook}
use pe_exchange.Orderbook.Levels.{set_len, add_to_prints, delete_order_prints}
use pe_exchange.Orderbook.Levels.Descending.{book_quantity}
use pe_exchange.Orderbook.Levels.Shows.{IsOrder}
use pe_exchange.Orderbook.Invariant.Side.{Belongs, SideOk, SideOk-remove, SideOk-add, SideOk-shrink}

-- Every buy order is below the price.
abbrev pub Under : Orderbook → ℕ → Type 0
Under bs p = All (λ b. b.price < p) bs

-- Every sell order is above the price.
abbrev pub Over : ℕ → Orderbook → Type 0
Over p ss = All (λ x. p < x.price) ss

-- `apart`: no buy order meets the price of a sell order.
pub record ProductOk (i m : ℕ) (bs ss : Orderbook) (b : PrintedOrderbook) : Type 0 where
  pub buys : SideOk i true m b.head_buy b.buy_len bs
  pub sells : SideOk i false m b.head_sell b.sell_len ss
  pub apart : All (λ x. Over x.price ss) bs

-- What `cancel_order_prints` and `add_order_prints` do to the printed orderbook of the product.
abbrev pub cancelled : Order → PrintedOrderbook → PrintedOrderbook
cancelled o b = set_len (delete_order_prints b o) o.is_buy

abbrev pub added : Order → PrintedOrderbook → PrintedOrderbook
added o b = set_len (add_to_prints b o o.is_buy) o.is_buy

Over-snoc :
    (ss bs : Orderbook) (o : Order)
    → All (λ x. Over x.price ss) bs
    → Under bs o.price
    → All (λ x. Over x.price (ss ++ (o ∷ []))) bs
Over-snoc ss [] o h a = tt
Over-snoc ss (x ∷ bs) o h a =
    (All-append (λ y. x.price < y.price) ss (o ∷ []) h.0 (a.0, tt), Over-snoc ss bs o h.1 a.1)

module _ (i m : ℕ) (bs ss : Orderbook) (b : PrintedOrderbook) (ok : ProductOk i m bs ss b) where
  pub cancelled_buy :
      (k : ℕ) (o : Order)
      → get_elem? bs k ≡ some o
      → ProductOk i m (erase_at bs k) ss (cancelled o b)
  unfolding set_len delete_order_prints
  cancelled_buy k o e =
      simp ((All-get_elem? (Belongs i true m) bs k ok.buys.belong e).side) (record {
        buys = SideOk-remove i true m b.head_buy b.buy_len bs k o ok.buys e;
        sells = ok.sells;
        apart = All-erase_at (λ x. Over x.price ss) bs k ok.apart;
      })

  pub cancelled_sell :
      (k : ℕ) (o : Order)
      → get_elem? ss k ≡ some o
      → ProductOk i m bs (erase_at ss k) (cancelled o b)
  unfolding set_len delete_order_prints
  cancelled_sell k o e =
      simp ((All-get_elem? (Belongs i false m) ss k ok.sells.belong e).side) (record {
        buys = ok.buys;
        sells = SideOk-remove i false m b.head_sell b.sell_len ss k o ok.sells e;
        apart =
            All-map (λ x. Over x.price ss) (λ x. Over x.price (erase_at ss k))
              (λ x h. All-erase_at (λ y. x.price < y.price) ss k h) bs ok.apart;
      })

  pub added_buy :
      (o : Order)
      → IsOrder o
      → Belongs i true m o
      → book_quantity o.price bs + o.quantity < int_max
      → Over o.price ss
      → ProductOk i m (bs ++ (o ∷ [])) ss (added o b)
  unfolding set_len add_to_prints
  added_buy o v w f a = simp (w.side) (record {
    buys = SideOk-add i true m b.head_buy b.buy_len bs o ok.buys v w f;
    sells = ok.sells;
    apart = All-append (λ x. Over x.price ss) bs (o ∷ []) ok.apart (a, tt);
  })

  pub added_sell :
      (o : Order)
      → IsOrder o
      → Belongs i false m o
      → book_quantity o.price ss + o.quantity < int_max
      → Under bs o.price
      → ProductOk i m bs (ss ++ (o ∷ [])) (added o b)
  unfolding set_len add_to_prints
  added_sell o v w f a = simp (w.side) (record {
    buys = ok.buys;
    sells = SideOk-add i false m b.head_sell b.sell_len ss o ok.sells v w f;
    apart = Over-snoc ss bs o ok.apart a;
  })

-- The order `o` with less quantity.
abbrev pub reduced : Order → ℕ → Order
reduced o filled = record o { quantity = o.quantity - filled }

IsOrder-reduced :
    (o : Order) (filled : ℕ) → IsOrder o → filled < o.quantity → IsOrder (reduced o filled)
IsOrder-reduced o filled v h = omega arith

Belongs-reduced :
    (i m filled : ℕ) (is_buy : Bool) (o : Order)
    → Belongs i is_buy m o
    → Belongs i is_buy m (reduced o filled)
Belongs-reduced i m filled is_buy o b = record {
  product = b.product;
  side = b.side;
  trader = b.trader;
}

module _ (i m : ℕ) (bs ss : Orderbook) (b : PrintedOrderbook) (ok : ProductOk i m bs ss b) where
  replaced_buy :
      (k : ℕ) (o v : Order)
      → get_elem? bs k ≡ some o
      → IsOrder v
      → Belongs i true m v
      → v.price ≡ o.price
      → v.quantity ≤ o.quantity
      → ProductOk i m (set bs k v) ss (added v (cancelled o b))
  unfolding set_len add_to_prints delete_order_prints
  replaced_buy k o v e h w same less =
      let w' : Belongs i true m o = All-get_elem? (Belongs i true m) bs k ok.buys.belong e in
      simp (w.side, w'.side)
        (record {
          buys = SideOk-shrink i true m b.head_buy b.buy_len bs k o v ok.buys e h w same less;
          sells = ok.sells;
          apart =
              All-set (λ x. Over x.price ss) bs k v ok.apart
                (rw same (All-get_elem? (λ x. Over x.price ss) bs k ok.apart e));
        })

  replaced_sell :
      (k : ℕ) (o v : Order)
      → get_elem? ss k ≡ some o
      → IsOrder v
      → Belongs i false m v
      → v.price ≡ o.price
      → v.quantity ≤ o.quantity
      → ProductOk i m bs (set ss k v) (added v (cancelled o b))
  unfolding set_len add_to_prints delete_order_prints
  replaced_sell k o v e h w same less =
      let w' : Belongs i false m o = All-get_elem? (Belongs i false m) ss k ok.sells.belong e in
      simp (w.side, w'.side)
        (record {
          buys = ok.buys;
          sells = SideOk-shrink i false m b.head_sell b.sell_len ss k o v ok.sells e h w same less;
          apart =
              All-map (λ x. Over x.price ss) (λ x. Over x.price (set ss k v))
                (λ x h'.
                  All-set (λ y. x.price < y.price) ss k v h'
                    (rw same (All-get_elem? (λ y. x.price < y.price) ss k h' e)))
                bs ok.apart;
        })

  pub shrunk_buy :
      (k filled : ℕ) (o : Order)
      → get_elem? bs k ≡ some o
      → filled < o.quantity
      → ProductOk i m (set bs k (reduced o filled)) ss (added (reduced o filled) (cancelled o b))
  shrunk_buy k filled o e h =
      replaced_buy k o (reduced o filled) e
        (IsOrder-reduced o filled (All-get_elem? IsOrder bs k ok.buys.orders e) h)
        (Belongs-reduced i m filled true o (All-get_elem? (Belongs i true m) bs k ok.buys.belong e))
        refl (omega arith)

  pub shrunk_sell :
      (k filled : ℕ) (o : Order)
      → get_elem? ss k ≡ some o
      → filled < o.quantity
      → ProductOk i m bs (set ss k (reduced o filled)) (added (reduced o filled) (cancelled o b))
  shrunk_sell k filled o e h =
      replaced_sell k o (reduced o filled) e
        (IsOrder-reduced o filled (All-get_elem? IsOrder ss k ok.sells.orders e) h)
        (Belongs-reduced i m filled false o
          (All-get_elem? (Belongs i false m) ss k ok.sells.belong e))
        refl (omega arith)

-- Every product is in order.
abbrev pub ProductsOk : ℕ → List Orderbook → List Orderbook → List PrintedOrderbook → Type 0
ProductsOk m bss sss ps =
    (i : ℕ) (bs ss : Orderbook) (b : PrintedOrderbook)
    → get_elem? bss i ≡ some bs
    → get_elem? sss i ≡ some ss
    → get_elem? ps i ≡ some b
    → ProductOk i m bs ss b

-- A change of product `i` alone.
pub ProductsOk-modify :
    (m i : ℕ) (bss sss : List Orderbook) (ps : List PrintedOrderbook) (f g : Orderbook → Orderbook)
    (h : PrintedOrderbook → PrintedOrderbook)
    → ProductsOk m bss sss ps
    → ((bs ss : Orderbook) (b : PrintedOrderbook)
        → get_elem? bss i ≡ some bs
        → get_elem? sss i ≡ some ss
        → get_elem? ps i ≡ some b
        → ProductOk i m bs ss b
        → ProductOk i m (f bs) (g ss) (h b))
    → ProductsOk m (modify bss i f) (modify sss i g) (modify ps i h)
ProductsOk-modify m i bss sss ps f g h ok keep j bs ss b eb es ep = elim (ℕ_discrete i j) [
  | yes same ↦
      at_product (subst (λ k. get_elem? (modify bss i f) k ≡ some bs) (sym same) eb)
        (subst (λ k. get_elem? (modify sss i g) k ≡ some ss) (sym same) es)
        (subst (λ k. get_elem? (modify ps i h) k ≡ some b) (sym same) ep) same
  | no other ↦
      ok j bs ss b (sym (get_elem?-modify_ne bss f other) ∙ eb)
        (sym (get_elem?-modify_ne sss g other) ∙ es) (sym (get_elem?-modify_ne ps h other) ∙ ep)
]
  where
    at_product :
        get_elem? (modify bss i f) i ≡ some bs
        → get_elem? (modify sss i g) i ≡ some ss
        → get_elem? (modify ps i h) i ≡ some b
        → i ≡ j
        → ProductOk j m bs ss b
    at_product eb' es' ep' same =
        let x = get_elem?-modify_inv bss i f eb' in
        let y = get_elem?-modify_inv sss i g es' in
        let z = get_elem?-modify_inv ps i h ep' in
        let now : ProductOk i m (f x.0) (g y.0) (h z.0) =
          keep x.0 y.0 z.0 x.1 y.1 z.1 (ok i x.0 y.0 z.0 x.1 y.1 z.1) in
        rw (same, x.2, y.2, z.2) at now
