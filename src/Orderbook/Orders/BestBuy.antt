-- ===== src/Orderbook/Orders/BestBuy.antt =====
-- Which buy order `find_best_buy` takes: the most expensive, and the oldest at that price.
use pe_exchange.Common.{
  ℕ, suc, ◌≤◌, ◌<◌, ◌≡◌, refl, sym, subst, inl, inr, [], ◌∷◌, ◌++◌, Option, none, some, ltb, leb,
  if◌then◌else◌, Bool-cases, lt→ltb, le→not-ltb, arith, get_elem?, length, get_elem?-snoc,
  get_elem?-snoc_old, get_elem?-snoc_last, length-snoc, snoc-append, append-nil,
  get_elem?-lt-length,
}
use pe_exchange.Types.{Order, Orderbook}
use pe_exchange.Orderbook.Orders.{dearest_from, best_buy_in}

-- Position `k` holds the first of the most expensive orders.
pub record IsDearest (os : Orderbook) (k : ℕ) (o : Order) : Type 0 where
  pub there : get_elem? os k ≡ some o
  pub dearest : (j : ℕ) (x : Order) → get_elem? os j ≡ some x → x.price ≤ o.price
  pub oldest : (j : ℕ) (x : Order) → get_elem? os j ≡ some x → j < k → x.price < o.price

-- The loop starts with no order and the price 0, so an order at price 0 would never be taken.
abbrev Dearest : Orderbook → Option (ℕ × Order) × ℕ → Type 0
Dearest os (none, m) = (m ≡ 0) × ((j : ℕ) (x : Order) → get_elem? os j ≡ some x → x.price ≤ 0)
Dearest os (some (k, o), m) = (m ≡ o.price) × IsDearest os k o

Dearest-bound :
    (os : Orderbook) (best : Option (ℕ × Order)) (m : ℕ)
    → Dearest os (best, m)
    → (j : ℕ) (x : Order) → get_elem? os j ≡ some x
    → x.price ≤ m
Dearest-bound os none m d j x e = omega (arith, d.1 j x e)
Dearest-bound os (some (k, o)) m d j x e = omega (arith, d.1.dearest j x e)

-- A later order that is no better changes nothing.
Dearest-snoc :
    (os : Orderbook) (best : Option (ℕ × Order)) (m : ℕ) (o : Order)
    → Dearest os (best, m)
    → o.price ≤ m
    → Dearest (os ++ (o ∷ [])) (best, m)
Dearest-snoc os none m o d h = (
  d.0,
  λ j x e. elim (get_elem?-snoc os o j e) [ inl old ↦ d.1 j x old | inr (_, same) ↦ ground arith ],
)
Dearest-snoc os (some (k, b)) m o d h = (
  d.0,
  record {
    there = get_elem?-snoc_old os o k d.1.there;
    dearest = λ j x e. elim (get_elem?-snoc os o j e) [
      | inl old ↦ d.1.dearest j x old
      | inr (_, same) ↦ ground arith
    ];
    oldest = λ j x e lt. elim (get_elem?-snoc os o j e) [
      | inl old ↦ d.1.oldest j x old lt
      | inr (at, same) ↦ absurd (omega (arith, get_elem?-lt-length os k d.1.there))
    ];
  },
)

Dearest-better :
    (os : Orderbook) (best : Option (ℕ × Order)) (m : ℕ) (o : Order)
    → Dearest os (best, m)
    → m < o.price
    → Dearest (os ++ (o ∷ [])) (some (length os, o), o.price)
Dearest-better os best m o d h = (
  refl,
  record {
    there = get_elem?-snoc_last os o;
    dearest = λ j x e. elim (get_elem?-snoc os o j e) [
      | inl old ↦ omega (arith, Dearest-bound os best m d j x old)
      | inr (_, same) ↦ ground arith
    ];
    oldest = λ j x e lt. elim (get_elem?-snoc os o j e) [
      | inl old ↦ omega (arith, Dearest-bound os best m d j x old)
      | inr (at, same) ↦ absurd (omega arith)
    ];
  },
)

dearest_from_better :
    (o : Order) (os : Orderbook) (i : ℕ) (best : Option (ℕ × Order)) (m : ℕ)
    → m < o.price
    → dearest_from (o ∷ os) i best m ≡ dearest_from os (suc i) (some (i, o)) o.price
unfolding dearest_from
dearest_from_better o os i best m h = rw (lt→ltb m o.price h)

dearest_from_worse :
    (o : Order) (os : Orderbook) (i : ℕ) (best : Option (ℕ × Order)) (m : ℕ)
    → o.price ≤ m
    → dearest_from (o ∷ os) i best m ≡ dearest_from os (suc i) best m
unfolding dearest_from
dearest_from_worse o os i best m h = rw (le→not-ltb o.price m h)

dearest_from-Dearest :
    (pre os : Orderbook) (best : Option (ℕ × Order)) (m : ℕ)
    → Dearest pre (best, m)
    → Dearest (pre ++ os) (dearest_from os (length pre) best m)
unfolding dearest_from
dearest_from-Dearest pre [] best m d = subst (λ os. Dearest os (best, m)) (sym (append-nil pre)) d
dearest_from-Dearest pre (o ∷ os) best m d = elim (Bool-cases (ltb m o.price)) [
  | inl better ↦
      let h : m < o.price = ground arith in
      rw (dearest_from_better o os (length pre) best m h) (
        rw (snoc-append pre os o, length-snoc pre o) at
          (dearest_from-Dearest (pre ++ (o ∷ [])) os (some (length pre, o)) o.price
            (Dearest-better pre best m o d h)))
  | inr worse ↦
      let h : o.price ≤ m = ground arith in
      rw (dearest_from_worse o os (length pre) best m h) (
        rw (snoc-append pre os o, length-snoc pre o) at
          (dearest_from-Dearest (pre ++ (o ∷ [])) os best m (Dearest-snoc pre best m o d h)))
]

-- The choice for a sell order with a price limit.
abbrev pub ChosenBuy : Orderbook → ℕ → Option (ℕ × Order) → Type 0
ChosenBuy os limit none = (j : ℕ) (x : Order) → get_elem? os j ≡ some x → x.price < limit
ChosenBuy os limit (some (k, o)) = IsDearest os k o × (limit ≤ o.price)

chosen_buy :
    (os : Orderbook) (limit : ℕ) (best : Option (ℕ × Order)) (m : ℕ)
    → 1 ≤ limit
    → Dearest os (best, m)
    → ChosenBuy os limit (if leb limit m then best else none)
chosen_buy os limit none m l d = elim (Bool-cases (leb limit m)) [
  | inl fits ↦ absurd (ground arith)
  | inr cheap ↦ rw cheap (λ j x e. ground (arith, d.1 j x e))
]
chosen_buy os limit (some (k, o)) m l d = elim (Bool-cases (leb limit m)) [
  | inl fits ↦ rw fits (d.1, ground arith)
  | inr cheap ↦ rw cheap (λ j x e. ground (arith, d.1.dearest j x e))
]

-- For a positive limit, the search of `find_best_buy` takes the dearest buy order, and the oldest
-- of those at that price, if its price is no lower than the limit; it takes none only if every buy
-- order is below the limit.
pub best_buy_in-ChosenBuy :
    (os : Orderbook) (limit : ℕ) → 1 ≤ limit → ChosenBuy os limit (best_buy_in os limit)
unfolding best_buy_in
best_buy_in-ChosenBuy os limit l =
    chosen_buy os limit (dearest_from os 0 none 0).0 (dearest_from os 0 none 0).1 l
      (dearest_from-Dearest [] os none 0 (refl, λ j x e. cc))
