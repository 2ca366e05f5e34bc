-- ===== src/Orderbook/Orders/BestSell.antt =====
-- Which sell order `find_best_sell` takes: the cheapest, and the oldest at that price.
use pe_exchange.Common.{
  ℕ, suc, ◌≤◌, ◌<◌, ◌≡◌, refl, inl, inr, [], ◌∷◌, ◌++◌, Option, none, some, ltb, leb, if◌then◌else◌,
  Bool-cases, lt→ltb, le→not-ltb, arith, get_elem?, length, get_elem?-snoc, get_elem?-snoc_old,
  get_elem?-snoc_last, length-snoc, snoc-append, append-nil, get_elem?-lt-length,
}
use pe_exchange.Types.{Order, Orderbook}
use pe_exchange.Orderbook.Orders.{cheapest_from, best_sell_in}

-- Position `k` holds the first of the cheapest orders.
pub record IsCheapest (os : Orderbook) (k : ℕ) (o : Order) : Type 0 where
  pub there : get_elem? os k ≡ some o
  pub cheapest : (j : ℕ) (x : Order) → get_elem? os j ≡ some x → o.price ≤ x.price
  pub oldest : (j : ℕ) (x : Order) → get_elem? os j ≡ some x → j < k → o.price < x.price

IsCheapest-snoc :
    (os : Orderbook) (k : ℕ) (b o : Order)
    → IsCheapest os k b
    → b.price ≤ o.price
    → IsCheapest (os ++ (o ∷ [])) k b
IsCheapest-snoc os k b o c h = record {
  there = get_elem?-snoc_old os o k c.there;
  cheapest = λ j x e. elim (get_elem?-snoc os o j e) [
    | inl old ↦ c.cheapest j x old
    | inr (_, same) ↦ ground arith
  ];
  oldest = λ j x e lt. elim (get_elem?-snoc os o j e) [
    | inl old ↦ c.oldest j x old lt
    | inr (at, same) ↦ absurd (omega (arith, get_elem?-lt-length os k c.there))
  ];
}

IsCheapest-better :
    (os : Orderbook) (k : ℕ) (b o : Order)
    → IsCheapest os k b
    → o.price < b.price
    → IsCheapest (os ++ (o ∷ [])) (length os) o
IsCheapest-better os k b o c h = record {
  there = get_elem?-snoc_last os o;
  cheapest = λ j x e. elim (get_elem?-snoc os o j e) [
    | inl old ↦ omega (arith, c.cheapest j x old)
    | inr (_, same) ↦ ground arith
  ];
  oldest = λ j x e lt. elim (get_elem?-snoc os o j e) [
    | inl old ↦ omega (arith, c.cheapest j x old)
    | inr (at, same) ↦ absurd (omega arith)
  ];
}

abbrev Cheapest : Orderbook → (ℕ × Order) × ℕ → Type 0
Cheapest os ((k, o), p) = IsCheapest os k o × (p ≡ o.price)

cheapest_from_better :
    (o : Order) (os : Orderbook) (i : ℕ) (best : ℕ × Order) (min_price : ℕ)
    → o.price < min_price
    → cheapest_from (o ∷ os) i best min_price ≡ cheapest_from os (suc i) (i, o) o.price
unfolding cheapest_from
cheapest_from_better o os i best min_price h = rw (lt→ltb o.price min_price h)

cheapest_from_worse :
    (o : Order) (os : Orderbook) (i : ℕ) (best : ℕ × Order) (min_price : ℕ)
    → min_price ≤ o.price
    → cheapest_from (o ∷ os) i best min_price ≡ cheapest_from os (suc i) best min_price
unfolding cheapest_from
cheapest_from_worse o os i best min_price h = rw (le→not-ltb min_price o.price h)

cheapest_from-Cheapest :
    (pre os : Orderbook) (k : ℕ) (b : Order)
    → IsCheapest pre k b
    → Cheapest (pre ++ os) (cheapest_from os (length pre) (k, b) b.price)
unfolding cheapest_from
cheapest_from-Cheapest pre [] k b c = rw (append-nil pre) (c, refl)
cheapest_from-Cheapest pre (o ∷ os) k b c = elim (Bool-cases (ltb o.price b.price)) [
  | inl better ↦
      let h : o.price < b.price = ground arith in
      rw (cheapest_from_better o os (length pre) (k, b) b.price h) (
        rw (snoc-append pre os o, length-snoc pre o) at
          (cheapest_from-Cheapest (pre ++ (o ∷ [])) os (length pre) o
            (IsCheapest-better pre k b o c h)))
  | inr worse ↦
      let h : b.price ≤ o.price = ground arith in
      rw (cheapest_from_worse o os (length pre) (k, b) b.price h) (
        rw (snoc-append pre os o, length-snoc pre o) at
          (cheapest_from-Cheapest (pre ++ (o ∷ [])) os k b (IsCheapest-snoc pre k b o c h)))
]

-- The choice for a buy order with a price limit.
abbrev pub ChosenSell : Orderbook → ℕ → Option (ℕ × Order) → Type 0
ChosenSell os limit none = (j : ℕ) (x : Order) → get_elem? os j ≡ some x → limit < x.price
ChosenSell os limit (some (k, o)) = IsCheapest os k o × (o.price ≤ limit)

chosen_sell :
    (os : Orderbook) (limit : ℕ) (r : (ℕ × Order) × ℕ)
    → Cheapest os r
    → ChosenSell os limit (if leb r.1 limit then some r.0 else none)
chosen_sell os limit ((k, o), p) (c, e) = elim (Bool-cases (leb p limit)) [
  | inl fits ↦ rw fits (c, ground arith)
  | inr dear ↦ rw dear (λ j x h. ground (arith, c.cheapest j x h))
]

-- The search of `find_best_sell` takes the cheapest sell order, and the oldest of those at that
-- price, if its price is within the limit; it takes none only if every sell order is above the
-- limit.
pub best_sell_in-ChosenSell :
    (os : Orderbook) (limit : ℕ) → ChosenSell os limit (best_sell_in os limit)
unfolding best_sell_in
best_sell_in-ChosenSell [] limit = λ j x e. cc
best_sell_in-ChosenSell (o ∷ os) limit =
    chosen_sell (o ∷ os) limit (cheapest_from (o ∷ os) 0 (0, o) o.price) (
      rw (cheapest_from_worse o os 0 (0, o) o.price (omega arith))
        (cheapest_from-Cheapest (o ∷ []) os 0 o first))
  where
    first : IsCheapest (o ∷ []) 0 o
    first = record {
      there = refl;
      cheapest =
          λ j x e. elim (get_elem?-snoc [] o j e) [ inl h ↦ cc | inr (_, same) ↦ ground arith ];
      oldest = λ j x e h. absurd (omega arith);
    }
