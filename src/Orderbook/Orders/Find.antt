-- ===== src/Orderbook/Orders/Find.antt =====
-- `find_order`: the first order with the given ID of the given trader, or none if there is no such order.
use pe_exchange.Common.{
  subst, ℕ_discrete, ℕ, zero, suc, ◌+◌, ◌≤◌, ◌<◌, ◌≡◌, refl, ap, inl, inr, true, false, ◌&&◌, List,
  [], ◌∷◌, Option, none, some, ◌==◌, if◌then◌else◌, Bool-cases, Option-cases, arith, All, get_elem?,
  get_or,
}
use pe_exchange.Types.{Order, Orderbook}
use pe_exchange.Orderbook.Orders.{Found, find_in, found_in, find_order_from, find_order}

-- The order is the trader's order `id`.
abbrev pub IsNamed : ℕ → ℕ → Order → Type 0
IsNamed trader_id id o = (o.order_id ≡ id) × (o.trader_id ≡ trader_id)

-- The book that a found order stands in.
abbrev pub book_of : List Orderbook → List Orderbook → Found → Orderbook
book_of buys sells f = get_or (if f.is_buy then buys else sells) f.product []

pub record FoundAt (num_products trader_id id : ℕ) (buys sells : List Orderbook) (f : Found)
    : Type 0 where
  pub product : f.product < num_products
  pub named : IsNamed trader_id id f.order
  pub there : get_elem? (book_of buys sells f) f.position ≡ some f.order

-- What a search of one book comes to.
abbrev Searched : ℕ → ℕ → Orderbook → ℕ → Option (ℕ × Order) → Type 0
Searched trader_id id os i none = All (λ o. ¬ IsNamed trader_id id o) os
Searched trader_id id os i (some (k, o)) =
    (j : ℕ) × (k ≡ i + j) × (get_elem? os j ≡ some o) × IsNamed trader_id id o

Searched-next :
    (trader_id id : ℕ) (o : Order) (os : Orderbook) (i : ℕ) (r : Option (ℕ × Order))
    → ¬ IsNamed trader_id id o
    → Searched trader_id id os (suc i) r
    → Searched trader_id id (o ∷ os) i r
Searched-next trader_id id o os i none h s = (h, s)
Searched-next trader_id id o os i (some (k, x)) h (j, at, there, named) =
    (suc j, omega arith, there, named)

find_in-Searched :
    (trader_id id : ℕ) (os : Orderbook) (i : ℕ)
    → Searched trader_id id os i (find_in os i trader_id id)
unfolding find_in
find_in-Searched trader_id id [] i = tt
find_in-Searched trader_id id (o ∷ os) i =
    elim (Bool-cases (o.order_id == id && o.trader_id == trader_id)) [
      | inl hit ↦ simp hit (0, omega arith, refl, ground arith)
      | inr miss ↦ simp miss (
          Searched-next trader_id id o os i (find_in os (suc i) trader_id id)
            (λ named. absurd (ground arith)) (find_in-Searched trader_id id os (suc i)))
    ]

module _ (trader_id id : ℕ) (buys sells : List Orderbook) where
  -- No order of the product has the name.
  abbrev pub Absent : ℕ → Type 0
  Absent i =
      All (λ o. ¬ IsNamed trader_id id o) (get_or buys i [])
      × All (λ o. ¬ IsNamed trader_id id o) (get_or sells i [])

  abbrev Outcome : ℕ → ℕ → Option Found → Type 0
  Outcome n i none = (j : ℕ) → i ≤ j → j < i + n → Absent j
  Outcome n i (some f) = FoundAt (i + n) trader_id id buys sells f

  Outcome-next : (n i : ℕ) (r : Option Found) → Absent i → Outcome n (suc i) r → Outcome (suc n) i r
  Outcome-next n i none h o = λ j from to. elim (ℕ_discrete i j) [
    | yes same ↦ subst Absent same h
    | no other ↦ o j (omega arith) (omega arith)
  ]
  Outcome-next n i (some f) h o = record {
    product = omega (arith, o.product);
    named = o.named;
    there = o.there;
  }

  buy_found :
      (n i k : ℕ) (o : Order)
      → Searched trader_id id (get_or buys i []) 0 (some (k, o))
      → Outcome (suc n) i (some (record { is_buy = true; product = i; position = k; order = o }))
  buy_found n i k o (j, at, there, named) =
      let here : k ≡ j = omega arith in
      record { product = omega arith; named = named; there = rw here there }

  sell_found :
      (n i k : ℕ) (o : Order)
      → Searched trader_id id (get_or sells i []) 0 (some (k, o))
      → Outcome (suc n) i (some (record { is_buy = false; product = i; position = k; order = o }))
  sell_found n i k o (j, at, there, named) =
      let here : k ≡ j = omega arith in
      record { product = omega arith; named = named; there = rw here there }

  in_buys :
      (n i k : ℕ) (o : Order)
      → find_in (get_or buys i []) 0 trader_id id ≡ some (k, o)
      → find_order_from (suc n) i trader_id id buys sells
        ≡ some (record { is_buy = true; product = i; position = k; order = o })
  unfolding find_order_from found_in
  in_buys n i k o e =
      ap
        (λ r.
          found_in i r (find_in (get_or sells i []) 0 trader_id id)
            (find_order_from n (suc i) trader_id id buys sells))
        e

  in_sells :
      (n i k : ℕ) (o : Order)
      → find_in (get_or buys i []) 0 trader_id id ≡ none
      → find_in (get_or sells i []) 0 trader_id id ≡ some (k, o)
      → find_order_from (suc n) i trader_id id buys sells
        ≡ some (record { is_buy = false; product = i; position = k; order = o })
  unfolding find_order_from found_in
  in_sells n i k o e e' =
      rw e (ap (λ s. found_in i none s (find_order_from n (suc i) trader_id id buys sells)) e')

  in_neither :
      (n i : ℕ)
      → find_in (get_or buys i []) 0 trader_id id ≡ none
      → find_in (get_or sells i []) 0 trader_id id ≡ none
      → find_order_from (suc n) i trader_id id buys sells
        ≡ find_order_from n (suc i) trader_id id buys sells
  unfolding find_order_from found_in
  in_neither n i e e' =
      rw e (ap (λ s. found_in i none s (find_order_from n (suc i) trader_id id buys sells)) e')

  find_order_from-Outcome : (n i : ℕ) → Outcome n i (find_order_from n i trader_id id buys sells)
  unfolding find_order_from
  find_order_from-Outcome zero i = λ j from to. absurd (omega arith)
  find_order_from-Outcome (suc n) i =
      let b = find_in-Searched trader_id id (get_or buys i []) 0 in
      let s = find_in-Searched trader_id id (get_or sells i []) 0 in
      elim (Option-cases (find_in (get_or buys i []) 0 trader_id id)) [
        | inr ((k, o), e) ↦ rw (in_buys n i k o e) (buy_found n i k o (rw e at b))
        | inl e ↦ elim (Option-cases (find_in (get_or sells i []) 0 trader_id id)) [
          | inr ((k, o), e') ↦ rw (in_sells n i k o e e') (sell_found n i k o (rw e' at s))
          | inl e' ↦ rw (in_neither n i e e') (
              Outcome-next n i (find_order_from n (suc i) trader_id id buys sells)
                (rw e at b, rw e' at s) (find_order_from-Outcome n (suc i)))
        ]
      ]

  -- What `find_order` finds stands where it says and is the trader's order of that ID; and it finds
  -- nothing only if no book of any product holds such an order.
  abbrev pub FindsNamed : ℕ → Option Found → Type 0
  FindsNamed num_products none = (i : ℕ) → i < num_products → Absent i
  FindsNamed num_products (some f) = FoundAt num_products trader_id id buys sells f

  finds_named : (n : ℕ) (r : Option Found) → Outcome n 0 r → FindsNamed n r
  finds_named n none o = λ i h. o i (omega arith) (omega arith)
  finds_named n (some f) o = record {
    product = omega (arith, o.product);
    named = o.named;
    there = o.there;
  }

  -- What `find_order` finds stands where it says, in a book of one of the first `num_products`
  -- products, and has the ID and the trader asked for; and it finds nothing only if no book of
  -- these products holds such an order.
  pub find_order-FindsNamed :
      (num_products : ℕ) → FindsNamed num_products (find_order num_products trader_id id buys sells)
  unfolding find_order
  find_order-FindsNamed n = finds_named n _ (find_order_from-Outcome n 0)
