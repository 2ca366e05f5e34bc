-- ===== src/Setup/Start.antt =====
-- The first state of the exchange, before any trader has sent a message.
use pe_exchange.Common.{
  ℕ, zero, suc, ◌≡◌, refl, ap, List, [], ◌∷◌, some, arith, length, get_elem?, length-replicate,
  get_elem?-replicate,
}
use pe_exchange.Common.Text.{Bytes}
use pe_exchange.Types.{PrintedOrderbook, Trader}
use pe_exchange.Setup.{
  initialise_product_list, initialise_prod_orders, new_balances, initialise_trader_inventory,
  start_exchange,
}
use pe_exchange.Orderbook.Matching.{emit}
use pe_exchange.Orderbook.Matching.Accounts.{CoversFrom}
use pe_exchange.Orderbook.Invariant.Product.{ProductOk}
use pe_exchange.Orderbook.Invariant.Steps.{IsValid}

-- The traders' IDs count from `i` up, as `fork_and_pipes` gives them out.
abbrev pub NumberedFrom : ℕ → List Trader → Type 0
NumberedFrom i [] = Unit {0}
NumberedFrom i (t ∷ ts) = (t.id ≡ i) × NumberedFrom (suc i) ts

length-new_balances : (products : List Bytes) → length (new_balances products) ≡ length products
unfolding new_balances
length-new_balances [] = refl
length-new_balances (p ∷ ps) = ap suc (length-new_balances ps)

length-initialise_product_list :
    (products : List Bytes) → length (initialise_product_list products) ≡ length products
unfolding initialise_product_list
length-initialise_product_list [] = refl
length-initialise_product_list (p ∷ ps) = ap suc (length-initialise_product_list ps)

CoversFrom-initialise_trader_inventory :
    (products : List Bytes) (i : ℕ) (ts : List Trader)
    → NumberedFrom i ts
    → CoversFrom (length products) i (initialise_trader_inventory products ts)
unfolding initialise_trader_inventory
CoversFrom-initialise_trader_inventory products i [] h = tt
CoversFrom-initialise_trader_inventory products i (t ∷ ts) h = (
  length-new_balances products,
  h.0,
  CoversFrom-initialise_trader_inventory products (suc i) ts h.1,
)

-- The printed orderbook of a product has no level.
record IsEmpty (b : PrintedOrderbook) : Type 0 where
  buys : b.head_buy ≡ []
  sells : b.head_sell ≡ []
  buy_len : b.buy_len ≡ 0
  sell_len : b.sell_len ≡ 0

initialise_product_list-IsEmpty :
    (products : List Bytes) (i : ℕ) {b : PrintedOrderbook}
    → get_elem? (initialise_product_list products) i ≡ some b
    → IsEmpty b
unfolding initialise_product_list
initialise_product_list-IsEmpty [] i e = cc
initialise_product_list-IsEmpty (p ∷ ps) zero e = record {
  buys = ground arith;
  sells = ground arith;
  buy_len = ground arith;
  sell_len = ground arith;
}
initialise_product_list-IsEmpty (p ∷ ps) (suc i) e = initialise_product_list-IsEmpty ps i e

ProductOk-empty : (i m : ℕ) (b : PrintedOrderbook) → IsEmpty b → ProductOk i m [] [] b
ProductOk-empty i m b e =
    rw (e.buys, e.sells, e.buy_len, e.sell_len)
      (record {
        buys = record {
          shows = record {
            below = tt;
            held = tt;
            stored = refl;
            quantities = λ p. refl;
            orders = λ p. refl;
          };
          orders = tt;
          belong = tt;
          small = λ p. omega arith;
        };
        sells = record {
          shows = record {
            below = tt;
            held = tt;
            stored = refl;
            quantities = λ p. refl;
            orders = λ p. refl;
          };
          orders = tt;
          belong = tt;
          small = λ p. omega arith;
        };
        apart = tt;
      })

-- If the traders' IDs are their places in the list, the exchange that main sets up is valid for its
-- products, whatever their names are.
pub start_exchange-IsValid :
    (products : List Bytes) (ts : List Trader)
    → NumberedFrom 0 ts
    → IsValid (length products) (start_exchange products ts)
unfolding start_exchange initialise_prod_orders emit
start_exchange-IsValid products ts h = record {
  num_buys = length-replicate (length products) [];
  num_sells = length-replicate (length products) [];
  num_printed = length-initialise_product_list products;
  accounts = CoversFrom-initialise_trader_inventory products 0 ts h;
  products = λ i bs ss b eb es ep.
      rw
        (
          get_elem?-replicate (length products) [] i eb,
          get_elem?-replicate (length products) [] i es,
        )
        (ProductOk-empty i _ b (initialise_product_list-IsEmpty products i ep));
}
