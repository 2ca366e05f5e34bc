-- ===== src/MainLoop/Start/Opened.antt =====
-- The exchange that main sets up, as its loop finds it.
use pe_exchange.Common.{
  ℕ, zero, suc, ◌<◌, ◌≡◌, refl, ap, sym, true, List, [], ◌∷◌, arith, length, All, replicate,
  int_max,
}
use pe_exchange.Common.Text.{Bytes}
use pe_exchange.Types.{Trader, Event}
use pe_exchange.Setup.{
  start_exchange, initialise_prod_orders, initialise_trader_inventory, new_balances,
}
use pe_exchange.Setup.Start.{NumberedFrom, start_exchange-IsValid}
use pe_exchange.Orderbook.Matching.{emit}
use pe_exchange.Orderbook.Matching.Accounts.{
  sum_balances, total_balance, quantity_in, total_quantity,
}
use pe_exchange.Orderbook.Matching.Conserve.{Conserves-refl}
use pe_exchange.Orderbook.Invariant.Steps.{IsValid}
use pe_exchange.Orderbook.Weight.{Weight, weights, total_weight}
use pe_exchange.Pipes.Messages.Room.{at_price}
use pe_exchange.Pipes.Messages.Unique.{named}
use pe_exchange.MainLoop.Alive.{count_alive}
use pe_exchange.MainLoop.Running.{IsSound}
use pe_exchange.MainLoop.Start.{opened}

weights-replicate : (w : Weight) (n : ℕ) → weights w (replicate n []) ≡ 0
weights-replicate w zero = refl
weights-replicate w (suc n) = omega (arith, weights-replicate w n)

module _ (products : List Bytes) where
  total_weight-opened :
      (w : Weight) (ts : List Trader) (es : List Event) → total_weight w (opened products ts es) ≡ 0
  unfolding opened start_exchange initialise_prod_orders emit
  total_weight-opened w ts es = omega (arith, weights-replicate w (length products))

  sum_balances-new : (ps : List Bytes) → sum_balances (new_balances ps) ≡ 0
  unfolding new_balances
  sum_balances-new [] = refl
  sum_balances-new (p ∷ ps) = omega (arith, sum_balances-new ps)

  quantity_in-new : (q : ℕ) (ps : List Bytes) → quantity_in q (new_balances ps) ≡ 0
  unfolding new_balances
  quantity_in-new q [] = refl
  quantity_in-new zero (p ∷ ps) = refl
  quantity_in-new (suc q) (p ∷ ps) = quantity_in-new q ps

  pub total_balance-new :
      (ts : List Trader) → total_balance (initialise_trader_inventory products ts) ≡ 0
  unfolding initialise_trader_inventory
  total_balance-new [] = refl
  total_balance-new (t ∷ ts) = omega (arith, sum_balances-new products, total_balance-new ts)

  pub total_quantity-new :
      (q : ℕ) (ts : List Trader) → total_quantity q (initialise_trader_inventory products ts) ≡ 0
  unfolding initialise_trader_inventory
  total_quantity-new q [] = refl
  total_quantity-new q (t ∷ ts) = omega (arith, quantity_in-new q products, total_quantity-new q ts)

  length-new : (ts : List Trader) → length (initialise_trader_inventory products ts) ≡ length ts
  unfolding initialise_trader_inventory
  length-new [] = refl
  length-new (t ∷ ts) = ap suc (length-new ts)

  count_alive-new :
      (ts : List Trader)
      → All (λ t. t.alive ≡ true) ts
      → count_alive (initialise_trader_inventory products ts) ≡ length ts
  unfolding initialise_trader_inventory
  count_alive-new [] a = refl
  count_alive-new (t ∷ ts) a = simp (a.0, count_alive-new ts a.1) (omega arith)

  opened-IsValid :
      (ts : List Trader) (es : List Event)
      → NumberedFrom 0 ts
      → IsValid (length products) (opened products ts es)
  unfolding opened
  opened-IsValid ts es h =
      let v = start_exchange-IsValid products ts h in
      record {
        num_buys = v.num_buys;
        num_sells = v.num_sells;
        num_printed = v.num_printed;
        accounts = v.accounts;
        products = v.products;
      }

  pub trader_list-opened :
      (ts : List Trader) (es : List Event)
      → (opened products ts es).trader_list ≡ initialise_trader_inventory products ts
  unfolding opened start_exchange emit
  trader_list-opened ts es = refl

  pub fees-opened : (ts : List Trader) (es : List Event) → (opened products ts es).exchange_fees ≡ 0
  unfolding opened start_exchange emit
  fees-opened ts es = refl

  pub opened-IsSound :
      (ts : List Trader) (es : List Event)
      → NumberedFrom 0 ts
      → All (λ t. t.alive ≡ true) ts
      → length ts < int_max
      → IsSound (opened products ts es) (length products) 0 (opened products ts es) (length ts)
  opened-IsSound ts es h a few =
      let v = opened-IsValid ts es h in
      record {
        valid = v;
        unique = record {
          once = λ tid id. omega (arith, total_weight-opened (named tid id) ts es);
          none_ahead = λ tid id next alive at le. total_weight-opened (named tid id) ts es;
        };
        holds = λ p. omega (arith, total_weight-opened (at_price p) ts es);
        kept = Conserves-refl (length products) (opened products ts es) v.accounts;
        counted = rw (trader_list-opened ts es) (sym (count_alive-new ts a));
        few = rw (trader_list-opened ts es) (omega (arith, length-new ts, few));
      }
