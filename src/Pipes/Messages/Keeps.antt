-- ===== src/Pipes/Messages/Keeps.antt =====
-- What a handler of a message must keep: a valid exchange, and the money and goods in it.
use pe_exchange.Common.{
  ◌>>=◌, ℕ, ◌+◌, ◌≤◌, ◌<◌, ◌≡◌, refl, Bool, true, List, Option, none, some, arith, length,
  length-set, get_elem?, set, Bool-cases, inl, inr, int_max,
}
use pe_exchange.Types.{Order, Trader, Event, Exchange}
use pe_exchange.Orderbook.Levels.Descending.{book_quantity}
use pe_exchange.Orderbook.Levels.Shows.{max_value}
use pe_exchange.Orderbook.Matching.{emit, finish_order}
use pe_exchange.Orderbook.Matching.Accounts.{Covers-set, total_balance-set, total_quantity-set}
use pe_exchange.Orderbook.Matching.Conserve.{Conserves, Conserves-refl, Conserves-trans}
use pe_exchange.Orderbook.Invariant.Steps.{IsValid}
use pe_exchange.Orderbook.Invariant.Open.{Incoming}
use pe_exchange.Orderbook.Invariant.BuyRound.{sells_of}
use pe_exchange.Orderbook.Invariant.SellRound.{buys_of}
use pe_exchange.Orderbook.Invariant.Finish.{HasRoom, Finishes, finish_order-Finishes}

-- Each price level of each book has room for one more order of any size.
pub record IsRoomy (s : Exchange) : Type 0 where
  pub buys : (i p : ℕ) → book_quantity p (buys_of s i) + max_value < int_max
  pub sells : (i p : ℕ) → book_quantity p (sells_of s i) + max_value < int_max

pub HasRoom-IsRoomy : (s : Exchange) (o : Order) → IsRoomy s → o.quantity ≤ max_value → HasRoom s o
HasRoom-IsRoomy s o r h = elim (Bool-cases o.is_buy) [
  | inl buy ↦ simp buy (omega (arith, r.buys o.product_id o.price))
  | inr sell ↦ simp sell (omega (arith, r.sells o.product_id o.price))
]

-- A later exchange that is as valid, and has lost no money and no goods.
abbrev pub Keeps : ℕ → Exchange → Exchange → Type 0
Keeps n s s' = IsValid n s' × Conserves n s s'

pub Keeps-emit : (n : ℕ) (s t : Exchange) (es : List Event) → Keeps n s t → Keeps n s (emit t es)
unfolding emit
Keeps-emit n s t es (v, c) = (
  record {
    num_buys = v.num_buys;
    num_sells = v.num_sells;
    num_printed = v.num_printed;
    accounts = v.accounts;
    products = v.products;
  },
  record { money = c.money; goods = c.goods; traders = c.traders; accounts = c.accounts },
)

-- A handler's result.
abbrev pub Handled : ℕ → Exchange → Option (Exchange × Bool) → Type 0
Handled n s none = ⊥
Handled n s (some (s', good)) = Keeps n s s'

pub Handled-finish :
    (n : ℕ) (s t : Exchange) (o : Order)
    → Keeps n s t
    → Incoming n (length t.trader_list) o
    → HasRoom t o
    → Handled n s (finish_order t o >>= λ s2. some (s2, true))
Handled-finish n s t o (v, c) w room =
    finished (finish_order t o) (finish_order-Finishes n t o v w room)
  where
    finished : (r : Option Exchange) → Finishes n t r → Handled n s (r >>= λ s2. some (s2, true))
    finished none f = f
    finished (some u) f = (f.0, Conserves-trans n s t u c f.1)

module _ (n : ℕ) (s : Exchange) (v : IsValid n s) where
  pub unchanged : Keeps n s s
  unchanged = (v, Conserves-refl n s v.accounts)

  -- The trader's counter moves on.
  abbrev pub counted : ℕ → Trader → ℕ → Exchange
  counted k t next = record s { trader_list = set s.trader_list k (record t { order_id = next }) }

  pub Keeps-counted :
      (k : ℕ) (t : Trader) (next : ℕ)
      → get_elem? s.trader_list k ≡ some t
      → Keeps n s (counted k t next)
  Keeps-counted k t next e =
      let there = length-set s.trader_list k (record t { order_id = next }) in
      let covers = Covers-set n s.trader_list k next v.accounts e in
      (
        record {
          num_buys = v.num_buys;
          num_sells = v.num_sells;
          num_printed = v.num_printed;
          accounts = covers;
          products = rw there v.products;
        },
        record {
          money = rw (total_balance-set s.trader_list k next e) refl;
          goods = λ q. rw (total_quantity-set q s.trader_list k next e) refl;
          traders = there;
          accounts = covers;
        },
      )
