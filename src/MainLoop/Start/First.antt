-- ===== src/MainLoop/Start/First.antt =====
-- Main's variables at its loop's first turn, and what follows of any later turn.
use pe_exchange.Common.{
  ℕ, ◌+◌, ◌%◌, ◌≤◌, ◌<◌, ◌≡◌, refl, sym, subst, ◌∙◌, inl, inr, Bool, List, Option, none, some,
  arith, Bool-cases, Option-cases, ◌==◌, length, int_max, int_mod, long_mod,
}
use pe_exchange.Common.Text.{Bytes}
use pe_exchange.Types.{Trader, Event, Exchange}
use pe_exchange.Setup.Products.{minus_one, get_num_products, get_products}
use pe_exchange.Setup.Launch.{SystemResults, Forked, fork_and_pipes}
use pe_exchange.Setup.Launch.Numbered.{IsForked, fork_and_pipes-IsForked}
use pe_exchange.Orderbook.Matching.Accounts.{total_balance, total_quantity}
use pe_exchange.Orderbook.Matching.Conserve.{Conserves}
use pe_exchange.Pipes.Reading.{ReadResult}
use pe_exchange.MainLoop.{Main}
use pe_exchange.MainLoop.Steps.{Reach}
use pe_exchange.MainLoop.Invariant.{IsRunning, Reach-IsRunning}
use pe_exchange.MainLoop.Start.{opened, main_vars, main_start}
use pe_exchange.MainLoop.Start.Opened.{
  total_balance-new, total_quantity-new, trader_list-opened, fees-opened, opened-IsSound,
}

-- The traders' money and goods, and the exchange's fees, of which there are none at first.
pub record Balanced (s : Exchange) : Type 0 where
  pub money : (total_balance s.trader_list + s.exchange_fees) % long_mod ≡ 0
  pub goods : (q : ℕ) → total_quantity q s.trader_list % int_mod ≡ 0

Balanced-opened :
    (products : List Bytes) (n : ℕ) (ts : List Trader) (es : List Event) (s : Exchange)
    → Conserves n (opened products ts es) s
    → Balanced s
Balanced-opened products n ts es s c = record {
  money =
      c.money
      ∙ rw
          (
            trader_list-opened products ts es,
            fees-opened products ts es,
            total_balance-new products ts,
          )
          refl;
  goods = λ q.
      c.goods q ∙ rw (trader_list-opened products ts es, total_quantity-new products q ts) refl;
}

-- What main has when it comes to its loop.
record Started (args : List (Bytes × SystemResults)) (pipes : List (List ReadResult)) (m : Main)
    : Type 0 where
  products : List Bytes
  vars : m ≡ main_vars products (fork_and_pipes args) pipes
  some_trader : 0 < length args
  all_forked : (fork_and_pipes args).failed_at ≡ none

main_start-Started :
    (args : List (Bytes × SystemResults)) (file : Option Bytes) (epoll : Bool)
    (pipes : List (List ReadResult)) (m : Main)
    → main_start args file epoll pipes ≡ some m
    → Started args pipes m
unfolding main_start
main_start-Started args file epoll pipes m e = elim (Bool-cases (length args == 0)) [
  | inl no_args ↦ absurd (let e' = rw (no_args, main_start) at e in cc)
  | inr args_given ↦ elim (Bool-cases (get_num_products file == minus_one)) [
    | inl no_num ↦ absurd (let e' = rw (args_given, no_num, main_start) at e in cc)
    | inr en ↦ elim (Option-cases (get_products file (get_num_products file))) [
      | inl no_names ↦ absurd (let e' = rw (args_given, en, no_names, main_start) at e in cc)
      | inr (products, ep) ↦ elim (Option-cases (fork_and_pipes args).failed_at) [
        | inr (j, ef) ↦ absurd (let e' = rw (args_given, en, ep, ef, main_start) at e in cc)
        | inl ef ↦ elim (Bool-cases epoll) [
          | inr no_epoll ↦
              absurd (let e' = rw (args_given, en, ep, ef, no_epoll, main_start) at e in cc)
          | inl has_epoll ↦ record {
            products = products;
            vars = let e' = rw (args_given, en, ep, ef, has_epoll, main_start) at e in cc;
            some_trader = ground arith;
            all_forked = ef;
          }
        ]
      ]
    ]
  ]
]

main_vars-IsRunning :
    (products : List Bytes) (f : Forked) (pipes : List (List ReadResult)) (n : ℕ)
    → IsForked n f
    → f.failed_at ≡ none
    → 0 < n
    → n < int_max
    → IsRunning (main_vars products f pipes) 0 (main_vars products f pipes)
unfolding main_vars
main_vars-IsRunning products f pipes n h e some_trader few =
    let all_there : length f.trader_list ≡ n = h.traders e in
    record {
      sound =
          opened-IsSound products f.trader_list f.output h.numbered h.alive
            (omega (arith, all_there));
      some_alive = omega (arith, all_there);
      products = refl;
      pids = refl;
      array = refl;
      kept_memory = refl;
    }

-- With fewer than 2^31 traders, main is running when it comes to its loop.
pub main_start-IsRunning :
    (args : List (Bytes × SystemResults)) (file : Option Bytes) (epoll : Bool)
    (pipes : List (List ReadResult)) (start : Main)
    → length args < int_max
    → main_start args file epoll pipes ≡ some start
    → IsRunning start 0 start
main_start-IsRunning args file epoll pipes start few e =
    let s = main_start-Started args file epoll pipes start e in
    subst (λ m. IsRunning m 0 m) (sym s.vars)
      (main_vars-IsRunning s.products (fork_and_pipes args) pipes (length args)
        (fork_and_pipes-IsForked args) s.all_forked s.some_trader few)

-- If main comes to its loop, with fewer than 2^31 traders, then after any number of messages up to
-- 2147 and any other steps, in any order and with any results of the system, main is running as it
-- should: the exchange is valid, the IDs of each trader's orders in the books are different and
-- none is still to come, `num_active` is the number of living traders and not zero, and the
-- products, the process IDs and the length of the message's array are as they were set up. The sum
-- of all balances and fees is then 0 modulo 2^64, and that of the positions in each product 0
-- modulo 2^32.
pub Reach-Balanced :
    (args : List (Bytes × SystemResults)) (file : Option Bytes) (epoll : Bool)
    (pipes : List (List ReadResult)) (start : Main)
    → length args < int_max
    → main_start args file epoll pipes ≡ some start
    → (k : ℕ) (m : Main) → Reach start k m
    → k ≤ 2147
    → IsRunning start k m × Balanced m.exchange
unfolding main_vars
Reach-Balanced args file epoll pipes start few e k m r most =
    let i =
      Reach-IsRunning start k m (main_start-IsRunning args file epoll pipes start few e) r most in
    let s = main_start-Started args file epoll pipes start e in
    (
      i,
      Balanced-opened s.products (length start.products) (fork_and_pipes args).trader_list
          (fork_and_pipes args).output m.exchange
          (subst (λ x. Conserves (length start.products) x.exchange m.exchange) s.vars
            i.sound.kept),
    )
