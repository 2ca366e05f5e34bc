-- ===== src/MainLoop/Alive.antt =====
-- A trader's death, `trader_died` of pe_setup.c, and the number of living traders that main keeps.
use pe_exchange.Common.{
  ℕ, zero, suc, ◌+◌, ◌≤◌, ◌≡◌, refl, ap, sym, ◌∙◌, Bool, true, false, List, [], ◌∷◌, some, arith,
  length, get_elem?, modify, set, length-modify, if◌then◌else◌,
}
use pe_exchange.Types.{Trader, Exchange}
use pe_exchange.Orderbook.Matching.{emit}
use pe_exchange.Orderbook.Matching.Accounts.{CoversFrom, total_balance, total_quantity}
use pe_exchange.Orderbook.Matching.Conserve.{Conserves}
use pe_exchange.Orderbook.Invariant.Steps.{IsValid}
use pe_exchange.Orderbook.Weight.Matching.{badges}
use pe_exchange.Pipes.Messages.Unique.{HasUniqueIds}
use pe_exchange.Pipes.Messages.Effect.{Effect, nothing_new, placed, replaced}
use pe_exchange.MainLoop.{trader_died, is_alive}

-- How many of the traders are alive.
abbrev pub count_alive : List Trader → ℕ
count_alive [] = 0
count_alive (t ∷ ts) = (if t.alive then 1 else 0) + count_alive ts

abbrev alive_badges : List (ℕ × Bool) → ℕ
alive_badges [] = 0
alive_badges (b ∷ bs) = (if b.1 then 1 else 0) + alive_badges bs

alive_badges-badges : (ts : List Trader) → alive_badges (badges ts) ≡ count_alive ts
alive_badges-badges [] = refl
alive_badges-badges (t ∷ ts) = omega (arith, alive_badges-badges ts)

count_alive-same : (ts us : List Trader) → badges us ≡ badges ts → count_alive us ≡ count_alive ts
count_alive-same ts us e = sym (alive_badges-badges us) ∙ ap alive_badges e ∙ alive_badges-badges ts

count_alive-set :
    (ts : List Trader) (i k : ℕ) {t : Trader}
    → get_elem? ts i ≡ some t
    → count_alive (set ts i (record t { order_id = k })) ≡ count_alive ts
count_alive-set [] i k e = cc
count_alive-set (x ∷ ts) zero k e = ground arith
count_alive-set (x ∷ ts) (suc i) k e = omega (arith, count_alive-set ts i k e)

-- A message leaves the living traders alive, and the dead dead.
pub Effect-count_alive :
    (products : List (List ℕ)) (i : ℕ) (s s' : Exchange)
    → Effect products i s s'
    → count_alive s'.trader_list ≡ count_alive s.trader_list
Effect-count_alive products i s s' (nothing_new h b) =
    count_alive-same s.trader_list s'.trader_list b
Effect-count_alive products i s s' (placed t is_buy o e c h b) =
    count_alive-same (set s.trader_list i _) s'.trader_list b ∙ count_alive-set s.trader_list i _ e
Effect-count_alive products i s s' (replaced old new e v h b) =
    count_alive-same s.trader_list s'.trader_list b

abbrev kill : Trader → Trader
kill t = record t { alive = false }

CoversFrom-kill :
    (n k : ℕ) (ts : List Trader) (i : ℕ) → CoversFrom n k ts → CoversFrom n k (modify ts i kill)
CoversFrom-kill n k [] i c = tt
CoversFrom-kill n k (t ∷ ts) zero c = c
CoversFrom-kill n k (t ∷ ts) (suc i) c = (c.0, c.1, CoversFrom-kill n (suc k) ts i c.2)

total_balance-kill :
    (ts : List Trader) (i : ℕ) → total_balance (modify ts i kill) ≡ total_balance ts
total_balance-kill [] i = refl
total_balance-kill (t ∷ ts) zero = refl
total_balance-kill (t ∷ ts) (suc i) = omega (arith, total_balance-kill ts i)

total_quantity-kill :
    (q : ℕ) (ts : List Trader) (i : ℕ) → total_quantity q (modify ts i kill) ≡ total_quantity q ts
total_quantity-kill q [] i = refl
total_quantity-kill q (t ∷ ts) zero = refl
total_quantity-kill q (t ∷ ts) (suc i) = omega (arith, total_quantity-kill q ts i)

pub trader_died-IsValid : (n : ℕ) (s : Exchange) (i : ℕ) → IsValid n s → IsValid n (trader_died s i)
unfolding trader_died emit
trader_died-IsValid n s i v = record {
  num_buys = v.num_buys;
  num_sells = v.num_sells;
  num_printed = v.num_printed;
  accounts = CoversFrom-kill n 0 s.trader_list i v.accounts;
  products = rw (length-modify s.trader_list i kill) v.products;
}

pub trader_died-Conserves :
    (n : ℕ) (s : Exchange) (i : ℕ) → IsValid n s → Conserves n s (trader_died s i)
unfolding trader_died emit
trader_died-Conserves n s i v = record {
  money = rw (total_balance-kill s.trader_list i) refl;
  goods = λ q. rw (total_quantity-kill q s.trader_list i) refl;
  traders = length-modify s.trader_list i kill;
  accounts = CoversFrom-kill n 0 s.trader_list i v.accounts;
}

-- A trader's death leaves it its order counter.
badges-kill :
    (ts : List Trader) (i k : ℕ) {next : ℕ} {alive : Bool}
    → get_elem? (badges (modify ts i kill)) k ≡ some (next, alive)
    → (was : Bool) × (get_elem? (badges ts) k ≡ some (next, was))
badges-kill [] i k e = cc
badges-kill (t ∷ ts) zero zero e = (t.alive, ground arith)
badges-kill (t ∷ ts) zero (suc k) {alive = alive} e = (alive, e)
badges-kill (t ∷ ts) (suc i) zero {alive = alive} e = (alive, e)
badges-kill (t ∷ ts) (suc i) (suc k) e = badges-kill ts i k e

pub trader_died-HasUniqueIds :
    (s : Exchange) (i : ℕ) → HasUniqueIds s → HasUniqueIds (trader_died s i)
unfolding trader_died emit
trader_died-HasUniqueIds s i u = record {
  once = u.once;
  none_ahead = λ tid id next alive at le.
      let (was, e) = badges-kill s.trader_list i tid at in u.none_ahead tid id next was e le;
}

count_alive-kill :
    (ts : List Trader) (i : ℕ)
    → is_alive ts i ≡ true
    → count_alive ts ≡ suc (count_alive (modify ts i kill))
unfolding is_alive
count_alive-kill [] i a = absurd (ground arith)
count_alive-kill (t ∷ ts) zero a = simp a (omega arith)
count_alive-kill (t ∷ ts) (suc i) a = omega (arith, count_alive-kill ts i a)

pub trader_died-count_alive :
    (s : Exchange) (i : ℕ)
    → is_alive s.trader_list i ≡ true
    → count_alive s.trader_list ≡ suc (count_alive (trader_died s i).trader_list)
unfolding trader_died emit
trader_died-count_alive s i a = count_alive-kill s.trader_list i a

pub count_alive-le-length : (ts : List Trader) → count_alive ts ≤ length ts
count_alive-le-length [] = omega arith
count_alive-le-length (t ∷ ts) = ground (arith, count_alive-le-length ts)
