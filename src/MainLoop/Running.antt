-- ===== src/MainLoop/Running.antt =====
-- What holds of main's variables at every turn of its loop.
use pe_exchange.Common.{
  ℕ, suc, ◌<◌, ◌≡◌, refl, sym, subst, ◌∙◌, inl, inr, true, List, [], ◌∷◌, Option, none, some, arith,
  length, ◌==◌, Bool-cases, int_max, sub_int,
}
use pe_exchange.Common.Text.{Bytes}
use pe_exchange.Types.{Event, Exchange}
use pe_exchange.Orderbook.Matching.{emit}
use pe_exchange.Orderbook.Matching.Conserve.{Conserves, Conserves-trans}
use pe_exchange.Orderbook.Invariant.Steps.{IsValid}
use pe_exchange.Orderbook.Invariant.Finish.{Finishes}
use pe_exchange.Pipes.Messages.{parse_msg}
use pe_exchange.Pipes.Messages.Effect.{Effects, parse_msg-Effects}
use pe_exchange.Pipes.Messages.Keeps.{Keeps-emit}
use pe_exchange.Pipes.Messages.Parse.{parse_msg-Finishes}
use pe_exchange.Pipes.Messages.Room.{Holds, parse_msg-Holds, IsRoomy-Holds}
use pe_exchange.Pipes.Messages.Unique.{HasUniqueIds, parse_msg-HasUniqueIds}
use pe_exchange.MainLoop.{trader_died, is_alive, bury, bury_process}
use pe_exchange.MainLoop.Alive.{
  count_alive, count_alive-le-length, Effect-count_alive, trader_died-IsValid,
  trader_died-Conserves, trader_died-HasUniqueIds, trader_died-count_alive,
}

-- The exchange after `k` messages, from the exchange `base` on, and main's number of living traders.
pub record IsSound (base : Exchange) (n k : ℕ) (s : Exchange) (num_active : ℕ) : Type 0 where
  pub valid : IsValid n s
  pub unique : HasUniqueIds s
  pub holds : Holds k s
  pub kept : Conserves n base s
  pub counted : num_active ≡ count_alive s.trader_list
  pub few : length s.trader_list < int_max

trader_died-Holds : (k : ℕ) (s : Exchange) (i : ℕ) → Holds k s → Holds k (trader_died s i)
unfolding trader_died emit
trader_died-Holds k s i h = h

module _ (base : Exchange) (n k : ℕ) where
  pub emit-IsSound :
      (s : Exchange) (num_active : ℕ) (es : List Event)
      → IsSound base n k s num_active
      → IsSound base n k (emit s es) num_active
  unfolding emit
  emit-IsSound s num_active es i =
      let (v, c) = Keeps-emit n base s es (i.valid, i.kept) in
      record {
        valid = v;
        unique = record { once = i.unique.once; none_ahead = i.unique.none_ahead };
        holds = i.holds;
        kept = c;
        counted = i.counted;
        few = i.few;
      }

  trader_died-IsSound :
      (s : Exchange) (num_active i : ℕ)
      → IsSound base n k s num_active
      → is_alive s.trader_list i ≡ true
      → IsSound base n k (trader_died s i) (sub_int num_active 1)
  trader_died-IsSound s num_active i r a =
      let c = trader_died-Conserves n s i r.valid in
      record {
        valid = trader_died-IsValid n s i r.valid;
        unique = trader_died-HasUniqueIds s i r.unique;
        holds = trader_died-Holds k s i r.holds;
        kept = Conserves-trans n base s (trader_died s i) r.kept c;
        counted = omega (
          arith,
          r.counted,
          r.few,
          trader_died-count_alive s i a,
          count_alive-le-length s.trader_list,
        );
        few = omega (arith, c.traders, r.few);
      }

  -- An exchange and a counter, as the loop over the process IDs takes them.
  abbrev pub ArePairSound : Exchange × ℕ → Type 0
  ArePairSound (s, num_active) = IsSound base n k s num_active

  pub bury-IsSound : (i : ℕ) (r : Exchange × ℕ) → ArePairSound r → ArePairSound (bury i r)
  unfolding bury
  bury-IsSound i (s, num_active) h = elim (Bool-cases (is_alive s.trader_list i)) [
    | inl alive ↦ simp alive (trader_died-IsSound s num_active i h alive)
    | inr dead ↦ simp dead h
  ]

  pub bury_process-IsSound :
      (pid : ℕ) (pids : List ℕ) (i : ℕ) (r : Exchange × ℕ)
      → ArePairSound r
      → ArePairSound (bury_process pid pids i r)
  unfolding bury_process
  bury_process-IsSound pid [] i r h = h
  bury_process-IsSound pid (p ∷ pids) i r h = elim (Bool-cases (pid == p)) [
    | inl hit ↦ simp hit (bury_process-IsSound pid pids (suc i) (bury i r) (bury-IsSound i r h))
    | inr miss ↦ simp miss (bury_process-IsSound pid pids (suc i) r h)
  ]

  -- While no more than 2147 messages have come, each is answered.
  pub parse_msg-IsSound :
      (s : Exchange) (num_active : ℕ) (products : List Bytes) (msg : Bytes) (i : ℕ)
      → length products ≡ n
      → k < 2147
      → IsSound base n k s num_active
      → (s' : Exchange) × (parse_msg s products msg i ≡ some s')
        × IsSound base n (suc k) s' num_active
  parse_msg-IsSound s num_active products msg i same few r =
      let v : IsValid (length products) s = subst (λ x. IsValid x s) (sym same) r.valid in
      answered v (parse_msg s products msg i) refl
        (parse_msg-Finishes s products msg i v (IsRoomy-Holds k s few r.holds))
        (parse_msg-Effects products i s msg v)
    where
      answered :
          IsValid (length products) s
          → (o : Option Exchange) → parse_msg s products msg i ≡ o
          → Finishes (length products) s o
          → Effects products i s o
          → (s' : Exchange) × (o ≡ some s') × IsSound base n (suc k) s' num_active
      answered v none e f x = absurd f
      answered v (some s') e (w, c) x = (
        s',
        refl,
        record {
          valid = subst (λ y. IsValid y s') same w;
          unique = parse_msg-HasUniqueIds s s' products msg i v r.unique e;
          holds = parse_msg-Holds k s s' products msg i v r.holds e;
          kept = Conserves-trans n base s s' r.kept (subst (λ y. Conserves y s s') same c);
          counted = r.counted ∙ sym (Effect-count_alive products i s s' x);
          few = omega (arith, c.traders, r.few);
        },
      )
