-- ===== src/MainLoop/Ends.antt =====
-- When main exits.
use pe_exchange.Common.{
  snoc-append, ℕ, ◌≤◌, ◌≡◌, sym, subst, inl, inr, List, [], ◌∷◌, ◌++◌, arith, Bool-cases, ◌==◌,
  length,
}
use pe_exchange.Common.Text.{codes, show_long}
use pe_exchange.Types.{Event, printed, Exchange}
use pe_exchange.Printing.{log_prefix, newline}
use pe_exchange.Signals.{pop_sigchld, first_signal}
use pe_exchange.Orderbook.Matching.{emit}
use pe_exchange.MainLoop.{
  uses_freed, unfinished, Main, Round, goes_on, exits, fails, waits, faults, closed, nothing, bury,
  end_if_over, is_alive, serve_child, all_traders_died,
}
use pe_exchange.MainLoop.Steps.{Step, usr1_arrives, chld_arrives, byte_arrives, child, poll, Reach}
use pe_exchange.MainLoop.Alive.{count_alive}
use pe_exchange.MainLoop.Running.{
  IsSound, emit-IsSound, ArePairSound, bury-IsSound, bury_process-IsSound,
}
use pe_exchange.MainLoop.Invariant.{
  IsRunning, Reach-IsRunning, after_poll_nothing, after_poll_closed,
}

abbrev fees_line : ℕ → Event
fees_line fees =
    printed (log_prefix ++ (codes " Exchange fees collected: $" ++ (show_long fees ++ newline)))

-- The exchange is sound, nobody is alive, and its fees were the last thing that was printed.
pub record IsOver (start : Main) (k : ℕ) (s : Exchange) : Type 0 where
  pub sound : IsSound start.exchange (length start.products) k s 0
  pub all_dead : count_alive s.trader_list ≡ 0
  pub before : List Event
  pub fees_last : s.output ≡ before ++ (fees_line s.exchange_fees ∷ [])

module _ (start : Main) (k : ℕ) where
  all_traders_died-IsOver :
      (s : Exchange)
      → IsSound start.exchange (length start.products) k s 0
      → IsOver start k (all_traders_died s)
  unfolding all_traders_died emit
  all_traders_died-IsOver s h =
      let told = printed (log_prefix ++ (codes " Trading completed" ++ newline)) in
      record {
        sound =
            emit-IsSound start.exchange (length start.products) k s 0
              (told ∷ fees_line s.exchange_fees ∷ []) h;
        all_dead = sym h.counted;
        before = s.output ++ (told ∷ []);
        fees_last = sym (snoc-append s.output (fees_line s.exchange_fees ∷ []) told);
      }

  -- What is so after a round with which main exits.
  abbrev pub ExitsOver : Round → Type 0
  ExitsOver (exits s) = IsOver start k s
  ExitsOver (goes_on m) = Unit {0}
  ExitsOver fails = Unit {0}
  ExitsOver waits = Unit {0}
  ExitsOver faults = Unit {0}
  ExitsOver uses_freed = Unit {0}
  ExitsOver unfinished = Unit {0}

  end_if_over-ExitsOver :
      (m : Main) (r : Exchange × ℕ)
      → ArePairSound start.exchange (length start.products) k r
      → ExitsOver (end_if_over m r)
  unfolding end_if_over
  end_if_over-ExitsOver m (s, num_active) h = elim (Bool-cases (num_active == 0)) [
    | inl over ↦
        let none_left : num_active ≡ 0 = ground arith in
        rw (over, end_if_over)
          (all_traders_died-IsOver s
            (subst (IsSound start.exchange (length start.products) k s) none_left h))
    | inr not_over ↦ rw (not_over, end_if_over) tt
  ]

  pub serve_child-ExitsOver : (m : Main) → IsRunning start k m → ExitsOver (serve_child m)
  unfolding serve_child
  serve_child-ExitsOver m i =
      end_if_over-ExitsOver (record m { signals = pop_sigchld m.signals }) _
        (bury_process-IsSound start.exchange (length start.products) k
          (first_signal m.signals.sigchld) m.pids 0 (m.exchange, m.num_active) i.sound)

  Step-ExitsOver : (m : Main) (r : Round) → IsRunning start k m → Step m r → ExitsOver r
  Step-ExitsOver m _ i (usr1_arrives pid) = tt
  Step-ExitsOver m _ i (chld_arrives pid) = tt
  Step-ExitsOver m _ i (byte_arrives j r) = tt
  Step-ExitsOver m _ i (child h g) = serve_child-ExitsOver m i
  Step-ExitsOver m _ i (poll (nothing eintr)) = elim (Bool-cases eintr) [
    | inl again ↦ rw (after_poll_nothing m eintr, again) tt
    | inr failed ↦ rw (after_poll_nothing m eintr, failed) tt
  ]
  Step-ExitsOver m _ i (poll (closed j)) = elim (Bool-cases (is_alive m.exchange.trader_list j)) [
    | inl alive ↦
        rw (after_poll_closed m j, alive)
          (end_if_over-ExitsOver m (bury j (m.exchange, m.num_active)) (
            bury-IsSound start.exchange (length start.products) k j (m.exchange, m.num_active)
              i.sound))
    | inr dead ↦ rw (after_poll_closed m j, dead) tt
  ]

-- If a running main takes a step other than a message, after at most 2147 messages, and exits with
-- it, then the exchange is sound, no trader is alive, and the fees that were collected are the last
-- thing that was printed.
pub Reach-ExitsOver :
    (start : Main) (k : ℕ) (m : Main) (r : Round)
    → IsRunning start 0 start
    → Reach start k m
    → k ≤ 2147
    → Step m r
    → ExitsOver start k r
Reach-ExitsOver start k m r i reach few step =
    Step-ExitsOver start k m r (Reach-IsRunning start k m i reach few) step
