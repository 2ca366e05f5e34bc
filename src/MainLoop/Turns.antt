-- ===== src/MainLoop/Turns.antt =====
-- The inner loops of main and a whole turn, as main goes through them: they take what is pending, all of
-- it, one by one.
use pe_exchange.Common.{
  ℕ, zero, suc, ◌+◌, ◌<◌, ◌≡◌, refl, ap, sym, subst, ◌∙◌, inl, inr, true, arith, Bool-cases, ◌==◌,
  ◌&&◌, int_max, sub_int,
}
use pe_exchange.Common.Scan.{int_ltb}
use pe_exchange.Types.{Exchange}
use pe_exchange.Signals.{pop_sigusr, pop_sigchld, pop_signal, first_signal}
use pe_exchange.MainLoop.{
  Main, Round, goes_on, exits, fails, waits, faults, uses_freed, unfinished, and_then,
  serve_message, serve_messages, serve_child, serve_children, bury, bury_process, end_if_over,
  is_alive, Poll, closed, nothing, after_poll, main_round,
}
use pe_exchange.MainLoop.Steps.{child, poll, Reach, other, message}
use pe_exchange.MainLoop.Served.{serve_message-Served}
use pe_exchange.MainLoop.Invariant.{after_poll_closed, after_poll_nothing}

and_then-goes_on :
    (r : Round) (f : Main → Round) (m' : Main)
    → and_then r f ≡ goes_on m'
    → (m : Main) × (r ≡ goes_on m) × (f m ≡ goes_on m')
and_then-goes_on (goes_on m) f m' e = (m, refl, e)
and_then-goes_on (exits s) f m' e = absurd cc
and_then-goes_on fails f m' e = absurd cc
and_then-goes_on waits f m' e = absurd cc
and_then-goes_on faults f m' e = absurd cc
and_then-goes_on uses_freed f m' e = absurd cc
and_then-goes_on unfinished f m' e = absurd cc

-- A message takes a signal of its own queue, and none of the other.
pub record Popped (m m' : Main) : Type 0 where
  pub own : m'.signals.sigusr.len ≡ sub_int m.signals.sigusr.len 1
  pub children : m'.signals.sigchld ≡ m.signals.sigchld

pub serve_message-Popped : (m m' : Main) → serve_message m ≡ goes_on m' → Popped m m'
unfolding pop_sigusr pop_signal
serve_message-Popped m m' e =
    let next = (serve_message-Served m m' e).next in
    record {
      own = ap (λ x. x.signals.sigusr.len) next;
      children = ap (λ x. x.signals.sigchld) next;
    }

-- The same of a death.
record Buried (m m' : Main) : Type 0 where
  own : m'.signals.sigchld.len ≡ sub_int m.signals.sigchld.len 1
  messages : m'.signals.sigusr ≡ m.signals.sigusr

end_if_over-signals :
    (m m' : Main) (r : Exchange × ℕ) → end_if_over m r ≡ goes_on m' → m'.signals ≡ m.signals
unfolding end_if_over
end_if_over-signals m m' (s, n) e = elim (Bool-cases (n == 0)) [
  | inl over ↦ absurd (let e' = rw (over, end_if_over) at e in cc)
  | inr not_over ↦
      let same : record m { exchange = s; num_active = n } ≡ m' =
        let e' = rw (not_over, end_if_over) at e in cc in
      ap (λ x. x.signals) (sym same)
]

serve_child-Buried : (m m' : Main) → serve_child m ≡ goes_on m' → Buried m m'
unfolding serve_child pop_sigchld pop_signal
serve_child-Buried m m' e =
    let same =
      end_if_over-signals (record m { signals = pop_sigchld m.signals }) m'
        (bury_process (first_signal m.signals.sigchld) m.pids 0 (m.exchange, m.num_active)) e in
    record { own = ap (λ x. x.sigchld.len) same; messages = ap (λ x. x.sigusr) same }

after_poll-signals : (m m' : Main) (p : Poll) → after_poll m p ≡ goes_on m' → m'.signals ≡ m.signals
after_poll-signals m m' (nothing eintr) e = elim (Bool-cases eintr) [
  | inl again ↦
      let same : m ≡ m' = let e' = rw (after_poll_nothing m eintr, again) at e in cc in
      ap (λ x. x.signals) (sym same)
  | inr failed ↦ absurd (let e' = rw (after_poll_nothing m eintr, failed) at e in cc)
]
after_poll-signals m m' (closed j) e = elim (Bool-cases (is_alive m.exchange.trader_list j)) [
  | inl alive ↦
      end_if_over-signals m m' (bury j (m.exchange, m.num_active))
        (rw (after_poll_closed m j, alive) at e)
  | inr dead ↦
      let same : m ≡ m' = let e' = rw (after_poll_closed m j, dead) at e in cc in
      ap (λ x. x.signals) (sym same)
]

-- All `n` messages that were pending after `k` are served, and no death is.
pub record AllServed (start : Main) (k : ℕ) (m m' : Main) : Type 0 where
  pub reached : Reach start (k + m.signals.sigusr.len) m'
  pub none_left : m'.signals.sigusr.len ≡ 0
  pub children : m'.signals.sigchld ≡ m.signals.sigchld

-- All deaths that were pending are served.
record AllBuried (start : Main) (k : ℕ) (m m' : Main) : Type 0 where
  reached : Reach start k m'
  none_left : m'.signals.sigchld.len ≡ 0
  messages : m'.signals.sigusr ≡ m.signals.sigusr

module _ (start : Main) where
  pub serve_messages-AllServed :
      (fuel k : ℕ) (m m' : Main)
      → m.signals.sigusr.len < int_max
      → Reach start k m
      → serve_messages fuel m ≡ goes_on m'
      → AllServed start k m m'
  unfolding serve_messages
  serve_messages-AllServed zero k m m' small r e = absurd cc
  serve_messages-AllServed (suc fuel) k m m' small r e =
      elim (Bool-cases (int_ltb 0 m.signals.sigusr.len)) [
        | inr none_waiting ↦
            let same : m ≡ m' = let e' = rw (none_waiting, serve_messages) at e in cc in
            let empty : m.signals.sigusr.len ≡ 0 = ground arith in
            record {
              reached =
                  subst (λ n. Reach start n m') (omega (arith, empty))
                    (subst (Reach start k) same r);
              none_left = ap (λ x. x.signals.sigusr.len) (sym same) ∙ empty;
              children = ap (λ x. x.signals.sigchld) (sym same);
            }
        | inl some_wait ↦
            let (m1, e1, e2) =
              and_then-goes_on (serve_message m) (λ x. serve_messages fuel x) m'
                (rw (some_wait, serve_messages) at e) in
            let p = serve_message-Popped m m1 e1 in
            let some_pending : 0 < m.signals.sigusr.len = ground arith in
            let rest =
              serve_messages-AllServed fuel (suc k) m1 m' (omega (arith, p.own))
                (message r some_wait e1) e2 in
            record {
              reached = subst (λ n. Reach start n m') (omega (arith, p.own)) rest.reached;
              none_left = rest.none_left;
              children = rest.children ∙ p.children;
            }
      ]

  serve_children-AllBuried :
      (fuel k : ℕ) (m m' : Main)
      → m.signals.sigchld.len < int_max
      → m.signals.sigusr.len ≡ 0
      → Reach start k m
      → serve_children fuel m ≡ goes_on m'
      → AllBuried start k m m'
  unfolding serve_children
  serve_children-AllBuried zero k m m' small quiet r e = absurd cc
  serve_children-AllBuried (suc fuel) k m m' small quiet r e =
      elim (Bool-cases (int_ltb 0 m.signals.sigchld.len && (m.signals.sigusr.len == 0))) [
        | inl some_wait ↦
            let (m1, e1, e2) =
              and_then-goes_on (serve_child m) (λ x. serve_children fuel x) m'
                (rw (some_wait, serve_children) at e) in
            let b = serve_child-Buried m m1 e1 in
            let dead : int_ltb 0 m.signals.sigchld.len ≡ true = ground arith in
            let some_dead : 0 < m.signals.sigchld.len = ground arith in
            let rest =
              serve_children-AllBuried fuel k m1 m' (omega (arith, b.own))
                (ap (λ x. x.len) b.messages ∙ quiet) (other r (serve_child m) (child dead quiet) e1)
                e2 in
            record {
              reached = rest.reached;
              none_left = rest.none_left;
              messages = rest.messages ∙ b.messages;
            }
        | inr none_waiting ↦
            let same : m ≡ m' = let e' = rw (none_waiting, serve_children) at e in cc in
            record {
              reached = subst (Reach start k) same r;
              none_left = ap (λ x. x.signals.sigchld.len) (sym same) ∙ ground arith;
              messages = ap (λ x. x.signals.sigusr) (sym same);
            }
      ]

  -- If a turn of main's loop, with no signal arriving in it and less than 2^31 pending in each
  -- queue, goes on to the next from variables that the steps reach with `k` messages, then the
  -- steps reach the variables after it with as many more messages as there were SIGUSR1 pending,
  -- and nothing is pending in either queue any more.
  pub main_round-Reach :
      (k : ℕ) (m m' : Main) (p : Poll)
      → Reach start k m
      → m.signals.sigusr.len < int_max
      → m.signals.sigchld.len < int_max
      → main_round m p ≡ goes_on m'
      → Reach start (k + m.signals.sigusr.len) m'
        × (m'.signals.sigusr.len ≡ 0)
        × (m'.signals.sigchld.len ≡ 0)
  unfolding main_round
  main_round-Reach k m m' p r small small' e =
      let (m1, e1, f1) = and_then-goes_on (serve_messages (suc m.signals.sigusr.len) m) _ m' e in
      let (m2, e2, f2) =
        and_then-goes_on (serve_children (suc m1.signals.sigchld.len) m1) _ m' f1 in
      let a = serve_messages-AllServed (suc m.signals.sigusr.len) k m m1 small r e1 in
      let n = k + m.signals.sigusr.len in
      let b =
        serve_children-AllBuried (suc m1.signals.sigchld.len) n m1 m2
          (omega (arith, ap (λ x. x.len) a.children, small')) a.none_left a.reached e2 in
      let same = after_poll-signals m2 m' p f2 in
      (
        other b.reached (after_poll m2 p) (poll p) f2,
        ap (λ x. x.sigusr.len) same ∙ ap (λ x. x.len) b.messages ∙ a.none_left,
        ap (λ x. x.sigchld.len) same ∙ b.none_left,
      )
