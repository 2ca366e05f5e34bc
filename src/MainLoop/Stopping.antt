-- ===== src/MainLoop/Stopping.antt =====
-- Where the loop over SIGUSR1 stops, if it does not come to its end.
use pe_exchange.Common.{
  ℕ, zero, suc, ◌+◌, ◌<◌, ◌≡◌, refl, sym, subst, ◌∙◌, inl, inr, ◌⊎◌, true, arith, Bool-cases,
  int_max,
}
use pe_exchange.Common.Scan.{int_ltb}
use pe_exchange.MainLoop.{
  Main, Round, goes_on, exits, fails, waits, faults, uses_freed, unfinished, and_then,
  serve_message, serve_messages,
}
use pe_exchange.MainLoop.Steps.{Reach, message}
use pe_exchange.MainLoop.Turns.{serve_message-Popped}

module _ (start : Main) where
  -- A pass over SIGUSR1 has ended with `r`, after `taken` messages, with its signal pending.
  pub record Stopped (k : ℕ) (m : Main) (r : Round) : Type 0 where
    pub taken : ℕ
    pub at_pass : Main
    pub reached : Reach start (k + taken) at_pass
    pub counted : taken + at_pass.signals.sigusr.len ≡ m.signals.sigusr.len
    pub some_left : 0 < at_pass.signals.sigusr.len
    pub outcome : serve_message at_pass ≡ r

  stops_here :
      (k : ℕ) (m : Main) (r : Round)
      → Reach start k m
      → 0 < m.signals.sigusr.len
      → serve_message m ≡ r
      → Stopped k m r
  stops_here k m r h pos e = record {
    taken = 0;
    at_pass = m;
    reached = subst (λ n. Reach start n m) (omega arith) h;
    counted = omega arith;
    some_left = pos;
    outcome = e;
  }

  stops_later :
      (k : ℕ) (m m1 : Main) (r : Round)
      → suc m1.signals.sigusr.len ≡ m.signals.sigusr.len
      → Stopped (suc k) m1 r
      → Stopped k m r
  stops_later k m m1 r one_less s = record {
    taken = suc s.taken;
    at_pass = s.at_pass;
    reached = subst (λ n. Reach start n s.at_pass) (omega arith) s.reached;
    counted = omega (arith, one_less, s.counted);
    some_left = s.some_left;
    outcome = s.outcome;
  }

  -- The loop goes on to its end, or stops at a pass.
  pub serve_messages-cases :
      (fuel k : ℕ) (m : Main)
      → Reach start k m
      → m.signals.sigusr.len < int_max
      → m.signals.sigusr.len < fuel
      → (r : Round) → serve_messages fuel m ≡ r
      → ((m' : Main) × (r ≡ goes_on m')) ⊎ Stopped k m r
  unfolding serve_messages
  serve_messages-cases zero k m h small enough r e = absurd (omega arith)
  serve_messages-cases (suc fuel) k m h small enough r e =
      elim (Bool-cases (int_ltb 0 m.signals.sigusr.len)) [
        | inr none_waiting ↦ inl (m, sym (let e' = rw (none_waiting, serve_messages) at e in e'))
        | inl some_wait ↦
            let some_pending : 0 < m.signals.sigusr.len = ground arith in
            after (serve_message m) refl some_wait some_pending
              (rw (some_wait, serve_messages) at e) (λ m1. serve_messages-cases fuel (suc k) m1)
      ]
    where
      after :
          (x : Round)
          → serve_message m ≡ x
          → int_ltb 0 m.signals.sigusr.len ≡ true
          → 0 < m.signals.sigusr.len
          → and_then x (λ y. serve_messages fuel y) ≡ r
          → ((m1 : Main)
              → Reach start (suc k) m1
              → m1.signals.sigusr.len < int_max
              → m1.signals.sigusr.len < fuel
              → (r : Round) → serve_messages fuel m1 ≡ r
              → ((m' : Main) × (r ≡ goes_on m')) ⊎ Stopped (suc k) m1 r)
          → ((m' : Main) × (r ≡ goes_on m')) ⊎ Stopped k m r
      after (goes_on m1) e1 wait pos e2 rest =
          let p = serve_message-Popped m m1 e1 in
          let one_less : suc m1.signals.sigusr.len ≡ m.signals.sigusr.len = ground (arith, p.own) in
          elim (rest m1 (message h wait e1) (omega (arith, one_less)) (omega (arith, one_less)) r
            e2) [ inl done ↦ inl done | inr s ↦ inr (stops_later k m m1 r one_less s) ]
      after (exits s) e1 wait pos e2 rest = inr (stops_here k m r h pos (e1 ∙ e2))
      after fails e1 wait pos e2 rest = inr (stops_here k m r h pos (e1 ∙ e2))
      after waits e1 wait pos e2 rest = inr (stops_here k m r h pos (e1 ∙ e2))
      after faults e1 wait pos e2 rest = inr (stops_here k m r h pos (e1 ∙ e2))
      after uses_freed e1 wait pos e2 rest = inr (stops_here k m r h pos (e1 ∙ e2))
      after unfinished e1 wait pos e2 rest = inr (stops_here k m r h pos (e1 ∙ e2))
