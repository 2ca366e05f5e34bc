-- ===== src/MainLoop/Serving.antt =====
-- The loop over SIGUSR1 comes to an end.
use pe_exchange.Common.{
  ℕ, zero, suc, ◌+◌, ◌≤◌, ◌<◌, ◌≡◌, refl, ap, sym, subst, inl, inr, Bool, true, false, arith,
  Bool-cases, Option-cases, ◌==◌, ◌||◌, if◌then◌else◌, length,
}
use pe_exchange.Common.Scan.{int_ltb}
use pe_exchange.Signals.{pop_sigusr, first_signal}
use pe_exchange.Pipes.Reading.{ReadOutcome, returned, overrun, waiting, text_in}
use pe_exchange.MainLoop.{
  Main, Round, goes_on, exits, fails, waits, faults, uses_freed, unfinished, and_then,
  serve_message, serve_messages, find_trader, handle_message, after_reading,
}
use pe_exchange.MainLoop.Steps.{Reach}
use pe_exchange.MainLoop.Running.{emit-IsSound, parse_msg-IsSound}
use pe_exchange.MainLoop.Served.{read_of, after_reading_good, after_reading_freed}
use pe_exchange.MainLoop.Invariant.{IsRunning, serve_message-IsRunning, Reach-IsRunning}
use pe_exchange.MainLoop.Answers.{told, serve_message_known}
use pe_exchange.MainLoop.Stopping.{Stopped, serve_messages-cases}
use pe_exchange.MainLoop.Turns.{serve_message-Popped, AllServed, serve_messages-AllServed}

-- What a pass over SIGUSR1 may end with, for a main that is running: not with an exit, a `return 1` or
-- fuel that has run out.
abbrev IsServed : Round → Type 0
IsServed (goes_on m) = Unit {0}
IsServed (exits s) = ⊥
IsServed fails = ⊥
IsServed waits = Unit {0}
IsServed faults = Unit {0}
IsServed uses_freed = Unit {0}
IsServed unfinished = ⊥

choice-IsServed : (b : Bool) → IsServed (if b then faults else uses_freed)
choice-IsServed true = tt
choice-IsServed false = tt

module _ (start : Main) where
  handle_message-IsServed :
      (k : ℕ) (m : Main) (i : ℕ)
      → IsRunning start k m
      → k < 2147
      → IsServed (handle_message m (pop_sigusr m.signals) i (read_of m i))
  unfolding handle_message
  handle_message-IsServed k m i run few =
      let text = text_in (read_of m i).msg in
      let n = length start.products in
      let (s, e, h) =
        parse_msg-IsSound start.exchange n k (told m i text) m.num_active m.products text i
          (ap length run.products) few
          (emit-IsSound start.exchange n k m.exchange m.num_active _ run.sound) in
      elim (Bool-cases (length text == 0)) [
        | inl empty ↦ simp empty tt
        | inr some_text ↦ simp (some_text, run.kept_memory, e) tt
      ]

  after_reading-IsServed :
      (k : ℕ) (m : Main) (i : ℕ) (o : ReadOutcome)
      → IsRunning start k m
      → k < 2147
      → IsServed (after_reading m (pop_sigusr m.signals) i (read_of m i) o)
  unfolding after_reading
  after_reading-IsServed k m i waiting run few = tt
  after_reading-IsServed k m i overrun run few = tt
  after_reading-IsServed k m i (returned n) run few = elim (Bool-cases ((n == 1) || (n == 0))) [
    | inl bad ↦
        subst IsServed (sym (after_reading_freed m i n (read_of m i) bad))
          (choice-IsServed (length (text_in (read_of m i).msg) == 0))
    | inr good ↦
        subst IsServed (sym (after_reading_good m i n (read_of m i) good))
          (handle_message-IsServed k m i run few)
  ]

  serve_message-IsServed :
      (k : ℕ) (m : Main) → IsRunning start k m → k < 2147 → IsServed (serve_message m)
  unfolding serve_message
  serve_message-IsServed k m run few =
      elim (Option-cases (find_trader (first_signal m.signals.sigusr) m.pids 0)) [
        | inl unknown ↦ rw (unknown, serve_message) tt
        | inr (i, known) ↦
            subst IsServed (sym (serve_message_known m i known))
              (after_reading-IsServed k m i (read_of m i).outcome run few)
      ]

  -- How the loop over SIGUSR1 ends from `m`.
  abbrev pub Serves : ℕ → Main → Round → Type 0
  Serves k m (goes_on m') = IsRunning start (k + m.signals.sigusr.len) m' × AllServed start k m m'
  Serves k m (exits s) = ⊥
  Serves k m fails = ⊥
  Serves k m waits = Stopped start k m waits
  Serves k m faults = Stopped start k m faults
  Serves k m uses_freed = Stopped start k m uses_freed
  Serves k m unfinished = ⊥

  serve_messages-IsServed :
      (fuel k : ℕ) (m : Main)
      → IsRunning start k m
      → k + m.signals.sigusr.len ≤ 2147
      → m.signals.sigusr.len < fuel
      → IsServed (serve_messages fuel m)
  unfolding serve_messages
  serve_messages-IsServed zero k m run few enough = absurd (omega arith)
  serve_messages-IsServed (suc fuel) k m run few enough =
      elim (Bool-cases (int_ltb 0 m.signals.sigusr.len)) [
        | inr none_waiting ↦ simp none_waiting tt
        | inl some_wait ↦
            let some_pending : 0 < m.signals.sigusr.len = ground arith in
            simp some_wait (
              after (serve_message m) refl some_pending
                (serve_message-IsServed k m run (omega arith))
                (λ m1. serve_messages-IsServed fuel (suc k) m1))
      ]
    where
      after :
          (r : Round)
          → serve_message m ≡ r
          → 0 < m.signals.sigusr.len
          → IsServed r
          → ((m1 : Main)
              → IsRunning start (suc k) m1
              → suc k + m1.signals.sigusr.len ≤ 2147
              → m1.signals.sigusr.len < fuel
              → IsServed (serve_messages fuel m1))
          → IsServed (and_then r (λ x. serve_messages fuel x))
      after (goes_on m1) e pos h rest =
          let p = serve_message-Popped m m1 e in
          let one_less : suc m1.signals.sigusr.len ≡ m.signals.sigusr.len = ground (arith, p.own) in
          rest m1 (serve_message-IsRunning start k m m1 (omega arith) run e)
            (omega (arith, one_less)) (omega (arith, one_less))
      after (exits s) e pos h rest = h
      after fails e pos h rest = h
      after waits e pos h rest = h
      after faults e pos h rest = h
      after uses_freed e pos h rest = h
      after unfinished e pos h rest = h

  -- If main was running at the start and the steps reach its variables with `k` messages, `k` and
  -- the number of pending SIGUSR1 are together at most 2147, and the fuel is above that number,
  -- then the loop over SIGUSR1 neither runs out of fuel nor leaves main. It waits in a read, faults
  -- or uses freed memory only where a pass that it reaches does so, with its signal still pending
  -- and one message for each signal taken before. Otherwise it goes on: main is running, reached
  -- with exactly one message for each signal that was pending, with no SIGUSR1 left and the queue
  -- of SIGCHLD as it was.
  pub serve_messages-Serves :
      (fuel k : ℕ) (m : Main)
      → IsRunning start 0 start
      → Reach start k m
      → k + m.signals.sigusr.len ≤ 2147
      → m.signals.sigusr.len < fuel
      → Serves k m (serve_messages fuel m)
  serve_messages-Serves fuel k m i r few enough =
      serves (serve_messages fuel m) refl
        (serve_messages-IsServed fuel k m (Reach-IsRunning start k m i r (omega arith)) few enough)
    where
      only :
          (x : Round)
          → ((m' : Main) → x ≡ goes_on m' → ⊥)
          → serve_messages fuel m ≡ x
          → Stopped start k m x
      only x not_on e = elim (serve_messages-cases start fuel k m r (omega arith) enough x e) [
        | inl on ↦ absurd (not_on on.0 on.1)
        | inr s ↦ s
      ]

      serves : (x : Round) → serve_messages fuel m ≡ x → IsServed x → Serves k m x
      serves (goes_on m') e h =
          let a = serve_messages-AllServed start fuel k m m' (omega arith) r e in
          (Reach-IsRunning start (k + m.signals.sigusr.len) m' i a.reached few, a)
      serves (exits s) e h = h
      serves fails e h = h
      serves waits e h = only waits (λ m' q. cc) e
      serves faults e h = only faults (λ m' q. cc) e
      serves uses_freed e h = only uses_freed (λ m' q. cc) e
      serves unfinished e h = h
