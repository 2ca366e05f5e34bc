-- ===== src/MainLoop/Invariant.antt =====
-- What holds of main's variables at every turn of its loop, however the signals, the bytes and the
-- results of the system fall.
use pe_exchange.Common.{
  false, ℕ, suc, ◌≤◌, ◌<◌, ◌≡◌, refl, ap, sym, subst, ◌∙◌, inl, inr, Bool, List, [], ◌∷◌, arith,
  length, if◌then◌else◌, ◌==◌, Bool-cases, get_or,
}
use pe_exchange.Types.{printed, Exchange}
use pe_exchange.Signals.{Signals, first_signal, pop_sigchld, sigusr_handler, sigchld_handler}
use pe_exchange.Orderbook.Matching.{emit}
use pe_exchange.Pipes.Reading.{text_in}
use pe_exchange.MainLoop.{
  uses_freed, unfinished, Main, Round, goes_on, exits, faults, fails, waits, command_line,
  serve_message, serve_child, Poll, closed, nothing, after_poll, bury, end_if_over, is_alive,
}
use pe_exchange.MainLoop.Steps.{
  Step, usr1_arrives, chld_arrives, byte_arrives, child, poll, Reach, here, other, message,
}
use pe_exchange.MainLoop.Running.{
  IsSound, emit-IsSound, ArePairSound, bury-IsSound, bury_process-IsSound, parse_msg-IsSound,
}
use pe_exchange.MainLoop.Served.{serve_message-Served, length-clear_msg-process_msg, read_of}

-- Main's variables after `k` messages, from `start` on: the exchange is sound, the living traders are
-- counted, somebody is alive, and nothing else of what main set up has changed.
pub record IsRunning (start : Main) (k : ℕ) (m : Main) : Type 0 where
  pub sound : IsSound start.exchange (length start.products) k m.exchange m.num_active
  pub some_alive : 0 < m.num_active
  pub products : m.products ≡ start.products
  pub pids : m.pids ≡ start.pids
  pub array : length m.msg ≡ length start.msg
  pub kept_memory : m.freed ≡ false

pub after_poll_nothing :
    (m : Main) (eintr : Bool) → after_poll m (nothing eintr) ≡ (if eintr then goes_on m else fails)
unfolding after_poll
after_poll_nothing m eintr = refl

pub after_poll_closed :
    (m : Main) (j : ℕ)
    → after_poll m (closed j) ≡ (
        if is_alive m.exchange.trader_list j
        then end_if_over m (bury j (m.exchange, m.num_active))
        else goes_on m)
unfolding after_poll
after_poll_closed m j = refl

module _ (start : Main) where
  -- What a round leaves, if main goes on after it.
  abbrev pub GoesOnRunning : ℕ → Round → Type 0
  GoesOnRunning k (goes_on m) = IsRunning start k m
  GoesOnRunning k (exits s) = Unit {0}
  GoesOnRunning k fails = Unit {0}
  GoesOnRunning k waits = Unit {0}
  GoesOnRunning k faults = Unit {0}
  GoesOnRunning k uses_freed = Unit {0}
  GoesOnRunning k unfinished = Unit {0}

  pub end_if_over-GoesOnRunning :
      (k : ℕ) (m : Main) (r : Exchange × ℕ)
      → IsRunning start k m
      → ArePairSound start.exchange (length start.products) k r
      → GoesOnRunning k (end_if_over m r)
  unfolding end_if_over
  end_if_over-GoesOnRunning k m (s, num_active) i h = elim (Bool-cases (num_active == 0)) [
    | inl over ↦ simp over tt
    | inr not_over ↦
        let some_left : 0 < num_active = ground arith in
        simp not_over (record {
          sound = h;
          some_alive = some_left;
          products = i.products;
          pids = i.pids;
          array = i.array;
          kept_memory = i.kept_memory;
        })
  ]

  -- Signals and pipes are nothing that a running main depends on.
  outside :
      (k : ℕ) (m : Main) (g : Signals) (ps : List (List _))
      → IsRunning start k m
      → IsRunning start k (record m { signals = g; pipes = ps })
  outside k m g ps i = record {
    sound = i.sound;
    some_alive = i.some_alive;
    products = i.products;
    pids = i.pids;
    array = i.array;
    kept_memory = i.kept_memory;
  }

  pub serve_child-GoesOnRunning :
      (k : ℕ) (m : Main) → IsRunning start k m → GoesOnRunning k (serve_child m)
  unfolding serve_child
  serve_child-GoesOnRunning k m i =
      end_if_over-GoesOnRunning k (record m { signals = pop_sigchld m.signals }) _
        (outside k m (pop_sigchld m.signals) m.pipes i)
        (bury_process-IsSound start.exchange (length start.products) k
          (first_signal m.signals.sigchld) m.pids 0 (m.exchange, m.num_active) i.sound)

  pub after_poll-GoesOnRunning :
      (k : ℕ) (m : Main) (p : Poll) → IsRunning start k m → GoesOnRunning k (after_poll m p)
  after_poll-GoesOnRunning k m (nothing eintr) i = elim (Bool-cases eintr) [
    | inl again ↦ rw (after_poll_nothing m eintr, again) i
    | inr failed ↦ rw (after_poll_nothing m eintr, failed) tt
  ]
  after_poll-GoesOnRunning k m (closed j) i =
      elim (Bool-cases (is_alive m.exchange.trader_list j)) [
        | inl alive ↦
            rw (after_poll_closed m j, alive)
              (end_if_over-GoesOnRunning k m (bury j (m.exchange, m.num_active)) i (
                bury-IsSound start.exchange (length start.products) k j (m.exchange, m.num_active)
                  i.sound))
        | inr dead ↦ rw (after_poll_closed m j, dead) i
      ]

  Step-GoesOnRunning :
      (k : ℕ) (m : Main) (r : Round) → IsRunning start k m → Step m r → GoesOnRunning k r
  Step-GoesOnRunning k m _ i (usr1_arrives pid) =
      outside k m (sigusr_handler m.signals pid) m.pipes i
  Step-GoesOnRunning k m _ i (chld_arrives pid) =
      outside k m (sigchld_handler m.signals pid) m.pipes i
  Step-GoesOnRunning k m _ i (byte_arrives j r) = outside k m m.signals _ i
  Step-GoesOnRunning k m _ i (child h g) = serve_child-GoesOnRunning k m i
  Step-GoesOnRunning k m _ i (poll p) = after_poll-GoesOnRunning k m p i

  -- A message that main has served.
  pub serve_message-IsRunning :
      (k : ℕ) (m m' : Main)
      → k < 2147
      → IsRunning start k m
      → serve_message m ≡ goes_on m'
      → IsRunning start (suc k) m'
  serve_message-IsRunning k m m' few i e =
      let d = serve_message-Served m m' e in
      let text = text_in (read_of m d.trader).msg in
      let (s', q, h) =
        parse_msg-IsSound start.exchange (length start.products) k
          (emit m.exchange (printed (command_line d.trader text) ∷ [])) m.num_active m.products text
          d.trader (ap length i.products) few
          (emit-IsSound start.exchange (length start.products) k m.exchange m.num_active
            (printed (command_line d.trader text) ∷ []) i.sound) in
      let same : d.after ≡ s' = cc in
      subst (IsRunning start (suc k)) (sym d.next) (record {
        sound =
            subst (λ x. IsSound start.exchange (length start.products) (suc k) x m.num_active)
              (sym same) h;
        some_alive = i.some_alive;
        products = i.products;
        pids = i.pids;
        array = length-clear_msg-process_msg m.msg (get_or m.pipes d.trader []) ∙ i.array;
        kept_memory = i.kept_memory;
      })

  -- A running main is running after any number of messages up to 2147, and any other steps.
  pub Reach-IsRunning :
      (k : ℕ) (m : Main)
      → IsRunning start 0 start
      → Reach start k m
      → k ≤ 2147
      → IsRunning start k m
  Reach-IsRunning _ _ i here few = i
  Reach-IsRunning _ m' i (other {k} {m} before r step e) few =
      subst (GoesOnRunning k) e (Step-GoesOnRunning k m r (Reach-IsRunning k m i before few) step)
  Reach-IsRunning _ m' i (message {k} {m} before some_pending e) few =
      serve_message-IsRunning k m m' (omega arith) (Reach-IsRunning k m i before (omega arith)) e
