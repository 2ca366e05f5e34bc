-- ===== src/MainLoop/Steps.antt =====
-- Main and the outside, step by step: signals and bytes arrive between any two passes.
use pe_exchange.Common.{true, ℕ, zero, suc, ◌≡◌, [], ◌∷◌, ◌++◌, modify}
use pe_exchange.Signals.{sigusr_handler, sigchld_handler}
use pe_exchange.Pipes.Reading.{ReadResult}
use pe_exchange.MainLoop.{
  int_ltb, Main, Round, goes_on, serve_message, serve_child, Poll, after_poll,
}

-- A step without a message.
pub data Step (m : Main) : Round → Type 0 where
  usr1_arrives : (pid : ℕ) → Step m (goes_on (record m { signals = sigusr_handler m.signals pid }))
  chld_arrives : (pid : ℕ) → Step m (goes_on (record m { signals = sigchld_handler m.signals pid }))
  byte_arrives :
      (i : ℕ) (r : ReadResult)
      → Step m (goes_on (record m { pipes = modify m.pipes i (λ rs. rs ++ (r ∷ [])) }))
  child : int_ltb 0 m.signals.sigchld.len ≡ true → m.signals.sigusr.len ≡ 0 → Step m (serve_child m)
  poll : (p : Poll) → Step m (after_poll m p)

-- What main comes to after `k` messages and any other steps.
pub data Reach (start : Main) : ℕ → Main → Type 0 where
  here : Reach start zero start
  other :
      {k : ℕ} {m m' : Main}
      → Reach start k m
      → (r : Round) → Step m r
      → r ≡ goes_on m'
      → Reach start k m'
  message :
      {k : ℕ} {m m' : Main}
      → Reach start k m
      → int_ltb 0 m.signals.sigusr.len ≡ true
      → serve_message m ≡ goes_on m'
      → Reach start (suc k) m'
