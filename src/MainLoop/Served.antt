-- ===== src/MainLoop/Served.antt =====
-- What main has done when a pass over SIGUSR1 is behind it.
use pe_exchange.Common.{
  sym, if◌then◌else◌, false, Bool, true, ℕ, suc, ◌≡◌, refl, ap, ◌∙◌, inl, inr, List, [], ◌∷◌, some,
  arith, length, ◌==◌, ◌||◌, Bool-cases, Option-cases, set, get_or, length-set,
}
use pe_exchange.Common.Text.{Bytes}
use pe_exchange.Types.{printed, Exchange}
use pe_exchange.Signals.{first_signal, pop_sigusr}
use pe_exchange.Orderbook.Matching.{emit}
use pe_exchange.Pipes.Reading.{
  ReadResult, byte, end_of_pipe, interrupted, failed, ReadOutcome, returned, overrun, waiting,
  Reading, process_msg, process_from, close_msg, text_in, clear_msg,
}
use pe_exchange.Pipes.Messages.{parse_msg}
use pe_exchange.MainLoop.{
  Main, goes_on, faults, uses_freed, free_all, find_trader, command_line, handle_message,
  after_reading, serve_message,
}

length-process_from :
    (msg : Bytes) (count : ℕ) (rs : List ReadResult)
    → length (process_from msg count rs).msg ≡ length msg
unfolding process_from close_msg
length-process_from msg count [] = refl
length-process_from msg count (end_of_pipe ∷ rs) = refl
length-process_from msg count (interrupted ∷ rs) = refl
length-process_from msg count (failed ∷ rs) = refl
length-process_from msg count (byte c ∷ rs) = ground (
  arith,
  length-set msg count c,
  length-set (set msg count c) (suc count) 0,
  length-process_from (set msg count c) (suc count) rs,
)

length-clear_msg : (msg : Bytes) → length (clear_msg msg) ≡ length msg
unfolding clear_msg
length-clear_msg [] = refl
length-clear_msg (c ∷ msg) = ap suc (length-clear_msg msg)

-- The array is cleared as a whole.
pub length-clear_msg-process_msg :
    (msg : Bytes) (rs : List ReadResult) → length (clear_msg (process_msg msg rs).msg) ≡ length msg
unfolding process_msg
length-clear_msg-process_msg msg rs =
    length-clear_msg (process_from msg 0 rs).msg ∙ length-process_from msg 0 rs

-- The read of trader `i`.
abbrev pub read_of : Main → ℕ → Reading
read_of m i = process_msg m.msg (get_or m.pipes i [])

-- The trader was found, its text read and answered.
pub record Served (m m' : Main) : Type 0 where
  pub trader : ℕ
  pub after : Exchange
  pub known : find_trader (first_signal m.signals.sigusr) m.pids 0 ≡ some trader
  pub answered :
      parse_msg
        (emit m.exchange (printed (command_line trader (text_in (read_of m trader).msg)) ∷ []))
        m.products
        (text_in (read_of m trader).msg)
        trader
      ≡ some after
  pub next : m' ≡ record m {
    exchange = after;
    signals = pop_sigusr m.signals;
    msg = clear_msg (read_of m trader).msg;
    pipes = set m.pipes trader (read_of m trader).left;
  }

-- Once the memory is freed, no message is handled.
pub handle_message_freed :
    (m : Main) (i : ℕ) (r : Reading)
    → (handle_message (free_all m) (pop_sigusr m.signals) i r
        ≡ (if length (text_in r.msg) == 0 then faults else uses_freed))
unfolding handle_message free_all
handle_message_freed m i r = elim (Bool-cases (length (text_in r.msg) == 0)) [
  | inl empty ↦ simp empty refl
  | inr some_text ↦ simp some_text refl
]

pub after_reading_freed :
    (m : Main) (i n : ℕ) (r : Reading)
    → ((n == 1) || (n == 0)) ≡ true
    → after_reading m (pop_sigusr m.signals) i r (returned n)
      ≡ (if length (text_in r.msg) == 0 then faults else uses_freed)
unfolding after_reading
after_reading_freed m i n r bad =
    ap (λ b. handle_message (if b then free_all m else m) (pop_sigusr m.signals) i r) bad
    ∙ handle_message_freed m i r

pub after_reading_good :
    (m : Main) (i n : ℕ) (r : Reading)
    → ((n == 1) || (n == 0)) ≡ false
    → after_reading m (pop_sigusr m.signals) i r (returned n)
      ≡ handle_message m (pop_sigusr m.signals) i r
unfolding after_reading
after_reading_good m i n r good =
    ap (λ b. handle_message (if b then free_all m else m) (pop_sigusr m.signals) i r) good

module _ (m m' : Main) (i : ℕ)
    (known : find_trader (first_signal m.signals.sigusr) m.pids 0 ≡ some i) where
  handle_message-Served :
      handle_message m (pop_sigusr m.signals) i (read_of m i) ≡ goes_on m' → Served m m'
  unfolding handle_message
  handle_message-Served e =
      let text = text_in (read_of m i).msg in
      let parsed =
        parse_msg (emit m.exchange (printed (command_line i text) ∷ [])) m.products text i in
      elim (Bool-cases (length text == 0)) [
        | inl empty ↦ absurd (let e' = simp empty at e in cc)
        | inr some_text ↦ elim (Bool-cases m.freed) [
          | inl gone ↦ absurd (let e' = simp (some_text, gone) at e in cc)
          | inr kept ↦ elim (Option-cases parsed) [
            | inl out ↦ absurd (let e' = simp (some_text, kept, out) at e in cc)
            | inr (s, q) ↦ record {
              trader = i;
              after = s;
              known = known;
              answered = q;
              next = let e' = simp (some_text, kept, q) at e in cc;
            }
          ]
        ]
      ]

  after_reading-Served :
      (o : ReadOutcome)
      → after_reading m (pop_sigusr m.signals) i (read_of m i) o ≡ goes_on m'
      → Served m m'
  unfolding after_reading
  after_reading-Served waiting e = absurd cc
  after_reading-Served overrun e = absurd cc
  after_reading-Served (returned n) e = elim (Bool-cases ((n == 1) || (n == 0))) [
    | inl bad ↦ absurd (
        no_message (length (text_in (read_of m i).msg) == 0)
          (sym (after_reading_freed m i n (read_of m i) bad) ∙ e))
    | inr good ↦ handle_message-Served (sym (after_reading_good m i n (read_of m i) good) ∙ e)
  ]
    where
      no_message : (b : Bool) → (if b then faults else uses_freed) ≡ goes_on m' → ⊥
      no_message true q = cc
      no_message false q = cc

pub serve_message-Served : (m m' : Main) → serve_message m ≡ goes_on m' → Served m m'
unfolding serve_message
serve_message-Served m m' e =
    elim (Option-cases (find_trader (first_signal m.signals.sigusr) m.pids 0)) [
      | inl unknown ↦ absurd (let e' = rw (unknown, serve_message) at e in cc)
      | inr (i, known) ↦
          after_reading-Served m m' i known (read_of m i).outcome (rw (known, serve_message) at e)
    ]
