-- ===== src/MainLoop/Answers.antt =====
-- What a pass over SIGUSR1 does with a whole message, and with one that is empty.
use pe_exchange.Common.{
  if◌then◌else◌, ℕ, ◌+◌, ◌≤◌, ◌<◌, ◌≡◌, refl, ap, sym, subst, ◌∙◌, false, List, [], ◌∷◌, ◌++◌, some,
  arith, ◌==◌, length, length-append, get_or, set, replicate, All,
}
use pe_exchange.Common.Text.{Bytes}
use pe_exchange.Types.{printed, Exchange}
use pe_exchange.Signals.{first_signal, pop_sigusr}
use pe_exchange.Orderbook.Matching.{emit}
use pe_exchange.Pipes.Reading.{ReadResult, byte, Reading, process_msg, clear_msg}
use pe_exchange.Pipes.Reading.Message.{bytes, IsInner, IsRead, process_msg-IsRead}
use pe_exchange.Pipes.Messages.{parse_msg}
use pe_exchange.MainLoop.{
  uses_freed, Main, goes_on, faults, find_trader, command_line, handle_message, after_reading,
  serve_message,
}
use pe_exchange.MainLoop.Running.{emit-IsSound, parse_msg-IsSound}
use pe_exchange.MainLoop.Served.{read_of, after_reading_good, after_reading_freed}
use pe_exchange.MainLoop.Invariant.{IsRunning}

clear_msg-replicate : (msg : Bytes) → clear_msg msg ≡ replicate (length msg) 0
unfolding clear_msg
clear_msg-replicate [] = refl
clear_msg-replicate (c ∷ msg) = ap (◌∷◌ 0) (clear_msg-replicate msg)

pub serve_message_known :
    (m : Main) (i : ℕ)
    → find_trader (first_signal m.signals.sigusr) m.pids 0 ≡ some i
    → serve_message m ≡ after_reading m (pop_sigusr m.signals) i (read_of m i) (read_of m i).outcome
unfolding serve_message after_reading
serve_message_known m i known = rw (known, serve_message) refl

-- The exchange that handles the text, with the line that main has printed.
abbrev pub told : Main → ℕ → Bytes → Exchange
told m i text = emit m.exchange (printed (command_line i text) ∷ [])

-- Main's variables after a message of trader `i` that led to the exchange `s`.
abbrev pub after_message : Main → ℕ → Exchange → List ReadResult → Main
after_message m i s rs = record m {
  exchange = s;
  signals = pop_sigusr m.signals;
  msg = replicate (length m.msg) 0;
  pipes = set m.pipes i rs;
}

module _ (m : Main) (i : ℕ) (body : Bytes) (rs : List ReadResult) (s : Exchange) where
  handle_message-goes_on :
      (r : Reading)
      → IsRead body m.msg rs r
      → parse_msg (told m i (body ++ (b';' ∷ []))) m.products (body ++ (b';' ∷ [])) i ≡ some s
      → m.freed ≡ false
      → handle_message m (pop_sigusr m.signals) i r ≡ goes_on (after_message m i s rs)
  unfolding handle_message pop_sigusr
  handle_message-goes_on r d e kept =
      let some_text : (length (body ++ (b';' ∷ [])) == 0) ≡ false =
        ground (arith, length-append body (b';' ∷ [])) in
      let cleared : clear_msg r.msg ≡ replicate (length m.msg) 0 =
        clear_msg-replicate r.msg ∙ ap (λ n. replicate n 0) d.same_array in
      simp (d.text, some_text, kept, e, cleared, d.left) refl

-- If main is running after fewer than 2147 messages, the oldest pending SIGUSR1 is of a known
-- trader, and that trader's pipe has a text of at least one byte, with no `;` and no zero, that
-- fits main's array with the `;` and a zero behind it, then a pass over SIGUSR1 ends: `parse_msg`
-- is called for the trader with exactly this text and its `;`, after the line that main prints, and
-- returns; main goes on with the exchange it gives, the signal popped, the bytes of the message
-- read and no others, and the array cleared.
pub serve_message-goes_on :
    (start : Main) (k : ℕ) (m : Main) (i : ℕ) (body : Bytes) (rs : List ReadResult)
    → IsRunning start k m
    → k < 2147
    → find_trader (first_signal m.signals.sigusr) m.pids 0 ≡ some i
    → get_or m.pipes i [] ≡ bytes body (byte b';' ∷ rs)
    → All IsInner body
    → 0 < length body
    → length body + 2 ≤ length m.msg
    → (s : Exchange) × (parse_msg
          (told m i (body ++ (b';' ∷ [])))
          m.products
          (body ++ (b';' ∷ []))
          i
        ≡ some s)
      × (serve_message m ≡ goes_on (after_message m i s rs))
serve_message-goes_on start k m i body rs run few known comes inner not_empty fits =
    let text = body ++ (b';' ∷ []) in
    let d : IsRead body m.msg rs (read_of m i) =
      subst (λ x. IsRead body m.msg rs (process_msg m.msg x)) (sym comes)
        (process_msg-IsRead body m.msg rs inner fits) in
    let n = length start.products in
    let (s, e, h) =
      parse_msg-IsSound start.exchange n k (told m i text) m.num_active m.products text i
        (ap length run.products) few
        (emit-IsSound start.exchange n k m.exchange m.num_active _ run.sound) in
    (
      s,
      e,
      serve_message_known m i known
          ∙ ap (after_reading m (pop_sigusr m.signals) i (read_of m i)) d.outcome
          ∙ after_reading_good m i (length body + 1) (read_of m i) (ground arith)
          ∙ handle_message-goes_on m i body rs s (read_of m i) d e run.kept_memory,
    )

-- If the oldest pending SIGUSR1 is of a known trader whose pipe gives a `;` first of all, and the
-- array has at least two places, the pass over SIGUSR1 uses memory that main has freed.
pub serve_message-uses_freed :
    (m : Main) (i : ℕ) (rs : List ReadResult)
    → find_trader (first_signal m.signals.sigusr) m.pids 0 ≡ some i
    → get_or m.pipes i [] ≡ byte b';' ∷ rs
    → 2 ≤ length m.msg
    → serve_message m ≡ uses_freed
serve_message-uses_freed m i rs known lone fits =
    let d : IsRead [] m.msg rs (read_of m i) =
      subst (λ x. IsRead [] m.msg rs (process_msg m.msg x)) (sym lone)
        (process_msg-IsRead [] m.msg rs tt fits) in
    serve_message_known m i known
    ∙ ap (after_reading m (pop_sigusr m.signals) i (read_of m i)) d.outcome
    ∙ after_reading_freed m i 1 (read_of m i) refl
    ∙ ap (λ x. if length x == 0 then faults else uses_freed) d.text
