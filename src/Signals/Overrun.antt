-- ===== src/Signals/Overrun.antt =====
-- A signal queue wraps at 50, although its array has 100 places, and no handler looks at its length.
use pe_exchange.Common.{ℕ, ◌<◌, ◌≡◌, ap, ◌∙◌, List, [], ◌∷◌, ◌++◌, arith, get_or-set_self, add_int}
use pe_exchange.Signals.{SignalQueue, push_signal, next_index}
use pe_exchange.Signals.Fifo.{IsValid, pending, entries, entries-set_end, next_index-lt, ahead}

round_trip : (i : ℕ) → i < 50 → i ≡ ahead (next_index i) 49
unfolding next_index
round_trip i h = ground arith

-- If a valid queue has 50 signals pending, the next one takes the place of the oldest: that one is
-- lost, and the new one is pending twice, first of all and last of all.
pub push_signal_overrun :
    (q : SignalQueue) (pid oldest : ℕ) (later : List ℕ)
    → IsValid q
    → q.len ≡ 50
    → pending q ≡ oldest ∷ later
    → pending (push_signal q pid) ≡ pid ∷ (later ++ (pid ∷ []))
unfolding push_signal
push_signal_overrun q pid oldest later v full e =
    let at : q.back ≡ q.front = ground (arith, v.back_at, v.front_in) in
    let one : add_int q.len 1 ≡ 51 = omega arith in
    let split : entries q.queue q.front 50 ≡ oldest ∷ later = rw full at e in
    let tail : entries q.queue (next_index q.front) 49 ≡ later = cc split in
    rw (one, at, get_or-set_self q.queue q.front pid 0 (omega (arith, v.places, v.front_in)))
      (ap (◌∷◌ pid) (
        entries-set_end q.queue pid 49 (next_index q.front) q.front v.places
          (next_index-lt q.front v.front_in) (omega arith) (round_trip q.front v.front_in)
        ∙ ap (λ es. es ++ (pid ∷ [])) tail))
