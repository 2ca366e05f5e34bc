-- ===== src/AutoTrader/Trading/Reads.antt =====
-- The trader reads its messages as the exchange does.
use pe_exchange.Common.{
  ℕ, suc, ◌≡◌, refl, inl, inr, List, [], ◌∷◌, leb, ◌==◌, Bool-cases, length, set,
}
use pe_exchange.Common.Text.{Bytes}
use pe_exchange.Pipes.Reading.{
  ReadResult, byte, end_of_pipe, interrupted, failed, ReadOutcome, returned, overrun, waiting,
  Reading, close_msg, process_from, process_msg,
}
use pe_exchange.AutoTrader.Trading.{close_market_msg, process_market_from, process_market_msg}

-- The same but for the number that is returned.
abbrev pub SameOutcome : ReadOutcome → ReadOutcome → Type 0
SameOutcome (returned n) o = (k : ℕ) × (o ≡ returned k)
SameOutcome overrun o = o ≡ overrun
SameOutcome waiting o = o ≡ waiting

pub record Alike (r s : Reading) : Type 0 where
  pub outcome : SameOutcome r.outcome s.outcome
  pub msg : s.msg ≡ r.msg
  pub left : s.left ≡ r.left

close-Alike :
    (msg : Bytes) (count : ℕ) (left : List ReadResult)
    → Alike (close_msg msg count left) (close_market_msg msg count left)
unfolding close_msg close_market_msg
close-Alike msg count left = elim (Bool-cases (leb (length msg) (suc count))) [
  | inl out ↦
      rw (close_msg, close_market_msg, out) (record { outcome = refl; msg = refl; left = refl })
  | inr inside ↦
      rw (close_msg, close_market_msg, inside)
        (record { outcome = (0, refl); msg = refl; left = refl })
]

process_market_from-Alike :
    (msg : Bytes) (count : ℕ) (rs : List ReadResult)
    → Alike (process_from msg count rs) (process_market_from msg count rs)
unfolding process_from process_market_from
process_market_from-Alike msg count [] = record { outcome = refl; msg = refl; left = refl }
process_market_from-Alike msg count (end_of_pipe ∷ rs) = record {
  outcome = (0, refl);
  msg = refl;
  left = refl;
}
process_market_from-Alike msg count (interrupted ∷ rs) = record {
  outcome = (1, refl);
  msg = refl;
  left = refl;
}
process_market_from-Alike msg count (failed ∷ rs) = record {
  outcome = (1, refl);
  msg = refl;
  left = refl;
}
process_market_from-Alike msg count (byte c ∷ rs) = elim (Bool-cases (leb (length msg) count)) [
  | inl out ↦
      rw (process_from, process_market_from, out)
        (record { outcome = refl; msg = refl; left = refl })
  | inr inside ↦ elim (Bool-cases (c == b';')) [
    | inl end ↦
        rw (process_from, process_market_from, inside, end) (close-Alike (set msg count c) count rs)
    | inr more ↦
        rw (process_from, process_market_from, inside, more)
          (process_market_from-Alike (set msg count c) (suc count) rs)
  ]
]

-- The trader reads as the exchange does, but for the number that is returned.
pub process_market_msg-Alike :
    (msg : Bytes) (rs : List ReadResult) → Alike (process_msg msg rs) (process_market_msg msg rs)
unfolding process_msg process_market_msg
process_market_msg-Alike msg rs = process_market_from-Alike msg 0 rs
