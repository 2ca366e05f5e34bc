-- ===== src/Pipes/Reading.antt =====
-- `process_msg` of pe_pipes.c: a message read from a pipe, a byte at a time.
pub mod Message
use pe_exchange.Common.{
  ℕ, suc, Bool, true, false, List, [], ◌∷◌, leb, ◌==◌, if◌then◌else◌, length, set,
}
use pe_exchange.Common.Text.{Bytes}

-- What one call of `read` for one byte gives: the byte, 0 at the end of the pipe, or -1 with or
-- without EINTR.
pub data ReadResult : Type 0 where
  byte : ℕ → ReadResult
  end_of_pipe : ReadResult
  interrupted : ReadResult
  failed : ReadResult

-- How `process_msg` ends: with a result, by writing outside its array, or not while nothing more
-- comes.
pub data ReadOutcome : Type 0 where
  returned : ℕ → ReadOutcome
  overrun : ReadOutcome
  waiting : ReadOutcome

pub record Reading : Type 0 where
  pub outcome : ReadOutcome
  pub msg : Bytes
  pub left : List ReadResult

abbrev pub reading : ReadOutcome → Bytes → List ReadResult → Reading
reading outcome msg left = record { outcome = outcome; msg = msg; left = left }

-- The byte `;` at index `count`, and the final zero behind it.
unfoldable pub close_msg : Bytes → ℕ → List ReadResult → Reading
close_msg msg count left =
    if leb (length msg) (suc count)
    then reading overrun msg left
    else reading (returned (suc count)) (set msg (suc count) 0) left

-- The loop, with `count` bytes read so far. `msg` is the whole array.
unfoldable pub process_from : Bytes → ℕ → List ReadResult → Reading
unfolding close_msg
process_from msg count [] = reading waiting msg []
process_from msg count (end_of_pipe ∷ rs) = reading (returned 0) msg rs
process_from msg count (interrupted ∷ rs) = reading (returned count) msg rs
process_from msg count (failed ∷ rs) = reading (returned 1) msg rs
process_from msg count (byte c ∷ rs) =
    let more = process_from (set msg count c) (suc count) rs in
    if leb (length msg) count
    then reading overrun msg rs
    else if c == b';'
    then close_msg (set msg count c) count rs
    else more

unfoldable pub process_msg : Bytes → List ReadResult → Reading
unfolding process_from
process_msg msg rs = process_from msg 0 rs

-- The text in an array of char: up to its zero.
unfoldable pub text_in : Bytes → Bytes
text_in [] = []
text_in (c ∷ msg) = let rest = text_in msg in if c == 0 then [] else c ∷ rest

-- `memset(msg, 0, MAX_LINE)`
unfoldable pub clear_msg : Bytes → Bytes
clear_msg [] = []
clear_msg (c ∷ msg) = 0 ∷ clear_msg msg
