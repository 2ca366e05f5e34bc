-- ===== src/Signals.antt =====
-- The signal queues of pe_exchange.c: two circular arrays of process IDs that the signal handlers
-- fill and main empties.
pub mod Fifo
pub mod Overrun
use pe_exchange.Common.{
  Option, none, some, ℕ, suc, ◌+◌, Bool, List, [], ◌∷◌, ◌==◌, if◌then◌else◌, add_int, sub_int,
  get_or, set,
}

-- sigusr_queue, sigusr_queue_len, sigusr_front, sigusr_back; and the same for SIGCHLD. `queue` has
-- QUEUE_LEN = 100 places.
pub record SignalQueue : Type 0 where
  pub queue : List ℕ
  pub len : ℕ
  pub front : ℕ
  pub back : ℕ

pub record Signals : Type 0 where
  pub sigusr : SignalQueue
  pub sigchld : SignalQueue

abbrev pub queue_len : ℕ
queue_len = 100

-- `i++; if (i == 50) i = 0;`
unfoldable pub next_index : ℕ → ℕ
next_index i = if suc i == 50 then 0 else suc i

-- The shared body of the two handlers.
unfoldable pub push_signal : SignalQueue → ℕ → SignalQueue
unfolding next_index
push_signal q pid = record {
  queue = set q.queue q.back pid;
  len = add_int q.len 1;
  front = q.front;
  back = next_index q.back;
}

-- The shared body of `pop_sigusr` and `pop_sigchld`.
unfoldable pub pop_signal : SignalQueue → SignalQueue
unfolding next_index
pop_signal q = record {
  queue = set q.queue q.front 0;
  len = sub_int q.len 1;
  front = next_index q.front;
  back = q.back;
}

-- `queue[front]`, which main reads before it pops.
unfoldable pub first_signal : SignalQueue → ℕ
first_signal q = get_or q.queue q.front 0

unfoldable pub sigusr_handler : Signals → ℕ → Signals
unfolding push_signal
sigusr_handler s pid = record s { sigusr = push_signal s.sigusr pid }

-- The source also waits for the child, which changes nothing that is modelled.
unfoldable pub sigchld_handler : Signals → ℕ → Signals
unfolding push_signal
sigchld_handler s pid = record s { sigchld = push_signal s.sigchld pid }

unfoldable pub pop_sigusr : Signals → Signals
unfolding pop_signal
pop_sigusr s = record s { sigusr = pop_signal s.sigusr }

unfoldable pub pop_sigchld : Signals → Signals
unfolding pop_signal
pop_sigchld s = record s { sigchld = pop_signal s.sigchld }

-- What main does with a queue in a round of its loop: nothing if it is empty, else read and pop.
unfoldable pub take_signal : SignalQueue → Option ℕ × SignalQueue
unfolding first_signal pop_signal
take_signal q = if q.len == 0 then (none, q) else (some (first_signal q), pop_signal q)
