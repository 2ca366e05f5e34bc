-- ===== src/Tests/Queues.antt =====
-- The theorems on the signal queues, at small queues and at a full one.
use pe_exchange.Common.{◌≡◌, refl, [], ◌∷◌, ◌++◌, arith, replicate}
use pe_exchange.Signals.{SignalQueue, push_signal, pop_signal, first_signal}
use pe_exchange.Signals.Fifo.{
  IsValid, pending, arrive, take, run, run_fifo, run-run_fifo, push_signal-pending,
  pop_signal-pending,
}
use pe_exchange.Signals.Overrun.{push_signal_overrun}

-- One signal pending, at the last place before the queue goes round.
abbrev one_pending : SignalQueue
one_pending = record {
  queue = replicate 49 0 ++ (1000 ∷ replicate 50 0);
  len = 1;
  front = 49;
  back = 0;
}

one_pending-IsValid : IsValid one_pending
one_pending-IsValid = record {
  places = refl;
  front_in = omega arith;
  len_in = omega arith;
  back_at = refl;
}

-- The trader 1000 fifty times.
abbrev full_queue : SignalQueue
full_queue = record { queue = replicate 50 1000 ++ replicate 50 0; len = 50; front = 0; back = 0 }

full_queue-IsValid : IsValid full_queue
full_queue-IsValid = record {
  places = refl;
  front_in = omega arith;
  len_in = omega arith;
  back_at = refl;
}

push_signal-pending_example :
    IsValid (push_signal one_pending 1001)
    × (pending (push_signal one_pending 1001) ≡ pending one_pending ++ (1001 ∷ []))
push_signal-pending_example = push_signal-pending one_pending 1001 one_pending-IsValid (omega arith)

pop_signal-pending_example :
    IsValid (pop_signal one_pending)
    × (pending one_pending ≡ first_signal one_pending ∷ pending (pop_signal one_pending))
pop_signal-pending_example = pop_signal-pending one_pending one_pending-IsValid (omega arith)

run-run_fifo_example :
    run one_pending (arrive 1001 ∷ take ∷ take ∷ take ∷ arrive 1000 ∷ take ∷ [])
    ≡ run_fifo (pending one_pending) (arrive 1001 ∷ take ∷ take ∷ take ∷ arrive 1000 ∷ take ∷ [])
run-run_fifo_example =
    run-run_fifo (arrive 1001 ∷ take ∷ take ∷ take ∷ arrive 1000 ∷ take ∷ []) one_pending
      one_pending-IsValid (omega arith, (omega arith, tt))

push_signal_overrun_example :
    pending (push_signal full_queue 1001) ≡ 1001 ∷ (replicate 49 1000 ++ (1001 ∷ []))
unfolding push_signal
push_signal_overrun_example =
    push_signal_overrun full_queue 1001 1000 (replicate 49 1000) full_queue-IsValid refl refl
