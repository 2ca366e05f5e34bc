-- ===== src/Signals/Fifo.antt =====
-- While at most 50 signals are pending, a signal queue is a FIFO of process IDs.
use pe_exchange.Common.{
  add_int, ℕ, zero, suc, ◌+◌, ◌-◌, ◌≤◌, ◌<◌, ◌≡◌, ◌≢◌, refl, ap, sym, subst, true, false, ◌∙◌, List,
  [], ◌∷◌, ◌++◌, arith, ltb, ◌==◌, if◌then◌else◌, get_or, set, length, length-set, sub_int, add_int,
  Option, none, some, get_or-set_self, get_or-set_ne,
}
use pe_exchange.Signals.{
  SignalQueue, queue_len, next_index, push_signal, pop_signal, first_signal, take_signal,
}

-- The `n` entries from index `i` on, going round at 50.
abbrev pub entries : List ℕ → ℕ → ℕ → List ℕ
entries queue i zero = []
entries queue i (suc n) = get_or queue i 0 ∷ entries queue (next_index i) n

-- The pending process IDs, oldest first.
abbrev pub pending : SignalQueue → List ℕ
pending q = entries q.queue q.front q.len

-- `n` places after index `i`.
abbrev pub ahead : ℕ → ℕ → ℕ
ahead i n = if ltb (i + n) 50 then i + n else i + n - 50

pub record IsValid (q : SignalQueue) : Type 0 where
  pub places : length q.queue ≡ queue_len
  pub front_in : q.front < 50
  pub len_in : q.len ≤ 50
  pub back_at : q.back ≡ ahead q.front q.len

next_index-ahead : (i n : ℕ) → i < 50 → n < 50 → ahead (next_index i) n ≡ ahead i (suc n)
unfolding next_index
next_index-ahead i n h k = ground arith

pub next_index-lt : (i : ℕ) → i < 50 → next_index i < 50
unfolding next_index
next_index-lt i h = ground arith

back_ahead : (i n : ℕ) → i < 50 → n < 50 → next_index (ahead i n) ≡ ahead i (suc n)
unfolding next_index
back_ahead i n h k = ground arith

-- Writing the place behind the pending entries adds an entry.
pub entries-set_end :
    (queue : List ℕ) (pid n i j : ℕ)
    → length queue ≡ queue_len
    → i < 50
    → n < 50
    → j ≡ ahead i n
    → entries (set queue j pid) i (suc n) ≡ entries queue i n ++ (pid ∷ [])
entries-set_end queue pid zero i j l h k e =
    let at : j ≡ i = ground arith in rw (at, get_or-set_self queue i pid 0 (omega arith))
entries-set_end queue pid (suc n) i j l h k e =
    let apart : j ≢ i = ground arith in
    rw (get_or-set_ne queue pid 0 apart) (
      ap (◌∷◌ (get_or queue i 0)) (
        entries-set_end queue pid n (next_index i) j l (next_index-lt i h) (omega arith)
          (e ∙ sym (next_index-ahead i n h (omega arith)))))

-- Writing the place in front of them changes none.
entries-set_front :
    (queue : List ℕ) (v n i j : ℕ)
    → j < 50
    → i < 50
    → n < 50
    → ((m : ℕ) → m < n → ahead i m ≢ j)
    → entries (set queue j v) i n ≡ entries queue i n
entries-set_front queue v zero i j g h k apart = refl
entries-set_front queue v (suc n) i j g h k apart =
    let first : j ≢ i = λ e. apart 0 (omega arith) (ground arith) in
    rw (get_or-set_ne queue v 0 first) (
      ap (◌∷◌ (get_or queue i 0)) (
        entries-set_front queue v n (next_index i) j g (next_index-lt i h) (omega arith)
          (λ m lt e. apart (suc m) (omega arith) (sym (next_index-ahead i m h (omega arith)) ∙ e))))

-- A signal that arrives at a valid queue while fewer than 50 are pending leaves a valid queue, with
-- its process ID added at the end of the pending ones.
pub push_signal-pending :
    (q : SignalQueue) (pid : ℕ)
    → IsValid q
    → q.len < 50
    → IsValid (push_signal q pid) × (pending (push_signal q pid) ≡ pending q ++ (pid ∷ []))
unfolding push_signal
push_signal-pending q pid v h =
    let one : add_int q.len 1 ≡ suc q.len = omega arith in
    (
      record {
        places = length-set q.queue q.back pid ∙ v.places;
        front_in = v.front_in;
        len_in = omega arith;
        back_at = rw (one, v.back_at) (back_ahead q.front q.len v.front_in h);
      },
      rw one (entries-set_end q.queue pid q.len q.front q.back v.places v.front_in h v.back_at),
    )

after_front : (i m k : ℕ) → i < 50 → m < 50 → k < m → ahead (next_index i) k ≢ i
unfolding next_index
after_front i m k h l lt = ground arith

pop_back : (i m : ℕ) → i < 50 → m < 50 → ahead i (suc m) ≡ ahead (next_index i) m
pop_back i m h l = sym (next_index-ahead i m h l)

pop_entries :
    (queue : List ℕ) (i len m : ℕ)
    → len ≡ suc m
    → i < 50
    → m < 50
    → entries queue i len ≡ get_or queue i 0 ∷ entries (set queue i 0) (next_index i) m
pop_entries queue i len m e h l = rw (
  e,
  entries-set_front queue 0 m (next_index i) i h (next_index-lt i h) l
      (λ k lt. after_front i m k h l lt),
)

-- If something is pending in a valid queue, the queue after the pop is valid, and the process ID
-- that main reads before it, followed by what is pending after it, is what was pending.
pub pop_signal-pending :
    (q : SignalQueue)
    → IsValid q
    → 0 < q.len
    → IsValid (pop_signal q) × (pending q ≡ first_signal q ∷ pending (pop_signal q))
unfolding pop_signal first_signal
pop_signal-pending q v h =
    let m = q.len - 1 in
    let one : sub_int q.len 1 ≡ m = omega (arith, v.len_in) in
    let len : q.len ≡ suc m = omega arith in
    let small : m < 50 = omega (arith, v.len_in) in
    (
      record {
        places = length-set q.queue q.front 0 ∙ v.places;
        front_in = next_index-lt q.front v.front_in;
        len_in = omega (arith, one);
        back_at =
            v.back_at
            ∙ ap (ahead q.front) len
            ∙ pop_back q.front m v.front_in small
            ∙ ap (ahead (next_index q.front)) (sym one);
      },
      rw one (pop_entries q.queue q.front q.len m len v.front_in small),
    )

-- What happens to a queue: a signal arrives, or main takes one.
pub data SignalOp : Type 0 where
  arrive : ℕ → SignalOp
  take : SignalOp

-- The process IDs that main gets, `none` where the queue is empty.
unfoldable pub run : SignalQueue → List SignalOp → List (Option ℕ)
run q [] = []
run q (arrive pid ∷ ops) = run (push_signal q pid) ops
run q (take ∷ ops) = let (pid, q') = take_signal q in pid ∷ run q' ops

-- The same from a list of process IDs.
unfoldable pub run_fifo : List ℕ → List SignalOp → List (Option ℕ)
run_fifo pids [] = []
run_fifo pids (arrive pid ∷ ops) = run_fifo (pids ++ (pid ∷ [])) ops
run_fifo [] (take ∷ ops) = none ∷ run_fifo [] ops
run_fifo (pid ∷ pids) (take ∷ ops) = some pid ∷ run_fifo pids ops

-- At no point do more than 50 wait, of which `n` wait now.
abbrev pub Bounded : ℕ → List SignalOp → Type 0
Bounded n [] = Unit {0}
Bounded n (arrive pid ∷ ops) = (n < 50) × Bounded (suc n) ops
Bounded n (take ∷ ops) = Bounded (n - 1) ops

pub len-push_signal : (q : SignalQueue) (pid : ℕ) → q.len < 50 → (push_signal q pid).len ≡ suc q.len
unfolding push_signal
len-push_signal q pid h = omega arith

pub len-pop_signal : (q : SignalQueue) → 0 < q.len → q.len ≤ 50 → (pop_signal q).len ≡ q.len - 1
unfolding pop_signal
len-pop_signal q h k = omega arith

pub length-entries : (queue : List ℕ) (i n : ℕ) → length (entries queue i n) ≡ n
length-entries queue i zero = refl
length-entries queue i (suc n) = ap suc (length-entries queue (next_index i) n)

take_signal_empty : (q : SignalQueue) → q.len ≡ 0 → take_signal q ≡ (none, q)
unfolding take_signal
take_signal_empty q h = let e : (q.len == 0) ≡ true = ground arith in simp e

take_signal-some :
    (q : SignalQueue) → 0 < q.len → take_signal q ≡ (some (first_signal q), pop_signal q)
unfolding take_signal
take_signal-some q h = let e : (q.len == 0) ≡ false = ground arith in simp e

-- `run` of a valid queue for a list of IDs that equals its pending ones.
run-fifo_at :
    (ops : List SignalOp) (q : SignalQueue) (pids : List ℕ)
    → IsValid q
    → pending q ≡ pids
    → Bounded q.len ops
    → run q ops ≡ run_fifo pids ops
unfolding run run_fifo
run-fifo_at [] q pids v e b = refl
run-fifo_at (arrive pid ∷ ops) q pids v e b =
    let pushed = push_signal-pending q pid v b.0 in
    run-fifo_at ops (push_signal q pid) (pids ++ (pid ∷ [])) pushed.0
      (pushed.1 ∙ ap (λ ps. ps ++ (pid ∷ [])) e)
      (subst (λ n. Bounded n ops) (sym (len-push_signal q pid b.0)) b.1)
run-fifo_at (take ∷ ops) q [] v e b =
    let empty : q.len ≡ 0 = omega (arith, ap length e, length-entries q.queue q.front q.len) in
    rw (take_signal_empty q empty) (
      ap (◌∷◌ none) (
        run-fifo_at ops q [] v e
          (subst (λ n. Bounded n ops) (sym (let z : q.len ≡ q.len - 1 = omega arith in z)) b)))
run-fifo_at (take ∷ ops) q (pid ∷ pids) v e b =
    let some_left : 0 < q.len = omega (arith, ap length e, length-entries q.queue q.front q.len) in
    let popped = pop_signal-pending q v some_left in
    let split = sym popped.1 ∙ e in
    let same : first_signal q ≡ pid = cc split in
    let rest : pending (pop_signal q) ≡ pids = cc split in
    rw (take_signal-some q some_left, same)
      (ap (◌∷◌ (some pid)) (
        run-fifo_at ops (pop_signal q) pids popped.0 rest
          (subst (λ n. Bounded n ops) (sym (len-pop_signal q some_left v.len_in)) b)))

-- From a valid queue, main gets the process IDs in the order in which the signals arrived, those
-- already pending first, each once and none lost, as long as no more than 50 wait at any time.
pub run-run_fifo :
    (ops : List SignalOp) (q : SignalQueue)
    → IsValid q
    → Bounded q.len ops
    → run q ops ≡ run_fifo (pending q) ops
run-run_fifo ops q v b = run-fifo_at ops q (pending q) v refl b
