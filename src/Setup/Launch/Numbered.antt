-- ===== src/Setup/Launch/Numbered.antt =====
-- The traders that `fork_and_pipes` has set up, when it succeeds and when it fails.
use pe_exchange.Common.{
  ℕ, suc, ◌≡◌, refl, ap, inl, inr, ◌⊎◌, true, false, List, [], ◌∷◌, Option, none, some, arith,
  Option-cases, Bool-cases, length, All,
}
use pe_exchange.Common.Text.{Bytes}
use pe_exchange.Types.{Trader}
use pe_exchange.Setup.{initialise_trader}
use pe_exchange.Setup.Start.{NumberedFrom}
use pe_exchange.Setup.Launch.{SystemResults, launch, Forked, fork_from, fork_and_pipes}

-- Every call for the trader in place `i` succeeded, and the trader has what the calls returned.
pub record IsLaunched (i : ℕ) (r : SystemResults) (t : Trader) (pid : ℕ) : Type 0 where
  pub exchange_pipe : r.exchange_pipe ≡ true
  pub trader_pipe : r.trader_pipe ≡ true
  pub forked : r.fork_res ≡ some pid
  pub ex_fd : r.ex_fd ≡ some t.ex_fd
  pub tr_fd : r.tr_fd ≡ some t.tr_fd
  pub own_pid : t.pid ≡ pid
  pub id : t.id ≡ i
  pub first_order : t.order_id ≡ 0
  pub alive : t.alive ≡ true

-- One of the calls failed.
abbrev pub HasFailed : SystemResults → Type 0
HasFailed r =
    (r.exchange_pipe ≡ false)
    ⊎ (r.trader_pipe ≡ false)
    ⊎ (r.fork_res ≡ none)
    ⊎ (r.ex_fd ≡ none)
    ⊎ (r.tr_fd ≡ none)

-- From place `i` on, the arrays of traders and of process IDs and the result go with what the system
-- returned: everything up to the first failure is launched, and nothing after it.
pub data AreLaunched
    : ℕ → List (Bytes × SystemResults) → List Trader → List ℕ → Option ℕ → Type 0 where
  all_done : {i : ℕ} → AreLaunched i [] [] [] none
  stopped :
      {i : ℕ} {binary : Bytes} {r : SystemResults} {rest : List (Bytes × SystemResults)}
      → HasFailed r
      → AreLaunched i ((binary, r) ∷ rest) [] [] (some i)
  launched :
      {i pid : ℕ} {binary : Bytes} {r : SystemResults} {rest : List (Bytes × SystemResults)}
      {t : Trader} {ts : List Trader} {pids : List ℕ} {failed_at : Option ℕ}
      → IsLaunched i r t pid
      → AreLaunched (suc i) rest ts pids failed_at
      → AreLaunched i ((binary, r) ∷ rest) (t ∷ ts) (pid ∷ pids) failed_at

launch-IsLaunched :
    (i : ℕ) (r : SystemResults) {t : Trader} {pid : ℕ}
    → launch i r ≡ some (t, pid)
    → IsLaunched i r t pid
unfolding launch initialise_trader
launch-IsLaunched i r e = record {
  exchange_pipe = ground arith;
  trader_pipe = ground arith;
  forked = ground arith;
  ex_fd = ground arith;
  tr_fd = ground arith;
  own_pid = ground arith;
  id = ground arith;
  first_order = ground arith;
  alive = ground arith;
}

launch-HasFailed : (i : ℕ) (r : SystemResults) → launch i r ≡ none → HasFailed r
unfolding launch
launch-HasFailed i r e = elim (Bool-cases r.exchange_pipe) [
  | inr no_exchange_pipe ↦ inl no_exchange_pipe
  | inl p ↦ elim (Bool-cases r.trader_pipe) [
    | inr no_trader_pipe ↦ inr (inl no_trader_pipe)
    | inl q ↦ elim (Option-cases r.fork_res) [
      | inl no_fork ↦ inr (inr (inl no_fork))
      | inr (pid, f) ↦ elim (Option-cases r.ex_fd) [
        | inl no_ex ↦ inr (inr (inr (inl no_ex)))
        | inr (ex, g) ↦ elim (Option-cases r.tr_fd) [
          | inl no_tr ↦ inr (inr (inr (inr no_tr)))
          | inr (tr, k) ↦ absurd (let e' = rw (p, q, f, g, k, launch) at e in cc)
        ]
      ]
    ]
  ]
]

fork_from-AreLaunched :
    (i : ℕ) (args : List (Bytes × SystemResults))
    → AreLaunched i args
        (fork_from i args).trader_list
        (fork_from i args).pids
        (fork_from i args).failed_at
unfolding fork_from
fork_from-AreLaunched i [] = all_done
fork_from-AreLaunched i ((binary, r) ∷ rest) = elim (Option-cases (launch i r)) [
  | inl failed ↦ rw (failed, fork_from) (stopped (launch-HasFailed i r failed))
  | inr ((t, pid), e) ↦
      rw (e, fork_from) (launched (launch-IsLaunched i r e) (fork_from-AreLaunched (suc i) rest))
]

-- For each argument up to the first of which a call of the system fails, `fork_and_pipes` has set
-- up one trader, in order: both its pipes were made, its process ID is what fork returned, in the
-- trader and in the other array, its two descriptors are what the opens returned, its ID is its
-- place, its order IDs start at 0 and it is alive. It returns the place of the argument whose call
-- failed, with nothing set up for that and later ones, and -1 only if none failed.
pub fork_and_pipes-AreLaunched :
    (args : List (Bytes × SystemResults))
    → AreLaunched 0 args
        (fork_and_pipes args).trader_list
        (fork_and_pipes args).pids
        (fork_and_pipes args).failed_at
unfolding fork_and_pipes
fork_and_pipes-AreLaunched args = fork_from-AreLaunched 0 args

-- What main needs of it.
AreLaunched-NumberedFrom :
    {i : ℕ} {args : List (Bytes × SystemResults)} {ts : List Trader} {pids : List ℕ} {o : Option ℕ}
    → AreLaunched i args ts pids o
    → NumberedFrom i ts
AreLaunched-NumberedFrom all_done = tt
AreLaunched-NumberedFrom (stopped f) = tt
AreLaunched-NumberedFrom (launched l rest) = (l.id, AreLaunched-NumberedFrom rest)

AreLaunched-alive :
    {i : ℕ} {args : List (Bytes × SystemResults)} {ts : List Trader} {pids : List ℕ} {o : Option ℕ}
    → AreLaunched i args ts pids o
    → All (λ t. t.alive ≡ true) ts
AreLaunched-alive all_done = tt
AreLaunched-alive (stopped f) = tt
AreLaunched-alive (launched l rest) = (l.alive, AreLaunched-alive rest)

AreLaunched-length :
    {i : ℕ} {args : List (Bytes × SystemResults)} {ts : List Trader} {pids : List ℕ} {o : Option ℕ}
    → AreLaunched i args ts pids o
    → o ≡ none
    → length ts ≡ length args
AreLaunched-length all_done e = refl
AreLaunched-length (stopped f) e = absurd cc
AreLaunched-length (launched l rest) e = ap suc (AreLaunched-length rest e)

-- The traders of a `fork_and_pipes` that has succeeded for all `n`.
pub record IsForked (n : ℕ) (f : Forked) : Type 0 where
  pub numbered : NumberedFrom 0 f.trader_list
  pub alive : All (λ t. t.alive ≡ true) f.trader_list
  pub traders : f.failed_at ≡ none → length f.trader_list ≡ n

pub fork_and_pipes-IsForked :
    (args : List (Bytes × SystemResults)) → IsForked (length args) (fork_and_pipes args)
fork_and_pipes-IsForked args =
    let l = fork_and_pipes-AreLaunched args in
    record {
      numbered = AreLaunched-NumberedFrom l;
      alive = AreLaunched-alive l;
      traders = AreLaunched-length l;
    }
