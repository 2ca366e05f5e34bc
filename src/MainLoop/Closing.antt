-- ===== src/MainLoop/Closing.antt =====
-- Main ends when all traders have.
use pe_exchange.Common.{
  ℕ, zero, suc, ◌+◌, ◌<◌, ◌≡◌, ◌≢◌, refl, ap, sym, subst, ◌∙◌, inl, inr, ◌⊎◌, true, false, List, [],
  ◌∷◌, some, arith, Bool-cases, ◌==◌, ◌&&◌, length, get_elem?, modify,
}
use pe_exchange.Types.{Trader, Exchange}
use pe_exchange.Signals.{pop_sigchld, pop_signal, first_signal}
use pe_exchange.Signals.Fifo.{length-entries, IsValid, pending, pop_signal-pending}
use pe_exchange.Orderbook.Matching.{emit}
use pe_exchange.MainLoop.{
  int_ltb, uses_freed, unfinished, Main, Round, goes_on, exits, fails, waits, faults, trader_died,
  bury, bury_process, end_if_over, is_alive, serve_child, serve_children, all_traders_died,
}
use pe_exchange.MainLoop.Alive.{count_alive}
use pe_exchange.MainLoop.Invariant.{IsRunning, GoesOnRunning, serve_child-GoesOnRunning}
use pe_exchange.MainLoop.Ends.{IsOver, ExitsOver, serve_child-ExitsOver}

is_alive-kill :
    (ts : List Trader) (i j : ℕ)
    → is_alive (modify ts i (λ t. record t { alive = false })) j ≡ true
    → (is_alive ts j ≡ true) × (j ≢ i)
unfolding is_alive
is_alive-kill [] i j a = absurd (ground arith)
is_alive-kill (t ∷ ts) zero zero a = absurd (ground arith)
is_alive-kill (t ∷ ts) zero (suc j) a = (a, λ e. omega arith)
is_alive-kill (t ∷ ts) (suc i) zero a = (a, λ e. omega arith)
is_alive-kill (t ∷ ts) (suc i) (suc j) a =
    let (b, d) = is_alive-kill ts i j a in (b, λ e. d (omega arith))

trader_died-is_alive :
    (s : Exchange) (i j : ℕ)
    → is_alive (trader_died s i).trader_list j ≡ true
    → (is_alive s.trader_list j ≡ true) × (j ≢ i)
unfolding trader_died emit
trader_died-is_alive s i j a = is_alive-kill s.trader_list i j a

bury-is_alive :
    (i j : ℕ) (r : Exchange × ℕ)
    → is_alive (bury i r).0.trader_list j ≡ true
    → (is_alive r.0.trader_list j ≡ true) × (j ≢ i)
unfolding bury is_alive
bury-is_alive i j (s, n) a = elim (Bool-cases (is_alive s.trader_list i)) [
  | inl alive ↦ trader_died-is_alive s i j (rw (alive, bury) at a)
  | inr dead ↦
      let same : is_alive s.trader_list j ≡ true = rw (dead, bury) at a in
      (same, λ e. absurd (let d = subst (λ x. is_alive s.trader_list x ≡ false) (sym e) dead in cc))
]

-- Who is alive when the loop over the process IDs, from index `i` on, is done was so before, and is not
-- of the dead process.
bury_process-is_alive :
    (pid : ℕ) (pids : List ℕ) (i j : ℕ) (r : Exchange × ℕ)
    → is_alive (bury_process pid pids i r).0.trader_list j ≡ true
    → (is_alive r.0.trader_list j ≡ true) × ((k : ℕ) → j ≡ i + k → get_elem? pids k ≢ some pid)
unfolding bury_process
bury_process-is_alive pid [] i j r a = (a, λ k e h. cc)
bury_process-is_alive pid (p ∷ pids) i j r a = elim (Bool-cases (pid == p)) [
  | inl hit ↦
      let (b, apart) =
        bury_process-is_alive pid pids (suc i) j (bury i r) (rw (hit, bury_process) at a) in
      let (c, other) = bury-is_alive i j r b in (c, next (λ e h. other (omega arith)) apart)
  | inr miss ↦
      let (b, apart) = bury_process-is_alive pid pids (suc i) j r (rw (miss, bury_process) at a) in
      (b, next (λ e h. absurd (ground arith)) apart)
]
  where
    next :
        (j ≡ i + 0 → get_elem? (p ∷ pids) 0 ≢ some pid)
        → ((k : ℕ) → j ≡ suc i + k → get_elem? pids k ≢ some pid)
        → (k : ℕ) → j ≡ i + k
        → get_elem? (p ∷ pids) k ≢ some pid
    next f g zero e = f e
    next f g (suc k) e = g k (omega arith)

abbrev pub IsIn : ℕ → List ℕ → Type 0
IsIn p [] = ⊥
IsIn p (x ∷ xs) = (p ≡ x) ⊎ IsIn p xs

-- The process of every living trader is among `dead`.
abbrev pub AllReported : Main → List ℕ → Type 0
AllReported m dead =
    (i : ℕ)
    → is_alive m.exchange.trader_list i ≡ true
    → (p : ℕ) × (get_elem? m.pids i ≡ some p) × IsIn p dead

nobody_alive : (ts : List Trader) → ((i : ℕ) → is_alive ts i ≡ true → ⊥) → count_alive ts ≡ 0
unfolding is_alive
nobody_alive [] h = refl
nobody_alive (t ∷ ts) h = elim (Bool-cases t.alive) [
  | inl alive ↦ absurd (h 0 alive)
  | inr dead ↦ simp dead (omega (arith, nobody_alive ts (λ i. h (suc i))))
]

-- The pass of the first of them leaves the others.
record ChildServed (m m' : Main) (dead : List ℕ) : Type 0 where
  reported : AllReported m' dead
  children : m'.signals.sigchld ≡ pop_signal m.signals.sigchld
  messages : m'.signals.sigusr ≡ m.signals.sigusr

module _ (m : Main) (dead : List ℕ)
    (h : AllReported m (first_signal m.signals.sigchld ∷ dead)) where
  buried : Exchange × ℕ
  buried = bury_process (first_signal m.signals.sigchld) m.pids 0 (m.exchange, m.num_active)

  reported_left :
      (i : ℕ)
      → is_alive buried.0.trader_list i ≡ true
      → (p : ℕ) × (get_elem? m.pids i ≡ some p) × IsIn p dead
  unfolding buried
  reported_left i a =
      let (was, apart) =
        bury_process-is_alive (first_signal m.signals.sigchld) m.pids 0 i (m.exchange, m.num_active)
          a in
      let (p, e, which) = h i was in
      elim which [
        | inl first ↦ absurd (apart i (omega arith) (e ∙ ap some first))
        | inr later ↦ (p, e, later)
      ]

  serve_child-ChildServed : (m' : Main) → serve_child m ≡ goes_on m' → ChildServed m m' dead
  unfolding serve_child buried end_if_over pop_sigchld
  serve_child-ChildServed m' e = elim (Bool-cases (buried.1 == 0)) [
    | inl over ↦ absurd (let e' = rw over at e in cc)
    | inr not_over ↦
        let e' = rw not_over at e in
        let same : m' ≡ record m {
          signals = pop_sigchld m.signals;
          exchange = buried.0;
          num_active = buried.1;
        } =
          cc in
        subst (λ x. ChildServed m x dead) (sym same)
          (record { reported = reported_left; children = refl; messages = refl })
  ]

serve_child-cases :
    (m : Main)
    → ((s : Exchange) × (serve_child m ≡ exits s)) ⊎ ((m' : Main) × (serve_child m ≡ goes_on m'))
unfolding serve_child
serve_child-cases m =
    by_count (bury_process (first_signal m.signals.sigchld) m.pids 0 (m.exchange, m.num_active))
  where
    by_count :
        (r : Exchange × ℕ)
        → ((s : Exchange) × (end_if_over (record m { signals = pop_sigchld m.signals }) r
              ≡ exits s))
          ⊎ ((m' : Main) × (end_if_over (record m { signals = pop_sigchld m.signals }) r
                ≡ goes_on m'))
    by_count (s, num_active) = elim (Bool-cases (num_active == 0)) [
      | inl over ↦ inl (all_traders_died s, rw (over, end_if_over) refl)
      | inr not_over ↦ inr (
        record m { signals = pop_sigchld m.signals; exchange = s; num_active = num_active },
        rw (not_over, end_if_over) refl,
      )
    ]

-- A round that exits, with the books closed.
abbrev pub ExitsWell : Main → ℕ → Round → Type 0
ExitsWell start k (exits s) = IsOver start k s
ExitsWell start k (goes_on m) = ⊥
ExitsWell start k fails = ⊥
ExitsWell start k waits = ⊥
ExitsWell start k faults = ⊥
ExitsWell start k uses_freed = ⊥
ExitsWell start k unfinished = ⊥

module _ (start : Main) (k : ℕ) where
  serve_children-ExitsWell_from :
      (dead : List ℕ) (fuel : ℕ) (m : Main)
      → IsRunning start k m
      → IsValid m.signals.sigchld
      → m.signals.sigusr.len ≡ 0
      → pending m.signals.sigchld ≡ dead
      → AllReported m dead
      → length dead < fuel
      → ExitsWell start k (serve_children fuel m)
  unfolding serve_children
  serve_children-ExitsWell_from dead zero m i v quiet p r enough = absurd (omega arith)
  serve_children-ExitsWell_from [] (suc fuel) m i v quiet p r enough = absurd (
      omega (
        arith,
        nobody_alive m.exchange.trader_list (λ j a. (r j a).2),
        i.some_alive,
        i.sound.counted,
      ))
  serve_children-ExitsWell_from (x ∷ dead) (suc fuel) m i v quiet p r enough =
      let waiting : 0 < m.signals.sigchld.len = omega (
        arith,
        length-entries m.signals.sigchld.queue m.signals.sigchld.front m.signals.sigchld.len,
        ap length p,
      ) in
      let (v', q) = pop_signal-pending m.signals.sigchld v waiting in
      let first : first_signal m.signals.sigchld ≡ x = cc in
      let others : pending (pop_signal m.signals.sigchld) ≡ dead = cc in
      let go : (int_ltb 0 m.signals.sigchld.len && (m.signals.sigusr.len == 0)) ≡ true =
        ground (arith, waiting, quiet) in
      let r' : AllReported m (first_signal m.signals.sigchld ∷ dead) =
        subst (λ y. AllReported m (y ∷ dead)) (sym first) r in
      elim (serve_child-cases m) [
        | inl (s, e) ↦
            rw (go, e, serve_children)
              (subst (ExitsOver start k) e (serve_child-ExitsOver start k m i))
        | inr (m', e) ↦
            let c = serve_child-ChildServed m dead r' m' e in
            rw (go, e, serve_children)
              (serve_children-ExitsWell_from dead fuel m'
                (subst (GoesOnRunning start k) e (serve_child-GoesOnRunning start k m i))
                (subst IsValid (sym c.children) v') (ap (λ q. q.len) c.messages ∙ quiet)
                (ap pending c.children ∙ others) c.reported (omega arith))
      ]

-- If main is running, no message waits, the queue of SIGCHLD is valid, and the process of every
-- living trader is among the pending ones, then the loop over SIGCHLD ends the program: it goes
-- through the pending signals until the last living trader is dead, and exits with a sound
-- exchange, nobody alive, and the fees printed last.
pub serve_children-ExitsWell :
    (start : Main) (k : ℕ) (m : Main)
    → IsRunning start k m
    → IsValid m.signals.sigchld
    → m.signals.sigusr.len ≡ 0
    → AllReported m (pending m.signals.sigchld)
    → ExitsWell start k (serve_children (suc m.signals.sigchld.len) m)
serve_children-ExitsWell start k m i v quiet r =
    let q = m.signals.sigchld in
    serve_children-ExitsWell_from start k (pending q) (suc q.len) m i v quiet refl r
      (omega (arith, length-entries q.queue q.front q.len))
