-- ===== src/Pipes/Messages/Unique.antt =====
-- The IDs of a trader's orders: no two orders in the books have the same, and none has one that is
-- still to come.
use pe_exchange.Common.{
  ℕ, zero, suc, ◌+◌, ◌≤◌, ◌<◌, ◌≡◌, refl, ap, subst, Bool, List, [], ◌∷◌, some, arith, length,
  get_elem?, set, ◌==◌, ◌&&◌, if◌then◌else◌, Bool-cases, inl, inr,
}
use pe_exchange.Common.Text.{Bytes}
use pe_exchange.Types.{Order, Trader, Exchange}
use pe_exchange.Orderbook.Create.{create_amended_order}
use pe_exchange.Orderbook.Create.Created.{Created}
use pe_exchange.Orderbook.Matching.Accounts.{Covers-id}
use pe_exchange.Orderbook.Invariant.Steps.{IsValid}
use pe_exchange.Orderbook.Weight.{Weight, IsLight, total_weight}
use pe_exchange.Orderbook.Weight.Matching.{badges}
use pe_exchange.Pipes.Messages.Effect.{
  Effect, nothing_new, placed, replaced, Effects, parse_msg-Effects,
}
use pe_exchange.Pipes.Messages.{parse_msg}

-- 1 for the trader's order `id`, else 0: how often it stands in the books.
abbrev pub named : ℕ → ℕ → Weight
named trader_id id o = if o.order_id == id && o.trader_id == trader_id then 1 else 0

named-IsLight : (trader_id id : ℕ) → IsLight (named trader_id id)
named-IsLight trader_id id o q h = omega arith

pub record HasUniqueIds (s : Exchange) : Type 0 where
  pub once : (trader_id id : ℕ) → total_weight (named trader_id id) s ≤ 1
  pub none_ahead :
      (trader_id id next : ℕ) (alive : Bool)
      → get_elem? (badges s.trader_list) trader_id ≡ some (next, alive)
      → next ≤ id
      → total_weight (named trader_id id) s ≡ 0

get_elem?-badges :
    (ts : List Trader) (i : ℕ) {t : Trader}
    → get_elem? ts i ≡ some t
    → get_elem? (badges ts) i ≡ some (t.order_id, t.alive)
get_elem?-badges [] i e = cc
get_elem?-badges (x ∷ ts) zero e = ground arith
get_elem?-badges (x ∷ ts) (suc i) e = get_elem?-badges ts i e

-- The badge in place `k` after trader `i` has moved on, `next`, was at most that before.
record Moved (ts : List Trader) (i k counter next : ℕ) : Type 0 where
  before : ℕ
  alive : Bool
  there : get_elem? (badges ts) k ≡ some (before, alive)
  less : before ≤ next
  own : k ≡ i → counter < next

badges-set :
    (ts : List Trader) (i k : ℕ) {t : Trader} {next : ℕ} {alive : Bool}
    → get_elem? ts i ≡ some t
    → get_elem? (badges (set ts i (record t { order_id = suc t.order_id }))) k ≡ some (next, alive)
    → Moved ts i k t.order_id next
badges-set [] i k e h = cc
badges-set (x ∷ ts) zero zero {alive = alive} e h = record {
  before = x.order_id;
  alive = x.alive;
  there = refl;
  less = ground arith;
  own = λ z. ground arith;
}
badges-set (x ∷ ts) zero (suc k) {next = next} {alive = alive} e h = record {
  before = next;
  alive = alive;
  there = h;
  less = omega arith;
  own = λ z. absurd (omega arith);
}
badges-set (x ∷ ts) (suc i) zero {next = next} {alive = alive} e h = record {
  before = next;
  alive = alive;
  there = h;
  less = omega arith;
  own = λ z. absurd (omega arith);
}
badges-set (x ∷ ts) (suc i) (suc k) e h =
    let m = badges-set ts i k e h in
    record {
      before = m.before;
      alive = m.alive;
      there = m.there;
      less = m.less;
      own = λ z. m.own (omega arith);
    }

named_other :
    (trader_id id : ℕ) (o : Order)
    → ¬ ((o.order_id ≡ id) × (o.trader_id ≡ trader_id))
    → named trader_id id o ≡ 0
named_other trader_id id o h = elim (Bool-cases (o.order_id == id && o.trader_id == trader_id)) [
  | inl hit ↦ absurd (h (ground arith, ground arith))
  | inr miss ↦ simp miss refl
]

named-le-one : (trader_id id : ℕ) (o : Order) → named trader_id id o ≤ 1
named-le-one trader_id id o = ground arith

module _ (products : List Bytes) (trader_ind : ℕ) (s s' : Exchange)
    (v : IsValid (length products) s) (u : HasUniqueIds s) where
  placed-HasUniqueIds :
      (t : Trader) (is_buy : Bool) (o : Order)
      → get_elem? s.trader_list trader_ind ≡ some t
      → Created products t is_buy (record t { order_id = suc t.order_id }) o
      → ((w : Weight) → IsLight w → total_weight w s' ≤ total_weight w s + w o)
      → badges s'.trader_list
        ≡ badges (set s.trader_list trader_ind (record t { order_id = suc t.order_id }))
      → HasUniqueIds s'
  placed-HasUniqueIds t is_buy o e c h b = record {
    once = λ tid id. elim (Bool-cases (o.order_id == id && o.trader_id == tid)) [
      | inl hit ↦
          let first : total_weight (named tid id) s ≡ 0 =
            u.none_ahead tid id t.order_id t.alive
              (subst (λ k. get_elem? (badges s.trader_list) k ≡ some (t.order_id, t.alive))
                (let at : trader_ind ≡ tid = ground (arith, c.trader, here) in at)
                (get_elem?-badges s.trader_list trader_ind e))
              (ground (arith, c.order_id)) in
          omega (arith, h (named tid id) (named-IsLight tid id), named-le-one tid id o)
      | inr miss ↦
          let none_added : named tid id o ≡ 0 = simp miss refl in
          omega (arith, h (named tid id) (named-IsLight tid id), u.once tid id)
    ];
    none_ahead = λ tid id next alive at le.
        let m = badges-set s.trader_list trader_ind tid e (b_at tid next alive b at) in
        let none_added : named tid id o ≡ 0 = named_other tid id o (λ same. absurd (
          omega (
            arith,
            same.0,
            same.1,
            c.trader,
            here,
            c.order_id,
            m.own (omega (arith, same.1, c.trader, here)),
          ))) in
        omega (
          arith,
          h (named tid id) (named-IsLight tid id),
          u.none_ahead tid id m.before m.alive m.there (omega (arith, m.less)),
        );
  }
    where
      here : t.id ≡ trader_ind
      here = Covers-id (length products) s.trader_list trader_ind v.accounts e

      b_at :
          (k next : ℕ) (alive : Bool)
          → badges s'.trader_list
            ≡ badges (set s.trader_list trader_ind (record t { order_id = suc t.order_id }))
          → get_elem? (badges s'.trader_list) k ≡ some (next, alive)
          → get_elem?
              (badges (set s.trader_list trader_ind (record t { order_id = suc t.order_id })))
              k
            ≡ some (next, alive)
      b_at k next alive same at = rw same at at

  replaced-HasUniqueIds :
      (old new : Order)
      → new ≡ create_amended_order new.price new.quantity old
      → ((w : Weight) → IsLight w → total_weight w s' + w old ≤ total_weight w s + w new)
      → badges s'.trader_list ≡ badges s.trader_list
      → HasUniqueIds s'
  unfolding create_amended_order
  replaced-HasUniqueIds old new e h b = record {
    once = λ tid id.
        omega (arith, h (named tid id) (named-IsLight tid id), same tid id, u.once tid id);
    none_ahead = λ tid id next alive at le. omega (
      arith,
      h (named tid id) (named-IsLight tid id),
      same tid id,
      u.none_ahead tid id next alive (rw b at at) le,
    );
  }
    where
      same : (tid id : ℕ) → named tid id new ≡ named tid id old
      same tid id = ap (named tid id) e

  Effect-HasUniqueIds : Effect products trader_ind s s' → HasUniqueIds s'
  Effect-HasUniqueIds (nothing_new h b) = record {
    once = λ tid id. omega (arith, h (named tid id) (named-IsLight tid id), u.once tid id);
    none_ahead = λ tid id next alive at le. omega (
      arith,
      h (named tid id) (named-IsLight tid id),
      u.none_ahead tid id next alive (rw b at at) le,
    );
  }
  Effect-HasUniqueIds (placed t is_buy o e c h b) = placed-HasUniqueIds t is_buy o e c h b
  Effect-HasUniqueIds (replaced old new e i h b) = replaced-HasUniqueIds old new e h b

-- On a valid exchange in which no trader has two orders with the same ID in the books, nor one with
-- an ID that is not given out yet, both stay so with every message that `parse_msg` handles,
-- whichever its text and its trader.
pub parse_msg-HasUniqueIds :
    (s s' : Exchange) (products : List Bytes) (msg : Bytes) (trader_ind : ℕ)
    → IsValid (length products) s
    → HasUniqueIds s
    → parse_msg s products msg trader_ind ≡ some s'
    → HasUniqueIds s'
parse_msg-HasUniqueIds s s' products msg trader_ind v u e =
    Effect-HasUniqueIds products trader_ind s s' v u
      (subst (Effects products trader_ind s) e (parse_msg-Effects products trader_ind s msg v))
