-- ===== src/Orderbook/Levels/Remove.antt =====
-- `delete_order_prints` on one side: the loop over positions, with its removal of a node, is the plain
-- recursion `deduct_level`, which takes the order's share from the level of its price.
use pe_exchange.Common.{
  ℕ, suc, ◌+◌, ◌≤◌, ◌<◌, ◌≡◌, ◌≢◌, refl, ap, ◌∙◌, sym, inl, inr, List, [], ◌∷◌, ◌++◌, arith,
  Bool-cases, All-append, length-snoc, snoc-append, ◌==◌, if◌then◌else◌, int_mod, All, length,
  length-append, set, drop,
}
use pe_exchange.Types.{Order, PrintedOrder}
use pe_exchange.Orderbook.Levels.{skip_level, remove_from_levels, deduct, delete_from}
use pe_exchange.Orderbook.Levels.Descending.{
  Below, Descends, quantity_at, orders_at, quantity_at_above, orders_at_above, HasQuantity,
  Below-Descends, Below-mono,
}
use pe_exchange.Orderbook.Levels.Add.{share, hit}

pub deduct_level : List PrintedOrder → Order → List PrintedOrder
deduct_level [] o = []
deduct_level (t ∷ ts) o =
    if o.price == t.price
    then (if (deduct t o).quantity == 0 then ts else deduct t o ∷ ts)
    else t ∷ deduct_level ts o

abbrev Misses : Order → PrintedOrder → Type 0
Misses o t = o.price ≢ t.price

Below-Misses :
    (o : Order) (p : ℕ) (ls : List PrintedOrder) → Below p ls → p ≤ o.price → All (Misses o) ls
Below-Misses o p [] b h = tt
Below-Misses o p (l ∷ ls) b h = (omega arith, Below-Misses o l.price ls b.1 (omega arith))

drop-append :
    (pre ls : List PrintedOrder) (t : PrintedOrder) → drop (suc (length pre)) (pre ++ (t ∷ ls)) ≡ ls
drop-append [] ls t = refl
drop-append (x ∷ pre) ls t = drop-append pre ls t

set-append :
    (pre ls : List PrintedOrder) (t t' : PrintedOrder)
    → set (pre ++ (t ∷ ls)) (length pre) t' ≡ pre ++ (t' ∷ ls)
set-append [] ls t t' = refl
set-append (x ∷ pre) ls t t' = ap (◌∷◌ x) (set-append pre ls t t')

-- After a level at the node's price has been passed over, the rest is skipped to.
skip_level-append :
    (pre ls after : List PrintedOrder) (x t : PrintedOrder)
    → All (λ y. y.price ≢ t.price) pre
    → skip_level (x ∷ pre ++ (t ∷ ls)) t.price after ≡ x ∷ pre ++ after
unfolding skip_level
skip_level-append [] ls after x t h = ground arith
skip_level-append (y ∷ pre) ls after x t h = ground (arith, skip_level-append pre ls after y t h.1)

length_zero-nil : (ls : List PrintedOrder) → length ls ≡ 0 → ls ≡ []
length_zero-nil [] h = refl
length_zero-nil (l ∷ ls) h = absurd (omega arith)

-- Removing the node behind `pre` leaves what stands around it.
remove_from_levels-append :
    (pre ls : List PrintedOrder) (t : PrintedOrder) (len : ℕ)
    → All (λ y. y.price ≢ t.price) pre
    → len ≡ length (pre ++ (t ∷ ls))
    → remove_from_levels (pre ++ (t ∷ ls)) len (length pre) t ≡ pre ++ ls
unfolding remove_from_levels
remove_from_levels-append [] ls t len h e = ground (arith, length_zero-nil ls)
remove_from_levels-append (x ∷ pre) ls t len h e =
    ground
      (arith, length-append pre (t ∷ ls), drop-append pre ls t, skip_level-append pre ls ls x t h.1)

delete_from_miss :
    (levels : List PrintedOrder) (len i : ℕ) (ts : List PrintedOrder) (o : Order)
    → All (Misses o) ts
    → delete_from levels len i ts o ≡ levels
unfolding delete_from
delete_from_miss levels len i [] o h = refl
delete_from_miss levels len i (t ∷ ts) o h =
    ground (arith, delete_from_miss levels len (suc i) ts o h.1)

deduct_level_miss :
    (ts : List PrintedOrder) (o : Order) → All (Misses o) ts → deduct_level ts o ≡ ts
unfolding deduct_level
deduct_level_miss [] o h = refl
deduct_level_miss (t ∷ ts) o h = ground (arith, deduct_level_miss ts o h.1)

Misses-flip :
    (o : Order) (p : ℕ) (ls : List PrintedOrder)
    → o.price ≡ p
    → All (Misses o) ls
    → All (λ y. y.price ≢ p) ls
Misses-flip o p [] e h = tt
Misses-flip o p (l ∷ ls) e h = (omega arith, Misses-flip o p ls e h.1)

-- From position `length pre` on, the loop does to the rest what `deduct_level` does.
delete_from-append :
    (pre ts : List PrintedOrder) (o : Order) (len : ℕ)
    → All (Misses o) pre
    → Descends ts
    → len ≡ length (pre ++ ts)
    → delete_from (pre ++ ts) len (length pre) ts o ≡ pre ++ deduct_level ts o
unfolding delete_from deduct_level
delete_from-append pre [] o len h d e = refl
delete_from-append pre (t ∷ ts) o len h d e = elim (Bool-cases (o.price == t.price)) [
  | inl same ↦
      let at : o.price ≡ t.price = ground arith in
      rw (same, set-append pre ts t (deduct t o))
        (ground (
          arith,
          remove_from_levels-append pre ts (deduct t o) len (Misses-flip o t.price pre at h),
          length-append pre (t ∷ ts),
          length-append pre (deduct t o ∷ ts),
          delete_from_miss (pre ++ (deduct t o ∷ ts)) len (suc (length pre)) ts o
              (Below-Misses o t.price ts d (omega arith)),
        ))
  | inr other ↦
      let ih : delete_from ((pre ++ (t ∷ [])) ++ ts) len (length (pre ++ (t ∷ []))) ts o
          ≡ (pre ++ (t ∷ [])) ++ deduct_level ts o =
        delete_from-append (pre ++ (t ∷ [])) ts o len
          (All-append (Misses o) pre (t ∷ []) h (ground arith, tt)) (Below-Descends t.price ts d)
          (e ∙ ap length (sym (snoc-append pre ts t))) in
      rw other
        (rw (snoc-append pre ts t, length-snoc pre t, snoc-append pre (deduct_level ts o) t) at ih)
]

-- On levels in strictly descending order whose number is the stored length, the loop of
-- `delete_order_prints` with `remove_from_products` inside is the recursion that deducts the order
-- from the level of its price and leaves that level out if nothing remains.
pub delete_from_lem :
    (ls : List PrintedOrder) (o : Order) (len : ℕ)
    → Descends ls
    → len ≡ length ls
    → delete_from ls len 0 ls o ≡ deduct_level ls o
delete_from_lem ls o len d e = delete_from-append [] ls o len tt d e

-- The order lies on the level of its price: the level holds its quantity, and if it holds no more
-- than that, it holds no other order.
pub record Lies (ls : List PrintedOrder) (o : Order) : Type 0 where
  pub some_quantity : 0 < o.quantity
  pub quantity : o.quantity ≤ quantity_at o.price ls
  pub orders : 0 < orders_at o.price ls
  pub alone : quantity_at o.price ls ≡ o.quantity → orders_at o.price ls ≡ 1
  pub int_quantity : quantity_at o.price ls < int_mod
  pub int_orders : orders_at o.price ls < int_mod

module _ (o : Order) (p : ℕ) where
  pub quantity_at-deduct_level :
      (ls : List PrintedOrder)
      → Descends ls
      → Lies ls o
      → quantity_at p (deduct_level ls o) + share p o ≡ quantity_at p ls
  unfolding deduct_level deduct
  quantity_at-deduct_level [] d h = ground arith
  quantity_at-deduct_level (t ∷ ts) d h = ground (
    arith,
    quantity_at-deduct_level ts (Below-Descends t.price ts d),
    quantity_at_above t.price o.price ts d,
    orders_at_above t.price o.price ts d,
  )

  pub orders_at-deduct_level :
      (ls : List PrintedOrder)
      → Descends ls
      → Lies ls o
      → orders_at p (deduct_level ls o) + hit p o ≡ orders_at p ls
  unfolding deduct_level deduct
  orders_at-deduct_level [] d h = ground arith
  orders_at-deduct_level (t ∷ ts) d h = ground (
    arith,
    orders_at-deduct_level ts (Below-Descends t.price ts d),
    quantity_at_above t.price o.price ts d,
    orders_at_above t.price o.price ts d,
  )

pub Below-deduct_level :
    (o : Order) (b : ℕ) (ls : List PrintedOrder) → Below b ls → Below b (deduct_level ls o)
unfolding deduct_level deduct
Below-deduct_level o b [] d = tt
Below-deduct_level o b (t ∷ ts) d =
    ground (arith, Below-deduct_level o t.price ts d.1, Below-mono {p = t.price} {q = b} ts)

pub HasQuantity-deduct_level :
    (o : Order) (ls : List PrintedOrder) → All HasQuantity ls → All HasQuantity (deduct_level ls o)
unfolding deduct_level
HasQuantity-deduct_level o [] h = tt
HasQuantity-deduct_level o (t ∷ ts) h = ground (arith, HasQuantity-deduct_level o ts h.1)
