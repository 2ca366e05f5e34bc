-- ===== src/Orderbook/Weight/Finish.antt =====
-- The end of an order's way through the exchange: at most its own weight is added.
use pe_exchange.Common.{
  ℕ, ◌+◌, ◌≤◌, ◌≡◌, refl, ◌∙◌, inl, inr, Bool, true, false, [], Option, none, some, arith,
  if◌then◌else◌, Bool-cases, get_or,
}
use pe_exchange.Types.{Order, Exchange}
use pe_exchange.Printing.{print_bk_pos}
use pe_exchange.Orderbook.Orders.{add_to_tail}
use pe_exchange.Orderbook.Matching.{check_for_match, add_rest, finish_order}
use pe_exchange.Orderbook.Weight.{Weight, IsLight, total_weight, weight-snoc, weights-modify}
use pe_exchange.Orderbook.Weight.Matching.{badges}
use pe_exchange.Orderbook.Weight.Loops.{Weighs, WeighsIf, check_for_match-Weighs}

-- A later exchange in which at most some weight was added, and the traders have their badges.
pub record Heavier (w : Weight) (s s' : Exchange) (added : ℕ) : Type 0 where
  pub books : total_weight w s' ≤ total_weight w s + added
  pub badges : badges s'.trader_list ≡ badges s.trader_list

abbrev pub HeavierIf : Weight → Exchange → ℕ → Option Exchange → Type 0
HeavierIf w s added none = Unit {0}
HeavierIf w s added (some s') = Heavier w s s' added

module _ (w : Weight) where
  add_rest-Heavier : (s : Exchange) (o : Order) → Heavier w s (add_rest s o) (w o)
  unfolding add_rest add_to_tail
  add_rest-Heavier s o = elim (Bool-cases o.is_buy) [
    | inl buy ↦ simp buy (record {
      books = omega (
        arith,
        weights-modify w s.buy_orders o.product_id (add_to_tail o),
        weight-snoc w (get_or s.buy_orders o.product_id []) o,
      );
      badges = refl;
    })
    | inr sell ↦ simp sell (record {
      books = omega (
        arith,
        weights-modify w s.sell_orders o.product_id (add_to_tail o),
        weight-snoc w (get_or s.sell_orders o.product_id []) o,
      );
      badges = refl;
    })
  ]

  placed :
      (s : Exchange) (o : Order) (r : Exchange × Order × Bool)
      → Weighs w s o r
      → Heavier w s (print_bk_pos (if r.2 then add_rest r.0 r.1 else r.0)) (w o)
  unfolding print_bk_pos
  placed s o (t, o', true) m =
      let a = add_rest-Heavier t o' in
      record {
        books = omega (arith, a.books, m.lighter.books, m.order);
        badges = a.badges ∙ m.lighter.badges;
      }
  placed s o (t, o', false) m = record {
    books = omega (arith, m.lighter.books);
    badges = m.lighter.badges;
  }

  -- An order's way through the exchange adds at most its own weight to the books, and touches no badge.
  pub finish_order-Heavier :
      (s : Exchange) (o : Order) → IsLight w → 1 ≤ o.price → HeavierIf w s (w o) (finish_order s o)
  unfolding finish_order
  finish_order-Heavier s o light l =
      finished (check_for_match s o) (check_for_match-Weighs w light s o l)
    where
      finished :
          (r : Option (Exchange × Order × Bool))
          → WeighsIf w s o r
          → HeavierIf w s (w o) (elim r [
            | none ↦ none
            | some (s', o', more) ↦ some (print_bk_pos (if more then add_rest s' o' else s'))
          ])
      finished none h = tt
      finished (some r) h = placed s o r h
