-- ===== src/Orderbook/Linked/Delete.antt =====
-- A node is taken out of its list, wherever it stands.
pub mod Cases
use pe_exchange.Common.{
  ℕ, zero, suc, ◌≡◌, ◌≢◌, ◌⊎◌, refl, ap, sym, subst, ◌∙◌, inl, inr, Bool, true, false, List, [],
  ◌∷◌, ◌++◌, none, some, ◌&&◌, get_elem?, erase_at, append-nil, append_assoc,
}
use pe_exchange.Orderbook.Orders.{delete_order}
use pe_exchange.Orderbook.Linked.{Pointer, Node, BookEnds, Heap, put, same_pointer, unlink}
use pe_exchange.Orderbook.Linked.Segment.{
  Cell, first, last, Segment, Fresh, AllDifferent, AllDifferent-drop, AllDifferent-at, IsLinked,
  orders_of, put-other, Segment-put, Segment-append, Segment-split, Segment-set_next,
  Segment-set_prev, snoc-cases, Fresh-append, last-append, first-append, same_pointer_refl,
  same_pointer_ne, last_ne,
}
use pe_exchange.Orderbook.Linked.Insert.{set_next_lem, set_prev_lem, Linked}
use pe_exchange.Orderbook.Linked.Delete.Cases.{unlink_only, unlink_head, unlink_tail, unlink_middle}

module _ (h : Heap) (list : BookEnds) (a : Cell) where
  unlink_between :
      (pre post : List Cell)
      → IsLinked h list (pre ++ (a ∷ post))
      → Linked h (unlink h list a.0) (pre ++ post) (pre ++ post)
  unlink_between pre post l = by_front (snoc-cases pre) post l
    where
      by_last :
          (init : List Cell) (p : Cell) (after : List Cell)
          → IsLinked h list ((init ++ (p ∷ [])) ++ (a ∷ after))
          → Linked h (unlink h list a.0) ((init ++ (p ∷ [])) ++ after) ((init ++ (p ∷ [])) ++ after)
      by_last init p [] k = rw (append-nil (init ++ (p ∷ []))) (unlink_tail h list a init p k)
      by_last init p (c ∷ cs) k = unlink_middle h list a init p c cs k

      at_head :
          (after : List Cell)
          → IsLinked h list (a ∷ after)
          → Linked h (unlink h list a.0) after after
      at_head [] k = unlink_only h list a k
      at_head (c ∷ cs) k = unlink_head h list a c cs k

      by_front :
          (pre ≡ []) ⊎ ((init : List Cell) × (p : Cell) × (pre ≡ init ++ (p ∷ [])))
          → (after : List Cell) → IsLinked h list (pre ++ (a ∷ after))
          → Linked h (unlink h list a.0) (pre ++ after) (pre ++ after)
      by_front (inl empty) after k =
          subst (λ x. Linked h (unlink h list a.0) (x ++ after) (x ++ after)) (sym empty)
            (at_head after (subst (λ x. IsLinked h list (x ++ (a ∷ after))) empty k))
      by_front (inr (init, p, e)) after k =
          subst (λ x. Linked h (unlink h list a.0) (x ++ after) (x ++ after)) (sym e)
            (by_last init p after (subst (λ x. IsLinked h list (x ++ (a ∷ after))) e k))

-- The cells around a position.
pub record Around (cs : List Cell) (k : ℕ) (a : Cell) : Type 0 where
  pub pre : List Cell
  pub post : List Cell
  pub whole : cs ≡ pre ++ (a ∷ post)
  pub without : erase_at cs k ≡ pre ++ post

pub around : (cs : List Cell) (k : ℕ) {a : Cell} → get_elem? cs k ≡ some a → Around cs k a
around [] k e = absurd cc
around (c ∷ cs) zero e = record {
  pre = [];
  post = cs;
  whole = ap (λ x. x ∷ cs) (let q : c ≡ _ = cc in q);
  without = refl;
}
around (c ∷ cs) (suc k) e =
    let r = around cs k e in
    record {
      pre = c ∷ r.pre;
      post = r.post;
      whole = ap (◌∷◌ c) r.whole;
      without = ap (◌∷◌ c) r.without;
    }

orders_of-erase_at :
    (cs : List Cell) (k : ℕ) → orders_of (erase_at cs k) ≡ erase_at (orders_of cs) k
orders_of-erase_at [] k = refl
orders_of-erase_at (c ∷ cs) zero = refl
orders_of-erase_at (c ∷ cs) (suc k) = ap (◌∷◌ c.1) (orders_of-erase_at cs k)

-- On a doubly linked list of different nodes, `delete_order` of the node at any position ends
-- without the use of NULL or of a node that is not allocated: the list, linked both ways and with
-- its right ends, then has the other nodes in their order, which hold what the list model's
-- `delete_order` leaves, and no node outside of it is changed.
pub unlink-Linked :
    (h : Heap) (list : BookEnds) (cells : List Cell) (k : ℕ) (a : Cell)
    → IsLinked h list cells
    → get_elem? cells k ≡ some a
    → Linked h (unlink h list a.0) (erase_at cells k) (erase_at cells k)
      × (orders_of (erase_at cells k) ≡ delete_order k (orders_of cells))
unfolding delete_order
unlink-Linked h list cells k a l e =
    let r = around cells k e in
    (
      subst (λ x. Linked h (unlink h list a.0) x x) (sym r.without)
          (unlink_between h list a r.pre r.post (subst (IsLinked h list) r.whole l)),
      orders_of-erase_at cells k,
    )
