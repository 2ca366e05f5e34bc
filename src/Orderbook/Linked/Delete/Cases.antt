-- ===== src/Orderbook/Linked/Delete/Cases.antt =====
-- A node is taken out of its list: the four cases of `delete_order`.
use pe_exchange.Common.{
  ℕ, ◌≡◌, ◌≢◌, refl, sym, subst, ◌∙◌, Bool, true, false, List, [], ◌∷◌, ◌++◌, none, some, ◌&&◌,
  append-nil, append_assoc,
}
use pe_exchange.Orderbook.Linked.{Pointer, Node, BookEnds, Heap, put, same_pointer, unlink}
use pe_exchange.Orderbook.Linked.Segment.{
  Cell, first, last, Segment, Fresh, AllDifferent, AllDifferent-drop, AllDifferent-at, IsLinked,
  put-other, Segment-put, Segment-append, Segment-split, Segment-set_next, Segment-set_prev,
  Fresh-append, last-append, first-append, same_pointer_refl, same_pointer_ne, last_ne,
}
use pe_exchange.Orderbook.Linked.Insert.{set_next_lem, set_prev_lem, Linked}

-- The first cell's address is not one that is fresh.
head_ne :
    (init ds : List Cell) (p : Cell) (a : ℕ)
    → Fresh a (init ++ (p ∷ []))
    → same_pointer (first ((init ++ (p ∷ [])) ++ ds) none) (some a) ≡ false
head_ne [] ds p a f = same_pointer_ne p.0 a (λ e. f.0 (sym e))
head_ne (x ∷ init) ds p a f = same_pointer_ne x.0 a (λ e. f.0 (sym e))

first_same :
    (init : List Cell) (p : Cell) (after after' : Pointer)
    → first (init ++ (p ∷ [])) after ≡ first (init ++ (p ∷ [])) after'
first_same [] p after after' = refl
first_same (x ∷ init) p after after' = refl

and_false : (b : Bool) → (b && false) ≡ false
and_false true = refl
and_false false = refl

module _ (h : Heap) (list : BookEnds) (a : Cell) where
  pub unlink_only : IsLinked h list (a ∷ []) → Linked h (unlink h list a.0) [] []
  unfolding unlink
  unlink_only l = record {
    heap = h;
    list = record { head = none; tail = none };
    ends = rw (l.head, l.tail, same_pointer_refl (some a.0)) refl;
    linked = record { head = refl; tail = refl; nodes = tt; different = tt };
    others = λ x f. refl;
  }

  pub unlink_head :
      (c : Cell) (cs : List Cell)
      → IsLinked h list (a ∷ (c ∷ cs))
      → Linked h (unlink h list a.0) (c ∷ cs) (c ∷ cs)
  unfolding unlink
  unlink_head c cs l =
      let c1 : Node = record { order = c.1; prev = none; next = first cs none } in
      let f = l.different.0 in
      let differ : same_pointer (last (some c.0) cs) (some a.0) ≡ false =
        last_ne cs a.0 c.0 f.0 f.1 in
      record {
        heap = put h c.0 (some c1);
        list = record list { head = some c.0 };
        ends =
            rw
              (
                l.head,
                l.tail,
                differ,
                same_pointer_refl (some a.0),
                l.nodes.0,
                set_prev_lem h c.0 none l.nodes.1.0,
              )
              refl;
        linked = record {
          head = refl;
          tail = l.tail;
          nodes = Segment-set_prev h (some a.0) none none c cs l.nodes.1 l.different.1.0;
          different = l.different.1;
        };
        others = λ x g. put-other h c.0 x _ g.0;
      }

  module _ (init : List Cell) (p : Cell) where
    abbrev pre : List Cell
    pre = init ++ (p ∷ [])

    -- What the list is like in front of the node.
    record Front (after : List Cell) : Type 0 where
      node : h a.0 ≡ some (record { order = a.1; prev = some p.0; next = first after none })
      before : h p.0 ≡ some (record { order = p.1; prev = last none init; next = some a.0 })
      nodes : Segment h none pre (some a.0)
      rest : Segment h (some a.0) after none
      own : Fresh p.0 init
      apart : Fresh a.0 pre
      behind : Fresh a.0 after
      pre_after : AllDifferent (pre ++ after)

    front : (after : List Cell) → IsLinked h list (pre ++ (a ∷ after)) → Front after
    front after l =
        let (k, g) = Segment-split h none none pre (a ∷ after) l.nodes in
        let (k1, k2) = Segment-split h none (some a.0) init (p ∷ []) k in
        let d = AllDifferent-at pre after a l.different in
        record {
          node = g.0 ∙ rw (last-append none init (p ∷ [])) refl;
          before = k2.0;
          nodes = k;
          rest = g.1;
          own =
              (AllDifferent-at init (a ∷ after) p
                (rw (append_assoc init (p ∷ []) (a ∷ after)) at l.different)).0;
          apart = d.0;
          behind = d.1;
          pre_after = AllDifferent-drop pre (a ∷ []) after l.different;
        }

    pub unlink_tail : IsLinked h list (pre ++ (a ∷ [])) → Linked h (unlink h list a.0) pre pre
    unfolding unlink
    unlink_tail l =
        let v = front [] l in
        let at_tail : list.tail ≡ some a.0 = l.tail ∙ last-append none pre (a ∷ []) in
        let differ : same_pointer list.head (some a.0) ≡ false =
          rw l.head (head_ne init (a ∷ []) p a.0 v.apart) in
        record {
          heap = put h p.0 _;
          list = record list { tail = some p.0 };
          ends =
              rw
                (
                  differ,
                  and_false (same_pointer list.tail list.head),
                  at_tail,
                  same_pointer_refl (some a.0),
                  v.node,
                  set_next_lem h p.0 none v.before,
                )
                refl;
          linked = record {
            head = l.head ∙ first-append pre (a ∷ []) none ∙ first_same init p _ _;
            tail = sym (last-append none init (p ∷ []));
            nodes = Segment-set_next h none (some a.0) none init p v.nodes v.own;
            different = rw (append-nil pre) at v.pre_after;
          };
          others = λ x g. put-other h p.0 x _ (Fresh-append x init (p ∷ []) g).1.0;
        }

    pub unlink_middle :
        (c : Cell) (cs : List Cell)
        → IsLinked h list (pre ++ (a ∷ (c ∷ cs)))
        → Linked h (unlink h list a.0) (pre ++ (c ∷ cs)) (pre ++ (c ∷ cs))
    unfolding unlink
    unlink_middle c cs l =
        let v = front (c ∷ cs) l in
        let not_head : same_pointer list.head (some a.0) ≡ false =
          rw l.head (head_ne init (a ∷ (c ∷ cs)) p a.0 v.apart) in
        let tail_at : list.tail ≡ last (some c.0) cs =
          l.tail ∙ last-append none pre (a ∷ (c ∷ cs)) in
        let not_tail : same_pointer list.tail (some a.0) ≡ false =
          rw tail_at (last_ne cs a.0 c.0 v.behind.0 v.behind.1) in
        let p1 : Node = record { order = p.1; prev = last none init; next = some c.0 } in
        let h1 = put h p.0 (some p1) in
        let c1 : Node = record { order = c.1; prev = some p.0; next = first cs none } in
        let h2 = put h1 c.0 (some c1) in
        let apart_p =
          AllDifferent-at init (c ∷ cs) p
            (rw (append_assoc init (p ∷ []) (c ∷ cs)) at v.pre_after) in
        let apart_c = AllDifferent-at pre cs c v.pre_after in
        let a_p : a.0 ≢ p.0 = (Fresh-append a.0 init (p ∷ []) v.apart).1.0 in
        let node1 : h1 a.0 ≡ some (record { order = a.1; prev = some p.0; next = some c.0 }) =
          put-other h p.0 a.0 _ a_p ∙ v.node in
        let rest1 = Segment-put h p.0 (some p1) (some a.0) none (c ∷ cs) apart_p.1 v.rest in
        let front1 = Segment-set_next h none (some a.0) (some c.0) init p v.nodes v.own in
        record {
          heap = h2;
          list = list;
          ends =
              rw
                (
                  not_head,
                  and_false (same_pointer list.tail list.head),
                  not_tail,
                  v.node,
                  set_next_lem h p.0 (some c.0) v.before,
                  node1,
                  set_prev_lem h1 c.0 (some p.0) rest1.0,
                )
                refl;
          linked = record {
            head =
                l.head
                ∙ first-append pre (a ∷ (c ∷ cs)) none
                ∙ first_same init p _ _
                ∙ sym (first-append pre (c ∷ cs) none);
            tail = tail_at ∙ sym (last-append none pre (c ∷ cs));
            nodes =
                Segment-append h2 none none pre (c ∷ cs)
                  (Segment-put h1 c.0 (some c1) none (some c.0) pre apart_c.0 front1)
                  (subst (λ q. Segment h2 q (c ∷ cs) none) (sym (last-append none init (p ∷ [])))
                    (Segment-set_prev h1 (some a.0) (some p.0) none c cs rest1 apart_c.1));
            different = v.pre_after;
          };
          others = λ x g.
              let (g1, g2) = Fresh-append x pre (c ∷ cs) g in
              let (g3, g4) = Fresh-append x init (p ∷ []) g1 in
              put-other h1 c.0 x _ g2.0 ∙ put-other h p.0 x _ g4.0;
        }
