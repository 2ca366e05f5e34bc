-- ===== src/Orderbook/Linked/Insert.antt =====
-- A node is put behind the last one.
use pe_exchange.Common.{
  ℕ, ◌≡◌, ◌≢◌, ◌⊎◌, refl, ap, sym, subst, ◌∙◌, inl, inr, List, [], ◌∷◌, ◌++◌, Option, none, some,
}
use pe_exchange.Orderbook.Orders.{add_to_tail}
use pe_exchange.Orderbook.Linked.{
  Pointer, Node, BookEnds, Heap, put, set_next, set_prev, link_to_tail,
}
use pe_exchange.Orderbook.Linked.Segment.{
  Cell, first, last, Fresh, AllDifferent, IsLinked, orders_of, put-same, put-other, Segment-put,
  Segment-append, Segment-split, Segment-set_next, snoc-cases, Fresh-append, append-Fresh,
  AllDifferent-at, last-append,
}

pub set_next_lem :
    (h : Heap) (a : ℕ) (q : Pointer) {n : Node}
    → h a ≡ some n
    → set_next h (some a) q ≡ some (put h a (some (record n { next = q })))
unfolding set_next
set_next_lem h a q e = rw e refl

pub set_prev_lem :
    (h : Heap) (a : ℕ) (q : Pointer) {n : Node}
    → h a ≡ some n
    → set_prev h (some a) q ≡ some (put h a (some (record n { prev = q })))
unfolding set_prev
set_prev_lem h a q e = rw e refl

-- A call on the nodes ends without a fault, with a list of the cells, and has touched no others.
pub record Linked (h : Heap) (r : Option (Heap × BookEnds)) (cells : List Cell)
    (touched : List Cell) : Type 0 where
  pub heap : Heap
  pub list : BookEnds
  pub ends : r ≡ some (heap, list)
  pub linked : IsLinked heap list cells
  pub others : (x : ℕ) → Fresh x touched → heap x ≡ h x

AllDifferent-snoc :
    (cs : List Cell) (a : Cell) → AllDifferent cs → Fresh a.0 cs → AllDifferent (cs ++ (a ∷ []))
AllDifferent-snoc [] a d f = (tt, tt)
AllDifferent-snoc (c ∷ cs) a d f =
    (append-Fresh c.0 cs (a ∷ []) d.0 ((λ e. f.0 (sym e)), tt), AllDifferent-snoc cs a d.1 f.1)

orders_of-snoc :
    (cs : List Cell) (a : Cell) → orders_of (cs ++ (a ∷ [])) ≡ orders_of cs ++ (a.1 ∷ [])
orders_of-snoc [] a = refl
orders_of-snoc (c ∷ cs) a = ap (◌∷◌ c.1) (orders_of-snoc cs a)

first-snoc :
    (init : List Cell) (p : Cell) (cs : List Cell) (after : Pointer)
    → first (init ++ (p ∷ [])) after ≡ first ((init ++ (p ∷ [])) ++ cs) after
first-snoc [] p cs after = refl
first-snoc (c ∷ init) p cs after = refl

module _ (h : Heap) (list : BookEnds) (a : ℕ) (n : Node) (e : h a ≡ some n) where
  abbrev new_cell : Cell
  new_cell = (a, n.order)

  link_first : list.tail ≡ none → Linked h (link_to_tail h list a) (new_cell ∷ []) (new_cell ∷ [])
  unfolding link_to_tail
  link_first t =
      let h1 = put h a (some (record n { prev = none })) in
      let h2 = put h1 a (some (record n { prev = none; next = none })) in
      record {
        heap = h2;
        list = record { head = some a; tail = some a };
        ends = rw (t, set_prev_lem h a none e, set_next_lem h1 a none (put-same h a _)) refl;
        linked = record {
          head = refl;
          tail = refl;
          nodes = (put-same h1 a _, tt);
          different = (tt, tt);
        };
        others = λ x f. put-other h1 a x _ f.0 ∙ put-other h a x _ f.0;
      }

  link_behind :
      (init : List Cell) (p : Cell)
      → IsLinked h list (init ++ (p ∷ []))
      → Fresh a (init ++ (p ∷ []))
      → Linked h
          (link_to_tail h list a)
          ((init ++ (p ∷ [])) ++ (new_cell ∷ []))
          ((init ++ (p ∷ [])) ++ (new_cell ∷ []))
  unfolding link_to_tail
  link_behind init p l f =
      let cells = init ++ (p ∷ []) in
      let at_tail : list.tail ≡ some p.0 = l.tail ∙ last-append none init (p ∷ []) in
      let own = AllDifferent-at init [] p l.different in
      let apart : a ≢ p.0 = (Fresh-append a init (p ∷ []) f).1.0 in
      let split = Segment-split h none none init (p ∷ []) l.nodes in
      let n1 = record n { prev = some p.0 } in
      let h1 = put h a (some n1) in
      let p1 : Node = record { order = p.1; prev = last none init; next = some a } in
      let h2 = put h1 p.0 (some p1) in
      let h3 = put h2 a (some (record n1 { next = none })) in
      let e1 : h1 p.0 ≡ some (record { order = p.1; prev = last none init; next = none }) =
        put-other h a p.0 _ (λ z. apart (sym z)) ∙ split.1.0 in
      let e2 : h2 a ≡ some n1 = put-other h1 p.0 a _ apart ∙ put-same h a _ in
      let g1 = Segment-put h a (some n1) none none cells f l.nodes in
      let g2 = Segment-set_next h1 none none (some a) init p g1 own.0 in
      let g3 = Segment-put h2 a (some (record n1 { next = none })) none (some a) cells f g2 in
      record {
        heap = h3;
        list = record list { tail = some a };
        ends =
            rw
              (
                at_tail,
                set_prev_lem h a (some p.0) e,
                set_next_lem h1 p.0 (some a) e1,
                set_next_lem h2 a none e2,
              )
              refl;
        linked = record {
          head = l.head ∙ first-snoc init p (new_cell ∷ []) none;
          tail = sym (last-append none cells (new_cell ∷ []));
          nodes =
              Segment-append h3 none none cells (new_cell ∷ []) g3
                (put-same h2 a _ ∙ rw (last-append none init (p ∷ [])) refl, tt);
          different = AllDifferent-snoc cells new_cell l.different f;
        };
        others = λ x g.
            let (g1, g2) = Fresh-append x cells (new_cell ∷ []) g in
            let (g3, g4) = Fresh-append x init (p ∷ []) g1 in
            put-other h2 a x _ g2.0 ∙ put-other h1 p.0 x _ g4.0 ∙ put-other h a x _ g2.0;
      }

-- On a doubly linked list of different nodes, `add_to_tail` of an allocated node that is not in it
-- ends without the use of NULL or of a node that is not allocated: the list then has the node
-- behind all others, holds what the list model's `add_to_tail` makes, and no node outside of it is
-- changed.
pub link_to_tail-Linked :
    (h : Heap) (list : BookEnds) (cells : List Cell) (a : ℕ) (n : Node)
    → IsLinked h list cells
    → Fresh a cells
    → h a ≡ some n
    → Linked h (link_to_tail h list a) (cells ++ ((a, n.order) ∷ [])) (cells ++ ((a, n.order) ∷ []))
      × (orders_of (cells ++ ((a, n.order) ∷ [])) ≡ add_to_tail n.order (orders_of cells))
unfolding add_to_tail
link_to_tail-Linked h list cells a n l f e = (nodes, orders_of-snoc cells (a, n.order))
  where
    at_end :
        (cs : List Cell)
        → IsLinked h list cs
        → Fresh a cs
        → (cs ≡ []) ⊎ ((init : List Cell) × (c : Cell) × (cs ≡ init ++ (c ∷ [])))
        → Linked h (link_to_tail h list a) (cs ++ ((a, n.order) ∷ [])) (cs ++ ((a, n.order) ∷ []))
    at_end cs k g (inl empty) =
        let t : list.tail ≡ none = k.tail ∙ ap (last none) empty in
        subst
          (λ x.
            Linked h (link_to_tail h list a) (x ++ ((a, n.order) ∷ [])) (x ++ ((a, n.order) ∷ [])))
          (sym empty) (link_first h list a n e t)
    at_end cs k g (inr (init, c, q)) =
        subst
          (λ x.
            Linked h (link_to_tail h list a) (x ++ ((a, n.order) ∷ [])) (x ++ ((a, n.order) ∷ [])))
          (sym q)
          (link_behind h list a n e init c (subst (IsLinked h list) q k) (subst (Fresh a) q g))

    nodes :
        Linked h
          (link_to_tail h list a)
          (cells ++ ((a, n.order) ∷ []))
          (cells ++ ((a, n.order) ∷ []))
    nodes = at_end cells l f (snoc-cases cells)
