-- ===== src/Orderbook/Linked/Free.antt =====
-- The nodes of a list are freed, each once, and nothing else; and `cancel_order`.
use pe_exchange.Common.{
  get_elem?, erase_at, ℕ, zero, suc, ◌<◌, ◌≡◌, refl, sym, subst, ◌∙◌, List, [], ◌∷◌, Option, none,
  some, arith, length, All,
}
use pe_exchange.Orderbook.Linked.{Pointer, Node, BookEnds, Heap, free, free_nodes, unlink_and_free}
use pe_exchange.Orderbook.Linked.Insert.{Linked}
use pe_exchange.Orderbook.Linked.Delete.{around, unlink-Linked}
use pe_exchange.Orderbook.Linked.Segment.{
  AllDifferent-at, append-Fresh, Cell, first, Segment, Fresh, AllDifferent, IsLinked, put-same,
  put-other, Segment-put,
}

-- Of the cells nothing is left; everything else is.
pub record Freed (h : Heap) (cells : List Cell) (r : Option Heap) : Type 0 where
  pub heap : Heap
  pub ends : r ≡ some heap
  pub gone : All (λ c. heap c.0 ≡ none) cells
  pub others : (x : ℕ) → Fresh x cells → heap x ≡ h x

pub free_nodes-Freed_from :
    (cells : List Cell) (fuel : ℕ) (h : Heap) (before : Pointer)
    → Segment h before cells none
    → AllDifferent cells
    → length cells < fuel
    → Freed h cells (free_nodes fuel h (first cells none))
unfolding free_nodes
free_nodes-Freed_from cells zero h before g d enough = absurd (omega arith)
free_nodes-Freed_from [] (suc fuel) h before g d enough = record {
  heap = h;
  ends = refl;
  gone = tt;
  others = λ x f. refl;
}
free_nodes-Freed_from (c ∷ cs) (suc fuel) h before g d enough =
    let r =
      free_nodes-Freed_from cs fuel (free h c.0) (some c.0)
        (Segment-put h c.0 none (some c.0) none cs d.0 g.1) d.1 (omega arith) in
    record {
      heap = r.heap;
      ends = rw g.0 r.ends;
      gone = (r.others c.0 d.0 ∙ put-same h c.0 none, r.gone);
      others = λ x f. r.others x f.1 ∙ put-other h c.0 x none f.0;
    }

-- One list, from its head on.
pub free_nodes-Freed :
    (fuel : ℕ) (h : Heap) (list : BookEnds) (cells : List Cell)
    → IsLinked h list cells
    → length cells < fuel
    → Freed h cells (free_nodes fuel h list.head)
free_nodes-Freed fuel h list cells l enough =
    subst (λ p. Freed h cells (free_nodes fuel h p)) (sym l.head)
      (free_nodes-Freed_from cells fuel h none l.nodes l.different enough)

erase_at-Fresh :
    (cs : List Cell) (k : ℕ) (a : Cell)
    → AllDifferent cs
    → get_elem? cs k ≡ some a
    → Fresh a.0 (erase_at cs k)
erase_at-Fresh cs k a d e =
    let r = around cs k e in
    let (f, g) = AllDifferent-at r.pre r.post a (subst AllDifferent r.whole d) in
    subst (Fresh a.0) (sym r.without) (append-Fresh a.0 r.pre r.post f g)

node_of :
    (cs : List Cell) (k : ℕ) (a : Cell) (h : Heap) (before : Pointer)
    → Segment h before cs none
    → get_elem? cs k ≡ some a
    → (n : Node) × (h a.0 ≡ some n)
node_of [] k a h before g e = absurd cc
node_of (c ∷ cs) zero a h before g e =
    let same : c ≡ a = cc in
    (
      record { order = c.1; prev = before; next = first cs none },
      subst (λ x. h x.0 ≡ some (record { order = c.1; prev = before; next = first cs none })) same
          g.0,
    )
node_of (c ∷ cs) (suc k) a h before g e = node_of cs k a h (some c.0) g.1 e

-- `cancel_order` takes a node out of its list and frees it, and the list does not lead to it.
pub unlink_and_free-Linked :
    (h : Heap) (list : BookEnds) (cells : List Cell) (k : ℕ) (a : Cell)
    → IsLinked h list cells
    → get_elem? cells k ≡ some a
    → (r : Linked h (unlink_and_free h list a.0) (erase_at cells k) (a ∷ erase_at cells k))
      × (r.heap a.0 ≡ none)
unfolding unlink_and_free
unlink_and_free-Linked h list cells k a l e =
    let (u, q) = unlink-Linked h list cells k a l e in
    let f = erase_at-Fresh cells k a l.different e in
    let there : u.heap a.0 ≡ h a.0 = u.others a.0 f in
    let (n, loaded) = node_of cells k a h none l.nodes e in
    (
      record {
        heap = free u.heap a.0;
        list = u.list;
        ends = rw (u.ends, there, loaded) refl;
        linked = record {
          head = u.linked.head;
          tail = u.linked.tail;
          nodes = Segment-put u.heap a.0 none none none (erase_at cells k) f u.linked.nodes;
          different = u.linked.different;
        };
        others = λ x g. put-other u.heap a.0 x none g.0 ∙ u.others x g.1;
      },
      put-same u.heap a.0 none,
    )
