-- ===== src/Orderbook/Linked/FreeAll.antt =====
-- `free_orders` frees every node of every book, once, and nothing else.
use pe_exchange.Common.{
  ℕ, ◌<◌, ◌≡◌, refl, sym, ◌∙◌, List, [], ◌∷◌, ◌++◌, none, some, length, All, All-append,
}
use pe_exchange.Orderbook.Linked.{Pointer, BookEnds, Heap, free_orders}
use pe_exchange.Orderbook.Linked.Segment.{
  Cell, Segment, Fresh, AllDifferent, IsLinked, Fresh-append,
}
use pe_exchange.Orderbook.Linked.Free.{Freed, free_nodes-Freed}

-- A book's two lists, and the cells that they hold.
pub record Held : Type 0 where
  pub buy : BookEnds
  pub sell : BookEnds
  pub buy_cells : List Cell
  pub sell_cells : List Cell

abbrev pub books_of : List Held → List (BookEnds × BookEnds)
books_of [] = []
books_of (b ∷ bs) = (b.buy, b.sell) ∷ books_of bs

abbrev pub cells_of : List Held → List Cell
cells_of [] = []
cells_of (b ∷ bs) = b.buy_cells ++ (b.sell_cells ++ cells_of bs)

-- Each list is linked in the heap, and shorter than the fuel.
abbrev pub AllLinked : ℕ → Heap → List Held → Type 0
AllLinked fuel h [] = Unit {0}
AllLinked fuel h (b ∷ bs) =
    IsLinked h b.buy b.buy_cells
    × IsLinked h b.sell b.sell_cells
    × (length b.buy_cells < fuel)
    × (length b.sell_cells < fuel)
    × AllLinked fuel h bs

-- Cells that none of the others is at.
abbrev Apart : List Cell → List Cell → Type 0
Apart cs ds = All (λ d. Fresh d.0 cs) ds

Apart-cons : (c : Cell) (cs ds : List Cell) → Fresh c.0 ds → Apart cs ds → Apart (c ∷ cs) ds
Apart-cons c cs [] f a = tt
Apart-cons c cs (d ∷ ds) f a = ((λ e. f.0 (sym e), a.0), Apart-cons c cs ds f.1 a.1)

Apart-nil : (ds : List Cell) → Apart [] ds
Apart-nil [] = tt
Apart-nil (d ∷ ds) = (tt, Apart-nil ds)

AllDifferent-split : (cs ds : List Cell) → AllDifferent (cs ++ ds) → Apart cs ds × AllDifferent ds
AllDifferent-split [] ds d = (Apart-nil ds, d)
AllDifferent-split (c ∷ cs) ds d =
    let (a, e) = AllDifferent-split cs ds d.1 in
    (Apart-cons c cs ds (Fresh-append c.0 cs ds d.0).1 a, e)

Apart-append : (cs ds es : List Cell) → Apart cs (ds ++ es) → Apart cs ds × Apart cs es
Apart-append cs [] es a = (tt, a)
Apart-append cs (d ∷ ds) es a = let (b, c) = Apart-append cs ds es a.1 in ((a.0, b), c)

-- What is freed elsewhere leaves a list as it is.
module _ (h h' : Heap) (gone : List Cell) (same : (x : ℕ) → Fresh x gone → h' x ≡ h x) where
  Segment-same :
      (before after : Pointer) (cs : List Cell)
      → Apart gone cs
      → Segment h before cs after
      → Segment h' before cs after
  Segment-same before after [] a g = tt
  Segment-same before after (c ∷ cs) a g =
      (same c.0 a.0 ∙ g.0, Segment-same (some c.0) after cs a.1 g.1)

  IsLinked-same :
      (list : BookEnds) (cs : List Cell) → Apart gone cs → IsLinked h list cs → IsLinked h' list cs
  IsLinked-same list cs a l = record {
    head = l.head;
    tail = l.tail;
    nodes = Segment-same none none cs a l.nodes;
    different = l.different;
  }

  AllLinked-same :
      (fuel : ℕ) (bs : List Held)
      → Apart gone (cells_of bs)
      → AllLinked fuel h bs
      → AllLinked fuel h' bs
  AllLinked-same fuel [] a l = tt
  AllLinked-same fuel (b ∷ bs) a (l1, l2, n1, n2, ls) =
      let (a1, a2) = Apart-append gone b.buy_cells (b.sell_cells ++ cells_of bs) a in
      let (a3, a4) = Apart-append gone b.sell_cells (cells_of bs) a2 in
      (
        IsLinked-same b.buy b.buy_cells a1 l1,
        IsLinked-same b.sell b.sell_cells a3 l2,
        n1,
        n2,
        AllLinked-same fuel bs a4 ls,
      )

  -- What was freed stays so.
  gone-same :
      (cs : List Cell) → Apart gone cs → All (λ c. h c.0 ≡ none) cs → All (λ c. h' c.0 ≡ none) cs
  gone-same [] a g = tt
  gone-same (c ∷ cs) a g = (same c.0 a.0 ∙ g.0, gone-same cs a.1 g.1)

Apart-sym : (cs ds : List Cell) → Apart cs ds → Apart ds cs
Apart-sym cs [] a = Apart-nil cs
Apart-sym cs (d ∷ ds) a = Apart-cons d ds cs a.0 (Apart-sym cs ds a.1)

-- If the two books of every product are doubly linked lists, each shorter than the fuel, and no
-- node is in two of them or twice in one, then `free_orders` ends without the use of NULL or of a
-- node that has been freed: each node of each list is freed, none twice, and no other node is
-- changed.
pub free_orders-Freed :
    (bs : List Held) (fuel : ℕ) (h : Heap)
    → AllLinked fuel h bs
    → AllDifferent (cells_of bs)
    → Freed h (cells_of bs) (free_orders fuel h (books_of bs))
unfolding free_orders
free_orders-Freed [] fuel h l d = record { heap = h; ends = refl; gone = tt; others = λ x f. refl }
free_orders-Freed (b ∷ bs) fuel h (l1, l2, n1, n2, ls) d =
    let rest = b.sell_cells ++ cells_of bs in
    let (a1, d1) = AllDifferent-split b.buy_cells rest d in
    let (a2, d2) = AllDifferent-split b.sell_cells (cells_of bs) d1 in
    let (a3, a4) = Apart-append b.buy_cells b.sell_cells (cells_of bs) a1 in
    let r1 = free_nodes-Freed fuel h b.buy b.buy_cells l1 n1 in
    let l2' = IsLinked-same h r1.heap b.buy_cells r1.others b.sell b.sell_cells a3 l2 in
    let ls' = AllLinked-same h r1.heap b.buy_cells r1.others fuel bs a4 ls in
    let r2 = free_nodes-Freed fuel r1.heap b.sell b.sell_cells l2' n2 in
    let ls2 = AllLinked-same r1.heap r2.heap b.sell_cells r2.others fuel bs a2 ls' in
    let r3 = free_orders-Freed bs fuel r2.heap ls2 d2 in
    let late = λ (x : ℕ) (f : Fresh x (cells_of bs)). r3.others x f in
    record {
      heap = r3.heap;
      ends = rw (r1.ends, r2.ends) r3.ends;
      gone =
          All-append (λ c. r3.heap c.0 ≡ none) b.buy_cells rest
            (gone-same r2.heap r3.heap (cells_of bs) late b.buy_cells
              (Apart-sym b.buy_cells (cells_of bs) a4)
              (gone-same r1.heap r2.heap b.sell_cells r2.others b.buy_cells
                (Apart-sym b.buy_cells b.sell_cells a3) r1.gone))
            (All-append (λ c. r3.heap c.0 ≡ none) b.sell_cells (cells_of bs)
              (gone-same r2.heap r3.heap (cells_of bs) late b.sell_cells
                (Apart-sym b.sell_cells (cells_of bs) a2) r2.gone)
              r3.gone);
      others = λ x f.
          let (f1, f2) = Fresh-append x b.buy_cells rest f in
          let (f3, f4) = Fresh-append x b.sell_cells (cells_of bs) f2 in
          r3.others x f4 ∙ r2.others x f3 ∙ r1.others x f1;
    }
