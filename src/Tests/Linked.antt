-- ===== src/Tests/Linked.antt =====
-- The theorems on the linked lists, at a list of two nodes.
use pe_exchange.Common.{
  ◌≡◌, refl, List, [], ◌∷◌, ◌++◌, none, some, arith, erase_at, if◌then◌else◌, ◌==◌,
}
use pe_exchange.Orderbook.Orders.{add_to_tail, delete_order}
use pe_exchange.Orderbook.Linked.{BookEnds, Heap, link_to_tail, unlink, free_orders}
use pe_exchange.Orderbook.Linked.Segment.{Cell, IsLinked, orders_of}
use pe_exchange.Orderbook.Linked.Insert.{Linked, link_to_tail-Linked}
use pe_exchange.Orderbook.Linked.Delete.{unlink-Linked}
use pe_exchange.Orderbook.Linked.Free.{Freed}
use pe_exchange.Orderbook.Linked.FreeAll.{Held, books_of, cells_of, free_orders-Freed}
use pe_exchange.Tests.State.{sell_five, buy_eight}

-- Two linked nodes at the addresses 16 and 32, and one of its own at 48.
abbrev heap : Heap
heap x =
    if x == 16
    then some (record { order = sell_five; prev = none; next = some 32 })
    else if x == 32
    then some (record { order = buy_eight; prev = some 16; next = none })
    else if x == 48
    then some (record { order = buy_eight; prev = none; next = none })
    else none

abbrev two : List Cell
two = (16, sell_five) ∷ (32, buy_eight) ∷ []

abbrev list : BookEnds
list = record { head = some 16; tail = some 32 }

two-IsLinked : IsLinked heap list two
two-IsLinked = record {
  head = refl;
  tail = refl;
  nodes = (refl, (refl, tt));
  different = ((λ e. omega arith, tt), (tt, tt));
}

link_to_tail-Linked_example :
    Linked heap
      (link_to_tail heap list 48)
      (two ++ ((48, buy_eight) ∷ []))
      (two ++ ((48, buy_eight) ∷ []))
    × (orders_of (two ++ ((48, buy_eight) ∷ [])) ≡ add_to_tail buy_eight (orders_of two))
link_to_tail-Linked_example =
    link_to_tail-Linked heap list two 48 (record { order = buy_eight; prev = none; next = none })
      two-IsLinked (λ e. omega arith, (λ e. omega arith, tt)) refl

unlink-Linked_example :
    Linked heap (unlink heap list 16) (erase_at two 0) (erase_at two 0)
    × (orders_of (erase_at two 0) ≡ delete_order 0 (orders_of two))
unlink-Linked_example = unlink-Linked heap list two 0 (16, sell_five) two-IsLinked refl

-- One product: its buy list has the two nodes, its sell list none.
abbrev held : List Held
held =
    record {
      buy = list;
      sell = record { head = none; tail = none };
      buy_cells = two;
      sell_cells = [];
    }
    ∷ []

free_orders-Freed_example : Freed heap (cells_of held) (free_orders 3 heap (books_of held))
free_orders-Freed_example =
    free_orders-Freed held 3 heap
      (
        two-IsLinked,
        record { head = refl; tail = refl; nodes = tt; different = tt },
        omega arith,
        omega arith,
        tt,
      )
      ((λ e. omega arith, tt), (tt, tt))
