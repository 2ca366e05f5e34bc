-- ===== src/Orderbook/Linked.antt =====
-- The linked lists behind the books: `add_to_tail` and `delete_order` of pe_orderbook.c on the nodes
-- themselves, and `free_orders` of pe_setup.c.
pub mod Segment
pub mod Insert
pub mod Delete
pub mod Free
pub mod FreeAll
use pe_exchange.Common.{
  ◌>>=◌, ℕ, zero, suc, Bool, true, false, List, [], ◌∷◌, Option, none, some, ◌==◌, ◌&&◌,
  if◌then◌else◌,
}
use pe_exchange.Types.{Order}

-- A pointer is an address, or none for NULL.
abbrev pub Pointer : Type 0
Pointer = Option ℕ

-- struct order with its links.
pub record Node : Type 0 where
  pub order : Order
  pub prev : Pointer
  pub next : Pointer

-- struct orderbook
pub record BookEnds : Type 0 where
  pub head : Pointer
  pub tail : Pointer

-- The nodes that are allocated.
abbrev pub Heap : Type 0
Heap = ℕ → Option Node

-- `none` is the use of NULL, or of a node that is not allocated.
abbrev pub load : Heap → Pointer → Option Node
load h none = none
load h (some a) = h a

abbrev pub put : Heap → ℕ → Option Node → Heap
put h a v x = if x == a then v else h x

abbrev pub store : Heap → Pointer → Node → Heap
store h none n = h
store h (some a) n = put h a (some n)

abbrev pub free : Heap → ℕ → Heap
free h a = put h a none

abbrev pub same_pointer : Pointer → Pointer → Bool
same_pointer none none = true
same_pointer none (some b) = false
same_pointer (some a) none = false
same_pointer (some a) (some b) = a == b

-- `p->next = q` and `p->prev = q`
unfoldable pub set_next : Heap → Pointer → Pointer → Option Heap
set_next h p q = do n ← load h p; some (store h p (record n { next = q }))

unfoldable pub set_prev : Heap → Pointer → Pointer → Option Heap
set_prev h p q = do n ← load h p; some (store h p (record n { prev = q }))

-- add_to_tail(curr, list)
unfoldable pub link_to_tail : Heap → BookEnds → ℕ → Option (Heap × BookEnds)
unfolding set_next set_prev
link_to_tail h list curr =
    if same_pointer list.tail none
    then (do
      h1 ← set_prev h (some curr) none
      h2 ← set_next h1 (some curr) none
      some (h2, record { head = some curr; tail = some curr }))
    else (do
      h1 ← set_prev h (some curr) list.tail
      h2 ← set_next h1 list.tail (some curr)
      h3 ← set_next h2 (some curr) none
      some (h3, record list { tail = some curr }))

-- delete_order(curr, list)
unfoldable pub unlink : Heap → BookEnds → ℕ → Option (Heap × BookEnds)
unfolding set_next set_prev
unlink h list curr =
    if same_pointer list.tail list.head && same_pointer list.head (some curr)
    then some (h, record { head = none; tail = none })
    else if same_pointer list.head (some curr)
    then (do
      n ← load h (some curr)
      h1 ← set_prev h n.next none
      some (h1, record list { head = n.next }))
    else if same_pointer list.tail (some curr)
    then (do
      n ← load h (some curr)
      h1 ← set_next h n.prev none
      some (h1, record list { tail = n.prev }))
    else (do
      n ← load h (some curr)
      h1 ← set_next h n.prev n.next
      n' ← load h1 (some curr)
      h2 ← set_prev h1 n'.next n'.prev
      some (h2, list))

-- The loop of free_orders over one list, on fuel, which is one more than the list's length.
unfoldable pub free_nodes : ℕ → Heap → Pointer → Option Heap
free_nodes zero h temp = none
free_nodes (suc fuel) h none = some h
free_nodes (suc fuel) h (some a) = do n ← h a; free_nodes fuel (free h a) n.next

-- free_orders: the buy list, then the sell list of each product. The two structs orderbook themselves
-- are freed too, and not used again.
unfoldable pub free_orders : ℕ → Heap → List (BookEnds × BookEnds) → Option Heap
unfolding free_nodes
free_orders fuel h [] = some h
free_orders fuel h ((buy, sell) ∷ books) = do
  h1 ← free_nodes fuel h buy.head
  h2 ← free_nodes fuel h1 sell.head
  free_orders fuel h2 books

-- cancel_order(curr, list)
unfoldable pub unlink_and_free : Heap → BookEnds → ℕ → Option (Heap × BookEnds)
unfolding unlink
unlink_and_free h list curr = do
  (h1, list1) ← unlink h list curr
  n ← h1 curr
  some (free h1 curr, list1)
