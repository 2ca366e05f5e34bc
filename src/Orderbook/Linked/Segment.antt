-- ===== src/Orderbook/Linked/Segment.antt =====
-- A run of linked nodes in the heap, and the list that it holds.
use pe_exchange.Common.{
  ℕ, ◌≡◌, ◌≢◌, ◌⊎◌, refl, ap, sym, ◌∙◌, inl, inr, true, false, List, [], ◌∷◌, ◌++◌, Option, none,
  some, arith, ◌==◌,
}
use pe_exchange.Types.{Order, Orderbook}
use pe_exchange.Orderbook.Linked.{Pointer, Node, BookEnds, Heap, put, same_pointer}

-- A node's address and its order.
abbrev pub Cell : Type 0
Cell = ℕ × Order

abbrev pub first : List Cell → Pointer → Pointer
first [] after = after
first (c ∷ cs) after = some c.0

abbrev pub last : Pointer → List Cell → Pointer
last before [] = before
last before (c ∷ cs) = last (some c.0) cs

-- The nodes of the cells, linked both ways, between the pointers `before` and `after`.
abbrev pub Segment : Heap → Pointer → List Cell → Pointer → Type 0
Segment h before [] after = Unit {0}
Segment h before (c ∷ cs) after =
    (h c.0 ≡ some (record { order = c.1; prev = before; next = first cs after }))
    × Segment h (some c.0) cs after

abbrev pub Fresh : ℕ → List Cell → Type 0
Fresh a [] = Unit {0}
Fresh a (c ∷ cs) = (a ≢ c.0) × Fresh a cs

abbrev pub AllDifferent : List Cell → Type 0
AllDifferent [] = Unit {0}
AllDifferent (c ∷ cs) = Fresh c.0 cs × AllDifferent cs

-- The list with these ends has the cells, each at an address of its own.
pub record IsLinked (h : Heap) (list : BookEnds) (cells : List Cell) : Type 0 where
  pub head : list.head ≡ first cells none
  pub tail : list.tail ≡ last none cells
  pub nodes : Segment h none cells none
  pub different : AllDifferent cells

abbrev pub orders_of : List Cell → Orderbook
orders_of [] = []
orders_of (c ∷ cs) = c.1 ∷ orders_of cs

pub put-same : (h : Heap) (a : ℕ) (v : Option Node) → put h a v a ≡ v
put-same h a v = ground arith

pub put-other : (h : Heap) (a x : ℕ) (v : Option Node) → x ≢ a → put h a v x ≡ h x
put-other h a x v d = let no : (x == a) ≡ false = ground arith in simp no refl

pub Segment-put :
    (h : Heap) (a : ℕ) (v : Option Node) (before after : Pointer) (cs : List Cell)
    → Fresh a cs
    → Segment h before cs after
    → Segment (put h a v) before cs after
Segment-put h a v before after [] f g = tt
Segment-put h a v before after (c ∷ cs) f g =
    (put-other h a c.0 v (λ e. f.0 (sym e)) ∙ g.0, Segment-put h a v (some c.0) after cs f.1 g.1)

pub first-append :
    (cs ds : List Cell) (after : Pointer) → first (cs ++ ds) after ≡ first cs (first ds after)
first-append [] ds after = refl
first-append (c ∷ cs) ds after = refl

pub last-append :
    (before : Pointer) (cs ds : List Cell) → last before (cs ++ ds) ≡ last (last before cs) ds
last-append before [] ds = refl
last-append before (c ∷ cs) ds = last-append (some c.0) cs ds

pub Segment-append :
    (h : Heap) (before after : Pointer) (cs ds : List Cell)
    → Segment h before cs (first ds after)
    → Segment h (last before cs) ds after
    → Segment h before (cs ++ ds) after
Segment-append h before after [] ds f g = g
Segment-append h before after (c ∷ cs) ds f g =
    (rw (first-append cs ds after) f.0, Segment-append h (some c.0) after cs ds f.1 g)

pub Segment-split :
    (h : Heap) (before after : Pointer) (cs ds : List Cell)
    → Segment h before (cs ++ ds) after
    → Segment h before cs (first ds after) × Segment h (last before cs) ds after
Segment-split h before after [] ds g = (tt, g)
Segment-split h before after (c ∷ cs) ds g =
    let (f1, f2) = Segment-split h (some c.0) after cs ds g.1 in
    ((rw (first-append cs ds after) at g.0, f1), f2)

pub Fresh-append : (a : ℕ) (cs ds : List Cell) → Fresh a (cs ++ ds) → Fresh a cs × Fresh a ds
Fresh-append a [] ds f = (tt, f)
Fresh-append a (c ∷ cs) ds f = let (g, k) = Fresh-append a cs ds f.1 in ((f.0, g), k)

pub append-Fresh : (a : ℕ) (cs ds : List Cell) → Fresh a cs → Fresh a ds → Fresh a (cs ++ ds)
append-Fresh a [] ds f g = g
append-Fresh a (c ∷ cs) ds f g = (f.0, append-Fresh a cs ds f.1 g)

-- Taking a part out of the middle leaves different cells.
pub AllDifferent-drop :
    (cs ds es : List Cell) → AllDifferent (cs ++ (ds ++ es)) → AllDifferent (cs ++ es)
AllDifferent-drop [] [] es d = d
AllDifferent-drop [] (x ∷ ds) es d = AllDifferent-drop [] ds es d.1
AllDifferent-drop (c ∷ cs) ds es d =
    let (f, g) = Fresh-append c.0 cs (ds ++ es) d.0 in
    let (g1, g2) = Fresh-append c.0 ds es g in
    (append-Fresh c.0 cs es f g2, AllDifferent-drop cs ds es d.1)

-- A cell in front of others that are different from it.
pub AllDifferent-at :
    (cs ds : List Cell) (a : Cell) → AllDifferent (cs ++ (a ∷ ds)) → Fresh a.0 cs × Fresh a.0 ds
AllDifferent-at [] ds a d = (tt, d.0)
AllDifferent-at (c ∷ cs) ds a d =
    let (f, g) = AllDifferent-at cs ds a d.1 in
    let apart = (Fresh-append c.0 cs (a ∷ ds) d.0).1 in ((λ e. apart.0 (sym e), f), g)

pub same_pointer_refl : (p : Pointer) → same_pointer p p ≡ true
same_pointer_refl none = refl
same_pointer_refl (some a) = ground arith

pub same_pointer_ne : (a b : ℕ) → a ≢ b → same_pointer (some a) (some b) ≡ false
same_pointer_ne a b d = ground arith

-- The last cell's address is not one that is fresh.
pub last_ne :
    (cs : List Cell) (a c : ℕ)
    → a ≢ c
    → Fresh a cs
    → same_pointer (last (some c) cs) (some a) ≡ false
last_ne [] a c d f = same_pointer_ne c a (λ e. d (sym e))
last_ne (x ∷ cs) a c d f = last_ne cs a x.0 f.0 f.1

-- A list is empty or has a last cell.
pub snoc-cases :
    (cs : List Cell) → (cs ≡ []) ⊎ ((init : List Cell) × (c : Cell) × (cs ≡ init ++ (c ∷ [])))
snoc-cases [] = inl refl
snoc-cases (x ∷ cs) = elim (snoc-cases cs) [
  | inl empty ↦ inr ([], x, ap (◌∷◌ x) empty)
  | inr (init, c, e) ↦ inr (x ∷ init, c, ap (◌∷◌ x) e)
]

-- A new pointer behind the last cell, and in front of the first.
pub Segment-set_next :
    (h : Heap) (before after after' : Pointer) (cs : List Cell) (c : Cell)
    → Segment h before (cs ++ (c ∷ [])) after
    → Fresh c.0 cs
    → Segment
        (put h c.0 (some (record { order = c.1; prev = last before cs; next = after' })))
        before
        (cs ++ (c ∷ []))
        after'
Segment-set_next h before after after' cs c g f =
    let (k, l) = Segment-split h before after cs (c ∷ []) g in
    let new = some (record { order = c.1; prev = last before cs; next = after' }) in
    Segment-append (put h c.0 new) before after' cs (c ∷ [])
      (Segment-put h c.0 new before (some c.0) cs f k) (put-same h c.0 new, tt)

pub Segment-set_prev :
    (h : Heap) (before before' after : Pointer) (c : Cell) (cs : List Cell)
    → Segment h before (c ∷ cs) after
    → Fresh c.0 cs
    → Segment
        (put h c.0 (some (record { order = c.1; prev = before'; next = first cs after })))
        before'
        (c ∷ cs)
        after
Segment-set_prev h before before' after c cs g f =
    let new = some (record { order = c.1; prev = before'; next = first cs after }) in
    (put-same h c.0 new, Segment-put h c.0 new (some c.0) after cs f g.1)
