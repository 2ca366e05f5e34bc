-- ===== src/Pipes/Messages/Effect.antt =====
-- What a message may do to the books and to the traders, of whatever is weighed in the books.
use pe_exchange.Common.{
  ◌>>=◌, ℕ, suc, ◌+◌, ◌≤◌, ◌≡◌, refl, sym, subst, ◌∙◌, Bool, true, false, List, Option, none, some,
  arith, length, get_elem?, set, Bool-cases, inl, inr,
}
use pe_exchange.Common.Text.{Bytes}
use pe_exchange.Types.{Order, Trader, Event, Exchange}
use pe_exchange.Printing.{print_bk_pos}
use pe_exchange.Pipes.Writing.{write_invalid, write_accepted, write_amended, write_cancelled}
use pe_exchange.Orderbook.Create.{create_amended_order}
use pe_exchange.Orderbook.Create.Created.{Created}
use pe_exchange.Orderbook.Levels.Shows.{IsOrder}
use pe_exchange.Orderbook.Orders.{Found}
use pe_exchange.Orderbook.Orders.Find.{FoundAt}
use pe_exchange.Orderbook.Matching.{emit, finish_order}
use pe_exchange.Orderbook.Invariant.Steps.{IsValid}
use pe_exchange.Orderbook.Invariant.BuyRound.{sells_of}
use pe_exchange.Orderbook.Invariant.SellRound.{buys_of}
use pe_exchange.Orderbook.Weight.{Weight, IsLight, total_weight}
use pe_exchange.Orderbook.Weight.Matching.{badges, Lighter, drop_sell-Lighter, drop_buy-Lighter}
use pe_exchange.Orderbook.Weight.Finish.{HeavierIf, finish_order-Heavier}
use pe_exchange.Pipes.Messages.{
  accept_order, buy_sell_msg, Amendment, remove_found, amend_order, amend_msg, cancel_found,
  cancel_msg, answer, parse_msg,
}
use pe_exchange.Pipes.Messages.Remove.{found-Belongs, remove_found_buy, remove_found_sell}
use pe_exchange.Pipes.Messages.Cases.{
  NewCase, buy_sell_msg-NewCase, Amendable, AmendCase, amend_msg-AmendCase, CancelCase,
  cancel_msg-CancelCase, MessageCase, parse_msg-MessageCase,
}

-- A message adds nothing to the books; or it adds at most a new order of its trader, whose counter
-- moves on; or it puts at most the amended order in the place of the old one.
pub data Effect (products : List Bytes) (trader_ind : ℕ) (s s' : Exchange) : Type 0 where
  nothing_new :
      ((w : Weight) → IsLight w → total_weight w s' ≤ total_weight w s)
      → badges s'.trader_list ≡ badges s.trader_list
      → Effect products trader_ind s s'
  placed :
      (t : Trader) (is_buy : Bool) (o : Order)
      → get_elem? s.trader_list trader_ind ≡ some t
      → Created products t is_buy (record t { order_id = suc t.order_id }) o
      → ((w : Weight) → IsLight w → total_weight w s' ≤ total_weight w s + w o)
      → badges s'.trader_list
        ≡ badges (set s.trader_list trader_ind (record t { order_id = suc t.order_id }))
      → Effect products trader_ind s s'
  replaced :
      (old new : Order)
      → new ≡ create_amended_order new.price new.quantity old
      → IsOrder new
      → ((w : Weight) → IsLight w → total_weight w s' + w old ≤ total_weight w s + w new)
      → badges s'.trader_list ≡ badges s.trader_list
      → Effect products trader_ind s s'

module _ (products : List Bytes) (trader_ind : ℕ) where
  Effect-emit :
      (s t : Exchange) (es : List Event)
      → Effect products trader_ind s t
      → Effect products trader_ind s (emit t es)
  unfolding emit
  Effect-emit s t es (nothing_new h b) = nothing_new h b
  Effect-emit s t es (placed tr is_buy o e c h b) = placed tr is_buy o e c h b
  Effect-emit s t es (replaced old new e v h b) = replaced old new e v h b

  Effect-refl : (s : Exchange) → Effect products trader_ind s s
  Effect-refl s = nothing_new (λ w light. omega arith) refl

  abbrev EffectIf : Exchange → Option (Exchange × Bool) → Type 0
  EffectIf s none = Unit {0}
  EffectIf s (some (s', good)) = Effect products trader_ind s s'

  -- The weights after an order's way through the exchange, whatever is weighed.
  finished :
      (s t : Exchange) (o : Order)
      → 1 ≤ o.price
      → ((u : Exchange)
          → ((w : Weight) → IsLight w → total_weight w u ≤ total_weight w t + w o)
          → badges u.trader_list ≡ badges t.trader_list
          → Effect products trader_ind s u)
      → EffectIf s (finish_order t o >>= λ u. some (u, true))
  finished s t o l k = by_result (finish_order t o) (λ w light. finish_order-Heavier w t o light l)
    where
      by_result :
          (r : Option Exchange)
          → ((w : Weight) → IsLight w → HeavierIf w t (w o) r)
          → EffectIf s (r >>= λ u. some (u, true))
      by_result none h = tt
      by_result (some u) h =
          k u (λ w light. (h w light).books) (h (λ x. 0) (λ x q le. omega arith)).badges

  accept_order-Effect :
      (s : Exchange) (t : Trader) (is_buy : Bool) (o : Order)
      → get_elem? s.trader_list trader_ind ≡ some t
      → Created products t is_buy (record t { order_id = suc t.order_id }) o
      → EffectIf s (accept_order s trader_ind (record t { order_id = suc t.order_id }, o))
  unfolding accept_order emit
  accept_order-Effect s t is_buy o e c =
      let s1 = record s {
        trader_list = set s.trader_list trader_ind (record t { order_id = suc t.order_id });
      } in
      finished s (emit s1 (write_accepted o trader_ind s1.trader_list)) o c.ranges.price_pos
        (λ u h b. placed t is_buy o e c h b)

  buy_sell_msg-Effect :
      (s : Exchange) (msg : Bytes) → EffectIf s (buy_sell_msg s products msg trader_ind)
  buy_sell_msg-Effect s msg = elim (buy_sell_msg-NewCase products s msg trader_ind) [
    | NewCase.refused e ↦ rw e (Effect-refl s)
    | NewCase.accepted t is_buy o e c e' ↦ rw e' (accept_order-Effect s t is_buy o e c)
  ]

  module _ (s : Exchange) (v : IsValid (length products) s) where
    removed :
        (w : Weight) (id : ℕ) (es : List Event) (f : Found)
        → FoundAt (length products) trader_ind id s.buy_orders s.sell_orders f
        → Lighter w s (remove_found (emit s es) f) (w f.order)
    unfolding emit
    removed w id es f h =
        let own = (found-Belongs (length products) trader_ind id s f v h).0 in
        elim (Bool-cases f.is_buy) [
          | inl buy ↦
              let there : get_elem? (buys_of s f.product) f.position ≡ some f.order =
                simp buy at h.there in
              let l = drop_buy-Lighter w (emit s es) f.order.product_id f.position f.order (
                subst (λ i. get_elem? (buys_of s i) f.position ≡ some f.order) (sym own.product)
                  there) in
              rw (remove_found_buy (emit s es) f (own.side ∙ buy))
                (record { books = l.books; badges = l.badges })
          | inr sell ↦
              let there : get_elem? (sells_of s f.product) f.position ≡ some f.order =
                simp sell at h.there in
              let l = drop_sell-Lighter w (emit s es) f.order.product_id f.position f.order (
                subst (λ i. get_elem? (sells_of s i) f.position ≡ some f.order) (sym own.product)
                  there) in
              rw (remove_found_sell (emit s es) f (own.side ∙ sell))
                (record { books = l.books; badges = l.badges })
        ]

    amend_order-Effect :
        (a : Amendment) (f : Found)
        → Amendable (length products) trader_ind s a f
        → EffectIf s (amend_order s trader_ind a f)
    unfolding amend_order create_amended_order
    amend_order-Effect a f h =
        let new = create_amended_order a.price a.quantity f.order in
        let es = write_amended new trader_ind s.trader_list in
        let gone = λ (w : Weight). removed w a.id es f h.found in
        finished s (remove_found (emit s es) f) new h.price_pos (λ u k b.
          replaced f.order new refl
            (record {
              quantity_pos = h.quantity_pos;
              quantity_max = h.quantity_max;
              price_pos = h.price_pos;
              price_max = h.price_max;
            })
            (λ w light. omega (arith, k w light, (gone w).books)) (b ∙ (gone (λ x. 0)).badges))

    amend_msg-Effect : (msg : Bytes) → EffectIf s (amend_msg s (length products) msg trader_ind)
    amend_msg-Effect msg = elim (amend_msg-AmendCase (length products) s msg trader_ind) [
      | AmendCase.refused e ↦ rw e (Effect-refl s)
      | AmendCase.amended a f h e ↦ rw e (amend_order-Effect a f h)
    ]

    cancel_msg-Effect :
        (msg : Bytes)
        → Effect products trader_ind s (cancel_msg s (length products) msg trader_ind).0
    unfolding cancel_found print_bk_pos
    cancel_msg-Effect msg = elim (cancel_msg-CancelCase (length products) s msg trader_ind) [
      | CancelCase.refused e ↦ rw e (Effect-refl s)
      | CancelCase.cancelled id f h e ↦
          let es = write_cancelled id f.order.product trader_ind s.trader_list f.order.is_buy in
          let gone = λ (w : Weight). removed w id es f h in
          rw e (nothing_new (λ w light. omega (arith, (gone w).books)) (gone (λ x. 0)).badges)
    ]

abbrev pub Effects : List Bytes → ℕ → Exchange → Option Exchange → Type 0
Effects products trader_ind s none = Unit {0}
Effects products trader_ind s (some s') = Effect products trader_ind s s'

module _ (products : List Bytes) (trader_ind : ℕ) (s : Exchange) where
  Effect-answer :
      (r : Exchange × Bool)
      → Effect products trader_ind s r.0
      → Effect products trader_ind s (answer trader_ind r)
  unfolding answer
  Effect-answer (t, true) k = k
  Effect-answer (t, false) k =
      Effect-emit products trader_ind s t (write_invalid t.trader_list trader_ind) k

  Effects-answer :
      (r : Option (Exchange × Bool))
      → EffectIf products trader_ind s r
      → Effects products trader_ind s (r >>= λ x. some (answer trader_ind x))
  Effects-answer none h = tt
  Effects-answer (some r) h = Effect-answer r h

  pub parse_msg-Effects :
      (msg : Bytes)
      → IsValid (length products) s
      → Effects products trader_ind s (parse_msg s products msg trader_ind)
  parse_msg-Effects msg v = elim (parse_msg-MessageCase products s msg trader_ind) [
    | MessageCase.new_order e ↦ rw e (
        Effects-answer (buy_sell_msg s products msg trader_ind)
          (buy_sell_msg-Effect products trader_ind s msg))
    | MessageCase.amend e ↦ rw e (
        Effects-answer (amend_msg s (length products) msg trader_ind)
          (amend_msg-Effect products trader_ind s v msg))
    | MessageCase.cancel e ↦ rw e (
        Effect-answer (cancel_msg s (length products) msg trader_ind)
          (cancel_msg-Effect products trader_ind s v msg))
    | MessageCase.unknown e ↦ rw e (Effect-answer (s, false) (Effect-refl products trader_ind s))
  ]
