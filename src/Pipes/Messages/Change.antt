-- ===== src/Pipes/Messages/Change.antt =====
-- `amend_msg` and `cancel_msg`: the handlers of AMEND and CANCEL.
use pe_exchange.Common.{ℕ, refl, ap, List, arith, length}
use pe_exchange.Common.Text.{Bytes}
use pe_exchange.Types.{Event, Exchange}
use pe_exchange.Pipes.Writing.{write_amended, write_cancelled}
use pe_exchange.Orderbook.Create.{create_amended_order}
use pe_exchange.Orderbook.Orders.{Found}
use pe_exchange.Orderbook.Orders.Find.{FoundAt}
use pe_exchange.Orderbook.Matching.{emit}
use pe_exchange.Orderbook.Invariant.Side.{Belongs}
use pe_exchange.Orderbook.Invariant.Steps.{IsValid}
use pe_exchange.Orderbook.Invariant.Open.{Incoming}
use pe_exchange.Orderbook.Invariant.Finish.{IsValid-print_bk_pos, Conserves-print_bk_pos}
use pe_exchange.Pipes.Messages.{
  Amendment, remove_found, amend_order, amend_msg, cancel_found, cancel_msg,
}
use pe_exchange.Pipes.Messages.Remove.{Removed, remove_found_valid, found-Belongs}
use pe_exchange.Pipes.Messages.Keeps.{
  IsRoomy, HasRoom-IsRoomy, Keeps, Keeps-emit, Handled, Handled-finish, unchanged,
}
use pe_exchange.Pipes.Messages.Cases.{
  Amendable, AmendCase, amend_msg-AmendCase, CancelCase, cancel_msg-CancelCase,
}

module _ (n : ℕ) (s : Exchange) (v : IsValid n s) (room : IsRoomy s) (trader_ind : ℕ) where
  Keeps-Removed : (t : Exchange) → Removed n s t → Keeps n s t
  Keeps-Removed t r = (
    r.valid,
    record {
      money = rw (r.same_traders, r.same_fees) refl;
      goods = λ q. rw (r.same_traders) refl;
      traders = ap length r.same_traders;
      accounts = r.valid.accounts;
    },
  )

  IsRoomy-Removed : (t : Exchange) → Removed n s t → IsRoomy t
  IsRoomy-Removed t r = record {
    buys = λ i p. omega (arith, r.fewer_buys i p, room.buys i p);
    sells = λ i p. omega (arith, r.fewer_sells i p, room.sells i p);
  }

  Incoming-amended :
      (a : Amendment) (f : Found)
      → Amendable n trader_ind s a f
      → Belongs f.product f.is_buy (length s.trader_list) f.order
      → Incoming n (length s.trader_list) (create_amended_order a.price a.quantity f.order)
  unfolding create_amended_order
  Incoming-amended a f h own = record {
    product = omega (arith, own.product, h.found.product);
    trader = own.trader;
    ranges = record {
      quantity_pos = h.quantity_pos;
      quantity_max = h.quantity_max;
      price_pos = h.price_pos;
      price_max = h.price_max;
    };
  }

  Removed-after :
      (id : ℕ) (es : List Event) (f : Found)
      → FoundAt n trader_ind id s.buy_orders s.sell_orders f
      → Removed n s (remove_found (emit s es) f)
  unfolding emit
  Removed-after id es f h =
      let s1 = emit s es in
      let r = remove_found_valid n trader_ind id s1 f (Keeps-emit n s s es (unchanged n s v)).0 h in
      record {
        valid = r.valid;
        same_traders = r.same_traders;
        same_fees = r.same_fees;
        fewer_buys = r.fewer_buys;
        fewer_sells = r.fewer_sells;
      }

  amend_order-Handled :
      (a : Amendment) (f : Found)
      → Amendable n trader_ind s a f
      → Handled n s (amend_order s trader_ind a f)
  unfolding amend_order
  amend_order-Handled a f h =
      let new = create_amended_order a.price a.quantity f.order in
      let es = write_amended new trader_ind s.trader_list in
      let r = Removed-after a.id es f h.found in
      let own = (found-Belongs n trader_ind a.id s f v h.found).0 in
      Handled-finish n s (remove_found (emit s es) f) new
        (Keeps-Removed (remove_found (emit s es) f) r)
        (rw (r.same_traders) (Incoming-amended a f h own))
        (HasRoom-IsRoomy (remove_found (emit s es) f) new
          (IsRoomy-Removed (remove_found (emit s es) f) r)
          (Incoming-amended a f h own).ranges.quantity_max)

  pub amend_msg-Handled : (msg : Bytes) → Handled n s (amend_msg s n msg trader_ind)
  amend_msg-Handled msg = elim (amend_msg-AmendCase n s msg trader_ind) [
    | AmendCase.refused e ↦ rw e (unchanged n s v)
    | AmendCase.amended a f h e ↦ rw e (amend_order-Handled a f h)
  ]

  cancel_found-Keeps :
      (id : ℕ) (f : Found)
      → FoundAt n trader_ind id s.buy_orders s.sell_orders f
      → Keeps n s (cancel_found s trader_ind id f)
  unfolding cancel_found
  cancel_found-Keeps id f h =
      let es = write_cancelled id f.order.product trader_ind s.trader_list f.order.is_buy in
      let (w, c) = Keeps-Removed (remove_found (emit s es) f) (Removed-after id es f h) in
      (
        IsValid-print_bk_pos n (remove_found (emit s es) f) w,
        Conserves-print_bk_pos n s (remove_found (emit s es) f) c,
      )

  pub cancel_msg-Keeps : (msg : Bytes) → Keeps n s (cancel_msg s n msg trader_ind).0
  cancel_msg-Keeps msg = elim (cancel_msg-CancelCase n s msg trader_ind) [
    | CancelCase.refused e ↦ rw e (unchanged n s v)
    | CancelCase.cancelled id f h e ↦ rw e (cancel_found-Keeps id f h)
  ]
