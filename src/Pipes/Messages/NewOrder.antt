-- ===== src/Pipes/Messages/NewOrder.antt =====
-- `buy_sell_msg`: the handler of BUY and SELL.
use pe_exchange.Common.{
  ℕ, suc, ◌≡◌, Bool, List, some, arith, length, length-set, get_elem?, get_elem?-lt-length,
}
use pe_exchange.Common.Text.{Bytes}
use pe_exchange.Types.{Order, Trader, Exchange}
use pe_exchange.Pipes.Writing.{write_accepted}
use pe_exchange.Orderbook.Create.Created.{Created}
use pe_exchange.Orderbook.Matching.{emit}
use pe_exchange.Orderbook.Matching.Accounts.{Covers-id}
use pe_exchange.Orderbook.Invariant.Steps.{IsValid}
use pe_exchange.Orderbook.Invariant.Open.{Incoming}
use pe_exchange.Pipes.Messages.{accept_order, buy_sell_msg}
use pe_exchange.Pipes.Messages.Cases.{NewCase, buy_sell_msg-NewCase}
use pe_exchange.Pipes.Messages.Keeps.{
  IsRoomy, HasRoom-IsRoomy, Keeps-emit, Handled, Handled-finish, unchanged, counted, Keeps-counted,
}

-- A message for a new order.
module _ (products : List Bytes) (s : Exchange) (v : IsValid (length products) s) (room : IsRoomy s)
    (trader_ind : ℕ) where
  accept_order-Handled :
      (t t' : Trader) (is_buy : Bool) (o : Order)
      → get_elem? s.trader_list trader_ind ≡ some t
      → Created products t is_buy t' o
      → Handled (length products) s (accept_order s trader_ind (t', o))
  unfolding accept_order emit
  accept_order-Handled t t' is_buy o e c =
      let s1 = counted (length products) s v trader_ind t (suc t.order_id) in
      let es = write_accepted o trader_ind s1.trader_list in
      let here = Covers-id (length products) s.trader_list trader_ind v.accounts e in
      let m = length-set s.trader_list trader_ind (record t { order_id = suc t.order_id }) in
      let w : Incoming (length products) (length s1.trader_list) o = record {
        product = get_elem?-lt-length products o.product_id c.product;
        trader = omega (arith, c.trader, here, m, get_elem?-lt-length s.trader_list trader_ind e);
        ranges = c.ranges;
      } in
      rw (c.counter) (
        Handled-finish (length products) s (emit s1 es) o
          (Keeps-emit (length products) s s1 es
            (Keeps-counted (length products) s v trader_ind t (suc t.order_id) e))
          w
          (HasRoom-IsRoomy (emit s1 es) o (record { buys = room.buys; sells = room.sells })
            c.ranges.quantity_max))

  pub buy_sell_msg-Handled :
      (msg : Bytes) → Handled (length products) s (buy_sell_msg s products msg trader_ind)
  buy_sell_msg-Handled msg = elim (buy_sell_msg-NewCase products s msg trader_ind) [
    | NewCase.refused e ↦ rw e (unchanged (length products) s v)
    | NewCase.accepted t is_buy o e c e' ↦
        rw e' (accept_order-Handled t (record t { order_id = suc t.order_id }) is_buy o e c)
  ]
