-- ===== src/AutoTrader/Trading/Trades.antt =====
-- What the trader does with an offer, from the exchange's announcement to the exchange's answer.
use pe_exchange.Common.{
  ℕ, zero, suc, ◌+◌, ◌≤◌, ◌<◌, ◌≡◌, refl, ap, sym, subst, ◌∙◌, Bool, true, false, List, [], ◌∷◌,
  ◌++◌, some, arith, All, length, int_max, add_int, replicate, append_assoc, append-nil,
  snoc-append,
}
use pe_exchange.Common.Text.{Bytes, codes}
use pe_exchange.Common.Scan.{int_ltb}
use pe_exchange.Common.Scan.Numeral.{IsWord}
use pe_exchange.Types.{Order, wrote, killed}
use pe_exchange.Orderbook.Create.{max_int}
use pe_exchange.Pipes.Reading.{ReadResult, byte, returned, process_msg, text_in}
use pe_exchange.Pipes.Reading.Message.{bytes, IsInner, IsRead, process_msg-IsRead}
use pe_exchange.AutoTrader.{create_buy_order, create_buy_str}
use pe_exchange.AutoTrader.Texts.{create_buy_order-market_msg, buy-IsWord}
use pe_exchange.AutoTrader.Trading.{
  AutoTrader, Turn, trades_on, after_read, process_market_msg, trader_write_and_kill,
  wait_for_answer, answer_msg, trade,
}
use pe_exchange.AutoTrader.Trading.Reads.{SameOutcome, process_market_msg-Alike}
use pe_exchange.AutoTrader.Trading.Offers.{
  market_body, market_msg_body, IsName, market_body-IsInner, length-market_body,
}

-- A message that fits the array is read whole.
record WholeRead (msg : Bytes) (pipe : List ReadResult) (body : Bytes) (rs : List ReadResult)
    : Type 0 where
  result : ℕ
  outcome : (process_market_msg msg pipe).outcome ≡ returned result
  text : text_in (process_market_msg msg pipe).msg ≡ body ++ codes ";"
  left : (process_market_msg msg pipe).left ≡ rs
  size : length (process_market_msg msg pipe).msg ≡ length msg

whole_read :
    (msg : Bytes) (pipe : List ReadResult) (body : Bytes) (rs : List ReadResult)
    → pipe ≡ bytes body (byte b';' ∷ rs)
    → All IsInner body
    → length body + 2 ≤ length msg
    → WholeRead msg pipe body rs
whole_read msg pipe body rs comes inner fits =
    let d =
      subst (λ x. IsRead body msg rs (process_msg msg x)) (sym comes)
        (process_msg-IsRead body msg rs inner fits) in
    let a = process_market_msg-Alike msg pipe in
    let (n, e) =
      subst (λ o. SameOutcome o (process_market_msg msg pipe).outcome) d.outcome a.outcome in
    record {
      result = n;
      outcome = e;
      text = ap text_in a.msg ∙ d.text;
      left = a.left ∙ d.left;
      size = ap length a.msg ∙ d.same_array;
    }

-- What follows is done with the text.
after_read_whole :
    (t : AutoTrader) (body : Bytes) (rs : List ReadResult) (k : AutoTrader → Turn)
    → WholeRead t.msg t.pipe body rs
    → after_read t k (process_market_msg t.msg t.pipe)
      ≡ k (record t { msg = (process_market_msg t.msg t.pipe).msg; pipe = rs })
after_read_whole t body rs k w = rw (w.outcome, w.left) refl

int_ltb_small : (q : ℕ) → q < 1000 → int_ltb q 1000 ≡ true
int_ltb_small q h = ground arith

-- The order that answers an offer.
abbrev pub answer_to : Bytes → ℕ → ℕ → ℕ → Order
answer_to product quantity price id = record {
  product = product;
  quantity = quantity;
  price = price;
  order_id = id;
  product_id = 0;
  trader_id = 0;
  is_buy = false;
}

offer_read :
    (msg product : Bytes) (quantity price id : ℕ)
    → text_in msg ≡ market_body false product quantity price ++ codes ";"
    → IsWord product
    → id < int_max
    → quantity < int_max
    → price < int_max
    → create_buy_order (text_in msg) id ≡ some (answer_to product quantity price id, add_int id 1)
offer_read msg product quantity price id text word hi hq hp =
    ap (λ x. create_buy_order x id) (text ∙ sym (market_msg_body false product quantity price))
    ∙ create_buy_order-market_msg (codes "BUY") product id quantity price buy-IsWord word hi hq hp

module _ (tr_pipe_fd exchange_pid : ℕ) where
  -- The exchange is signalled again after each sleep without a signal.
  wait_for_answer-trades_on :
      (n : ℕ) (later : List Bool) (t : AutoTrader) (body : Bytes) (rs : List ReadResult)
      → WholeRead t.msg t.pipe body rs
      → wait_for_answer tr_pipe_fd exchange_pid (replicate n false ++ (true ∷ later)) t
        ≡ trades_on (record t {
          msg = (process_market_msg t.msg t.pipe).msg;
          pipe = rs;
          output = t.output ++ replicate n (killed exchange_pid);
        })
  unfolding wait_for_answer
  wait_for_answer-trades_on zero later t body rs w =
      after_read_whole t body rs trades_on w ∙ rw (append-nil t.output) refl
  wait_for_answer-trades_on (suc n) later t body rs w =
      wait_for_answer-trades_on n later
        (record t { output = t.output ++ (killed exchange_pid ∷ []) }) body rs w
      ∙ rw (snoc-append t.output (replicate n (killed exchange_pid)) (killed exchange_pid)) refl

  answer_msg-order :
      (sleeps : List Bool) (t : AutoTrader) (o : Order) (next : ℕ)
      → create_buy_order (text_in t.msg) t.order_id ≡ some (o, next)
      → o.quantity < 1000
      → answer_msg tr_pipe_fd exchange_pid sleeps t
        ≡ wait_for_answer tr_pipe_fd exchange_pid sleeps (record t {
          order_id = next;
          output = t.output ++ (wrote tr_pipe_fd (create_buy_str o) ∷ killed exchange_pid ∷ []);
        })
  unfolding answer_msg trader_write_and_kill
  answer_msg-order sleeps t o next e small =
      let less : int_ltb o.quantity 1000 ≡ true = int_ltb_small o.quantity small in
      rw (answer_msg, e, less) refl

  -- After the trade: the exchange's answer has been read, and the order was written once.
  pub record Traded (t : AutoTrader) (text answer : Bytes) (n : ℕ) (rs : List ReadResult) (r : Turn)
      : Type 0 where
    pub trader : AutoTrader
    pub goes_on : r ≡ trades_on trader
    pub next_id : trader.order_id ≡ add_int t.order_id 1
    pub answered : text_in trader.msg ≡ answer ++ codes ";"
    pub same_array : length trader.msg ≡ length t.msg
    pub left : trader.pipe ≡ rs
    pub output :
        trader.output
        ≡ t.output
          ++ (wrote tr_pipe_fd text ∷ killed exchange_pid ∷ replicate n (killed exchange_pid))

  -- If the trader's pipe gives the announcement of a sell order, for a product whose name is a word
  -- of at most 16 characters, a quantity below 1000 and a price within the limit, and then any
  -- message that fits the array of 50 bytes, ACCEPTED or not, and the signal for the latter comes
  -- after `n` sleeps without one, the turn of the loop goes on to the next: the order for the whole
  -- offer is written once, followed by a signal, and by one more signal for each such sleep, the
  -- message is read whole and nothing behind it, and the next order ID is one higher.
  pub trade-Traded :
      (t : AutoTrader) (product : Bytes) (quantity price : ℕ) (answer : Bytes) (n : ℕ)
      (later : List Bool) (rs : List ReadResult)
      → IsName product
      → IsWord product
      → quantity < 1000
      → price ≤ max_int
      → t.order_id < int_max
      → length t.msg ≡ 50
      → All IsInner answer
      → length answer + 2 ≤ 50
      → t.pipe
        ≡ bytes
            (market_body false product quantity price)
            (byte b';' ∷ bytes answer (byte b';' ∷ rs))
      → Traded t
          (create_buy_str (answer_to product quantity price t.order_id))
          answer
          n
          rs
          (trade tr_pipe_fd exchange_pid (replicate n false ++ (true ∷ later)) t)
  unfolding trade
  trade-Traded t product quantity price answer n later rs name word small hp hi size inner fits
        comes =
      let offer = market_body false product quantity price in
      let w =
        whole_read t.msg t.pipe offer (bytes answer (byte b';' ∷ rs)) comes
          (market_body-IsInner product quantity price name)
          (omega (arith, length-market_body product quantity price name (omega arith) hp)) in
      let t1 = record t {
        msg = (process_market_msg t.msg t.pipe).msg;
        pipe = bytes answer (byte b';' ∷ rs);
      } in
      let w1 =
        whole_read t1.msg t1.pipe answer rs refl inner
          (omega (arith, ap length w.left, w.size, fits)) in
      let bought = answer_to product quantity price t.order_id in
      let made =
        offer_read t1.msg product quantity price t.order_id w.text word hi (omega arith)
          (omega (arith, hp)) in
      let text = create_buy_str bought in
      let sent = record t1 {
        order_id = add_int t.order_id 1;
        output = t.output ++ (wrote tr_pipe_fd text ∷ killed exchange_pid ∷ []);
      } in
      record {
        trader = record sent {
          msg = (process_market_msg t1.msg t1.pipe).msg;
          pipe = rs;
          output = sent.output ++ replicate n (killed exchange_pid);
        };
        goes_on =
            after_read_whole t offer t1.pipe
              (answer_msg tr_pipe_fd exchange_pid (replicate n false ++ (true ∷ later))) w
            ∙ answer_msg-order (replicate n false ++ (true ∷ later)) t1 bought
                (add_int t.order_id 1) made small
            ∙ wait_for_answer-trades_on n later sent answer rs w1;
        next_id = refl;
        answered = w1.text;
        same_array = w1.size ∙ w.size;
        left = refl;
        output =
            append_assoc t.output (wrote tr_pipe_fd text ∷ killed exchange_pid ∷ [])
              (replicate n (killed exchange_pid));
      }
