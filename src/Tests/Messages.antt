-- ===== src/Tests/Messages.antt =====
-- The theorems on matching and on messages, at the small exchange.
use pe_exchange.Common.{◌≡◌, refl, Bool, false, some, arith}
use pe_exchange.Common.Text.{codes}
use pe_exchange.Types.{Order, Exchange}
use pe_exchange.Setup.{start_exchange}
use pe_exchange.Orderbook.Matching.{add_rest, finish_order, check_for_match}
use pe_exchange.Orderbook.Invariant.Place.{Matched, check_for_match-Matched}
use pe_exchange.Orderbook.Invariant.Finish.{Finishes, finish_order-Finishes}
use pe_exchange.Orderbook.Orders.{Found}
use pe_exchange.Orderbook.Orders.Find.{FoundAt}
use pe_exchange.Pipes.Messages.{remove_found, parse_msg}
use pe_exchange.Pipes.Messages.Remove.{Removed, TakenOut, remove_found-Removed}
use pe_exchange.Pipes.Messages.Keeps.{HasRoom-IsRoomy}
use pe_exchange.Pipes.Messages.Parse.{parse_msg-Finishes}
use pe_exchange.Tests.State.{
  products, sell_five, buy_eight, resting, resting-IsValid, buy-Incoming, resting-IsRoomy,
}

check_for_match-Matched_example :
    (r : Exchange × Order × Bool) × (check_for_match resting buy_eight ≡ some r)
    × Matched 2 resting buy_eight r
check_for_match-Matched_example =
    check_for_match-Matched 2 resting buy_eight resting-IsValid buy-Incoming

finish_order-Finishes_example : Finishes 2 resting (finish_order resting buy_eight)
finish_order-Finishes_example =
    finish_order-Finishes 2 resting buy_eight resting-IsValid buy-Incoming
      (HasRoom-IsRoomy resting buy_eight resting-IsRoomy (omega arith))

parse_msg-Finishes_example :
    Finishes 2 resting (parse_msg resting products (codes "BUY 0 GPU 8 12;") 1)
parse_msg-Finishes_example =
    parse_msg-Finishes resting products (codes "BUY 0 GPU 8 12;") 1 resting-IsValid resting-IsRoomy

abbrev found_five : Found
found_five = record { is_buy = false; product = 0; position = 0; order = sell_five }

found_five-FoundAt : FoundAt 2 0 0 resting.buy_orders resting.sell_orders found_five
unfolding start_exchange add_rest
found_five-FoundAt = record { product = omega arith; named = (refl, refl); there = refl }

remove_found-Removed_example :
    Removed 2 resting (remove_found resting found_five)
    × TakenOut resting (remove_found resting found_five) found_five
remove_found-Removed_example =
    remove_found-Removed 2 0 0 resting found_five resting-IsValid found_five-FoundAt
