-- ===== src/Orderbook/Tests.antt =====
-- Runs of the book and of the engine at concrete orders.
use zk_perp.Prelude.{ℕ, ◌≡◌, refl, Bool, true, false, List, [], ◌∷◌, arith, All}
use zk_perp.Prelude.Int.{negsuc}
use zk_perp.Prelude.Result.{Result, ok, err}
use zk_perp.Types.Order.{Order, Fill, Side, bid, ask, limit, gtc}
use zk_perp.Orderbook.Level
use zk_perp.Orderbook.Matching
use zk_perp.Orderbook.Level.{PriceLevel}
use zk_perp.Orderbook.Book
use zk_perp.Orderbook.Book.{OrderBook, OrderLocation, Levels}
use zk_perp.Orderbook.Matching.{
  MatchingEngine, MatchingError, MatchResult, match_order, cancel_order,
}
use zk_perp.Orderbook.Matching.Priority.{IsLevel}
use zk_perp.Orderbook.Matching.Cancel.{Cancelled, cancel_order-Cancelled}
use zk_perp.Orderbook.Matching.Uncrossed.{IsUncrossed, match_order-IsUncrossed}
use zk_perp.Orderbook.Matching.Added.{Added, add_order-Added}
use zk_perp.Orderbook.Matching.Valid.{IsValid, match_order-IsValid, cancel_order-IsValid}

abbrev engine : MatchingEngine
engine = record { timestamp = 7; maker_fee_bps = negsuc 1; taker_fee_bps = 5 }

abbrev limit_order : Bool → ℕ → ℕ → Side → ℕ → ℕ → Order
limit_order post_only id account_id side price quantity = record {
  id = id;
  account_id = account_id;
  market_id = 0;
  side = side;
  order_type = limit;
  price = price;
  original_qty = quantity;
  remaining_qty = quantity;
  filled_qty = 0;
  post_only = post_only;
  reduce_only = false;
  time_in_force = gtc;
  timestamp = 0;
  nonce = id;
}

-- Two sellers at 100 and one at 101.
abbrev first_ask : Order
first_ask = limit_order false 1 10 ask 100 4

abbrev second_ask : Order
second_ask = limit_order false 2 11 ask 100 3

abbrev third_ask : Order
third_ask = limit_order false 3 12 ask 101 5

abbrev two_levels : Levels
two_levels =
    (100, record { price = 100; orders = first_ask ∷ second_ask ∷ []; total_quantity = 7 })
    ∷ (101, record { price = 101; orders = third_ask ∷ []; total_quantity = 5 })
    ∷ []

abbrev at_ask : ℕ → OrderLocation
at_ask price = record { side = ask; price = price }

abbrev book : OrderBook
book = record {
  market_id = 0;
  bids = [];
  asks = two_levels;
  order_locations = (1, at_ask 100) ∷ (2, at_ask 100) ∷ (3, at_ask 101) ∷ [];
  sequence = 0;
}

-- A buyer of ten units for at most 101, one for at most 100, and one that may not take.
abbrev buyer : Order
buyer = limit_order false 4 20 bid 101 10

abbrev maker_only : Order
maker_only = limit_order true 5 20 bid 100 10

two_levels-IsLevel : All IsLevel two_levels
two_levels-IsLevel =
    ((λ e. cc, (omega arith, (omega arith, tt))), ((λ e. cc, (omega arith, tt)), tt))

book-IsValid : IsValid book
book-IsValid = record {
  bids = record { sorted = tt; levels = tt };
  asks = record { sorted = ((omega arith, tt), (tt, tt)); levels = two_levels-IsLevel };
}

match_order-IsValid_example : IsValid (match_order engine book buyer).0
match_order-IsValid_example =
    match_order-IsValid engine book buyer book-IsValid (omega arith) (omega arith) refl

match_order-IsUncrossed_example : IsUncrossed (match_order engine book buyer).0
match_order-IsUncrossed_example =
    match_order-IsUncrossed engine book buyer book-IsValid tt (omega arith) (omega arith) refl

cancel_order-Cancelled_example : Cancelled engine book 2 11 (Book.get_order book 2)
cancel_order-Cancelled_example = cancel_order-Cancelled engine book 2 11 tt book-IsValid.asks.sorted

add_order-Added_example : Added book buyer (Book.add_order book buyer)
add_order-Added_example = add_order-Added book buyer book-IsValid (omega arith)

cancel_order-IsValid_example : IsValid (Book.cancel_order book 1).0
cancel_order-IsValid_example = cancel_order-IsValid book 1 book-IsValid

-- The id and the quantity of each fill of the buyer, and what rests of it.
abbrev makers : Result MatchingError MatchResult → List Fill
makers (ok r) = r.fills
makers (err e) = []

abbrev ids_and_quantities : List Fill → List (ℕ × ℕ)
ids_and_quantities [] = []
ids_and_quantities (f ∷ fs) = (f.maker_order_id, f.quantity) ∷ ids_and_quantities fs

buyer_trades :
    ids_and_quantities (makers (match_order engine book buyer).1) ≡ (1, 4) ∷ (2, 3) ∷ (3, 3) ∷ []
unfolding match_order Level.pop_front Book.put_level Matching.make_fill
buyer_trades = refl
