-- ===== src/Orderbook/Matching/Refines.antt =====
-- `match_order` as a whole against the queue.
use zk_perp.Prelude.{
  ℕ, suc, ◌-◌, ◌<◌, ◌≡◌, refl, leb, Bool, true, ◌&&◌, Option, none, some, arith, if◌then◌else◌,
  length, All, ltb,
}
use zk_perp.Prelude.SortedMap.{IsSorted}
use zk_perp.Prelude.Result.{ok}
use zk_perp.Types.Order.{
  Order, Side, bid, ask, OrderType, limit, market, stop_loss, take_profit, opposite, is_limit,
}
use zk_perp.Orderbook.Book
use zk_perp.Prelude.Map.{Map}
use zk_perp.Orderbook.Book.{OrderBook, OrderLocation, Levels, get_book, set_book}
use zk_perp.Orderbook.Matching.{
  MatchingEngine, MatchResult, Matching, match_levels, match_order, start, finish,
}
use zk_perp.Orderbook.Matching.Greedy.{size, trades, left}
use zk_perp.Orderbook.Matching.OneLevel.{trades_of}
use zk_perp.Orderbook.Matching.Enqueue.{own_queue, joined}
use zk_perp.Orderbook.Matching.Priority.{opposite_levels, queue, IsLevel}

-- The side that an order of the given side meets: in order of price, without empty levels, and
-- with quantities in range.
pub record IsValidSide (side : Side) (b : OrderBook) : Type 0 where
  pub sorted : IsSorted (opposite_levels side b)
  pub levels : All IsLevel (opposite_levels side b)

-- The remainder of an order as it is reported: its id, its price and what is still wanted.
abbrev pub remainder : Option Order → Option (ℕ × ℕ × ℕ)
remainder none = none
remainder (some o) = some (o.id, o.price, o.remaining_qty)

-- The prices that an order accepts: a market order all of them, any other order those up to its own
-- price if it buys and those from its own price if it sells.
abbrev pub acceptable : Side → OrderType → ℕ → ℕ → Bool
acceptable side market price best = true
acceptable bid limit price best = leb best price
acceptable ask limit price best = leb price best
acceptable bid (stop_loss _) price best = leb best price
acceptable ask (stop_loss _) price best = leb price best
acceptable bid (take_profit _) price best = leb best price
acceptable ask (take_profit _) price best = leb price best

abbrev pub accepts : Order → ℕ → Bool
accepts i = acceptable i.side i.order_type i.price

-- Whether something of an order is left that rests: it is a limit order, and less was filled than it
-- wanted.
abbrev pub leaves_rest : Order → MatchResult → Bool
leaves_rest i r = is_limit i && ltb r.filled_quantity i.remaining_qty

-- What a successful call returns, for a taker who accepts these prices.
pub record Executed (ok_at : ℕ → Bool) (b : OrderBook) (i : Order) (b' : OrderBook)
    (r : MatchResult) : Type 0 where
  pub traded : trades_of r.fills ≡ trades ok_at i.remaining_qty (queue i.side b)
  pub rest : queue i.side b' ≡ left ok_at i.remaining_qty (queue i.side b)
  pub filled : r.filled_quantity ≡ size (trades ok_at i.remaining_qty (queue i.side b))
  pub rests : remainder r.remaining_order ≡ (
      if leaves_rest i r then some (i.id, i.price, i.remaining_qty - r.filled_quantity) else none)
  pub own :
      own_queue i.side b'
      ≡ joined i.side
          (leaves_rest i r)
          (record { id = i.id; price = i.price; quantity = i.remaining_qty - r.filled_quantity })
          (own_queue i.side b)

opposite_levels-set_own :
    (b : OrderBook) (side : Side) (ls : Levels) (m : Map ℕ OrderLocation)
    → opposite_levels side (record (set_book b side ls) { order_locations = m })
      ≡ opposite_levels side b
unfolding set_book
opposite_levels-set_own b bid ls m = refl
opposite_levels-set_own b ask ls m = refl

-- Adding an order leaves the other side alone.
pub opposite_levels-add_order :
    (b : OrderBook) (o : Order)
    → opposite_levels o.side (Book.add_order b o) ≡ opposite_levels o.side b
unfolding Book.add_order
opposite_levels-add_order b o = opposite_levels-set_own b o.side _ _

pub match_order_swept :
    (e : MatchingEngine) (b : OrderBook) (i : Order) (s : Matching)
    → 0 < i.remaining_qty
    → match_levels (suc (length (get_book b (opposite i.side)))) e (start b i) ≡ (s, none)
    → match_order e b i ≡ ((finish s).0, ok (finish s).1)
unfolding match_order
match_order_swept e b i s pos h = rw h (ground arith)
