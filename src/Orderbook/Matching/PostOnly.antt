-- ===== src/Orderbook/Matching/PostOnly.antt =====
-- Orders that may not take liquidity.
use zk_perp.Prelude.{Bool, false, none, some, []}
use zk_perp.Types.Order.{Order}
use zk_perp.Orderbook.Book
use zk_perp.Orderbook.Book.{OrderBook, Levels, best_bid, best_ask, get_book}
use zk_perp.Orderbook.Matching.{MatchResult, best_price, can_trade}

-- The best price of the other side is one that the order would trade at.
abbrev pub crosses : OrderBook → Order → Bool
crosses b i = elim (best_price b i.side) [
  | none ↦ false
  | some p ↦ can_trade i.side i.order_type i.price p
]

-- A result without a trade, of an order that rests as it came.
abbrev pub untraded : Order → MatchResult
untraded i = record {
  fills = [];
  remaining_order = some i;
  filled_quantity = 0;
  average_price = none;
}
