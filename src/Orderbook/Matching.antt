-- ===== src/Orderbook/Matching.antt =====
-- The matching engine: crates/orderbook/src/matching.rs. Both loops run on fuel: a level's loop on
-- two rounds more than it has orders, the loop over levels on one more than the side has levels.
pub mod Greedy
pub mod OneLevel
pub mod Priority
pub mod Enqueue
pub mod Places
pub mod Sweep
pub mod Refines
pub mod PostOnly
pub mod Cancel
pub mod Valid
pub mod Uncrossed
pub mod Added
pub mod Removal
use zk_perp.Prelude.{
  ℕ, zero, suc, ◌+◌, ◌*◌, ◌/◌, min, Bool, true, false, not, ◌&&◌, ◌||◌, Option, none, some, List,
  [], ◌∷◌, ◌++◌, String, ltb, leb, ◌==◌, if◌then◌else◌, is_empty, length, nat_eq,
}
use zk_perp.Prelude.Words.{u64, add_u128, mul_u128, mul_u64, u128}
use zk_perp.Prelude.Int.{ℤ, pos, negsuc, i64, ◌*ℤ◌, div_ℕ}
use zk_perp.Prelude.Map
use zk_perp.Prelude.Map.{Map}
use zk_perp.Prelude.SortedMap
use zk_perp.Prelude.Result.{Result, ok, err}
use zk_perp.Prelude.Loop.{while}
use zk_perp.Types.Order
use zk_perp.Types.Order.{
  Order, Fill, Side, bid, ask, OrderType, limit, market, stop_loss, take_profit, is_market_type,
  opposite,
}
use zk_perp.Types.Market.{quantity_scale}
use zk_perp.Orderbook.Level
use zk_perp.Orderbook.Level.{PriceLevel}
use zk_perp.Orderbook.Book
use zk_perp.Orderbook.Book.{
  OrderBook, OrderLocation, Levels, best_bid, best_ask, get_book, set_book,
}

pub data MatchingError : Type 0 where
  order_not_found : ℕ → MatchingError
  invalid_order : String → MatchingError
  post_only_would_take : MatchingError
  no_liquidity : MatchingError

pub record MatchResult : Type 0 where
  pub fills : List Fill
  pub remaining_order : Option Order
  pub filled_quantity : ℕ
  pub average_price : Option ℕ

unfoldable pub has_fills : MatchResult → Bool
has_fills r = not (is_empty r.fills)

-- The sum over the fills, in `u128`.
unfoldable pub sum_u128 : (Fill → ℕ) → List Fill → ℕ
sum_u128 f [] = 0
sum_u128 f (x ∷ xs) = add_u128 (f x) (sum_u128 f xs)

unfoldable pub calculate_average_price : List Fill → Option ℕ
unfolding sum_u128
calculate_average_price fills =
    let total_value = sum_u128 (λ f. mul_u128 f.price f.quantity) fills in
    let total_qty = sum_u128 (λ f. f.quantity) fills in
    if is_empty fills
    then none
    else if total_qty == 0
    then none
    else some (u64 (total_value / total_qty))

pub record MatchingEngine : Type 0 where
  pub timestamp : ℕ
  pub maker_fee_bps : ℤ
  pub taker_fee_bps : ℕ

unfoldable pub with_fees : ℤ → ℕ → MatchingEngine
with_fees maker_fee_bps taker_fee_bps = record {
  timestamp = 0;
  maker_fee_bps = maker_fee_bps;
  taker_fee_bps = taker_fee_bps;
}

unfoldable pub new : MatchingEngine
unfolding with_fees
new = with_fees (negsuc 1) 5

unfoldable pub set_timestamp : MatchingEngine → ℕ → MatchingEngine
set_timestamp e timestamp = record e { timestamp = timestamp }

unfoldable pub make_fill : MatchingEngine → ℕ → ℕ → Order → Order → Fill
make_fill e best_price fill_qty maker incoming =
    let notional = mul_u128 fill_qty best_price / quantity_scale in
    record {
      maker_order_id = maker.id;
      taker_order_id = incoming.id;
      price = best_price;
      quantity = fill_qty;
      maker_account_id = maker.account_id;
      taker_account_id = incoming.account_id;
      taker_side = incoming.side;
      timestamp = e.timestamp;
      maker_fee = div_ℕ (i64 (i64 (pos notional) *ℤ e.maker_fee_bps)) 10_000;
      taker_fee = mul_u64 (u64 notional) e.taker_fee_bps / 10_000;
    }

-- What the inner loop changes.
pub record LevelLoop : Type 0 where
  pub level : PriceLevel
  pub order_locations : Map ℕ OrderLocation
  pub incoming : Order
  pub fills : List Fill
  pub total_filled : ℕ

-- A trade with the front order `maker`; `rest` stands behind it. A filled maker is popped.
unfoldable pub fill_front : MatchingEngine → ℕ → LevelLoop → Order → List Order → LevelLoop
unfolding Order.fill Order.is_filled
fill_front e best_price s maker rest =
    let fill_qty = min s.incoming.remaining_qty maker.remaining_qty in
    let maker' = Order.fill maker fill_qty in
    let filled = record s {
      level = record (s.level) { orders = maker' ∷ rest };
      incoming = Order.fill s.incoming fill_qty;
      fills = s.fills ++ make_fill e best_price fill_qty maker s.incoming ∷ [];
      total_filled = add_u128 s.total_filled fill_qty;
    } in
    if Order.is_filled maker'
    then elim (Level.pop_front filled.level) [
      | none ↦ filled
      | some (popped, level') ↦ record filled {
        level = level';
        order_locations = Map.remove popped.id s.order_locations;
      }
    ]
    else filled

unfoldable pub fill_once : MatchingEngine → ℕ → LevelLoop → LevelLoop
unfolding fill_front
fill_once e best_price s = elim s.level.orders [
  | [] ↦ s
  | maker ∷ rest ↦ fill_front e best_price s maker rest
]

unfoldable pub level_test : LevelLoop → Bool
unfolding Level.is_empty_level
level_test s = not (Level.is_empty_level s.level) && ltb 0 s.incoming.remaining_qty

unfoldable pub match_level : MatchingEngine → ℕ → LevelLoop → LevelLoop
unfolding while level_test fill_once
match_level e best_price s =
    while (suc (suc (length s.level.orders))) level_test (fill_once e best_price) s

-- What the outer loop changes.
pub record Matching : Type 0 where
  pub book : OrderBook
  pub incoming : Order
  pub fills : List Fill
  pub total_filled : ℕ

unfoldable pub best_price : OrderBook → Side → Option ℕ
unfolding best_bid best_ask
best_price b bid = best_ask b
best_price b ask = best_bid b

unfoldable pub can_trade : Side → OrderType → ℕ → ℕ → Bool
unfolding is_market_type
can_trade bid type price best = is_market_type type || leb best price
can_trade ask type price best = is_market_type type || leb price best

-- One round of the outer loop: it ends, it rejects, or it goes on.
pub data Round : Type 0 where
  done rejected : Round
  more : Matching → Round

unfoldable pub trade_at : MatchingEngine → Matching → ℕ → PriceLevel → Matching
unfolding get_book set_book opposite match_level Level.is_empty_level
trade_at e s price level =
    let opposite_side = opposite s.incoming.side in
    let out = match_level e price (record {
      level = level;
      order_locations = s.book.order_locations;
      incoming = s.incoming;
      fills = s.fills;
      total_filled = s.total_filled;
    }) in
    let ls = get_book s.book opposite_side in
    let ls' = Book.put_level ls price out.level in
    record {
      book = record (set_book s.book opposite_side ls') { order_locations = out.order_locations };
      incoming = out.incoming;
      fills = out.fills;
      total_filled = out.total_filled;
    }

unfoldable pub round : MatchingEngine → Matching → Round
unfolding best_price can_trade trade_at get_book opposite
round e s =
    if s.incoming.remaining_qty == 0 then done else elim (best_price s.book s.incoming.side) [
      | none ↦ done
      | some price ↦
          if not (can_trade s.incoming.side s.incoming.order_type s.incoming.price price)
          then done
          else if s.incoming.post_only && is_empty s.fills
          then rejected
          else elim (Map.lookup price (get_book s.book (opposite s.incoming.side))) [
            | none ↦ done
            | some level ↦ more (trade_at e s price level)
          ]
    ]

-- The state in which the loop ended, and the error if it returned one.
unfoldable pub match_levels : ℕ → MatchingEngine → Matching → Matching × Option MatchingError
unfolding round
match_levels zero e s = (s, none)
match_levels (suc fuel) e s = elim (round e s) [
  | done ↦ (s, none)
  | rejected ↦ (s, some post_only_would_take)
  | more s' ↦ match_levels fuel e s'
]

-- What is left of the order: a limit order rests in the book, any other is dropped.
unfoldable pub rest_order : OrderType → Matching → OrderBook × Option Order
unfolding Book.add_order
rest_order limit s = (Book.add_order s.book s.incoming, some s.incoming)
rest_order market s = (s.book, none)
rest_order (stop_loss _) s = (s.book, none)
rest_order (take_profit _) s = (s.book, none)

unfoldable pub finish : Matching → OrderBook × MatchResult
unfolding rest_order calculate_average_price
finish s =
    let (book, remaining) =
      if ltb 0 s.incoming.remaining_qty
      then rest_order s.incoming.order_type s
      else (s.book, none) in
    (
      book,
      record {
        fills = s.fills;
        remaining_order = remaining;
        filled_quantity = s.total_filled;
        average_price = calculate_average_price s.fills;
      },
    )

unfoldable pub start : OrderBook → Order → Matching
start book incoming = record { book = book; incoming = incoming; fills = []; total_filled = 0 }

unfoldable pub match_order :
    MatchingEngine → OrderBook → Order → OrderBook × Result MatchingError MatchResult
unfolding match_levels start finish get_book opposite
match_order e book incoming =
    if incoming.remaining_qty == 0
    then (book, err (invalid_order "Zero quantity"))
    else (let (s, error) =
          match_levels (suc (length (get_book book (opposite incoming.side)))) e
            (start book incoming) in
        elim error [
          | some failure ↦ (s.book, err failure)
          | none ↦ let (book', result) = finish s in (book', ok result)
        ])

unfoldable pub cancel_order :
    MatchingEngine → OrderBook → ℕ → ℕ → OrderBook × Result MatchingError Order
unfolding Book.get_order Book.cancel_order
cancel_order e book order_id account_id = elim (Book.get_order book order_id) [
  | none ↦ (book, err (order_not_found order_id))
  | some order ↦
      if not (order.account_id == account_id)
      then (book, err (invalid_order "Order does not belong to account"))
      else (let (book', cancelled) = Book.cancel_order book order_id in
          elim cancelled [
            | none ↦ (book', err (order_not_found order_id))
            | some o ↦ (book', ok o)
          ])
]
