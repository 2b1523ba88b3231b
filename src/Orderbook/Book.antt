-- ===== src/Orderbook/Book.antt =====
-- `OrderBook` of crates/orderbook/src/book.rs: two sorted maps of price levels and the places of
-- the orders.
use zk_perp.Prelude.{
  ℕ, ◌-◌, ◌/◌, Bool, Option, none, some, List, [], ◌∷◌, ◌++◌, ltb, if◌then◌else◌, is_empty, length,
  map, reverse, take, nat_eq,
}
use zk_perp.Prelude.Words.{add_u64}
use zk_perp.Prelude.Map
use zk_perp.Prelude.Map.{Map}
use zk_perp.Prelude.SortedMap
use zk_perp.Types.Order.{Order, Side, bid, ask}
use zk_perp.Orderbook.Level
use zk_perp.Orderbook.Level.{PriceLevel}

pub record OrderLocation : Type 0 where
  pub side : Side
  pub price : ℕ

abbrev pub Levels : Type 0
Levels = Map ℕ PriceLevel

pub record OrderBook : Type 0 where
  pub market_id : ℕ
  pub bids : Levels
  pub asks : Levels
  pub order_locations : Map ℕ OrderLocation
  pub sequence : ℕ

unfoldable pub new : ℕ → OrderBook
new market_id = record {
  market_id = market_id;
  bids = [];
  asks = [];
  order_locations = [];
  sequence = 0;
}

unfoldable pub next_sequence : OrderBook → OrderBook × ℕ
next_sequence b = (record b { sequence = add_u64 b.sequence 1 }, add_u64 b.sequence 1)

unfoldable pub best_bid : OrderBook → Option ℕ
best_bid b = SortedMap.last_key b.bids

unfoldable pub best_ask : OrderBook → Option ℕ
best_ask b = SortedMap.first_key b.asks

unfoldable pub spread : OrderBook → Option ℕ
unfolding best_bid best_ask
spread b = elim (best_bid b) [
  | none ↦ none
  | some low ↦ elim (best_ask b) [
    | none ↦ none
    | some high ↦ if ltb low high then some (high - low) else none
  ]
]

unfoldable pub mid_price : OrderBook → Option ℕ
unfolding best_bid best_ask
mid_price b = elim (best_bid b) [
  | none ↦ best_ask b
  | some low ↦ elim (best_ask b) [ none ↦ some low | some high ↦ some (add_u64 low high / 2) ]
]

-- The orders of some levels, level by level.
unfoldable pub orders_of : Levels → List Order
orders_of [] = []
orders_of ((p, l) ∷ ls) = l.orders ++ orders_of ls

-- The loop pushes before it compares with `depth`, so at a depth of 0 it still returns one order.
abbrev pub at_least_one : ℕ → ℕ
at_least_one depth = if ltb 0 depth then depth else 1

unfoldable pub best_bids : OrderBook → ℕ → List Order
unfolding orders_of
best_bids b depth = take (at_least_one depth) (orders_of (reverse b.bids))

unfoldable pub best_asks : OrderBook → ℕ → List Order
unfolding orders_of
best_asks b depth = take (at_least_one depth) (orders_of b.asks)

-- `get_book` and a write through `get_book_mut`.
unfoldable pub get_book : OrderBook → Side → Levels
get_book b bid = b.bids
get_book b ask = b.asks

unfoldable pub set_book : OrderBook → Side → Levels → OrderBook
set_book b bid ls = record b { bids = ls }
set_book b ask ls = record b { asks = ls }

-- `entry(price).or_insert_with(..)`
unfoldable pub level_at : Levels → ℕ → PriceLevel
unfolding Level.new
level_at ls price = elim (Map.lookup price ls) [ none ↦ Level.new price | some l ↦ l ]

unfoldable pub add_order : OrderBook → Order → OrderBook
unfolding get_book set_book level_at Level.add_order
add_order b order =
    let ls = get_book b order.side in
    let level = Level.add_order (level_at ls order.price) order in
    let b' = set_book b order.side (SortedMap.insert order.price level ls) in
    record b' {
      order_locations =
          Map.insert order.id (record { side = order.side; price = order.price }) b.order_locations;
    }

-- A level as it is left by a removal: an empty one goes.
unfoldable pub put_level : Levels → ℕ → PriceLevel → Levels
unfolding Level.is_empty_level
put_level ls price level =
    if Level.is_empty_level level then Map.remove price ls else SortedMap.insert price level ls

-- The part after the place is known and removed.
unfoldable pub cancel_at : OrderBook → ℕ → OrderLocation → OrderBook × Option Order
unfolding get_book set_book put_level Level.remove_order
cancel_at b order_id location =
    let ls = get_book b location.side in
    elim (Map.lookup location.price ls) [
      | none ↦ (b, none)
      | some level ↦ elim (Level.remove_order level order_id) [
        | none ↦ (b, none)
        | some (order, level') ↦
            (set_book b location.side (put_level ls location.price level'), some order)
      ]
    ]

unfoldable pub cancel_order : OrderBook → ℕ → OrderBook × Option Order
unfolding cancel_at
cancel_order b order_id = elim (Map.lookup order_id b.order_locations) [
  | none ↦ (b, none)
  | some location ↦
      cancel_at (record b { order_locations = Map.remove order_id b.order_locations }) order_id
        location
]

unfoldable pub get_order : OrderBook → ℕ → Option Order
unfolding get_book Level.find_order
get_order b order_id = elim (Map.lookup order_id b.order_locations) [
  | none ↦ none
  | some location ↦ elim (Map.lookup location.price (get_book b location.side)) [
    | none ↦ none
    | some level ↦ Level.find_order level order_id
  ]
]

unfoldable pub quantity_at_price : OrderBook → Side → ℕ → ℕ
unfolding get_book
quantity_at_price b side price = elim (Map.lookup price (get_book b side)) [
  | none ↦ 0
  | some l ↦ l.total_quantity
]

pub record BookDepth : Type 0 where
  pub bids : List (ℕ × ℕ)
  pub asks : List (ℕ × ℕ)

abbrev pub price_and_quantity : ℕ × PriceLevel → ℕ × ℕ
price_and_quantity (p, l) = (p, l.total_quantity)

unfoldable pub depth : OrderBook → ℕ → BookDepth
depth b levels = record {
  bids = map price_and_quantity (take levels (reverse b.bids));
  asks = map price_and_quantity (take levels b.asks);
}

unfoldable pub total_orders : OrderBook → ℕ
total_orders b = length b.order_locations

unfoldable pub is_empty_book : OrderBook → Bool
is_empty_book b = is_empty b.order_locations

unfoldable pub all_orders : OrderBook → List Order
unfolding orders_of
all_orders b = orders_of b.bids ++ orders_of b.asks
