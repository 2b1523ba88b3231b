-- ===== src/Types/Order.antt =====
-- Orders and fills: crates/core/src/types/order.rs.
use zk_perp.Prelude.{ℕ, ◌-◌, ◌%◌, Bool, true, false, List, [], ◌∷◌, ◌++◌, ◌==◌}
use zk_perp.Prelude.Words.{add_u128, sub_u128, u64_max, be_bytes}
use zk_perp.Prelude.Int.{ℤ}

pub data Side : Type 0 where
  bid ask : Side

unfoldable pub opposite : Side → Side
opposite bid = ask
opposite ask = bid

pub data OrderType : Type 0 where
  limit market : OrderType
  -- Each with its trigger price.
  stop_loss take_profit : ℕ → OrderType

pub data TimeInForce : Type 0 where
  gtc ioc fok : TimeInForce

pub record Order : Type 0 where
  pub id : ℕ
  pub account_id : ℕ
  pub market_id : ℕ
  pub side : Side
  pub order_type : OrderType
  pub price : ℕ
  pub original_qty : ℕ
  pub remaining_qty : ℕ
  pub filled_qty : ℕ
  pub post_only : Bool
  pub reduce_only : Bool
  pub time_in_force : TimeInForce
  pub timestamp : ℕ
  pub nonce : ℕ

unfoldable pub new_limit : ℕ → ℕ → ℕ → Side → ℕ → ℕ → ℕ → ℕ → Order
new_limit id account_id market_id side price quantity timestamp nonce = record {
  id = id;
  account_id = account_id;
  market_id = market_id;
  side = side;
  order_type = limit;
  price = price;
  original_qty = quantity;
  remaining_qty = quantity;
  filled_qty = 0;
  post_only = false;
  reduce_only = false;
  time_in_force = gtc;
  timestamp = timestamp;
  nonce = nonce;
}

unfoldable pub new_market : ℕ → ℕ → ℕ → Side → ℕ → ℕ → ℕ → Order
new_market id account_id market_id side quantity timestamp nonce = record {
  id = id;
  account_id = account_id;
  market_id = market_id;
  side = side;
  order_type = market;
  price = 0;
  original_qty = quantity;
  remaining_qty = quantity;
  filled_qty = 0;
  post_only = false;
  reduce_only = false;
  time_in_force = ioc;
  timestamp = timestamp;
  nonce = nonce;
}

unfoldable pub is_filled : Order → Bool
is_filled o = o.remaining_qty == 0

unfoldable pub is_market_type : OrderType → Bool
is_market_type market = true
is_market_type limit = false
is_market_type (stop_loss _) = false
is_market_type (take_profit _) = false

unfoldable pub is_limit_type : OrderType → Bool
is_limit_type limit = true
is_limit_type market = false
is_limit_type (stop_loss _) = false
is_limit_type (take_profit _) = false

unfoldable pub is_limit : Order → Bool
unfolding is_limit_type
is_limit o = is_limit_type o.order_type

unfoldable pub is_market : Order → Bool
unfolding is_market_type
is_market o = is_market_type o.order_type

-- The `debug_assert!` is not part of a release build.
unfoldable pub fill : Order → ℕ → Order
fill o qty = record o {
  remaining_qty = sub_u128 o.remaining_qty qty;
  filled_qty = add_u128 o.filled_qty qty;
}

unfoldable pub effective_price : Side → ℕ → ℕ
effective_price bid price = u64_max - price
effective_price ask price = price

-- Eight bytes of the effective price, big end first, and the low byte of the nonce.
unfoldable pub orderbook_path : Order → List ℕ
unfolding effective_price
orderbook_path o = be_bytes 8 (effective_price o.side o.price) ++ o.nonce % 256 ∷ []

pub record Fill : Type 0 where
  pub maker_order_id : ℕ
  pub taker_order_id : ℕ
  pub price : ℕ
  pub quantity : ℕ
  pub maker_account_id : ℕ
  pub taker_account_id : ℕ
  pub taker_side : Side
  pub timestamp : ℕ
  pub maker_fee : ℤ
  pub taker_fee : ℕ
