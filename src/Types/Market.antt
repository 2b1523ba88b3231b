-- ===== src/Types/Market.antt =====
-- Market configuration, oracle prices and the system state: crates/core/src/types/market.rs.
use zk_perp.Prelude.{
  ℕ, ◌-◌, ◌/◌, ◌%◌, Bool, true, false, Option, none, some, List, String, ltb, leb, ◌==◌,
  if◌then◌else◌,
}
use zk_perp.Prelude.Words.{u64, mul_u128, mul_u64, add_u64}
use zk_perp.Prelude.Int.{ℤ, pos, negsuc, i64, ◌*ℤ◌, div_ℕ}
use zk_perp.Types.Account.{usdc, btc, eth}

pub record Market : Type 0 where
  pub id : ℕ
  pub name : String
  pub base_asset : ℕ
  pub quote_asset : ℕ
  pub tick_size : ℕ
  pub lot_size : ℕ
  pub min_order_size : ℕ
  pub max_leverage : ℕ
  pub initial_margin_bps : ℕ
  pub maintenance_margin_bps : ℕ
  pub maker_fee_bps : ℤ
  pub taker_fee_bps : ℕ
  pub funding_interval : ℕ
  pub oracle_id : ℕ
  pub is_active : Bool
  pub created_at : ℕ

unfoldable pub new : ℕ → String → ℕ → ℕ → Market
new id name base_asset quote_asset = record {
  id = id;
  name = name;
  base_asset = base_asset;
  quote_asset = quote_asset;
  tick_size = 100_000_000;
  lot_size = 1_000_000_000_000_000;
  min_order_size = 10_000_000_000_000_000;
  max_leverage = 50;
  initial_margin_bps = 200;
  maintenance_margin_bps = 100;
  maker_fee_bps = negsuc 1;
  taker_fee_bps = 5;
  funding_interval = 3600;
  oracle_id = id;
  is_active = true;
  created_at = 0;
}

-- 10 ^ 18, the scale of a quantity.
abbrev pub quantity_scale : ℕ
quantity_scale = 1_000_000_000_000_000_000

unfoldable pub calculate_initial_margin : Market → ℕ → ℕ → ℕ
calculate_initial_margin m size price =
    let notional = mul_u128 size price in
    mul_u128 notional m.initial_margin_bps / 10_000 / quantity_scale

unfoldable pub calculate_maintenance_margin : Market → ℕ → ℕ → ℕ
calculate_maintenance_margin m size price =
    let notional = mul_u128 size price in
    mul_u128 notional m.maintenance_margin_bps / 10_000 / quantity_scale

unfoldable pub calculate_maker_fee : Market → ℕ → ℕ → ℤ
calculate_maker_fee m size price =
    let notional = mul_u128 size price / quantity_scale in
    div_ℕ (i64 (i64 (pos notional) *ℤ m.maker_fee_bps)) 10_000

unfoldable pub calculate_taker_fee : Market → ℕ → ℕ → ℕ
calculate_taker_fee m size price =
    let notional = mul_u128 size price / quantity_scale in
    mul_u64 (u64 notional) m.taker_fee_bps / 10_000

-- `none` is the panic of a remainder by zero.
unfoldable pub validate_price : Market → ℕ → Option Bool
validate_price m price = if m.tick_size == 0 then none else some (price % m.tick_size == 0)

unfoldable pub validate_quantity : Market → ℕ → Option Bool
validate_quantity m quantity =
    if leb m.min_order_size quantity
    then (if m.lot_size == 0 then none else some (quantity % m.lot_size == 0))
    else some false

pub record OraclePrice : Type 0 where
  pub market_id : ℕ
  pub price : ℕ
  pub timestamp : ℕ
  pub confidence_bps : ℕ

unfoldable pub new_oracle_price : ℕ → ℕ → ℕ → OraclePrice
new_oracle_price market_id price timestamp = record {
  market_id = market_id;
  price = price;
  timestamp = timestamp;
  confidence_bps = 50;
}

unfoldable pub is_stale : OraclePrice → ℕ → ℕ → Bool
is_stale p current_time max_age_ms = ltb max_age_ms (current_time - p.timestamp)

pub record SystemState : Type 0 where
  pub block_number : ℕ
  pub timestamp : ℕ
  pub last_funding_timestamp : ℕ
  pub total_accounts : ℕ
  pub total_orders : ℕ
  pub next_order_id : ℕ
  pub sequencer_pubkey : List ℕ

unfoldable pub allocate_order_id : SystemState → SystemState × ℕ
allocate_order_id s = (
  record s { next_order_id = add_u64 s.next_order_id 1; total_orders = add_u64 s.total_orders 1 },
  s.next_order_id,
)

unfoldable pub allocate_account_id : SystemState → SystemState × ℕ
allocate_account_id s = (record s { total_accounts = add_u64 s.total_accounts 1 }, s.total_accounts)

unfoldable pub btc_usdc : Market
unfolding new
btc_usdc = record (new 0 "BTC-USDC" btc usdc) {
  tick_size = 100_000_000;
  lot_size = 1_000_000_000_000_000;
  min_order_size = 10_000_000_000_000_000;
}

unfoldable pub eth_usdc : Market
unfolding new
eth_usdc = record (new 1 "ETH-USDC" eth usdc) {
  tick_size = 10_000_000;
  lot_size = 10_000_000_000_000_000;
  min_order_size = 100_000_000_000_000_000;
}
