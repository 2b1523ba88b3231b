-- ===== src/Oracle/Mock.antt =====
-- `MockOracle`. The clock is an argument.
use zk_perp.Prelude.{ℕ, [], nat_eq}
use zk_perp.Prelude.Map
use zk_perp.Prelude.Map.{Map}
use zk_perp.Types.Market.{OraclePrice, new_oracle_price}
use zk_perp.Oracle.Sources.{PriceSource, values, map_values, price_of}

pub record MockOracle : Type 0 where
  pub prices : Map ℕ OraclePrice

unfoldable pub new : MockOracle
new = record { prices = [] }

unfoldable pub set_price : MockOracle → ℕ → ℕ → ℕ → MockOracle
unfolding new_oracle_price
set_price o market_id price timestamp = record o {
  prices = Map.insert market_id (new_oracle_price market_id price timestamp) o.prices;
}

unfoldable pub with_defaults : ℕ → MockOracle
unfolding new set_price
with_defaults now = set_price (set_price new 0 5000000000000 now) 1 300000000000 now

unfoldable pub refresh_timestamps : MockOracle → ℕ → MockOracle
refresh_timestamps o now = record o {
  prices = map_values (λ p. record p { timestamp = now }) o.prices;
}

unfoldable pub source : MockOracle → PriceSource
unfolding price_of
source o = record {
  get_price = price_of o.prices;
  get_all_prices = values o.prices;
  supports_market = λ market_id. Map.contains market_id o.prices;
}
