-- ===== src/Oracle/Sources.antt =====
-- What the price sources share.
use zk_perp.Prelude.{ℕ, Bool, none, some, List, [], ◌∷◌, nat_eq, String}
use zk_perp.Prelude.Map
use zk_perp.Prelude.Map.{Map}
use zk_perp.Prelude.Result.{Result, ok, err}
use zk_perp.Types.Market.{OraclePrice}

pub data OracleError : Type 0 where
  price_not_available : ℕ → OracleError
  stale_price : ℕ → ℕ → OracleError
  invalid_price : String → OracleError

-- A `PriceSource` as its callers see it.
pub record PriceSource : Type 0 where
  pub get_price : ℕ → Result OracleError OraclePrice
  pub get_all_prices : List OraclePrice
  pub supports_market : ℕ → Bool

-- `values` of a map.
abbrev pub values {ℓ} : {A : Type ℓ} → Map ℕ A → List A
values [] = []
values ((k, v) ∷ m) = v ∷ values m

abbrev pub map_values {ℓ} : {A : Type ℓ} → (A → A) → Map ℕ A → Map ℕ A
map_values f [] = []
map_values f ((k, v) ∷ m) = (k, f v) ∷ map_values f m

-- A price of a map, or the error that it is not there.
unfoldable pub price_of : Map ℕ OraclePrice → ℕ → Result OracleError OraclePrice
price_of prices market_id = elim (Map.lookup market_id prices) [
  | none ↦ err (price_not_available market_id)
  | some price ↦ ok price
]
