-- ===== src/Oracle/Simulated.antt =====
-- `SimulatedOracle`. Floating-point numbers are a type of the machine, and the random walk over them
-- is a parameter: it gives the next price from the seed, the price and the configuration. The clock is
-- an argument.
use zk_perp.Prelude.{
  ℕ, suc, ◌+◌, ◌*◌, none, some, List, [], ◌∷◌, ◌++◌, reverse, take, length, ltb, if◌then◌else◌,
  nat_eq,
}
use zk_perp.Prelude.Words.{u64}
use zk_perp.Prelude.Map
use zk_perp.Prelude.Map.{Map}
use zk_perp.Types.Market.{OraclePrice, new_oracle_price}
use zk_perp.Oracle.Sources.{PriceSource, values, price_of}

module _ (F : Type 0) where
  pub record MarketConfig : Type 0 where
    pub anchor_price : ℕ
    pub volatility_pct : F
    pub mean_reversion : F
    pub max_deviation_pct : F

  pub record SimulatedOracle : Type 0 where
    pub prices : Map ℕ OraclePrice
    pub history : Map ℕ (List OraclePrice)
    pub configs : Map ℕ MarketConfig
    pub max_history : ℕ
    pub seed : ℕ

  unfoldable pub new : SimulatedOracle
  new = record { prices = []; history = []; configs = []; max_history = 1000; seed = 12345 }

  unfoldable pub add_market : SimulatedOracle → ℕ → MarketConfig → ℕ → SimulatedOracle
  unfolding new_oracle_price
  add_market o market_id config now =
      let initial_price = new_oracle_price market_id config.anchor_price now in
      record o {
        prices = Map.insert market_id initial_price o.prices;
        history = Map.insert market_id (initial_price ∷ []) o.history;
        configs = Map.insert market_id config o.configs;
      }

  -- `pop_front` until so many are left.
  unfoldable pub drop_oldest : ℕ → List OraclePrice → List OraclePrice
  drop_oldest max_history [] = []
  drop_oldest max_history (p ∷ history) =
      if ltb max_history (suc (length history))
      then drop_oldest max_history history
      else p ∷ history

  -- The next price of one market.
  unfoldable pub tick_market :
      (ℕ → ℕ → MarketConfig → ℕ) → ℕ → ℕ → MarketConfig → SimulatedOracle → SimulatedOracle
  unfolding new_oracle_price drop_oldest
  tick_market simulate_price_movement now market_id config o =
      elim (Map.lookup market_id o.prices) [
        | none ↦ o
        | some current ↦
            let new_price = simulate_price_movement o.seed current.price config in
            let oracle_price = new_oracle_price market_id new_price now in
            record o {
              prices = Map.insert market_id oracle_price o.prices;
              history = elim (Map.lookup market_id o.history) [
                | none ↦ o.history
                | some history ↦
                    Map.insert market_id (drop_oldest o.max_history (history ++ oracle_price ∷ []))
                      o.history
              ];
            }
      ]

  -- The loop over the configurations.
  unfoldable pub tick_markets :
      (ℕ → ℕ → MarketConfig → ℕ) → ℕ → Map ℕ MarketConfig → SimulatedOracle → SimulatedOracle
  unfolding tick_market
  tick_markets move now [] o = o
  tick_markets move now ((market_id, config) ∷ configs) o =
      tick_markets move now configs (tick_market move now market_id config o)

  unfoldable pub tick : (ℕ → ℕ → MarketConfig → ℕ) → ℕ → SimulatedOracle → SimulatedOracle
  unfolding tick_markets
  tick move now o = record (tick_markets move now o.configs o) {
    seed = u64 (o.seed * 6364136223846793005 + 1);
  }

  unfoldable pub get_history : SimulatedOracle → ℕ → ℕ → List OraclePrice
  get_history o market_id limit = elim (Map.lookup market_id o.history) [
    | none ↦ []
    | some history ↦ take limit (reverse history)
  ]

  unfoldable pub set_price : SimulatedOracle → ℕ → ℕ → ℕ → SimulatedOracle
  set_price o market_id price now = elim (Map.lookup market_id o.prices) [
    | none ↦ o
    | some p ↦ record o {
      prices = Map.insert market_id (record p { price = price; timestamp = now }) o.prices;
    }
  ]

  unfoldable pub source : SimulatedOracle → PriceSource
  unfolding price_of
  source o = record {
    get_price = price_of o.prices;
    get_all_prices = values o.prices;
    supports_market = λ market_id. Map.contains market_id o.configs;
  }
