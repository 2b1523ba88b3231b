-- ===== src/Oracle/Tests.antt =====
-- Three sources, one of which is far off.
use zk_perp.Prelude.{ℕ, ◌≤◌, ◌≡◌, refl, some, [], ◌∷◌, arith, true}
use zk_perp.Prelude.Result.{ok}
use zk_perp.Types.Market.{new_oracle_price}
use zk_perp.Oracle.Sources.{PriceSource}
use zk_perp.Oracle.Aggregator.{PriceAggregator, fresh_prices, get_aggregated_price}
use zk_perp.Oracle.Median.{get_aggregated_price-within}

abbrev fixed : ℕ → PriceSource
unfolding new_oracle_price
fixed price = record {
  get_price = λ id. ok (new_oracle_price id price 100);
  get_all_prices = [];
  supports_market = λ id. true;
}

abbrev three : PriceAggregator
three = record { sources = fixed 50 ∷ fixed 9000 ∷ fixed 52 ∷ []; max_price_age_ms = 10 }

fresh : fresh_prices 10 105 0 three.sources ≡ 50 ∷ 9000 ∷ 52 ∷ []
unfolding fresh_prices three fixed new_oracle_price
fresh = refl

get_aggregated_price-within_example :
    (m : ℕ) × (get_aggregated_price three 0 105 ≡ some (ok (new_oracle_price 0 m 105)))
    × (50 ≤ m)
    × (m ≤ 60)
unfolding three
get_aggregated_price-within_example =
    get_aggregated_price-within three 0 105 50 60 (rw fresh (ground arith))
