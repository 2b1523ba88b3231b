-- ===== src/Oracle/Aggregator.antt =====
-- `PriceAggregator`. The clock is an argument.
use zk_perp.Prelude.{
  ℕ, zero, suc, ◌-◌, ◌/◌, Bool, true, false, Option, none, some, List, [], ◌∷◌, ◌++◌, length, leb,
  if◌then◌else◌, nat_eq,
}
use zk_perp.Prelude.Result.{Result, ok, err}
use zk_perp.Types.Market.{OraclePrice, new_oracle_price}
use zk_perp.Oracle.Sources.{OracleError, price_not_available, PriceSource}

pub record PriceAggregator : Type 0 where
  pub sources : List PriceSource
  pub max_price_age_ms : ℕ

unfoldable pub new_aggregator : ℕ → PriceAggregator
new_aggregator max_price_age_ms = record { sources = []; max_price_age_ms = max_price_age_ms }

unfoldable pub add_source : PriceAggregator → PriceSource → PriceAggregator
add_source a source = record a { sources = a.sources ++ source ∷ [] }

-- The prices that are not too old, in the order of the sources.
unfoldable pub fresh_prices : ℕ → ℕ → ℕ → List PriceSource → List ℕ
fresh_prices max_age now market_id [] = []
fresh_prices max_age now market_id (source ∷ sources) =
    let rest = fresh_prices max_age now market_id sources in
    elim (source.get_price market_id) [
      | err e ↦ rest
      | ok price ↦ if leb (now - price.timestamp) max_age then price.price ∷ rest else rest
    ]

unfoldable pub insert_price : ℕ → List ℕ → List ℕ
insert_price p [] = p ∷ []
insert_price p (q ∷ qs) = if leb p q then p ∷ q ∷ qs else q ∷ insert_price p qs

unfoldable pub sort : List ℕ → List ℕ
unfolding insert_price
sort [] = []
sort (p ∷ ps) = insert_price p (sort ps)

abbrev pub nth : ℕ → List ℕ → Option ℕ
nth i [] = none
nth zero (p ∷ ps) = some p
nth (suc i) (p ∷ ps) = nth i ps

-- `none` where the index would end the program.
unfoldable pub get_aggregated_price :
    PriceAggregator → ℕ → ℕ → Option (Result OracleError OraclePrice)
unfolding fresh_prices sort new_oracle_price
get_aggregated_price a market_id now =
    let prices = fresh_prices a.max_price_age_ms now market_id a.sources in
    elim prices [
      | [] ↦ some (err (price_not_available market_id))
      | p ∷ ps ↦
          let sorted = sort (p ∷ ps) in
          elim (nth (length sorted / 2) sorted) [
            | none ↦ none
            | some median_price ↦ some (ok (new_oracle_price market_id median_price now))
          ]
    ]

unfoldable pub supports_market : ℕ → List PriceSource → Bool
supports_market market_id [] = false
supports_market market_id (s ∷ sources) =
    if s.supports_market market_id then true else supports_market market_id sources
