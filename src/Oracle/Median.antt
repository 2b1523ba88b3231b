-- ===== src/Oracle/Median.antt =====
-- The aggregated price is a median of the fresh prices.
use zk_perp.Prelude.{
  ℕ, zero, suc, ◌+◌, ◌*◌, ◌/◌, ◌≤◌, ◌<◌, ◌≡◌, refl, ap, ◌∙◌, ◌&&◌, some, List, [], ◌∷◌, length, ltb,
  leb, if◌then◌else◌, All, arith, inl, inr, Bool-cases, List-cases,
}
use zk_perp.Prelude.Result.{ok}
use zk_perp.Types.Market.{new_oracle_price}
use zk_perp.Oracle.Aggregator.{
  PriceAggregator, fresh_prices, insert_price, sort, nth, get_aggregated_price,
}

-- How many prices lie between two bounds.
abbrev pub count_within : ℕ → ℕ → List ℕ → ℕ
count_within lo hi [] = 0
count_within lo hi (p ∷ ps) = (if leb lo p && leb p hi then 1 else 0) + count_within lo hi ps

abbrev IsSorted : List ℕ → Type 0
IsSorted [] = Unit
IsSorted (p ∷ ps) = All (λ q. p ≤ q) ps × IsSorted ps

All-insert_price :
    (r p : ℕ) (ps : List ℕ) → r ≤ p → All (λ q. r ≤ q) ps → All (λ q. r ≤ q) (insert_price p ps)
unfolding insert_price
All-insert_price r p [] below all = (below, tt)
All-insert_price r p (q ∷ qs) below all = elim (Bool-cases (leb p q)) [
  | inl first ↦ rw (insert_price, first) (below, all)
  | inr later ↦ rw (insert_price, later) (all.0, All-insert_price r p qs below all.1)
]

All-trans : (r p : ℕ) (ps : List ℕ) → r ≤ p → All (λ q. p ≤ q) ps → All (λ q. r ≤ q) ps
All-trans r p [] below all = tt
All-trans r p (q ∷ qs) below all = (ground (arith, all.0), All-trans r p qs below all.1)

insert_price-IsSorted : (p : ℕ) (ps : List ℕ) → IsSorted ps → IsSorted (insert_price p ps)
unfolding insert_price
insert_price-IsSorted p [] sorted = (tt, tt)
insert_price-IsSorted p (q ∷ qs) sorted = elim (Bool-cases (leb p q)) [
  | inl first ↦
      let below : p ≤ q = ground arith in
      rw (insert_price, first) ((below, All-trans p q qs below sorted.0), sorted)
  | inr later ↦
      rw (insert_price, later)
        (All-insert_price q p qs (ground arith) sorted.0, insert_price-IsSorted p qs sorted.1)
]

sort-IsSorted : (ps : List ℕ) → IsSorted (sort ps)
unfolding sort
sort-IsSorted [] = tt
sort-IsSorted (p ∷ ps) = insert_price-IsSorted p (sort ps) (sort-IsSorted ps)

length-insert_price : (p : ℕ) (ps : List ℕ) → length (insert_price p ps) ≡ suc (length ps)
unfolding insert_price
length-insert_price p [] = refl
length-insert_price p (q ∷ qs) = ground (arith, length-insert_price p qs)

length-sort : (ps : List ℕ) → length (sort ps) ≡ length ps
unfolding sort
length-sort [] = refl
length-sort (p ∷ ps) = length-insert_price p (sort ps) ∙ ap suc (length-sort ps)

count_within-insert_price :
    (lo hi p : ℕ) (ps : List ℕ)
    → count_within lo hi (insert_price p ps) ≡ count_within lo hi (p ∷ ps)
unfolding insert_price
count_within-insert_price lo hi p [] = refl
count_within-insert_price lo hi p (q ∷ qs) = ground (arith, count_within-insert_price lo hi p qs)

count_within-sort : (lo hi : ℕ) (ps : List ℕ) → count_within lo hi (sort ps) ≡ count_within lo hi ps
unfolding sort
count_within-sort lo hi [] = refl
count_within-sort lo hi (p ∷ ps) =
    count_within-insert_price lo hi p (sort ps)
    ∙ ap (λ n. (if leb lo p && leb p hi then 1 else 0) + n) (count_within-sort lo hi ps)

count_within-length : (lo hi : ℕ) (ps : List ℕ) → count_within lo hi ps ≤ length ps
count_within-length lo hi [] = ground arith
count_within-length lo hi (p ∷ ps) = ground (arith, count_within-length lo hi ps)

-- Nothing lies within bounds that all prices exceed.
count_within-above :
    (lo hi r : ℕ) (ps : List ℕ) → hi < r → All (λ q. r ≤ q) ps → count_within lo hi ps ≡ 0
count_within-above lo hi r [] above all = refl
count_within-above lo hi r (p ∷ ps) above all =
    ground (arith, all.0, count_within-above lo hi r ps above all.1)

All-nth : (r i m : ℕ) (ps : List ℕ) → All (λ q. r ≤ q) ps → nth i ps ≡ some m → r ≤ m
All-nth r i m [] all at = absurd (cc)
All-nth r zero m (p ∷ ps) all at = ground (arith, all.0)
All-nth r (suc i) m (p ∷ ps) all at = All-nth r i m ps all.1 at

nth_below :
    (lo hi i m : ℕ) (ps : List ℕ)
    → IsSorted ps
    → nth i ps ≡ some m
    → m < lo
    → count_within lo hi ps + suc i ≤ length ps
nth_below lo hi i m [] sorted at below = absurd (cc)
nth_below lo hi zero m (p ∷ ps) sorted at below =
    let is : p ≡ m = ground arith in ground (arith, count_within-length lo hi ps)
nth_below lo hi (suc i) m (p ∷ ps) sorted at below =
    ground (arith, All-nth p i m ps sorted.0 at, nth_below lo hi i m ps sorted.1 at below)

nth_above :
    (lo hi i m : ℕ) (ps : List ℕ)
    → IsSorted ps
    → nth i ps ≡ some m
    → hi < m
    → count_within lo hi ps ≤ i
nth_above lo hi i m [] sorted at above = absurd (cc)
nth_above lo hi zero m (p ∷ ps) sorted at above =
    let is : p ≡ m = ground arith in
    ground (arith, count_within-above lo hi p ps (ground arith) sorted.0)
nth_above lo hi (suc i) m (p ∷ ps) sorted at above =
    ground (arith, nth_above lo hi i m ps sorted.1 at above)

nth-some : (i : ℕ) (ps : List ℕ) → i < length ps → (m : ℕ) × (nth i ps ≡ some m)
nth-some i [] inside = absurd (ground arith)
nth-some zero (p ∷ ps) inside = (p, refl)
nth-some (suc i) (p ∷ ps) inside = nth-some i ps (ground arith)

-- The middle of a sorted list lies within bounds that hold more than half of it.
middle_within :
    (lo hi m : ℕ) (ps : List ℕ)
    → nth (length (sort ps) / 2) (sort ps) ≡ some m
    → length ps < 2 * count_within lo hi ps
    → (lo ≤ m) × (m ≤ hi)
middle_within lo hi m ps at most =
    let size = length-sort ps in
    let count = count_within-sort lo hi ps in
    let sorted = sort-IsSorted ps in
    (
      elim (Bool-cases (ltb m lo)) [
        | inr low ↦ ground arith
        | inl below ↦ absurd (
            ground (
              arith,
              size,
              count,
              most,
              nth_below lo hi (length (sort ps) / 2) m (sort ps) sorted at (ground arith),
            ))
      ],
      elim (Bool-cases (ltb hi m)) [
        | inr high ↦ ground arith
        | inl above ↦ absurd (
            ground (
              arith,
              size,
              count,
              most,
              nth_above lo hi (length (sort ps) / 2) m (sort ps) sorted at (ground arith),
            ))
      ],
    )

-- Bounds that hold more than half of the prices that are not too old hold the aggregated price, which
-- is there and is for that market and time.
pub get_aggregated_price-within :
    (a : PriceAggregator) (market_id now lo hi : ℕ)
    → length (fresh_prices a.max_price_age_ms now market_id a.sources)
      < 2 * count_within lo hi (fresh_prices a.max_price_age_ms now market_id a.sources)
    → (m : ℕ) × (get_aggregated_price a market_id now
        ≡ some (ok (new_oracle_price market_id m now)))
      × (lo ≤ m)
      × (m ≤ hi)
unfolding get_aggregated_price
get_aggregated_price-within a market_id now lo hi most =
    let prices = fresh_prices a.max_price_age_ms now market_id a.sources in
    elim (List-cases prices) [
      | inl empty ↦ absurd (ground (arith, empty, most))
      | inr (p, ps, fresh) ↦
          let most' : length (p ∷ ps) < 2 * count_within lo hi (p ∷ ps) = rw fresh at most in
          let size = length-sort (p ∷ ps) in
          let found =
            nth-some (length (sort (p ∷ ps)) / 2) (sort (p ∷ ps)) (ground (arith, size)) in
          let within = middle_within lo hi found.0 (p ∷ ps) found.1 most' in
          (found.0, rw (get_aggregated_price, fresh, found.1) refl, within.0, within.1)
    ]
