-- ===== src/Types/Position/Laws.antt =====
-- Growing and shrinking a position.
use native.Mathlib.Nat.{
  div-mul-le_self, div-le_of_le-mul, le-div_iff_mul-le, mul-le-mul_left, mul-sub, add-mul, mul_comm,
  mod-eq_of_lt, le-mul_of_pos_right,
}
use zk_perp.Prelude.{
  ℕ, ◌+◌, ◌-◌, ◌*◌, ◌/◌, ◌^◌, ◌≤◌, ◌<◌, ◌≡◌, refl, some, arith, ◌==◌, ltb, min, if◌then◌else◌, inl,
  inr, ◌⊎◌, Bool-cases,
}
use zk_perp.Prelude.Words.{u64, add_u128, mul_u128}
use zk_perp.Prelude.Int.{ℤ}
use zk_perp.Types.Position.{
  Position, PositionSide, none, long, short, increase, decrease, decrease_by,
  calculate_liquidation_price, liquidation_quotient,
}

-- The average of two prices, weighted by sizes.
abbrev average : ℕ → ℕ → ℕ → ℕ → ℕ
average s e n p = (s * e + n * p) / (s + n)

average_above : (s e n p low : ℕ) → 0 < s + n → low ≤ e → low ≤ p → low ≤ average s e n p
average_above s e n p low pos a b =
    (le-div_iff_mul-le pos).1 (
      omega
        (arith, mul_comm low (s + n), add-mul s n low, mul-le-mul_left s a, mul-le-mul_left n b))

value_below : (s e n p high : ℕ) → e ≤ high → p ≤ high → s * e + n * p ≤ (s + n) * high
value_below s e n p high a b =
    omega (arith, add-mul s n high, mul-le-mul_left s a, mul-le-mul_left n b)

average_below : (s e n p high : ℕ) → e ≤ high → p ≤ high → average s e n p ≤ high
average_below s e n p high a b = div-le_of_le-mul (s + n) (value_below s e n p high a b)

-- What stays of a part of `m` that belongs to `q` of `s`.
proportion_kept : (m q s : ℕ) → q ≤ s → m * (s - q) ≤ (m - m * q / s) * s
proportion_kept m q s h = omega (
  arith,
  mul-sub m s q,
  mul-le-mul_left m h,
  div-mul-le_self (m * q) s,
  mul_comm (m - m * q / s) s,
  mul-sub s m (m * q / s),
  mul_comm s m,
  mul_comm s (m * q / s),
)

liquidation_quotient-some : (n d : ℕ) → 0 < d → (r : ℕ) × (liquidation_quotient n d ≡ some r)
unfolding liquidation_quotient
liquidation_quotient-some n d pos = (u64 (n / d), ground arith)

-- A liquidation price is computed where the leverage is positive and of one byte.
liquidation_price_some :
    (side : PositionSide) (entry lev mm : ℕ)
    → 0 < lev
    → lev < 2 ^ 8
    → (r : ℕ) × (calculate_liquidation_price side entry lev mm ≡ some r)
unfolding calculate_liquidation_price
liquidation_price_some none entry lev mm pos fits = (0, refl)
liquidation_price_some long entry lev mm pos fits =
    liquidation_quotient-some _ (mul_u128 lev 10_000) (omega arith)
liquidation_price_some short entry lev mm pos fits =
    liquidation_quotient-some _ (mul_u128 lev 10_000) (omega arith)

-- The entry price that `increase` computes; where no product wraps it is the average.
abbrev computed_entry : ℕ → ℕ → ℕ → ℕ → ℕ
computed_entry s e n p =
    if ltb 0 (add_u128 s n) then u64 (add_u128 (mul_u128 s e) (mul_u128 n p) / add_u128 s n) else e

computed_entry-average :
    (s e n p high : ℕ)
    → 0 < s + n
    → e ≤ high
    → p ≤ high
    → (s + n) * high < 2 ^ 128
    → 0 < high
    → high < 2 ^ 64
    → computed_entry s e n p ≡ average s e n p
computed_entry-average s e n p high pos a b fits some_high word =
    let value = value_below s e n p high a b in
    let below = average_below s e n p high a b in
    let size = le-mul_of_pos_right (s + n) some_high in
    let total : add_u128 s n ≡ s + n = mod-eq_of_lt (omega (arith, size)) in
    let first : mul_u128 s e ≡ s * e = mod-eq_of_lt (omega (arith, value)) in
    let second : mul_u128 n p ≡ n * p = mod-eq_of_lt (omega (arith, value)) in
    let sum : add_u128 (s * e) (n * p) ≡ s * e + n * p = mod-eq_of_lt (omega (arith, value)) in
    let quotient : u64 (average s e n p) ≡ average s e n p = mod-eq_of_lt (omega (arith, below)) in
    rw (total, first, second, sum) (ground (arith, quotient))

-- What `increase` makes of a position.
pub record Increased (p : Position) (n price added low high : ℕ) (q : Position) : Type 0 where
  pub size : q.size ≡ p.size + n
  pub entry_above : low ≤ q.entry_price
  pub entry_below : q.entry_price ≤ high
  pub margin : q.margin ≡ p.margin + added
  pub side : q.side ≡ p.side

-- Adding to a position succeeds: the size and the margin grow by what is added, the side stays, and
-- the new entry price lies between any bounds that hold for the old one and for the price paid. The
-- value at the upper bound and the new margin are in range, the leverage is positive, and the new
-- size is not zero.
pub increase-Increased :
    (p : Position) (n price margin timestamp low high : ℕ)
    → 0 < p.size + n
    → 0 < p.leverage
    → p.leverage < 2 ^ 8
    → low ≤ p.entry_price
    → low ≤ price
    → p.entry_price ≤ high
    → price ≤ high
    → 0 < high
    → high < 2 ^ 64
    → (p.size + n) * high < 2 ^ 128
    → p.margin + margin < 2 ^ 128
    → (q : Position) × (increase p n price margin timestamp ≡ some q)
      × Increased p n price margin low high q
unfolding increase
increase-Increased p n price margin timestamp low high pos lev byte a b c d some_high word fits
      fits' =
    let entry = computed_entry p.size p.entry_price n price in
    let averaged =
      computed_entry-average p.size p.entry_price n price high pos c d fits some_high word in
    let size = le-mul_of_pos_right (p.size + n) some_high in
    let liq = liquidation_price_some p.side entry p.leverage 100 lev byte in
    (
      record p {
        size = add_u128 p.size n;
        entry_price = entry;
        margin = add_u128 p.margin margin;
        liquidation_price = liq.0;
        last_update = timestamp;
      },
      rw (liq.1, increase) refl,
      record {
        size = mod-eq_of_lt (omega (arith, size));
        entry_above = rw averaged (average_above p.size p.entry_price n price low pos a b);
        entry_below = rw averaged (average_below p.size p.entry_price n price high c d);
        margin = mod-eq_of_lt fits';
        side = refl;
      },
    )

-- What `decrease` makes of a position.
pub record Decreased (p : Position) (n : ℕ) (q : Position) : Type 0 where
  pub size : q.size ≡ p.size - n
  pub margin_below : q.margin ≤ p.margin
  pub margin_above : p.margin * q.size ≤ q.margin * p.size
  pub closed :
      ((p.size ≤ n) × (q.side ≡ none) × (q.margin ≡ 0) × (q.entry_price ≡ 0))
      ⊎ ((n < p.size) × (q.side ≡ p.side) × (q.entry_price ≡ p.entry_price))

decrease_by-Decreased :
    (p : Position) (n k price timestamp : ℕ)
    → 0 < p.size
    → k ≡ min n p.size
    → p.margin * p.size < 2 ^ 128
    → Decreased p n (decrease_by p k price timestamp).0
unfolding decrease_by
decrease_by-Decreased p n k price timestamp pos cut fits =
    let within : k ≤ p.size = ground arith in
    let product : mul_u128 p.margin k ≡ p.margin * k =
      mod-eq_of_lt (omega (arith, mul-le-mul_left p.margin within)) in
    let share = proportion_kept p.margin k p.size within in
    elim (Bool-cases (p.size - k == 0)) [
      | inl gone ↦ record {
        size = ground arith;
        margin_below = ground arith;
        margin_above = ground arith;
        closed = inl (ground arith, ground arith, ground arith, ground arith);
      }
      | inr stays ↦ record {
        size = ground arith;
        margin_below = ground arith;
        margin_above = ground (arith, product, share);
        closed = inr (ground arith, ground arith, ground arith);
      }
    ]

-- Taking from an open position succeeds: the size shrinks by what is taken and stops at zero. What
-- stays of the margin is no more than it was and at least its share by size. A position that is
-- taken whole is closed, with no side, margin or entry price; any other keeps its side and its entry
-- price. The size is not zero, and margin times size is in range.
pub decrease-Decreased :
    (p : Position) (n price timestamp : ℕ)
    → 0 < p.size
    → p.margin * p.size < 2 ^ 128
    → (q : Position) × (pnl : ℤ) × (decrease p n price timestamp ≡ some (q, pnl)) × Decreased p n q
unfolding decrease
decrease-Decreased p n price timestamp pos fits =
    let r = decrease_by p (min n p.size) price timestamp in
    (r.0, r.1, ground arith, decrease_by-Decreased p n (min n p.size) price timestamp pos refl fits)
