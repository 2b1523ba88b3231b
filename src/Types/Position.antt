-- ===== src/Types/Position.antt =====
-- Positions: crates/core/src/types/position.rs. A division by zero panics, which is `none` here.
pub mod Laws
use zk_perp.Prelude.{
  ℕ, ◌-◌, ◌/◌, Bool, true, false, Option, some, ltb, min, ◌&&◌, not, ◌==◌, if◌then◌else◌,
}
use zk_perp.Prelude.Words.{u64, u16, u128, add_u128, sub_u128, mul_u128}
use zk_perp.Prelude.Int.{ℤ, pos, negsuc, i128, ◌*ℤ◌, sub_ℕ, neg, is_neg, div_ℕ, to_u128}
use zk_perp.Types.Market.{quantity_scale}

pub data PositionSide : Type 0 where
  none long short : PositionSide

unfoldable pub is_open_side : PositionSide → Bool
is_open_side none = false
is_open_side long = true
is_open_side short = true

unfoldable pub opposite : PositionSide → PositionSide
opposite none = none
opposite long = short
opposite short = long

pub record Position : Type 0 where
  pub account_id : ℕ
  pub market_id : ℕ
  pub side : PositionSide
  pub size : ℕ
  pub entry_price : ℕ
  pub margin : ℕ
  pub leverage : ℕ
  pub liquidation_price : ℕ
  pub last_update : ℕ
  pub accumulated_funding : ℤ
  pub last_funding_timestamp : ℕ

abbrev pub price_scale : ℕ
price_scale = 100_000_000

-- `numerator / denominator as Price`
unfoldable pub liquidation_quotient : ℕ → ℕ → Option ℕ
liquidation_quotient numerator denominator =
    if denominator == 0 then Option.none else some (u64 (numerator / denominator))

unfoldable pub calculate_liquidation_price : PositionSide → ℕ → ℕ → ℕ → Option ℕ
unfolding liquidation_quotient
calculate_liquidation_price none entry lev mm = some 0
calculate_liquidation_price long entry lev mm =
    liquidation_quotient
      (mul_u128 entry (add_u128 (sub_u128 (mul_u128 lev 10_000) 10_000) (mul_u128 mm lev)))
      (mul_u128 lev 10_000)
calculate_liquidation_price short entry lev mm =
    liquidation_quotient
      (mul_u128 entry (sub_u128 (add_u128 (mul_u128 lev 10_000) 10_000) (mul_u128 mm lev)))
      (mul_u128 lev 10_000)

unfoldable pub new : ℕ → ℕ → PositionSide → ℕ → ℕ → ℕ → ℕ → ℕ → Option Position
unfolding calculate_liquidation_price
new account_id market_id side size entry_price margin leverage timestamp =
    elim (calculate_liquidation_price side entry_price leverage 100) [
      | Option.none ↦ Option.none
      | some liquidation_price ↦ some (record {
        account_id = account_id;
        market_id = market_id;
        side = side;
        size = size;
        entry_price = entry_price;
        margin = margin;
        leverage = leverage;
        liquidation_price = liquidation_price;
        last_update = timestamp;
        accumulated_funding = pos 0;
        last_funding_timestamp = timestamp;
      })
    ]

unfoldable pub is_open : Position → Bool
unfolding is_open_side
is_open p = is_open_side p.side && ltb 0 p.size

-- The gain of a long position, or of a short one, per unit of price; `to - from` for `long`.
unfoldable pub price_move : PositionSide → ℕ → ℕ → ℤ
price_move none entry mark = pos 0
price_move long entry mark = sub_ℕ mark entry
price_move short entry mark = sub_ℕ entry mark

-- `(mark - entry) * size / 10^8 / 10^18`, in `i128`.
unfoldable pub scaled_pnl : PositionSide → ℕ → ℕ → ℕ → ℤ
unfolding price_move
scaled_pnl side entry mark size =
    div_ℕ (div_ℕ (i128 (price_move side entry mark *ℤ i128 (pos size))) price_scale) quantity_scale

-- Whether it is a profit, and its amount.
unfoldable pub unrealized_pnl : Position → ℕ → Bool × ℕ
unfolding is_open scaled_pnl
unrealized_pnl p mark_price =
    if is_open p
    then (let pnl = scaled_pnl p.side p.entry_price mark_price p.size in
        if is_neg pnl then (false, to_u128 (neg pnl)) else (true, to_u128 pnl))
    else (true, 0)

unfoldable pub margin_ratio : Position → ℕ → ℕ
unfolding is_open unrealized_pnl
margin_ratio p mark_price =
    let (is_profit, pnl) = unrealized_pnl p mark_price in
    let equity = if is_profit then add_u128 p.margin pnl else p.margin - pnl in
    let position_value = mul_u128 p.size mark_price / quantity_scale in
    if not (is_open p)
    then 10_000
    else if position_value == 0
    then 10_000
    else u16 (mul_u128 equity 10_000 / position_value)

unfoldable pub is_liquidatable : Position → ℕ → ℕ → Bool
unfolding margin_ratio
is_liquidatable p mark_price maintenance_margin_bps =
    ltb (margin_ratio p mark_price) maintenance_margin_bps

-- `increase`: the entry price becomes the average, weighted by size.
unfoldable pub increase : Position → ℕ → ℕ → ℕ → ℕ → Option Position
unfolding calculate_liquidation_price
increase p additional_size price additional_margin timestamp =
    let old_value = mul_u128 p.size p.entry_price in
    let new_value = mul_u128 additional_size price in
    let total_size = add_u128 p.size additional_size in
    let entry_price =
      if ltb 0 total_size then u64 (add_u128 old_value new_value / total_size) else p.entry_price in
    elim (calculate_liquidation_price p.side entry_price p.leverage 100) [
      | Option.none ↦ Option.none
      | some liquidation_price ↦ some (record p {
        size = total_size;
        entry_price = entry_price;
        margin = add_u128 p.margin additional_margin;
        liquidation_price = liquidation_price;
        last_update = timestamp;
      })
    ]

-- What `decrease` does once the quantity is cut to the size.
unfoldable pub decrease_by : Position → ℕ → ℕ → ℕ → Position × ℤ
unfolding scaled_pnl
decrease_by p reduce_size price timestamp =
    let pnl = scaled_pnl p.side p.entry_price price reduce_size in
    let margin = p.margin - mul_u128 p.margin reduce_size / p.size in
    let size = p.size - reduce_size in
    if size == 0
    then (
      record p {
        side = none;
        size = size;
        entry_price = 0;
        margin = 0;
        liquidation_price = 0;
        last_update = timestamp;
      },
      pnl,
    )
    else (record p { size = size; margin = margin; last_update = timestamp }, pnl)

-- The proportional margin divides by the size.
unfoldable pub decrease : Position → ℕ → ℕ → ℕ → Option (Position × ℤ)
unfolding decrease_by
decrease p reduce_size price timestamp =
    if p.size == 0
    then Option.none
    else some (decrease_by p (min reduce_size p.size) price timestamp)

unfoldable pub flip : Position → PositionSide → ℕ → ℕ → ℕ → ℕ → ℕ → Option (Position × ℤ)
unfolding decrease calculate_liquidation_price
flip p new_side new_size price margin leverage timestamp =
    elim (decrease p p.size price timestamp) [
      | Option.none ↦ Option.none
      | some (closed, pnl) ↦ elim (calculate_liquidation_price new_side price leverage 100) [
        | Option.none ↦ Option.none
        | some liquidation_price ↦ some (
          record closed {
            side = new_side;
            size = new_size;
            entry_price = price;
            margin = margin;
            leverage = leverage;
            liquidation_price = liquidation_price;
            last_update = timestamp;
          },
          pnl,
        )
      ]
    ]
