-- ===== src/State/Fills.antt =====
-- What a fill does to the accounts and the positions.
use zk_perp.Prelude.{
  ℕ, ◌-◌, Bool, true, false, Option, none, some, leb, ltb, if◌then◌else◌, nat_eq, pair_eq,
}
use zk_perp.Prelude.Int.{is_neg, neg, i64, to_u128}
use zk_perp.Prelude.Map
use zk_perp.Types.Balance
use zk_perp.Types.Account
use zk_perp.Types.Account.{Account, get_balance, put_balance}
use zk_perp.Types.Order.{Fill, Side, bid, ask}
use zk_perp.Types.Market.{Market, calculate_initial_margin}
use zk_perp.Types.Position
use zk_perp.Types.Position.{Position, PositionSide, long, short}
use zk_perp.Merkle.External.{External}
use zk_perp.Merkle.Hypertree
use zk_perp.State.Global.{Action, modify, gets, unwrap, ◌>>=◌, ◌>>◌, update_account}

unfoldable pub position_side : Side → PositionSide
position_side bid = long
position_side ask = short

unfoldable pub same_side : PositionSide → PositionSide → Bool
same_side PositionSide.none PositionSide.none = true
same_side long long = true
same_side short short = true
same_side _ _ = false

unfoldable pub unlock_margin : Market → ℕ → ℕ → Account → Account
unfolding get_balance put_balance Balance.unlock calculate_initial_margin
unlock_margin m quantity price a = elim (get_balance a m.quote_asset) [
  | none ↦ a
  | some b ↦
      put_balance a m.quote_asset (Balance.unlock b (calculate_initial_margin m quantity price)).0
]

unfoldable pub debit_quote : Market → ℕ → Account → Account
unfolding get_balance put_balance Balance.debit
debit_quote m amount a = elim (get_balance a m.quote_asset) [
  | none ↦ a
  | some b ↦ put_balance a m.quote_asset (Balance.debit b amount).0
]

-- The maker gets back the margin of the quantity, and then a rebate or a fee.
unfoldable pub settle_maker : Fill → Market → Account → Account
unfolding unlock_margin debit_quote Account.deposit
settle_maker fill m a =
    let a' = unlock_margin m fill.quantity fill.price a in
    if is_neg fill.maker_fee
    then Account.deposit a' m.quote_asset (to_u128 (i64 (neg fill.maker_fee)))
    else debit_quote m (to_u128 fill.maker_fee) a'

unfoldable pub settle_taker : Fill → Market → Account → Account
unfolding debit_quote
settle_taker fill m a = debit_quote m fill.taker_fee a

-- A position that stands on the other side is reduced, closed or turned round.
unfoldable pub reduce_or_flip : Position → PositionSide → Fill → Option Position
unfolding Position.decrease
reduce_or_flip p side fill =
    if leb p.size fill.quantity
    then elim (Position.decrease p p.size fill.price fill.timestamp) [
      | none ↦ none
      | some (closed, pnl) ↦
          let remaining = fill.quantity - p.size in
          some (
            if ltb 0 remaining
            then record closed { side = side; size = remaining; entry_price = fill.price }
            else closed)
    ]
    else elim (Position.decrease p fill.quantity fill.price fill.timestamp) [
      | none ↦ none
      | some (reduced, pnl) ↦ some reduced
    ]

unfoldable pub apply_fill : Position → PositionSide → Fill → Option Position
unfolding same_side reduce_or_flip Position.increase
apply_fill p side fill =
    if same_side p.side PositionSide.none
    then some (record p { side = side; size = fill.quantity; entry_price = fill.price })
    else if same_side p.side side
    then Position.increase p fill.quantity fill.price 0 fill.timestamp
    else reduce_or_flip p side fill

-- `entry(..).or_insert_with(..)`
unfoldable pub position_or_new : Option Position → Fill → Market → Option Position
unfolding Position.new
position_or_new (some p) fill m = some p
position_or_new none fill m =
    Position.new fill.taker_account_id m.id PositionSide.none 0 0 0 1 fill.timestamp

module _ (x : External) where
  unfoldable pub update_position_from_fill : Fill → Market → Action (Unit {0})
  unfolding position_side position_or_new apply_fill
  update_position_from_fill fill m = do
    let key : ℕ × ℕ = (fill.taker_account_id, m.id)
    old ← gets (λ s. Map.lookup key s.positions)
    position ← unwrap (position_or_new old fill m)
    updated ← unwrap (apply_fill position (position_side fill.taker_side) fill)
    modify (λ s. record s { positions = Map.insert key updated s.positions })
    modify (λ s. record s { hypertree = Hypertree.insert_position x s.hypertree updated })

  unfoldable pub process_fill : Fill → Market → Action (Unit {0})
  unfolding update_account settle_maker settle_taker update_position_from_fill
  process_fill fill m = do
    modify (update_account fill.maker_account_id (settle_maker fill m))
    modify (update_account fill.taker_account_id (settle_taker fill m))
    update_position_from_fill fill m
