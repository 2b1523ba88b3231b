-- ===== src/State/Process.antt =====
-- The dispatch on the kind of a transaction.
use zk_perp.Types.Transaction.{
  Transaction, deposit, withdraw, place_order, cancel_order, liquidate, update_oracle,
}
use zk_perp.Merkle.External.{External}
use zk_perp.State.Global.{ProcessResult, Action}
use zk_perp.State.Funds.{process_deposit, process_withdraw}
use zk_perp.State.Orders.{process_place_order, process_cancel_order}
use zk_perp.State.Liquidation.{process_liquidate, process_oracle_update}

module _ (x : External) where
  unfoldable pub process_transaction : Transaction → Action ProcessResult
  process_transaction (deposit tx) = process_deposit x tx
  process_transaction (withdraw tx) = process_withdraw x tx
  process_transaction (place_order tx) = process_place_order x tx
  process_transaction (cancel_order tx) = process_cancel_order x tx
  process_transaction (liquidate tx) = process_liquidate x tx
  process_transaction (update_oracle tx) = process_oracle_update x tx
