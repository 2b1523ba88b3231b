-- ===== src/State/Liquidation.antt =====
-- Liquidations and oracle updates.
use zk_perp.Prelude.{ℕ, ◌-◌, ◌/◌, none, some, [], ◌∷◌, nat_eq, pair_eq}
use zk_perp.Prelude.Map
use zk_perp.Types.Balance
use zk_perp.Types.Account
use zk_perp.Types.Account.{Account, get_balance, put_balance, increment_nonce}
use zk_perp.Types.Market.{Market, OraclePrice}
use zk_perp.Types.Position
use zk_perp.Types.Position.{Position}
use zk_perp.Types.Transaction.{LiquidateTx, UpdateOracleTx}
use zk_perp.Merkle.External.{External}
use zk_perp.Merkle.Hypertree
use zk_perp.State.Global.{
  market_not_found, position_not_found, matching_text, ProcessResult, GlobalState, Action, gets,
  or_fail, unwrap, guard, modify, ◌>>=◌, ◌>>◌, update_account, root, commit_account,
  success_receipt,
}

-- The locked margin that is taken, where it is there.
unfoldable pub take_margin : Market → ℕ → Account → Account
unfolding get_balance put_balance Balance.deduct_locked
take_margin m amount a = elim (get_balance a m.quote_asset) [
  | none ↦ a
  | some b ↦ put_balance a m.quote_asset (Balance.deduct_locked b amount).0
]

unfoldable pub pay_bonus : Market → ℕ → Account → Account
unfolding Account.deposit increment_nonce
pay_bonus m bonus a = increment_nonce (Account.deposit a m.quote_asset bonus)

module _ (x : External) where
  unfoldable pub commit_by_id : ℕ → GlobalState → GlobalState
  commit_by_id id s = elim (Map.lookup id s.accounts) [ none ↦ s | some a ↦ commit_account x a s ]

  -- The position at the key is closed at the price, and what is left of it decides the payments.
  unfoldable pub close_position : LiquidateTx → Market → Position → OraclePrice → Action (Unit {0})
  unfolding Position.decrease update_account take_margin pay_bonus
  close_position tx market position oracle_price = do
    timestamp ← gets (λ s. s.system.timestamp)
    closed ← unwrap (Position.decrease position position.size oracle_price.price timestamp)
    modify (λ s. record s {
      positions = Map.insert (tx.liquidatee_account_id, tx.market_id) closed.0 s.positions;
    })
    let liquidation_bonus = closed.0.margin / 10
    modify (
        update_account tx.liquidatee_account_id
          (take_margin market (closed.0.margin - liquidation_bonus)))
    modify (update_account tx.liquidator_account_id (pay_bonus market liquidation_bonus))

  unfoldable pub process_liquidate : LiquidateTx → Action ProcessResult
  unfolding close_position commit_by_id Position.is_liquidatable
  process_liquidate tx = do
    pre_root ← gets (root x)
    let key : ℕ × ℕ = (tx.liquidatee_account_id, tx.market_id)
    position ← or_fail (Map.lookup key (← gets (λ s. s.positions))) position_not_found
    oracle_price ←
        or_fail (Map.lookup tx.market_id (← gets (λ s. s.oracle_prices)))
          (market_not_found tx.market_id)
    market ←
        or_fail (Map.lookup tx.market_id (← gets (λ s. s.markets))) (market_not_found tx.market_id)
    guard (Position.is_liquidatable position oracle_price.price market.maintenance_margin_bps)
        (matching_text "Position not liquidatable")
    close_position tx market position oracle_price
    modify (commit_by_id tx.liquidatee_account_id)
    modify (commit_by_id tx.liquidator_account_id)
    modify (λ s. record s {
      hypertree = Hypertree.remove_position x s.hypertree tx.liquidatee_account_id tx.market_id;
    })
    gets (λ s. record {
      receipt = success_receipt x s;
      witness = record {
        pre_root = pre_root;
        post_root = root x s;
        account_proofs = [];
        order_proofs = [];
        position_proofs =
            (
              (tx.liquidatee_account_id, tx.market_id),
              Hypertree.prove_position x s.hypertree tx.liquidatee_account_id tx.market_id,
            )
            ∷ [];
      };
      match_result = none;
    })

  unfoldable pub process_oracle_update : UpdateOracleTx → Action ProcessResult
  process_oracle_update tx = do
    pre_root ← gets (root x)
    modify (λ s. record s {
      oracle_prices =
          Map.insert tx.market_id
            (record {
              market_id = tx.market_id;
              price = tx.price;
              timestamp = tx.timestamp;
              confidence_bps = tx.confidence_bps;
            })
            s.oracle_prices;
    })
    gets (λ s. record {
      receipt = success_receipt x s;
      witness = record {
        pre_root = pre_root;
        post_root = root x s;
        account_proofs = [];
        order_proofs = [];
        position_proofs = [];
      };
      match_result = none;
    })
