-- ===== src/Sequencer/Submit.antt =====
-- Submitting a transaction, and the prices of the oracle.
use zk_perp.Prelude.{ℕ, Bool, none, some, List, [], ◌∷◌, ◌++◌, ltb, if◌then◌else◌, nat_eq}
use zk_perp.Prelude.Words.{add_u64}
use zk_perp.Prelude.Map
use zk_perp.Prelude.Result
use zk_perp.Types.Account.{free_balance}
use zk_perp.Types.Market.{OraclePrice}
use zk_perp.Types.Transaction.{
  Transaction, deposit, withdraw, place_order, cancel_order, liquidate, update_oracle,
  SignedTransaction, TransactionReceipt, signer,
}
use zk_perp.Merkle.External.{External}
use zk_perp.State.Global
use zk_perp.State.Global.{GlobalState, get_account}
use zk_perp.State.Process.{process_transaction}
use zk_perp.Crypto.Keys.{Curve, verify_transaction}
use zk_perp.Da.Files.{Codec}
use zk_perp.Prover.Host.{Zkvm}
use zk_perp.Oracle.Sources.{values}
use zk_perp.Sequencer.Node.{
  Sequencer, account_not_found, invalid_signature, invalid_signature_text, insufficient_balance,
  execution_error, ok, err, panic, Step, pure, ◌>>=◌, ◌>>◌, modify,
}
use zk_perp.Sequencer.Batches.{Clock, maybe_trigger_batch}

-- The account is there, or the transaction is refused.
unfoldable pub require_account : ℕ → Step (Unit {0})
unfolding get_account
require_account id s = elim (get_account s.state id) [
  | none ↦ (s, err (account_not_found id))
  | some _ ↦ (s, ok tt)
]

unfoldable pub validate_transaction : Transaction → Step (Unit {0})
unfolding require_account get_account free_balance
validate_transaction (deposit tx) = require_account tx.account_id
validate_transaction (withdraw tx) = λ s. elim (get_account s.state tx.account_id) [
  | none ↦ (s, err (account_not_found tx.account_id))
  | some account ↦ (
    s,
    if ltb (free_balance account tx.asset_id) tx.amount then err insufficient_balance else ok tt,
  )
]
validate_transaction (place_order tx) = require_account tx.account_id
validate_transaction (cancel_order tx) = require_account tx.account_id
validate_transaction (liquidate tx) =
    require_account tx.liquidator_account_id >> require_account tx.liquidatee_account_id
validate_transaction (update_oracle tx) = pure tt

-- The statistics after a transaction.
unfoldable pub count_transaction : Bool → Sequencer → Sequencer
count_transaction succeeded s = record s {
  stats = record (s.stats) {
    total_transactions = add_u64 s.stats.total_transactions 1;
    failed_transactions =
        if succeeded then s.stats.failed_transactions else add_u64 s.stats.failed_transactions 1;
  };
}

module _ (x : External) where
  unfoldable pub execute_transaction : Transaction → Step TransactionReceipt
  unfolding process_transaction
  execute_transaction tx s =
      let (outcome, state) = process_transaction x tx s.state in
      (
        record s { state = state },
        elim outcome [
          | Global.ok result ↦ ok result.receipt
          | Global.err e ↦ err (execution_error e)
          | Global.panic ↦ panic
        ],
      )

  -- The loop over the prices of the oracle; a failure is ignored.
  unfoldable pub update_prices : List OraclePrice → Sequencer → Sequencer
  unfolding execute_transaction
  update_prices [] s = s
  update_prices (p ∷ ps) s =
      let tx = update_oracle (record {
        market_id = p.market_id;
        price = p.price;
        timestamp = p.timestamp;
        confidence_bps = 100;
        nonce = 0;
      }) in
      update_prices ps (execute_transaction tx s).0

  unfoldable pub update_oracle_prices : Sequencer → Sequencer
  unfolding update_prices
  update_oracle_prices s = update_prices (values s.oracle.prices) s

  module _ (curve : Curve) where
    unfoldable pub verify_signature : SignedTransaction → Step (Unit {0})
    unfolding verify_transaction signer
    verify_signature signed_tx s = elim (Map.lookup (signer signed_tx.tx) s.account_keys) [
      | none ↦ (s, err (account_not_found (signer signed_tx.tx)))
      | some public_key ↦ (
        s,
        elim (verify_transaction curve x signed_tx public_key) [
          | Result.err e ↦ err (invalid_signature e)
          | Result.ok is_valid ↦
              if is_valid
              then ok tt
              else err (invalid_signature_text "Signature verification failed")
        ],
      )
    ]

    module _ (z : Zkvm) (c : Codec) (clock : Clock) where
      -- The transaction joins the pending ones, which may trigger a batch.
      unfoldable pub queue_transaction : SignedTransaction → ℕ → Step (Unit {0})
      unfolding maybe_trigger_batch
      queue_transaction signed_tx received_at = do
        modify (λ s. record s {
          pending_txs =
              s.pending_txs ++ record { signed_tx = signed_tx; received_at = received_at } ∷ [];
        })
        maybe_trigger_batch x z c clock

      -- The statistics and the receipt.
      abbrev pub report_transaction : TransactionReceipt → Unit {0} → Step TransactionReceipt
      report_transaction receipt u s = (count_transaction receipt.success s, ok receipt)

      -- What follows the execution.
      unfoldable pub admit_transaction :
          SignedTransaction → ℕ → TransactionReceipt → Step TransactionReceipt
      admit_transaction signed_tx received_at receipt =
          (if receipt.success then queue_transaction signed_tx received_at else pure tt)
          >>= report_transaction receipt

      -- What follows the validation.
      unfoldable pub run_valid : SignedTransaction → ℕ → Unit {0} → Step TransactionReceipt
      run_valid signed_tx received_at u =
          execute_transaction signed_tx.tx >>= admit_transaction signed_tx received_at

      -- What follows the signature check.
      unfoldable pub run_transaction : SignedTransaction → ℕ → Step TransactionReceipt
      run_transaction signed_tx received_at =
          validate_transaction signed_tx.tx >>= run_valid signed_tx received_at

      unfoldable pub submit_transaction : SignedTransaction → ℕ → Step TransactionReceipt
      unfolding verify_signature run_transaction
      submit_transaction signed_tx received_at s =
          if s.config.verify_signatures
          then (verify_signature signed_tx >> run_transaction signed_tx received_at) s
          else run_transaction signed_tx received_at s
