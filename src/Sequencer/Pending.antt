-- ===== src/Sequencer/Pending.antt =====
-- How many transactions are pending after `submit_transaction`.
use zk_perp.Prelude.{
  ℕ, ◌<◌, ◌≡◌, refl, subst, sym, ◌∙◌, inl, inr, [], ◌∷◌, ◌++◌, arith, Option-cases, if◌then◌else◌,
  if_both, nat_eq,
}
use zk_perp.Types.Transaction.{
  Transaction, deposit, withdraw, place_order, cancel_order, liquidate, update_oracle,
  SignedTransaction, TransactionReceipt,
}
use zk_perp.Merkle.External.{External}
use zk_perp.State.Global.{get_account}
use zk_perp.Crypto.Keys.{Curve}
use zk_perp.Da.Files.{Codec}
use zk_perp.Prover.Host.{Zkvm}
use zk_perp.Sequencer.Node.{Sequencer, Outcome, Step, ◌>>◌, pure}
use zk_perp.Sequencer.Batches.{Clock}
use zk_perp.Sequencer.Submit.{
  require_account, validate_transaction, count_transaction, execute_transaction, verify_signature,
  queue_transaction, report_transaction, admit_transaction, run_valid, run_transaction,
  submit_transaction,
}
use zk_perp.Sequencer.Mempool.{>>=-keeps, IsBounded, maybe_trigger_batch-IsBounded}
use zk_perp.Sequencer.Authority.{verify_signature-cases}

-- Checking that an account is there changes nothing.
require_account-same : (id : ℕ) (s : Sequencer) → (require_account id s).0 ≡ s
unfolding require_account
require_account-same id s = elim (Option-cases (get_account s.state id)) [
  | inl missing ↦ rw (require_account, missing) refl
  | inr (a, found) ↦ rw (require_account, found) refl
]

-- Validation changes nothing.
validate_transaction-same : (tx : Transaction) (s : Sequencer) → (validate_transaction tx s).0 ≡ s
unfolding validate_transaction
validate_transaction-same (deposit tx) s = require_account-same tx.account_id s
validate_transaction-same (withdraw tx) s =
    elim (Option-cases (get_account s.state tx.account_id)) [
      | inl missing ↦ rw (validate_transaction, missing) refl
      | inr (a, found) ↦ rw (validate_transaction, found) refl
    ]
validate_transaction-same (place_order tx) s = require_account-same tx.account_id s
validate_transaction-same (cancel_order tx) s = require_account-same tx.account_id s
validate_transaction-same (liquidate tx) s =
    >>=-keeps (λ t. t ≡ s) (require_account tx.liquidator_account_id)
      (λ u. require_account tx.liquidatee_account_id) s
      (require_account-same tx.liquidator_account_id s)
      (λ u t same. require_account-same tx.liquidatee_account_id t ∙ same)
validate_transaction-same (update_oracle tx) s = refl

module _ (x : External) (curve : Curve) (z : Zkvm) (c : Codec) (clock : Clock) where
  queue_transaction-IsBounded :
      (signed_tx : SignedTransaction) (received_at : ℕ) (s : Sequencer)
      → 0 < s.config.max_batch_size
      → IsBounded (queue_transaction x curve z c clock signed_tx received_at s).0
  unfolding queue_transaction
  queue_transaction-IsBounded signed_tx received_at s room =
      maybe_trigger_batch-IsBounded x z c clock
        (record s {
          pending_txs =
              s.pending_txs ++ record { signed_tx = signed_tx; received_at = received_at } ∷ [];
        })
        room

  admit_transaction-IsBounded :
      (signed_tx : SignedTransaction) (received_at : ℕ) (receipt : TransactionReceipt)
      (s : Sequencer)
      → IsBounded s
      → IsBounded (admit_transaction x curve z c clock signed_tx received_at receipt s).0
  unfolding admit_transaction count_transaction
  admit_transaction-IsBounded signed_tx received_at receipt s bounded =
      let queue : Step (Unit {0}) = queue_transaction x curve z c clock signed_tx received_at in
      let queued : IsBounded ((if receipt.success then queue else pure tt) s).0 =
        if_both (λ (m : Step (Unit {0})). IsBounded (m s).0) receipt.success queue (pure tt)
          (queue_transaction-IsBounded signed_tx received_at s (ground arith)) bounded in
      >>=-keeps IsBounded (if receipt.success then queue else pure tt)
        (report_transaction x curve z c clock receipt) s queued (λ u t kept. kept)

  run_valid-IsBounded :
      (signed_tx : SignedTransaction) (received_at : ℕ) (u : Unit {0}) (s : Sequencer)
      → IsBounded s
      → IsBounded (run_valid x curve z c clock signed_tx received_at u s).0
  unfolding run_valid execute_transaction
  run_valid-IsBounded signed_tx received_at u s bounded =
      >>=-keeps IsBounded (execute_transaction x signed_tx.tx)
        (admit_transaction x curve z c clock signed_tx received_at) s bounded
        (λ receipt t kept. admit_transaction-IsBounded signed_tx received_at receipt t kept)

  run_transaction-IsBounded :
      (signed_tx : SignedTransaction) (received_at : ℕ) (s : Sequencer)
      → IsBounded s
      → IsBounded (run_transaction x curve z c clock signed_tx received_at s).0
  unfolding run_transaction
  run_transaction-IsBounded signed_tx received_at s bounded =
      >>=-keeps IsBounded (validate_transaction signed_tx.tx)
        (run_valid x curve z c clock signed_tx received_at) s
        (subst IsBounded (sym (validate_transaction-same signed_tx.tx s)) bounded)
        (λ u t kept. run_valid-IsBounded signed_tx received_at u t kept)

  -- Submitting keeps fewer transactions pending than make a batch, whether the transaction is run,
  -- refused, or completes a batch that fails.
  pub submit_transaction-IsBounded :
      (signed_tx : SignedTransaction) (received_at : ℕ) (s : Sequencer)
      → IsBounded s
      → IsBounded (submit_transaction x curve z c clock signed_tx received_at s).0
  unfolding submit_transaction
  submit_transaction-IsBounded signed_tx received_at s bounded =
      let run : Step TransactionReceipt = run_transaction x curve z c clock signed_tx received_at in
      let kept : IsBounded (verify_signature x curve signed_tx s).0 =
        elim (verify_signature-cases x curve signed_tx s) [
          | inl (key, found, valid, same) ↦ rw same bounded
          | inr (e, same) ↦ rw same bounded
        ] in
      let check : Step (Unit {0}) = verify_signature x curve signed_tx in
      if_both (λ (p : Sequencer × Outcome TransactionReceipt). IsBounded p.0)
        s.config.verify_signatures ((check >> run) s) (run s)
        (>>=-keeps IsBounded check (λ u. run) s kept
          (λ u t kept'. run_transaction-IsBounded signed_tx received_at t kept'))
        (run_transaction-IsBounded signed_tx received_at s bounded)
