-- ===== src/Sequencer/Tests.antt =====
-- A sequencer over an empty log with one pending deposit.
use zk_perp.Prelude.{
  ◌≡◌, ◌⊎◌, refl, true, false, some, [], ◌∷◌, arith, nat_eq, bytes_beq, if◌then◌else◌,
}
use zk_perp.Prelude.Map
use zk_perp.Prelude.Result
use zk_perp.Types.Transaction.{deposit, SignedTransaction, signer}
use zk_perp.Merkle.External.{Bytes, External, zeros}
use zk_perp.State.Global.{root}
use zk_perp.Crypto.Keys.{Curve, verify_transaction}
use zk_perp.Da.Files.{save_batch, save_proof, save_index_to_path}
use zk_perp.Da.Log.{append_batch, append_proof}
use zk_perp.Da.Sample.{sample_codec, sample_codec-ReadsBack, empty_log, empty_log-IsChain}
use zk_perp.Prover.Host.{Zkvm, prove_mock, mock_batch_hash, prove}
use zk_perp.Prover.Host
use zk_perp.Sequencer.Node.{Sequencer, BatchResult, SequencerError, default_config, start, ok, err}
use zk_perp.Sequencer.Batches.{
  Clock, process_batch, seal_batch, finish_batch, store_batch, generate_batch_proof, store_receipt,
  count_batch, compute_batch_hash, pre_root_of,
}
use zk_perp.Sequencer.Submit.{submit_transaction, run_transaction}
use zk_perp.Sequencer.Chain.{IsSealed, process_batch-IsSealed}
use zk_perp.Sequencer.Mempool.{IsBounded, Emptied, process_batch-Emptied}
use zk_perp.Sequencer.Authority.{submit_transaction-verify_transaction}
use zk_perp.Sequencer.Pending.{submit_transaction-IsBounded}

abbrev stand_in : External
stand_in = record {
  sha256 = λ b. zeros 32;
  serialize_account = λ a. some [];
  serialize_order = λ o. some [];
  serialize_position = λ p. some [];
  serialize_transaction = λ t. Result.ok (1 ∷ 2 ∷ []);
}

abbrev mock_vm : Zkvm
mock_vm = record {
  mock_feature = true;
  risc0_feature = false;
  write_input = λ i. Result.ok [];
  build_env = λ b. Result.ok b;
  run_guest = λ b. Result.err "no prover";
  journal_bytes = λ b. b;
  decode_journal = λ b. Result.err "no journal";
  serialize_receipt = λ b. Result.ok b;
  deserialize_receipt = λ b. Result.ok b;
  verify_image = λ b. Result.err "no image";
  serialize_output = λ o. Result.ok [];
}

abbrev toy_curve : Curve
toy_curve = record {
  verifying_key = λ k. k;
  sign = λ k m. zeros 64;
  parse_key = λ k. Result.ok tt;
  verify = λ k m s. if bytes_beq s (zeros 64) then Result.ok tt else Result.err "signature";
}

abbrev signed_tx : SignedTransaction
signed_tx = record {
  tx = deposit (record { account_id = 1; asset_id = 0; amount = 5; nonce = 1 });
  signature = zeros 64;
}

abbrev clock : Clock
clock = record { batch_at = 1; batch_indexed_at = 2; proof_at = 3; proof_indexed_at = 4 }

unfoldable node : Sequencer
unfolding start default_config empty_log
node = record (start mock_vm stand_in default_config empty_log 0 0) {
  pending_txs = record { signed_tx = signed_tx; received_at = 0 } ∷ [];
  account_keys = (1, zeros 32) ∷ [];
}

abbrev result : BatchResult
unfolding root node
result = record {
  batch_id = 1;
  tx_count = 1;
  pre_root = zeros 32;
  post_root = root stand_in node.state;
  proof_generated = true;
}

processed : (process_batch stand_in mock_vm sample_codec clock node).1 ≡ ok (some result)
unfolding process_batch seal_batch finish_batch store_batch generate_batch_proof store_receipt
    count_batch compute_batch_hash pre_root_of append_batch append_proof save_batch save_proof
    save_index_to_path Host.prove prove_mock Host.mock node result start default_config empty_log
processed = refl

process_batch-IsSealed_example :
    IsSealed stand_in mock_vm sample_codec clock node.pending_txs node
      (process_batch stand_in mock_vm sample_codec clock node).0
      result
unfolding node start empty_log
process_batch-IsSealed_example =
    process_batch-IsSealed stand_in mock_vm sample_codec clock node result sample_codec-ReadsBack
      empty_log-IsChain (ground arith) processed

process_batch-Emptied_example :
    Emptied node.config node.state (process_batch stand_in mock_vm sample_codec clock node).0
process_batch-Emptied_example = process_batch-Emptied stand_in mock_vm sample_codec clock node

submit_transaction-verify_transaction_example :
    ((key : Bytes) × (Map.lookup (signer signed_tx.tx) node.account_keys ≡ some key)
      × (verify_transaction toy_curve stand_in signed_tx key ≡ Result.ok true)
      × (submit_transaction stand_in toy_curve mock_vm sample_codec clock signed_tx 9 node
          ≡ run_transaction stand_in toy_curve mock_vm sample_codec clock signed_tx 9 node))
    ⊎ ((e : SequencerError) × (submit_transaction stand_in toy_curve mock_vm sample_codec clock
            signed_tx 9 node
          ≡ (node, err e)))
unfolding node start default_config
submit_transaction-verify_transaction_example =
    submit_transaction-verify_transaction stand_in toy_curve mock_vm sample_codec clock signed_tx 9
      node refl

submit_transaction-IsBounded_example :
    IsBounded (submit_transaction stand_in toy_curve mock_vm sample_codec clock signed_tx 9 node).0
unfolding node start default_config
submit_transaction-IsBounded_example =
    submit_transaction-IsBounded stand_in toy_curve mock_vm sample_codec clock signed_tx 9 node
      (ground arith)
