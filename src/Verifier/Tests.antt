-- ===== src/Verifier/Tests.antt =====
-- A verifier on the log of one proven batch, with a mock prover.
use zk_perp.Prelude.{
  ◌≡◌, ◌⊎◌, inl, refl, true, false, some, [], ◌∷◌, arith, String, subst, bytes_beq, if◌then◌else◌,
}
use zk_perp.Prelude.Result.{Result, ok, err}
use zk_perp.Merkle.External.{Bytes, zeros}
use zk_perp.Prover.Host.{Zkvm, ProofReceipt}
use zk_perp.Prover.Host
use zk_perp.Da.Files.{
  Batch, StoredProof, save_batch, save_proof, save_index_to_path, load_proof, load_batch,
}
use zk_perp.Da.Log.{append_batch, append_proof, get_proof, is_proven}
use zk_perp.Da.Sample.{sample_codec, empty_log, one_batch, proven_batch, proven_batch-IsChain}
use zk_perp.Verifier.Node.{
  Verifier, VerifierError, mock, new, default_config, set_da, accept, verification,
  verify_batch_data, verify_all_pending,
}
use zk_perp.Verifier.Accepts.{IsChecked, verify_batch_data-IsChecked}
use zk_perp.Verifier.Pending.{Ended, verify_all_pending-Ended}
use zk_perp.Verifier.Ready.{IsReady}
use zk_perp.Verifier.Liveness.{IsCaughtUp, verify_all_pending-IsCaughtUp}

abbrev mock_vm : Zkvm
mock_vm = record {
  mock_feature = true;
  risc0_feature = false;
  write_input = λ i. ok [];
  build_env = λ b. ok b;
  run_guest = λ b. err "no prover";
  journal_bytes = λ b. b;
  decode_journal = λ b. err "no journal";
  serialize_receipt = λ b. ok b;
  deserialize_receipt = λ b. ok b;
  verify_image = λ b. err "no image";
  serialize_output = λ o. ok [];
}

abbrev receipt : ProofReceipt
receipt = record {
  journal = [];
  seal = [];
  output = record {
    pre_state_root = zeros 32;
    post_state_root = 7 ∷ [];
    batch_hash = [];
    tx_count = 0;
  };
}

abbrev decode_sample : Bytes → Result String ProofReceipt
decode_sample b = if bytes_beq b (5 ∷ []) then ok receipt else err "receipt"

abbrev batch : Batch
batch = record {
  id = 1;
  transactions = [];
  pre_state_root = zeros 32;
  post_state_root = 7 ∷ [];
  timestamp = 1;
  batch_hash = [];
  tx_count = 0;
}

abbrev proof : StoredProof
proof = record { batch_id = 1; receipt_bytes = 5 ∷ []; image_id = []; proof_timestamp = 3 }

unfoldable node : Verifier
unfolding mock set_da new default_config Host.mock Host.new
node = set_da (mock mock_vm) proven_batch

connected : node.da ≡ some proven_batch
unfolding node set_da mock
connected = refl

verify_batch_data-IsChecked_example :
    ((r : ProofReceipt) × IsChecked mock_vm decode_sample node batch proof r
      × (verify_batch_data mock_vm decode_sample node batch proof 6
          ≡ (accept node batch, ok (verification batch 6))))
    ⊎ ((e : VerifierError) × (verify_batch_data mock_vm decode_sample node batch proof 6
          ≡ (node, err e)))
verify_batch_data-IsChecked_example =
    verify_batch_data-IsChecked mock_vm decode_sample node batch proof 6

last_is_one : proven_batch.index.last_batch_id ≡ 1
unfolding proven_batch append_proof one_batch append_batch empty_log save_batch save_proof
    save_index_to_path
last_is_one = refl

verify_all_pending-Ended_example :
    Ended node (verify_all_pending mock_vm decode_sample sample_codec (λ n. n) node)
unfolding node mock set_da new
verify_all_pending-Ended_example =
    verify_all_pending-Ended mock_vm decode_sample sample_codec (λ n. n) node proven_batch connected
      proven_batch-IsChain (ground (arith, last_is_one)) (ground arith)

batch-IsReady : IsReady mock_vm decode_sample sample_codec node.prover proven_batch 1
unfolding node mock set_da new proven_batch append_proof one_batch append_batch empty_log save_batch
    save_proof save_index_to_path load_proof load_batch get_proof is_proven Host.verify Host.mock
batch-IsReady = record {
  batch = batch;
  proof = proof;
  receipt = receipt;
  loaded = refl;
  proven = refl;
  found = refl;
  decoded = refl;
  same_pre_root = refl;
  same_post_root = refl;
  same_count = refl;
  proved = refl;
}

verify_all_pending-IsCaughtUp_example :
    IsCaughtUp proven_batch (verify_all_pending mock_vm decode_sample sample_codec (λ n. n) node)
unfolding node mock set_da new
verify_all_pending-IsCaughtUp_example =
    verify_all_pending-IsCaughtUp mock_vm decode_sample sample_codec (λ n. n) node proven_batch
      connected proven_batch-IsChain (ground (arith, last_is_one)) (inl refl)
      (ground (arith, last_is_one))
      (λ j after most.
        subst (IsReady mock_vm decode_sample sample_codec node.prover proven_batch)
          (ground (arith, last_is_one, after, most)) batch-IsReady)
