-- ===== src/Prover/Host.antt =====
-- The host: host/src/lib.rs. The proving system of the risc0 crates is a parameter, with the features
-- that the build was given.
use zk_perp.Prelude.{Bool, true, ◌||◌, not, List, [], ◌∷◌, String, length, if◌then◌else◌}
use zk_perp.Prelude.Words.{u32}
use zk_perp.Prelude.Result.{Result, ok, ◌>>=◌, ◌>>◌, map_err}
use zk_perp.Types.Transaction.{Transaction}
use zk_perp.Merkle.External.{Bytes, External, zero_hash, hash, hash_pair}
use zk_perp.Prover.Batch.{BatchInput, BatchOutput}

pub data ProverError : Type 0 where
  serialization_error execution_error proving_error invalid_output : String → ProverError

pub record ProofReceipt : Type 0 where
  pub journal : Bytes
  pub seal : Bytes
  pub output : BatchOutput

-- An environment and a receipt of the proving system are seen through these calls alone, and stand
-- for themselves as bytes.
pub record Zkvm : Type 0 where
  -- The features `mock` and `risc0` of the build.
  pub mock_feature : Bool
  pub risc0_feature : Bool
  pub write_input : BatchInput → Result String Bytes
  pub build_env : Bytes → Result String Bytes
  pub run_guest : Bytes → Result String Bytes
  pub journal_bytes : Bytes → Bytes
  pub decode_journal : Bytes → Result String BatchOutput
  pub serialize_receipt : Bytes → Result String Bytes
  pub deserialize_receipt : Bytes → Result String Bytes
  pub verify_image : Bytes → Result String (Unit {0})
  -- bincode on a journal.
  pub serialize_output : BatchOutput → Result String Bytes

pub record Prover : Type 0 where
  pub use_mock : Bool

unfoldable pub mock : Prover
mock = record { use_mock = true }

unfoldable pub new : Zkvm → Prover
new z = record { use_mock = z.mock_feature }

module _ (x : External) where
  -- The loop over the transactions.
  unfoldable pub mock_batch_hash : Bytes → List Transaction → Result ProverError Bytes
  mock_batch_hash batch_hash [] = ok batch_hash
  mock_batch_hash batch_hash (tx ∷ txs) = do
    tx_bytes ← map_err serialization_error (x.serialize_transaction tx)
    mock_batch_hash (hash_pair x batch_hash (hash x tx_bytes)) txs

  module _ (z : Zkvm) where
    unfoldable pub prove_mock : Prover → BatchInput → Result ProverError ProofReceipt
    unfolding mock_batch_hash
    prove_mock p input = do
      batch_hash ← mock_batch_hash zero_hash input.transactions
      let output : BatchOutput = record {
        pre_state_root = input.pre_state_root;
        post_state_root = input.post_state_root;
        batch_hash = batch_hash;
        tx_count = u32 (length input.transactions);
      }
      journal ← map_err serialization_error (z.serialize_output output)
      ok (record { journal = journal; seal = []; output = output })

    unfoldable pub prove_real : Prover → BatchInput → Result ProverError ProofReceipt
    prove_real p input = do
      written ← map_err serialization_error (z.write_input input)
      env ← map_err execution_error (z.build_env written)
      receipt ← map_err proving_error (z.run_guest env)
      output ← map_err invalid_output (z.decode_journal (z.journal_bytes receipt))
      seal ← map_err serialization_error (z.serialize_receipt receipt)
      ok (record { journal = z.journal_bytes receipt; seal = seal; output = output })

    unfoldable pub prove : Prover → BatchInput → Result ProverError ProofReceipt
    unfolding prove_mock prove_real
    prove p input =
        if p.use_mock || not z.risc0_feature then prove_mock p input else prove_real p input

module _ (z : Zkvm) where
  unfoldable pub verify_seal : Bytes → Result ProverError Bool
  verify_seal seal = do
    receipt ← map_err invalid_output (z.deserialize_receipt seal)
    map_err proving_error (z.verify_image receipt)
    ok true

  unfoldable pub verify : Prover → ProofReceipt → Result ProverError Bool
  unfolding verify_seal
  verify p receipt = if p.use_mock || not z.risc0_feature then ok true else verify_seal receipt.seal
