-- ===== src/Verifier/Node.antt =====
-- The state of a verifier and its calls. bincode on a receipt is a parameter; the clock is an argument
-- of each call that reads it. The texts of a mismatch are kept as the two values that they print.
use zk_perp.Prelude.{
  ℕ, zero, suc, ◌-◌, Bool, true, not, ◌&&◌, Option, none, some, List, [], ◌∷◌, String, length, ltb,
  ◌==◌, if◌then◌else◌, bytes_beq,
}
use zk_perp.Prelude.Words.{add_u64}
use zk_perp.Prelude.Result.{Result, ok, err, ◌>>=◌, ◌>>◌, map_err}
use zk_perp.Merkle.External.{Bytes, zero_hash}
use zk_perp.Prover.Host.{Zkvm, Prover, ProofReceipt, ProverError}
use zk_perp.Prover.Host
use zk_perp.Da.Files.{DaError, Batch, StoredProof, Codec, Disk}
use zk_perp.Da.Files
use zk_perp.Da.Log
use zk_perp.Da.Log.{AppendLog, contains_id, is_proven, get_batch, get_proof}

pub data Mismatch : Type 0 where
  pre_state_root post_state_root : Bytes → Bytes → Mismatch
  tx_count : ℕ → ℕ → Mismatch

pub data VerifierError : Type 0 where
  da_error : DaError → VerifierError
  prover_error : ProverError → VerifierError
  batch_not_found proof_not_found : ℕ → VerifierError
  state_root_mismatch : ℕ → Bytes → Bytes → VerifierError
  proof_verification_failed : ℕ → VerifierError
  receipt_mismatch : ℕ → Mismatch → VerifierError
  serialization_error : String → VerifierError

pub record BatchVerification : Type 0 where
  pub batch_id : ℕ
  pub verified : Bool
  pub pre_state_root : Bytes
  pub post_state_root : Bytes
  pub tx_count : ℕ
  pub verified_at : Option ℕ
  pub error : Option String

pub record VerifierStats : Type 0 where
  pub total_batches : ℕ
  pub verified_batches : ℕ
  pub verified_state_root : Bytes
  pub last_verified_batch : ℕ
  pub pending_verification : ℕ
  pub use_mock_verifier : Bool

pub record VerifierConfig : Type 0 where
  pub data_dir : String
  pub use_mock_verifier : Bool
  pub port : ℕ

unfoldable pub default_config : VerifierConfig
default_config = record { data_dir = "./data"; use_mock_verifier = true; port = 8081 }

pub record Verifier : Type 0 where
  pub config : VerifierConfig
  pub verified_root : Bytes
  pub last_verified_batch : ℕ
  pub verified_batches : List ℕ
  pub prover : Prover
  pub da : Option AppendLog

-- The verifier after a call, and what the call returns.
abbrev pub Called : Type 0 → Type 0
Called A = Verifier × Result VerifierError A

unfoldable pub new : Zkvm → VerifierConfig → Verifier
unfolding Host.mock Host.new
new z config = record {
  config = config;
  verified_root = zero_hash;
  last_verified_batch = 0;
  verified_batches = [];
  prover = if config.use_mock_verifier then Host.mock else Host.new z;
  da = none;
}

unfoldable pub mock : Zkvm → Verifier
unfolding new default_config
mock z = new z (record default_config { use_mock_verifier = true })

unfoldable pub set_da : Verifier → AppendLog → Verifier
set_da v log = record v { da = some log }

-- The folder of the verifier, as the log leaves it, stands beside the verifier.
unfoldable pub connect_da :
    Codec → Result String (Unit {0}) → ℕ → ℕ → Disk → Verifier → Disk × Called (Unit {0})
unfolding set_da Log.new
connect_da c made now later disk v =
    let (disk', opened) = Log.new c made now later disk in
    (disk', elim opened [ err e ↦ (v, err (da_error e)) | ok log ↦ (set_da v log, ok tt) ])

unfoldable pub is_verified : Verifier → ℕ → Bool
unfolding contains_id
is_verified v batch_id = contains_id batch_id v.verified_batches

-- An early return with an error.
abbrev pub refuse_if : Bool → VerifierError → Result VerifierError (Unit {0})
refuse_if test e = if test then err e else ok tt

-- The insertion of a set.
unfoldable pub insert_once : ℕ → List ℕ → List ℕ
unfolding contains_id
insert_once id ids = if contains_id id ids then ids else id ∷ ids

-- The state after a batch that is verified.
unfoldable pub accept : Verifier → Batch → Verifier
unfolding insert_once
accept v batch = record v {
  verified_root = batch.post_state_root;
  last_verified_batch = batch.id;
  verified_batches = insert_once batch.id v.verified_batches;
}

-- A batch without a proof ends the loop over the batches, every other error fails it.
abbrev pub stop : VerifierError → Result VerifierError (List BatchVerification)
stop (proof_not_found id) = ok []
stop (da_error e) = err (da_error e)
stop (prover_error e) = err (prover_error e)
stop (batch_not_found id) = err (batch_not_found id)
stop (state_root_mismatch id expected got) = err (state_root_mismatch id expected got)
stop (proof_verification_failed id) = err (proof_verification_failed id)
stop (receipt_mismatch id details) = err (receipt_mismatch id details)
stop (serialization_error e) = err (serialization_error e)

-- The answer on a verified batch.
abbrev pub verification : Batch → ℕ → BatchVerification
verification batch now = record {
  batch_id = batch.id;
  verified = true;
  pre_state_root = batch.pre_state_root;
  post_state_root = batch.post_state_root;
  tx_count = batch.tx_count;
  verified_at = some now;
  error = none;
}

module _ (z : Zkvm) (decode_receipt : Bytes → Result String ProofReceipt) where
  -- The receipt of the proof, where all checks pass.
  unfoldable pub check_batch : Verifier → Batch → StoredProof → Result VerifierError ProofReceipt
  unfolding Host.verify
  check_batch v batch proof = do
    refuse_if (ltb 0 v.last_verified_batch && not (bytes_beq batch.pre_state_root v.verified_root))
        (state_root_mismatch batch.id v.verified_root batch.pre_state_root)
    receipt ← map_err serialization_error (decode_receipt proof.receipt_bytes)
    let output = receipt.output
    refuse_if (not (bytes_beq output.pre_state_root batch.pre_state_root))
        (receipt_mismatch batch.id (pre_state_root output.pre_state_root batch.pre_state_root))
    refuse_if (not (bytes_beq output.post_state_root batch.post_state_root))
        (receipt_mismatch batch.id (post_state_root output.post_state_root batch.post_state_root))
    refuse_if (not (output.tx_count == batch.tx_count))
        (receipt_mismatch batch.id (tx_count output.tx_count batch.tx_count))
    map_err (λ _. proof_verification_failed batch.id) (Host.verify z v.prover receipt)
    ok receipt

  unfoldable pub verify_batch_data : Verifier → Batch → StoredProof → ℕ → Called BatchVerification
  unfolding check_batch accept
  verify_batch_data v batch proof now = elim (check_batch v batch proof) [
    | err e ↦ (v, err e)
    | ok _ ↦ (accept v batch, ok (verification batch now))
  ]

  module _ (c : Codec) where
    -- The proof of a batch that was found.
    unfoldable pub verify_found :
        Verifier → AppendLog → ℕ → Batch → ℕ → Called (Option BatchVerification)
    unfolding is_proven get_proof verify_batch_data
    verify_found v log id batch now =
        if not (is_proven log id)
        then (v, err (proof_not_found id))
        else (elim (get_proof c log id) [
          | err e ↦ (v, err (da_error e))
          | ok proof ↦
              let (v', verified) = verify_batch_data v batch proof now in
              (v', elim verified [ err e ↦ err e | ok r ↦ ok (some r) ])
        ])

    -- A batch of the log, which keeps it in its cache.
    unfoldable pub verify_at : Verifier → AppendLog → ℕ → ℕ → Called (Option BatchVerification)
    unfolding get_batch verify_found
    verify_at v log id now =
        let (log1, got) = get_batch c log id in
        let v1 : Verifier = record v { da = some log1 } in
        elim got [ err e ↦ (v1, err (da_error e)) | ok batch ↦ verify_found v1 log1 id batch now ]

    -- The next batch of the log, if there is one.
    unfoldable pub verify_from : Verifier → AppendLog → ℕ → Called (Option BatchVerification)
    unfolding verify_at
    verify_from v log now =
        let id = add_u64 v.last_verified_batch 1 in
        if ltb log.index.last_batch_id id then (v, ok none) else verify_at v log id now

    unfoldable pub verify_next : Verifier → ℕ → Called (Option BatchVerification)
    unfolding verify_from
    verify_next v now = elim v.da [
      | none ↦ (v, err (da_error (Files.batch_not_found 0)))
      | some log ↦ verify_from v log now
    ]

    -- The loop, on so many rounds, with what it has verified so far; nothing is returned where the
    -- rounds run out. The clock tells the time of each round.
    unfoldable pub verify_rounds :
        ℕ → (ℕ → ℕ) → Verifier → Verifier × Option (Result VerifierError (List BatchVerification))
    unfolding verify_next
    verify_rounds zero clock v = (v, none)
    verify_rounds (suc rounds) clock v =
        let (v1, next) = verify_next v (clock rounds) in
        elim next [
          | ok none ↦ (v1, some (ok []))
          | ok (some r) ↦
              let (v2, results) = verify_rounds rounds clock v1 in
              (
                v2,
                elim results [
                  | none ↦ none
                  | some (err e) ↦ some (err e)
                  | some (ok rs) ↦ some (ok (r ∷ rs))
                ],
              )
          | err e ↦ (v1, some (stop e))
        ]

    -- One round for each batch of the log and one to stop.
    unfoldable pub verify_all_pending :
        (ℕ → ℕ) → Verifier → Verifier × Option (Result VerifierError (List BatchVerification))
    unfolding verify_rounds
    verify_all_pending clock v = elim v.da [
      | none ↦ verify_rounds 1 clock v
      | some log ↦ verify_rounds (suc (log.index.last_batch_id - v.last_verified_batch)) clock v
    ]

    unfoldable pub get_batch_status : Verifier → ℕ → Called BatchVerification
    unfolding get_batch contains_id
    get_batch_status v batch_id = elim v.da [
      | none ↦ (v, err (da_error (Files.batch_not_found batch_id)))
      | some log ↦
          let (log1, got) = get_batch c log batch_id in
          let v1 : Verifier = record v { da = some log1 } in
          let verified = contains_id batch_id v.verified_batches in
          (
            v1,
            elim got [
              | err e ↦ err (da_error e)
              | ok batch ↦ ok (record {
                batch_id = batch_id;
                verified = verified;
                pre_state_root = batch.pre_state_root;
                post_state_root = batch.post_state_root;
                tx_count = batch.tx_count;
                verified_at = if verified then some batch.timestamp else none;
                error = none;
              })
            ],
          )
    ]

unfoldable pub stats : Verifier → VerifierStats
unfolding Log.stats
stats v =
    let total : ℕ = elim v.da [ none ↦ 0 | some log ↦ log.index.last_batch_id ] in
    let proven : ℕ = elim v.da [ none ↦ 0 | some log ↦ (Log.stats log).proven_batches ] in
    record {
      total_batches = total;
      verified_batches = length v.verified_batches;
      verified_state_root = v.verified_root;
      last_verified_batch = v.last_verified_batch;
      pending_verification = proven - length v.verified_batches;
      use_mock_verifier = v.config.use_mock_verifier;
    }
