-- ===== src/Da/Files.antt =====
-- The records of the log and the files they are kept in. A log has one file for each batch and each
-- proof and one for its index, named by their kind and number. The operating system may refuse to
-- create a file.
use zk_perp.Prelude.{
  ℕ, Bool, true, false, Option, none, some, List, [], String, ◌==◌, if◌then◌else◌,
}
use zk_perp.Prelude.Result.{Result, ok, err, map_err}
use zk_perp.Types.Transaction.{Transaction}
use zk_perp.Merkle.External.{Bytes}

pub data DaError : Type 0 where
  io_error serialization_error : String → DaError
  batch_not_found proof_not_found : ℕ → DaError
  invalid_batch_sequence : ℕ → ℕ → DaError
  state_root_mismatch : Bytes → Bytes → DaError

pub record Batch : Type 0 where
  pub id : ℕ
  pub transactions : List Transaction
  pub pre_state_root : Bytes
  pub post_state_root : Bytes
  pub timestamp : ℕ
  pub batch_hash : Bytes
  pub tx_count : ℕ

pub record StoredProof : Type 0 where
  pub batch_id : ℕ
  pub receipt_bytes : Bytes
  pub image_id : List ℕ
  pub proof_timestamp : ℕ

pub record DaIndex : Type 0 where
  pub last_batch_id : ℕ
  pub current_state_root : Bytes
  pub total_transactions : ℕ
  pub created_at : ℕ
  pub updated_at : ℕ
  pub proven_batches : List ℕ

-- bincode for batches and proofs, serde_json for the index.
pub record Codec : Type 0 where
  pub encode_batch : Batch → Result String Bytes
  pub decode_batch : Bytes → Result String Batch
  pub encode_proof : StoredProof → Result String Bytes
  pub decode_proof : Bytes → Result String StoredProof
  pub encode_index : DaIndex → Result String Bytes
  pub decode_index : Bytes → Result String DaIndex

pub data FilePath : Type 0 where
  batch_path proof_path : ℕ → FilePath
  index_path : FilePath

abbrev pub path_beq : FilePath → FilePath → Bool
path_beq (batch_path i) (batch_path j) = i == j
path_beq (proof_path i) (proof_path j) = i == j
path_beq index_path index_path = true
path_beq (batch_path i) (proof_path j) = false
path_beq (batch_path i) index_path = false
path_beq (proof_path i) (batch_path j) = false
path_beq (proof_path i) index_path = false
path_beq index_path (batch_path j) = false
path_beq index_path (proof_path j) = false

-- The folder of a log: what each file holds, and the error that creating it gives, if any.
pub record Disk : Type 0 where
  pub contents : FilePath → Option Bytes
  pub refused : FilePath → Option String

abbrev pub write_file : FilePath → Bytes → Disk → Disk
write_file path bytes d = record d {
  contents = λ p. if path_beq path p then some bytes else d.contents p;
}

-- A call that writes files: the folder is as it leaves it, also after an error.
abbrev pub Written : Type 0
Written = Disk × Result DaError (Unit {0})

-- `File::create` empties the file, and the encoding follows.
unfoldable pub save : FilePath → Result String Bytes → Disk → Written
save path encoded d = elim (d.refused path) [
  | some e ↦ (d, err (io_error e))
  | none ↦ elim encoded [
    | err e ↦ (write_file path [] d, err (serialization_error e))
    | ok bytes ↦ (write_file path bytes d, ok tt)
  ]
]

-- Reading a file that may not be there; an existing file opens.
unfoldable pub load :
    {A : Type 0} → (Bytes → Result String A) → FilePath → DaError → Disk → Result DaError A
load decode path missing d = elim (d.contents path) [
  | none ↦ err missing
  | some bytes ↦ map_err serialization_error (decode bytes)
]

module _ (c : Codec) where
  unfoldable pub save_batch : Batch → Disk → Written
  unfolding save
  save_batch batch = save (batch_path batch.id) (c.encode_batch batch)

  unfoldable pub load_batch : ℕ → Disk → Result DaError Batch
  unfolding load
  load_batch id = load c.decode_batch (batch_path id) (batch_not_found id)

  unfoldable pub save_proof : StoredProof → Disk → Written
  unfolding save
  save_proof proof = save (proof_path proof.batch_id) (c.encode_proof proof)

  unfoldable pub load_proof : ℕ → Disk → Result DaError StoredProof
  unfolding load
  load_proof id = load c.decode_proof (proof_path id) (proof_not_found id)

  unfoldable pub save_index_to_path : FilePath → DaIndex → Disk → Written
  unfolding save
  save_index_to_path path index = save path (c.encode_index index)
