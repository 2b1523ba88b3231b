-- ===== src/Prover/Batch.antt =====
-- The types between the host and the guest: crates/core/src/batch.rs.
use zk_perp.Prelude.{ℕ, Option, none, List, []}
use zk_perp.Types.Account.{Account}
use zk_perp.Types.Order.{Order}
use zk_perp.Types.Position.{Position}
use zk_perp.Types.Transaction.{Transaction}
use zk_perp.Merkle.External.{Bytes}
use zk_perp.Merkle.Tree.{MerkleProof}

pub record AccountWitness : Type 0 where
  pub account : Account
  pub proof : MerkleProof

pub record OrderWitness : Type 0 where
  pub order : Order
  pub proof : MerkleProof

pub record PositionWitness : Type 0 where
  pub position : Position
  pub proof : MerkleProof

pub record TransactionWitness : Type 0 where
  pub account_proof_before : Option AccountWitness
  pub account_proof_after : Option AccountWitness
  pub order_proofs : List OrderWitness
  pub position_proof_before : Option PositionWitness
  pub position_proof_after : Option PositionWitness

-- The derived default: no witness at all.
unfoldable pub no_witness : TransactionWitness
no_witness = record {
  account_proof_before = none;
  account_proof_after = none;
  order_proofs = [];
  position_proof_before = none;
  position_proof_after = none;
}

pub record BatchInput : Type 0 where
  pub pre_state_root : Bytes
  pub post_state_root : Bytes
  pub transactions : List Transaction
  pub witnesses : List TransactionWitness

pub record BatchOutput : Type 0 where
  pub pre_state_root : Bytes
  pub post_state_root : Bytes
  pub batch_hash : Bytes
  pub tx_count : ℕ
