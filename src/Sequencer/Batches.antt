-- ===== src/Sequencer/Batches.antt =====
-- Batches: `process_batch` and what it calls, and one round of the batch timer.
use zk_perp.Prelude.{
  ℕ, Bool, true, false, Option, none, some, List, [], ◌∷◌, ◌++◌, map, length, leb, ◌==◌,
  if◌then◌else◌,
}
use zk_perp.Prelude.Words.{add_u64}
use zk_perp.Prelude.Result
use zk_perp.Types.Transaction.{Transaction}
use zk_perp.Merkle.External.{Bytes, External, zeros}
use zk_perp.State.Global.{root}
use zk_perp.Da.Files.{Codec}
use zk_perp.Da.Log.{AppendLog, append_batch, append_proof}
use zk_perp.Prover.Batch.{BatchInput, no_witness}
use zk_perp.Prover.Host.{Zkvm, ProofReceipt, ProverError}
use zk_perp.Prover.Host
use zk_perp.Sequencer.Node.{
  Sequencer, PendingTx, BatchResult, da_error, ok, err, Step, pure, ◌>>=◌, ◌>>◌,
}

-- The readings of the clock: for the batch and the index after it, for the proof and the index.
pub record Clock : Type 0 where
  pub batch_at : ℕ
  pub batch_indexed_at : ℕ
  pub proof_at : ℕ
  pub proof_indexed_at : ℕ

abbrev pub transactions_of : List PendingTx → List Transaction
transactions_of txs = map (λ (p : PendingTx). p.signed_tx.tx) txs

-- The root before the next batch, as the log has it.
unfoldable pub pre_root_of : AppendLog → Bytes
pre_root_of log = if log.index.last_batch_id == 0 then zeros 32 else log.index.current_state_root

module _ (x : External) where
  -- `update` of the hasher, transaction after transaction.
  unfoldable pub batch_bytes : List Transaction → Bytes
  batch_bytes [] = []
  batch_bytes (tx ∷ txs) =
      elim (x.serialize_transaction tx) [ Result.err e ↦ [] | Result.ok bytes ↦ bytes ]
      ++ batch_bytes txs

  unfoldable pub compute_batch_hash : List PendingTx → Bytes
  unfolding batch_bytes
  compute_batch_hash batch_txs = x.sha256 (batch_bytes (transactions_of batch_txs))

  module _ (z : Zkvm) (c : Codec) (clock : Clock) where
    -- The receipt of a batch, put into the log.
    unfoldable pub store_receipt : ℕ → ProofReceipt → Step Bool
    unfolding append_proof
    store_receipt batch_id receipt s =
        let (da, stored) =
          append_proof c s.da batch_id receipt.seal (zeros 8) clock.proof_at
            clock.proof_indexed_at in
        (
          record s { da = da },
          elim stored [ Result.err e ↦ err (da_error e) | Result.ok _ ↦ ok true ],
        )

    unfoldable pub generate_batch_proof : ℕ → List PendingTx → Bytes → Bytes → Step Bool
    unfolding no_witness Host.prove store_receipt
    generate_batch_proof batch_id batch_txs pre_root post_root s =
        let transactions = transactions_of batch_txs in
        let batch_input : BatchInput = record {
          pre_state_root = pre_root;
          post_state_root = post_root;
          transactions = transactions;
          witnesses = map (λ (tx : Transaction). no_witness) transactions;
        } in
        elim (Host.prove x z s.prover batch_input) [
          | Result.err e ↦ (s, ok false)
          | Result.ok receipt ↦ store_receipt batch_id receipt s
        ]

    -- The batch, put into the log.
    unfoldable pub store_batch : List PendingTx → Bytes → Bytes → Step ℕ
    unfolding append_batch compute_batch_hash
    store_batch batch_txs pre_root post_root s =
        let (da, stored) =
          append_batch c s.da (transactions_of batch_txs) pre_root post_root
            (compute_batch_hash batch_txs) clock.batch_at clock.batch_indexed_at in
        (
          record s { da = da },
          elim stored [ Result.err e ↦ err (da_error e) | Result.ok id ↦ ok id ],
        )

    -- The statistics after a batch.
    unfoldable pub count_batch : Bool → Sequencer → Sequencer
    count_batch proof_generated s = record s {
      stats = record (s.stats) {
        total_batches = add_u64 s.stats.total_batches 1;
        total_proofs_generated =
            if proof_generated
            then add_u64 s.stats.total_proofs_generated 1
            else s.stats.total_proofs_generated;
      };
    }

    -- The statistics and the result of a batch.
    abbrev pub report_batch : List PendingTx → Bytes → Bytes → ℕ → Bool → Step (Option BatchResult)
    report_batch batch_txs pre_root post_root batch_id proof_generated s = (
      count_batch proof_generated s,
      ok (
          some (record {
            batch_id = batch_id;
            tx_count = length batch_txs;
            pre_root = pre_root;
            post_root = post_root;
            proof_generated = proof_generated;
          })),
    )

    -- What follows once the batch is in the log.
    unfoldable pub finish_batch : List PendingTx → Bytes → Bytes → ℕ → Step (Option BatchResult)
    finish_batch batch_txs pre_root post_root batch_id =
        generate_batch_proof batch_id batch_txs pre_root post_root
        >>= report_batch batch_txs pre_root post_root batch_id

    -- What follows once the pending transactions are taken.
    unfoldable pub seal_batch : List PendingTx → Step (Option BatchResult)
    seal_batch batch_txs s =
        let post_root = root x s.state in
        let pre_root = pre_root_of s.da in
        (store_batch batch_txs pre_root post_root >>= finish_batch batch_txs pre_root post_root) s

    unfoldable pub process_batch : Step (Option BatchResult)
    process_batch s = elim s.pending_txs [
      | [] ↦ (s, ok none)
      | p ∷ ps ↦ seal_batch (p ∷ ps) (record s { pending_txs = [] })
    ]

    unfoldable pub maybe_trigger_batch : Step (Unit {0})
    unfolding process_batch
    maybe_trigger_batch s =
        if leb s.config.max_batch_size (length s.pending_txs)
        then (process_batch >> pure tt) s
        else (s, ok tt)

    -- A round of the timer: an error is logged and the timer goes on.
    unfoldable pub batch_tick : Sequencer → Sequencer
    unfolding process_batch
    batch_tick s = elim s.pending_txs [ [] ↦ s | p ∷ ps ↦ (process_batch s).0 ]
