-- ===== src/Verifier/Ready.antt =====
-- A verifier takes the next step on a log whose batches all have good proofs.
use zk_perp.Prelude.{
  ℕ, ◌+◌, ◌≤◌, ◌<◌, ◌^◌, ◌≡◌, refl, ap, ◌∙◌, true, false, ◌⊎◌, inl, inr, none, some, arith,
  Bool-cases, ◌==◌, ==_iff, ltb, String,
}
use zk_perp.Prelude.Words.{add_u64}
use zk_perp.Prelude.Result.{Result, ok}
use zk_perp.Merkle.External.{Bytes}
use zk_perp.Prover.Host.{Zkvm, Prover, ProofReceipt}
use zk_perp.Prover.Host
use zk_perp.Da.Files.{Batch, StoredProof, Codec, DaIndex, Disk, load_batch, load_proof}
use zk_perp.Da.Log.{AppendLog, contains_id, is_proven, get_proof, get_batch}
use zk_perp.Da.Cache.{get_batch-load_batch}
use zk_perp.Da.Chain.{IsChain}
use zk_perp.Verifier.Node.{
  Verifier, accept, verification, verify_found, verify_at, verify_from, verify_next,
}
use zk_perp.Verifier.Accepts.{IsChecked, IsChecked-verify_batch_data}
use zk_perp.Verifier.Progress.{
  over, verify_next-verify_from, verify_from-verify_at, verify_at-verify_found,
}

module _ (z : Zkvm) (decode_receipt : Bytes → Result String ProofReceipt) (c : Codec) where
  -- A batch of the log with a proof that the prover accepts and whose receipt names the batch.
  pub record IsReady (p : Prover) (log : AppendLog) (j : ℕ) : Type 0 where
    pub batch : Batch
    pub proof : StoredProof
    pub receipt : ProofReceipt
    pub loaded : load_batch c j log.disk ≡ ok batch
    pub proven : is_proven log j ≡ true
    pub found : get_proof c log j ≡ ok proof
    pub decoded : decode_receipt proof.receipt_bytes ≡ ok receipt
    pub same_pre_root : receipt.output.pre_state_root ≡ batch.pre_state_root
    pub same_post_root : receipt.output.post_state_root ≡ batch.post_state_root
    pub same_count : receipt.output.tx_count ≡ batch.tx_count
    pub proved : Host.verify z p receipt ≡ ok true

  -- The verified root is the one of the last verified batch, if there is one.
  abbrev pub IsSynced : Verifier → AppendLog → Type 0
  IsSynced v log =
      (v.last_verified_batch ≡ 0)
      ⊎ ((b : Batch)
          → load_batch c v.last_verified_batch log.disk ≡ ok b
          → b.post_state_root ≡ v.verified_root)

  -- The next batch continues from the verified root.
  IsSynced-continues :
      (v : Verifier) (log : AppendLog) (batch : Batch)
      → IsChain c log
      → IsSynced v log
      → v.last_verified_batch < log.index.last_batch_id
      → load_batch c (v.last_verified_batch + 1) log.disk ≡ ok batch
      → (v.last_verified_batch ≡ 0) ⊎ (batch.pre_state_root ≡ v.verified_root)
  IsSynced-continues v log batch chain synced more loaded = elim synced [
    | inl first ↦ inl first
    | inr rooted ↦ elim (Bool-cases (v.last_verified_batch == 0)) [
      | inl first ↦ inl ((==_iff v.last_verified_batch 0).0 first)
      | inr later ↦
          let pos : 0 < v.last_verified_batch = ground (arith, ==_iff v.last_verified_batch 0) in
          let before = chain.batches.stored v.last_verified_batch pos (ground (arith, more)) in
          inr (
            chain.batches.linked v.last_verified_batch before.0 batch pos more before.1 loaded
            ∙ rooted before.0 before.1)
    ]
  ]

  verify_found-ready :
      (v : Verifier) (log log1 : AppendLog) (now j : ℕ) (r : IsReady v.prover log j)
      → log1.index ≡ log.index
      → log1.disk ≡ log.disk
      → (v.last_verified_batch ≡ 0) ⊎ (r.batch.pre_state_root ≡ v.verified_root)
      → verify_found z decode_receipt c (over v log1) log1 j r.batch now
        ≡ (accept (over v log1) r.batch, ok (some (verification r.batch now)))
  unfolding verify_found is_proven get_proof
  verify_found-ready v log log1 now j r same_index same_disk continues =
      let proven1 : is_proven log1 j ≡ true =
        ap (λ (i : DaIndex). contains_id j i.proven_batches) same_index ∙ r.proven in
      let found1 : get_proof c log1 j ≡ ok r.proof =
        ap (λ (d : Disk). load_proof c j d) same_disk ∙ r.found in
      let checked : IsChecked z decode_receipt (over v log1) r.batch r.proof r.receipt = record {
        continues = continues;
        decoded = r.decoded;
        same_pre_root = r.same_pre_root;
        same_post_root = r.same_post_root;
        same_count = r.same_count;
        proved = r.proved;
      } in
      let accepted =
        IsChecked-verify_batch_data z decode_receipt (over v log1) r.batch r.proof r.receipt now
          checked in
      rw (verify_found, proven1, found1, accepted) refl

  -- A ready batch is verified.
  pub verify_next-ready :
      (v : Verifier) (log : AppendLog) (now : ℕ)
      → v.da ≡ some log
      → IsChain c log
      → IsSynced v log
      → v.last_verified_batch < log.index.last_batch_id
      → v.last_verified_batch + 1 < 2 ^ 64
      → (r : IsReady v.prover log (v.last_verified_batch + 1))
      → verify_next z decode_receipt c v now ≡ (
        accept (over v (get_batch c log (v.last_verified_batch + 1)).0) r.batch,
        ok (some (verification r.batch now)),
      )
  verify_next-ready v log now connected chain synced more small r =
      let id = v.last_verified_batch + 1 in
      let log1 = (get_batch c log id).0 in
      let read = get_batch-load_batch c log id chain.coherent in
      let left : ltb log.index.last_batch_id (add_u64 v.last_verified_batch 1) ≡ false =
        ground (arith, more, small) in
      let next : add_u64 v.last_verified_batch 1 ≡ id = ground (arith, small) in
      verify_next-verify_from z decode_receipt c v log now connected
      ∙ verify_from-verify_at z decode_receipt c v log now left
      ∙ ap (λ i. verify_at z decode_receipt c v log i now) next
      ∙ verify_at-verify_found z decode_receipt c v log r.batch now id (read.answer ∙ r.loaded)
      ∙ verify_found-ready v log log1 now id r read.index_kept read.disk_kept
          (IsSynced-continues v log r.batch chain synced more r.loaded)

  pub verify_next-finished :
      (v : Verifier) (log : AppendLog) (now : ℕ)
      → v.da ≡ some log
      → log.index.last_batch_id ≤ v.last_verified_batch
      → v.last_verified_batch + 1 < 2 ^ 64
      → verify_next z decode_receipt c v now ≡ (v, ok none)
  unfolding verify_from
  verify_next-finished v log now connected done small =
      let past : ltb log.index.last_batch_id (add_u64 v.last_verified_batch 1) ≡ true =
        ground (arith, done, small) in
      verify_next-verify_from z decode_receipt c v log now connected ∙ rw (verify_from, past) refl

  -- A log that reads alike has the same ready batches.
  pub IsReady-Kept :
      (p : Prover) (log log1 : AppendLog) (j : ℕ)
      → log1.index ≡ log.index
      → log1.disk ≡ log.disk
      → IsReady p log j
      → IsReady p log1 j
  unfolding is_proven get_proof
  IsReady-Kept p log log1 j same_index same_disk r = record {
    batch = r.batch;
    proof = r.proof;
    receipt = r.receipt;
    loaded = ap (λ (d : Disk). load_batch c j d) same_disk ∙ r.loaded;
    proven = ap (λ (i : DaIndex). contains_id j i.proven_batches) same_index ∙ r.proven;
    found = ap (λ (d : Disk). load_proof c j d) same_disk ∙ r.found;
    decoded = r.decoded;
    same_pre_root = r.same_pre_root;
    same_post_root = r.same_post_root;
    same_count = r.same_count;
    proved = r.proved;
  }
