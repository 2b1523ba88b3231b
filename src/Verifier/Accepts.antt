-- ===== src/Verifier/Accepts.antt =====
-- What a verifier accepts: `verify_batch_data`, and `verify_next` over it.
use zk_perp.Prelude.{
  ℕ, ◌≡◌, refl, ap, subst, ◌∙◌, Bool, true, false, not, ◌&&◌, ◌⊎◌, inl, inr, arith, Bool-cases,
  ◌==◌, bytes_beq, bytes_beq_iff, ltb, String,
}
use zk_perp.Prelude.Result.{Result, ok, err, Result-cases}
use zk_perp.Merkle.External.{Bytes}
use zk_perp.Prover.Host.{Zkvm, ProofReceipt}
use zk_perp.Prover.Host
use zk_perp.Da.Files.{Batch, StoredProof}
use zk_perp.Verifier.Node.{
  Verifier, VerifierError, accept, verification, check_batch, verify_batch_data,
}

same_bytes : (xs ys : Bytes) → not (bytes_beq xs ys) ≡ false → xs ≡ ys
same_bytes xs ys same = (bytes_beq_iff xs ys).0 (ground arith)

different_bytes : (xs ys : Bytes) → xs ≡ ys → not (bytes_beq xs ys) ≡ false
different_bytes xs ys same = ground (arith, (bytes_beq_iff xs ys).1 same)

-- A seal is never answered with a refusal that is no error.
verify-true :
    (z : Zkvm) (p : Host.Prover) (r : ProofReceipt) (answer : Bool)
    → Host.verify z p r ≡ ok answer
    → answer ≡ true
unfolding Host.verify Host.verify_seal
verify-true z p r answer answered = elim (Result-cases (z.deserialize_receipt r.seal)) [
  | inr (e, failed) ↦ ground arith
  | inl (seal, read) ↦ elim (Result-cases (z.verify_image seal)) [
    | inr (e, failed) ↦ ground arith
    | inl (u, done) ↦ ground arith
  ]
]

may_continue :
    (v : Verifier) (batch : Batch)
    → (ltb 0 v.last_verified_batch && not (bytes_beq batch.pre_state_root v.verified_root)) ≡ false
    → (v.last_verified_batch ≡ 0) ⊎ (batch.pre_state_root ≡ v.verified_root)
may_continue v batch continues = elim (Bool-cases (ltb 0 v.last_verified_batch)) [
  | inr first ↦ inl (ground arith)
  | inl later ↦
      inr (same_bytes batch.pre_state_root v.verified_root (ground (arith, later, continues)))
]

module _ (z : Zkvm) (decode_receipt : Bytes → Result String ProofReceipt) where
  -- All that the checks of a batch ask for.
  pub record IsChecked (v : Verifier) (batch : Batch) (proof : StoredProof) (receipt : ProofReceipt)
      : Type 0 where
    pub continues : (v.last_verified_batch ≡ 0) ⊎ (batch.pre_state_root ≡ v.verified_root)
    pub decoded : decode_receipt proof.receipt_bytes ≡ ok receipt
    pub same_pre_root : receipt.output.pre_state_root ≡ batch.pre_state_root
    pub same_post_root : receipt.output.post_state_root ≡ batch.post_state_root
    pub same_count : receipt.output.tx_count ≡ batch.tx_count
    pub proved : Host.verify z v.prover receipt ≡ ok true

  pub check_batch-IsChecked :
      (v : Verifier) (batch : Batch) (proof : StoredProof) (receipt : ProofReceipt)
      → check_batch z decode_receipt v batch proof ≡ ok receipt
      → IsChecked v batch proof receipt
  unfolding check_batch
  check_batch-IsChecked v batch proof receipt passed =
      elim (Bool-cases
        (ltb 0 v.last_verified_batch && not (bytes_beq batch.pre_state_root v.verified_root))) [
          | inl broken ↦ absurd (ground arith)
          | inr continues ↦ elim (Result-cases (decode_receipt proof.receipt_bytes)) [
            | inr (e, failed) ↦ absurd (ground arith)
            | inl (r, decoded) ↦
                elim (Bool-cases (not (bytes_beq r.output.pre_state_root batch.pre_state_root))) [
                  | inl bad ↦ absurd (ground arith)
                  | inr pre ↦
                      elim (Bool-cases
                        (not (bytes_beq r.output.post_state_root batch.post_state_root))) [
                          | inl bad ↦ absurd (ground arith)
                          | inr post ↦
                              elim (Bool-cases (not (r.output.tx_count == batch.tx_count))) [
                                | inl bad ↦ absurd (ground arith)
                                | inr count ↦ elim (Result-cases (Host.verify z v.prover r)) [
                                  | inr (e, failed) ↦ absurd (ground arith)
                                  | inl (answer, proved) ↦
                                      let same : r ≡ receipt = ground arith in
                                      subst (IsChecked v batch proof) same (record {
                                        continues = may_continue v batch continues;
                                        decoded = decoded;
                                        same_pre_root =
                                            same_bytes r.output.pre_state_root batch.pre_state_root
                                              pre;
                                        same_post_root =
                                            same_bytes r.output.post_state_root
                                              batch.post_state_root post;
                                        same_count = ground arith;
                                        proved =
                                            proved ∙ ap ok (verify-true z v.prover r answer proved);
                                      })
                                ]
                              ]
                        ]
                ]
          ]
        ]

  pub IsChecked-check_batch :
      (v : Verifier) (batch : Batch) (proof : StoredProof) (receipt : ProofReceipt)
      → IsChecked v batch proof receipt
      → check_batch z decode_receipt v batch proof ≡ ok receipt
  unfolding check_batch
  IsChecked-check_batch v batch proof receipt checked =
      let output = receipt.output in
      let continues : (ltb 0 v.last_verified_batch
            && not (bytes_beq batch.pre_state_root v.verified_root))
          ≡ false =
        elim checked.continues [
          | inl first ↦ ground (arith, first)
          | inr same ↦ ground (arith, different_bytes batch.pre_state_root v.verified_root same)
        ] in
      let pre = different_bytes output.pre_state_root batch.pre_state_root checked.same_pre_root in
      let post =
        different_bytes output.post_state_root batch.post_state_root checked.same_post_root in
      let count : not (output.tx_count == batch.tx_count) ≡ false =
        ground (arith, checked.same_count) in
      rw (check_batch, continues, checked.decoded, pre, post, count, checked.proved) refl

  -- A batch is verified only where its receipt decodes, names the roots and the number of
  -- transactions of the batch, passes the prover, and continues from the verified root once some
  -- batch is verified: then the verifier moves to the batch and its root. Else it stays as it was.
  pub verify_batch_data-IsChecked :
      (v : Verifier) (batch : Batch) (proof : StoredProof) (now : ℕ)
      → ((receipt : ProofReceipt) × IsChecked v batch proof receipt
          × (verify_batch_data z decode_receipt v batch proof now
              ≡ (accept v batch, ok (verification batch now))))
        ⊎ ((e : VerifierError) × (verify_batch_data z decode_receipt v batch proof now
              ≡ (v, err e)))
  unfolding verify_batch_data
  verify_batch_data-IsChecked v batch proof now =
      elim (Result-cases (check_batch z decode_receipt v batch proof)) [
        | inl (receipt, passed) ↦ inl (
          receipt,
          check_batch-IsChecked v batch proof receipt passed,
          rw (verify_batch_data, passed) refl,
        )
        | inr (e, failed) ↦ inr (e, rw (verify_batch_data, failed) refl)
      ]

  -- A batch whose proof passes all checks is verified.
  pub IsChecked-verify_batch_data :
      (v : Verifier) (batch : Batch) (proof : StoredProof) (receipt : ProofReceipt) (now : ℕ)
      → IsChecked v batch proof receipt
      → verify_batch_data z decode_receipt v batch proof now
        ≡ (accept v batch, ok (verification batch now))
  unfolding verify_batch_data
  IsChecked-verify_batch_data v batch proof receipt now checked =
      rw (verify_batch_data, IsChecked-check_batch v batch proof receipt checked) refl
