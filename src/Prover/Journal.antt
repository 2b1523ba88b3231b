-- ===== src/Prover/Journal.antt =====
-- What the journal of a batch says, for the guest and for the mock prover.
use zk_perp.Prelude.{◌≡◌, refl, ap, ◌∙◌, none, List, [], ◌∷◌, arith, inl, inr, length, All}
use zk_perp.Prelude.Words.{u32}
use zk_perp.Prelude.Result.{ok, err, Result-cases}
use zk_perp.Types.Transaction.{Transaction}
use zk_perp.Merkle.External.{Bytes, External, zero_hash, hash, hash_pair}
use zk_perp.Prover.Batch.{BatchInput, BatchOutput, TransactionWitness}
use zk_perp.Prover.Host.{Zkvm, Prover, ProofReceipt, prove_mock, mock_batch_hash}
use zk_perp.Prover.Guest.{Guest, verify_all, compute_batch_hash, main}

-- The same journal with another root after the batch.
abbrev pub with_post_root : Bytes → Guest BatchOutput → Guest BatchOutput
with_post_root root (ok out) = ok (record out { post_state_root = root })
with_post_root root (err e) = err e

module _ (x : External) where
  -- The two loops over the transactions compute one hash, or fail on the same one.
  pub compute_batch_hash-mock_batch_hash :
      (h : Bytes) (txs : List Transaction) (b : Bytes)
      → compute_batch_hash x h txs ≡ ok b
      → mock_batch_hash x h txs ≡ ok b
  unfolding compute_batch_hash mock_batch_hash
  compute_batch_hash-mock_batch_hash h [] b e = cc
  compute_batch_hash-mock_batch_hash h (tx ∷ txs) b e =
      elim (Result-cases (x.serialize_transaction tx)) [
        | inl (bytes, s) ↦
            rw (s, mock_batch_hash)
              (compute_batch_hash-mock_batch_hash (hash_pair x h (hash x bytes)) txs b
                (rw (s, compute_batch_hash) at e))
        | inr (m, s) ↦ absurd (ground arith)
      ]

  -- The guest never looks at the root after the batch: whatever root the input claims, the guest
  -- commits to it, or aborts in the same way.
  pub main-with_post_root :
      (input : BatchInput) (root : Bytes)
      → main x (record input { post_state_root = root }) ≡ with_post_root root (main x input)
  unfolding main
  main-with_post_root input root =
      elim (Result-cases (verify_all x input.pre_state_root input.transactions input.witnesses)) [
        | inl (u, v) ↦ elim (Result-cases (compute_batch_hash x zero_hash input.transactions)) [
          | inl (b, h) ↦ ground arith
          | inr (m, h) ↦ ground arith
        ]
        | inr (m, v) ↦ ground arith
      ]

  pub mock_batch_hash-compute_batch_hash :
      (h : Bytes) (txs : List Transaction) (b : Bytes)
      → mock_batch_hash x h txs ≡ ok b
      → compute_batch_hash x h txs ≡ ok b
  unfolding compute_batch_hash mock_batch_hash
  mock_batch_hash-compute_batch_hash h [] b e = cc
  mock_batch_hash-compute_batch_hash h (tx ∷ txs) b e =
      elim (Result-cases (x.serialize_transaction tx)) [
        | inl (bytes, s) ↦
            rw (s, compute_batch_hash)
              (mock_batch_hash-compute_batch_hash (hash_pair x h (hash x bytes)) txs b
                (rw (s, mock_batch_hash) at e))
        | inr (m, s) ↦ absurd (ground arith)
      ]

  -- Without a witness nothing is checked.
  pub verify_all-unwitnessed :
      (root : Bytes) (txs : List Transaction) (ws : List TransactionWitness)
      → All (λ w. w.account_proof_before ≡ none) ws
      → verify_all x root txs ws ≡ ok tt
  unfolding verify_all
  verify_all-unwitnessed root [] ws h = refl
  verify_all-unwitnessed root (tx ∷ txs) [] h = refl
  verify_all-unwitnessed root (tx ∷ txs) (w ∷ ws) h =
      rw (h.0, verify_all) (verify_all-unwitnessed root txs ws h.1)

  -- The journal of an input whose batch hash is known.
  abbrev journal_of : BatchInput → Bytes → BatchOutput
  journal_of input b = record {
    pre_state_root = input.pre_state_root;
    post_state_root = input.post_state_root;
    batch_hash = b;
    tx_count = u32 (length input.transactions);
  }

  module _ (z : Zkvm) (p : Prover) where
    -- Where the guest commits to an output that bincode can write, the mock prover returns a receipt
    -- with the same output.
    pub prove_mock-main :
        (input : BatchInput) (out : BatchOutput) (j : Bytes)
        → main x input ≡ ok out
        → z.serialize_output out ≡ ok j
        → prove_mock x z p input ≡ ok (record { journal = j; seal = []; output = out })
    unfolding main prove_mock
    prove_mock-main input out j e s =
        elim (Result-cases (verify_all x input.pre_state_root input.transactions input.witnesses)) [
          | inl (u, v) ↦ elim (Result-cases (compute_batch_hash x zero_hash input.transactions)) [
            | inl (b, h) ↦
                let mock = compute_batch_hash-mock_batch_hash zero_hash input.transactions b h in
                let same : journal_of input b ≡ out = ground arith in
                rw (mock, ap z.serialize_output same ∙ s, same) refl
            | inr (m, h) ↦ absurd (ground arith)
          ]
          | inr (m, v) ↦ absurd (ground arith)
        ]

    -- The mock prover and the guest agree on a batch without witnesses: where the mock prover returns
    -- a receipt, the guest commits to the output of that receipt.
    pub main-prove_mock :
        (input : BatchInput) (r : ProofReceipt)
        → All (λ w. w.account_proof_before ≡ none) input.witnesses
        → prove_mock x z p input ≡ ok r
        → main x input ≡ ok r.output
    unfolding main prove_mock
    main-prove_mock input r h e =
        let v = verify_all-unwitnessed input.pre_state_root input.transactions input.witnesses h in
        elim (Result-cases (mock_batch_hash x zero_hash input.transactions)) [
          | inl (b, mock) ↦
              let hashed = mock_batch_hash-compute_batch_hash zero_hash input.transactions b mock in
              elim (Result-cases (z.serialize_output (journal_of input b))) [
                | inl (j, s) ↦ ground arith
                | inr (m, s) ↦ absurd (ground arith)
              ]
          | inr (m, mock) ↦ absurd (ground arith)
        ]
