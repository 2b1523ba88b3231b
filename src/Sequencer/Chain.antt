-- ===== src/Sequencer/Chain.antt =====
-- What a batch of the sequencer leaves in the log.
use zk_perp.Prelude.{
  ℕ, ◌+◌, ◌<◌, ◌^◌, ◌≡◌, refl, ap, subst, sym, ◌∙◌, false, Option, none, some, List, [], ◌∷◌, map,
  ◌==◌, arith, inl, inr, Bool-cases, List-cases, bytes_beq_iff,
}
use zk_perp.Prelude.Result.{Result, Result-cases}
use zk_perp.Types.Transaction.{Transaction}
use zk_perp.Merkle.External.{Bytes, External, zeros}
use zk_perp.State.Global.{root}
use zk_perp.Da.Files.{Batch, Codec, load_batch}
use zk_perp.Da.Log.{AppendLog, append_batch, append_proof}
use zk_perp.Da.Saving.{ReadsBack}
use zk_perp.Da.Append.{new_batch, breaks_chain, append_batch-IsAppended}
use zk_perp.Da.Chain.{IsChain, append_batch-IsChain, next_batch_id_lem}
use zk_perp.Da.Proofs.{IsAlike, IsAlike-refl, IsAlike-IsChain, append_proof-IsAlike}
use zk_perp.Prover.Batch.{BatchInput, no_witness}
use zk_perp.Prover.Host.{Zkvm, ProverError, ProofReceipt}
use zk_perp.Prover.Host
use zk_perp.Sequencer.Node.{Sequencer, PendingTx, BatchResult, Outcome, ok, err, panic, >>=-passed}
use zk_perp.Sequencer.Batches.{
  Clock, transactions_of, pre_root_of, compute_batch_hash, store_receipt, generate_batch_proof,
  store_batch, count_batch, report_batch, finish_batch, seal_batch, process_batch,
}

-- The result of a batch, or another one where there is none.
abbrev result_of : BatchResult → Outcome (Option BatchResult) → BatchResult
result_of other (ok (some r)) = r
result_of other (ok none) = other
result_of other (err e) = other
result_of other panic = other

-- The root that a batch starts from is the one that the log asks for.
pub pre_root_of-breaks_chain : (log : AppendLog) → breaks_chain log (pre_root_of log) ≡ false
unfolding pre_root_of
pre_root_of-breaks_chain log = elim (Bool-cases (log.index.last_batch_id == 0)) [
  | inl first ↦ ground arith
  | inr later ↦
      let same = (bytes_beq_iff log.index.current_state_root log.index.current_state_root).1 refl in
      rw (later, pre_root_of) (ground (arith, same))
]

module _ (x : External) (z : Zkvm) (c : Codec) (clock : Clock) where
  -- Proving a batch changes the log alone, and there the proofs alone.
  pub generate_batch_proof-IsAlike :
      (id : ℕ) (txs : List PendingTx) (pre_root post_root : Bytes) (s : Sequencer)
      → (da : AppendLog) × ((generate_batch_proof x z c clock id txs pre_root post_root s).0
          ≡ record s { da = da })
        × IsAlike c s.da da
  unfolding generate_batch_proof store_receipt no_witness
  generate_batch_proof-IsAlike id txs pre_root post_root s =
      let batch_input : BatchInput = record {
        pre_state_root = pre_root;
        post_state_root = post_root;
        transactions = transactions_of txs;
        witnesses = map (λ (tx : Transaction). no_witness) (transactions_of txs);
      } in
      elim (Result-cases (Host.prove x z s.prover batch_input)) [
        | inr (e, failed) ↦ (s.da, rw (generate_batch_proof, failed) refl, IsAlike-refl c s.da)
        | inl (receipt, proved) ↦ (
          (append_proof c s.da id receipt.seal (zeros 8) clock.proof_at clock.proof_indexed_at).0,
          rw (generate_batch_proof, proved) refl,
          append_proof-IsAlike c s.da id receipt.seal (zeros 8) clock.proof_at
              clock.proof_indexed_at,
        )
      ]

  -- The log, the state and the pending transactions after a batch.
  pub record IsSealed (txs : List PendingTx) (s s' : Sequencer) (r : BatchResult) : Type 0 where
    pub emptied : s'.pending_txs ≡ []
    pub state_kept : s'.state ≡ s.state
    pub chained : IsChain c s'.da
    pub number : r.batch_id ≡ s.da.index.last_batch_id + 1
    pub last : s'.da.index.last_batch_id ≡ r.batch_id
    pub rooted : s'.da.index.current_state_root ≡ root x s.state
    pub batch : Batch
    pub stored : load_batch c r.batch_id s'.da.disk ≡ Result.ok batch
    pub transactions : batch.transactions ≡ transactions_of txs

  store_batch-append_batch :
      (txs : List PendingTx) (pre post : Bytes) (s : Sequencer) (id : ℕ)
      → (store_batch x z c clock txs pre post s).1 ≡ ok id
      → (append_batch c s.da
          (transactions_of txs)
          pre
          post
          (compute_batch_hash x txs)
          clock.batch_at
          clock.batch_indexed_at).1
        ≡ Result.ok id
  unfolding store_batch
  store_batch-append_batch txs pre post s id stored =
      elim (Result-cases
        (append_batch c s.da (transactions_of txs) pre post (compute_batch_hash x txs)
          clock.batch_at clock.batch_indexed_at).1) [
            | inl (i, appended) ↦ ground arith
            | inr (e, failed) ↦ absurd (ground arith)
          ]

  -- What the steps of a batch that was sealed return.
  seal_batch-steps :
      (txs : List PendingTx) (s : Sequencer) (r : BatchResult)
      → (seal_batch x z c clock txs s).1 ≡ ok (some r)
      → ((store_batch x z c clock txs (pre_root_of s.da) (root x s.state) s).1 ≡ ok r.batch_id)
        × ((seal_batch x z c clock txs s).0
            ≡ count_batch x z c clock r.proof_generated
                (generate_batch_proof x z c clock r.batch_id txs
                  (pre_root_of s.da)
                  (root x s.state)
                  (store_batch x z c clock txs (pre_root_of s.da) (root x s.state) s).0).0)
  unfolding seal_batch finish_batch
  seal_batch-steps txs s r done =
      let pre = pre_root_of s.da in
      let post = root x s.state in
      let s1 = (store_batch x z c clock txs pre post s).0 in
      let first =
        >>=-passed (store_batch x z c clock txs pre post) (finish_batch x z c clock txs pre post) s
          (some r) done in
      let second =
        >>=-passed (generate_batch_proof x z c clock first.0 txs pre post)
          (report_batch x z c clock txs pre post first.0) s1 (some r)
          (sym (ap (λ (p : Sequencer × Outcome (Option BatchResult)). p.1) first.2) ∙ done) in
      let final = first.2 ∙ second.2 in
      let s2 = (generate_batch_proof x z c clock first.0 txs pre post s1).0 in
      let reported : (report_batch x z c clock txs pre post first.0 second.0 s2).1 ≡ ok (some r) =
        sym (ap (λ (p : Sequencer × Outcome (Option BatchResult)). p.1) final) ∙ done in
      let number : first.0 ≡ r.batch_id = ap (λ o. (result_of r o).batch_id) reported in
      let proved : second.0 ≡ r.proof_generated =
        ap (λ o. (result_of r o).proof_generated) reported in
      (
        first.1 ∙ ap ok number,
        ap (λ (p : Sequencer × Outcome (Option BatchResult)). p.0) final
            ∙ ap (λ g. count_batch x z c clock g s2) proved
            ∙ ap
                (λ id.
                  count_batch x z c clock r.proof_generated
                    (generate_batch_proof x z c clock id txs pre post s1).0)
                number,
      )

  seal_batch-IsSealed :
      (txs : List PendingTx) (s : Sequencer) (r : BatchResult)
      → ReadsBack c
      → IsChain c s.da
      → s.da.index.last_batch_id + 1 < 2 ^ 64
      → s.pending_txs ≡ []
      → (seal_batch x z c clock txs s).1 ≡ ok (some r)
      → IsSealed txs s (seal_batch x z c clock txs s).0 r
  unfolding store_batch count_batch
  seal_batch-IsSealed txs s r back chain fits empty done =
      let pre = pre_root_of s.da in
      let post = root x s.state in
      let hash = compute_batch_hash x txs in
      let steps = seal_batch-steps txs s r done in
      let appended = store_batch-append_batch txs pre post s r.batch_id steps.0 in
      let s1 = (store_batch x z c clock txs pre post s).0 in
      let facts =
        append_batch-IsAppended c s.da (transactions_of txs) pre post hash clock.batch_at
          clock.batch_indexed_at r.batch_id back chain.coherent chain.file appended in
      let chain1 =
        append_batch-IsChain c s.da (transactions_of txs) pre post hash clock.batch_at
          clock.batch_indexed_at r.batch_id back fits chain appended in
      let (da, same, alike) = generate_batch_proof-IsAlike r.batch_id txs pre post s1 in
      let batch = new_batch s.da (transactions_of txs) pre post hash clock.batch_at in
      let s2 : Sequencer = record s1 { da = da } in
      let after : (seal_batch x z c clock txs s).0 ≡ count_batch x z c clock r.proof_generated s2 =
        steps.1 ∙ ap (count_batch x z c clock r.proof_generated) same in
      subst (λ t. IsSealed txs s t r) (sym after)
        (record {
          emptied = empty;
          state_kept = refl;
          chained = IsAlike-IsChain c s1.da da alike chain1;
          number = facts.0 ∙ next_batch_id_lem s.da fits;
          last = alike.last ∙ facts.2.last ∙ sym facts.0;
          rooted = alike.root ∙ facts.2.root;
          batch = batch;
          stored =
              alike.files r.batch_id ∙ ap (λ i. load_batch c i s1.da.disk) facts.0 ∙ facts.2.stored;
          transactions = refl;
        })

  -- A batch that the sequencer reports is in the log with exactly the pending transactions, in their
  -- order, under the next number; the log has the root of the engine's state and keeps its invariant,
  -- the state is as it was, and no transaction is pending any more. It needs an encoding that reads
  -- back what it writes, and numbers below the end of 64 bits.
  pub process_batch-IsSealed :
      (s : Sequencer) (r : BatchResult)
      → ReadsBack c
      → IsChain c s.da
      → s.da.index.last_batch_id + 1 < 2 ^ 64
      → (process_batch x z c clock s).1 ≡ ok (some r)
      → IsSealed s.pending_txs s (process_batch x z c clock s).0 r
  unfolding process_batch
  process_batch-IsSealed s r back chain fits done = elim (List-cases s.pending_txs) [
    | inl empty ↦ absurd (ground arith)
    | inr (p, ps, pending) ↦
        let taken : Sequencer = record s { pending_txs = [] } in
        let steps : process_batch x z c clock s ≡ seal_batch x z c clock (p ∷ ps) taken =
          ap
            (λ (l : List PendingTx). elim l [
              | [] ↦ (s, ok none)
              | q ∷ qs ↦ seal_batch x z c clock (q ∷ qs) taken
            ])
            pending in
        let done' = sym (ap (λ (t : Sequencer × Outcome (Option BatchResult)). t.1) steps) ∙ done in
        let sealed = seal_batch-IsSealed (p ∷ ps) taken r back chain fits refl done' in
        subst (λ l. IsSealed l s (process_batch x z c clock s).0 r) (sym pending)
          (subst (λ (t : Sequencer × Outcome (Option BatchResult)). IsSealed (p ∷ ps) s t.0 r)
            (sym steps)
            (record {
              emptied = sealed.emptied;
              state_kept = sealed.state_kept;
              chained = sealed.chained;
              number = sealed.number;
              last = sealed.last;
              rooted = sealed.rooted;
              batch = sealed.batch;
              stored = sealed.stored;
              transactions = sealed.transactions;
            }))
  ]
