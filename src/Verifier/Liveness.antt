-- ===== src/Verifier/Liveness.antt =====
-- `verify_all_pending` verifies every batch of a log whose batches all have good proofs.
use zk_perp.Prelude.{
  ℕ, zero, suc, ◌+◌, ◌-◌, ◌≤◌, ◌<◌, ◌^◌, ◌≡◌, refl, ap, subst, sym, ◌∙◌, ◌⊎◌, inl, inr, Option,
  none, some, List, [], ◌∷◌, arith, Bool-cases, ◌==◌, ==_iff, ltb, String,
}
use zk_perp.Prelude.Result.{Result, ok}
use zk_perp.Merkle.External.{Bytes}
use zk_perp.Prover.Host.{Zkvm, ProofReceipt}
use zk_perp.Da.Files.{DaError, Batch, Codec, DaIndex, Disk, load_batch}
use zk_perp.Da.Log.{AppendLog, get_batch}
use zk_perp.Da.Cache.{get_batch-load_batch}
use zk_perp.Da.Chain.{IsChain, get_batch-IsChain}
use zk_perp.Verifier.Node.{
  Verifier, BatchVerification, accept, verification, verify_rounds, verify_all_pending,
}
use zk_perp.Verifier.Progress.{over}
use zk_perp.Verifier.Ready.{
  IsReady, IsSynced, verify_next-ready, verify_next-finished, IsReady-Kept,
}
use zk_perp.Verifier.Pending.{Pending, add_answer, verify_rounds-none, verify_rounds-some}

same_id :
    (b batch : Batch) (id : ℕ) (r : Result DaError Batch)
    → b.id ≡ id
    → r ≡ ok b
    → r ≡ ok batch
    → batch.id ≡ id
same_id b batch id r at first second =
    let is_batch : b ≡ batch = cc in ap (λ (d : Batch). d.id) (sym is_batch) ∙ at

-- All batches of the log are verified.
pub record IsCaughtUp (log : AppendLog) (pending : Pending) : Type 0 where
  pub after : Verifier
  pub answers : List BatchVerification
  pub ended : pending ≡ (after, some (ok answers))
  pub last : after.last_verified_batch ≡ log.index.last_batch_id
  pub root : (log.index.last_batch_id ≡ 0) ⊎ (after.verified_root ≡ log.index.current_state_root)

module _ (z : Zkvm) (decode_receipt : Bytes → Result String ProofReceipt) (c : Codec) where
  IsSynced-root :
      (v : Verifier) (log : AppendLog)
      → IsChain c log
      → IsSynced z decode_receipt c v log
      → v.last_verified_batch ≡ log.index.last_batch_id
      → (log.index.last_batch_id ≡ 0) ⊎ (v.verified_root ≡ log.index.current_state_root)
  IsSynced-root v log chain synced last = elim synced [
    | inl first ↦ inl (sym last ∙ first)
    | inr rooted ↦ elim (Bool-cases (log.index.last_batch_id == 0)) [
      | inl empty ↦ inl ((==_iff log.index.last_batch_id 0).0 empty)
      | inr later ↦
          let pos : 0 < log.index.last_batch_id =
            ground (arith, ==_iff log.index.last_batch_id 0) in
          let end = chain.batches.stored log.index.last_batch_id pos (ground arith) in
          let load = ap (λ i. load_batch c i log.disk) last ∙ end.1 in
          inr (sym (rooted end.0 load) ∙ chain.batches.ends_at_root end.0 pos end.1)
    ]
  ]

  -- An answer before the answers of the other rounds.
  add_answer-IsCaughtUp :
      (log log1 : AppendLog) (r : BatchVerification) (rest pending : Pending)
      → log1.index ≡ log.index
      → pending ≡ add_answer r rest
      → IsCaughtUp log1 rest
      → IsCaughtUp log pending
  add_answer-IsCaughtUp log log1 r rest pending same step caught = record {
    after = caught.after;
    answers = r ∷ caught.answers;
    ended = step ∙ ap (add_answer r) caught.ended;
    last = caught.last ∙ ap (λ (i : DaIndex). i.last_batch_id) same;
    root =
        subst
          (λ (i : DaIndex).
            (i.last_batch_id ≡ 0) ⊎ (caught.after.verified_root ≡ i.current_state_root))
          same caught.root;
  }

  -- The verifier that has accepted a batch of the log is synced.
  accept-IsSynced :
      (v : Verifier) (log log1 : AppendLog) (batch : Batch)
      → log1.disk ≡ log.disk
      → load_batch c batch.id log.disk ≡ ok batch
      → IsSynced z decode_receipt c (accept (over v log1) batch) log1
  unfolding accept
  accept-IsSynced v log log1 batch same_disk loaded = inr (λ b load.
      let same : ok b ≡ ok batch =
        sym load ∙ ap (λ (d : Disk). load_batch c batch.id d) same_disk ∙ loaded in
      let is_batch : b ≡ batch = cc in ap (λ (d : Batch). d.post_state_root) is_batch)

  verify_rounds-IsCaughtUp :
      (rounds : ℕ) (clock : ℕ → ℕ) (v : Verifier) (log : AppendLog)
      → v.da ≡ some log
      → IsChain c log
      → log.index.last_batch_id + 1 < 2 ^ 64
      → IsSynced z decode_receipt c v log
      → v.last_verified_batch ≤ log.index.last_batch_id
      → log.index.last_batch_id < v.last_verified_batch + rounds
      → ((j : ℕ)
          → v.last_verified_batch < j
          → j ≤ log.index.last_batch_id
          → IsReady z decode_receipt c v.prover log j)
      → IsCaughtUp log (verify_rounds z decode_receipt c rounds clock v)
  unfolding accept
  verify_rounds-IsCaughtUp zero clock v log connected chain fits synced below enough ready =
      absurd (ground arith)
  verify_rounds-IsCaughtUp (suc rounds) clock v log connected chain fits synced below enough ready =
      elim (Bool-cases (ltb v.last_verified_batch log.index.last_batch_id)) [
        | inr done ↦
            let last : v.last_verified_batch ≡ log.index.last_batch_id = ground arith in
            let called =
              verify_next-finished z decode_receipt c v log (clock rounds) connected (ground arith)
                (ground arith) in
            record {
              after = v;
              answers = [];
              ended = verify_rounds-none z decode_receipt c rounds clock v v called;
              last = last;
              root = IsSynced-root v log chain synced last;
            }
        | inl under ↦
            let more : v.last_verified_batch < log.index.last_batch_id = ground arith in
            let r = ready (v.last_verified_batch + 1) (ground arith) (ground (arith, more)) in
            let called =
              verify_next-ready z decode_receipt c v log (clock rounds) connected chain synced more
                (ground (arith, more, fits)) r in
            let id = v.last_verified_batch + 1 in
            let log1 = (get_batch c log id).0 in
            let v1 = accept (over v log1) r.batch in
            let answer = verification r.batch (clock rounds) in
            let step = verify_rounds-some z decode_receipt c rounds clock v v1 answer called in
            let read = get_batch-load_batch c log id chain.coherent in
            let (chain1, (b, got, is_next, loaded)) =
              get_batch-IsChain c log id chain (ground arith) (ground (arith, more)) in
            let at : r.batch.id ≡ id =
              same_id b r.batch id (load_batch c id log.disk) is_next loaded r.loaded in
            let synced1 =
              accept-IsSynced v log log1 r.batch read.disk_kept
                (ap (λ i. load_batch c i log.disk) at ∙ r.loaded) in
            let last : log1.index.last_batch_id ≡ log.index.last_batch_id =
              ap (λ (i : DaIndex). i.last_batch_id) read.index_kept in
            let ready1 : (j : ℕ)
                → r.batch.id < j
                → j ≤ log1.index.last_batch_id
                → IsReady z decode_receipt c v.prover log1 j =
              λ j after most.
                IsReady-Kept z decode_receipt c v.prover log log1 j read.index_kept read.disk_kept
                  (ready j (ground (arith, at, after)) (ground (arith, last, most))) in
            let rest =
              verify_rounds-IsCaughtUp rounds clock v1 log1 refl chain1 (ground (arith, last, fits))
                synced1 (ground (arith, at, last, more)) (ground (arith, at, last, enough))
                ready1 in
            add_answer-IsCaughtUp log log1 answer (verify_rounds z decode_receipt c rounds clock v1)
              (verify_rounds z decode_receipt c (suc rounds) clock v) read.index_kept step rest
      ]

  -- A verifier whose root is the one of its last verified batch catches up with a log that keeps its
  -- invariant, where each further batch has a proof that the prover accepts and that names the
  -- batch: verifying all pending batches returns without an error, the last verified batch is the
  -- last one of the log, and the verified root is the root of the log, unless the log has no batch.
  pub verify_all_pending-IsCaughtUp :
      (clock : ℕ → ℕ) (v : Verifier) (log : AppendLog)
      → v.da ≡ some log
      → IsChain c log
      → log.index.last_batch_id + 1 < 2 ^ 64
      → IsSynced z decode_receipt c v log
      → v.last_verified_batch ≤ log.index.last_batch_id
      → ((j : ℕ)
          → v.last_verified_batch < j
          → j ≤ log.index.last_batch_id
          → IsReady z decode_receipt c v.prover log j)
      → IsCaughtUp log (verify_all_pending z decode_receipt c clock v)
  unfolding verify_all_pending
  verify_all_pending-IsCaughtUp clock v log connected chain fits synced below ready =
      let rounds = suc (log.index.last_batch_id - v.last_verified_batch) in
      let caught =
        verify_rounds-IsCaughtUp rounds clock v log connected chain fits synced below (ground arith)
          ready in
      subst (IsCaughtUp log)
        (ap
          (λ (o : Option AppendLog). elim o [
            | none ↦ verify_rounds z decode_receipt c 1 clock v
            | some l ↦
                verify_rounds z decode_receipt c
                  (suc (l.index.last_batch_id - v.last_verified_batch)) clock v
          ])
          (sym connected))
        caught
