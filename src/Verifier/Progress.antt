-- ===== src/Verifier/Progress.antt =====
-- How a verifier moves along a log: `verify_next` and the loop of `verify_all_pending`.
use zk_perp.Prelude.{
  ℕ, ◌+◌, ◌≤◌, ◌<◌, ◌^◌, ◌≡◌, refl, ap, subst, sym, ◌∙◌, Bool, true, false, ◌⊎◌, inl, inr, Option,
  none, some, arith, Bool-cases, ltb, if◌then◌else◌, String,
}
use zk_perp.Prelude.Words.{add_u64}
use zk_perp.Prelude.Result.{Result, ok, err, Result-cases}
use zk_perp.Merkle.External.{Bytes}
use zk_perp.Prover.Host.{Zkvm, ProofReceipt}
use zk_perp.Da.Files.{Batch, StoredProof, Codec, load_batch, batch_not_found}
use zk_perp.Da.Log.{AppendLog, is_proven, get_batch, get_proof}
use zk_perp.Da.Cache.{get_batch-load_batch}
use zk_perp.Da.Chain.{IsChain, get_batch-IsChain}
use zk_perp.Verifier.Node.{
  Verifier, VerifierError, proof_not_found, da_error, Called, BatchVerification, accept,
  verification, verify_found, verify_at, verify_from, verify_next,
}
use zk_perp.Verifier.Accepts.{IsChecked, verify_batch_data-IsChecked}

-- The verifier over the log as a read leaves it.
abbrev pub over : Verifier → AppendLog → Verifier
over v log = record v { da = some log }

module _ (z : Zkvm) (decode_receipt : Bytes → Result String ProofReceipt) (c : Codec) where
  -- One batch further: the next batch of the log is checked against its proof and accepted.
  pub record IsStep (v : Verifier) (log log1 : AppendLog) (now : ℕ)
      (called : Called (Option BatchVerification)) : Type 0 where
    pub batch : Batch
    pub proof : StoredProof
    pub receipt : ProofReceipt
    pub next : batch.id ≡ v.last_verified_batch + 1
    pub proven : is_proven log1 batch.id ≡ true
    pub found_proof : get_proof c log1 batch.id ≡ ok proof
    pub loaded : load_batch c batch.id log.disk ≡ ok batch
    pub checked : IsChecked z decode_receipt (over v log1) batch proof receipt
    pub moved : called ≡ (accept (over v log1) batch, ok (some (verification batch now)))

  pub verify_found-IsStep :
      (v : Verifier) (log log1 : AppendLog) (batch : Batch) (now : ℕ)
      → batch.id ≡ v.last_verified_batch + 1
      → load_batch c batch.id log.disk ≡ ok batch
      → IsStep v log log1 now
          (verify_found z decode_receipt c (over v log1) log1 batch.id batch now)
        ⊎ ((e : VerifierError) × (verify_found z decode_receipt c
                (over v log1)
                log1
                batch.id
                batch
                now
              ≡ (over v log1, err e)))
  unfolding verify_found
  verify_found-IsStep v log log1 batch now next loaded =
      elim (Bool-cases (is_proven log1 batch.id)) [
        | inr missing ↦ inr (proof_not_found batch.id, rw (verify_found, missing) refl)
        | inl proven ↦ elim (Result-cases (get_proof c log1 batch.id)) [
          | inr (e, failed) ↦ inr (da_error e, rw (verify_found, proven, failed) refl)
          | inl (proof, found) ↦
              elim (verify_batch_data-IsChecked z decode_receipt (over v log1) batch proof now) [
                | inr (e, refused) ↦ inr (e, rw (verify_found, proven, found, refused) refl)
                | inl (receipt, checked, accepted) ↦ inl (record {
                  batch = batch;
                  proof = proof;
                  receipt = receipt;
                  next = next;
                  proven = proven;
                  found_proof = found;
                  loaded = loaded;
                  checked = checked;
                  moved = rw (verify_found, proven, found, accepted) refl;
                })
              ]
        ]
      ]

  -- A call of `verify_next` on a log that keeps its invariant does nothing where all batches are
  -- verified, verifies exactly the next batch, or fails and keeps what is verified.
  pub data Next (v : Verifier) (log : AppendLog) (now : ℕ)
      (called : Called (Option BatchVerification)) : Type 0 where
    finished :
        log.index.last_batch_id ≤ v.last_verified_batch
        → called ≡ (v, ok none)
        → Next v log now called
    failed :
        (log1 : AppendLog) (e : VerifierError)
        → called ≡ (over v log1, err e)
        → Next v log now called
    stepped :
        (log1 : AppendLog)
        → v.last_verified_batch < log.index.last_batch_id
        → IsChain c log1
        → log1.index ≡ log.index
        → log1.disk ≡ log.disk
        → IsStep v log log1 now called
        → Next v log now called

  pub verify_next-verify_from :
      (v : Verifier) (log : AppendLog) (now : ℕ)
      → v.da ≡ some log
      → verify_next z decode_receipt c v now ≡ verify_from z decode_receipt c v log now
  unfolding verify_next
  verify_next-verify_from v log now connected =
      ap
        (λ (o : Option AppendLog). elim o [
          | none ↦ (v, err (da_error (batch_not_found 0)))
          | some l ↦ verify_from z decode_receipt c v l now
        ])
        connected

  pub verify_at-verify_found :
      (v : Verifier) (log : AppendLog) (batch : Batch) (now id : ℕ)
      → (get_batch c log id).1 ≡ ok batch
      → verify_at z decode_receipt c v log id now
        ≡ verify_found z decode_receipt c
            (over v (get_batch c log id).0)
            (get_batch c log id).0
            id
            batch
            now
  unfolding verify_at
  verify_at-verify_found v log batch now id got = rw (verify_at, got) refl

  -- The next batch of a log that has one.
  verify_at-Next :
      (v : Verifier) (log : AppendLog) (now id : ℕ)
      → IsChain c log
      → id ≡ v.last_verified_batch + 1
      → v.last_verified_batch < log.index.last_batch_id
      → Next v log now (verify_at z decode_receipt c v log id now)
  verify_at-Next v log now id chain next more =
      let (chain', (batch, got, is_next, loaded)) =
        get_batch-IsChain c log id chain (ground arith) (ground arith) in
      let log1 = (get_batch c log id).0 in
      let read = get_batch-load_batch c log id chain.coherent in
      let found = λ (i : ℕ). verify_found z decode_receipt c (over v log1) log1 i batch now in
      let steps : verify_at z decode_receipt c v log id now ≡ found batch.id =
        verify_at-verify_found v log batch now id got ∙ ap found (sym is_next) in
      let loaded' : load_batch c batch.id log.disk ≡ ok batch =
        ap (λ i. load_batch c i log.disk) is_next ∙ loaded in
      subst (Next v log now) (sym steps)
        (elim (verify_found-IsStep v log log1 batch now (is_next ∙ next) loaded') [
          | inl step ↦ stepped log1 more chain' read.index_kept read.disk_kept step
          | inr (e, refused) ↦ failed log1 e refused
        ])

  pub verify_from-verify_at :
      (v : Verifier) (log : AppendLog) (now : ℕ)
      → ltb log.index.last_batch_id (add_u64 v.last_verified_batch 1) ≡ false
      → verify_from z decode_receipt c v log now
        ≡ verify_at z decode_receipt c v log (add_u64 v.last_verified_batch 1) now
  unfolding verify_from
  verify_from-verify_at v log now left =
      ap
        (λ (b : Bool).
          if b
          then (v, ok none)
          else verify_at z decode_receipt c v log (add_u64 v.last_verified_batch 1) now)
        left

  verify_from-Next :
      (v : Verifier) (log : AppendLog) (now : ℕ)
      → IsChain c log
      → v.last_verified_batch + 1 < 2 ^ 64
      → Next v log now (verify_from z decode_receipt c v log now)
  unfolding verify_from
  verify_from-Next v log now chain fits =
      elim (Bool-cases (ltb log.index.last_batch_id (add_u64 v.last_verified_batch 1))) [
        | inl done ↦ finished (ground arith) (rw (verify_from, done) refl)
        | inr left ↦
            let more : v.last_verified_batch < log.index.last_batch_id = ground arith in
            let next : add_u64 v.last_verified_batch 1 ≡ v.last_verified_batch + 1 = ground arith in
            subst (Next v log now) (sym (verify_from-verify_at v log now left))
              (verify_at-Next v log now (add_u64 v.last_verified_batch 1) chain next more)
      ]

  pub verify_next-Next :
      (v : Verifier) (log : AppendLog) (now : ℕ)
      → v.da ≡ some log
      → IsChain c log
      → v.last_verified_batch + 1 < 2 ^ 64
      → Next v log now (verify_next z decode_receipt c v now)
  verify_next-Next v log now connected chain fits =
      subst (Next v log now) (sym (verify_next-verify_from v log now connected))
        (verify_from-Next v log now chain fits)
