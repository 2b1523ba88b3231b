-- ===== src/Verifier/Pending.antt =====
-- The loop over all pending batches ends, and what it verifies is a chain.
use zk_perp.Prelude.{
  ℕ, zero, suc, ◌+◌, ◌-◌, ◌<◌, ◌^◌, ◌≡◌, refl, ap, subst, sym, ◌∙◌, ◌⊎◌, inl, inr, Option, none,
  some, List, [], ◌∷◌, arith, String,
}
use zk_perp.Prelude.Result.{Result, ok, err}
use zk_perp.Merkle.External.{Bytes}
use zk_perp.Prover.Host.{Zkvm, ProofReceipt}
use zk_perp.Da.Files.{Codec, DaIndex}
use zk_perp.Da.Log.{AppendLog}
use zk_perp.Da.Chain.{IsChain}
use zk_perp.Verifier.Node.{
  Verifier, VerifierError, proof_not_found, da_error, prover_error, batch_not_found,
  state_root_mismatch, proof_verification_failed, receipt_mismatch, serialization_error, Called,
  BatchVerification, accept, verification, stop, verify_next, verify_rounds, verify_all_pending,
}
use zk_perp.Verifier.Progress.{IsStep, finished, failed, stepped, over, verify_next-Next}

-- The answers are for consecutive batches after a number, each from the root where the one before
-- ends, unless no batch was verified before; they end at another number and root.
abbrev pub Linked : ℕ → Bytes → List BatchVerification → ℕ → Bytes → Type 0
Linked id root [] id' root' = (id ≡ id') × (root ≡ root')
Linked id root (r ∷ rs) id' root' =
    (r.batch_id ≡ id + 1)
    × ((id ≡ 0) ⊎ (r.pre_state_root ≡ root))
    × Linked (id + 1) r.post_state_root rs id' root'

-- The outcome of the loop.
abbrev pub Pending : Type 0
Pending = Verifier × Option (Result VerifierError (List BatchVerification))

-- The loop has ended: with answers that are linked, from the state before to the state after, or with
-- an error.
pub data Ended (v : Verifier) (pending : Pending) : Type 0 where
  verified :
      (v' : Verifier) (rs : List BatchVerification)
      → pending ≡ (v', some (ok rs))
      → Linked v.last_verified_batch v.verified_root rs v'.last_verified_batch v'.verified_root
      → Ended v pending
  stopped : (v' : Verifier) (e : VerifierError) → pending ≡ (v', some (err e)) → Ended v pending

-- A round that verified a batch, and the rounds after it.
abbrev pub add_answer : BatchVerification → Pending → Pending
add_answer r p = (
  p.0,
  elim p.1 [ none ↦ none | some (err e) ↦ some (err e) | some (ok rs) ↦ some (ok (r ∷ rs)) ],
)

stop-cases : (e : VerifierError) → (stop e ≡ ok []) ⊎ (stop e ≡ err e)
stop-cases (proof_not_found id) = inl refl
stop-cases (da_error e) = inr refl
stop-cases (prover_error e) = inr refl
stop-cases (batch_not_found id) = inr refl
stop-cases (state_root_mismatch id expected got) = inr refl
stop-cases (proof_verification_failed id) = inr refl
stop-cases (receipt_mismatch id details) = inr refl
stop-cases (serialization_error e) = inr refl

module _ (z : Zkvm) (decode_receipt : Bytes → Result String ProofReceipt) (c : Codec) where
  -- A round of the loop, by what `verify_next` returns.
  pub verify_rounds-none :
      (rounds : ℕ) (clock : ℕ → ℕ) (v v1 : Verifier)
      → verify_next z decode_receipt c v (clock rounds) ≡ (v1, ok none)
      → verify_rounds z decode_receipt c (suc rounds) clock v ≡ (v1, some (ok []))
  unfolding verify_rounds
  verify_rounds-none rounds clock v v1 called =
      let answered : (verify_next z decode_receipt c v (clock rounds)).1 ≡ ok none =
        ap (λ (p : Called (Option BatchVerification)). p.1) called in
      let moved : (verify_next z decode_receipt c v (clock rounds)).0 ≡ v1 =
        ap (λ (p : Called (Option BatchVerification)). p.0) called in
      rw (verify_rounds, answered) (ap (λ (w : Verifier). (w, some (ok []))) moved)

  verify_rounds-err :
      (rounds : ℕ) (clock : ℕ → ℕ) (v v1 : Verifier) (e : VerifierError)
      → verify_next z decode_receipt c v (clock rounds) ≡ (v1, err e)
      → verify_rounds z decode_receipt c (suc rounds) clock v ≡ (v1, some (stop e))
  unfolding verify_rounds
  verify_rounds-err rounds clock v v1 e called =
      let answered : (verify_next z decode_receipt c v (clock rounds)).1 ≡ err e =
        ap (λ (p : Called (Option BatchVerification)). p.1) called in
      let moved : (verify_next z decode_receipt c v (clock rounds)).0 ≡ v1 =
        ap (λ (p : Called (Option BatchVerification)). p.0) called in
      rw (verify_rounds, answered) (ap (λ (w : Verifier). (w, some (stop e))) moved)

  pub verify_rounds-some :
      (rounds : ℕ) (clock : ℕ → ℕ) (v v1 : Verifier) (r : BatchVerification)
      → verify_next z decode_receipt c v (clock rounds) ≡ (v1, ok (some r))
      → verify_rounds z decode_receipt c (suc rounds) clock v
        ≡ add_answer r (verify_rounds z decode_receipt c rounds clock v1)
  unfolding verify_rounds
  verify_rounds-some rounds clock v v1 r called =
      let answered : (verify_next z decode_receipt c v (clock rounds)).1 ≡ ok (some r) =
        ap (λ (p : Called (Option BatchVerification)). p.1) called in
      let moved : (verify_next z decode_receipt c v (clock rounds)).0 ≡ v1 =
        ap (λ (p : Called (Option BatchVerification)). p.0) called in
      rw (verify_rounds, answered)
        (ap (λ (w : Verifier). add_answer r (verify_rounds z decode_receipt c rounds clock w))
          moved)

  -- The rounds after a step are enough where those before it were.
  add_answer-Ended :
      (v : Verifier) (log log1 : AppendLog) (now : ℕ) (called : Called (Option BatchVerification))
      (step : IsStep z decode_receipt c v log log1 now called) (rest : Pending)
      → Ended (accept (over v log1) step.batch) rest
      → Ended v (add_answer (verification step.batch now) rest)
  unfolding accept
  add_answer-Ended v log log1 now called step rest ended = elim ended [
    | verified v' rs same linked ↦
        let after : ℕ → Type 0 =
          λ id. Linked id step.batch.post_state_root rs v'.last_verified_batch v'.verified_root in
        verified v' (verification step.batch now ∷ rs)
          (ap (add_answer (verification step.batch now)) same)
          (step.next, step.checked.continues, subst after step.next linked)
    | stopped v' e same ↦ stopped v' e (ap (add_answer (verification step.batch now)) same)
  ]

  pub verify_rounds-Ended :
      (rounds : ℕ) (clock : ℕ → ℕ) (v : Verifier) (log : AppendLog)
      → v.da ≡ some log
      → IsChain c log
      → log.index.last_batch_id + 1 < 2 ^ 64
      → v.last_verified_batch + 1 < 2 ^ 64
      → 0 < rounds
      → log.index.last_batch_id < v.last_verified_batch + rounds
      → Ended v (verify_rounds z decode_receipt c rounds clock v)
  unfolding accept
  verify_rounds-Ended zero clock v log connected chain fits small pos enough = absurd (ground arith)
  verify_rounds-Ended (suc rounds) clock v log connected chain fits small pos enough =
      elim (verify_next-Next z decode_receipt c v log (clock rounds) connected chain small) [
        | finished done called ↦
            verified v [] (verify_rounds-none rounds clock v v called) (refl, refl)
        | failed log1 e called ↦
            let ended = verify_rounds-err rounds clock v (over v log1) e called in
            elim (stop-cases e) [
              | inl ok_stop ↦
                  verified (over v log1) []
                    (ended
                      ∙ ap
                          (λ (r : Result VerifierError (List BatchVerification)).
                            (over v log1, some r))
                          ok_stop)
                    (refl, refl)
              | inr err_stop ↦ stopped (over v log1) e (
                  ended
                  ∙ ap
                      (λ (r : Result VerifierError (List BatchVerification)). (over v log1, some r))
                      err_stop)
            ]
        | stepped log1 more chain1 same_index same_disk step ↦
            let v1 = accept (over v log1) step.batch in
            let last : log1.index.last_batch_id ≡ log.index.last_batch_id =
              ap (λ (i : DaIndex). i.last_batch_id) same_index in
            let rest =
              verify_rounds-Ended rounds clock v1 log1 refl chain1 (ground (arith, last, fits))
                (ground (arith, step.next, more, fits)) (ground (arith, more, enough))
                (ground (arith, step.next, last, enough)) in
            subst (Ended v)
              (sym (
                verify_rounds-some rounds clock v v1 (verification step.batch (clock rounds))
                  step.moved))
              (add_answer-Ended v log log1 (clock rounds) _ step _ rest)
      ]

  -- Verifying all pending batches of a log that keeps its invariant always ends: with answers for
  -- consecutive batches after the last verified one, each from the root where the one before ends
  -- (the first from the verified root, unless nothing was verified), up to the new last verified
  -- batch and the new verified root, or with an error. The numbers stay below the end of 64 bits.
  pub verify_all_pending-Ended :
      (clock : ℕ → ℕ) (v : Verifier) (log : AppendLog)
      → v.da ≡ some log
      → IsChain c log
      → log.index.last_batch_id + 1 < 2 ^ 64
      → v.last_verified_batch + 1 < 2 ^ 64
      → Ended v (verify_all_pending z decode_receipt c clock v)
  unfolding verify_all_pending
  verify_all_pending-Ended clock v log connected chain fits small =
      let rounds = suc (log.index.last_batch_id - v.last_verified_batch) in
      let ended =
        verify_rounds-Ended rounds clock v log connected chain fits small (ground arith)
          (ground arith) in
      subst (Ended v)
        (ap
          (λ (o : Option AppendLog). elim o [
            | none ↦ verify_rounds z decode_receipt c 1 clock v
            | some l ↦
                verify_rounds z decode_receipt c
                  (suc (l.index.last_batch_id - v.last_verified_batch)) clock v
          ])
          (sym connected))
        ended
