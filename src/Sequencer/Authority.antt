-- ===== src/Sequencer/Authority.antt =====
-- Who may run a transaction: the signature check of `submit_transaction`.
use zk_perp.Prelude.{
  ℕ, ◌≡◌, refl, ap, ◌∙◌, Bool, true, ◌⊎◌, inl, inr, some, Bool-cases, Option-cases, if◌then◌else◌,
  nat_eq,
}
use zk_perp.Prelude.Map
use zk_perp.Prelude.Result.{Result, Result-cases}
use zk_perp.Types.Transaction.{SignedTransaction, TransactionReceipt, signer}
use zk_perp.Merkle.External.{Bytes, External}
use zk_perp.Crypto.Keys.{Curve, verify_transaction}
use zk_perp.Da.Files.{Codec}
use zk_perp.Prover.Host.{Zkvm}
use zk_perp.Sequencer.Node.{
  Sequencer, SequencerError, account_not_found, invalid_signature, invalid_signature_text, Outcome,
  ok, err, panic,
}
use zk_perp.Sequencer.Batches.{Clock}
use zk_perp.Sequencer.Submit.{verify_signature, run_transaction, submit_transaction}

module _ (x : External) (curve : Curve) where
  -- The signature check changes nothing, and passes only with a key of the signer under which the
  -- signature verifies.
  pub verify_signature-cases :
      (signed_tx : SignedTransaction) (s : Sequencer)
      → ((key : Bytes) × (Map.lookup (signer signed_tx.tx) s.account_keys ≡ some key)
          × (verify_transaction curve x signed_tx key ≡ Result.ok true)
          × (verify_signature x curve signed_tx s ≡ (s, ok tt)))
        ⊎ ((e : SequencerError) × (verify_signature x curve signed_tx s ≡ (s, err e)))
  unfolding verify_signature
  verify_signature-cases signed_tx s =
      elim (Option-cases (Map.lookup (signer signed_tx.tx) s.account_keys)) [
        | inl missing ↦
            inr (account_not_found (signer signed_tx.tx), rw (verify_signature, missing) refl)
        | inr (key, found) ↦ elim (Result-cases (verify_transaction curve x signed_tx key)) [
          | inr (e, failed) ↦ inr (invalid_signature e, rw (verify_signature, found, failed) refl)
          | inl (valid, answered) ↦ elim (Bool-cases valid) [
            | inl good ↦ inl (
              key,
              found,
              answered ∙ ap Result.ok good,
              rw (verify_signature, found, answered, good) refl,
            )
            | inr bad ↦ inr (
              invalid_signature_text "Signature verification failed",
              rw (verify_signature, found, answered, bad) refl,
            )
          ]
        ]
      ]

module _ (x : External) (curve : Curve) (z : Zkvm) (c : Codec) (clock : Clock) where
  -- Where signatures are checked, a transaction is run only if its signer has a registered key under
  -- which its signature verifies; else it is refused and changes nothing.
  pub submit_transaction-verify_transaction :
      (signed_tx : SignedTransaction) (received_at : ℕ) (s : Sequencer)
      → s.config.verify_signatures ≡ true
      → ((key : Bytes) × (Map.lookup (signer signed_tx.tx) s.account_keys ≡ some key)
          × (verify_transaction curve x signed_tx key ≡ Result.ok true)
          × (submit_transaction x curve z c clock signed_tx received_at s
              ≡ run_transaction x curve z c clock signed_tx received_at s))
        ⊎ ((e : SequencerError) × (submit_transaction x curve z c clock signed_tx received_at s
              ≡ (s, err e)))
  unfolding submit_transaction
  submit_transaction-verify_transaction signed_tx received_at s checked =
      let next : Sequencer × Outcome (Unit {0}) → Sequencer × Outcome TransactionReceipt = λ p.
        elim p.1 [
          | ok u ↦ run_transaction x curve z c clock signed_tx received_at p.0
          | err e ↦ (p.0, err e)
          | panic ↦ (p.0, panic)
        ] in
      let both : Bool → Sequencer × Outcome TransactionReceipt = λ b.
        if b
        then next (verify_signature x curve signed_tx s)
        else run_transaction x curve z c clock signed_tx received_at s in
      let steps : submit_transaction x curve z c clock signed_tx received_at s
          ≡ next (verify_signature x curve signed_tx s) =
        ap both checked in
      elim (verify_signature-cases x curve signed_tx s) [
        | inl (key, found, valid, passed) ↦ inl (key, found, valid, steps ∙ ap next passed)
        | inr (e, refused) ↦ inr (e, steps ∙ ap next refused)
      ]
