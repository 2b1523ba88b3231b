-- ===== src/Sequencer/Mempool.antt =====
-- How many transactions are pending after a batch.
use zk_perp.Prelude.{
  ℕ, ◌<◌, ◌≡◌, refl, ap, subst, sym, inl, inr, Option, none, List, [], ◌∷◌, length, leb, arith,
  Bool-cases, List-cases, nat_eq,
}
use zk_perp.Merkle.External.{Bytes, External}
use zk_perp.State.Global.{GlobalState, root}
use zk_perp.Da.Files.{Codec}
use zk_perp.Prover.Host.{Zkvm}
use zk_perp.Sequencer.Node.{
  Sequencer, PendingTx, SequencerConfig, BatchResult, Outcome, ok, Step, ◌>>=◌, pure, Outcome-cases,
}
use zk_perp.Sequencer.Batches.{
  Clock, pre_root_of, generate_batch_proof, store_batch, count_batch, report_batch, finish_batch,
  seal_batch, process_batch, maybe_trigger_batch,
}
use zk_perp.Sequencer.Chain.{generate_batch_proof-IsAlike}

-- What both steps of a chain keep, the chain keeps.
pub >>=-keeps :
    {A B : Type 0} (P : Sequencer → Type 0) (m : Step A) (f : A → Step B) (s : Sequencer)
    → P (m s).0
    → ((a : A) (t : Sequencer) → P t → P (f a t).0)
    → P ((m >>= f) s).0
>>=-keeps P m f s first next = elim (Outcome-cases (m s).1) [
  | inl (a, is) ↦ rw (◌>>=◌, is) (next a (m s).0 first)
  | inr (inl (e, failed)) ↦ rw (◌>>=◌, failed) first
  | inr (inr aborted) ↦ rw (◌>>=◌, aborted) first
]

-- The configuration, and no pending transaction.
abbrev pub Emptied : SequencerConfig → GlobalState → Sequencer → Type 0
Emptied config state s = (s.pending_txs ≡ []) × (s.config ≡ config) × (s.state ≡ state)

-- Fewer transactions are pending than make a batch.
abbrev pub IsBounded : Sequencer → Type 0
IsBounded s = length s.pending_txs < s.config.max_batch_size

module _ (x : External) (z : Zkvm) (c : Codec) (clock : Clock) where
  generate_batch_proof-Emptied :
      (config : SequencerConfig) (state : GlobalState) (id : ℕ) (txs : List PendingTx)
      (pre post : Bytes) (s : Sequencer)
      → Emptied config state s
      → Emptied config state (generate_batch_proof x z c clock id txs pre post s).0
  generate_batch_proof-Emptied config state id txs pre post s emptied =
      let (da, same, alike) = generate_batch_proof-IsAlike x z c clock id txs pre post s in
      subst (Emptied config state) (sym same) emptied

  seal_batch-Emptied :
      (config : SequencerConfig) (state : GlobalState) (txs : List PendingTx) (s : Sequencer)
      → Emptied config state s
      → Emptied config state (seal_batch x z c clock txs s).0
  unfolding seal_batch finish_batch store_batch count_batch
  seal_batch-Emptied config state txs s emptied =
      let pre = pre_root_of s.da in
      let post = root x s.state in
      >>=-keeps (Emptied config state) (store_batch x z c clock txs pre post)
        (finish_batch x z c clock txs pre post) s emptied
        (λ id t kept.
          >>=-keeps (Emptied config state) (generate_batch_proof x z c clock id txs pre post)
            (report_batch x z c clock txs pre post id) t
            (generate_batch_proof-Emptied config state id txs pre post t kept) (λ g u kept'. kept'))

  -- However a batch ends, no transaction is pending after it, and the state and the configuration are
  -- as they were: the transactions of a batch that fails are not taken up again.
  pub process_batch-Emptied :
      (s : Sequencer) → Emptied s.config s.state (process_batch x z c clock s).0
  unfolding process_batch
  process_batch-Emptied s =
      let taken : Sequencer = record s { pending_txs = [] } in
      let take : List PendingTx → Sequencer × Outcome (Option BatchResult) =
        λ l. elim l [ [] ↦ (s, ok none) | q ∷ qs ↦ seal_batch x z c clock (q ∷ qs) taken ] in
      let Done : Sequencer × Outcome (Option BatchResult) → Type 0 =
        λ t. Emptied s.config s.state t.0 in
      elim (List-cases s.pending_txs) [
        | inl empty ↦ subst Done (ap take (sym empty)) (empty, refl, refl)
        | inr (p, ps, pending) ↦
            subst Done (ap take (sym pending))
              (seal_batch-Emptied s.config s.state (p ∷ ps) taken (refl, refl, refl))
      ]

  pub maybe_trigger_batch-IsBounded :
      (s : Sequencer)
      → 0 < s.config.max_batch_size
      → IsBounded (maybe_trigger_batch x z c clock s).0
  unfolding maybe_trigger_batch
  maybe_trigger_batch-IsBounded s some_room =
      elim (Bool-cases (leb s.config.max_batch_size (length s.pending_txs))) [
        | inr few ↦ rw (maybe_trigger_batch, few) (ground arith)
        | inl many ↦
            let emptied = process_batch-Emptied s in
            let bounded : IsBounded (process_batch x z c clock s).0 =
              rw (emptied.0, emptied.1) some_room in
            rw (maybe_trigger_batch, many)
              (>>=-keeps IsBounded (process_batch x z c clock) (λ r. pure tt) s bounded
                (λ r t kept. kept))
      ]
