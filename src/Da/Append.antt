-- ===== src/Da/Append.antt =====
-- Appending to the log: `append_batch`.
use zk_perp.Prelude.{
  ℕ, ◌≡◌, ◌≢◌, refl, ap, subst, sym, ◌∙◌, Bool, false, not, ◌&&◌, inl, inr, some, List, length, ltb,
  arith, Bool-cases, nat_eq, bytes_beq, if◌then◌else◌,
}
use zk_perp.Prelude.Map
use zk_perp.Prelude.Words.{u32, add_u64}
use zk_perp.Prelude.Result.{ok, err, Result-cases}
use zk_perp.Types.Transaction.{Transaction}
use zk_perp.Merkle.External.{Bytes}
use zk_perp.Da.Files.{DaIndex, Batch, Codec, load_batch, save_batch}
use zk_perp.Da.Log.{
  AppendLog, Called, next_batch_id, index_after, remember, trim_cache, save_index, store_batch,
  record_batch, append_batch,
}
use zk_perp.Da.Cache.{IsCoherent, remember-IsCoherent}
use zk_perp.Da.Saving.{
  ReadsBack, load_batch-save_batch, load_batch-save_batch_ne, save_index-Kept,
  load_batch-save_index,
}

-- The batch that a call appends.
abbrev pub new_batch : AppendLog → List Transaction → Bytes → Bytes → Bytes → ℕ → Batch
unfolding next_batch_id
new_batch log transactions pre_root post_root batch_hash now = record {
  id = next_batch_id log.index;
  transactions = transactions;
  pre_state_root = pre_root;
  post_state_root = post_root;
  timestamp = now;
  batch_hash = batch_hash;
  tx_count = u32 (length transactions);
}

-- A batch that does not start at the root of the log.
abbrev pub breaks_chain : AppendLog → Bytes → Bool
breaks_chain log pre_root =
    ltb 0 log.index.last_batch_id && not (bytes_beq pre_root log.index.current_state_root)

module _ (c : Codec) where
  -- The log after a batch was appended: it is the last batch, its root is the current root, its
  -- transactions are counted, its file holds it, and the other files are as they were.
  pub record IsAppended (log log' : AppendLog) (batch : Batch) : Type 0 where
    pub last : log'.index.last_batch_id ≡ batch.id
    pub root : log'.index.current_state_root ≡ batch.post_state_root
    pub total : log'.index.total_transactions ≡ add_u64 log.index.total_transactions batch.tx_count
    pub proven_kept : log'.index.proven_batches ≡ log.index.proven_batches
    pub in_memory_kept : log'.in_memory ≡ log.in_memory
    pub stored : load_batch c batch.id log'.disk ≡ ok batch
    pub others_kept : (j : ℕ) → j ≢ batch.id → load_batch c j log'.disk ≡ load_batch c j log.disk
    pub coherent_after : IsCoherent c log'

  -- A cache that is coherent over some files is so over files that read alike.
  pub IsCoherent-Kept :
      (log log' : AppendLog)
      → IsCoherent c log
      → log'.batch_cache ≡ log.batch_cache
      → ((j : ℕ) → load_batch c j log'.disk ≡ load_batch c j log.disk)
      → IsCoherent c log'
  IsCoherent-Kept log log' coherent same_cache same_files j b h =
      same_files j ∙ coherent j b (sym (ap (λ m. Map.lookup j m) same_cache) ∙ h)

  record_batch-IsAppended :
      (log log0 : AppendLog) (batch : Batch) (now : ℕ)
      → IsCoherent c log0
      → load_batch c batch.id log.disk ≡ ok batch
      → log.batch_cache ≡ log0.batch_cache
      → log.index ≡ log0.index
      → log.in_memory ≡ log0.in_memory
      → ((j : ℕ) → j ≢ batch.id → load_batch c j log.disk ≡ load_batch c j log0.disk)
      → IsAppended log0 (record_batch c log batch now).0 batch
  unfolding record_batch index_after remember trim_cache
  record_batch-IsAppended log log0 batch now coherent stored same_cache same_index same_memory
        others =
      let remembered = remember batch.id batch log in
      let indexed : AppendLog = record remembered {
        index = index_after remembered.index batch now;
      } in
      let kept = save_index-Kept c indexed in
      let files = load_batch-save_index c indexed in
      let cached : (j : ℕ) (b : Batch)
          → j ≢ batch.id
          → Map.lookup j log.batch_cache ≡ some b
          → load_batch c j log.disk ≡ ok b =
        λ j b apart h.
          others j apart ∙ coherent j b (sym (ap (λ m. Map.lookup j m) same_cache) ∙ h) in
      record {
        last = ap (λ (i : DaIndex). i.last_batch_id) kept.0;
        root = ap (λ (i : DaIndex). i.current_state_root) kept.0;
        total =
            ap (λ (i : DaIndex). i.total_transactions) kept.0
            ∙ ap (λ (i : DaIndex). add_u64 i.total_transactions batch.tx_count) same_index;
        proven_kept =
            ap (λ (i : DaIndex). i.proven_batches) kept.0
            ∙ ap (λ (i : DaIndex). i.proven_batches) same_index;
        in_memory_kept = kept.3 ∙ same_memory;
        stored = files batch.id ∙ stored;
        others_kept = λ j apart. files j ∙ others j apart;
        coherent_after =
            IsCoherent-Kept indexed (save_index c indexed).0
              (remember-IsCoherent c batch.id batch log cached stored) kept.1 files;
      }

  -- What follows the storing of a batch.
  abbrev after_store : Batch → ℕ → Called (Unit {0}) → Called ℕ
  unfolding record_batch
  after_store batch later p = elim p.1 [
    | err e ↦ (p.0, err e)
    | ok _ ↦ record_batch c p.0 batch later
  ]

  -- The log with the files that hold one more batch.
  abbrev with_batch : AppendLog → Batch → AppendLog
  with_batch log batch = record log { disk = (save_batch c batch log.disk).0 }

  store_batch-save_batch :
      (log : AppendLog) (batch : Batch)
      → log.in_memory ≡ false
      → store_batch c log batch ≡ (with_batch log batch, (save_batch c batch log.disk).1)
  unfolding store_batch
  store_batch-save_batch log batch file =
      ap
        (λ (b : Bool).
          if b then (log, ok tt) else (with_batch log batch, (save_batch c batch log.disk).1))
        file

  append_batch-store_batch :
      (log : AppendLog) (txs : List Transaction) (pre_root post_root batch_hash : Bytes)
      (now later : ℕ)
      → breaks_chain log pre_root ≡ false
      → append_batch c log txs pre_root post_root batch_hash now later
        ≡ after_store
            (new_batch log txs pre_root post_root batch_hash now)
            later
            (store_batch c log (new_batch log txs pre_root post_root batch_hash now))
  unfolding append_batch after_store
  append_batch-store_batch log txs pre_root post_root batch_hash now later chained =
      rw (append_batch, chained) refl

  record_batch-id :
      (log : AppendLog) (batch : Batch) (now id : ℕ)
      → (record_batch c log batch now).1 ≡ ok id
      → id ≡ batch.id
  unfolding record_batch
  record_batch-id log batch now id done =
      let remembered = remember batch.id batch log in
      let indexed : AppendLog = record remembered {
        index = index_after remembered.index batch now;
      } in
      elim (Result-cases (save_index c indexed).1) [
        | inl (u, saved) ↦ ground arith
        | inr (e, failed) ↦ absurd (ground arith)
      ]

  after_store-IsAppended :
      (log : AppendLog) (batch : Batch) (later id : ℕ)
      → ReadsBack c
      → IsCoherent c log
      → (after_store batch later (with_batch log batch, (save_batch c batch log.disk).1)).1 ≡ ok id
      → (id ≡ batch.id)
        × IsAppended log
            (after_store batch later (with_batch log batch, (save_batch c batch log.disk).1)).0
            batch
  unfolding after_store
  after_store-IsAppended log batch later id back coherent done =
      elim (Result-cases (save_batch c batch log.disk).1) [
        | inr (e, failed) ↦ absurd (ground arith)
        | inl (u, saved) ↦
            let recorded : (record_batch c (with_batch log batch) batch later).1 ≡ ok id =
              rw (after_store, saved) at done in
            let stored = load_batch-save_batch c batch log.disk back saved in
            let others = load_batch-save_batch_ne c batch log.disk in
            rw (after_store, saved)
              (
                record_batch-id (with_batch log batch) batch later id recorded,
                record_batch-IsAppended (with_batch log batch) log batch later coherent stored refl
                    refl refl others,
              )
      ]

  -- A batch that was appended to a log with files whose cache agrees with them is the last one of the
  -- log, gives the log its root, adds its transactions to the count, and is read back from its file;
  -- the files of the other batches read as before and the cache still agrees with the files. The
  -- batch has the next id, and it starts at the root of the log unless the log has none.
  pub append_batch-IsAppended :
      (log : AppendLog) (txs : List Transaction) (pre_root post_root batch_hash : Bytes)
      (now later id : ℕ)
      → ReadsBack c
      → IsCoherent c log
      → log.in_memory ≡ false
      → (append_batch c log txs pre_root post_root batch_hash now later).1 ≡ ok id
      → (id ≡ next_batch_id log.index)
        × (breaks_chain log pre_root ≡ false)
        × IsAppended log
            (append_batch c log txs pre_root post_root batch_hash now later).0
            (new_batch log txs pre_root post_root batch_hash now)
  unfolding append_batch store_batch record_batch
  append_batch-IsAppended log txs pre_root post_root batch_hash now later id back coherent file
        appended =
      let batch = new_batch log txs pre_root post_root batch_hash now in
      elim (Bool-cases (breaks_chain log pre_root)) [
        | inl broken ↦ absurd (ground arith)
        | inr chained ↦
            let steps =
              append_batch-store_batch log txs pre_root post_root batch_hash now later chained
              ∙ ap (after_store batch later) (store_batch-save_batch log batch file) in
            let Done : Called ℕ → Type 0 =
              λ p. p.1 ≡ ok id → (id ≡ batch.id) × IsAppended log p.0 batch in
            let done =
              subst Done (sym steps) (after_store-IsAppended log batch later id back coherent)
                appended in
            (done.0, chained, done.1)
      ]
