-- ===== src/Da/Chain.antt =====
-- The invariant of a log with files: its batches are numbered from one, each starts where the one
-- before ends, and the index has the root at which the last one ends.
use zk_perp.Prelude.{
  ℕ, ◌+◌, ◌≤◌, ◌<◌, ◌^◌, ◌≡◌, ◌≢◌, ap, subst, sym, ◌∙◌, false, inl, inr, List, arith, Bool-cases,
  ◌==◌, ==_iff, bytes_beq_iff,
}
use zk_perp.Prelude.Result.{Result, ok}
use zk_perp.Types.Transaction.{Transaction}
use zk_perp.Merkle.External.{Bytes}
use zk_perp.Da.Files.{Batch, Codec, DaIndex, Disk, load_batch, DaError}
use zk_perp.Da.Log.{AppendLog, append_batch, next_batch_id, get_batch}
use zk_perp.Da.Cache.{IsCoherent, IsRead, get_batch-load_batch}
use zk_perp.Da.Saving.{ReadsBack}
use zk_perp.Da.Append.{IsAppended, append_batch-IsAppended, new_batch}

pub next_batch_id_lem :
    (log : AppendLog)
    → log.index.last_batch_id + 1 < 2 ^ 64
    → next_batch_id log.index ≡ log.index.last_batch_id + 1
unfolding next_batch_id
next_batch_id_lem log fits = ground arith

module _ (c : Codec) where
  -- The batches of an index, in their files.
  pub record IsLinked (index : DaIndex) (disk : Disk) : Type 0 where
    -- Every number up to the last has its batch.
    pub stored :
        (j : ℕ)
        → 0 < j
        → j ≤ index.last_batch_id
        → (b : Batch) × (load_batch c j disk ≡ ok b) × (b.id ≡ j)
    pub linked :
        (j : ℕ) (b b' : Batch)
        → 0 < j
        → j < index.last_batch_id
        → load_batch c j disk ≡ ok b
        → load_batch c (j + 1) disk ≡ ok b'
        → b'.pre_state_root ≡ b.post_state_root
    pub ends_at_root :
        (b : Batch)
        → 0 < index.last_batch_id
        → load_batch c index.last_batch_id disk ≡ ok b
        → b.post_state_root ≡ index.current_state_root

  pub record IsChain (log : AppendLog) : Type 0 where
    pub file : log.in_memory ≡ false
    pub coherent : IsCoherent c log
    pub batches : IsLinked log.index log.disk

  -- The batches that a log of one more batch holds.
  appended_stored :
      (log log' : AppendLog) (batch : Batch)
      → IsChain log
      → IsAppended c log log' batch
      → batch.id ≡ log.index.last_batch_id + 1
      → (j : ℕ) → 0 < j
      → j ≤ log'.index.last_batch_id
      → (b : Batch) × (load_batch c j log'.disk ≡ ok b) × (b.id ≡ j)
  appended_stored log log' batch chain appended next j pos most =
      elim (Bool-cases (j == batch.id)) [
        | inl same ↦
            let at : j ≡ batch.id = (==_iff j batch.id).0 same in
            (batch, ap (λ i. load_batch c i log'.disk) at ∙ appended.stored, sym at)
        | inr other ↦
            let apart : j ≢ batch.id = ground (arith, ==_iff j batch.id) in
            let below : j ≤ log.index.last_batch_id = ground (arith, appended.last) in
            let old = chain.batches.stored j pos below in
            (old.0, appended.others_kept j apart ∙ old.1, old.2)
      ]

  appended_linked :
      (log log' : AppendLog) (batch : Batch)
      → IsChain log
      → IsAppended c log log' batch
      → batch.id ≡ log.index.last_batch_id + 1
      → (0 < log.index.last_batch_id → batch.pre_state_root ≡ log.index.current_state_root)
      → (j : ℕ) (b b' : Batch) → 0 < j
      → j < log'.index.last_batch_id
      → load_batch c j log'.disk ≡ ok b
      → load_batch c (j + 1) log'.disk ≡ ok b'
      → b'.pre_state_root ≡ b.post_state_root
  appended_linked log log' batch chain appended next starts j b b' pos under load load' =
      let apart : j ≢ batch.id = ground (arith, appended.last) in
      let old = sym (appended.others_kept j apart) ∙ load in
      elim (Bool-cases (j + 1 == batch.id)) [
        | inl end ↦
            let at : j + 1 ≡ batch.id = (==_iff (j + 1) batch.id).0 end in
            let is_new : ok b' ≡ ok batch =
              sym load' ∙ ap (λ i. load_batch c i log'.disk) at ∙ appended.stored in
            let before : j ≡ log.index.last_batch_id = ground arith in
            let last : load_batch c log.index.last_batch_id log.disk ≡ ok b =
              ap (λ i. load_batch c i log.disk) (sym before) ∙ old in
            let some_batch : 0 < log.index.last_batch_id = ground arith in
            let same : b' ≡ batch = cc in
            ap (λ (d : Batch). d.pre_state_root) same
            ∙ starts some_batch
            ∙ sym (chain.batches.ends_at_root b some_batch last)
        | inr inner ↦
            let apart' : j + 1 ≢ batch.id = ground (arith, ==_iff (j + 1) batch.id) in
            let below : j < log.index.last_batch_id = ground (arith, appended.last) in
            chain.batches.linked j b b' pos below old
              (sym (appended.others_kept (j + 1) apart') ∙ load')
      ]

  -- A batch that was appended continues the chain.
  IsAppended-IsChain :
      (log log' : AppendLog) (batch : Batch)
      → IsChain log
      → IsAppended c log log' batch
      → batch.id ≡ log.index.last_batch_id + 1
      → (0 < log.index.last_batch_id → batch.pre_state_root ≡ log.index.current_state_root)
      → IsChain log'
  IsAppended-IsChain log log' batch chain appended next starts = record {
    file = appended.in_memory_kept ∙ chain.file;
    coherent = appended.coherent_after;
    batches = record {
      stored = appended_stored log log' batch chain appended next;
      linked = appended_linked log log' batch chain appended next starts;
      ends_at_root = λ b pos load.
          let is_new : ok b ≡ ok batch =
            sym load ∙ ap (λ i. load_batch c i log'.disk) appended.last ∙ appended.stored in
          let same : b ≡ batch = cc in
          ap (λ (d : Batch). d.post_state_root) same ∙ sym appended.root;
    };
  }

  -- A successful append keeps the invariant of the log: the batches are numbered without a gap, each
  -- starts at the root where the one before ends, and the index has the root of the last one. It
  -- needs an encoding that reads back what it writes, and numbers below the end of 64 bits.
  pub append_batch-IsChain :
      (log : AppendLog) (txs : List Transaction) (pre_root post_root batch_hash : Bytes)
      (now later id : ℕ)
      → ReadsBack c
      → log.index.last_batch_id + 1 < 2 ^ 64
      → IsChain log
      → (append_batch c log txs pre_root post_root batch_hash now later).1 ≡ ok id
      → IsChain (append_batch c log txs pre_root post_root batch_hash now later).0
  unfolding next_batch_id
  append_batch-IsChain log txs pre_root post_root batch_hash now later id back fits chain done =
      let log' = (append_batch c log txs pre_root post_root batch_hash now later).0 in
      let batch = new_batch log txs pre_root post_root batch_hash now in
      let appended =
        append_batch-IsAppended c log txs pre_root post_root batch_hash now later id back
          chain.coherent chain.file done in
      let starts : 0 < log.index.last_batch_id → pre_root ≡ log.index.current_state_root =
        λ pos. ground (arith, bytes_beq_iff pre_root log.index.current_state_root, appended.1) in
      IsAppended-IsChain log log' batch chain appended.2 (next_batch_id_lem log fits) starts

  -- What reads batches keeps the invariant.
  pub IsRead-IsChain :
      (A : Type 0) (log log' : AppendLog) (r r' : Result DaError A)
      → IsChain log
      → IsRead c A log log' r r'
      → IsChain log'
  IsRead-IsChain A log log' r r' chain read = record {
    file = read.in_memory_kept ∙ chain.file;
    coherent = read.coherent_after;
    batches =
        subst (λ i. IsLinked i log'.disk) (sym read.index_kept)
          (subst (λ d. IsLinked log.index d) (sym read.disk_kept) chain.batches);
  }

  -- A log with the invariant keeps it where a batch is read, and a number from one to the last gives
  -- the batch with that number, as its file holds it.
  pub get_batch-IsChain :
      (log : AppendLog) (id : ℕ)
      → IsChain log
      → 0 < id
      → id ≤ log.index.last_batch_id
      → IsChain (get_batch c log id).0
        × ((b : Batch) × ((get_batch c log id).1 ≡ ok b)
            × (b.id ≡ id)
            × (load_batch c id log.disk ≡ ok b))
  get_batch-IsChain log id chain pos most =
      let read = get_batch-load_batch c log id chain.coherent in
      let found = chain.batches.stored id pos most in
      let after =
        IsRead-IsChain Batch log (get_batch c log id).0 (get_batch c log id).1
          (load_batch c id log.disk) chain read in
      (after, (found.0, read.answer ∙ found.1, found.2, found.1))
