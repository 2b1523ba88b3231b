-- ===== src/Da/Cache.antt =====
-- The cache of the log over its files: `get_batch` and the loop that reads all transactions.
use zk_perp.Prelude.{
  ℕ, zero, suc, ◌+◌, ◌≡◌, ◌≢◌, refl, ap, sym, ◌∙◌, inl, inr, some, List, ◌++◌, length, ltb, arith,
  Option-cases, Bool-cases, ◌==◌, ==_iff, nat_eq,
}
use zk_perp.Prelude.Map
use zk_perp.Prelude.Map.{
  Map, lookup-remove_self, lookup-remove_ne, lookup-insert_self, lookup-insert_ne,
}
use zk_perp.Prelude.Result.{Result, ok, err, Result-cases}
use zk_perp.Types.Transaction.{Transaction}
use zk_perp.Da.Files.{DaError, Batch, Codec, Disk, load_batch}
use zk_perp.Da.Log.{AppendLog, min_key, trim, trim_cache, remember, get_batch, replay}

lookup-remove :
    (j k : ℕ) (b : Batch) (m : Map ℕ Batch)
    → Map.lookup j (Map.remove k m) ≡ some b
    → Map.lookup j m ≡ some b
lookup-remove j k b m h = elim (Bool-cases (j == k)) [
  | inl same ↦
      let at_key : j ≡ k = (==_iff j k).0 same in
      absurd (ground (arith, lookup-remove_self k m, at_key, h))
  | inr other ↦ sym (lookup-remove_ne j k m (λ e. ground (arith, (==_iff j k).1 e))) ∙ h
]

-- Trimming adds no batch.
pub lookup-trim :
    (rounds size j : ℕ) (b : Batch) (m : Map ℕ Batch)
    → Map.lookup j (trim rounds size m) ≡ some b
    → Map.lookup j m ≡ some b
unfolding trim
lookup-trim zero size j b m h = h
lookup-trim (suc rounds) size j b m h = elim (Bool-cases (ltb size (length m))) [
  | inl over ↦ elim (Option-cases (min_key m)) [
    | inl empty ↦ ground arith
    | inr (oldest, found) ↦
        lookup-remove j oldest b m
          (lookup-trim rounds size j b (Map.remove oldest m) (rw (over, found, trim) at h))
  ]
  | inr fits ↦ ground arith
]

module _ (c : Codec) where
  -- Each cached batch is the one of its file.
  abbrev pub IsCoherent : AppendLog → Type 0
  IsCoherent log =
      (j : ℕ) (b : Batch) → Map.lookup j log.batch_cache ≡ some b → load_batch c j log.disk ≡ ok b

  pub remember-IsCoherent :
      (id : ℕ) (batch : Batch) (log : AppendLog)
      → ((j : ℕ) (b : Batch)
          → j ≢ id
          → Map.lookup j log.batch_cache ≡ some b
          → load_batch c j log.disk ≡ ok b)
      → load_batch c id log.disk ≡ ok batch
      → IsCoherent (remember id batch log)
  unfolding remember trim_cache
  remember-IsCoherent id batch log coherent stored j b h =
      let m = Map.insert id batch log.batch_cache in
      let inserted = lookup-trim (length m) log.cache_size j b m h in
      elim (Bool-cases (j == id)) [
        | inl same ↦
            let at_key : j ≡ id = (==_iff j id).0 same in
            ground (arith, lookup-insert_self id batch log.batch_cache, inserted, stored)
        | inr other ↦
            let apart : j ≢ id = λ e. ground (arith, (==_iff j id).1 e) in
            coherent j b apart (sym (lookup-insert_ne j id batch log.batch_cache apart) ∙ inserted)
      ]

  -- What reading a batch does: it returns what the file holds and keeps the files, the index and the
  -- coherence of the cache.
  pub record IsRead (A : Type 0) (log log' : AppendLog) (returned expected : Result DaError A)
      : Type 0 where
    pub answer : returned ≡ expected
    pub disk_kept : log'.disk ≡ log.disk
    pub index_kept : log'.index ≡ log.index
    pub in_memory_kept : log'.in_memory ≡ log.in_memory
    pub coherent_after : IsCoherent log'

  -- Where each cached batch is the one of its file, reading a batch through the cache returns what
  -- its file holds, and keeps the files, the index and that agreement.
  pub get_batch-load_batch :
      (log : AppendLog) (id : ℕ)
      → IsCoherent log
      → IsRead Batch log (get_batch c log id).0 (get_batch c log id).1 (load_batch c id log.disk)
  unfolding get_batch remember trim_cache
  get_batch-load_batch log id coherent = elim (Option-cases (Map.lookup id log.batch_cache)) [
    | inr (b, cached) ↦
        rw (cached, get_batch)
          (record {
            answer = sym (coherent id b cached);
            disk_kept = refl;
            index_kept = refl;
            in_memory_kept = refl;
            coherent_after = coherent;
          })
    | inl missing ↦ elim (Result-cases (load_batch c id log.disk)) [
      | inl (b, loaded) ↦
          rw (missing, get_batch, loaded)
            (record {
              answer = refl;
              disk_kept = refl;
              index_kept = refl;
              in_memory_kept = refl;
              coherent_after = remember-IsCoherent id b log (λ j d apart. coherent j d) loaded;
            })
      | inr (e, failed) ↦
          rw (missing, get_batch, failed)
            (record {
              answer = refl;
              disk_kept = refl;
              index_kept = refl;
              in_memory_kept = refl;
              coherent_after = coherent;
            })
    ]
  ]

  -- What the loop over the batches reads where there is no cache.
  pub stored_transactions : ℕ → ℕ → Disk → List Transaction → Result DaError (List Transaction)
  stored_transactions zero id disk all_txs = ok all_txs
  stored_transactions (suc n) id disk all_txs = elim (load_batch c id disk) [
    | err e ↦ err e
    | ok batch ↦ stored_transactions n (id + 1) disk (all_txs ++ batch.transactions)
  ]

  -- Where each cached batch is the one of its file, reading the transactions of so many batches through
  -- the cache returns what reading them from the files returns, and keeps the files, the index and
  -- that agreement.
  pub replay-stored_transactions :
      (n id : ℕ) (log : AppendLog) (all_txs : List Transaction)
      → IsCoherent log
      → IsRead
          (List Transaction)
          log
          (replay c n id log all_txs).0
          (replay c n id log all_txs).1
          (stored_transactions n id log.disk all_txs)
  unfolding replay stored_transactions
  replay-stored_transactions zero id log all_txs coherent = record {
    answer = refl;
    disk_kept = refl;
    index_kept = refl;
    in_memory_kept = refl;
    coherent_after = coherent;
  }
  replay-stored_transactions (suc n) id log all_txs coherent =
      let first = get_batch-load_batch log id coherent in
      elim (Result-cases (load_batch c id log.disk)) [
        | inr (e, failed) ↦
            rw (first.answer ∙ failed, replay, stored_transactions, failed)
              (record {
                answer = refl;
                disk_kept = first.disk_kept;
                index_kept = first.index_kept;
                in_memory_kept = first.in_memory_kept;
                coherent_after = first.coherent_after;
              })
        | inl (b, loaded) ↦
            let rest =
              replay-stored_transactions n (id + 1) (get_batch c log id).0
                (all_txs ++ b.transactions) first.coherent_after in
            rw (first.answer ∙ loaded, replay, stored_transactions, loaded)
              (record {
                answer =
                    rest.answer
                    ∙ ap (λ d. stored_transactions n (id + 1) d (all_txs ++ b.transactions))
                        first.disk_kept;
                disk_kept = rest.disk_kept ∙ first.disk_kept;
                index_kept = rest.index_kept ∙ first.index_kept;
                in_memory_kept = rest.in_memory_kept ∙ first.in_memory_kept;
                coherent_after = rest.coherent_after;
              })
      ]
