-- ===== src/Da/Log.antt =====
-- `AppendLog`. The folder of the log stands beside its fields; a log in memory has none and writes
-- nothing. The clock is an argument, once for each time it is read.
use zk_perp.Prelude.{
  ℕ, zero, suc, ◌+◌, ◌-◌, Bool, true, false, not, ◌&&◌, Option, none, some, List, [], ◌∷◌, ◌++◌,
  String, length, ltb, leb, min, max, ◌==◌, if◌then◌else◌, nat_eq, bytes_beq,
}
use zk_perp.Prelude.Words.{u32, add_u64}
use zk_perp.Prelude.Map
use zk_perp.Prelude.Map.{Map}
use zk_perp.Prelude.Result.{Result, ok, err, map_err}
use zk_perp.Types.Transaction.{Transaction}
use zk_perp.Merkle.External.{Bytes, zeros}
use zk_perp.Da.Files.{
  DaError, io_error, serialization_error, batch_not_found, state_root_mismatch, Batch, StoredProof,
  DaIndex, Codec, index_path, Disk, save_batch, load_batch, save_proof, load_proof,
  save_index_to_path,
}

pub record AppendLog : Type 0 where
  -- `base_path` is "/dev/null".
  pub in_memory : Bool
  pub batch_cache : Map ℕ Batch
  pub index : DaIndex
  pub cache_size : ℕ
  pub disk : Disk

-- The log after a call, and what the call returns.
abbrev pub Called : Type 0 → Type 0
Called A = AppendLog × Result DaError A

unfoldable pub default_index : ℕ → ℕ → DaIndex
default_index now later = record {
  last_batch_id = 0;
  current_state_root = zeros 32;
  total_transactions = 0;
  created_at = now;
  updated_at = later;
  proven_batches = [];
}

abbrev pub no_disk : Disk
no_disk = record { contents = λ p. none; refused = λ p. none }

unfoldable pub in_memory_log : ℕ → ℕ → AppendLog
unfolding default_index
in_memory_log now later = record {
  in_memory = true;
  batch_cache = [];
  index = default_index now later;
  cache_size = 1000;
  disk = no_disk;
}

-- `keys().min()`
unfoldable pub min_key : Map ℕ Batch → Option ℕ
min_key [] = none
min_key ((k, b) ∷ m) = elim (min_key m) [ none ↦ some k | some j ↦ some (min k j) ]

-- The loop of `trim_cache`, on as many rounds as there are batches.
unfoldable pub trim : ℕ → ℕ → Map ℕ Batch → Map ℕ Batch
unfolding min_key
trim zero size cache = cache
trim (suc rounds) size cache = elim (ltb size (length cache)) [
  | false ↦ cache
  | true ↦ elim (min_key cache) [
    | none ↦ cache
    | some oldest ↦ trim rounds size (Map.remove oldest cache)
  ]
]

unfoldable pub trim_cache : AppendLog → AppendLog
unfolding trim
trim_cache log = record log {
  batch_cache = trim (length log.batch_cache) log.cache_size log.batch_cache;
}

-- A batch put into the cache.
unfoldable pub remember : ℕ → Batch → AppendLog → AppendLog
unfolding trim_cache
remember id batch log =
    trim_cache (record log { batch_cache = Map.insert id batch log.batch_cache })

unfoldable pub contains_id : ℕ → List ℕ → Bool
contains_id id [] = false
contains_id id (i ∷ is) = if i == id then true else contains_id id is

-- `push` and `sort` of a list in order.
unfoldable pub insert_id : ℕ → List ℕ → List ℕ
insert_id id [] = id ∷ []
insert_id id (i ∷ is) = if leb i id then i ∷ insert_id id is else id ∷ i ∷ is

unfoldable pub sort : List ℕ → List ℕ
unfolding insert_id
sort [] = []
sort (i ∷ is) = insert_id i (sort is)

unfoldable pub is_proven : AppendLog → ℕ → Bool
unfolding contains_id
is_proven log batch_id = contains_id batch_id log.index.proven_batches

unfoldable pub next_batch_id : DaIndex → ℕ
next_batch_id index =
    if (index.last_batch_id == 0) && (index.total_transactions == 0)
    then 1
    else add_u64 index.last_batch_id 1

-- The index after a batch.
unfoldable pub index_after : DaIndex → Batch → ℕ → DaIndex
index_after index batch now = record index {
  last_batch_id = batch.id;
  current_state_root = batch.post_state_root;
  total_transactions = add_u64 index.total_transactions batch.tx_count;
  updated_at = now;
}

-- The ids from `start` on, so many of them.
unfoldable pub ids_from : ℕ → ℕ → List ℕ
ids_from zero start = []
ids_from (suc n) start = start ∷ ids_from n (start + 1)

-- `start.max(1)..=end.min(last)`
unfoldable pub get_batch_ids : AppendLog → ℕ → ℕ → List ℕ
unfolding ids_from
get_batch_ids log start end =
    ids_from (min end log.index.last_batch_id + 1 - max start 1) (max start 1)

pub record DaStats : Type 0 where
  pub total_batches : ℕ
  pub total_transactions : ℕ
  pub proven_batches : ℕ
  pub current_state_root : Bytes
  pub created_at : ℕ
  pub updated_at : ℕ

unfoldable pub stats : AppendLog → DaStats
stats log = record {
  total_batches = log.index.last_batch_id;
  total_transactions = log.index.total_transactions;
  proven_batches = length log.index.proven_batches;
  current_state_root = log.index.current_state_root;
  created_at = log.index.created_at;
  updated_at = log.index.updated_at;
}

module _ (c : Codec) where
  -- The index file is there and is read, or it is written.
  unfoldable pub load_or_create_index : ℕ → ℕ → Disk → Disk × Result DaError DaIndex
  unfolding default_index
  load_or_create_index now later disk = elim (disk.contents index_path) [
    | some bytes ↦ (disk, map_err serialization_error (c.decode_index bytes))
    | none ↦
        let index = default_index now later in
        let (disk', written) = save_index_to_path c index_path index disk in
        (disk', elim written [ err e ↦ err e | ok _ ↦ ok index ])
  ]

  -- `made` says how the creation of the two folders ended.
  unfoldable pub new : Result String (Unit {0}) → ℕ → ℕ → Disk → Disk × Result DaError AppendLog
  unfolding load_or_create_index
  new made now later disk = elim made [
    | err e ↦ (disk, err (io_error e))
    | ok _ ↦
        let (disk', loaded) = load_or_create_index now later disk in
        (
          disk',
          elim loaded [
            | err e ↦ err e
            | ok index ↦ ok (record {
              in_memory = false;
              batch_cache = [];
              index = index;
              cache_size = 100;
              disk = disk';
            })
          ],
        )
  ]

  unfoldable pub save_index : AppendLog → Called (Unit {0})
  save_index log =
      if log.in_memory
      then (log, ok tt)
      else (let (disk, written) = save_index_to_path c index_path log.index log.disk in
          (record log { disk = disk }, written))

  -- A file is written only where the log is not in memory.
  unfoldable pub store_batch : AppendLog → Batch → Called (Unit {0})
  store_batch log batch =
      if log.in_memory
      then (log, ok tt)
      else (let (disk, written) = save_batch c batch log.disk in
          (record log { disk = disk }, written))

  unfoldable pub store_proof : AppendLog → StoredProof → Called (Unit {0})
  store_proof log proof =
      if log.in_memory
      then (log, ok tt)
      else (let (disk, written) = save_proof c proof log.disk in
          (record log { disk = disk }, written))

  -- What follows once the batch is stored: the cache, the index and its file.
  unfoldable pub record_batch : AppendLog → Batch → ℕ → Called ℕ
  unfolding remember index_after save_index
  record_batch log batch now =
      let log1 = remember batch.id batch log in
      let (log2, saved) = save_index (record log1 { index = index_after log1.index batch now }) in
      (log2, elim saved [ err e ↦ err e | ok _ ↦ ok batch.id ])

  unfoldable pub append_batch :
      AppendLog → List Transaction → Bytes → Bytes → Bytes → ℕ → ℕ → Called ℕ
  unfolding next_batch_id store_batch record_batch
  append_batch log transactions pre_root post_root batch_hash now later =
      let batch : Batch = record {
        id = next_batch_id log.index;
        transactions = transactions;
        pre_state_root = pre_root;
        post_state_root = post_root;
        timestamp = now;
        batch_hash = batch_hash;
        tx_count = u32 (length transactions);
      } in
      if ltb 0 log.index.last_batch_id && not (bytes_beq pre_root log.index.current_state_root)
      then (log, err (state_root_mismatch log.index.current_state_root pre_root))
      else (let (log1, stored) = store_batch log batch in
          elim stored [ err e ↦ (log1, err e) | ok _ ↦ record_batch log1 batch later ])

  -- The index with one more proven batch.
  unfoldable pub record_proof : AppendLog → ℕ → ℕ → Called (Unit {0})
  unfolding sort save_index
  record_proof log batch_id now = save_index (record log {
    index = record (log.index) {
      proven_batches = sort (log.index.proven_batches ++ batch_id ∷ []);
      updated_at = now;
    };
  })

  unfoldable pub append_proof : AppendLog → ℕ → Bytes → List ℕ → ℕ → ℕ → Called (Unit {0})
  unfolding store_proof record_proof is_proven
  append_proof log batch_id receipt_bytes image_id now later =
      let proof : StoredProof = record {
        batch_id = batch_id;
        receipt_bytes = receipt_bytes;
        image_id = image_id;
        proof_timestamp = now;
      } in
      if ltb log.index.last_batch_id batch_id
      then (log, err (batch_not_found batch_id))
      else (let (log1, stored) = store_proof log proof in
          elim stored [
            | err e ↦ (log1, err e)
            | ok _ ↦
                if is_proven log1 batch_id then (log1, ok tt) else record_proof log1 batch_id later
          ])

  unfoldable pub get_batch : AppendLog → ℕ → Called Batch
  unfolding remember
  get_batch log id = elim (Map.lookup id log.batch_cache) [
    | some batch ↦ (log, ok batch)
    | none ↦ elim (load_batch c id log.disk) [
      | err e ↦ (log, err e)
      | ok batch ↦ (remember id batch log, ok batch)
    ]
  ]

  unfoldable pub get_proof : AppendLog → ℕ → Result DaError StoredProof
  get_proof log batch_id = load_proof c batch_id log.disk

  -- The loop over `id..`, so many batches.
  unfoldable pub replay : ℕ → ℕ → AppendLog → List Transaction → Called (List Transaction)
  unfolding get_batch
  replay zero id log all_txs = (log, ok all_txs)
  replay (suc n) id log all_txs =
      let (log1, got) = get_batch log id in
      elim got [
        | err e ↦ (log1, err e)
        | ok batch ↦ replay n (id + 1) log1 (all_txs ++ batch.transactions)
      ]

  unfoldable pub get_all_transactions : AppendLog → Option ℕ → Called (List Transaction)
  unfolding replay
  get_all_transactions log none = replay log.index.last_batch_id 1 log []
  get_all_transactions log (some end_batch) = replay end_batch 1 log []
