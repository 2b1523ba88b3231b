-- ===== src/Da/Saving.antt =====
-- What saving a batch or the index leaves in the files.
use zk_perp.Prelude.{
  ℕ, ◌≡◌, ◌≢◌, refl, true, false, inl, inr, some, arith, Option-cases, Bool-cases, ◌==◌, ==_iff,
  nat_eq, String,
}
use zk_perp.Prelude.Result.{Result, ok, Result-cases}
use zk_perp.Merkle.External.{Bytes}
use zk_perp.Da.Files.{
  Batch, Codec, Disk, FilePath, batch_path, proof_path, index_path, path_beq, load_batch, save,
  load, save_batch, save_index_to_path,
}
use zk_perp.Da.Log.{AppendLog, save_index}

-- The index and the cache of a log, and whether it is in memory, are as in another log.
abbrev pub Kept : AppendLog → AppendLog → Type 0
Kept log' log =
    (log'.index ≡ log.index)
    × (log'.batch_cache ≡ log.batch_cache)
    × (log'.cache_size ≡ log.cache_size)
    × (log'.in_memory ≡ log.in_memory)

path_beq_self : (path : FilePath) → path_beq path path ≡ true
path_beq_self (batch_path i) = (==_iff i i).1 refl
path_beq_self (proof_path i) = (==_iff i i).1 refl
path_beq_self index_path = refl

-- A file that was saved holds what was encoded.
pub contents-save :
    (path : FilePath) (encoded : Result String Bytes) (disk : Disk)
    → (save path encoded disk).1 ≡ ok tt
    → (bytes : Bytes) × (encoded ≡ ok bytes)
      × ((save path encoded disk).0.contents path ≡ some bytes)
unfolding save
contents-save path encoded disk saved = elim (Option-cases (disk.refused path)) [
  | inr (e, refused) ↦ absurd (ground arith)
  | inl free ↦ elim (Result-cases encoded) [
    | inr (e, failed) ↦ absurd (ground arith)
    | inl (bytes, done) ↦ (bytes, done, rw (free, save, done, path_beq_self path) refl)
  ]
]

-- Saving a file changes no other file, whether it succeeds or not.
pub contents-save_ne :
    (path other : FilePath) (encoded : Result String Bytes) (disk : Disk)
    → path_beq path other ≡ false
    → (save path encoded disk).0.contents other ≡ disk.contents other
unfolding save
contents-save_ne path other encoded disk apart = elim (Option-cases (disk.refused path)) [
  | inr (e, refused) ↦ rw (refused, save) refl
  | inl free ↦ elim (Result-cases encoded) [
    | inr (e, failed) ↦ rw (free, save, failed, apart) refl
    | inl (bytes, done) ↦ rw (free, save, done, apart) refl
  ]
]

module _ (c : Codec) where
  -- bincode reads back the batches that it writes.
  abbrev pub ReadsBack : Type 0
  ReadsBack =
      (b : Batch) (bytes : Bytes) → c.encode_batch b ≡ ok bytes → c.decode_batch bytes ≡ ok b

  -- Where a batch could be saved, its file reads as the batch.
  pub load_batch-save_batch :
      (batch : Batch) (disk : Disk)
      → ReadsBack
      → (save_batch c batch disk).1 ≡ ok tt
      → load_batch c batch.id (save_batch c batch disk).0 ≡ ok batch
  unfolding load_batch load save_batch
  load_batch-save_batch batch disk back saved =
      let written = contents-save (batch_path batch.id) (c.encode_batch batch) disk saved in
      rw (load_batch, load, save_batch, written.2, back batch written.0 written.1) refl

  -- Saving a batch changes no file of another batch.
  pub load_batch-save_batch_ne :
      (batch : Batch) (disk : Disk) (j : ℕ)
      → j ≢ batch.id
      → load_batch c j (save_batch c batch disk).0 ≡ load_batch c j disk
  unfolding load_batch load save_batch
  load_batch-save_batch_ne batch disk j apart =
      let other : (batch.id == j) ≡ false = ground (arith, ==_iff batch.id j, apart) in
      rw
        (
          load_batch,
          load,
          save_batch,
          contents-save_ne (batch_path batch.id) (batch_path j) (c.encode_batch batch) disk other,
        )
        refl

  pub save_index-Kept : (log : AppendLog) → Kept (save_index c log).0 log
  unfolding save_index
  save_index-Kept log = elim (Bool-cases log.in_memory) [
    | inl memory ↦ rw memory (refl, refl, refl, refl)
    | inr file ↦ rw file (refl, refl, refl, refl)
  ]

  -- Saving the index changes no file of a batch.
  pub load_batch-save_index :
      (log : AppendLog) (j : ℕ) → load_batch c j (save_index c log).0.disk ≡ load_batch c j log.disk
  unfolding load_batch load save_index save_index_to_path
  load_batch-save_index log j = elim (Bool-cases log.in_memory) [
    | inl memory ↦ rw (save_index, memory) refl
    | inr file ↦
        rw
          (
            save_index,
            file,
            load_batch,
            load,
            save_index_to_path,
            contents-save_ne index_path (batch_path j) (c.encode_index log.index) log.disk refl,
          )
          refl
  ]
