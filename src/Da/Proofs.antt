-- ===== src/Da/Proofs.antt =====
-- Appending a proof to the log: `append_proof`.
use zk_perp.Prelude.{
  ℕ, ◌+◌, ◌≡◌, refl, ap, sym, ◌∙◌, inl, inr, Option, none, some, arith, if_both, ltb, ◌++◌, [], ◌∷◌,
  List,
}
use zk_perp.Prelude.Result.{ok, err, map_err, Result-cases}
use zk_perp.Merkle.External.{Bytes}
use zk_perp.Da.Files.{
  StoredProof, Codec, DaIndex, Disk, batch_path, proof_path, batch_not_found, serialization_error,
  load, load_batch, save_proof,
}
use zk_perp.Da.Log.{
  AppendLog, Called, save_index, sort, is_proven, store_proof, record_proof, append_proof,
}
use zk_perp.Da.Saving.{contents-save_ne, save_index-Kept, load_batch-save_index}
use zk_perp.Da.Append.{IsCoherent-Kept}
use zk_perp.Da.Chain.{IsChain, IsLinked}

module _ (c : Codec) where
  -- The batches of an index with the same end, in files that read alike.
  IsLinked-Kept :
      (index index' : DaIndex) (disk disk' : Disk)
      → index'.last_batch_id ≡ index.last_batch_id
      → index'.current_state_root ≡ index.current_state_root
      → ((j : ℕ) → load_batch c j disk' ≡ load_batch c j disk)
      → IsLinked c index disk
      → IsLinked c index' disk'
  IsLinked-Kept index index' disk disk' last root files linked = record {
    stored = λ j pos most.
        let old = linked.stored j pos (ground (arith, last, most)) in
        (old.0, files j ∙ old.1, old.2);
    linked = λ j b b' pos below load load'.
        linked.linked j b b' pos (ground (arith, last, below)) (sym (files j) ∙ load)
          (sym (files (j + 1)) ∙ load');
    ends_at_root = λ b pos load.
        linked.ends_at_root b (ground (arith, last, pos))
          (ap (λ j. load_batch c j disk) (sym last) ∙ sym (files index'.last_batch_id) ∙ load)
        ∙ sym root;
  }

  -- A log that differs in its proofs alone.
  pub record IsAlike (log log' : AppendLog) : Type 0 where
    pub last : log'.index.last_batch_id ≡ log.index.last_batch_id
    pub root : log'.index.current_state_root ≡ log.index.current_state_root
    pub cache : log'.batch_cache ≡ log.batch_cache
    pub memory : log'.in_memory ≡ log.in_memory
    pub files : (j : ℕ) → load_batch c j log'.disk ≡ load_batch c j log.disk

  pub IsAlike-refl : (log : AppendLog) → IsAlike log log
  IsAlike-refl log = record {
    last = refl;
    root = refl;
    cache = refl;
    memory = refl;
    files = λ j. refl;
  }

  IsAlike-trans :
      (log log1 log2 : AppendLog) → IsAlike log log1 → IsAlike log1 log2 → IsAlike log log2
  IsAlike-trans log log1 log2 first second = record {
    last = second.last ∙ first.last;
    root = second.root ∙ first.root;
    cache = second.cache ∙ first.cache;
    memory = second.memory ∙ first.memory;
    files = λ j. second.files j ∙ first.files j;
  }

  pub IsAlike-IsChain : (log log' : AppendLog) → IsAlike log log' → IsChain c log → IsChain c log'
  IsAlike-IsChain log log' alike chain = record {
    file = alike.memory ∙ chain.file;
    coherent = IsCoherent-Kept c log log' chain.coherent alike.cache alike.files;
    batches =
        IsLinked-Kept log.index log'.index log.disk log'.disk alike.last alike.root alike.files
          chain.batches;
  }

  save_index-IsAlike : (log : AppendLog) → IsAlike log (save_index c log).0
  save_index-IsAlike log =
      let kept = save_index-Kept c log in
      record {
        last = ap (λ (i : DaIndex). i.last_batch_id) kept.0;
        root = ap (λ (i : DaIndex). i.current_state_root) kept.0;
        cache = kept.1;
        memory = kept.3;
        files = load_batch-save_index c log;
      }

  store_proof-IsAlike :
      (log : AppendLog) (proof : StoredProof) → IsAlike log (store_proof c log proof).0
  unfolding store_proof load_batch load save_proof
  store_proof-IsAlike log proof =
      let (disk, saved) = save_proof c proof log.disk in
      let saved_log : AppendLog = record log { disk = disk } in
      if_both (λ (p : Called (Unit {0})). IsAlike log p.0) log.in_memory (log, ok tt)
        (saved_log, saved) (IsAlike-refl log)
        (record {
          last = refl;
          root = refl;
          cache = refl;
          memory = refl;
          files = λ j.
              ap
                (λ (o : Option Bytes). elim o [
                  | none ↦ err (batch_not_found j)
                  | some bytes ↦ map_err serialization_error (c.decode_batch bytes)
                ])
                (contents-save_ne (proof_path proof.batch_id) (batch_path j) (c.encode_proof proof)
                  log.disk refl);
        })

  record_proof-IsAlike :
      (log : AppendLog) (batch_id now : ℕ) → IsAlike log (record_proof c log batch_id now).0
  unfolding record_proof
  record_proof-IsAlike log batch_id now =
      let index : DaIndex = record (log.index) {
        proven_batches = sort (log.index.proven_batches ++ batch_id ∷ []);
        updated_at = now;
      } in
      let proven : AppendLog = record log { index = index } in
      IsAlike-trans log proven (record_proof c log batch_id now).0
        (record { last = refl; root = refl; cache = refl; memory = refl; files = λ j. refl })
        (save_index-IsAlike proven)

  pub append_proof-IsAlike :
      (log : AppendLog) (batch_id : ℕ) (receipt_bytes : Bytes) (image_id : List ℕ) (now later : ℕ)
      → IsAlike log (append_proof c log batch_id receipt_bytes image_id now later).0
  unfolding append_proof
  append_proof-IsAlike log batch_id receipt_bytes image_id now later =
      let proof : StoredProof = record {
        batch_id = batch_id;
        receipt_bytes = receipt_bytes;
        image_id = image_id;
        proof_timestamp = now;
      } in
      let log1 = (store_proof c log proof).0 in
      let stored = store_proof-IsAlike log proof in
      let recorded = record_proof-IsAlike log1 batch_id later in
      let Alike : Called (Unit {0}) → Type 0 = λ p. IsAlike log p.0 in
      let proven =
        if_both Alike (is_proven log1 batch_id) (log1, ok tt) (record_proof c log1 batch_id later)
          stored (IsAlike-trans log log1 (record_proof c log1 batch_id later).0 stored recorded) in
      if_both Alike (ltb log.index.last_batch_id batch_id) (log, err (batch_not_found batch_id)) _
        (IsAlike-refl log)
        (elim (Result-cases (store_proof c log proof).1) [
          | inr (e, failed) ↦ rw failed stored
          | inl (u, saved) ↦ rw saved proven
        ])

  -- Appending a proof keeps the invariant of the log, whether it succeeds or not.
  pub append_proof-IsChain :
      (log : AppendLog) (batch_id : ℕ) (receipt_bytes : Bytes) (image_id : List ℕ) (now later : ℕ)
      → IsChain c log
      → IsChain c (append_proof c log batch_id receipt_bytes image_id now later).0
  append_proof-IsChain log batch_id receipt_bytes image_id now later chain =
      IsAlike-IsChain log (append_proof c log batch_id receipt_bytes image_id now later).0
        (append_proof-IsAlike log batch_id receipt_bytes image_id now later) chain
