-- ===== src/Da/Sample.antt =====
-- A codec for batches of one deposit at most, over a folder that refuses nothing.
use zk_perp.Prelude.{
  ℕ, zero, suc, ◌≡◌, refl, ap, sym, ◌∙◌, false, none, List, [], ◌∷◌, ◌++◌, String, length, take,
  arith,
}
use zk_perp.Prelude.Result.{Result, ok, err}
use zk_perp.Types.Transaction.{
  Transaction, deposit, withdraw, place_order, cancel_order, liquidate, update_oracle,
}
use zk_perp.Merkle.External.{Bytes, zeros}
use zk_perp.Da.Files.{Batch, StoredProof, Codec, save_batch, save_index_to_path}
use zk_perp.Da.Log.{AppendLog, default_index, append_batch, append_proof}
use zk_perp.Da.Saving.{ReadsBack}
use zk_perp.Da.Chain.{IsChain, append_batch-IsChain}
use zk_perp.Da.Proofs.{append_proof-IsChain}

abbrev drop_bytes : ℕ → Bytes → Bytes
drop_bytes zero b = b
drop_bytes (suc n) [] = []
drop_bytes (suc n) (x ∷ b) = drop_bytes n b

take_drop :
    (xs ys : Bytes) → (take (length xs) (xs ++ ys) ≡ xs) × (drop_bytes (length xs) (xs ++ ys) ≡ ys)
take_drop [] ys = (refl, refl)
take_drop (x ∷ xs) ys = (ap (λ t. x ∷ t) (take_drop xs ys).0, (take_drop xs ys).1)

-- Both roots with their lengths before them, and one deposit at most.
abbrev encode_fields : ℕ → List Transaction → Bytes → Bytes → ℕ → Bytes → ℕ → Result String Bytes
encode_fields id [] pre post now hash count =
    ok (id ∷ now ∷ count ∷ length pre ∷ length post ∷ 0 ∷ (pre ++ (post ++ hash)))
encode_fields id (deposit t ∷ []) pre post now hash count = ok (
    id
    ∷ now
    ∷ count
    ∷ length pre
    ∷ length post
    ∷ 1
    ∷ t.account_id
    ∷ t.asset_id
    ∷ t.amount
    ∷ t.nonce
    ∷ (pre ++ (post ++ hash)))
encode_fields id (tx ∷ txs) pre post now hash count = err "transactions"

abbrev batch_of : ℕ → List Transaction → ℕ → ℕ → ℕ → ℕ → Bytes → Batch
batch_of id txs now count n m rest = record {
  id = id;
  transactions = txs;
  pre_state_root = take n rest;
  post_state_root = take m (drop_bytes n rest);
  timestamp = now;
  batch_hash = drop_bytes m (drop_bytes n rest);
  tx_count = count;
}

abbrev decode_fields : Bytes → Result String Batch
decode_fields (id ∷ now ∷ count ∷ n ∷ m ∷ zero ∷ rest) = ok (batch_of id [] now count n m rest)
decode_fields (id ∷ now ∷ count ∷ n ∷ m ∷ suc k ∷ account ∷ asset ∷ amount ∷ nonce ∷ rest) = ok (
    batch_of id
      (deposit (record { account_id = account; asset_id = asset; amount = amount; nonce = nonce })
        ∷ [])
      now count n m rest)
decode_fields _ = err "length"

abbrev decode_receipt_fields : Bytes → Result String StoredProof
decode_receipt_fields (id ∷ now ∷ rest) =
    ok (record { batch_id = id; receipt_bytes = rest; image_id = []; proof_timestamp = now })
decode_receipt_fields _ = err "length"

abbrev pub sample_codec : Codec
sample_codec = record {
  encode_batch = λ b.
      encode_fields b.id b.transactions b.pre_state_root b.post_state_root b.timestamp b.batch_hash
        b.tx_count;
  decode_batch = decode_fields;
  encode_proof = λ p. ok (p.batch_id ∷ p.proof_timestamp ∷ p.receipt_bytes);
  decode_proof = decode_receipt_fields;
  encode_index = λ i. ok [];
  decode_index = λ b. err "index";
}

abbrev batch_with : ℕ → List Transaction → Bytes → Bytes → ℕ → Bytes → ℕ → Batch
batch_with id txs pre post now batch_hash count = record {
  id = id;
  transactions = txs;
  pre_state_root = pre;
  post_state_root = post;
  timestamp = now;
  batch_hash = batch_hash;
  tx_count = count;
}

batch_of_lem :
    (id : ℕ) (txs : List Transaction) (pre post : Bytes) (now : ℕ) (batch_hash : Bytes) (count : ℕ)
    → batch_of id txs now count (length pre) (length post) (pre ++ (post ++ batch_hash))
      ≡ batch_with id txs pre post now batch_hash count
batch_of_lem id txs pre post now batch_hash count =
    let first = take_drop pre (post ++ batch_hash) in
    let second = take_drop post batch_hash in rw (first.0, first.1, second.0, second.1) refl

reads_back_fields :
    (id : ℕ) (txs : List Transaction) (pre post : Bytes) (now : ℕ) (batch_hash : Bytes) (count : ℕ)
    (bytes : Bytes)
    → encode_fields id txs pre post now batch_hash count ≡ ok bytes
    → decode_fields bytes ≡ ok (batch_with id txs pre post now batch_hash count)
reads_back_fields id [] pre post now batch_hash count bytes encoded =
    let written : id ∷ now ∷ count ∷ length pre ∷ length post ∷ 0 ∷ (pre ++ (post ++ batch_hash))
        ≡ bytes =
      cc in
    ap decode_fields (sym written) ∙ ap ok (batch_of_lem id [] pre post now batch_hash count)
reads_back_fields id (deposit t ∷ []) pre post now batch_hash count bytes encoded =
    let written : id
          ∷ now
          ∷ count
          ∷ length pre
          ∷ length post
          ∷ 1
          ∷ t.account_id
          ∷ t.asset_id
          ∷ t.amount
          ∷ t.nonce
          ∷ (pre ++ (post ++ batch_hash))
        ≡ bytes =
      cc in
    ap decode_fields (sym written)
    ∙ ap ok (batch_of_lem id (deposit t ∷ []) pre post now batch_hash count)
reads_back_fields id (deposit t ∷ u ∷ us) pre post now batch_hash count bytes encoded = absurd (cc)
reads_back_fields id (withdraw t ∷ us) pre post now batch_hash count bytes encoded = absurd (cc)
reads_back_fields id (place_order t ∷ us) pre post now batch_hash count bytes encoded = absurd (cc)
reads_back_fields id (cancel_order t ∷ us) pre post now batch_hash count bytes encoded = absurd (cc)
reads_back_fields id (liquidate t ∷ us) pre post now batch_hash count bytes encoded = absurd (cc)
reads_back_fields id (update_oracle t ∷ us) pre post now batch_hash count bytes encoded =
    absurd (cc)

pub sample_codec-ReadsBack : ReadsBack sample_codec
sample_codec-ReadsBack b bytes encoded =
    reads_back_fields b.id b.transactions b.pre_state_root b.post_state_root b.timestamp
      b.batch_hash b.tx_count bytes encoded

-- A log without batches, in an empty folder.
unfoldable pub empty_log : AppendLog
unfolding default_index
empty_log = record {
  in_memory = false;
  batch_cache = [];
  index = default_index 0 0;
  cache_size = 100;
  disk = record { contents = λ p. none; refused = λ p. none };
}

pub empty_log-IsChain : IsChain sample_codec empty_log
unfolding empty_log default_index
empty_log-IsChain = record {
  file = refl;
  coherent = λ j b found. absurd (cc);
  batches = record {
    stored = λ j pos most. absurd (ground arith);
    linked = λ j b b' pos below load load'. absurd (ground arith);
    ends_at_root = λ b pos load. absurd (ground arith);
  };
}

-- The log with one batch.
unfoldable pub one_batch : AppendLog
unfolding append_batch empty_log
one_batch = (append_batch sample_codec empty_log [] (zeros 32) (7 ∷ []) [] 1 2).0

pub one_batch_appended :
    (append_batch sample_codec empty_log [] (zeros 32) (7 ∷ []) [] 1 2).1 ≡ ok 1
unfolding append_batch empty_log save_batch save_index_to_path
one_batch_appended = refl

pub one_batch-IsChain : IsChain sample_codec one_batch
unfolding one_batch empty_log
one_batch-IsChain =
    append_batch-IsChain sample_codec empty_log [] (zeros 32) (7 ∷ []) [] 1 2 1
      sample_codec-ReadsBack (ground arith) empty_log-IsChain one_batch_appended

-- The same log with a proof of the batch.
unfoldable pub proven_batch : AppendLog
unfolding append_proof one_batch
proven_batch = (append_proof sample_codec one_batch 1 (5 ∷ []) [] 3 4).0

pub proven_batch-IsChain : IsChain sample_codec proven_batch
unfolding proven_batch
proven_batch-IsChain =
    append_proof-IsChain sample_codec one_batch 1 (5 ∷ []) [] 3 4 one_batch-IsChain
