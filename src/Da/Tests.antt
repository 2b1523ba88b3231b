-- ===== src/Da/Tests.antt =====
-- Two batches appended to an empty log.
use zk_perp.Prelude.{◌≡◌, false, [], ◌∷◌, arith, List}
use zk_perp.Merkle.External.{zeros}
use zk_perp.Types.Transaction.{Transaction}
use zk_perp.Da.Files.{Batch, load_batch}
use zk_perp.Da.Log.{get_batch, replay, next_batch_id}
use zk_perp.Da.Cache.{IsRead, get_batch-load_batch, replay-stored_transactions, stored_transactions}
use zk_perp.Da.Append.{IsAppended, new_batch, breaks_chain, append_batch-IsAppended}
use zk_perp.Da.Chain.{IsChain, append_batch-IsChain}
use zk_perp.Da.Sample.{
  sample_codec, sample_codec-ReadsBack, empty_log, empty_log-IsChain, one_batch, one_batch_appended,
  one_batch-IsChain,
}

append_batch-IsChain_example : IsChain sample_codec one_batch
unfolding one_batch empty_log
append_batch-IsChain_example =
    append_batch-IsChain sample_codec empty_log [] (zeros 32) (7 ∷ []) [] 1 2 1
      sample_codec-ReadsBack (ground arith) empty_log-IsChain one_batch_appended

append_batch-IsAppended_example :
    (1 ≡ next_batch_id empty_log.index)
    × (breaks_chain empty_log (zeros 32) ≡ false)
    × IsAppended sample_codec empty_log one_batch (new_batch empty_log [] (zeros 32) (7 ∷ []) [] 1)
unfolding one_batch
append_batch-IsAppended_example =
    append_batch-IsAppended sample_codec empty_log [] (zeros 32) (7 ∷ []) [] 1 2 1
      sample_codec-ReadsBack empty_log-IsChain.coherent empty_log-IsChain.file one_batch_appended

get_batch-load_batch_example :
    IsRead sample_codec Batch one_batch
      (get_batch sample_codec one_batch 1).0
      (get_batch sample_codec one_batch 1).1
      (load_batch sample_codec 1 one_batch.disk)
get_batch-load_batch_example =
    get_batch-load_batch sample_codec one_batch 1 one_batch-IsChain.coherent

replay-stored_transactions_example :
    IsRead sample_codec
      (List Transaction)
      one_batch
      (replay sample_codec 1 1 one_batch []).0
      (replay sample_codec 1 1 one_batch []).1
      (stored_transactions sample_codec 1 1 one_batch.disk [])
replay-stored_transactions_example =
    replay-stored_transactions sample_codec 1 1 one_batch [] one_batch-IsChain.coherent
