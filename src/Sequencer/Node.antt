-- ===== src/Sequencer/Node.antt =====
-- The state of a sequencer and the shape of its calls. Each lock is taken for one statement or one
-- block, and a call is modelled as it runs when no other call comes between. A call returns the
-- sequencer as it leaves it, also after an error; `panic` is an abort of the task. An error of another
-- part is kept as it is where the code keeps its text.
use zk_perp.Prelude.{
  ℕ, Bool, true, Option, List, [], String, if◌then◌else◌, nat_eq, ◌≡◌, refl, ◌⊎◌, inl, inr, arith,
}
use zk_perp.Prelude.Map
use zk_perp.Prelude.Map.{Map}
use zk_perp.Prelude.Result.{Result}
use zk_perp.Types.Account.{Account}
use zk_perp.Types.Position.{Position}
use zk_perp.Types.Transaction.{SignedTransaction}
use zk_perp.Merkle.External.{Bytes, External}
use zk_perp.State.Global.{GlobalState, StateError}
use zk_perp.State.Global
use zk_perp.Crypto.Keys.{CryptoError}
use zk_perp.Oracle.Mock
use zk_perp.Oracle.Mock.{MockOracle}
use zk_perp.Da.Files.{DaError, Codec, Disk}
use zk_perp.Da.Log
use zk_perp.Da.Log.{AppendLog, DaStats}
use zk_perp.Prover.Host.{Zkvm, Prover}
use zk_perp.Prover.Host

pub record SequencerConfig : Type 0 where
  pub max_batch_size : ℕ
  pub batch_timeout_ms : ℕ
  pub port : ℕ
  pub data_dir : String
  pub use_mock_prover : Bool
  pub verify_signatures : Bool

unfoldable pub default_config : SequencerConfig
default_config = record {
  max_batch_size = 100;
  batch_timeout_ms = 5000;
  port = 8080;
  data_dir = "./data";
  use_mock_prover = true;
  verify_signatures = true;
}

pub record PendingTx : Type 0 where
  pub signed_tx : SignedTransaction
  pub received_at : ℕ

pub record BatchResult : Type 0 where
  pub batch_id : ℕ
  pub tx_count : ℕ
  pub pre_root : Bytes
  pub post_root : Bytes
  pub proof_generated : Bool

pub record SequencerStats : Type 0 where
  pub total_transactions : ℕ
  pub total_batches : ℕ
  pub failed_transactions : ℕ
  pub total_proofs_generated : ℕ

-- The derived default.
unfoldable pub no_stats : SequencerStats
no_stats = record {
  total_transactions = 0;
  total_batches = 0;
  failed_transactions = 0;
  total_proofs_generated = 0;
}

pub record Sequencer : Type 0 where
  pub config : SequencerConfig
  pub state : GlobalState
  pub oracle : MockOracle
  pub da : AppendLog
  pub prover : Prover
  pub pending_txs : List PendingTx
  pub account_keys : Map ℕ Bytes
  pub stats : SequencerStats

pub record OrderBookSnapshot : Type 0 where
  pub market_id : ℕ
  pub bids : List (ℕ × ℕ)
  pub asks : List (ℕ × ℕ)
  pub timestamp : ℕ

pub data SequencerError : Type 0 where
  account_not_found : ℕ → SequencerError
  invalid_signature : CryptoError → SequencerError
  invalid_signature_text : String → SequencerError
  insufficient_balance : SequencerError
  execution_error : StateError → SequencerError
  da_error : DaError → SequencerError
  proof_error : String → SequencerError

pub data Outcome (A : Type 0) : Type 0 where
  ok : A → Outcome A
  err : SequencerError → Outcome A
  panic : Outcome A

abbrev pub Step : Type 0 → Type 0
Step A = Sequencer → Sequencer × Outcome A

module _ {A : Type 0} where
  abbrev pub pure : A → Step A
  pure a s = (s, ok a)

  abbrev pub fail : SequencerError → Step A
  fail e s = (s, err e)

  abbrev pub gets : (Sequencer → A) → Step A
  gets f s = (s, ok (f s))

infixl 5 ◌>>=◌ ◌>>◌
abbrev pub ◌>>=◌ : {A B : Type 0} → Step A → (A → Step B) → Step B
◌>>=◌ m f s =
    let (s', r) = m s in elim r [ ok a ↦ f a s' | err e ↦ (s', err e) | panic ↦ (s', panic) ]

abbrev pub ◌>>◌ : {A B : Type 0} → Step A → Step B → Step B
m >> k = m >>= λ _. k

pub Outcome-cases :
    {A : Type 0} (o : Outcome A)
    → ((a : A) × (o ≡ ok a)) ⊎ (((e : SequencerError) × (o ≡ err e)) ⊎ (o ≡ panic))
Outcome-cases (ok a) = inl (a, refl)
Outcome-cases (err e) = inr (inl (e, refl))
Outcome-cases panic = inr (inr refl)

-- A chain that succeeds has a first step that succeeds, and goes on from it.
pub >>=-passed :
    {A B : Type 0} (m : Step A) (f : A → Step B) (s : Sequencer) (b : B)
    → ((m >>= f) s).1 ≡ ok b
    → (a : A) × ((m s).1 ≡ ok a) × ((m >>= f) s ≡ f a (m s).0)
>>=-passed m f s b passed = elim (Outcome-cases (m s).1) [
  | inl (a, is) ↦ (a, is, rw (◌>>=◌, is) refl)
  | inr (inl (e, failed)) ↦ absurd (ground arith)
  | inr (inr aborted) ↦ absurd (ground arith)
]

abbrev pub modify : (Sequencer → Sequencer) → Step (Unit {0})
modify f s = (f s, ok tt)

-- A sequencer at its start, over a log. The oracle reads the clock twice.
unfoldable pub start : Zkvm → External → SequencerConfig → AppendLog → ℕ → ℕ → Sequencer
unfolding Host.mock Host.new Mock.with_defaults Mock.refresh_timestamps Global.with_default_markets
    no_stats
start z x config da now later = record {
  config = config;
  state = Global.with_default_markets x;
  oracle = Mock.refresh_timestamps (Mock.with_defaults now) later;
  da = da;
  prover = if config.use_mock_prover then Host.mock else Host.new z;
  pending_txs = [];
  account_keys = [];
  stats = no_stats;
}

-- A sequencer over a folder: `made` says how the creation of the folders ended.
unfoldable pub new :
    Zkvm
    → External
    → Codec
    → SequencerConfig
    → Result String (Unit {0})
    → ℕ
    → ℕ
    → ℕ
    → ℕ
    → Disk
    → Disk × Result DaError Sequencer
unfolding start Log.new
new z x c config made created_at updated_at now later disk =
    let (disk', opened) = Log.new c made created_at updated_at disk in
    (
      disk',
      elim opened [
        | Result.err e ↦ Result.err e
        | Result.ok log ↦ Result.ok (start z x config log now later)
      ],
    )

unfoldable pub in_memory : Zkvm → External → SequencerConfig → ℕ → ℕ → ℕ → ℕ → Sequencer
unfolding start Log.in_memory_log
in_memory z x config created_at updated_at now later =
    start z x config (Log.in_memory_log created_at updated_at) now later

unfoldable pub register_account : External → Bytes → Sequencer → Sequencer × ℕ
unfolding Global.create_account
register_account x public_key s =
    let (state, account_id) = Global.create_account x s.state public_key in
    (
      record s { state = state; account_keys = Map.insert account_id public_key s.account_keys },
      account_id,
    )

unfoldable pub get_account : Sequencer → ℕ → Option Account
unfolding Global.get_account
get_account s account_id = Global.get_account s.state account_id

unfoldable pub get_orderbook : Sequencer → ℕ → ℕ → ℕ → OrderBookSnapshot
unfolding Global.get_orderbook_depth
get_orderbook s market_id depth now =
    let (bids, asks) = Global.get_orderbook_depth s.state market_id depth in
    record { market_id = market_id; bids = bids; asks = asks; timestamp = now }

unfoldable pub get_positions : Sequencer → ℕ → List Position
unfolding Global.get_positions
get_positions s account_id = Global.get_positions s.state account_id

unfoldable pub get_da_stats : Sequencer → DaStats
unfolding Log.stats
get_da_stats s = Log.stats s.da

unfoldable pub get_stats : Sequencer → SequencerStats
get_stats s = s.stats
