-- ===== src/State/Global.antt =====
-- `GlobalState`, its errors, and the shape of a transition. A transition returns what it reached
-- also after an error, since what was written stays written; `panic` is an abort.
use zk_perp.Prelude.{
  ℕ, Bool, Option, none, some, List, [], ◌∷◌, String, map, if◌then◌else◌, nat_eq, pair_eq, ◌==◌,
}
use zk_perp.Prelude.Words.{add_u64}
use zk_perp.Prelude.Map
use zk_perp.Prelude.Map.{Map}
use zk_perp.Types.Account
use zk_perp.Types.Account.{Account}
use zk_perp.Types.Order.{Order}
use zk_perp.Types.Market.{
  Market, OraclePrice, SystemState, allocate_account_id, btc_usdc, eth_usdc, new_oracle_price,
}
use zk_perp.Types.Position.{Position}
use zk_perp.Types.Transaction.{TransactionReceipt, success}
use zk_perp.Orderbook.Book
use zk_perp.Orderbook.Book.{OrderBook}
use zk_perp.Orderbook.Matching
use zk_perp.Orderbook.Matching.{MatchingEngine, MatchingError, MatchResult}
use zk_perp.Merkle.External.{Bytes, External, zeros}
use zk_perp.Merkle.Tree.{MerkleProof}
use zk_perp.Merkle.Hypertree
use zk_perp.Merkle.Hypertree.{Hypertree}

-- An error of the engine is kept as it is where the code keeps its text.
pub data StateError : Type 0 where
  account_not_found market_not_found order_not_found : ℕ → StateError
  position_not_found insufficient_balance invalid_signature : StateError
  invalid_nonce : ℕ → ℕ → StateError
  matching_error : MatchingError → StateError
  matching_text : String → StateError

pub record StateWitness : Type 0 where
  pub pre_root : Bytes
  pub post_root : Bytes
  pub account_proofs : List (ℕ × MerkleProof)
  pub order_proofs : List (ℕ × MerkleProof)
  pub position_proofs : List ((ℕ × ℕ) × MerkleProof)

pub record ProcessResult : Type 0 where
  pub receipt : TransactionReceipt
  pub witness : StateWitness
  pub match_result : Option MatchResult

pub record GlobalState : Type 0 where
  pub hypertree : Hypertree
  pub orderbooks : Map ℕ OrderBook
  pub accounts : Map ℕ Account
  pub positions : Map (ℕ × ℕ) Position
  pub markets : Map ℕ Market
  pub oracle_prices : Map ℕ OraclePrice
  pub system : SystemState
  pub matching_engine : MatchingEngine

pub data Outcome (A : Type 0) : Type 0 where
  ok : A → Outcome A
  err : StateError → Outcome A
  panic : Outcome A

abbrev pub Action : Type 0 → Type 0
Action A = GlobalState → Outcome A × GlobalState

module _ {A : Type 0} where
  abbrev pub pure : A → Action A
  pure a s = (ok a, s)

  abbrev pub fail : StateError → Action A
  fail e s = (err e, s)

  abbrev pub gets : (GlobalState → A) → Action A
  gets f s = (ok (f s), s)

  -- `ok_or(e)?`
  abbrev pub or_fail : Option A → StateError → Action A
  or_fail none e = fail e
  or_fail (some a) e = pure a

  -- `unwrap()`, and an operation that may panic.
  abbrev pub unwrap : Option A → Action A
  unwrap none s = (panic, s)
  unwrap (some a) s = (ok a, s)

infixl 5 ◌>>=◌ ◌>>◌
abbrev pub ◌>>=◌ : {A B : Type 0} → Action A → (A → Action B) → Action B
◌>>=◌ m f s =
    let (r, s') = m s in elim r [ ok a ↦ f a s' | err e ↦ (err e, s') | panic ↦ (panic, s') ]

abbrev pub ◌>>◌ : {A B : Type 0} → Action A → Action B → Action B
m >> k = m >>= λ _. k

abbrev pub guard : Bool → StateError → Action (Unit {0})
guard c e s = (if c then ok tt else err e, s)

abbrev pub modify : (GlobalState → GlobalState) → Action (Unit {0})
modify f s = (ok tt, f s)

-- Writing through the reference of `accounts.get_mut(&id)`.
abbrev pub put_account : ℕ → Account → GlobalState → GlobalState
put_account id a s = record s { accounts = Map.insert id a s.accounts }

-- An update of the account of that id, if there is one.
unfoldable pub update_account : ℕ → (Account → Account) → GlobalState → GlobalState
update_account id f s = elim (Map.lookup id s.accounts) [
  | none ↦ s
  | some a ↦ put_account id (f a) s
]

unfoldable pub get_account : GlobalState → ℕ → Option Account
get_account s id = Map.lookup id s.accounts

unfoldable pub add_market : GlobalState → Market → GlobalState
unfolding Book.new
add_market s market = record s {
  markets = Map.insert market.id market s.markets;
  orderbooks = Map.insert market.id (Book.new market.id) s.orderbooks;
}

unfoldable pub get_or_create_account : GlobalState → ℕ → List ℕ → GlobalState
unfolding Account.new
get_or_create_account s id owner =
    if Map.contains id s.accounts
    then s
    else record (put_account id (Account.new id owner s.system.timestamp) s) {
      system = record (s.system) { total_accounts = add_u64 s.system.total_accounts 1 };
    }

unfoldable pub next_block : GlobalState → ℕ → GlobalState
unfolding Matching.set_timestamp
next_block s timestamp = record s {
  system = record (s.system) {
    block_number = add_u64 s.system.block_number 1;
    timestamp = timestamp;
  };
  matching_engine = Matching.set_timestamp s.matching_engine timestamp;
}

unfoldable pub get_oracle_price : GlobalState → ℕ → Option OraclePrice
get_oracle_price s market_id = Map.lookup market_id s.oracle_prices

abbrev pub price_and_remaining : Order → ℕ × ℕ
price_and_remaining o = (o.price, o.remaining_qty)

unfoldable pub get_orderbook_depth : GlobalState → ℕ → ℕ → List (ℕ × ℕ) × List (ℕ × ℕ)
unfolding Book.best_bids Book.best_asks
get_orderbook_depth s market_id depth = elim (Map.lookup market_id s.orderbooks) [
  | none ↦ ([], [])
  | some book ↦ (
    map price_and_remaining (Book.best_bids book depth),
    map price_and_remaining (Book.best_asks book depth),
  )
]

-- The positions of one account, in the order of the map.
unfoldable pub positions_of : ℕ → Map (ℕ × ℕ) Position → List Position
positions_of id [] = []
positions_of id ((k, p) ∷ m) = if k.0 == id then p ∷ positions_of id m else positions_of id m

unfoldable pub get_positions : GlobalState → ℕ → List Position
unfolding positions_of
get_positions s account_id = positions_of account_id s.positions

module _ (x : External) where
  unfoldable pub root : GlobalState → Bytes
  unfolding Hypertree.root
  root s = Hypertree.root x s.hypertree

  unfoldable pub new : GlobalState
  unfolding Hypertree.new Matching.new
  new = record {
    hypertree = Hypertree.new x;
    orderbooks = [];
    accounts = [];
    positions = [];
    markets = [];
    oracle_prices = [];
    system = record {
      block_number = 0;
      timestamp = 0;
      last_funding_timestamp = 0;
      total_accounts = 0;
      total_orders = 0;
      next_order_id = 0;
      sequencer_pubkey = zeros 32;
    };
    matching_engine = Matching.new;
  }

  unfoldable pub with_default_markets : GlobalState
  unfolding new add_market btc_usdc eth_usdc new_oracle_price
  with_default_markets =
      let s = add_market (add_market new btc_usdc) eth_usdc in
      record s {
        oracle_prices =
            Map.insert 1 (new_oracle_price 1 300_000_000_000 0)
              (Map.insert 0 (new_oracle_price 0 5_000_000_000_000 0) s.oracle_prices);
      }

  unfoldable pub create_account : GlobalState → List ℕ → GlobalState × ℕ
  unfolding allocate_account_id Account.new Hypertree.insert_account
  create_account s owner =
      let (system, id) = allocate_account_id s.system in
      let account = Account.new id owner s.system.timestamp in
      (
        record (put_account id account s) {
          system = system;
          hypertree = Hypertree.insert_account x s.hypertree account;
        },
        id,
      )

  -- Writing an account into its tree.
  abbrev pub commit_account : Account → GlobalState → GlobalState
  commit_account a s = record s { hypertree = Hypertree.insert_account x s.hypertree a }

  abbrev pub success_receipt : GlobalState → TransactionReceipt
  success_receipt s = success (zeros 32) s.system.block_number 0

  -- The result of a transition that proves one account, from the root and the proof at its start.
  abbrev pub account_result : Bytes → ℕ → MerkleProof → GlobalState → ProcessResult
  account_result pre_root id proof s = record {
    receipt = success_receipt s;
    witness = record {
      pre_root = pre_root;
      post_root = root s;
      account_proofs = (id, proof) ∷ [];
      order_proofs = [];
      position_proofs = [];
    };
    match_result = none;
  }
