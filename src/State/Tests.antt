-- ===== src/State/Tests.antt =====
-- Transitions from a small state: two accounts, one market and one position.
use zk_perp.Prelude.{
  ℕ, ◌+◌, ◌^◌, ◌≤◌, ◌<◌, ◌≡◌, refl, subst, true, false, some, [], ◌∷◌, ◌++◌, arith, if◌then◌else◌,
  take, ◌==◌, nat_eq, pair_eq,
}
use zk_perp.Prelude.Words.{add_u64}
use zk_perp.Prelude.Int.{pos, negsuc}
use zk_perp.Prelude.Map
use zk_perp.Types.Account
use zk_perp.Types.Account.{Account, main}
use zk_perp.Types.Market.{Market}
use zk_perp.Types.Position.{Position, long}
use zk_perp.Types.Transaction.{DepositTx, WithdrawTx, LiquidateTx}
use zk_perp.Prelude.Result.{ok}
use zk_perp.Merkle.External.{External, zero_hash, zeros}
use zk_perp.Merkle.Tree.{SparseMerkleTree}
use zk_perp.State.Global.{GlobalState, err, invalid_nonce}
use zk_perp.State.Funds.{process_deposit, process_withdraw}
use zk_perp.State.Liquidation.{process_liquidate}
use zk_perp.State.Laws.Deposits.{Ended}
use zk_perp.State.Laws.Custody.{custody, process_deposit-custody, process_withdraw-custody}
use zk_perp.State.Laws.Replay.{process_deposit-replay, process_withdraw-replay}
use zk_perp.State.Laws.Liquidations.{holdings, IsClosed, process_liquidate-holdings}

abbrev stand_in : External
stand_in = record {
  sha256 = λ b. take 32 (b ++ zeros 32);
  serialize_account = λ a. some [];
  serialize_order = λ o. some [];
  serialize_position = λ p. some [];
  serialize_transaction = λ t. ok [];
}

abbrev tree : SparseMerkleTree
tree = record {
  depth = 2;
  root = zero_hash;
  leaves = [];
  zero_hashes = zero_hash ∷ zero_hash ∷ zero_hash ∷ [];
}

abbrev pub account : ℕ → ℕ → Account
account id free = record {
  id = id;
  owner = [];
  nonce = 3;
  account_type = main;
  balances = record { asset_id = 0; free = free; locked = 20 } ∷ [];
  is_liquidatable = false;
  created_at = 0;
}

abbrev market : Market
market = record {
  id = 0;
  name = "BTC-USDC";
  base_asset = 1;
  quote_asset = 0;
  tick_size = 1;
  lot_size = 1;
  min_order_size = 1;
  max_leverage = 50;
  initial_margin_bps = 200;
  maintenance_margin_bps = 100;
  maker_fee_bps = negsuc 1;
  taker_fee_bps = 5;
  funding_interval = 3600;
  oracle_id = 0;
  is_active = true;
  created_at = 0;
}

-- One unit, bought at 1000 with a margin of 1.
abbrev position : Position
position = record {
  account_id = 1;
  market_id = 0;
  side = long;
  size = 1_000_000_000_000_000_000;
  entry_price = 1000;
  margin = 1;
  leverage = 50;
  liquidation_price = 990;
  last_update = 0;
  accumulated_funding = pos 0;
  last_funding_timestamp = 0;
}

abbrev pub state : GlobalState
state = record {
  hypertree = record {
    account_tree = tree;
    account_order_tree = tree;
    orderbook_tree = tree;
    position_tree = tree;
    pool_tree = tree;
    system_tree = tree;
  };
  orderbooks = [];
  accounts = (1, account 1 500) ∷ (2, account 2 70) ∷ [];
  positions = ((1, 0), position) ∷ [];
  markets = (0, market) ∷ [];
  oracle_prices =
      (0, record { market_id = 0; price = 1000; timestamp = 0; confidence_bps = 50 }) ∷ [];
  system = record {
    block_number = 0;
    timestamp = 0;
    last_funding_timestamp = 0;
    total_accounts = 3;
    total_orders = 0;
    next_order_id = 0;
    sequencer_pubkey = [];
  };
  matching_engine = record { timestamp = 0; maker_fee_bps = negsuc 1; taker_fee_bps = 5 };
}

abbrev deposit : DepositTx
deposit = record { account_id = 1; asset_id = 0; amount = 40; nonce = 4 }

abbrev withdrawal : WithdrawTx
withdrawal = record { account_id = 1; asset_id = 0; amount = 40; nonce = 4 }

abbrev liquidation : LiquidateTx
liquidation = record {
  liquidator_account_id = 2;
  liquidatee_account_id = 1;
  market_id = 0;
  quantity = 5;
  nonce = 9;
}

process_deposit-custody_example :
    Ended
      (λ t. custody 0 t ≡ (if 0 == 0 then custody 0 state + 40 else custody 0 state))
      state
      (process_deposit stand_in deposit state)
unfolding Account.free_balance Account.locked_balance
process_deposit-custody_example = process_deposit-custody stand_in deposit state 0 (omega arith)

process_withdraw-custody_example :
    Ended
      (λ t. (40 ≤ custody 0 state) × (custody 0 t + (if 0 == 0 then 40 else 0) ≡ custody 0 state))
      state
      (process_withdraw stand_in withdrawal state)
process_withdraw-custody_example = process_withdraw-custody stand_in withdrawal state 0

process_deposit-replay_example :
    Ended
      (λ t.
        (process_deposit stand_in deposit t ≡ (err (invalid_nonce (add_u64 4 1) 4), t))
        × (process_withdraw stand_in withdrawal t ≡ (err (invalid_nonce (add_u64 4 1) 4), t)))
      state
      (process_deposit stand_in deposit state)
process_deposit-replay_example =
    process_deposit-replay stand_in deposit deposit withdrawal state refl refl refl refl

process_withdraw-replay_example :
    Ended
      (λ t.
        (process_withdraw stand_in withdrawal t ≡ (err (invalid_nonce (add_u64 4 1) 4), t))
        × (process_deposit stand_in deposit t ≡ (err (invalid_nonce (add_u64 4 1) 4), t)))
      state
      (process_withdraw stand_in withdrawal state)
process_withdraw-replay_example =
    process_withdraw-replay stand_in withdrawal withdrawal deposit state refl refl refl refl

market-ranges :
    (m : Market)
    → Map.lookup 0 state.markets ≡ some m
    → (m.maintenance_margin_bps ≤ 10_000) × ((holdings 2 m.quote_asset state).0 < 2 ^ 128)
unfolding Account.free_balance
market-ranges m h =
    let same : market ≡ m = cc in
    subst
      (λ n. (n.maintenance_margin_bps ≤ 10_000) × ((holdings 2 n.quote_asset state).0 < 2 ^ 128))
      same (omega arith, omega arith)

process_liquidate-holdings_example :
    Ended
      (λ t. (holdings 2 0 t ≡ holdings 2 0 state) × IsClosed (Map.lookup (1, 0) t.positions))
      state
      (process_liquidate stand_in liquidation state)
process_liquidate-holdings_example =
    process_liquidate-holdings stand_in liquidation state 2 0 market-ranges
