-- ===== src/Types/Tests.antt =====
-- Runs of accounts, balances and positions at concrete values.
use zk_perp.Prelude.{◌-◌, ◌&&◌, ◌≡◌, true, false, some, [], ◌∷◌, arith, if◌then◌else◌, ◌==◌}
use zk_perp.Prelude.Words.{add_u128}
use zk_perp.Prelude.Int.{ℤ, pos}
use zk_perp.Types.Balance
use zk_perp.Types.Balance.{Balance}
use zk_perp.Types.Balance.Laws.{unlock-lock}
use zk_perp.Types.Account
use zk_perp.Types.Account.{Account, main, free_balance, locked_balance}
use zk_perp.Types.Account.Laws.{holding, covers, SameHolder, deposit-holding, withdraw-holding}
use zk_perp.Types.Position
use zk_perp.Types.Position.{Position, long}
use zk_perp.Types.Position.Laws.{Increased, Decreased, increase-Increased, decrease-Decreased}

abbrev balance : Balance
balance = record { asset_id = 0; free = 500; locked = 20 }

abbrev account : Account
account = record {
  id = 1;
  owner = [];
  nonce = 3;
  account_type = main;
  balances = balance ∷ [];
  is_liquidatable = false;
  created_at = 0;
}

abbrev position : Position
position = record {
  account_id = 1;
  market_id = 0;
  side = long;
  size = 10;
  entry_price = 100;
  margin = 50;
  leverage = 20;
  liquidation_price = 96;
  last_update = 0;
  accumulated_funding = pos 0;
  last_funding_timestamp = 0;
}

unlock-lock_example :
    (Balance.total (Balance.lock balance 30).0 ≡ Balance.total balance)
    × ((Balance.lock balance 30).1 ≡ true)
    × (Balance.unlock (Balance.lock balance 30).0 30 ≡ (balance, true))
unlock-lock_example = unlock-lock balance 30 (omega arith) (omega arith)

deposit-holding_example :
    (holding (Account.deposit account 0 40) 0 ≡ (
      if 0 == 0
      then (add_u128 (free_balance account 0) 40, locked_balance account 0)
      else holding account 0))
    × SameHolder account (Account.deposit account 0 40)
deposit-holding_example = deposit-holding account 0 40 0

withdraw-holding_example :
    ((Account.withdraw account 0 40).1 ≡ covers account 0 40)
    × (holding (Account.withdraw account 0 40).0 0 ≡ (
        if covers account 0 40 && 0 == 0
        then (free_balance account 0 - 40, locked_balance account 0)
        else holding account 0))
    × SameHolder account (Account.withdraw account 0 40).0
withdraw-holding_example = withdraw-holding account 0 40 0

increase-Increased_example :
    (q : Position) × (Position.increase position 5 130 25 9 ≡ some q)
    × Increased position 5 130 25 100 130 q
increase-Increased_example =
    increase-Increased position 5 130 25 9 100 130 (omega arith) (omega arith) (omega arith)
      (omega arith) (omega arith) (omega arith) (omega arith) (omega arith) (omega arith)
      (omega arith) (omega arith)

decrease-Decreased_example :
    (q : Position) × (pnl : ℤ) × (Position.decrease position 4 130 9 ≡ some (q, pnl))
    × Decreased position 4 q
decrease-Decreased_example = decrease-Decreased position 4 130 9 (omega arith) (omega arith)
