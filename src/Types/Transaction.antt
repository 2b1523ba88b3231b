-- ===== src/Types/Transaction.antt =====
-- Transactions and receipts: crates/core/src/transactions/mod.rs.
use zk_perp.Prelude.{ℕ, Bool, true, false, Option, none, some, List, [], String}
use zk_perp.Types.Order.{Side, OrderType, Order, Fill, gtc}

pub record DepositTx : Type 0 where
  pub account_id : ℕ
  pub asset_id : ℕ
  pub amount : ℕ
  pub nonce : ℕ

pub record WithdrawTx : Type 0 where
  pub account_id : ℕ
  pub asset_id : ℕ
  pub amount : ℕ
  pub nonce : ℕ

pub record PlaceOrderTx : Type 0 where
  pub account_id : ℕ
  pub market_id : ℕ
  pub side : Side
  pub order_type : OrderType
  pub price : ℕ
  pub quantity : ℕ
  pub post_only : Bool
  pub reduce_only : Bool
  pub nonce : ℕ

pub record CancelOrderTx : Type 0 where
  pub account_id : ℕ
  pub order_id : ℕ
  pub market_id : ℕ
  pub nonce : ℕ

pub record LiquidateTx : Type 0 where
  pub liquidator_account_id : ℕ
  pub liquidatee_account_id : ℕ
  pub market_id : ℕ
  pub quantity : ℕ
  pub nonce : ℕ

pub record UpdateOracleTx : Type 0 where
  pub market_id : ℕ
  pub price : ℕ
  pub timestamp : ℕ
  pub confidence_bps : ℕ
  pub nonce : ℕ

pub data Transaction : Type 0 where
  deposit : DepositTx → Transaction
  withdraw : WithdrawTx → Transaction
  place_order : PlaceOrderTx → Transaction
  cancel_order : CancelOrderTx → Transaction
  liquidate : LiquidateTx → Transaction
  update_oracle : UpdateOracleTx → Transaction

pub record SignedTransaction : Type 0 where
  pub tx : Transaction
  pub signature : List ℕ

unfoldable pub signer : Transaction → ℕ
signer (deposit tx) = tx.account_id
signer (withdraw tx) = tx.account_id
signer (place_order tx) = tx.account_id
signer (cancel_order tx) = tx.account_id
signer (liquidate tx) = tx.liquidator_account_id
signer (update_oracle tx) = 0

unfoldable pub nonce : Transaction → ℕ
nonce (deposit tx) = tx.nonce
nonce (withdraw tx) = tx.nonce
nonce (place_order tx) = tx.nonce
nonce (cancel_order tx) = tx.nonce
nonce (liquidate tx) = tx.nonce
nonce (update_oracle tx) = tx.nonce

unfoldable pub to_order : PlaceOrderTx → ℕ → ℕ → Order
to_order tx id timestamp = record {
  id = id;
  account_id = tx.account_id;
  market_id = tx.market_id;
  side = tx.side;
  order_type = tx.order_type;
  price = tx.price;
  original_qty = tx.quantity;
  remaining_qty = tx.quantity;
  filled_qty = 0;
  post_only = tx.post_only;
  reduce_only = tx.reduce_only;
  time_in_force = gtc;
  timestamp = timestamp;
  nonce = tx.nonce;
}

pub record TransactionReceipt : Type 0 where
  pub tx_hash : List ℕ
  pub success : Bool
  pub error : Option String
  pub gas_used : ℕ
  pub fills : List Fill
  pub order_id : Option ℕ
  pub block_number : ℕ
  pub tx_index : ℕ

unfoldable pub success : List ℕ → ℕ → ℕ → TransactionReceipt
success tx_hash block_number tx_index = record {
  tx_hash = tx_hash;
  success = true;
  error = none;
  gas_used = 0;
  fills = [];
  order_id = none;
  block_number = block_number;
  tx_index = tx_index;
}

unfoldable pub failure : List ℕ → String → ℕ → ℕ → TransactionReceipt
failure tx_hash error block_number tx_index = record {
  tx_hash = tx_hash;
  success = false;
  error = some error;
  gas_used = 0;
  fills = [];
  order_id = none;
  block_number = block_number;
  tx_index = tx_index;
}

unfoldable pub with_fills : TransactionReceipt → List Fill → TransactionReceipt
with_fills r fills = record r { fills = fills }

unfoldable pub with_order_id : TransactionReceipt → ℕ → TransactionReceipt
with_order_id r order_id = record r { order_id = some order_id }
