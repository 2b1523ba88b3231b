-- ===== src/Prover/Guest.antt =====
-- The guest program: methods/guest/src/main.rs. A failed assertion aborts the proof; it is an error
-- with the text of the assertion. Additions wrap, as in the release build of the guest.
use zk_perp.Prelude.{
  ℕ, ◌-◌, ◌/◌, Bool, true, false, Option, none, some, List, [], ◌∷◌, String, length, find, leb, ltb,
  ◌==◌, if◌then◌else◌,
}
use zk_perp.Prelude.Words.{u32, add_u64, add_u128, mul_u128}
use zk_perp.Prelude.Result.{Result, ok, err, ◌>>=◌, ◌>>◌}
use zk_perp.Types.Balance.{Balance}
use zk_perp.Types.Account.{Account}
use zk_perp.Types.Order.{Order, Side, bid, ask}
use zk_perp.Types.Position.{Position}
use zk_perp.Types.Transaction.{
  Transaction, DepositTx, WithdrawTx, PlaceOrderTx, CancelOrderTx, LiquidateTx, UpdateOracleTx,
  deposit, withdraw, place_order, cancel_order, liquidate, update_oracle,
}
use zk_perp.Merkle.External.{Bytes, External, zero_hash, hash, hash_pair}
use zk_perp.Merkle.Tree
use zk_perp.Merkle.Tree.{MerkleProof, BitPath}
use zk_perp.Prover.Batch.{BatchInput, BatchOutput, TransactionWitness, OrderWitness}

abbrev pub Guest : Type 0 → Type 0
Guest A = Result String A

abbrev pub assert : Bool → String → Guest (Unit {0})
assert true message = ok tt
assert false message = err message

abbrev pub expect : {A : Type 0} → Option A → String → Guest A
expect none message = err message
expect (some a) message = ok a

unfoldable pub get_balance : Account → ℕ → ℕ
get_balance a asset_id = elim (find (λ (b : Balance). b.asset_id == asset_id) a.balances) [
  | none ↦ 0
  | some b ↦ b.free
]

-- The order of a fill is one that the taker may trade with.
unfoldable pub price_ok : Side → ℕ → ℕ → Guest (Unit {0})
price_ok bid taker maker = assert (leb maker taker) "Price-time priority violated: bid below ask"
price_ok ask taker maker = assert (leb taker maker) "Price-time priority violated: ask above bid"

-- It does not stand before an older one at its price.
unfoldable pub time_ok : Option Order → Order → Guest (Unit {0})
time_ok none order = ok tt
time_ok (some previous) order =
    if previous.price == order.price
    then assert (leb previous.timestamp order.timestamp) "Time priority violated within price level"
    else ok tt

-- The loop over the orders of the witness.
unfoldable pub check_fills : PlaceOrderTx → Option Order → List OrderWitness → Guest (Unit {0})
unfolding price_ok time_ok
check_fills tx previous [] = ok tt
check_fills tx previous (w ∷ ws) = do
  price_ok tx.side tx.price w.order.price
  time_ok previous w.order
  check_fills tx (some w.order) ws

module _ (x : External) where
  -- The walk up from the leaf.
  unfoldable pub climb : List Bytes → BitPath → Bytes → Bytes
  climb [] path current = current
  climb (s ∷ ss) [] current = current
  climb (s ∷ ss) (is_right ∷ path) current =
      climb ss path (if is_right then hash_pair x s current else hash_pair x current s)

  unfoldable pub compute_new_root_from_proof : MerkleProof → Account → Bytes
  unfolding climb
  compute_new_root_from_proof proof _ = climb proof.siblings proof.path proof.value

  unfoldable pub compute_new_root_from_position_proof : MerkleProof → Position → Bytes
  unfolding climb
  compute_new_root_from_position_proof proof _ = climb proof.siblings proof.path proof.value

  -- The root after the account, where the witness has it.
  unfoldable pub root_after : Bytes → TransactionWitness → Bytes
  unfolding compute_new_root_from_proof
  root_after current_root witness = elim witness.account_proof_after [
    | none ↦ current_root
    | some after ↦ compute_new_root_from_proof after.proof after.account
  ]

  unfoldable pub verify_deposit : Bytes → DepositTx → TransactionWitness → Guest Bytes
  unfolding get_balance compute_new_root_from_proof
  verify_deposit current_root tx witness = do
    before ← expect witness.account_proof_before "Deposit requires account witness"
    after ← expect witness.account_proof_after "Deposit requires account after witness"
    assert (Tree.verify x before.proof current_root) "Invalid account proof before deposit"
    assert (before.account.id == tx.account_id) "Account ID mismatch"
    assert (add_u64 before.account.nonce 1 == tx.nonce) "Invalid nonce for deposit"
    let balance_before = get_balance before.account tx.asset_id
    let balance_after = get_balance after.account tx.asset_id
    assert (balance_after == add_u128 balance_before tx.amount) "Balance not increased correctly"
    assert (after.account.nonce == tx.nonce) "Nonce not incremented"
    ok (compute_new_root_from_proof after.proof after.account)

  unfoldable pub verify_withdraw : Bytes → WithdrawTx → TransactionWitness → Guest Bytes
  unfolding get_balance compute_new_root_from_proof
  verify_withdraw current_root tx witness = do
    before ← expect witness.account_proof_before "Withdraw requires account witness"
    after ← expect witness.account_proof_after "Withdraw requires account after witness"
    assert (Tree.verify x before.proof current_root) "Invalid account proof before withdraw"
    let balance_before = get_balance before.account tx.asset_id
    let balance_after = get_balance after.account tx.asset_id
    assert (leb tx.amount balance_before) "Insufficient balance for withdraw"
    assert (balance_after == balance_before - tx.amount) "Balance not decreased correctly"
    assert (add_u64 before.account.nonce 1 == tx.nonce) "Invalid nonce for withdraw"
    ok (compute_new_root_from_proof after.proof after.account)

  unfoldable pub verify_place_order : Bytes → PlaceOrderTx → TransactionWitness → Guest Bytes
  unfolding get_balance check_fills root_after
  verify_place_order current_root tx witness = do
    before ← expect witness.account_proof_before "PlaceOrder requires account witness"
    assert (Tree.verify x before.proof current_root) "Invalid account proof for place order"
    assert (add_u64 before.account.nonce 1 == tx.nonce) "Invalid nonce for place order"
    let notional = mul_u128 tx.quantity tx.price / 100_000_000
    let required_margin = notional / 10
    assert (leb required_margin (get_balance before.account 0)) "Insufficient margin for order"
    check_fills tx none witness.order_proofs
    ok (root_after current_root witness)

  -- `!is_empty()`, and then the first one.
  abbrev first : List OrderWitness → Option OrderWitness
  first [] = none
  first (w ∷ ws) = some w

  unfoldable pub verify_cancel_order : Bytes → CancelOrderTx → TransactionWitness → Guest Bytes
  unfolding root_after
  verify_cancel_order current_root tx witness = do
    before ← expect witness.account_proof_before "CancelOrder requires account witness"
    assert (Tree.verify x before.proof current_root) "Invalid account proof for cancel order"
    order_witness ← expect (first witness.order_proofs) "CancelOrder requires order witness"
    assert (order_witness.order.id == tx.order_id) "Order ID mismatch"
    assert (order_witness.order.account_id == tx.account_id) "Order does not belong to account"
    assert (add_u64 before.account.nonce 1 == tx.nonce) "Invalid nonce for cancel order"
    ok (root_after current_root witness)

  unfoldable pub verify_liquidate : Bytes → LiquidateTx → TransactionWitness → Guest Bytes
  unfolding compute_new_root_from_position_proof
  verify_liquidate current_root tx witness = do
    before ← expect witness.position_proof_before "Liquidation requires position witness"
    assert (before.position.account_id == tx.liquidatee_account_id)
        "Position does not belong to liquidatee"
    assert (before.position.market_id == tx.market_id) "Position market mismatch"
    assert (ltb 0 before.position.size) "Cannot liquidate empty position"
    ok (elim witness.position_proof_after [
      | none ↦ current_root
      | some after ↦ compute_new_root_from_position_proof after.proof after.position
    ])

  unfoldable pub verify_oracle_update : Bytes → UpdateOracleTx → TransactionWitness → Guest Bytes
  verify_oracle_update current_root tx witness = ok current_root

  unfoldable pub verify_transaction : Bytes → Transaction → TransactionWitness → Guest Bytes
  unfolding verify_deposit verify_withdraw verify_place_order verify_cancel_order verify_liquidate
      verify_oracle_update
  verify_transaction current_root (deposit tx) witness = verify_deposit current_root tx witness
  verify_transaction current_root (withdraw tx) witness = verify_withdraw current_root tx witness
  verify_transaction current_root (place_order tx) witness =
      verify_place_order current_root tx witness
  verify_transaction current_root (cancel_order tx) witness =
      verify_cancel_order current_root tx witness
  verify_transaction current_root (liquidate tx) witness = verify_liquidate current_root tx witness
  verify_transaction current_root (update_oracle tx) witness =
      verify_oracle_update current_root tx witness

  -- The loop over the transactions with their witnesses, as long as there are both; the root that a
  -- check returns is dropped.
  unfoldable pub verify_all : Bytes → List Transaction → List TransactionWitness → Guest (Unit {0})
  unfolding verify_transaction
  verify_all pre_root [] ws = ok tt
  verify_all pre_root (tx ∷ txs) [] = ok tt
  verify_all pre_root (tx ∷ txs) (w ∷ ws) = elim w.account_proof_before [
    | none ↦ verify_all pre_root txs ws
    | some _ ↦ verify_transaction pre_root tx w >> verify_all pre_root txs ws
  ]

  unfoldable pub compute_batch_hash : Bytes → List Transaction → Guest Bytes
  compute_batch_hash current [] = ok current
  compute_batch_hash current (tx ∷ txs) = elim (x.serialize_transaction tx) [
    | err e ↦ err "Failed to serialize tx"
    | ok tx_bytes ↦ compute_batch_hash (hash_pair x current (hash x tx_bytes)) txs
  ]

  -- What is committed to the journal.
  unfoldable pub main : BatchInput → Guest BatchOutput
  unfolding verify_all compute_batch_hash
  main input = do
    verify_all input.pre_state_root input.transactions input.witnesses
    batch_hash ← compute_batch_hash zero_hash input.transactions
    ok (record {
      pre_state_root = input.pre_state_root;
      post_state_root = input.post_state_root;
      batch_hash = batch_hash;
      tx_count = u32 (length input.transactions);
    })
