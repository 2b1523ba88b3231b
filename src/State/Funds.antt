-- ===== src/State/Funds.antt =====
-- Deposits and withdrawals.
use zk_perp.Prelude.{ℕ, nat_eq}
use zk_perp.Prelude.Words.{add_u64}
use zk_perp.Prelude.Map
use zk_perp.Types.Account
use zk_perp.Types.Account.{Account, verify_nonce, increment_nonce}
use zk_perp.Types.Transaction.{DepositTx, WithdrawTx}
use zk_perp.Merkle.External.{External}
use zk_perp.Merkle.Hypertree
use zk_perp.State.Global.{
  account_not_found, invalid_nonce, insufficient_balance, ProcessResult, Action, pure, gets,
  or_fail, guard, modify, ◌>>=◌, ◌>>◌, put_account, root, commit_account, account_result,
}

-- The account of that id, once the nonce is the next one.
unfoldable pub with_nonce : ℕ → ℕ → Action Account
unfolding verify_nonce
with_nonce id nonce = do
  account ← or_fail (Map.lookup id (← gets (λ s. s.accounts))) (account_not_found id)
  guard (verify_nonce account nonce) (invalid_nonce (add_u64 account.nonce 1) nonce)
  pure account

module _ (x : External) where
  unfoldable pub process_deposit : DepositTx → Action ProcessResult
  process_deposit tx = do
    pre_root ← gets (root x)
    proof ← gets (λ s. Hypertree.prove_account x s.hypertree tx.account_id)
    account ← with_nonce tx.account_id tx.nonce
    let account' = increment_nonce (Account.deposit account tx.asset_id tx.amount)
    modify (put_account tx.account_id account')
    modify (commit_account x account')
    gets (account_result x pre_root tx.account_id proof)

  unfoldable pub process_withdraw : WithdrawTx → Action ProcessResult
  process_withdraw tx = do
    pre_root ← gets (root x)
    proof ← gets (λ s. Hypertree.prove_account x s.hypertree tx.account_id)
    account ← with_nonce tx.account_id tx.nonce
    let withdrawn = Account.withdraw account tx.asset_id tx.amount
    guard withdrawn.1 insufficient_balance
    let account' = increment_nonce withdrawn.0
    modify (put_account tx.account_id account')
    modify (commit_account x account')
    gets (account_result x pre_root tx.account_id proof)
