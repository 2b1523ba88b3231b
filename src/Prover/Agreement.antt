-- ===== src/Prover/Agreement.antt =====
-- The guest against the engine: what the guest accepts of deposits and withdrawals is executed by
-- the state that has the account of the witness.
use zk_perp.Prelude.{
  ℕ, ◌-◌, ◌<◌, ◌≡◌, refl, ap, sym, ◌∙◌, true, some, arith, ==_iff, leb, inl, inr, Option-cases,
  nat_eq,
}
use zk_perp.Prelude.Words.{add_u64, add_u128}
use zk_perp.Prelude.Result.{ok}
use zk_perp.Prelude.Map
use zk_perp.Types.Balance
use zk_perp.Types.Account
use zk_perp.Types.Account.{Account, increment_nonce, verify_nonce, free_balance}
use zk_perp.Types.Account.Laws.{holding-deposit, holding-withdraw, nonce-deposit, nonce-withdraw}
use zk_perp.Types.Transaction.{DepositTx, WithdrawTx}
use zk_perp.Merkle.External.{Bytes, External}
use zk_perp.Merkle.Tree
use zk_perp.Merkle.Tree.{MerkleProof}
use zk_perp.Merkle.Hypertree
use zk_perp.State.Global
use zk_perp.State.Global.{GlobalState, ProcessResult, Outcome, account_result, ok as done_ok}
use zk_perp.State.Funds.{process_deposit, process_withdraw}
use zk_perp.State.Laws.Refusals.{
  with_nonce-found, posted, process_deposit-posted, process_withdraw-posted,
}
use zk_perp.Prover.Batch.{TransactionWitness}
use zk_perp.Prover.Guest.{get_balance, verify_deposit, verify_withdraw}

-- A witness with these accounts and proofs before and after.
abbrev pub with_accounts :
    TransactionWitness → Account → MerkleProof → Account → MerkleProof → TransactionWitness
with_accounts w a proof a' proof' = record w {
  account_proof_before = some (record { account = a; proof = proof });
  account_proof_after = some (record { account = a'; proof = proof' });
}

-- The guest reads what the engine calls the free balance.
get_balance-free_balance : (a : Account) (k : ℕ) → get_balance a k ≡ free_balance a k
unfolding get_balance free_balance Account.get_balance
get_balance-free_balance a k = refl

free_balance-increment_nonce :
    (a : Account) (k : ℕ) → free_balance (increment_nonce a) k ≡ free_balance a k
unfolding increment_nonce free_balance Account.get_balance
free_balance-increment_nonce a k = refl

-- A withdrawal is refused exactly where the amount is not covered, if it is not of nothing.
withdraw_covered :
    (a : Account) (k n : ℕ) → 0 < n → (Account.withdraw a k n).1 ≡ leb n (get_balance a k)
unfolding Account.withdraw Account.get_balance get_balance Balance.debit
withdraw_covered a k n pos = elim (Option-cases (Account.get_balance a k)) [
  | inl h ↦ ground arith
  | inr (b, h) ↦ ground arith
]

balance-deposit :
    (a : Account) (k n : ℕ)
    → free_balance (increment_nonce (Account.deposit a k n)) k ≡ add_u128 (get_balance a k) n
balance-deposit a k n =
    let credited = ap (λ (p : ℕ × ℕ). p.0) (holding-deposit a k n k) in
    free_balance-increment_nonce (Account.deposit a k n) k
    ∙ ground (arith, credited, get_balance-free_balance a k)

balance-withdraw :
    (a : Account) (k n : ℕ)
    → (Account.withdraw a k n).1 ≡ true
    → free_balance (increment_nonce (Account.withdraw a k n).0) k ≡ get_balance a k - n
balance-withdraw a k n done =
    let debited = ap (λ (p : ℕ × ℕ). p.0) (holding-withdraw a k n k done).1 in
    free_balance-increment_nonce (Account.withdraw a k n).0 k
    ∙ ground (arith, debited, get_balance-free_balance a k)

nonce-increment_nonce : (a : Account) → (increment_nonce a).nonce ≡ add_u64 a.nonce 1
unfolding increment_nonce
nonce-increment_nonce a = refl

-- The state executes a call: afterwards it has an account under the id with this free balance of the
-- asset and this nonce.
abbrev pub Executes : Outcome ProcessResult × GlobalState → ℕ → ℕ → ℕ → ℕ → Type 0
Executes out id asset balance nonce =
    (r : ProcessResult) × (t : GlobalState) × (a : Account) × (out ≡ (done_ok r, t))
    × (Map.lookup id t.accounts ≡ some a)
    × (free_balance a asset ≡ balance)
    × (a.nonce ≡ nonce)

module _ (x : External) (root : Bytes) (w : TransactionWitness) (a a' : Account)
    (proof proof' : MerkleProof) (s : GlobalState) (new_root : Bytes) where
  module _ (tx : DepositTx) where
    accepted_deposit :
        verify_deposit x root tx (with_accounts w a proof a' proof') ≡ ok new_root
        → (Tree.verify x proof root ≡ true)
          × (a.id ≡ tx.account_id)
          × (tx.nonce ≡ add_u64 a.nonce 1)
          × (get_balance a' tx.asset_id ≡ add_u128 (get_balance a tx.asset_id) tx.amount)
          × (a'.nonce ≡ tx.nonce)
    unfolding verify_deposit
    accepted_deposit h = ground arith

    -- A deposit that the guest accepts, with any witness whose account before is the one that the
    -- state has under the id of the deposit, carries a proof that verifies against the root, names
    -- the account by its id, and is executed by the state. The account that the state then has agrees
    -- with the account after in the witness on the free balance of the asset and on the nonce.
    pub verify_deposit-process_deposit :
        Map.lookup tx.account_id s.accounts ≡ some a
        → verify_deposit x root tx (with_accounts w a proof a' proof') ≡ ok new_root
        → (Tree.verify x proof root ≡ true)
          × (a.id ≡ tx.account_id)
          × Executes
              (process_deposit x tx s)
              tx.account_id
              tx.asset_id
              (get_balance a' tx.asset_id)
              a'.nonce
    verify_deposit-process_deposit found accepted =
        let (valid, mine, next, balance, counted) = accepted_deposit accepted in
        let after = increment_nonce (Account.deposit a tx.asset_id tx.amount) in
        let t = posted x tx.account_id after s in
        (
          valid,
          mine,
          (
            account_result x (Global.root x s) tx.account_id
                (Hypertree.prove_account x s.hypertree tx.account_id) t,
            t,
            after,
            process_deposit-posted x tx s a
                (with_nonce-found tx.account_id tx.nonce s a found ((==_iff _ _).1 next)),
            Map.lookup-insert_self tx.account_id after s.accounts,
            balance-deposit a tx.asset_id tx.amount ∙ sym balance,
            nonce-increment_nonce (Account.deposit a tx.asset_id tx.amount)
                ∙ ap (λ n. add_u64 n 1) (nonce-deposit a tx.asset_id tx.amount)
                ∙ sym next
                ∙ sym counted,
          ),
        )

  module _ (tx : WithdrawTx) where
    accepted_withdraw :
        verify_withdraw x root tx (with_accounts w a proof a' proof') ≡ ok new_root
        → (Tree.verify x proof root ≡ true)
          × (tx.nonce ≡ add_u64 a.nonce 1)
          × (leb tx.amount (get_balance a tx.asset_id) ≡ true)
          × (get_balance a' tx.asset_id ≡ get_balance a tx.asset_id - tx.amount)
    unfolding verify_withdraw
    accepted_withdraw h = ground arith

    -- A withdrawal of some amount that the guest accepts, with any witness whose account before is the
    -- one that the state has under the id of the withdrawal, carries a proof that verifies against the
    -- root and is executed by the state. The account that the state then has agrees with the account
    -- after in the witness on the free balance of the asset, and its nonce is that of the withdrawal.
    pub verify_withdraw-process_withdraw :
        0 < tx.amount
        → Map.lookup tx.account_id s.accounts ≡ some a
        → verify_withdraw x root tx (with_accounts w a proof a' proof') ≡ ok new_root
        → (Tree.verify x proof root ≡ true)
          × Executes
              (process_withdraw x tx s)
              tx.account_id
              tx.asset_id
              (get_balance a' tx.asset_id)
              tx.nonce
    verify_withdraw-process_withdraw pos found accepted =
        let (valid, next, enough, balance) = accepted_withdraw accepted in
        let done = withdraw_covered a tx.asset_id tx.amount pos ∙ enough in
        let after = increment_nonce (Account.withdraw a tx.asset_id tx.amount).0 in
        let t = posted x tx.account_id after s in
        (
          valid,
          (
            account_result x (Global.root x s) tx.account_id
                (Hypertree.prove_account x s.hypertree tx.account_id) t,
            t,
            after,
            process_withdraw-posted x tx s a
                (with_nonce-found tx.account_id tx.nonce s a found ((==_iff _ _).1 next)) done,
            Map.lookup-insert_self tx.account_id after s.accounts,
            balance-withdraw a tx.asset_id tx.amount done ∙ sym balance,
            nonce-increment_nonce (Account.withdraw a tx.asset_id tx.amount).0
                ∙ ap (λ n. add_u64 n 1) (nonce-withdraw a tx.asset_id tx.amount)
                ∙ sym next,
          ),
        )
