-- ===== src/State/Laws/Refusals.antt =====
-- When a deposit and a withdrawal succeed, and the error that they fail with.
use zk_perp.Prelude.{
  ℕ, ◌≡◌, if◌then◌else◌, Bool, Option, none, ◌==◌, refl, ap, ◌∙◌, true, some, nat_eq,
}
use zk_perp.Prelude.Words.{add_u64}
use zk_perp.Prelude.Map
use zk_perp.Types.Account
use zk_perp.Types.Account.{Account, increment_nonce, verify_nonce}
use zk_perp.Merkle.Hypertree
use zk_perp.Types.Transaction.{DepositTx, WithdrawTx}
use zk_perp.Merkle.External.{External}
use zk_perp.State.Global.{
  GlobalState, StateError, ProcessResult, Outcome, Action, gets, guard, modify, ◌>>=◌, ◌>>◌, ok,
  err, panic, account_not_found, invalid_nonce, insufficient_balance, root, commit_account,
  put_account, account_result,
}
use zk_perp.State.Funds.{with_nonce, process_deposit, process_withdraw}
use zk_perp.State.Laws.Deposits.{Updated}

-- Why a call for an account is refused: the account is missing, the nonce is not its next one, or
-- it cannot pay.
abbrev pub refusal : (Account → Bool) → ℕ → ℕ → Option Account → Option StateError
refusal can_pay id nonce none = some (account_not_found id)
refusal can_pay id nonce (some a) =
    if nonce == add_u64 a.nonce 1
    then (if can_pay a then none else some insufficient_balance)
    else some (invalid_nonce (add_u64 a.nonce 1) nonce)

-- A call that has to succeed, or to fail with this error and leave the state alone.
abbrev pub Settled :
    Option StateError
    → (ProcessResult → GlobalState → Type 0)
    → GlobalState
    → Outcome ProcessResult × GlobalState
    → Type 0
Settled none P s (ok r, t) = P r t
Settled none P s (err e, t) = ⊥
Settled none P s (panic, t) = ⊥
Settled (some refused) P s (ok r, t) = ⊥
Settled (some refused) P s (err e, t) = (e ≡ refused) × (t ≡ s)
Settled (some refused) P s (panic, t) = ⊥

pub with_nonce-found :
    (id nonce : ℕ) (s : GlobalState) (a : Account)
    → Map.lookup id s.accounts ≡ some a
    → (nonce == add_u64 a.nonce 1) ≡ true
    → with_nonce id nonce s ≡ (ok a, s)
unfolding with_nonce verify_nonce
with_nonce-found id nonce s a found next = rw (found, with_nonce) (rw next refl)

-- What follows a call.
abbrev after : {A B : Type 0} → (A → Action B) → Outcome A × GlobalState → Outcome B × GlobalState
after k (r, s) = elim r [ ok a ↦ k a s | err e ↦ (err e, s) | panic ↦ (panic, s) ]

then_ok :
    {A B : Type 0} (m : Action A) (k : A → Action B) (s t : GlobalState) (a : A)
    → m s ≡ (ok a, t)
    → (m >>= k) s ≡ k a t
then_ok m k s t a h = ap (after k) h

module _ (x : External) where
  -- The state after a call that made `f a` of an account, and the result: the account is updated in
  -- the accounts and in its tree, and the witness holds the roots before and after.
  abbrev pub Posted :
      ℕ → ℕ → (Account → Account) → GlobalState → ProcessResult → GlobalState → Type 0
  Posted id nonce f s r t =
      (u : Updated id nonce f s t) × (t.hypertree
        ≡ Hypertree.insert_account x s.hypertree (increment_nonce (f u.account)))
      × (r.witness.pre_root ≡ root x s)
      × (r.witness.post_root ≡ root x t)

  -- The account written in the accounts and in its tree.
  abbrev pub posted : ℕ → Account → GlobalState → GlobalState
  posted id a s = commit_account x a (put_account id a s)

  -- The calls once the account is there and the nonce is the next one.
  abbrev credit : DepositTx → GlobalState → Account → Action ProcessResult
  credit tx s a = do
    let a' = increment_nonce (Account.deposit a tx.asset_id tx.amount)
    modify (put_account tx.account_id a')
    modify (commit_account x a')
    gets (
        account_result x (root x s) tx.account_id
          (Hypertree.prove_account x s.hypertree tx.account_id))

  abbrev debit : WithdrawTx → GlobalState → Account → Action ProcessResult
  debit tx s a = do
    let withdrawn = Account.withdraw a tx.asset_id tx.amount
    guard withdrawn.1 insufficient_balance
    let a' = increment_nonce withdrawn.0
    modify (put_account tx.account_id a')
    modify (commit_account x a')
    gets (
        account_result x (root x s) tx.account_id
          (Hypertree.prove_account x s.hypertree tx.account_id))

  pub process_deposit-posted :
      (tx : DepositTx) (s : GlobalState) (a : Account)
      → with_nonce tx.account_id tx.nonce s ≡ (ok a, s)
      → let t =
          posted tx.account_id (increment_nonce (Account.deposit a tx.asset_id tx.amount)) s in
        process_deposit x tx s ≡ (
          ok (
              account_result x
                (root x s)
                tx.account_id
                (Hypertree.prove_account x s.hypertree tx.account_id)
                t),
          t,
        )
  unfolding process_deposit
  process_deposit-posted tx s a h =
      then_ok (with_nonce tx.account_id tx.nonce) (credit tx s) s s a h

  pub process_withdraw-posted :
      (tx : WithdrawTx) (s : GlobalState) (a : Account)
      → with_nonce tx.account_id tx.nonce s ≡ (ok a, s)
      → (Account.withdraw a tx.asset_id tx.amount).1 ≡ true
      → let t =
          posted tx.account_id (increment_nonce (Account.withdraw a tx.asset_id tx.amount).0) s in
        process_withdraw x tx s ≡ (
          ok (
              account_result x
                (root x s)
                tx.account_id
                (Hypertree.prove_account x s.hypertree tx.account_id)
                t),
          t,
        )
  unfolding process_withdraw
  process_withdraw-posted tx s a h done =
      then_ok (with_nonce tx.account_id tx.nonce) (debit tx s) s s a h ∙ rw done refl
