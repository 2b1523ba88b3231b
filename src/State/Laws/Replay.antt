-- ===== src/State/Laws/Replay.antt =====
-- A nonce is good for one transaction.
use zk_perp.Prelude.{
  ℕ, ◌≡◌, refl, ap, sym, ◌∙◌, false, some, arith, ◌==◌, ==_iff, nat_eq, Bool-cases, inl, inr,
}
use zk_perp.Prelude.Words.{add_u64}
use zk_perp.Prelude.Map
use zk_perp.Types.Account.Laws.{nonce-deposit, nonce-withdraw}
use zk_perp.Types.Account.{Account, increment_nonce, verify_nonce}
use zk_perp.Types.Transaction.{DepositTx, WithdrawTx}
use zk_perp.Merkle.External.{External}
use zk_perp.State.Global.{GlobalState, StateError, err, invalid_nonce}
use zk_perp.State.Funds.{with_nonce, process_deposit, process_withdraw}
use zk_perp.State.Laws.Deposits.{Updated, Ended, process_deposit-Ended, process_withdraw-Ended}
use zk_perp.State.Laws.Custody.{Ended-imp}

add_u64_next : (a n : ℕ) → n ≡ add_u64 a 1 → (n == add_u64 n 1) ≡ false
unfolding add_u64
add_u64_next a n h = elim (Bool-cases (n == add_u64 n 1)) [
  | inl same ↦ absurd (omega (arith, h, (==_iff n (add_u64 n 1)).0 same))
  | inr other ↦ other
]

nonce-increment_nonce :
    (id n : ℕ) (f : Account → Account) (s t : GlobalState)
    → ((a : Account) → (f a).nonce ≡ a.nonce)
    → Updated id n f s t
    → with_nonce id n t ≡ (err (invalid_nonce (add_u64 n 1) n), t)
unfolding with_nonce verify_nonce increment_nonce
nonce-increment_nonce id n f s t keeps u =
    let a' = increment_nonce (f u.account) in
    let found : Map.lookup id t.accounts ≡ some a' =
      ap (Map.lookup id) u.accounts ∙ Map.lookup-insert_self id a' s.accounts in
    let reached : n ≡ a'.nonce = u.next_nonce ∙ ap (λ m. add_u64 m 1) (sym (keeps u.account)) in
    rw (found, with_nonce)
      (rw (sym reached) (rw (add_u64_next u.account.nonce n u.next_nonce) refl))

module _ (x : External) where
  deposit_refused :
      (tx : DepositTx) (t : GlobalState) (e : StateError)
      → with_nonce tx.account_id tx.nonce t ≡ (err e, t)
      → process_deposit x tx t ≡ (err e, t)
  unfolding process_deposit
  deposit_refused tx t e h = ground arith

  withdraw_refused :
      (tx : WithdrawTx) (t : GlobalState) (e : StateError)
      → with_nonce tx.account_id tx.nonce t ≡ (err e, t)
      → process_withdraw x tx t ≡ (err e, t)
  unfolding process_withdraw
  withdraw_refused tx t e h = ground arith

  -- After a deposit that succeeds, every deposit and every withdrawal of the same account that
  -- carries the same nonce is refused as a wrong nonce, and the state stays as it is.
  pub process_deposit-replay :
      (tx : DepositTx) (again : DepositTx) (out : WithdrawTx) (s : GlobalState)
      → again.account_id ≡ tx.account_id
      → again.nonce ≡ tx.nonce
      → out.account_id ≡ tx.account_id
      → out.nonce ≡ tx.nonce
      → Ended
          (λ t.
            (process_deposit x again t ≡ (err (invalid_nonce (add_u64 tx.nonce 1) tx.nonce), t))
            × (process_withdraw x out t ≡ (err (invalid_nonce (add_u64 tx.nonce 1) tx.nonce), t)))
          s
          (process_deposit x tx s)
  process_deposit-replay tx again out s a n a' n' =
      Ended-imp _ _ s (process_deposit x tx s)
        (λ t u.
          let closed =
            nonce-increment_nonce tx.account_id tx.nonce _ s t
              (λ b. nonce-deposit b tx.asset_id tx.amount) u in
          (
            deposit_refused again t _ (ground (arith, closed)),
            withdraw_refused out t _ (ground (arith, closed)),
          ))
        (process_deposit-Ended x tx s)

  -- After a withdrawal that succeeds, every deposit and every withdrawal of the same account that
  -- carries the same nonce is refused as a wrong nonce, and the state stays as it is.
  pub process_withdraw-replay :
      (tx : WithdrawTx) (again : WithdrawTx) (other : DepositTx) (s : GlobalState)
      → again.account_id ≡ tx.account_id
      → again.nonce ≡ tx.nonce
      → other.account_id ≡ tx.account_id
      → other.nonce ≡ tx.nonce
      → Ended
          (λ t.
            (process_withdraw x again t ≡ (err (invalid_nonce (add_u64 tx.nonce 1) tx.nonce), t))
            × (process_deposit x other t ≡ (err (invalid_nonce (add_u64 tx.nonce 1) tx.nonce), t)))
          s
          (process_withdraw x tx s)
  process_withdraw-replay tx again other s a n a' n' =
      Ended-imp _ _ s (process_withdraw x tx s)
        (λ t (u, rest).
          let closed =
            nonce-increment_nonce tx.account_id tx.nonce _ s t
              (λ b. nonce-withdraw b tx.asset_id tx.amount) u in
          (
            withdraw_refused again t _ (ground (arith, closed)),
            deposit_refused other t _ (ground (arith, closed)),
          ))
        (process_withdraw-Ended x tx s)
