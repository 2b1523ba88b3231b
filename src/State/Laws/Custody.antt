-- ===== src/State/Laws/Custody.antt =====
-- The amounts that the accounts of the state hold together.
use zk_perp.Prelude.{
  ℕ, ◌+◌, ◌^◌, ◌≤◌, ◌<◌, ◌≡◌, refl, ap, subst, true, arith, ◌==◌, if◌then◌else◌, nat_eq,
}
use zk_perp.Prelude.Words.{add_u128}
use zk_perp.Prelude.Map
use zk_perp.Types.Account
use zk_perp.Types.Account.{Account, increment_nonce, verify_nonce, free_balance, locked_balance}
use zk_perp.Types.Account.Laws.{holding-deposit, holding-withdraw}
use zk_perp.Types.Transaction.{DepositTx, WithdrawTx}
use zk_perp.Merkle.External.{External}
use zk_perp.State.Global.{GlobalState, ProcessResult, Outcome, ok, err, panic}
use zk_perp.State.Funds.{process_deposit, process_withdraw}
use zk_perp.State.Laws.Deposits.{Updated, Ended, process_deposit-Ended, process_withdraw-Ended}

-- What an account holds of an asset, free or locked.
abbrev pub held : ℕ → Account → ℕ
held asset a = free_balance a asset + locked_balance a asset

abbrev pub custody : ℕ → GlobalState → ℕ
custody asset s = Map.sum_values (held asset) s.accounts

pub Ended-imp :
    (P Q : GlobalState → Type 0) (s : GlobalState) (o : Outcome ProcessResult × GlobalState)
    → ((t : GlobalState) → P t → Q t)
    → Ended P s o
    → Ended Q s o
Ended-imp P Q s (ok r, t) f p = f t p
Ended-imp P Q s (err e, t) f p = p
Ended-imp P Q s (panic, t) f p = absurd p

held-increment_nonce : (k : ℕ) (a : Account) → held k (increment_nonce a) ≡ held k a
unfolding increment_nonce free_balance locked_balance Account.get_balance
held-increment_nonce k a = refl

-- The custody of an asset after an update of one account.
custody-Updated :
    (id nonce : ℕ) (f : Account → Account) (s t : GlobalState) (k : ℕ)
    → (u : Updated id nonce f s t)
    → (custody k t + held k u.account ≡ custody k s + held k (f u.account))
      × (held k u.account ≤ custody k s)
custody-Updated id nonce f s t k u =
    let a' = increment_nonce (f u.account) in
    let moved = Map.sum_values-insert (held k) id a' u.account s.accounts u.found in
    let same = ap (Map.sum_values (held k)) u.accounts in
    (
      omega (arith, moved, same, held-increment_nonce k (f u.account)),
      Map.value_le (held k) id u.account s.accounts u.found,
    )

held-deposit :
    (a : Account) (k n j : ℕ)
    → held k a + n < 2 ^ 128
    → held j (Account.deposit a k n) ≡ (if k == j then held j a + n else held j a)
unfolding add_u128
held-deposit a k n j fits =
    let d = holding-deposit a k n j in
    let free = ap (λ (p : ℕ × ℕ). p.0) d in let locked = ap (λ (p : ℕ × ℕ). p.1) d in ground arith

held-withdraw :
    (a : Account) (k n j : ℕ)
    → (Account.withdraw a k n).1 ≡ true
    → (n ≤ held k a) × (held j (Account.withdraw a k n).0 + (if k == j then n else 0) ≡ held j a)
held-withdraw a k n j done =
    let w = holding-withdraw a k n j done in
    let free = ap (λ (p : ℕ × ℕ). p.0) w.1 in
    let locked = ap (λ (p : ℕ × ℕ). p.1) w.1 in (omega (arith, w.0), ground (arith, w.0))

module _ (x : External) where
  -- A deposit that succeeds adds its amount to what is held of its asset over all accounts, and
  -- leaves every other asset as it was; one that fails leaves the whole state as it was. It never
  -- panics. The amount and what is held already are together less than 2 ^ 128.
  pub process_deposit-custody :
      (tx : DepositTx) (s : GlobalState) (k : ℕ)
      → custody tx.asset_id s + tx.amount < 2 ^ 128
      → Ended
          (λ t. custody k t ≡ (if tx.asset_id == k then custody k s + tx.amount else custody k s))
          s
          (process_deposit x tx s)
  process_deposit-custody tx s k fits =
      Ended-imp _ _ s (process_deposit x tx s)
        (λ t u.
          let here = custody-Updated tx.account_id tx.nonce _ s t k u in
          let fits' = (custody-Updated tx.account_id tx.nonce _ s t tx.asset_id u).1 in
          let d = held-deposit u.account tx.asset_id tx.amount k (omega (arith, fits')) in
          ground (arith, here, d))
        (process_deposit-Ended x tx s)

  -- A withdrawal that succeeds takes exactly its amount from what is held of its asset over all
  -- accounts, which covered it, and leaves every other asset as it was; one that fails leaves the
  -- whole state as it was. It never panics.
  pub process_withdraw-custody :
      (tx : WithdrawTx) (s : GlobalState) (k : ℕ)
      → Ended
          (λ t.
            (tx.amount ≤ custody tx.asset_id s)
            × (custody k t + (if tx.asset_id == k then tx.amount else 0) ≡ custody k s))
          s
          (process_withdraw x tx s)
  process_withdraw-custody tx s k =
      Ended-imp _ _ s (process_withdraw x tx s)
        (λ t (u, rest).
          let here = custody-Updated tx.account_id tx.nonce _ s t k u in
          let there = custody-Updated tx.account_id tx.nonce _ s t tx.asset_id u in
          let same : rest.0 ≡ u.account = ground (arith, rest.1, u.found) in
          let done' =
            subst (λ b. (Account.withdraw b tx.asset_id tx.amount).1 ≡ true) same rest.2 in
          let w = held-withdraw u.account tx.asset_id tx.amount k done' in
          (omega (arith, w.0, there.1), ground (arith, here, w.1)))
        (process_withdraw-Ended x tx s)
