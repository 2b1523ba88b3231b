-- ===== src/State/Laws/Deposits.antt =====
-- Every branch of a deposit and of a withdrawal.
use zk_perp.Prelude.{
  ℕ, ◌≡◌, ◌⊎◌, ◌==◌, ==_iff, refl, true, some, arith, inl, inr, Option-cases, Bool-cases, nat_eq,
}
use zk_perp.Prelude.Words.{add_u64}
use zk_perp.Prelude.Map
use zk_perp.Types.Account
use zk_perp.Types.Account.{Account, increment_nonce, verify_nonce}
use zk_perp.Types.Transaction.{DepositTx, WithdrawTx}
use zk_perp.Merkle.External.{External}
use zk_perp.State.Global.{
  GlobalState, StateError, ProcessResult, Outcome, ok, err, panic, account_not_found, invalid_nonce,
}
use zk_perp.State.Funds.{with_nonce, process_deposit, process_withdraw}

-- Two states differ in the accounts and their commitment alone, and the account `id` became `f` of
-- what it was; its nonce was the one before `nonce`.
pub record Updated (id nonce : ℕ) (f : Account → Account) (s t : GlobalState) : Type 0 where
  pub account : Account
  pub found : Map.lookup id s.accounts ≡ some account
  pub next_nonce : nonce ≡ add_u64 account.nonce 1
  pub accounts : t.accounts ≡ Map.insert id (increment_nonce (f account)) s.accounts
  pub orderbooks : t.orderbooks ≡ s.orderbooks
  pub positions : t.positions ≡ s.positions
  pub markets : t.markets ≡ s.markets
  pub oracle_prices : t.oracle_prices ≡ s.oracle_prices
  pub system : t.system ≡ s.system

-- How a call ended: with the update, or with an error and the state untouched.
abbrev pub Ended :
    (GlobalState → Type 0) → GlobalState → Outcome ProcessResult × GlobalState → Type 0
Ended P s (ok r, t) = P t
Ended P s (err e, t) = t ≡ s
Ended P s (panic, t) = ⊥

-- A call with a nonce finds the account and its nonce is the next one, or it fails at once.
pub with_nonce-cases :
    (id nonce : ℕ) (s : GlobalState)
    → ((a : Account) × (with_nonce id nonce s ≡ (ok a, s))
        × (Map.lookup id s.accounts ≡ some a)
        × (nonce ≡ add_u64 a.nonce 1))
      ⊎ ((e : StateError) × (with_nonce id nonce s ≡ (err e, s)))
unfolding with_nonce verify_nonce
with_nonce-cases id nonce s = elim (Option-cases (Map.lookup id s.accounts)) [
  | inl h ↦ inr (account_not_found id, rw (h, with_nonce) refl)
  | inr (a, h) ↦ elim (Bool-cases (nonce == add_u64 a.nonce 1)) [
    | inl good ↦ inl (a, rw (h, with_nonce) (rw good refl), h, (==_iff _ _).0 good)
    | inr bad ↦ inr (invalid_nonce (add_u64 a.nonce 1) nonce, rw (h, with_nonce) (rw bad refl))
  ]
]

module _ (x : External) where
  -- How a deposit ends.
  pub process_deposit-Ended :
      (tx : DepositTx) (s : GlobalState)
      → Ended
          (Updated tx.account_id tx.nonce (λ a. Account.deposit a tx.asset_id tx.amount) s)
          s
          (process_deposit x tx s)
  unfolding process_deposit
  process_deposit-Ended tx s = elim (with_nonce-cases tx.account_id tx.nonce s) [
    | inl (a, h, found, next) ↦ ground arith
    | inr (e, h) ↦ ground arith
  ]

  -- How a withdrawal ends.
  pub process_withdraw-Ended :
      (tx : WithdrawTx) (s : GlobalState)
      → Ended
          (λ t.
            Updated tx.account_id tx.nonce (λ a. (Account.withdraw a tx.asset_id tx.amount).0) s t
            × ((a : Account) × (Map.lookup tx.account_id s.accounts ≡ some a)
                × ((Account.withdraw a tx.asset_id tx.amount).1 ≡ true)))
          s
          (process_withdraw x tx s)
  unfolding process_withdraw
  process_withdraw-Ended tx s = elim (with_nonce-cases tx.account_id tx.nonce s) [
    | inl (a, h, found, next) ↦ elim (Bool-cases (Account.withdraw a tx.asset_id tx.amount).1) [
      | inl done ↦ ground arith
      | inr refused ↦ ground arith
    ]
    | inr (e, h) ↦ ground arith
  ]
