-- ===== src/Types/Account/Laws.antt =====
-- Deposits and withdrawals as seen through the balances.
use zk_perp.Prelude.{
  ℕ, ◌-◌, ◌≤◌, ◌≡◌, leb, ◌&&◌, Bool-cases, refl, ap, sym, ◌∙◌, Bool, true, false, Option, none,
  some, List, [], ◌∷◌, ◌++◌, arith, if◌then◌else◌, ◌==◌, find, inl, inr, Option-cases,
}
use mathlib.Core.Bool.{false≢true}
use zk_perp.Prelude.Words.{add_u128}
use zk_perp.Types.Balance
use zk_perp.Types.Balance.{Balance}
use zk_perp.Types.Account.{
  Account, get_balance, set_balance, put_balance, create_balance, free_balance, locked_balance,
  deposit, withdraw,
}

abbrev of_asset : ℕ → Balance → Bool
of_asset asset b = b.asset_id == asset

find-asset_id :
    (k : ℕ) (b : Balance) (cs : List Balance) → find (of_asset k) cs ≡ some b → b.asset_id ≡ k
find-asset_id k b [] h = absurd (cc)
find-asset_id k b (c ∷ cs) h = ground (arith, find-asset_id k b cs)

-- A balance is found by its own asset.
pub asset_id-get_balance :
    (a : Account) (k : ℕ) (b : Balance) → get_balance a k ≡ some b → b.asset_id ≡ k
unfolding get_balance
asset_id-get_balance a k b h = find-asset_id k b a.balances h

find-set_balance :
    (j k : ℕ) (b old : Balance) (cs : List Balance)
    → b.asset_id ≡ k
    → find (of_asset k) cs ≡ some old
    → find (of_asset j) (set_balance k b cs) ≡ (if k == j then some b else find (of_asset j) cs)
unfolding set_balance
find-set_balance j k b old [] e f = absurd (cc)
find-set_balance j k b old (c ∷ cs) e f = ground (arith, find-set_balance j k b old cs e)

-- What a write of a balance that is there changes.
pub get_balance-put_balance :
    (a : Account) (j k : ℕ) (b old : Balance)
    → b.asset_id ≡ k
    → get_balance a k ≡ some old
    → get_balance (put_balance a k b) j ≡ (if k == j then some b else get_balance a j)
unfolding get_balance put_balance
get_balance-put_balance a j k b old e h = find-set_balance j k b old a.balances e h

find-append :
    (j : ℕ) (b : Balance) (cs : List Balance)
    → find (of_asset j) cs ≡ none
    → find (of_asset j) (cs ++ b ∷ []) ≡ (if of_asset j b then some b else none)
find-append j b [] h = refl
find-append j b (c ∷ cs) h = ground (arith, find-append j b cs)

find-append_some :
    (j : ℕ) (b old : Balance) (cs : List Balance)
    → find (of_asset j) cs ≡ some old
    → find (of_asset j) (cs ++ b ∷ []) ≡ some old
find-append_some j b old [] h = absurd (cc)
find-append_some j b old (c ∷ cs) h = ground (arith, find-append_some j b old cs)

-- The free and the locked amount at once; no balance counts as nothing.
abbrev pub amounts : Option Balance → ℕ × ℕ
amounts none = (0, 0)
amounts (some b) = (b.free, b.locked)

abbrev pub holding : Account → ℕ → ℕ × ℕ
holding a k = (free_balance a k, locked_balance a k)

pub holding-amounts : (a : Account) (k : ℕ) → holding a k ≡ amounts (get_balance a k)
unfolding free_balance locked_balance
holding-amounts a k = ground arith

-- The balance of the asset after `create_balance`, and every other balance.
created : Option Balance → ℕ → Balance
created none k = Balance.new k 0
created (some b) k = b

get_balance-create_balance :
    (a : Account) (k j : ℕ)
    → get_balance (create_balance a k) j
      ≡ (if k == j then some (created (get_balance a k) k) else get_balance a j)
unfolding create_balance created get_balance Balance.new
get_balance-create_balance a k j = elim (Option-cases (get_balance a k)) [
  | inl h ↦ elim (Option-cases (get_balance a j)) [
    | inl h' ↦
        ground (arith, find-append j (record { asset_id = k; free = 0; locked = 0 }) a.balances h')
    | inr (b, h') ↦ ground (
      arith,
      find-append_some j (record { asset_id = k; free = 0; locked = 0 }) b a.balances h',
      find-append j (record { asset_id = k; free = 0; locked = 0 }) a.balances,
    )
  ]
  | inr (b, h) ↦ ground arith
]

created_here :
    (a : Account) (k : ℕ) → get_balance (create_balance a k) k ≡ some (created (get_balance a k) k)
created_here a k = ground (arith, get_balance-create_balance a k k)

asset_id-created : (a : Account) (k : ℕ) → (created (get_balance a k) k).asset_id ≡ k
asset_id-created a k = asset_id-get_balance (create_balance a k) k _ (created_here a k)

amounts-created : (a : Account) (k : ℕ) → amounts (some (created (get_balance a k) k)) ≡ holding a k
unfolding created Balance.new
amounts-created a k = ground (arith, holding-amounts a k)

deposit_lem :
    (a : Account) (k n : ℕ)
    → deposit a k n
      ≡ put_balance (create_balance a k) k (Balance.credit (created (get_balance a k) k) n)
unfolding deposit
deposit_lem a k n = rw (created_here a k, deposit) refl

amounts-credit :
    (b : Balance) (n : ℕ) → amounts (some (Balance.credit b n)) ≡ (add_u128 b.free n, b.locked)
unfolding Balance.credit
amounts-credit b n = refl

asset_id-credit : (b : Balance) (n : ℕ) → (Balance.credit b n).asset_id ≡ b.asset_id
unfolding Balance.credit
asset_id-credit b n = refl

-- The amounts of each asset after a deposit.
pub holding-deposit :
    (a : Account) (k n j : ℕ)
    → holding (deposit a k n) j
      ≡ (if k == j then (add_u128 (free_balance a k) n, locked_balance a k) else holding a j)
holding-deposit a k n j =
    let a' = create_balance a k in
    let b = created (get_balance a k) k in
    let read =
      get_balance-put_balance a' j k (Balance.credit b n) b
        (asset_id-credit b n ∙ asset_id-created a k) (created_here a k) in
    rw (deposit_lem a k n, holding-amounts (put_balance a' k (Balance.credit b n)) j, read)
      (ground (
        arith,
        get_balance-create_balance a k j,
        amounts-created a k,
        amounts-credit b n,
        holding-amounts a j,
      ))

withdraw_lem :
    (a : Account) (k n : ℕ) (b : Balance)
    → get_balance a k ≡ some b
    → withdraw a k n ≡ (put_balance a k (Balance.debit b n).0, (Balance.debit b n).1)
unfolding withdraw
withdraw_lem a k n b h = rw (h, withdraw) refl

debit_done :
    (b : Balance) (n : ℕ)
    → (Balance.debit b n).1 ≡ true
    → (n ≤ b.free)
      × ((Balance.debit b n).0.asset_id ≡ b.asset_id)
      × (amounts (some (Balance.debit b n).0) ≡ (b.free - n, b.locked))
unfolding Balance.debit
debit_done b n h = ground arith

withdraw_missing : (a : Account) (k n : ℕ) → get_balance a k ≡ none → (withdraw a k n).1 ≡ false
unfolding withdraw
withdraw_missing a k n h = rw (h, withdraw) refl

-- The amounts of each asset after a withdrawal that succeeds.
pub holding-withdraw :
    (a : Account) (k n j : ℕ)
    → (withdraw a k n).1 ≡ true
    → (n ≤ free_balance a k)
      × (holding (withdraw a k n).0 j
          ≡ (if k == j then (free_balance a k - n, locked_balance a k) else holding a j))
holding-withdraw a k n j done = elim (Option-cases (get_balance a k)) [
  | inl h ↦ absurd (false≢true (sym (withdraw_missing a k n h) ∙ done))
  | inr (b, h) ↦
      let same = withdraw_lem a k n b h in
      let d = debit_done b n (sym (ap (λ (r : Account × Bool). r.1) same) ∙ done) in
      let b' = (Balance.debit b n).0 in
      let read = get_balance-put_balance a j k b' b (d.1 ∙ asset_id-get_balance a k b h) h in
      let mine = holding-amounts a k in
      (
        ground arith,
        rw (same, holding-amounts (put_balance a k b') j, read)
            (ground (arith, holding-amounts a j)),
      )
]

pub nonce-deposit : (a : Account) (k n : ℕ) → (deposit a k n).nonce ≡ a.nonce
unfolding deposit create_balance put_balance
nonce-deposit a k n = ground arith

pub nonce-withdraw : (a : Account) (k n : ℕ) → (withdraw a k n).0.nonce ≡ a.nonce
unfolding withdraw put_balance
nonce-withdraw a k n = ground arith

-- What a deposit and a withdrawal have no say in: all of the account but its balances and its nonce.
pub record SameHolder (a a' : Account) : Type 0 where
  pub id : a'.id ≡ a.id
  pub owner : a'.owner ≡ a.owner
  pub nonce : a'.nonce ≡ a.nonce
  pub account_type : a'.account_type ≡ a.account_type
  pub is_liquidatable : a'.is_liquidatable ≡ a.is_liquidatable
  pub created_at : a'.created_at ≡ a.created_at

deposit-SameHolder : (a : Account) (k n : ℕ) → SameHolder a (deposit a k n)
unfolding deposit create_balance put_balance
deposit-SameHolder a k n = ground arith

withdraw-SameHolder : (a : Account) (k n : ℕ) → SameHolder a (withdraw a k n).0
unfolding withdraw put_balance
withdraw-SameHolder a k n = ground arith

-- A deposit adds its amount, in 128-bit arithmetic, to what the account holds free of the one asset,
-- also where there was no balance of it. Every other free and locked amount is as it was, and so are
-- the id, the owner, the nonce, the type, the liquidatable flag and the time of creation.
pub deposit-holding :
    (a : Account) (k n j : ℕ)
    → (holding (deposit a k n) j
        ≡ (if k == j then (add_u128 (free_balance a k) n, locked_balance a k) else holding a j))
      × SameHolder a (deposit a k n)
deposit-holding a k n j = (holding-deposit a k n j, deposit-SameHolder a k n)

-- Whether the account can pay an amount of an asset: it has a balance of the asset, and the amount
-- is free.
abbrev pub covers : Account → ℕ → ℕ → Bool
covers a k n = elim (get_balance a k) [ none ↦ false | some b ↦ leb n b.free ]

withdraw-covers : (a : Account) (k n : ℕ) → (withdraw a k n).1 ≡ covers a k n
unfolding withdraw Balance.debit
withdraw-covers a k n = elim (Option-cases (get_balance a k)) [
  | inl h ↦ ground arith
  | inr (b, h) ↦ ground arith
]

amounts_refused :
    (b : Balance) (n : ℕ)
    → leb n b.free ≡ false
    → ((Balance.debit b n).0.asset_id ≡ b.asset_id)
      × (amounts (some (Balance.debit b n).0) ≡ (b.free, b.locked))
unfolding Balance.debit
amounts_refused b n h = ground arith

withdraw_refused :
    (a : Account) (k n j : ℕ) → covers a k n ≡ false → holding (withdraw a k n).0 j ≡ holding a j
unfolding withdraw
withdraw_refused a k n j refused = elim (Option-cases (get_balance a k)) [
  | inl h ↦ rw (h, withdraw) refl
  | inr (b, h) ↦
      let d = amounts_refused b n (ground arith) in
      let b' = (Balance.debit b n).0 in
      let read = get_balance-put_balance a j k b' b (d.0 ∙ asset_id-get_balance a k b h) h in
      rw (withdraw_lem a k n b h, holding-amounts (put_balance a k b') j, read)
        (ground (arith, holding-amounts a j))
]

-- A withdrawal succeeds exactly where the account has a balance of the asset with the amount free.
-- Then it takes exactly its amount from what is free of that asset. Every other free and locked
-- amount is as it was, and all of them where it fails; the id, the owner, the nonce, the type, the
-- liquidatable flag and the time of creation are as they were.
pub withdraw-holding :
    (a : Account) (k n j : ℕ)
    → ((withdraw a k n).1 ≡ covers a k n)
      × (holding (withdraw a k n).0 j ≡ (
          if covers a k n && k == j
          then (free_balance a k - n, locked_balance a k)
          else holding a j))
      × SameHolder a (withdraw a k n).0
withdraw-holding a k n j = (
  withdraw-covers a k n,
  elim (Bool-cases (covers a k n)) [
    | inl done ↦ rw done (holding-withdraw a k n j (withdraw-covers a k n ∙ done)).1
    | inr refused ↦ rw refused (withdraw_refused a k n j refused)
  ],
  withdraw-SameHolder a k n,
)
