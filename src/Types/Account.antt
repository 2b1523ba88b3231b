-- ===== src/Types/Account.antt =====
-- Accounts: crates/core/src/types/account.rs.
pub mod Laws
use zk_perp.Prelude.{
  ℕ, ◌+◌, Bool, true, false, Option, none, some, List, [], ◌∷◌, ◌++◌, ◌==◌, if◌then◌else◌, find,
}
use zk_perp.Prelude.Words.{add_u64}
use zk_perp.Types.Balance
use zk_perp.Types.Balance.{Balance}

pub data AccountType : Type 0 where
  main : AccountType
  sub_account : ℕ → AccountType

pub record Account : Type 0 where
  pub id : ℕ
  -- The 32 bytes of the owner's public key.
  pub owner : List ℕ
  pub nonce : ℕ
  pub account_type : AccountType
  pub balances : List Balance
  pub is_liquidatable : Bool
  pub created_at : ℕ

unfoldable pub new : ℕ → List ℕ → ℕ → Account
new id owner created_at = record {
  id = id;
  owner = owner;
  nonce = 0;
  account_type = main;
  balances = [];
  is_liquidatable = false;
  created_at = created_at;
}

unfoldable pub get_balance : Account → ℕ → Option Balance
get_balance a asset_id = find (λ (b : Balance). b.asset_id == asset_id) a.balances

-- Writing through the reference of `get_balance_mut`: the first balance of the asset is replaced.
unfoldable pub set_balance : ℕ → Balance → List Balance → List Balance
set_balance asset_id b [] = []
set_balance asset_id b (c ∷ cs) =
    if c.asset_id == asset_id then b ∷ cs else c ∷ set_balance asset_id b cs

unfoldable pub put_balance : Account → ℕ → Balance → Account
unfolding set_balance
put_balance a asset_id b = record a { balances = set_balance asset_id b a.balances }

-- `get_or_create_balance` adds an empty balance for a new asset.
unfoldable pub create_balance : Account → ℕ → Account
unfolding get_balance Balance.new
create_balance a asset_id = elim (get_balance a asset_id) [
  | none ↦ record a { balances = a.balances ++ Balance.new asset_id 0 ∷ [] }
  | some _ ↦ a
]

unfoldable pub free_balance : Account → ℕ → ℕ
unfolding get_balance
free_balance a asset_id = elim (get_balance a asset_id) [ none ↦ 0 | some b ↦ b.free ]

unfoldable pub locked_balance : Account → ℕ → ℕ
unfolding get_balance
locked_balance a asset_id = elim (get_balance a asset_id) [ none ↦ 0 | some b ↦ b.locked ]

unfoldable pub deposit : Account → ℕ → ℕ → Account
unfolding create_balance put_balance Balance.credit
deposit a asset_id amount =
    let a' = create_balance a asset_id in
    elim (get_balance a' asset_id) [
      | none ↦ a'
      | some b ↦ put_balance a' asset_id (Balance.credit b amount)
    ]

unfoldable pub withdraw : Account → ℕ → ℕ → Account × Bool
unfolding get_balance put_balance Balance.debit
withdraw a asset_id amount = elim (get_balance a asset_id) [
  | none ↦ (a, false)
  | some b ↦ let (b', done) = Balance.debit b amount in (put_balance a asset_id b', done)
]

unfoldable pub increment_nonce : Account → Account
increment_nonce a = record a { nonce = add_u64 a.nonce 1 }

unfoldable pub verify_nonce : Account → ℕ → Bool
verify_nonce a expected_nonce = expected_nonce == add_u64 a.nonce 1

-- The asset ids of `mod assets`.
abbrev pub usdc : ℕ
usdc = 0

abbrev pub btc : ℕ
btc = 1

abbrev pub eth : ℕ
eth = 2
