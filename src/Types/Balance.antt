-- ===== src/Types/Balance.antt =====
-- `Balance` of crates/core/src/types/account.rs: the free and the locked amount of one asset.
pub mod Laws
use zk_perp.Prelude.{ℕ, ◌-◌, Bool, true, false, leb, if◌then◌else◌}
use zk_perp.Prelude.Words.{add_u128}

pub record Balance : Type 0 where
  pub asset_id : ℕ
  pub free : ℕ
  pub locked : ℕ

unfoldable pub new : ℕ → ℕ → Balance
new asset_id free = record { asset_id = asset_id; free = free; locked = 0 }

unfoldable pub total : Balance → ℕ
total b = add_u128 b.free b.locked

-- A method that changes the balance returns it with the method's result.
unfoldable pub lock : Balance → ℕ → Balance × Bool
lock b amount =
    if leb amount b.free
    then (record b { free = b.free - amount; locked = add_u128 b.locked amount }, true)
    else (b, false)

unfoldable pub unlock : Balance → ℕ → Balance × Bool
unlock b amount =
    if leb amount b.locked
    then (record b { locked = b.locked - amount; free = add_u128 b.free amount }, true)
    else (b, false)

unfoldable pub deduct_locked : Balance → ℕ → Balance × Bool
deduct_locked b amount =
    if leb amount b.locked then (record b { locked = b.locked - amount }, true) else (b, false)

unfoldable pub credit : Balance → ℕ → Balance
credit b amount = record b { free = add_u128 b.free amount }

unfoldable pub debit : Balance → ℕ → Balance × Bool
debit b amount =
    if leb amount b.free then (record b { free = b.free - amount }, true) else (b, false)
