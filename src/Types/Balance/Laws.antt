-- ===== src/Types/Balance/Laws.antt =====
-- What the operations on a balance do to its total.
use zk_perp.Prelude.{ℕ, ◌+◌, ◌^◌, ◌≤◌, ◌<◌, ◌≡◌, true, arith}
use zk_perp.Types.Balance.{Balance, lock, unlock, total}

-- The two amounts together fit the word, so that no operation wraps.
abbrev pub Fits : Balance → Type 0
Fits b = b.free + b.locked < 2 ^ 128

pub lock-Fits : (b : Balance) (n : ℕ) → Fits b → Fits (lock b n).0
unfolding lock
lock-Fits b n h = ground arith

-- Where the two amounts of a balance fit the word together and an amount is free, locking it
-- succeeds and keeps the total, and unlocking it again gives back the balance.
pub unlock-lock :
    (b : Balance) (n : ℕ)
    → Fits b
    → n ≤ b.free
    → (total (lock b n).0 ≡ total b) × ((lock b n).1 ≡ true) × (unlock (lock b n).0 n ≡ (b, true))
unfolding lock unlock total
unlock-lock b n h k = ground arith
