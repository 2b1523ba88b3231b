-- ===== src/Prelude/Loop.antt =====
-- A `while` loop with at most so many rounds: it stops where its test fails, and else goes round.
use Prim.Native.Nat.{ℕ, zero, suc}
use mathlib.Core.Path.{◌≡◌, refl}
use mathlib.Core.Bool.{Bool, true, false}

unfoldable pub while {ℓ} : {S : Type ℓ} → ℕ → (S → Bool) → (S → S) → S → S
while zero again round state = state
while (suc rounds) again round state = elim (again state) [
  | false ↦ state
  | true ↦ while rounds again round (round state)
]

pub while_stop {ℓ} :
    {S : Type ℓ} (fuel : ℕ) (test : S → Bool) (body : S → S) (s : S)
    → test s ≡ false
    → while fuel test body s ≡ s
unfolding while
while_stop zero test body s h = refl
while_stop (suc fuel) test body s h = rw (h, while)

pub while_step {ℓ} :
    {S : Type ℓ} (fuel : ℕ) (test : S → Bool) (body : S → S) (s : S)
    → test s ≡ true
    → while (suc fuel) test body s ≡ while fuel test body (body s)
unfolding while
while_step fuel test body s h = rw (h, while)
