-- ===== src/Prelude/SortedMap.antt =====
-- `BTreeMap` with numbers for keys: an association list in ascending order of the keys. `lookup`
-- and `remove` are those of `Map`.
pub mod Laws
use Prim.Native.Nat.{ℕ, ◌<◌}
use mathlib.Core.Path.{◌≡◌, refl}
use mathlib.Core.Bool.{Bool, true, false}
use mathlib.Core.List.{List, [], ◌∷◌, ◌++◌, reverse}
use mathlib.Core.Option.{Option, none, some}
use native.Mathlib.Omega.{arith}
use zk_perp.Prelude.Tests.{ltb, ◌==◌, if◌then◌else◌, nat_eq}
use zk_perp.Prelude.Lists.{All, All-append}
use zk_perp.Prelude.Map.{Map, lookup, remove}

module _ {ℓ} {V : Type ℓ} where
  -- `insert`, also a write through the reference of `get_mut`.
  abbrev pub insert : ℕ → V → Map ℕ V → Map ℕ V
  insert k v [] = (k, v) ∷ []
  insert k v ((j, w) ∷ m) =
      if k == j then (k, v) ∷ m else if ltb k j then (k, v) ∷ (j, w) ∷ m else (j, w) ∷ insert k v m

  -- `keys().next()`
  abbrev pub first_key : Map ℕ V → Option ℕ
  first_key [] = none
  first_key ((k, v) ∷ m) = some k

  -- `keys().next_back()`
  abbrev pub last_key : Map ℕ V → Option ℕ
  last_key [] = none
  last_key ((k, v) ∷ m) = elim (last_key m) [ none ↦ some k | some j ↦ some j ]

  -- Every key lies above `k`, or below it.
  abbrev pub Above : ℕ → Map ℕ V → Type 0
  Above k = All (λ e. k < e.0)

  abbrev pub Below : ℕ → Map ℕ V → Type 0
  Below k = All (λ e. e.0 < k)

  abbrev pub IsSorted : Map ℕ V → Type 0
  IsSorted [] = Unit
  IsSorted ((k, v) ∷ m) = Above k m × IsSorted m
