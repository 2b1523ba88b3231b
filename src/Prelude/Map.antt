-- ===== src/Prelude/Map.antt =====
-- Hash maps and sets by association lists: an insertion overwrites in place or adds at the end.
use mathlib.Core.Path.{◌≡◌, refl}
use mathlib.Core.Logic.{◌≢◌}
use mathlib.Core.Bool.{Bool, true, false}
use mathlib.Core.List.{List, [], ◌∷◌}
use mathlib.Core.Option.{Option, none, some}
use native.Mathlib.Omega.{arith}
use Prim.Native.Nat.{ℕ, ◌+◌, ◌≤◌}
use mathlib.Core.Path.{subst}
use mathlib.Core.Logic.{inl, inr}
use zk_perp.Prelude.Lists.{All}
use zk_perp.Prelude.Tests.{Eq, if◌then◌else◌, Bool-cases, ◌==◌, ==_iff, nat_eq}

abbrev pub Map {ℓ κ} : Type ℓ → Type κ → Type (ℓ ⊔ κ)
Map K V = List (K × V)

module _ {ℓ κ} {K : Type ℓ} {V : Type κ} ⦃e : Eq K⦄ where
  -- `get`
  abbrev pub lookup : K → Map K V → Option V
  lookup k [] = none
  lookup k ((j, v) ∷ m) = if e.beq k j then some v else lookup k m

  -- `contains_key`
  abbrev pub contains : K → Map K V → Bool
  contains k m = elim (lookup k m) [ none ↦ false | some _ ↦ true ]

  abbrev pub insert : K → V → Map K V → Map K V
  insert k v [] = (k, v) ∷ []
  insert k v ((j, w) ∷ m) = if e.beq k j then (k, v) ∷ m else (j, w) ∷ insert k v m

  abbrev pub remove : K → Map K V → Map K V
  remove k [] = []
  remove k ((j, w) ∷ m) = if e.beq k j then remove k m else (j, w) ∷ remove k m

  pub lookup-insert_self : (k : K) (v : V) (m : Map K V) → lookup k (insert k v m) ≡ some v
  lookup-insert_self k v [] = ground (arith, e.beq_iff k k)
  lookup-insert_self k v ((j, w) ∷ m) = ground (arith, e.beq_iff k k, lookup-insert_self k v m)

  pub lookup-insert_ne :
      (j k : K) (v : V) (m : Map K V) → j ≢ k → lookup j (insert k v m) ≡ lookup j m
  lookup-insert_ne j k v [] h = ground (arith, e.beq_iff j k)
  lookup-insert_ne j k v ((i, w) ∷ m) h =
      ground (arith, e.beq_iff j k, e.beq_iff k i, e.beq_iff j i, lookup-insert_ne j k v m h)

  pub lookup-remove_self : (k : K) (m : Map K V) → lookup k (remove k m) ≡ none
  lookup-remove_self k [] = refl
  lookup-remove_self k ((j, w) ∷ m) = ground (arith, lookup-remove_self k m)

  pub lookup-remove_ne : (j k : K) (m : Map K V) → j ≢ k → lookup j (remove k m) ≡ lookup j m
  lookup-remove_ne j k [] h = refl
  lookup-remove_ne j k ((i, w) ∷ m) h =
      ground (arith, e.beq_iff j k, e.beq_iff k i, e.beq_iff j i, lookup-remove_ne j k m h)

module _ {ℓ κ μ} {K : Type ℓ} {V : Type κ} ⦃e : Eq K⦄ (P : K × V → Type μ) where
  pub All-remove : (k : K) (m : Map K V) → All P m → All P (remove k m)
  All-remove k [] a = tt
  All-remove k ((j, w) ∷ m) a = ground (arith, All-remove k m a.1)

module _ {μ} {V : Type 0} (P : ℕ × V → Type μ) where
  pub All-lookup : (k : ℕ) (v : V) (m : Map ℕ V) → All P m → lookup k m ≡ some v → P (k, v)
  All-lookup k v [] a h = absurd (cc)
  All-lookup k v ((j, w) ∷ m) a h = elim (Bool-cases (k == j)) [
    | inl same ↦
        let at_key : k ≡ j = (==_iff k j).0 same in
        let found : some w ≡ some v = ground arith in subst P (ground (arith, found)) a.0
    | inr other ↦ All-lookup k v m a.1 (ground arith)
  ]

-- The sum of a measure over the values.
abbrev pub sum_values {ℓ κ} : {K : Type ℓ} {V : Type κ} → (V → ℕ) → Map K V → ℕ
sum_values f [] = 0
sum_values f ((k, v) ∷ m) = f v + sum_values f m

pub sum_values-insert {κ} :
    {V : Type κ} (f : V → ℕ) (k : ℕ) (v old : V) (m : Map ℕ V)
    → lookup k m ≡ some old
    → sum_values f (insert k v m) + f old ≡ sum_values f m + f v
sum_values-insert f k v old [] h = absurd (cc)
sum_values-insert f k v old ((j, w) ∷ m) h = ground (arith, sum_values-insert f k v old m)

-- One value is at most the sum.
pub value_le {κ} :
    {V : Type κ} (f : V → ℕ) (k : ℕ) (v : V) (m : Map ℕ V)
    → lookup k m ≡ some v
    → f v ≤ sum_values f m
value_le f k v [] h = absurd (cc)
value_le f k v ((j, w) ∷ m) h = ground (arith, value_le f k v m)
