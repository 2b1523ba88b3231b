-- ===== src/Prelude/SortedMap/Laws.antt =====
-- The two ends of a sorted map, as the matching loops use them.
use mathlib.Core.List.{reverse-append}
use zk_perp.Prelude.Tests.{nat_eq, Option-cases}
use zk_perp.Prelude.Lists.{All, length, length-append}
use zk_perp.Prelude.Map.{Map, lookup, remove}
use zk_perp.Prelude.SortedMap.{insert, first_key, last_key, Above, Below, IsSorted}
use Prim.Native.Nat.{ℕ, suc, ◌<◌}
use mathlib.Core.Path.{◌≡◌, refl, ap}
use mathlib.Core.Bool.{Bool, true, false}
use mathlib.Core.Logic.{inl, inr}
use mathlib.Core.List.{[], ◌∷◌, ◌++◌, reverse}
use mathlib.Core.Option.{Option, none, some}
use native.Mathlib.Omega.{arith}

module _ {ℓ} {V : Type ℓ} where
  pub Above-trans : (j k : ℕ) (m : Map ℕ V) → j < k → Above k m → Above j m
  Above-trans j k [] h a = tt
  Above-trans j k ((i, v) ∷ m) h a = (omega (arith, a.0), Above-trans j k m h a.1)

  pub Above-insert : (j k : ℕ) (v : V) (m : Map ℕ V) → j < k → Above j m → Above j (insert k v m)
  Above-insert j k v [] h a = (h, tt)
  Above-insert j k v ((i, w) ∷ m) h a = ground (arith, Above-insert j k v m h a.1)

  -- An insertion keeps the order.
  pub insert-IsSorted : (k : ℕ) (v : V) (m : Map ℕ V) → IsSorted m → IsSorted (insert k v m)
  insert-IsSorted k v [] s = (tt, tt)
  insert-IsSorted k v ((i, w) ∷ m) s =
      ground (arith, insert-IsSorted k v m s.1, Above-insert i k v m, Above-trans k i m)

  Above-remove : (j k : ℕ) (m : Map ℕ V) → Above j m → Above j (remove k m)
  Above-remove j k [] a = tt
  Above-remove j k ((i, w) ∷ m) a = ground (arith, Above-remove j k m a.1)

  -- So does a removal.
  pub remove-IsSorted : (k : ℕ) (m : Map ℕ V) → IsSorted m → IsSorted (remove k m)
  remove-IsSorted k [] s = tt
  remove-IsSorted k ((i, w) ∷ m) s = ground (arith, remove-IsSorted k m s.1, Above-remove i k m s.0)

  remove-Above : (k : ℕ) (m : Map ℕ V) → Above k m → remove k m ≡ m
  remove-Above k [] a = refl
  remove-Above k ((i, w) ∷ m) a = ground (arith, remove-Above k m a.1)

  lookup-Below :
      (k : ℕ) (v : V) (init : Map ℕ V) → Below k init → lookup k (init ++ (k, v) ∷ []) ≡ some v
  lookup-Below k v [] b = ground arith
  lookup-Below k v ((i, w) ∷ m) b = ground (arith, lookup-Below k v m b.1)

  insert-Below :
      (k : ℕ) (v w : V) (init : Map ℕ V)
      → Below k init
      → insert k w (init ++ (k, v) ∷ []) ≡ init ++ (k, w) ∷ []
  insert-Below k v w [] b = ground arith
  insert-Below k v w ((i, u) ∷ m) b = ground (arith, insert-Below k v w m b.1)

  remove-Below :
      (k : ℕ) (v : V) (init : Map ℕ V) → Below k init → remove k (init ++ (k, v) ∷ []) ≡ init
  remove-Below k v [] b = ground arith
  remove-Below k v ((i, u) ∷ m) b = ground (arith, remove-Below k v m b.1)

  -- The map read from one end: from the low keys up, or from the high keys down.
  abbrev pub from_end : Bool → Map ℕ V → Map ℕ V
  from_end true m = m
  from_end false m = reverse m

  abbrev pub end_key : Bool → Map ℕ V → Option ℕ
  end_key true m = first_key m
  end_key false m = last_key m

  -- Everything about the entry at the end: what a write and a removal at its key do.
  pub record AtEnd (low : Bool) (m : Map ℕ V) (k : ℕ) (v : V) (rest : Map ℕ V) : Type ℓ where
    pub read : from_end low m ≡ (k, v) ∷ rest
    pub found : lookup k m ≡ some v
    pub written : (w : V) → from_end low (insert k w m) ≡ (k, w) ∷ rest
    pub removed : from_end low (remove k m) ≡ rest
    pub shorter : length m ≡ suc (length (remove k m))

  last_key-none : (m : Map ℕ V) → last_key m ≡ none → m ≡ []
  last_key-none [] e = refl
  last_key-none ((i, v) ∷ m) e = ground arith

  Above-last_key : (i k : ℕ) (m : Map ℕ V) → Above i m → last_key m ≡ some k → i < k
  Above-last_key i k [] a e = absurd (cc)
  Above-last_key i k ((j, v) ∷ m) a e = ground (arith, Above-last_key i k m a.1)

  -- The last entry of a map that is not empty.
  split_last :
      (m : Map ℕ V) (k : ℕ)
      → IsSorted m
      → last_key m ≡ some k
      → (init : Map ℕ V) × (v : V) × (m ≡ init ++ (k, v) ∷ []) × Below k init
  split_last [] k s e = absurd (cc)
  split_last ((i, v) ∷ m) k s e =
      let ih = split_last m k s.1 in
      elim (Option-cases (last_key m)) [
        | inl empty ↦ let empty' = last_key-none m empty in ([], v, ground (arith, empty'), tt)
        | inr (j, h) ↦
            let h' : last_key m ≡ some k = ground arith in
            let (init, w, p, b) = ih h' in
            ((i, v) ∷ init, w, ap (λ t. (i, v) ∷ t) p, (Above-last_key i k m s.0 h', b))
      ]

  AtEnd-first :
      (m : Map ℕ V) (k : ℕ)
      → IsSorted m
      → first_key m ≡ some k
      → (v : V) × (rest : Map ℕ V) × AtEnd true m k v rest
  AtEnd-first [] k s e = absurd (cc)
  AtEnd-first ((i, v) ∷ m) k s e =
      let gone = remove-Above i m s.0 in
      (
        v,
        m,
        record {
          read = ground arith;
          found = ground arith;
          written = λ w. ground arith;
          removed = ground (arith, gone);
          shorter = ground (arith, gone);
        },
      )

  AtEnd-last :
      (m : Map ℕ V) (k : ℕ)
      → IsSorted m
      → last_key m ≡ some k
      → (v : V) × (rest : Map ℕ V) × AtEnd false m k v rest
  AtEnd-last m k s e =
      let (init, v, p, b) = split_last m k s e in
      let gone : remove k m ≡ init = rw p (remove-Below k v init b) in
      (
        v,
        reverse init,
        record {
          read = rw p (reverse-append init ((k, v) ∷ []));
          found = rw p (lookup-Below k v init b);
          written = λ w. rw (p, insert-Below k v w init b) (reverse-append init ((k, w) ∷ []));
          removed = ap reverse gone;
          shorter = rw (gone, p) (omega (arith, length-append {_} init ((k, v) ∷ [])));
        },
      )

  -- The best entry of a sorted map stands at the end that is asked for.
  pub end_key-AtEnd :
      (low : Bool) (m : Map ℕ V) (k : ℕ)
      → IsSorted m
      → end_key low m ≡ some k
      → (v : V) × (rest : Map ℕ V) × AtEnd low m k v rest
  end_key-AtEnd true m k s e = AtEnd-first m k s e
  end_key-AtEnd false m k s e = AtEnd-last m k s e

  pub end_key-none : (low : Bool) (m : Map ℕ V) → end_key low m ≡ none → m ≡ []
  end_key-none true [] e = refl
  end_key-none true ((i, v) ∷ m) e = absurd (cc)
  end_key-none false m e = last_key-none m e

  pub All-insert {μ} :
      (P : ℕ × V → Type μ) (k : ℕ) (v : V) (m : Map ℕ V) → P (k, v) → All P m → All P (insert k v m)
  All-insert P k v [] p a = (p, tt)
  All-insert P k v ((i, w) ∷ m) p a = ground (arith, All-insert P k v m p a.1)

  -- A bound below the lowest key, or above the highest, bounds every key.
  pub Above-first_key :
      (p : ℕ) (m : Map ℕ V) → IsSorted m → ((k : ℕ) → first_key m ≡ some k → p < k) → Above p m
  Above-first_key p [] s h = tt
  Above-first_key p ((i, v) ∷ m) s h = let low = h i refl in (low, Above-trans p i m low s.0)

  pub Below-last_key :
      (p : ℕ) (m : Map ℕ V) → IsSorted m → ((k : ℕ) → last_key m ≡ some k → k < p) → Below p m
  Below-last_key p [] s h = tt
  Below-last_key p ((i, v) ∷ m) s h = elim (Option-cases (last_key m)) [
    | inl empty ↦
        let here : last_key ((i, v) ∷ m) ≡ some i = ground arith in
        let empty' = last_key-none m empty in (h i here, rw empty' tt)
    | inr (j, e) ↦
        let here : last_key ((i, v) ∷ m) ≡ some j = ground arith in
        let high = h j here in
        let low = Above-last_key i j m s.0 e in
        (
          omega arith,
          Below-last_key p m s.1
              (λ k e'. let same : last_key ((i, v) ∷ m) ≡ some k = ground arith in h k same),
        )
  ]
