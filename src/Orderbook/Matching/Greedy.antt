-- ===== src/Orderbook/Matching/Greedy.antt =====
-- What price-time priority means, with no loops over levels and no book: resting orders stand in a
-- queue, best price first and oldest first at one price, and each is served in turn.
use zk_perp.Prelude.{
  ℕ, ◌+◌, ◌-◌, ◌^◌, ◌<◌, min, ◌≡◌, refl, Bool, true, not, ◌||◌, List, [], ◌∷◌, ◌++◌, arith, leb,
  ◌==◌, if◌then◌else◌, inl, inr, ◌⊎◌,
}

-- A resting order as the taker sees it, and a trade with one.
pub record Offer : Type 0 where
  pub id : ℕ
  pub price : ℕ
  pub quantity : ℕ

abbrev pub size : List Offer → ℕ
size [] = 0
size (o ∷ os) = o.quantity + size os

-- The trades of a taker who wants `q` and accepts some prices: each at the offer's price, until
-- nothing is wanted or an offer is not accepted.
unfoldable pub trades : (ℕ → Bool) → ℕ → List Offer → List Offer
trades accepts q [] = []
trades accepts q (o ∷ os) =
    if q == 0 || not (accepts o.price)
    then []
    else record o { quantity = min q o.quantity } ∷ trades accepts (q - o.quantity) os

-- The queue that these trades leave.
unfoldable pub left : (ℕ → Bool) → ℕ → List Offer → List Offer
left accepts q [] = []
left accepts q (o ∷ os) =
    if q == 0 || not (accepts o.price)
    then o ∷ os
    else if leb o.quantity q
    then left accepts (q - o.quantity) os
    else record o { quantity = o.quantity - q } ∷ os

-- Every offer is at a price that is accepted.
abbrev pub Accepted : (ℕ → Bool) → List Offer → Type 0
Accepted accepts [] = Unit
Accepted accepts (o ∷ os) = (accepts o.price ≡ true) × Accepted accepts os

pub trades_none : (accepts : ℕ → Bool) (os : List Offer) → trades accepts 0 os ≡ []
unfolding trades
trades_none accepts [] = refl
trades_none accepts (o ∷ os) = refl

pub left_none : (accepts : ℕ → Bool) (os : List Offer) → left accepts 0 os ≡ os
unfolding left
left_none accepts [] = refl
left_none accepts (o ∷ os) = refl

-- Once an accepted part of the queue is served, the rest is served with what is still wanted.
pub trades-append :
    (accepts : ℕ → Bool) (q : ℕ) (xs ys : List Offer)
    → Accepted accepts xs
    → trades accepts q (xs ++ ys) ≡ trades accepts q xs ++ trades accepts (q - size xs) ys
unfolding trades
trades-append accepts q [] ys h = ground arith
trades-append accepts q (x ∷ xs) ys h =
    ground (arith, trades-append accepts (q - x.quantity) xs ys h.1, trades_none accepts ys)

-- What a part of the queue leaves is nothing, unless nothing more is wanted.
pub left_spent :
    (accepts : ℕ → Bool) (q : ℕ) (xs : List Offer)
    → Accepted accepts xs
    → (left accepts q xs ≡ []) ⊎ (q - size xs ≡ 0)
unfolding left
left_spent accepts q [] h = inl refl
left_spent accepts q (x ∷ xs) h = ground (arith, left_spent accepts (q - x.quantity) xs h.1)

pub left-append :
    (accepts : ℕ → Bool) (q : ℕ) (xs ys : List Offer)
    → Accepted accepts xs
    → left accepts q (xs ++ ys) ≡ left accepts q xs ++ left accepts (q - size xs) ys
unfolding left
left-append accepts q [] ys h = ground arith
left-append accepts q (x ∷ xs) ys h =
    ground (arith, left-append accepts (q - x.quantity) xs ys h.1, left_none accepts ys)

-- Serving goes on behind what was left of a part as if the part were not there.
pub trades_again :
    (accepts : ℕ → Bool) (q : ℕ) (xs ys : List Offer)
    → Accepted accepts xs
    → trades accepts (q - size xs) (left accepts q xs ++ ys) ≡ trades accepts (q - size xs) ys
trades_again accepts q xs ys h = elim (left_spent accepts q xs h) [
  | inl gone ↦ rw gone refl
  | inr spent ↦ rw (spent, trades_none, trades_none) refl
]

pub left_again :
    (accepts : ℕ → Bool) (q : ℕ) (xs ys : List Offer)
    → Accepted accepts xs
    → left accepts (q - size xs) (left accepts q xs ++ ys)
      ≡ left accepts q xs ++ left accepts (q - size xs) ys
left_again accepts q xs ys h = elim (left_spent accepts q xs h) [
  | inl gone ↦ rw gone refl
  | inr spent ↦ rw (spent, left_none, left_none) refl
]

abbrev pub Bounded : List Offer → Type 0
Bounded [] = Unit
Bounded (o ∷ os) = (o.quantity < 2 ^ 128) × Bounded os

pub left-Bounded :
    (accepts : ℕ → Bool) (q : ℕ) (os : List Offer) → Bounded os → Bounded (left accepts q os)
unfolding left
left-Bounded accepts q [] b = tt
left-Bounded accepts q (o ∷ os) b = ground (arith, left-Bounded accepts (q - o.quantity) os b.1)

pub size-append : (xs ys : List Offer) → size (xs ++ ys) ≡ size xs + size ys
size-append [] ys = omega arith
size-append (x ∷ xs) ys = omega (arith, size-append xs ys)

-- What is traded of an accepted part, and what is then still wanted.
pub size-trades :
    (accepts : ℕ → Bool) (q : ℕ) (xs : List Offer)
    → Accepted accepts xs
    → size (trades accepts q xs) + (q - size xs) ≡ q
unfolding trades
size-trades accepts q [] h = omega arith
size-trades accepts q (x ∷ xs) h = ground (arith, size-trades accepts (q - x.quantity) xs h.1)
