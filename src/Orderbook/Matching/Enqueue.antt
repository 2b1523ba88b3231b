-- ===== src/Orderbook/Matching/Enqueue.antt =====
-- The queue of a side, and what joining it means.
use mathlib.Core.List.{append_assoc, append-nil, reverse-append}
use zk_perp.Prelude.{
  ℕ, ◌<◌, ◌≡◌, refl, sym, ap, subst, ◌∙◌, Bool, true, false, none, List, [], ◌∷◌, ◌++◌, reverse,
  arith, if◌then◌else◌, All, All-append, ltb, nat_eq, inl, inr, Bool-cases,
}
use zk_perp.Prelude.Map
use zk_perp.Prelude.Map.{Map}
use zk_perp.Prelude.SortedMap.{Above}
use zk_perp.Prelude.SortedMap.Laws.{from_end}
use zk_perp.Types.Order.{Order, Side, bid, ask}
use zk_perp.Orderbook.Level.{PriceLevel}
use zk_perp.Orderbook.Book.{OrderBook, Levels}
use zk_perp.Orderbook.Matching.Greedy.{Offer}
use zk_perp.Orderbook.Matching.OneLevel.{offer, offers}
use zk_perp.Orderbook.Matching.Priority.{queue_of, own_levels, low_first, AllKeys}

-- The resting orders of a side as a queue: best price first, oldest first at one price.
abbrev pub own_queue : Side → OrderBook → List Offer
own_queue side b = queue_of (from_end (low_first side) (own_levels side b))

-- Whether a price is better than another for the orders of a side.
abbrev pub better : Side → ℕ → ℕ → Bool
better ask p q = ltb p q
better bid p q = ltb q p

-- An order joins a queue behind all that are at its price or at a better one.
unfoldable pub enqueue : Side → Offer → List Offer → List Offer
enqueue side o [] = o ∷ []
enqueue side o (x ∷ xs) = if better side o.price x.price then o ∷ x ∷ xs else x ∷ enqueue side o xs

abbrev pub joined : Side → Bool → Offer → List Offer → List Offer
joined side joins o q = if joins then enqueue side o q else q

abbrev pub Ranked : Side → ℕ → Bool → List Offer → Type 0
Ranked side p answer = All (λ x. better side p x.price ≡ answer)

pub enqueue-behind :
    (side : Side) (o : Offer) (xs ys : List Offer)
    → Ranked side o.price false xs
    → enqueue side o (xs ++ ys) ≡ xs ++ enqueue side o ys
unfolding enqueue
enqueue-behind side o [] ys r = refl
enqueue-behind side o (x ∷ xs) ys r = rw r.0 (ap (λ t. x ∷ t) (enqueue-behind side o xs ys r.1))

pub enqueue-ahead :
    (side : Side) (o : Offer) (xs ys : List Offer)
    → Ranked side o.price true ys
    → enqueue side o (xs ++ ys) ≡ enqueue side o xs ++ ys
unfolding enqueue
enqueue-ahead side o [] [] r = refl
enqueue-ahead side o [] (y ∷ ys) r = rw r.0 refl
enqueue-ahead side o (x ∷ xs) ys r = elim (Bool-cases (better side o.price x.price)) [
  | inl h ↦ rw h refl
  | inr h ↦ rw h (ap (λ t. x ∷ t) (enqueue-ahead side o xs ys r))
]

pub enqueue_last :
    (side : Side) (o : Offer) (xs : List Offer)
    → Ranked side o.price false xs
    → enqueue side o xs ≡ xs ++ o ∷ []
unfolding enqueue
enqueue_last side o [] r = refl
enqueue_last side o (x ∷ xs) r = rw r.0 (ap (λ t. x ∷ t) (enqueue_last side o xs r.1))

module _ (P : ℕ → Type 0) where
  pub All-offers : (p : ℕ) (os : List Order) → P p → All (λ x. P x.price) (offers p os)
  All-offers p [] h = tt
  All-offers p (o ∷ os) h = (h, All-offers p os h)

  pub All-queue_of : (ls : Levels) → AllKeys P ls → All (λ x. P x.price) (queue_of ls)
  All-queue_of [] a = tt
  All-queue_of ((p, l) ∷ ls) a =
      All-append (λ x. P x.price) (offers p l.orders) (queue_of ls) (All-offers p l.orders a.0)
        (All-queue_of ls a.1)

  pub All-reverse : (ls : Levels) → AllKeys P ls → AllKeys P (reverse ls)
  All-reverse [] a = tt
  All-reverse (e ∷ ls) a = subst (AllKeys P) (sym (reverse-append (e ∷ []) ls)) (
      All-append (λ (d : ℕ × PriceLevel). P d.0) (reverse ls) (e ∷ []) (All-reverse ls a.1)
        (a.0, tt))

pub queue_of-append : (xs ys : Levels) → queue_of (xs ++ ys) ≡ queue_of xs ++ queue_of ys
queue_of-append [] ys = refl
queue_of-append ((p, l) ∷ xs) ys =
    ap (λ t. offers p l.orders ++ t) (queue_of-append xs ys)
    ∙ sym (append_assoc (offers p l.orders) (queue_of xs) (queue_of ys))

pub queue_of-reverse :
    (p : ℕ) (l : PriceLevel) (ls : Levels)
    → queue_of (reverse ((p, l) ∷ ls)) ≡ queue_of (reverse ls) ++ offers p l.orders
queue_of-reverse p l ls =
    ap queue_of (reverse-append ((p, l) ∷ []) ls)
    ∙ queue_of-append (reverse ls) ((p, l) ∷ [])
    ∙ ap (λ t. queue_of (reverse ls) ++ t) (append-nil (offers p l.orders))

pub offers-append :
    (p : ℕ) (os : List Order) (o : Order)
    → offers p (os ++ o ∷ []) ≡ offers p os ++ offers p (o ∷ [])
offers-append p [] o = refl
offers-append p (x ∷ os) o = ap (λ t. offer p x ∷ t) (offers-append p os o)

pub lookup-Below : (k i : ℕ) (m : Levels) → k < i → Above i m → Map.lookup k m ≡ none
lookup-Below k i [] h a = refl
lookup-Below k i ((j, l) ∷ m) h a = ground (arith, lookup-Below k i m h a.1)
