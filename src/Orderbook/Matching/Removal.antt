-- ===== src/Orderbook/Matching/Removal.antt =====
-- What the queue of a side loses where an order is taken out of its level.
use mathlib.Core.List.{append_assoc, reverse-append}
use zk_perp.Prelude.{
  ℕ, ◌<◌, ◌≡◌, ◌≢◌, refl, sym, ap, subst, ◌∙◌, Bool, true, false, ◌&&◌, some, List, [], ◌∷◌, ◌++◌,
  reverse, arith, if◌then◌else◌, All, ◌==◌, ==_iff, nat_eq, inl, inr, Bool-cases, List-cases, find,
}
use zk_perp.Prelude.Map
use zk_perp.Prelude.SortedMap
use zk_perp.Prelude.SortedMap.{IsSorted, Above}
use zk_perp.Prelude.SortedMap.Laws.{from_end}
use zk_perp.Types.Order.{Order}
use zk_perp.Orderbook.Level
use zk_perp.Orderbook.Level.{PriceLevel}
use zk_perp.Orderbook.Book.{Levels, put_level}
use zk_perp.Orderbook.Matching.Greedy.{Offer}
use zk_perp.Orderbook.Matching.OneLevel.{offers}
use zk_perp.Orderbook.Matching.Priority.{queue_of, AllKeys}
use zk_perp.Orderbook.Matching.Enqueue.{
  All-queue_of, All-reverse, queue_of-append, queue_of-reverse,
}

-- The queue without the first offer of a price and an id.
unfoldable pub drop_offer : ℕ → ℕ → List Offer → List Offer
drop_offer price id [] = []
drop_offer price id (x ∷ xs) =
    if x.price == price && x.id == id then xs else x ∷ drop_offer price id xs

drop_offer-behind :
    (price id : ℕ) (xs ys : List Offer)
    → All (λ (x : Offer). x.price ≢ price) xs
    → drop_offer price id (xs ++ ys) ≡ xs ++ drop_offer price id ys
unfolding drop_offer
drop_offer-behind price id [] ys a = refl
drop_offer-behind price id (x ∷ xs) ys a = ground (arith, drop_offer-behind price id xs ys a.1)

drop_offer-offers :
    (price id : ℕ) (o : Order) (os : List Order) (ys : List Offer)
    → find (λ (x : Order). x.id == id) os ≡ some o
    → drop_offer price id (offers price os ++ ys) ≡ offers price (Level.without id os) ++ ys
unfolding drop_offer Level.without
drop_offer-offers price id o [] ys h = absurd (cc)
drop_offer-offers price id o (x ∷ os) ys h = ground (arith, drop_offer-offers price id o os ys)

-- A level in its side, and what a write and a removal at its price do.
record Between (m : Levels) (k : ℕ) (l l' : PriceLevel) : Type 0 where
  low : Levels
  high : Levels
  read : m ≡ low ++ (k, l) ∷ high
  written : SortedMap.insert k l' m ≡ low ++ (k, l') ∷ high
  removed : Map.remove k m ≡ low ++ high
  apart_low : AllKeys (λ p. p ≢ k) low
  apart_high : AllKeys (λ p. p ≢ k) high

apart-Above : (k : ℕ) (m : Levels) → Above k m → AllKeys (λ p. p ≢ k) m
apart-Above k [] a = tt
apart-Above k ((i, w) ∷ m) a = (λ e. absurd (omega arith), apart-Above k m a.1)

remove_absent : (k : ℕ) (m : Levels) → AllKeys (λ p. p ≢ k) m → Map.remove k m ≡ m
remove_absent k [] a = refl
remove_absent k ((i, w) ∷ m) a = ground (arith, remove_absent k m a.1)

lookup_over : (k i : ℕ) (l : PriceLevel) (m : Levels) → Above i m → Map.lookup k m ≡ some l → i < k
lookup_over k i l [] a h = absurd (cc)
lookup_over k i l ((j, w) ∷ m) a h = ground (arith, lookup_over k i l m a.1)

lookup-Between :
    (m : Levels) (k : ℕ) (l l' : PriceLevel)
    → IsSorted m
    → Map.lookup k m ≡ some l
    → Between m k l l'
lookup-Between [] k l l' s h = absurd (cc)
lookup-Between ((i, w) ∷ m) k l l' s h = elim (Bool-cases (k == i)) [
  | inl same ↦
      let at_key : k ≡ i = (==_iff k i).0 same in
      let apart = subst (λ j. AllKeys (λ p. p ≢ j) m) (sym at_key) (apart-Above i m s.0) in
      let gone = remove_absent k m apart in
      record {
        low = [];
        high = m;
        read = ground arith;
        written = ground arith;
        removed = ground (arith, gone);
        apart_low = tt;
        apart_high = apart;
      }
  | inr other ↦
      let h' : Map.lookup k m ≡ some l = ground arith in
      let rest = lookup-Between m k l l' s.1 h' in
      let over = lookup_over k i l m s.0 h' in
      record {
        low = (i, w) ∷ rest.low;
        high = rest.high;
        read = ap (λ t. (i, w) ∷ t) rest.read;
        written = ground (arith, rest.written);
        removed = ground (arith, rest.removed);
        apart_low = (λ e. absurd (omega arith), rest.apart_low);
        apart_high = rest.apart_high;
      }
]

-- The two parts of the queue around a level, read from either end.
abbrev front : Bool → Levels → Levels → List Offer
front true low high = queue_of low
front false low high = queue_of (reverse high)

abbrev back : Bool → Levels → Levels → List Offer
back true low high = queue_of high
back false low high = queue_of (reverse low)

queue_of-around :
    (e : Bool) (low high : Levels) (k : ℕ) (l : PriceLevel)
    → queue_of (from_end e (low ++ (k, l) ∷ high))
      ≡ front e low high ++ (offers k l.orders ++ back e low high)
queue_of-around true low high k l = queue_of-append low ((k, l) ∷ high)
queue_of-around false low high k l =
    ap queue_of (reverse-append low ((k, l) ∷ high))
    ∙ queue_of-append (reverse ((k, l) ∷ high)) (reverse low)
    ∙ ap (λ t. t ++ queue_of (reverse low)) (queue_of-reverse k l high)
    ∙ append_assoc (queue_of (reverse high)) (offers k l.orders) (queue_of (reverse low))

queue_of-apart :
    (e : Bool) (low high : Levels)
    → queue_of (from_end e (low ++ high)) ≡ front e low high ++ back e low high
queue_of-apart true low high = queue_of-append low high
queue_of-apart false low high =
    ap queue_of (reverse-append low high) ∙ queue_of-append (reverse high) (reverse low)

front-apart :
    (e : Bool) (low high : Levels) (k : ℕ)
    → AllKeys (λ p. p ≢ k) low
    → AllKeys (λ p. p ≢ k) high
    → All (λ (x : Offer). x.price ≢ k) (front e low high)
front-apart true low high k a a' = All-queue_of (λ p. p ≢ k) low a
front-apart false low high k a a' =
    All-queue_of (λ p. p ≢ k) (reverse high) (All-reverse (λ p. p ≢ k) high a')

put_level_empty :
    (m : Levels) (k : ℕ) (l : PriceLevel) → l.orders ≡ [] → put_level m k l ≡ Map.remove k m
unfolding put_level Level.is_empty_level
put_level_empty m k l h = ground arith

put_level_filled :
    (m : Levels) (k : ℕ) (l : PriceLevel) (o : Order) (os : List Order)
    → l.orders ≡ o ∷ os
    → put_level m k l ≡ SortedMap.insert k l m
unfolding put_level Level.is_empty_level
put_level_filled m k l o os h = ground arith

module _ (e : Bool) (m : Levels) (k : ℕ) (l l' : PriceLevel) (b : Between m k l l') where
  queue_of-put_level :
      queue_of (from_end e (put_level m k l'))
      ≡ front e b.low b.high ++ (offers k l'.orders ++ back e b.low b.high)
  queue_of-put_level = elim (List-cases l'.orders) [
    | inl empty ↦
        ap (λ t. queue_of (from_end e t)) (put_level_empty m k l' empty ∙ b.removed)
        ∙ queue_of-apart e b.low b.high
        ∙ ap (λ t. front e b.low b.high ++ (offers k t ++ back e b.low b.high)) (sym empty)
    | inr (o, os, filled) ↦
        ap (λ t. queue_of (from_end e t)) (put_level_filled m k l' o os filled ∙ b.written)
        ∙ queue_of-around e b.low b.high k l'
  ]

-- Taking an order out of its level takes its offer out of the queue and moves no other.
pub queue_of-without :
    (e : Bool) (m : Levels) (k id : ℕ) (l l' : PriceLevel) (o : Order)
    → IsSorted m
    → Map.lookup k m ≡ some l
    → Level.find_order l id ≡ some o
    → l'.orders ≡ Level.without id l.orders
    → queue_of (from_end e (put_level m k l')) ≡ drop_offer k id (queue_of (from_end e m))
unfolding Level.find_order
queue_of-without e m k id l l' o s found stands without =
    let b = lookup-Between m k l l' s found in
    let fore = front e b.low b.high in
    let rear = back e b.low b.high in
    queue_of-put_level e m k l l' b
    ∙ ap (λ t. fore ++ (offers k t ++ rear)) without
    ∙ ap (λ t. fore ++ t) (sym (drop_offer-offers k id o l.orders rear stands))
    ∙ sym (
        drop_offer-behind k id fore (offers k l.orders ++ rear)
          (front-apart e b.low b.high k b.apart_low b.apart_high))
    ∙ ap (drop_offer k id)
        (sym (ap (λ t. queue_of (from_end e t)) b.read ∙ queue_of-around e b.low b.high k l))
