-- ===== src/Orderbook/Matching/Places.antt =====
-- The place that `add_order` gives to an order in its side.
use mathlib.Core.List.{append_assoc}
use zk_perp.Prelude.{
  ℕ, ◌<◌, ◌≡◌, ◌⊎◌, refl, sym, ap, ◌∙◌, Bool, true, false, Option, none, some, List, [], ◌∷◌, ◌++◌,
  reverse, arith, All, nat_eq, inl, inr, Option-cases,
}
use zk_perp.Prelude.Map
use zk_perp.Prelude.Map.{Map}
use zk_perp.Prelude.SortedMap
use zk_perp.Prelude.SortedMap.{IsSorted, Above}
use zk_perp.Prelude.SortedMap.Laws.{from_end, Above-trans}
use zk_perp.Types.Order.{Order, Side, bid, ask}
use zk_perp.Orderbook.Level
use zk_perp.Orderbook.Level.{PriceLevel}
use zk_perp.Orderbook.Book
use zk_perp.Orderbook.Book.{OrderBook, OrderLocation, Levels, level_at}
use zk_perp.Orderbook.Matching.Greedy.{Offer}
use zk_perp.Orderbook.Matching.OneLevel.{offer, offers}
use zk_perp.Orderbook.Matching.Priority.{queue_of, own_levels, low_first}
use zk_perp.Orderbook.Matching.Enqueue.{
  own_queue, better, enqueue, Ranked, enqueue-behind, enqueue-ahead, enqueue_last, All-offers,
  All-queue_of, All-reverse, queue_of-reverse, offers-append, lookup-Below,
}

-- The orders at a price, none where there is no level.
abbrev orders_at : Option PriceLevel → List Order
orders_at none = []
orders_at (some l) = l.orders

module _ (side : Side) (P : ℕ → Type 0) where
  rank :
      (p : ℕ) (answer : Bool) (xs : List Offer)
      → ((q : ℕ) → P q → better side p q ≡ answer)
      → All (λ x. P x.price) xs
      → Ranked side p answer xs
  rank p answer [] f a = tt
  rank p answer (x ∷ xs) f a = (f x.price a.0, rank p answer xs f a.1)

tri : (k i : ℕ) → (k < i) ⊎ ((k ≡ i) ⊎ (i < k))
tri k i = omega arith

module _ (k i : ℕ) (l w : PriceLevel) (m : Levels) where
  insert_below : k < i → SortedMap.insert k l ((i, w) ∷ m) ≡ (k, l) ∷ (i, w) ∷ m
  insert_below h = ground arith

  insert_same : k ≡ i → SortedMap.insert k l ((i, w) ∷ m) ≡ (k, l) ∷ m
  insert_same h = ground arith

  insert_above : i < k → SortedMap.insert k l ((i, w) ∷ m) ≡ (i, w) ∷ SortedMap.insert k l m
  insert_above h = ground arith

  lookup_below : k < i → Above i m → Map.lookup k ((i, w) ∷ m) ≡ none
  lookup_below h a = ground (arith, lookup-Below k i m h a)

  lookup_same : k ≡ i → Map.lookup k ((i, w) ∷ m) ≡ some w
  lookup_same h = ground arith

  lookup_above : i < k → Map.lookup k ((i, w) ∷ m) ≡ Map.lookup k m
  lookup_above h = ground arith

  -- The level at its place, by the price.
  abbrev Grown : Order → List Order → Type 0
  Grown o os = l.orders ≡ os ++ o ∷ []

  offers-Grown :
      (o : Order) (os : List Order) → Grown o os → offers k l.orders ≡ offers k os ++ offer k o ∷ []
  offers-Grown o os h = ap (offers k) h ∙ offers-append k os o

worse_ask : (p q : ℕ) → p < q → better ask p q ≡ true
worse_ask p q h = ground arith

kept_ask : (p q : ℕ) → q < p → better ask p q ≡ false
kept_ask p q h = ground arith

worse_bid : (p q : ℕ) → q < p → better bid p q ≡ true
worse_bid p q h = ground arith

kept_bid : (p q : ℕ) → p < q → better bid p q ≡ false
kept_bid p q h = ground arith

kept_equal : (side : Side) (p q : ℕ) → p ≡ q → better side p q ≡ false
kept_equal bid p q h = ground arith
kept_equal ask p q h = ground arith

module _ (o : Order) (l : PriceLevel) where
  -- A side read from its high end.
  queue_of-insert-reverse :
      (m : Levels)
      → IsSorted m
      → l.orders ≡ orders_at (Map.lookup o.price m) ++ o ∷ []
      → queue_of (reverse (SortedMap.insert o.price l m))
        ≡ enqueue bid (offer o.price o) (queue_of (reverse m))
  unfolding enqueue
  queue_of-insert-reverse [] s h = rw h refl
  queue_of-insert-reverse ((i, w) ∷ m) s h =
      let k = o.price in
      let new = offer k o in
      let q = queue_of (reverse m) in
      let over = All-queue_of (λ j. i < j) (reverse m) (All-reverse (λ j. i < j) m s.0) in
      let whole = queue_of-reverse i w m in
      elim (tri k i) [
        | inl below ↦
            let none_there = ap orders_at (lookup_below k i l w m below s.0) in
            let grown = offers-Grown k i l w m o [] (h ∙ ap (λ t. t ++ o ∷ []) none_there) in
            let all = queue_of (reverse ((i, w) ∷ m)) in
            let ranked =
              rank bid (λ j. k < j) k false all (kept_bid k)
                (All-queue_of (λ j. k < j) (reverse ((i, w) ∷ m))
                  (All-reverse (λ j. k < j) ((i, w) ∷ m) (below, Above-trans k i m below s.0))) in
            ap (λ t. queue_of (reverse t)) (insert_below k i l w m below)
            ∙ queue_of-reverse k l ((i, w) ∷ m)
            ∙ ap (λ t. all ++ t) grown
            ∙ sym (enqueue_last bid new all ranked)
        | inr (inl same) ↦
            let there = ap orders_at (lookup_same k i l w m same) in
            let grown = offers-Grown k i l w m o w.orders (h ∙ ap (λ t. t ++ o ∷ []) there) in
            let ranked =
              rank bid (λ j. k ≡ j) k false (offers i w.orders) (kept_equal bid k)
                (All-offers (λ j. k ≡ j) i w.orders same) in
            let ahead = rank bid (λ j. i < j) k false q (λ j b. kept_bid k j (omega arith)) over in
            ap (λ t. queue_of (reverse t)) (insert_same k i l w m same)
            ∙ queue_of-reverse k l m
            ∙ ap (λ t. q ++ t) grown
            ∙ ap (λ j. q ++ (offers j w.orders ++ new ∷ [])) same
            ∙ ap (λ t. q ++ t) (sym (enqueue_last bid new (offers i w.orders) ranked))
            ∙ sym (enqueue-behind bid new q (offers i w.orders) ahead)
            ∙ sym (ap (enqueue bid new) whole)
        | inr (inr above) ↦
            let there = ap orders_at (lookup_above k i l w m above) in
            let ranked =
              rank bid (λ j. j < k) k true (offers i w.orders) (worse_bid k)
                (All-offers (λ j. j < k) i w.orders above) in
            ap (λ t. queue_of (reverse t)) (insert_above k i l w m above)
            ∙ queue_of-reverse i w (SortedMap.insert k l m)
            ∙ ap (λ t. t ++ offers i w.orders)
                (queue_of-insert-reverse m s.1 (h ∙ ap (λ t. t ++ o ∷ []) there))
            ∙ sym (enqueue-ahead bid new q (offers i w.orders) ranked)
            ∙ sym (ap (enqueue bid new) whole)
      ]

  -- A side read from its low end.
  queue_of-insert :
      (m : Levels)
      → IsSorted m
      → l.orders ≡ orders_at (Map.lookup o.price m) ++ o ∷ []
      → queue_of (SortedMap.insert o.price l m) ≡ enqueue ask (offer o.price o) (queue_of m)
  unfolding enqueue
  queue_of-insert [] s h = rw h refl
  queue_of-insert ((i, w) ∷ m) s h =
      let k = o.price in
      let new = offer k o in
      let q = queue_of m in
      let over = All-queue_of (λ j. i < j) m s.0 in
      elim (tri k i) [
        | inl below ↦
            let none_there = ap orders_at (lookup_below k i l w m below s.0) in
            let grown = offers-Grown k i l w m o [] (h ∙ ap (λ t. t ++ o ∷ []) none_there) in
            let ranked =
              rank ask (λ j. k < j) k true (queue_of ((i, w) ∷ m)) (worse_ask k)
                (All-queue_of (λ j. k < j) ((i, w) ∷ m) (below, Above-trans k i m below s.0)) in
            ap queue_of (insert_below k i l w m below)
            ∙ ap (λ t. t ++ queue_of ((i, w) ∷ m)) grown
            ∙ sym (enqueue-ahead ask new [] (queue_of ((i, w) ∷ m)) ranked)
        | inr (inl same) ↦
            let there = ap orders_at (lookup_same k i l w m same) in
            let grown = offers-Grown k i l w m o w.orders (h ∙ ap (λ t. t ++ o ∷ []) there) in
            let ranked =
              rank ask (λ j. k ≡ j) k false (offers i w.orders) (kept_equal ask k)
                (All-offers (λ j. k ≡ j) i w.orders same) in
            let ahead = rank ask (λ j. i < j) k true q (λ j b. worse_ask k j (omega arith)) over in
            ap queue_of (insert_same k i l w m same)
            ∙ ap (λ t. t ++ q) grown
            ∙ append_assoc (offers k w.orders) (new ∷ []) q
            ∙ ap (λ j. offers j w.orders ++ new ∷ q) same
            ∙ ap (λ t. offers i w.orders ++ t) (sym (enqueue-ahead ask new [] q ahead))
            ∙ sym (enqueue-behind ask new (offers i w.orders) q ranked)
        | inr (inr above) ↦
            let there = ap orders_at (lookup_above k i l w m above) in
            let ranked =
              rank ask (λ j. j < k) k false (offers i w.orders) (kept_ask k)
                (All-offers (λ j. j < k) i w.orders above) in
            ap queue_of (insert_above k i l w m above)
            ∙ ap (λ t. offers i w.orders ++ t)
                (queue_of-insert m s.1 (h ∙ ap (λ t. t ++ o ∷ []) there))
            ∙ sym (enqueue-behind ask new (offers i w.orders) q ranked)
      ]

grown-level_at :
    (m : Levels) (o : Order)
    → (Level.add_order (level_at m o.price) o).orders ≡ orders_at (Map.lookup o.price m) ++ o ∷ []
unfolding Level.add_order level_at Level.new
grown-level_at m o = elim (Option-cases (Map.lookup o.price m)) [
  | inl h ↦ rw (h, level_at) refl
  | inr (l, h) ↦ rw (h, level_at) refl
]

placed :
    (side : Side) (b : OrderBook) (o : Order)
    → IsSorted (own_levels side b)
    → queue_of (
        from_end (low_first side) (
          SortedMap.insert o.price
            (Level.add_order (level_at (own_levels side b) o.price) o)
            (own_levels side b)))
      ≡ enqueue side (offer o.price o) (own_queue side b)
placed bid b o s =
    queue_of-insert-reverse o (Level.add_order (level_at b.bids o.price) o) b.bids s
      (grown-level_at b.bids o)
placed ask b o s =
    queue_of-insert o (Level.add_order (level_at b.asks o.price) o) b.asks s
      (grown-level_at b.asks o)

own_levels-set_book :
    (b : OrderBook) (side : Side) (ls : Levels) (m : Map ℕ OrderLocation)
    → own_levels side (record (Book.set_book b side ls) { order_locations = m }) ≡ ls
unfolding Book.set_book
own_levels-set_book b bid ls m = refl
own_levels-set_book b ask ls m = refl

pub get_book-own : (b : OrderBook) (side : Side) → Book.get_book b side ≡ own_levels side b
unfolding Book.get_book
get_book-own b bid = refl
get_book-own b ask = refl

-- An order that is added stands in its queue behind all that are at its price or at a better one.
pub own_queue-add_order :
    (b : OrderBook) (o : Order)
    → IsSorted (own_levels o.side b)
    → own_queue o.side (Book.add_order b o) ≡ enqueue o.side (offer o.price o) (own_queue o.side b)
unfolding Book.add_order
own_queue-add_order b o s =
    let grown : Levels → Levels =
      λ ls. SortedMap.insert o.price (Level.add_order (level_at ls o.price) o) ls in
    ap (λ t. queue_of (from_end (low_first o.side) t))
      (own_levels-set_book b o.side (grown (Book.get_book b o.side)) _
        ∙ ap grown (get_book-own b o.side))
    ∙ placed o.side b o s
