-- ===== src/Orderbook/Matching/Priority.antt =====
-- The loop over the price levels serves the whole opposite side as one queue.
use zk_perp.Prelude.{
  ℕ, suc, ◌+◌, ◌-◌, ◌^◌, ◌<◌, ◌≡◌, ◌≢◌, refl, sym, ap, subst, ◌∙◌, Bool, true, false, some, List,
  [], ◌∷◌, ◌++◌, arith, length, inl, inr, ◌⊎◌, All, List-cases, nat_eq,
}
use zk_perp.Prelude.Map
use zk_perp.Prelude.Map.{Map, All-lookup}
use zk_perp.Prelude.SortedMap
use zk_perp.Prelude.SortedMap.{IsSorted}
use zk_perp.Prelude.SortedMap.Laws.{
  All-insert, AtEnd, from_end, end_key, insert-IsSorted, remove-IsSorted,
}
use zk_perp.Types.Order.{Order, Side, bid, ask, OrderType, opposite}
use zk_perp.Orderbook.Level
use zk_perp.Orderbook.Level.{PriceLevel}
use zk_perp.Orderbook.Book.{
  OrderBook, OrderLocation, Levels, best_bid, best_ask, get_book, set_book, put_level,
}
use zk_perp.Orderbook.Matching.{
  MatchingEngine, Matching, LevelLoop, match_level, trade_at, best_price, can_trade,
}
use zk_perp.Orderbook.Matching.Greedy.{
  Offer, size, trades, left, Accepted, left_spent, Bounded, left-Bounded,
}
use zk_perp.Orderbook.Matching.OneLevel.{offers, trades_of, SameTaker, InRange, match_level-Served}

-- Asks are served from the lowest price up, bids from the highest down.
abbrev pub low_first : Side → Bool
low_first ask = true
low_first bid = false

abbrev pub queue_of : Levels → List Offer
queue_of [] = []
queue_of ((p, l) ∷ ls) = offers p l.orders ++ queue_of ls

-- The queue that a taker of a side meets.
abbrev pub opposite_levels : Side → OrderBook → Levels
opposite_levels bid b = b.asks
opposite_levels ask b = b.bids

abbrev pub own_levels : Side → OrderBook → Levels
own_levels bid b = b.bids
own_levels ask b = b.asks

abbrev pub taker_low : Side → Bool
taker_low bid = true
taker_low ask = false

abbrev pub queue : Side → OrderBook → List Offer
queue side b = queue_of (from_end (taker_low side) (opposite_levels side b))

-- A level that stands in a book: it has orders, and their quantities are in range.
abbrev pub IsLevel : ℕ × PriceLevel → Type 0
IsLevel e = (e.1.orders ≢ []) × InRange e.1.orders

-- A property of the prices of a side.
abbrev pub AllKeys : (ℕ → Type 0) → Levels → Type 0
AllKeys P = All (λ e. P e.0)

pub record IsReady (s : Matching) : Type 0 where
  pub sorted : IsSorted (opposite_levels s.incoming.side s.book)
  pub levels : All IsLevel (opposite_levels s.incoming.side s.book)
  pub fits : s.total_filled + s.incoming.remaining_qty < 2 ^ 128

-- The effect of the loop from `s` to `t`, for a taker of this side, type and limit price.
pub record Matched (side : Side) (type : OrderType) (price : ℕ) (s t : Matching) : Type 1 where
  pub traded :
      trades_of t.fills
      ≡ trades_of s.fills
        ++ trades (can_trade side type price) s.incoming.remaining_qty (queue side s.book)
  pub rest :
      queue side t.book
      ≡ left (can_trade side type price) s.incoming.remaining_qty (queue side s.book)
  pub wanted :
      t.incoming.remaining_qty
        + size (trades (can_trade side type price) s.incoming.remaining_qty (queue side s.book))
      ≡ s.incoming.remaining_qty
  pub total : t.total_filled + t.incoming.remaining_qty ≡ s.total_filled + s.incoming.remaining_qty
  pub taker : SameTaker s.incoming t.incoming
  pub own : own_levels side t.book ≡ own_levels side s.book
  pub keys :
      (P : ℕ → Type 0)
      → AllKeys P (opposite_levels side s.book)
      → AllKeys P (opposite_levels side t.book)
  pub sorted : IsSorted (opposite_levels side t.book)
  pub levels : All IsLevel (opposite_levels side t.book)
  pub stopped :
      (k : ℕ)
      → 0 < t.incoming.remaining_qty
      → end_key (taker_low side) (opposite_levels side t.book) ≡ some k
      → can_trade side type price k ≡ false

pub best_price-end_key :
    (b : OrderBook) (side : Side)
    → best_price b side ≡ end_key (taker_low side) (opposite_levels side b)
unfolding best_price best_bid best_ask
best_price-end_key b bid = refl
best_price-end_key b ask = refl

pub get_book-opposite :
    (b : OrderBook) (side : Side) → get_book b (opposite side) ≡ opposite_levels side b
unfolding get_book opposite
get_book-opposite b bid = refl
get_book-opposite b ask = refl

offers-Accepted :
    (accepts : ℕ → Bool) (price : ℕ) (os : List Order)
    → accepts price ≡ true
    → Accepted accepts (offers price os)
offers-Accepted accepts price [] h = tt
offers-Accepted accepts price (o ∷ os) h = (h, offers-Accepted accepts price os h)

offers-Bounded : (price : ℕ) (os : List Order) → InRange os → Bounded (offers price os)
offers-Bounded price [] r = tt
offers-Bounded price (o ∷ os) r = (r.0, offers-Bounded price os r.1)

Bounded-offers : (price : ℕ) (os : List Order) → Bounded (offers price os) → InRange os
Bounded-offers price [] r = tt
Bounded-offers price (o ∷ os) r = (r.0, Bounded-offers price os r.1)

-- A level as it is left by the inner loop, put back into its side or taken out of it.
module _ (low : Bool) (ls : Levels) (k : ℕ) (level level' : PriceLevel) (rest : Levels) where
  put_level_empty : level'.orders ≡ [] → put_level ls k level' ≡ Map.remove k ls
  unfolding put_level Level.is_empty_level
  put_level_empty h = ground arith

  put_level_filled :
      (o : Order) (os : List Order)
      → level'.orders ≡ o ∷ os
      → put_level ls k level' ≡ SortedMap.insert k level' ls
  unfolding put_level Level.is_empty_level
  put_level_filled o os h = ground arith

  queue-put_level :
      AtEnd low ls k level rest
      → queue_of (from_end low (put_level ls k level')) ≡ offers k level'.orders ++ queue_of rest
  queue-put_level end = elim (List-cases level'.orders) [
    | inl empty ↦ rw (put_level_empty empty, end.removed, ap (offers k) empty) refl
    | inr (o, os, h) ↦ rw (put_level_filled o os h, end.written level') refl
  ]

  pub put_level-IsSorted : IsSorted ls → IsSorted (put_level ls k level')
  unfolding put_level Level.is_empty_level
  put_level-IsSorted s = ground (arith, insert-IsSorted k level' ls s, remove-IsSorted k ls s)

  pub put_level-All : All IsLevel ls → InRange level'.orders → All IsLevel (put_level ls k level')
  put_level-All a r = elim (List-cases level'.orders) [
    | inl empty ↦ rw (put_level_empty empty) (Map.All-remove IsLevel k ls a)
    | inr (o, os, h) ↦
        let filled : level'.orders ≢ [] = λ e. cc in
        rw (put_level_filled o os h) (All-insert IsLevel k level' ls (filled, r) a)
  ]

  put_level-AllKeys : (P : ℕ → Type 0) → P k → AllKeys P ls → AllKeys P (put_level ls k level')
  put_level-AllKeys P p a = elim (List-cases level'.orders) [
    | inl empty ↦ rw (put_level_empty empty) (Map.All-remove (λ e. P e.0) k ls a)
    | inr (o, os, h) ↦ rw (put_level_filled o os h) (All-insert (λ e. P e.0) k level' ls p a)
  ]

  length-put_level :
      AtEnd low ls k level rest
      → level'.orders ≡ []
      → length ls ≡ suc (length (put_level ls k level'))
  length-put_level end empty = rw (put_level_empty empty) end.shorter

opposite_levels-set_book :
    (b : OrderBook) (side : Side) (ls : Levels) (m : Map ℕ OrderLocation)
    → opposite_levels side (record (set_book b (opposite side) ls) { order_locations = m }) ≡ ls
unfolding set_book opposite
opposite_levels-set_book b bid ls m = refl
opposite_levels-set_book b ask ls m = refl

own_levels-set_book :
    (b : OrderBook) (side : Side) (ls : Levels) (m : Map ℕ OrderLocation)
    → own_levels side (record (set_book b (opposite side) ls) { order_locations = m })
      ≡ own_levels side b
unfolding set_book opposite
own_levels-set_book b bid ls m = refl
own_levels-set_book b ask ls m = refl

-- Orders at a price are left only if nothing more is wanted.
unserved :
    (accepts : ℕ → Bool) (k q : ℕ) (xs : List Offer) (o : Order) (os ms : List Order)
    → Accepted accepts xs
    → offers k ms ≡ left accepts q xs
    → ms ≡ o ∷ os
    → q - size xs ≡ 0
unserved accepts k q xs o os ms h rest e = elim (left_spent accepts q xs h) [
  | inl gone ↦ absurd (cc)
  | inr spent ↦ spent
]

-- One round that trades: the best level is served, and the rest of the queue stands behind it.
pub record Advanced (side : Side) (type : OrderType) (price : ℕ) (s t : Matching) : Type 1 where
  pub front : List Offer
  pub behind : List Offer
  pub accepted : Accepted (can_trade side type price) front
  pub before : queue side s.book ≡ front ++ behind
  pub after :
      queue side t.book ≡ left (can_trade side type price) s.incoming.remaining_qty front ++ behind
  pub traded :
      trades_of t.fills
      ≡ trades_of s.fills ++ trades (can_trade side type price) s.incoming.remaining_qty front
  pub remaining : t.incoming.remaining_qty ≡ s.incoming.remaining_qty - size front
  pub total : t.total_filled + t.incoming.remaining_qty ≡ s.total_filled + s.incoming.remaining_qty
  pub taker : SameTaker s.incoming t.incoming
  pub own : own_levels side t.book ≡ own_levels side s.book
  pub keys :
      (P : ℕ → Type 0)
      → AllKeys P (opposite_levels side s.book)
      → AllKeys P (opposite_levels side t.book)
  pub sorted : IsSorted (opposite_levels side t.book)
  pub levels : All IsLevel (opposite_levels side t.book)
  pub shorter :
      (t.incoming.remaining_qty ≡ 0)
      ⊎ (length (opposite_levels side s.book) ≡ suc (length (opposite_levels side t.book)))

module _ (e : MatchingEngine) where
  -- The inner loop as the round calls it.
  abbrev inner : Matching → PriceLevel → LevelLoop
  inner s level = record {
    level = level;
    order_locations = s.book.order_locations;
    incoming = s.incoming;
    fills = s.fills;
    total_filled = s.total_filled;
  }

  pub trade_at-Advanced :
      (s : Matching) (k : ℕ) (level : PriceLevel) (rest : Levels)
      → IsReady s
      → AtEnd (taker_low s.incoming.side) (opposite_levels s.incoming.side s.book) k level rest
      → can_trade s.incoming.side s.incoming.order_type s.incoming.price k ≡ true
      → Advanced s.incoming.side s.incoming.order_type s.incoming.price s (trade_at e s k level)
  unfolding trade_at
  trade_at-Advanced s k level rest ready end ok =
      let side = s.incoming.side in
      let ls = opposite_levels side s.book in
      let accepts = can_trade side s.incoming.order_type s.incoming.price in
      let ranges = (All-lookup IsLevel k level ls ready.levels end.found).1 in
      let served = match_level-Served e k accepts ok (inner s level) (ready.fits, ranges) in
      let out = match_level e k (inner s level) in
      let out_ranges = Bounded-offers k out.level.orders (
        rw served.rest (
          left-Bounded accepts s.incoming.remaining_qty (offers k level.orders)
            (offers-Bounded k level.orders ranges))) in
      let accepted = offers-Accepted accepts k level.orders ok in
      let levels' : opposite_levels side (trade_at e s k level).book ≡ put_level ls k out.level =
        opposite_levels-set_book s.book side _ out.order_locations
        ∙ ap (λ t. put_level t k out.level) (get_book-opposite s.book side) in
      record {
        front = offers k level.orders;
        behind = queue_of rest;
        accepted = accepted;
        before = ap queue_of end.read;
        after =
            ap (λ t. queue_of (from_end (taker_low side) t)) levels'
            ∙ queue-put_level (taker_low side) ls k level out.level rest end
            ∙ ap (λ t. t ++ queue_of rest) served.rest;
        traded = served.traded;
        remaining = served.remaining;
        total = served.total;
        taker = served.taker;
        own = own_levels-set_book s.book side _ out.order_locations;
        keys = λ P h. subst (AllKeys P) (sym levels') (
            put_level-AllKeys (taker_low side) ls k level out.level rest P
              (All-lookup (λ e. P e.0) k level ls h end.found) h);
        sorted =
            subst IsSorted (sym levels')
              (put_level-IsSorted (taker_low side) ls k level out.level rest ready.sorted);
        levels =
            subst (All IsLevel) (sym levels')
              (put_level-All (taker_low side) ls k level out.level rest ready.levels out_ranges);
        shorter = elim (List-cases out.level.orders) [
          | inl empty ↦ inr (
              length-put_level (taker_low side) ls k level out.level rest end empty
              ∙ ap (λ (t : Levels). suc (length t)) (sym levels'))
          | inr (o, os, h) ↦ inl (
              served.remaining
              ∙ unserved accepts k s.incoming.remaining_qty (offers k level.orders) o os
                  out.level.orders accepted served.rest h)
        ];
      }
