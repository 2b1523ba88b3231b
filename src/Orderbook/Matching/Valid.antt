-- ===== src/Orderbook/Matching/Valid.antt =====
-- The invariant of a book, and the operations that keep it.
use zk_perp.Prelude.{
  ℕ, suc, ◌^◌, ◌<◌, ◌≡◌, ◌≢◌, sym, ap, subst, ◌∙◌, true, false, Option, none, some, List, [], ◌∷◌,
  ◌++◌, arith, length, inl, inr, All, Bool-cases, Option-cases, nat_eq, ltb,
}
use zk_perp.Prelude.Map
use zk_perp.Prelude.Map.{Map, All-lookup}
use zk_perp.Prelude.SortedMap
use zk_perp.Prelude.SortedMap.{IsSorted}
use zk_perp.Prelude.SortedMap.Laws.{All-insert, insert-IsSorted}
use zk_perp.Prelude.Result.{Result}
use zk_perp.Types.Order.{Order, Side, bid, ask, OrderType, limit, market, stop_loss, take_profit}
use zk_perp.Orderbook.Level
use zk_perp.Orderbook.Level.{PriceLevel}
use zk_perp.Orderbook.Book
use zk_perp.Orderbook.Book.{
  OrderBook, OrderLocation, Levels, get_book, set_book, level_at, put_level,
}
use zk_perp.Orderbook.Matching.{
  MatchingEngine, MatchingError, Matching, MatchResult, match_levels, match_order, start, finish,
  rest_order,
}
use zk_perp.Orderbook.Matching.OneLevel.{InRange}
use zk_perp.Orderbook.Matching.Priority.{
  IsLevel, IsReady, opposite_levels, own_levels, put_level-IsSorted, put_level-All,
  get_book-opposite,
}
use zk_perp.Orderbook.Matching.Sweep.{match_levels-Swept}
use zk_perp.Orderbook.Matching.Refines.{match_order_swept}

-- One side: levels in order of price, none of them empty, with quantities in range.
pub record IsSide (ls : Levels) : Type 0 where
  pub sorted : IsSorted ls
  pub levels : All IsLevel ls

pub record IsValid (b : OrderBook) : Type 0 where
  pub bids : IsSide b.bids
  pub asks : IsSide b.asks

side_of : (b : OrderBook) (side : Side) → IsValid b → IsSide (get_book b side)
unfolding get_book
side_of b bid v = v.bids
side_of b ask v = v.asks

IsValid-set_book :
    (b : OrderBook) (side : Side) (ls : Levels) (m : Map ℕ OrderLocation)
    → IsValid b
    → IsSide ls
    → IsValid (record (set_book b side ls) { order_locations = m })
unfolding set_book
IsValid-set_book b bid ls m v h = record { bids = h; asks = v.asks }
IsValid-set_book b ask ls m v h = record { bids = v.bids; asks = h }

IsValid-set_side :
    (b : OrderBook) (side : Side) (ls : Levels)
    → IsValid b
    → IsSide ls
    → IsValid (set_book b side ls)
unfolding set_book
IsValid-set_side b bid ls v h = record { bids = h; asks = v.asks }
IsValid-set_side b ask ls v h = record { bids = v.bids; asks = h }

pub both_sides :
    (b : OrderBook) (side : Side)
    → IsSide (opposite_levels side b)
    → IsSide (own_levels side b)
    → IsValid b
both_sides b bid h h' = record { bids = h'; asks = h }
both_sides b ask h h' = record { bids = h; asks = h' }

pub opposite_side : (b : OrderBook) (side : Side) → IsValid b → IsSide (opposite_levels side b)
opposite_side b bid v = v.asks
opposite_side b ask v = v.bids

pub own_side : (b : OrderBook) (side : Side) → IsValid b → IsSide (own_levels side b)
own_side b bid v = v.bids
own_side b ask v = v.asks

InRange-append :
    (os : List Order) (o : Order) → InRange os → o.remaining_qty < 2 ^ 128 → InRange (os ++ o ∷ [])
InRange-append [] o r h = (h, tt)
InRange-append (x ∷ os) o r h = (r.0, InRange-append os o r.1 h)

InRange-level_at : (ls : Levels) (k : ℕ) → All IsLevel ls → InRange (level_at ls k).orders
unfolding level_at Level.new
InRange-level_at ls k a = elim (Option-cases (Map.lookup k ls)) [
  | inl h ↦ rw (h, level_at) tt
  | inr (l, h) ↦ rw (h, level_at) (All-lookup IsLevel k l ls a h).1
]

append-filled : (os : List Order) (o : Order) → (os ++ o ∷ []) ≢ []
append-filled [] o h = cc
append-filled (x ∷ os) o h = cc

-- Adding an order whose remaining quantity is in range keeps the invariant of the book.
pub add_order-IsValid :
    (b : OrderBook) (o : Order)
    → IsValid b
    → o.remaining_qty < 2 ^ 128
    → IsValid (Book.add_order b o)
unfolding Book.add_order Level.add_order
add_order-IsValid b o v h =
    let ls = get_book b o.side in
    let side = side_of b o.side v in
    let l = Level.add_order (level_at ls o.price) o in
    let ranges =
      InRange-append (level_at ls o.price).orders o (InRange-level_at ls o.price side.levels) h in
    IsValid-set_book b o.side (SortedMap.insert o.price l ls) _ v (record {
      sorted = insert-IsSorted o.price l ls side.sorted;
      levels =
          All-insert IsLevel o.price l ls (append-filled (level_at ls o.price).orders o, ranges)
            side.levels;
    })

InRange-without : (id : ℕ) (os : List Order) → InRange os → InRange (Level.without id os)
unfolding Level.without
InRange-without id [] r = tt
InRange-without id (o ∷ os) r = ground (arith, InRange-without id os r.1)

-- The level that is left, where an order is removed.
RemovedInRange : Option (Order × PriceLevel) → Type 0
RemovedInRange none = Unit
RemovedInRange (some (o, l)) = InRange l.orders

remove_order-InRange :
    (l : PriceLevel) (id : ℕ) → InRange l.orders → RemovedInRange (Level.remove_order l id)
unfolding Level.remove_order RemovedInRange
remove_order-InRange l id r = elim (Option-cases (Level.find_order l id)) [
  | inl h ↦ rw (h, Level.remove_order) tt
  | inr (o, h) ↦ rw (h, Level.remove_order) (InRange-without id l.orders r)
]

cancel_at-IsValid :
    (b : OrderBook) (id : ℕ) (location : OrderLocation)
    → IsValid b
    → IsValid (Book.cancel_at b id location).0
unfolding Book.cancel_at RemovedInRange
cancel_at-IsValid b id location v =
    let ls = get_book b location.side in
    let side = side_of b location.side v in
    elim (Option-cases (Map.lookup location.price ls)) [
      | inl h ↦ rw (h, Book.cancel_at) v
      | inr (l, h) ↦ elim (Option-cases (Level.remove_order l id)) [
        | inl h' ↦ rw (h, Book.cancel_at) (rw h' v)
        | inr (r, h') ↦
            let ranges = subst RemovedInRange h' (
              remove_order-InRange l id (All-lookup IsLevel location.price l ls side.levels h).1) in
            rw (h, Book.cancel_at)
              (rw h' (
                IsValid-set_side b location.side (put_level ls location.price r.1) v (record {
                  sorted = put_level-IsSorted true ls location.price l r.1 [] side.sorted;
                  levels = put_level-All true ls location.price l r.1 [] side.levels ranges;
                })))
      ]
    ]

-- Cancelling keeps the invariant of the book, whether the id is found or not.
pub cancel_order-IsValid : (b : OrderBook) (id : ℕ) → IsValid b → IsValid (Book.cancel_order b id).0
unfolding Book.cancel_order
cancel_order-IsValid b id v = elim (Option-cases (Map.lookup id b.order_locations)) [
  | inl h ↦ rw (h, Book.cancel_order) v
  | inr (l, h) ↦
      rw (h, Book.cancel_order)
        (cancel_at-IsValid (record b { order_locations = Map.remove id b.order_locations }) id l
          (record { bids = v.bids; asks = v.asks }))
]

rest_order-IsValid :
    (type : OrderType) (s : Matching)
    → IsValid s.book
    → s.incoming.remaining_qty < 2 ^ 128
    → IsValid (rest_order type s).0
unfolding rest_order
rest_order-IsValid limit s v h = add_order-IsValid s.book s.incoming v h
rest_order-IsValid market s v h = v
rest_order-IsValid (stop_loss _) s v h = v
rest_order-IsValid (take_profit _) s v h = v

finish-IsValid :
    (s : Matching) → IsValid s.book → s.incoming.remaining_qty < 2 ^ 128 → IsValid (finish s).0
unfolding finish
finish-IsValid s v h = elim (Bool-cases (ltb 0 s.incoming.remaining_qty)) [
  | inl some_left ↦ rw (some_left, finish) (rest_order-IsValid s.incoming.order_type s v h)
  | inr filled ↦ rw (filled, finish) v
]

-- Matching keeps the invariant of the book: both sides stay in order of price, no level stands
-- empty, and all quantities stay in range. The order wants something that is in range, and it may
-- take liquidity.
pub match_order-IsValid :
    (e : MatchingEngine) (b : OrderBook) (i : Order)
    → IsValid b
    → 0 < i.remaining_qty
    → i.remaining_qty < 2 ^ 128
    → i.post_only ≡ false
    → IsValid (match_order e b i).0
unfolding start
match_order-IsValid e b i v pos range taking =
    let other = opposite_side b i.side v in
    let ready : IsReady (start b i) = record {
      sorted = other.sorted;
      levels = other.levels;
      fits = omega arith;
    } in
    let (m, fine) = match_levels-Swept e (start b i) ready taking in
    let run = match_levels (suc (length (opposite_levels i.side b))) e (start b i) in
    let same_fuel =
      ap (λ (t : Levels). match_levels (suc (length t)) e (start b i))
        (get_book-opposite b i.side) in
    let ended : run ≡ (run.0, none) = ap (λ x. (run.0, x)) fine in
    let valid =
      both_sides run.0.book i.side (record { sorted = m.sorted; levels = m.levels })
        (subst IsSide (sym m.own) (own_side b i.side v)) in
    let reached = match_order_swept e b i run.0 pos (same_fuel ∙ ended) in
    subst IsValid (sym (ap (λ (r : OrderBook × Result MatchingError MatchResult). r.0) reached))
      (finish-IsValid run.0 valid (omega (arith, m.wanted)))
