-- ===== src/Orderbook/Matching/Cancel.antt =====
-- Cancelling an order.
use mathlib.Core.Bool.{false≢true}
use zk_perp.Prelude.{
  subst, ◌⊎◌, ℕ, ◌≡◌, ◌≢◌, refl, ap, sym, ◌∙◌, true, Option, none, some, List, arith, ◌==◌, ==_iff,
  inl, inr, Bool-cases, Option-cases, nat_eq,
}
use zk_perp.Prelude.Map
use zk_perp.Prelude.Words.{sub_u128}
use zk_perp.Prelude.Result.{ok, err}
use zk_perp.Prelude.SortedMap.{IsSorted}
use zk_perp.Prelude.SortedMap.Laws.{from_end}
use zk_perp.Types.Order.{Order, Side, bid, ask, opposite}
use zk_perp.Orderbook.Level
use zk_perp.Orderbook.Level.{PriceLevel}
use zk_perp.Orderbook.Book
use zk_perp.Orderbook.Book.{OrderBook, OrderLocation, Levels}
use zk_perp.Orderbook.Matching.Greedy.{Offer}
use zk_perp.Orderbook.Matching.Priority.{queue_of, own_levels, low_first}
use zk_perp.Orderbook.Matching.Enqueue.{own_queue}
use zk_perp.Orderbook.Matching.Places.{get_book-own}
use zk_perp.Orderbook.Matching.Removal.{drop_offer, queue_of-without}
use zk_perp.Orderbook.Matching.{MatchingEngine, order_not_found, invalid_order, cancel_order}

order_locations-set_book :
    (b : OrderBook) (side : Side) (ls : Levels)
    → (Book.set_book b side ls).order_locations ≡ b.order_locations
unfolding Book.set_book
order_locations-set_book b bid ls = refl
order_locations-set_book b ask ls = refl

get_book-unlocated :
    (b : OrderBook) (side : Side) (id : ℕ)
    → Book.get_book (record b { order_locations = Map.remove id b.order_locations }) side
      ≡ Book.get_book b side
unfolding Book.get_book
get_book-unlocated b bid id = refl
get_book-unlocated b ask id = refl

get_order-unlocated :
    (b : OrderBook) (id : ℕ) → Map.lookup id b.order_locations ≡ none → Book.get_order b id ≡ none
unfolding Book.get_order
get_order-unlocated b id h = ground arith

-- Where an order is found.
record Found (b : OrderBook) (id : ℕ) (o : Order) : Type 0 where
  location : OrderLocation
  level : PriceLevel
  located : Map.lookup id b.order_locations ≡ some location
  priced : Map.lookup location.price (Book.get_book b location.side) ≡ some level
  stands : Level.find_order level id ≡ some o

get_order-Found : (b : OrderBook) (id : ℕ) (o : Order) → Book.get_order b id ≡ some o → Found b id o
unfolding Book.get_order
get_order-Found b id o h = elim (Option-cases (Map.lookup id b.order_locations)) [
  | inl gone ↦ absurd (ground arith)
  | inr (l, located) ↦ elim (Option-cases (Map.lookup l.price (Book.get_book b l.side))) [
    | inl gone ↦ absurd (ground arith)
    | inr (level, priced) ↦ record {
      location = l;
      level = level;
      located = located;
      priced = priced;
      stands = ground arith;
    }
  ]
]

-- The level that a removal leaves.
abbrev rest_of : PriceLevel → ℕ → Order → PriceLevel
rest_of l id o = record l {
  orders = Level.without id l.orders;
  total_quantity = sub_u128 l.total_quantity o.remaining_qty;
}

remove_order-found :
    (l : PriceLevel) (id : ℕ) (o : Order)
    → Level.find_order l id ≡ some o
    → Level.remove_order l id ≡ some (o, rest_of l id o)
unfolding Level.remove_order
remove_order-found l id o h = rw (h, Level.remove_order) refl

-- The book without the place of an order.
abbrev unlocated : OrderBook → ℕ → OrderBook
unlocated b id = record b { order_locations = Map.remove id b.order_locations }

abbrev after_cancel : OrderBook → ℕ → Order → OrderLocation → PriceLevel → OrderBook
after_cancel b id o location level =
    Book.set_book (unlocated b id) location.side
      (Book.put_level (Book.get_book b location.side) location.price (rest_of level id o))

cancel_at-found :
    (b : OrderBook) (id : ℕ) (o : Order) (location : OrderLocation) (level : PriceLevel)
    → Map.lookup location.price (Book.get_book b location.side) ≡ some level
    → Level.find_order level id ≡ some o
    → Book.cancel_at (unlocated b id) id location ≡ (after_cancel b id o location level, some o)
unfolding Book.cancel_at
cancel_at-found b id o location level priced stands =
    rw (get_book-unlocated b location.side id, Book.cancel_at)
      (rw (priced, remove_order-found level id o stands) refl)

after_cancel-gone :
    (b : OrderBook) (id : ℕ) (o : Order) (location : OrderLocation) (level : PriceLevel)
    → Book.get_order (after_cancel b id o location level) id ≡ none
after_cancel-gone b id o location level =
    get_order-unlocated (after_cancel b id o location level) id (
      ap (Map.lookup id) (order_locations-set_book (unlocated b id) location.side _)
      ∙ Map.lookup-remove_self id b.order_locations)

-- The book after a cancellation: the id is not found and has no place, the queue of the order's
-- side has lost its offer and nothing else, and the other side is as it was.
pub record Removed (b : OrderBook) (id : ℕ) (b' : OrderBook) : Type 0 where
  pub location : OrderLocation
  pub located : Map.lookup id b.order_locations ≡ some location
  pub gone : Book.get_order b' id ≡ none
  pub unlocated : b'.order_locations ≡ Map.remove id b.order_locations
  pub own : own_queue location.side b' ≡ drop_offer location.price id (own_queue location.side b)
  pub other : own_queue (opposite location.side) b' ≡ own_queue (opposite location.side) b

own-IsSorted :
    (b : OrderBook) (side : Side) → IsSorted b.bids → IsSorted b.asks → IsSorted (own_levels side b)
own-IsSorted b bid s s' = s
own-IsSorted b ask s s' = s'

own_levels-set :
    (b : OrderBook) (id : ℕ) (side : Side) (ls : Levels)
    → own_levels side (Book.set_book (unlocated b id) side ls) ≡ ls
unfolding Book.set_book
own_levels-set b id bid ls = refl
own_levels-set b id ask ls = refl

own_queue-other :
    (b : OrderBook) (id : ℕ) (side : Side) (ls : Levels)
    → own_queue (opposite side) (Book.set_book (unlocated b id) side ls)
      ≡ own_queue (opposite side) b
unfolding Book.set_book opposite
own_queue-other b id bid ls = refl
own_queue-other b id ask ls = refl

after_cancel-Removed :
    (b : OrderBook) (id : ℕ) (o : Order)
    → IsSorted b.bids
    → IsSorted b.asks
    → (f : Found b id o) → Removed b id (after_cancel b id o f.location f.level)
after_cancel-Removed b id o s s' f =
    let l = f.location in
    let level' = rest_of f.level id o in
    let kept =
      own_queue-other b id l.side (Book.put_level (Book.get_book b l.side) l.price level') in
    let end : Levels → List Offer = λ t. queue_of (from_end (low_first l.side) t) in
    record {
      location = l;
      located = f.located;
      gone = after_cancel-gone b id o l f.level;
      unlocated = order_locations-set_book (unlocated b id) l.side _;
      own =
          ap end (
            own_levels-set b id l.side _
            ∙ ap (λ (t : Levels). Book.put_level t l.price level') (get_book-own b l.side))
          ∙ queue_of-without (low_first l.side) (own_levels l.side b) l.price id f.level level' o
              (own-IsSorted b l.side s s')
              (ap (λ (t : Levels). Map.lookup l.price t) (sym (get_book-own b l.side)) ∙ f.priced)
              f.stands refl;
      other = kept;
    }

-- Cancelling an order that is found returns it and takes it out.
cancel_order-found :
    (b : OrderBook) (id : ℕ) (o : Order)
    → IsSorted b.bids
    → IsSorted b.asks
    → Book.get_order b id ≡ some o
    → (b' : OrderBook) × (Book.cancel_order b id ≡ (b', some o)) × Removed b id b'
unfolding Book.cancel_order
cancel_order-found b id o s s' h =
    let f = get_order-Found b id o h in
    (
      after_cancel b id o f.location f.level,
      rw (f.located, Book.cancel_order)
          (cancel_at-found b id o f.location f.level f.priced f.stands),
      after_cancel-Removed b id o s s' f,
    )

cancel_order-owned :
    (e : MatchingEngine) (b b' : OrderBook) (id account : ℕ) (o : Order)
    → Book.get_order b id ≡ some o
    → (o.account_id == account) ≡ true
    → Book.cancel_order b id ≡ (b', some o)
    → cancel_order e b id account ≡ (b', ok o)
unfolding cancel_order
cancel_order-owned e b b' id account o h mine cancelled =
    rw (h, cancel_order) (rw mine (ground arith))

-- How a cancellation ends, by what the book says of the id: an unknown id and an order of another
-- account leave the book alone.
abbrev pub Cancelled : MatchingEngine → OrderBook → ℕ → ℕ → Option Order → Type 0
Cancelled e b id account none = cancel_order e b id account ≡ (b, err (order_not_found id))
Cancelled e b id account (some o) =
    ((o.account_id ≡ account)
      × ((b' : OrderBook) × (cancel_order e b id account ≡ (b', ok o)) × Removed b id b'))
    ⊎ ((o.account_id ≢ account)
        × (cancel_order e b id account
            ≡ (b, err (invalid_order "Order does not belong to account"))))

-- In a book whose sides are in order of price, an account can cancel its own orders and no others.
-- An id that the book does not find, and an order of another account, are refused and the book stays
-- as it is. The owner gets the order back: the book no longer finds the id and has no place for it,
-- the queue of the order's side has lost the offer of that price and id and no other, and the other
-- side is as it was.
pub cancel_order-Cancelled :
    (e : MatchingEngine) (b : OrderBook) (id account : ℕ)
    → IsSorted b.bids
    → IsSorted b.asks
    → Cancelled e b id account (Book.get_order b id)
unfolding cancel_order
cancel_order-Cancelled e b id account s s' = elim (Option-cases (Book.get_order b id)) [
  | inl h ↦ subst (Cancelled e b id account) (sym h) (rw (h, cancel_order) refl)
  | inr (o, h) ↦
      subst (Cancelled e b id account) (sym h) (elim (Bool-cases (o.account_id == account)) [
        | inl mine ↦
            let (b', cancelled, gone) = cancel_order-found b id o s s' h in
            inl (
              (==_iff _ _).0 mine,
              (b', cancel_order-owned e b b' id account o h mine cancelled, gone),
            )
        | inr other ↦ inr (
          (λ (same : o.account_id ≡ account). false≢true (sym other ∙ (==_iff _ _).1 same)),
          rw (h, cancel_order) (rw other refl),
        )
      ])
]
