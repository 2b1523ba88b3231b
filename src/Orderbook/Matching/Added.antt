-- ===== src/Orderbook/Matching/Added.antt =====
-- What `add_order` does to a book.
use zk_perp.Prelude.{
  ℕ, ◌^◌, ◌<◌, ◌≡◌, ◌≢◌, refl, sym, ap, ◌∙◌, some, if◌then◌else◌, ◌==◌, ==_iff, nat_eq, inl, inr,
  Bool-cases,
}
use mathlib.Core.Bool.{false≢true}
use zk_perp.Prelude.Map
use zk_perp.Types.Order.{Order}
use zk_perp.Orderbook.Book
use zk_perp.Orderbook.Book.{OrderBook, OrderLocation}
use zk_perp.Orderbook.Matching.OneLevel.{offer}
use zk_perp.Orderbook.Matching.Priority.{queue, queue_of, taker_low}
use zk_perp.Prelude.SortedMap.Laws.{from_end}
use zk_perp.Orderbook.Matching.Enqueue.{own_queue, enqueue}
use zk_perp.Orderbook.Matching.Places.{own_queue-add_order}
use zk_perp.Orderbook.Matching.Refines.{opposite_levels-add_order}
use zk_perp.Orderbook.Matching.Valid.{IsValid, own_side, add_order-IsValid}

pub record Added (b : OrderBook) (o : Order) (b' : OrderBook) : Type 0 where
  pub own : own_queue o.side b' ≡ enqueue o.side (offer o.price o) (own_queue o.side b)
  pub other : queue o.side b' ≡ queue o.side b
  pub located :
      (id : ℕ)
      → Map.lookup id b'.order_locations ≡ (
          if id == o.id
          then some (record { side = o.side; price = o.price })
          else Map.lookup id b.order_locations)
  pub valid : IsValid b'

lookup-insert :
    (id k : ℕ) (l : OrderLocation) (m : Map.Map ℕ OrderLocation)
    → Map.lookup id (Map.insert k l m) ≡ (if id == k then some l else Map.lookup id m)
lookup-insert id k l m = elim (Bool-cases (id == k)) [
  | inl same ↦
      let at_key : id ≡ k = (==_iff id k).0 same in
      rw same (rw at_key (Map.lookup-insert_self k l m))
  | inr other ↦
      let ne : id ≢ k = λ e. absurd (false≢true (sym other ∙ (==_iff id k).1 e)) in
      rw other (Map.lookup-insert_ne id k l m ne)
]

located-add_order :
    (b : OrderBook) (o : Order)
    → (Book.add_order b o).order_locations
      ≡ Map.insert o.id (record { side = o.side; price = o.price }) b.order_locations
unfolding Book.add_order
located-add_order b o = refl

-- An order in range that is added to a valid book joins the queue of its own side, behind all orders
-- at its price or a better one and ahead of all others, which stay in their order. The other side is
-- as it was. The book has the side and the price of the order under its id and the old entry under
-- every other id, and it is valid.
pub add_order-Added :
    (b : OrderBook) (o : Order)
    → IsValid b
    → o.remaining_qty < 2 ^ 128
    → Added b o (Book.add_order b o)
add_order-Added b o v range = record {
  own = own_queue-add_order b o (own_side b o.side v).sorted;
  other = ap (λ t. queue_of (from_end (taker_low o.side) t)) (opposite_levels-add_order b o);
  located = λ id.
      ap (Map.lookup id) (located-add_order b o)
      ∙ lookup-insert id o.id (record { side = o.side; price = o.price }) b.order_locations;
  valid = add_order-IsValid b o v range;
}
