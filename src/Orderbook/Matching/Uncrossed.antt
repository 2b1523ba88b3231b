-- ===== src/Orderbook/Matching/Uncrossed.antt =====
-- A book in which no bid reaches an ask, and matching, which keeps it so.
use zk_perp.Prelude.{
  ℕ, suc, ◌^◌, ◌<◌, ◌≡◌, sym, ap, subst, ◌∙◌, false, none, some, [], ◌∷◌, arith, length, inl, inr,
  Bool-cases, nat_eq, ltb,
}
use zk_perp.Prelude.Map
use zk_perp.Prelude.Map.{Map}
use zk_perp.Prelude.SortedMap
use zk_perp.Prelude.SortedMap.{IsSorted}
use zk_perp.Prelude.SortedMap.Laws.{All-insert, Above-first_key, Below-last_key, end_key}
use zk_perp.Prelude.Result.{Result}
use zk_perp.Types.Order.{
  Order, Side, bid, ask, OrderType, limit, market, stop_loss, take_profit, is_market_type,
}
use zk_perp.Orderbook.Level
use zk_perp.Orderbook.Level.{PriceLevel}
use zk_perp.Orderbook.Book
use zk_perp.Orderbook.Book.{OrderBook, OrderLocation, Levels, get_book, set_book, level_at}
use zk_perp.Orderbook.Matching.{
  MatchingEngine, MatchingError, Matching, MatchResult, match_levels, match_order, start, finish,
  rest_order, can_trade,
}
use zk_perp.Orderbook.Matching.OneLevel.{SameTaker}
use zk_perp.Orderbook.Matching.Priority.{
  AllKeys, IsReady, Matched, opposite_levels, get_book-opposite, taker_low,
}
use zk_perp.Orderbook.Matching.Sweep.{match_levels-Swept}
use zk_perp.Orderbook.Matching.Refines.{match_order_swept}
use zk_perp.Orderbook.Matching.Valid.{IsValid, opposite_side}

-- Every ask lies above every bid.
abbrev pub Apart : Levels → Levels → Type 0
Apart bids asks = AllKeys (λ j. AllKeys (λ k. j < k) asks) bids

abbrev pub IsUncrossed : OrderBook → Type 0
IsUncrossed b = Apart b.bids b.asks

-- A price at which an order of the side crosses nothing.
abbrev Free : Side → ℕ → OrderBook → Type 0
Free bid p b = AllKeys (λ k. p < k) b.asks
Free ask p b = AllKeys (λ j. j < p) b.bids

Apart-insert :
    (p : ℕ) (l : PriceLevel) (bids asks : Levels)
    → Apart bids asks
    → AllKeys (λ j. j < p) bids
    → Apart bids (SortedMap.insert p l asks)
Apart-insert p l [] asks u f = tt
Apart-insert p l ((j, x) ∷ bids) asks u f =
    (All-insert (λ e. j < e.0) p l asks f.0 u.0, Apart-insert p l bids asks u.1 f.1)

IsUncrossed-set_book :
    (b : OrderBook) (side : Side) (p : ℕ) (l : PriceLevel) (m : Map ℕ OrderLocation)
    → IsUncrossed b
    → Free side p b
    → IsUncrossed
        (record (set_book b side (SortedMap.insert p l (get_book b side))) { order_locations = m })
unfolding set_book get_book
IsUncrossed-set_book b bid p l m u f =
    All-insert (λ e. AllKeys (λ k. e.0 < k) b.asks) p l b.bids f u
IsUncrossed-set_book b ask p l m u f = Apart-insert p l b.bids b.asks u f

add_order-IsUncrossed :
    (b : OrderBook) (o : Order)
    → IsUncrossed b
    → Free o.side o.price b
    → IsUncrossed (Book.add_order b o)
unfolding Book.add_order
add_order-IsUncrossed b o u f =
    IsUncrossed-set_book b o.side o.price (Level.add_order (level_at (get_book b o.side) o.price) o)
      (Map.insert o.id (record { side = o.side; price = o.price }) b.order_locations) u f

-- The best price of the other side is out of reach, and so is the whole side.
Free-stopped :
    (side : Side) (p : ℕ) (b : OrderBook)
    → IsSorted (opposite_levels side b)
    → ((k : ℕ)
        → end_key (taker_low side) (opposite_levels side b) ≡ some k
        → can_trade side limit p k ≡ false)
    → Free side p b
unfolding can_trade is_market_type
Free-stopped bid p b s h = Above-first_key p b.asks s (λ k e. let no = h k e in ground (arith, no))
Free-stopped ask p b s h = Below-last_key p b.bids s (λ k e. let no = h k e in ground (arith, no))

-- Where the loop stopped, nothing is wanted or the best price is out of reach.
abbrev Stopped : Side → OrderType → ℕ → Matching → Type 0
Stopped side type price s =
    (k : ℕ)
    → 0 < s.incoming.remaining_qty
    → end_key (taker_low side) (opposite_levels side s.book) ≡ some k
    → can_trade side type price k ≡ false

rest_order-IsUncrossed :
    (type : OrderType) (s : Matching)
    → IsUncrossed s.book
    → IsSorted (opposite_levels s.incoming.side s.book)
    → 0 < s.incoming.remaining_qty
    → Stopped s.incoming.side type s.incoming.price s
    → IsUncrossed (rest_order type s).0
unfolding rest_order
rest_order-IsUncrossed limit s u sorted pos stop =
    add_order-IsUncrossed s.book s.incoming u
      (Free-stopped s.incoming.side s.incoming.price s.book sorted (λ k e. stop k pos e))
rest_order-IsUncrossed market s u sorted pos stop = u
rest_order-IsUncrossed (stop_loss _) s u sorted pos stop = u
rest_order-IsUncrossed (take_profit _) s u sorted pos stop = u

finish-IsUncrossed :
    (s : Matching)
    → IsUncrossed s.book
    → IsSorted (opposite_levels s.incoming.side s.book)
    → Stopped s.incoming.side s.incoming.order_type s.incoming.price s
    → IsUncrossed (finish s).0
unfolding finish
finish-IsUncrossed s u sorted stop = elim (Bool-cases (ltb 0 s.incoming.remaining_qty)) [
  | inl some_left ↦
      rw (some_left, finish)
        (rest_order-IsUncrossed s.incoming.order_type s u sorted (ground arith) stop)
  | inr filled ↦ rw (filled, finish) u
]

All-imp : {P Q : ℕ → Type 0} (ls : Levels) → ((j : ℕ) → P j → Q j) → AllKeys P ls → AllKeys Q ls
All-imp [] f a = tt
All-imp ((j, l) ∷ ls) f a = (f j a.0, All-imp ls f a.1)

-- The loop ends with the side, the type and the price of the order it started with.
Stopped-taker :
    (i : Order) (s : Matching)
    → SameTaker i s.incoming
    → Stopped i.side i.order_type i.price s
    → Stopped s.incoming.side s.incoming.order_type s.incoming.price s
Stopped-taker i s same stop =
    subst (λ x. Stopped x s.incoming.order_type s.incoming.price s) (sym same.same_side)
      (subst (λ x. Stopped i.side x s.incoming.price s) (sym same.same_type)
        (subst (λ x. Stopped i.side i.order_type x s) (sym same.same_price) stop))

-- Levels that go from the other side leave the sides apart.
Matched-IsUncrossed :
    (side : Side) (type : OrderType) (price : ℕ) (s t : Matching)
    → Matched side type price s t
    → IsUncrossed s.book
    → IsUncrossed t.book
Matched-IsUncrossed bid type price s t m u =
    rw m.own (All-imp s.book.bids (λ j h. m.keys (λ k. j < k) h) u)
Matched-IsUncrossed ask type price s t m u =
    subst (Apart t.book.bids) (sym m.own) (m.keys (λ j. AllKeys (λ k. j < k) s.book.asks) u)

-- Matching never leaves the book crossed: if every bid lay below every ask, it still does, whatever
-- traded and whatever rests of the order. The book is valid, and the order wants something that is in
-- range and may take liquidity.
pub match_order-IsUncrossed :
    (e : MatchingEngine) (b : OrderBook) (i : Order)
    → IsValid b
    → IsUncrossed b
    → 0 < i.remaining_qty
    → i.remaining_qty < 2 ^ 128
    → i.post_only ≡ false
    → IsUncrossed (match_order e b i).0
unfolding start
match_order-IsUncrossed e b i v u pos range taking =
    let other = opposite_side b i.side v in
    let ready : IsReady (start b i) = record {
      sorted = other.sorted;
      levels = other.levels;
      fits = omega arith;
    } in
    let (m, fine) = match_levels-Swept e (start b i) ready taking in
    let run = match_levels (suc (length (opposite_levels i.side b))) e (start b i) in
    let same_fuel =
      ap (λ (t : Levels). match_levels (suc (length t)) e (start b i))
        (get_book-opposite b i.side) in
    let ended : run ≡ (run.0, none) = ap (λ x. (run.0, x)) fine in
    let kept = Matched-IsUncrossed i.side i.order_type i.price (start b i) run.0 m u in
    let reached = match_order_swept e b i run.0 pos (same_fuel ∙ ended) in
    subst IsUncrossed (sym (ap (λ (r : OrderBook × Result MatchingError MatchResult). r.0) reached))
      (finish-IsUncrossed run.0 kept
        (subst (λ x. IsSorted (opposite_levels x run.0.book)) (sym m.taker.same_side) m.sorted)
        (Stopped-taker i run.0 m.taker m.stopped))
