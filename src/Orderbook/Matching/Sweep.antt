-- ===== src/Orderbook/Matching/Sweep.antt =====
-- The loop over the levels, round by round: it ends, and it has served the queue.
use mathlib.Core.List.{append_assoc, append-nil}
use native.Mathlib.Decide.{dec_lt}
use zk_perp.Prelude.{
  ℕ, zero, suc, ◌-◌, ◌<◌, ◌≡◌, ◌≢◌, refl, sym, ap, subst, ◌∙◌, Bool, true, false, Option, none,
  some, List, [], ◌∷◌, ◌++◌, arith, length, inl, inr, ◌⊎◌, All, Bool-cases, Option-cases, nat_eq,
}
use zk_perp.Prelude.Map
use zk_perp.Prelude.Map.{Map}
use zk_perp.Prelude.SortedMap.{IsSorted}
use zk_perp.Prelude.SortedMap.Laws.{AtEnd, from_end, end_key, end_key-AtEnd, end_key-none}
use zk_perp.Types.Order.{Order, Side, OrderType, opposite}
use zk_perp.Orderbook.Level.{PriceLevel}
use zk_perp.Orderbook.Book.{Levels, get_book}
use zk_perp.Orderbook.Matching.{
  MatchingEngine, MatchingError, Matching, done, more, trade_at, round, match_levels, best_price,
  can_trade,
}
use zk_perp.Orderbook.Matching.Greedy.{
  Offer, size, trades, left, trades_none, left_none, trades-append, left-append, trades_again,
  left_again, size-trades, size-append,
}
use zk_perp.Orderbook.Matching.OneLevel.{offers, trades_of, SameTaker-trans}
use zk_perp.Orderbook.Matching.Priority.{
  queue_of, opposite_levels, taker_low, queue, IsLevel, IsReady, Matched, Advanced,
  best_price-end_key, get_book-opposite, trade_at-Advanced,
}

-- A state from which nothing is traded.
Matched-idle :
    (s : Matching)
    → IsReady s
    → (trades
          (can_trade s.incoming.side s.incoming.order_type s.incoming.price)
          s.incoming.remaining_qty
          (queue s.incoming.side s.book)
        ≡ [])
    → (left
          (can_trade s.incoming.side s.incoming.order_type s.incoming.price)
          s.incoming.remaining_qty
          (queue s.incoming.side s.book)
        ≡ queue s.incoming.side s.book)
    → ((k : ℕ)
        → 0 < s.incoming.remaining_qty
        → end_key (taker_low s.incoming.side) (opposite_levels s.incoming.side s.book) ≡ some k
        → can_trade s.incoming.side s.incoming.order_type s.incoming.price k ≡ false)
    → Matched s.incoming.side s.incoming.order_type s.incoming.price s s
Matched-idle s ready no_trade same stop = record {
  traded = rw no_trade (sym (append-nil (trades_of s.fills)));
  rest = sym same;
  wanted = omega (arith, ap size no_trade);
  total = refl;
  taker = ground arith;
  own = refl;
  keys = λ P h. h;
  sorted = ready.sorted;
  levels = ready.levels;
  stopped = stop;
}

Matched-filled :
    (s : Matching)
    → IsReady s
    → s.incoming.remaining_qty ≡ 0
    → Matched s.incoming.side s.incoming.order_type s.incoming.price s s
Matched-filled s ready h =
    let accepts = can_trade s.incoming.side s.incoming.order_type s.incoming.price in
    let q = queue s.incoming.side s.book in
    Matched-idle s ready (ap (λ n. trades accepts n q) h ∙ trades_none accepts q)
      (ap (λ n. left accepts n q) h ∙ left_none accepts q) (λ k pos e. absurd (omega arith))

queue_empty : (low : Bool) (ls : Levels) → ls ≡ [] → queue_of (from_end low ls) ≡ []
queue_empty true ls h = rw h refl
queue_empty false ls h = rw h refl

Matched-dry :
    (s : Matching)
    → IsReady s
    → end_key (taker_low s.incoming.side) (opposite_levels s.incoming.side s.book) ≡ none
    → Matched s.incoming.side s.incoming.order_type s.incoming.price s s
unfolding trades left
Matched-dry s ready h =
    let accepts = can_trade s.incoming.side s.incoming.order_type s.incoming.price in
    let low = taker_low s.incoming.side in
    let ls = opposite_levels s.incoming.side s.book in
    let no_queue = queue_empty low ls (end_key-none low ls h) in
    Matched-idle s ready (ap (trades accepts s.incoming.remaining_qty) no_queue)
      (ap (left accepts s.incoming.remaining_qty) no_queue ∙ sym no_queue) (λ k pos e. absurd (cc))

-- A queue whose first offer is not accepted.
trades_refused :
    (accepts : ℕ → Bool) (q k : ℕ) (os : List Order) (rest : List Offer)
    → os ≢ []
    → accepts k ≡ false
    → (trades accepts q (offers k os ++ rest) ≡ [])
      × (left accepts q (offers k os ++ rest) ≡ offers k os ++ rest)
unfolding trades left
trades_refused accepts q k [] rest h r = absurd (h refl)
trades_refused accepts q k (o ∷ os) rest h r = ground arith

Matched-refused :
    (s : Matching) (k : ℕ) (level : PriceLevel) (rest : Levels)
    → IsReady s
    → AtEnd (taker_low s.incoming.side) (opposite_levels s.incoming.side s.book) k level rest
    → end_key (taker_low s.incoming.side) (opposite_levels s.incoming.side s.book) ≡ some k
    → can_trade s.incoming.side s.incoming.order_type s.incoming.price k ≡ false
    → Matched s.incoming.side s.incoming.order_type s.incoming.price s s
Matched-refused s k level rest ready end h r =
    let accepts = can_trade s.incoming.side s.incoming.order_type s.incoming.price in
    let ls = opposite_levels s.incoming.side s.book in
    let read = ap queue_of end.read in
    let here = Map.All-lookup IsLevel k level ls ready.levels end.found in
    let (no_trade, same) =
      trades_refused accepts s.incoming.remaining_qty k level.orders (queue_of rest) here.0 r in
    Matched-idle s ready (ap (trades accepts s.incoming.remaining_qty) read ∙ no_trade)
      (ap (left accepts s.incoming.remaining_qty) read ∙ same ∙ sym read)
      (λ j pos e. let same_key : k ≡ j = cc in subst (λ x. accepts x ≡ false) same_key r)

-- A round that trades, and what follows it.
Matched-next :
    (side : Side) (type : OrderType) (price : ℕ) (s t u : Matching)
    → Advanced side type price s t
    → Matched side type price t u
    → Matched side type price s u
Matched-next side type price s t u a m =
    let accepts = can_trade side type price in
    let q = s.incoming.remaining_qty in
    let again =
      ap (trades accepts t.incoming.remaining_qty) a.after
      ∙ ap (λ n. trades accepts n (left accepts q a.front ++ a.behind)) a.remaining
      ∙ trades_again accepts q a.front a.behind a.accepted in
    let again' =
      ap (left accepts t.incoming.remaining_qty) a.after
      ∙ ap (λ n. left accepts n (left accepts q a.front ++ a.behind)) a.remaining
      ∙ left_again accepts q a.front a.behind a.accepted in
    record {
      traded =
          m.traded
          ∙ ap (λ x. trades_of t.fills ++ x) again
          ∙ ap (λ x. x ++ trades accepts (q - size a.front) a.behind) a.traded
          ∙ append_assoc (trades_of s.fills) (trades accepts q a.front)
              (trades accepts (q - size a.front) a.behind)
          ∙ ap (λ x. trades_of s.fills ++ x)
              (sym (
                ap (trades accepts q) a.before
                ∙ trades-append accepts q a.front a.behind a.accepted));
      rest =
          m.rest
          ∙ again'
          ∙ sym (ap (left accepts q) a.before ∙ left-append accepts q a.front a.behind a.accepted);
      wanted = omega (
        arith,
        m.wanted,
        ap size again,
        a.remaining,
        size-trades accepts q a.front a.accepted,
        ap size
            (ap (trades accepts q) a.before ∙ trades-append accepts q a.front a.behind a.accepted),
        size-append (trades accepts q a.front) (trades accepts (q - size a.front) a.behind),
      );
      total = m.total ∙ a.total;
      taker = SameTaker-trans _ _ _ a.taker m.taker;
      own = m.own ∙ a.own;
      keys = λ P h. m.keys P (a.keys P h);
      sorted = m.sorted;
      levels = m.levels;
      stopped = m.stopped;
    }

module _ (e : MatchingEngine) where
  round_filled : (s : Matching) → s.incoming.remaining_qty ≡ 0 → round e s ≡ done
  unfolding round
  round_filled s h = ground arith

  round_dry : (s : Matching) → best_price s.book s.incoming.side ≡ none → round e s ≡ done
  unfolding round
  round_dry s h = ground arith

  round_refused :
      (s : Matching) (k : ℕ)
      → best_price s.book s.incoming.side ≡ some k
      → can_trade s.incoming.side s.incoming.order_type s.incoming.price k ≡ false
      → round e s ≡ done
  unfolding round
  round_refused s k h r = rw (h, r, round) (ground arith)

  round_more :
      (s : Matching) (k : ℕ) (level : PriceLevel)
      → 0 < s.incoming.remaining_qty
      → best_price s.book s.incoming.side ≡ some k
      → can_trade s.incoming.side s.incoming.order_type s.incoming.price k ≡ true
      → s.incoming.post_only ≡ false
      → Map.lookup k (get_book s.book (opposite s.incoming.side)) ≡ some level
      → round e s ≡ more (trade_at e s k level)
  unfolding round
  round_more s k level pos h ok taking found = rw (h, ok, taking, found, round) (ground arith)

  match_levels_done :
      (fuel : ℕ) (s : Matching) → round e s ≡ done → match_levels fuel e s ≡ (s, none)
  unfolding match_levels
  match_levels_done zero s h = refl
  match_levels_done (suc fuel) s h = rw (h, match_levels) refl

  match_levels_more :
      (fuel : ℕ) (s t : Matching)
      → round e s ≡ more t
      → match_levels (suc fuel) e s ≡ match_levels fuel e t
  unfolding match_levels
  match_levels_more fuel s t h = rw (h, match_levels) refl

  -- What the loop returns from `s`: no error, and a state in which the queue is served.
  abbrev pub Swept : Matching → Matching × Option MatchingError → Type 1
  Swept s r = Matched s.incoming.side s.incoming.order_type s.incoming.price s r.0 × (r.1 ≡ none)

  Swept-done :
      (fuel : ℕ) (s : Matching)
      → round e s ≡ done
      → Matched s.incoming.side s.incoming.order_type s.incoming.price s s
      → Swept s (match_levels fuel e s)
  Swept-done fuel s h m = rw (match_levels_done fuel s h) (m, refl)

  Advanced-IsReady :
      (s t : Matching)
      → IsReady s
      → Advanced s.incoming.side s.incoming.order_type s.incoming.price s t
      → IsReady t
  Advanced-IsReady s t ready a =
      let back = sym a.taker.same_side in
      record {
        sorted = subst (λ x. IsSorted (opposite_levels x t.book)) back a.sorted;
        levels = subst (λ x. All IsLevel (opposite_levels x t.book)) back a.levels;
        fits = omega (arith, a.total, ready.fits);
      }

  Swept-next :
      (s t : Matching) (r : Matching × Option MatchingError)
      → Advanced s.incoming.side s.incoming.order_type s.incoming.price s t
      → Swept t r
      → Swept s r
  Swept-next s t r a (m, fine) =
      let m₁ =
        subst (λ x. Matched x t.incoming.order_type t.incoming.price t r.0) a.taker.same_side m in
      let m₂ = subst (λ x. Matched s.incoming.side x t.incoming.price t r.0) a.taker.same_type m₁ in
      let m₃ =
        subst (λ x. Matched s.incoming.side s.incoming.order_type x t r.0) a.taker.same_price m₂ in
      (Matched-next s.incoming.side s.incoming.order_type s.incoming.price s t r.0 a m₃, fine)

  -- The fuel left is enough: a level goes in each round, or nothing more is wanted.
  abbrev Enough : ℕ → Matching → Type 0
  Enough fuel s =
      (s.incoming.remaining_qty ≡ 0) ⊎ (length (opposite_levels s.incoming.side s.book) < fuel)

  Enough-next :
      (fuel : ℕ) (s t : Matching)
      → 0 < s.incoming.remaining_qty
      → Advanced s.incoming.side s.incoming.order_type s.incoming.price s t
      → Enough (suc fuel) s
      → Enough fuel t
  Enough-next fuel s t pos a (inl h) = absurd (omega arith)
  Enough-next fuel s t pos a (inr h) = elim a.shorter [
    | inl filled ↦ inl filled
    | inr less ↦ inr (
        subst (λ x. length (opposite_levels x t.book) < fuel) (sym a.taker.same_side) (omega arith))
  ]

  sweep :
      (fuel : ℕ) (s : Matching)
      → IsReady s
      → s.incoming.post_only ≡ false
      → Enough fuel s
      → Swept s (match_levels fuel e s)
  sweep zero s ready taking (inl h) =
      Swept-done zero s (round_filled s h) (Matched-filled s ready h)
  sweep zero s ready taking (inr h) = absurd (omega arith)
  sweep (suc fuel) s ready taking enough =
      let side = s.incoming.side in
      let ls = opposite_levels side s.book in
      let accepts = can_trade side s.incoming.order_type s.incoming.price in
      let best = best_price-end_key s.book side in
      let next = sweep fuel in
      elim (dec_lt 0 s.incoming.remaining_qty) [
        | no filled ↦
            let h : s.incoming.remaining_qty ≡ 0 = omega arith in
            Swept-done (suc fuel) s (round_filled s h) (Matched-filled s ready h)
        | yes pos ↦ elim (Option-cases (end_key (taker_low side) ls)) [
          | inl dry ↦ Swept-done (suc fuel) s (round_dry s (best ∙ dry)) (Matched-dry s ready dry)
          | inr (k, h) ↦
              let (level, rest, end) = end_key-AtEnd (taker_low side) ls k ready.sorted h in
              elim (Bool-cases (accepts k)) [
                | inl ok ↦
                    let t = trade_at e s k level in
                    let a = trade_at-Advanced e s k level rest ready end ok in
                    let found = ap (Map.lookup k) (get_book-opposite s.book side) ∙ end.found in
                    rw
                      (match_levels_more fuel s t
                        (round_more s k level pos (best ∙ h) ok taking found))
                      (Swept-next s t (match_levels fuel e t) a (
                        next t (Advanced-IsReady s t ready a) (a.taker.same_post_only ∙ taking)
                          (Enough-next fuel s t pos a enough)))
                | inr refused ↦
                    Swept-done (suc fuel) s (round_refused s k (best ∙ h) refused)
                      (Matched-refused s k level rest ready end h refused)
              ]
        ]
      ]

  pub match_levels-Swept :
      (s : Matching)
      → IsReady s
      → s.incoming.post_only ≡ false
      → Swept s (match_levels (suc (length (opposite_levels s.incoming.side s.book))) e s)
  match_levels-Swept s ready taking = sweep _ s ready taking (inr (omega arith))
