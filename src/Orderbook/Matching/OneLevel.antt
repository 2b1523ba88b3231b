-- ===== src/Orderbook/Matching/OneLevel.antt =====
-- The loop over one price level serves the level's orders as a queue.
use mathlib.Core.List.{append_assoc, append-nil}
use zk_perp.Prelude.{
  ℕ, zero, suc, ◌+◌, ◌-◌, ◌^◌, ◌≤◌, ◌<◌, min, ◌≡◌, refl, Bool, true, false, List, [], ◌∷◌, ◌++◌,
  arith, List-cases, inl, inr, ◌⊎◌, length, sym, ◌∙◌, ap, subst,
}
use zk_perp.Prelude.Loop.{while, while_stop, while_step}
use native.Mathlib.Decide.{dec_lt, dec_le}
use zk_perp.Types.Order.{Order, Fill}
use zk_perp.Orderbook.Level
use zk_perp.Orderbook.Matching.{
  MatchingEngine, LevelLoop, fill_front, fill_once, level_test, match_level, make_fill,
}
use zk_perp.Orderbook.Matching.Greedy.{Offer, size, trades, left, trades_none, left_none}

-- A resting order and a fill as the queue sees them.
abbrev pub offer : ℕ → Order → Offer
offer price o = record { id = o.id; price = price; quantity = o.remaining_qty }

abbrev pub offers : ℕ → List Order → List Offer
offers price [] = []
offers price (o ∷ os) = offer price o ∷ offers price os

abbrev pub trade : Fill → Offer
trade f = record { id = f.maker_order_id; price = f.price; quantity = f.quantity }

abbrev pub trades_of : List Fill → List Offer
trades_of [] = []
trades_of (f ∷ fs) = trade f ∷ trades_of fs

trades_of-append : (fs gs : List Fill) → trades_of (fs ++ gs) ≡ trades_of fs ++ trades_of gs
trades_of-append [] gs = refl
trades_of-append (f ∷ fs) gs = ap (λ t. trade f ∷ t) (trades_of-append fs gs)

-- What the loops leave alone in the taker's order.
pub record SameTaker (i j : Order) : Type 0 where
  pub same_id : j.id ≡ i.id
  pub same_account : j.account_id ≡ i.account_id
  pub same_side : j.side ≡ i.side
  pub same_type : j.order_type ≡ i.order_type
  pub same_price : j.price ≡ i.price
  pub same_post_only : j.post_only ≡ i.post_only

-- The quantities of the resting orders are `u128`.
abbrev pub InRange : List Order → Type 0
InRange [] = Unit
InRange (o ∷ os) = (o.remaining_qty < 2 ^ 128) × InRange os

-- The effect of a loop that began at `s` and ended at `t`, where the price is accepted.
pub record Served (accepts : ℕ → Bool) (price : ℕ) (s t : LevelLoop) : Type 0 where
  pub traded :
      trades_of t.fills
      ≡ trades_of s.fills ++ trades accepts s.incoming.remaining_qty (offers price s.level.orders)
  pub rest :
      offers price t.level.orders
      ≡ left accepts s.incoming.remaining_qty (offers price s.level.orders)
  pub remaining :
      t.incoming.remaining_qty ≡ s.incoming.remaining_qty - size (offers price s.level.orders)
  pub total : t.total_filled + t.incoming.remaining_qty ≡ s.total_filled + s.incoming.remaining_qty
  pub taker : SameTaker s.incoming t.incoming

-- The numbers are in range, so that no sum wraps.
abbrev pub Fits : LevelLoop → Type 0
Fits s = (s.total_filled + s.incoming.remaining_qty < 2 ^ 128) × InRange s.level.orders

pub SameTaker-trans : (i j k : Order) → SameTaker i j → SameTaker j k → SameTaker i k
SameTaker-trans i j k p q = record {
  same_id = q.same_id ∙ p.same_id;
  same_account = q.same_account ∙ p.same_account;
  same_side = q.same_side ∙ p.same_side;
  same_type = q.same_type ∙ p.same_type;
  same_price = q.same_price ∙ p.same_price;
  same_post_only = q.same_post_only ∙ p.same_post_only;
}

module _ (e : MatchingEngine) (price : ℕ) where
  -- One round with a maker that is filled, and one with a maker that is not.
  record Popped (s t : LevelLoop) (m : Order) (ms : List Order) : Type 0 where
    orders : t.level.orders ≡ ms
    remaining : t.incoming.remaining_qty ≡ s.incoming.remaining_qty - m.remaining_qty
    total : t.total_filled ≡ s.total_filled + m.remaining_qty
    traded : trades_of t.fills ≡ trades_of s.fills ++ offer price m ∷ []
    taker : SameTaker s.incoming t.incoming

  record Kept (s t : LevelLoop) (m : Order) (ms : List Order) : Type 0 where
    orders :
        offers price t.level.orders
        ≡ record { id = m.id; price = price; quantity = m.remaining_qty - s.incoming.remaining_qty }
          ∷ offers price ms
    remaining : t.incoming.remaining_qty ≡ 0
    total : t.total_filled ≡ s.total_filled + s.incoming.remaining_qty
    traded :
        trades_of t.fills
        ≡ trades_of s.fills
          ++ record { id = m.id; price = price; quantity = s.incoming.remaining_qty } ∷ []
    taker : SameTaker s.incoming t.incoming

  trade-make_fill :
      (n : ℕ) (m i : Order)
      → trade (make_fill e price n m i) ≡ record { id = m.id; price = price; quantity = n }
  unfolding make_fill
  trade-make_fill n m i = refl

  fills-fill_front :
      (s : LevelLoop) (m : Order) (ms : List Order)
      → (fill_front e price s m ms).fills
        ≡ s.fills
          ++ make_fill e price (min s.incoming.remaining_qty m.remaining_qty) m s.incoming ∷ []
  unfolding fill_front Level.pop_front
  fills-fill_front s m ms = ground arith

  fill_front-Popped :
      (s : LevelLoop) (m : Order) (ms : List Order)
      → s.total_filled + s.incoming.remaining_qty < 2 ^ 128
      → m.remaining_qty ≤ s.incoming.remaining_qty
      → Popped s (fill_front e price s m ms) m ms
  unfolding fill_front Level.pop_front
  fill_front-Popped s m ms fits le = record {
    orders = ground arith;
    remaining = ground arith;
    total = ground arith;
    traded = rw (fills-fill_front s m ms, trades_of-append, trade-make_fill) (ground arith);
    taker = ground arith;
  }

  fill_front-Kept :
      (s : LevelLoop) (m : Order) (ms : List Order)
      → s.total_filled + s.incoming.remaining_qty < 2 ^ 128
      → m.remaining_qty < 2 ^ 128
      → s.incoming.remaining_qty < m.remaining_qty
      → Kept s (fill_front e price s m ms) m ms
  unfolding fill_front Level.pop_front
  fill_front-Kept s m ms fits range lt = record {
    orders = ground arith;
    remaining = ground arith;
    total = ground arith;
    traded = rw (fills-fill_front s m ms, trades_of-append, trade-make_fill) (ground arith);
    taker = ground arith;
  }

  fill_once-cons :
      (s : LevelLoop) (m : Order) (ms : List Order)
      → s.level.orders ≡ m ∷ ms
      → fill_once e price s ≡ fill_front e price s m ms
  unfolding fill_once
  fill_once-cons s m ms h = rw (h, fill_once)

  module _ (accepts : ℕ → Bool) (accepted : accepts price ≡ true) where
    Served-idle :
        (s : LevelLoop)
        → (s.level.orders ≡ []) ⊎ (s.incoming.remaining_qty ≡ 0)
        → Served accepts price s s
    Served-idle s (inl h) = record {
      traded = rw h (unfold trades in sym (append-nil (trades_of s.fills)));
      rest = rw h (unfold left in refl);
      remaining = rw h (omega arith);
      total = refl;
      taker = ground arith;
    }
    Served-idle s (inr h) = record {
      traded = rw (h, trades_none) (sym (append-nil (trades_of s.fills)));
      rest = rw (h, left_none) refl;
      remaining = omega arith;
      total = refl;
      taker = ground arith;
    }

    -- The filled maker heads the trades, and the rest is served with what is still wanted.
    Served-Popped :
        (s t u : LevelLoop) (m : Order) (ms : List Order)
        → s.level.orders ≡ m ∷ ms
        → 0 < s.incoming.remaining_qty
        → m.remaining_qty ≤ s.incoming.remaining_qty
        → Popped s t m ms
        → Served accepts price t u
        → Served accepts price s u
    unfolding trades left
    Served-Popped s t u m ms e pos le p h = record {
      traded = ground (
        arith,
        append_assoc (trades_of s.fills) (offer price m ∷ [])
            (trades accepts (s.incoming.remaining_qty - m.remaining_qty) (offers price ms)),
      );
      rest = ground arith;
      remaining = ground arith;
      total = ground arith;
      taker = SameTaker-trans _ _ _ p.taker h.taker;
    }

    Served-Kept :
        (s t : LevelLoop) (m : Order) (ms : List Order)
        → s.level.orders ≡ m ∷ ms
        → 0 < s.incoming.remaining_qty
        → s.incoming.remaining_qty < m.remaining_qty
        → Kept s t m ms
        → Served accepts price s t
    unfolding trades left
    Served-Kept s t m ms e pos lt k = record {
      traded =
          let all_taken : s.incoming.remaining_qty - m.remaining_qty ≡ 0 = omega arith in
          ground (arith, trades_none accepts (offers price ms));
      rest = ground arith;
      remaining = ground arith;
      total = ground arith;
      taker = k.taker;
    }

    level_test-true :
        (s : LevelLoop) (m : Order) (ms : List Order)
        → s.level.orders ≡ m ∷ ms
        → 0 < s.incoming.remaining_qty
        → level_test s ≡ true
    unfolding level_test
    level_test-true s m ms e pos = ground arith

    level_test-false :
        (s : LevelLoop)
        → (s.level.orders ≡ []) ⊎ (s.incoming.remaining_qty ≡ 0)
        → level_test s ≡ false
    unfolding level_test
    level_test-false s h = ground arith

    abbrev loop : ℕ → LevelLoop → LevelLoop
    loop fuel s = while fuel level_test (fill_once e price) s

    serve_idle :
        (fuel : ℕ) (s : LevelLoop)
        → (s.level.orders ≡ []) ⊎ (s.incoming.remaining_qty ≡ 0)
        → Served accepts price s (loop fuel s)
    serve_idle fuel s h =
        rw (while_stop fuel level_test (fill_once e price) s (level_test-false s h))
          (Served-idle s h)

    once-Popped :
        (s : LevelLoop) (m : Order) (ms : List Order)
        → s.level.orders ≡ m ∷ ms
        → Fits s
        → m.remaining_qty ≤ s.incoming.remaining_qty
        → Popped s (fill_once e price s) m ms
    once-Popped s m ms h fits le = rw (fill_once-cons s m ms h) (fill_front-Popped s m ms fits.0 le)

    once-Kept :
        (s : LevelLoop) (m : Order) (ms : List Order)
        → s.level.orders ≡ m ∷ ms
        → Fits s
        → s.incoming.remaining_qty < m.remaining_qty
        → Kept s (fill_once e price s) m ms
    once-Kept s m ms h fits lt = rw (fill_once-cons s m ms h) (
        fill_front-Kept s m ms fits.0
          (let ranges : InRange (m ∷ ms) = subst InRange h fits.1 in ranges.0) lt)

    Popped-Fits :
        (s t : LevelLoop) (m : Order) (ms : List Order)
        → s.level.orders ≡ m ∷ ms
        → m.remaining_qty ≤ s.incoming.remaining_qty
        → Popped s t m ms
        → Fits s
        → Fits t
    Popped-Fits s t m ms h le p fits =
        let ranges : InRange (m ∷ ms) = subst InRange h fits.1 in
        (omega (arith, fits.0, p.total, p.remaining), subst InRange (sym p.orders) ranges.1)

    -- With fuel for each order the loop serves the level as a queue.
    serve :
        (fuel : ℕ) (s : LevelLoop)
        → length s.level.orders ≤ fuel
        → Fits s
        → Served accepts price s (loop fuel s)
    serve zero s le fits = elim (List-cases s.level.orders) [
      | inl empty ↦ serve_idle zero s (inl empty)
      | inr (m, ms, h) ↦ absurd (omega (arith, ap length h))
    ]
    serve (suc fuel) s le fits =
        let next = fill_once e price s in
        let ih = serve fuel next in
        elim (List-cases s.level.orders) [
          | inl empty ↦ serve_idle (suc fuel) s (inl empty)
          | inr (m, ms, h) ↦ elim (dec_lt 0 s.incoming.remaining_qty) [
            | no filled ↦ serve_idle (suc fuel) s (inr (omega arith))
            | yes pos ↦
                rw (while_step fuel level_test (fill_once e price) s (level_test-true s m ms h pos))
                  (elim (dec_le m.remaining_qty s.incoming.remaining_qty) [
                    | yes le' ↦
                        let p = once-Popped s m ms h fits le' in
                        Served-Popped s next (loop fuel next) m ms h pos le' p (
                          ih (omega (arith, ap length h, ap length p.orders))
                            (Popped-Fits s next m ms h le' p fits))
                    | no gt ↦
                        let k = once-Kept s m ms h fits (omega arith) in
                        rw
                          (while_stop fuel level_test (fill_once e price) next
                            (level_test-false next (inr k.remaining)))
                          (Served-Kept s next m ms h pos (omega arith) k)
                  ])
          ]
        ]

    -- The loop as the code runs it, on two rounds more than there are orders, ends by its own test
    -- with the level served.
    pub match_level-Served :
        (s : LevelLoop) → Fits s → Served accepts price s (match_level e price s)
    unfolding match_level
    match_level-Served s fits = serve (suc (suc (length s.level.orders))) s (omega arith) fits
