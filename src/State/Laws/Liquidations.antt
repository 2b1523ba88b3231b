-- ===== src/State/Laws/Liquidations.antt =====
-- What a liquidation does to the position and to the money.
use zk_perp.Prelude.{
  ℕ, ◌-◌, ◌/◌, ◌^◌, ◌≤◌, ◌<◌, ◌≡◌, ◌≢◌, refl, ap, sym, subst, ◌∙◌, true, Option, none, some, arith,
  ◌==◌, ==_iff, nat_eq, pair_eq, inl, inr, Bool-cases, Option-cases, min,
}
use mathlib.Core.Bool.{false≢true}
use zk_perp.Prelude.Words.{add_u128}
use zk_perp.Prelude.Int.{ℤ}
use zk_perp.Prelude.Map
use zk_perp.Types.Balance
use zk_perp.Types.Account
use zk_perp.Types.Account.{
  Account, increment_nonce, free_balance, locked_balance, get_balance, put_balance,
}
use zk_perp.Types.Account.Laws.{
  amounts, holding, holding-amounts, asset_id-get_balance, get_balance-put_balance, holding-deposit,
}
use zk_perp.Types.Market.{Market, OraclePrice}
use zk_perp.Types.Position
use zk_perp.Types.Position.{Position}
use zk_perp.Types.Transaction.{LiquidateTx}
use zk_perp.Merkle.External.{External}
use zk_perp.State.Global.{GlobalState, ok, update_account}
use zk_perp.State.Liquidation.{
  take_margin, pay_bonus, close_position, process_liquidate, commit_by_id,
}
use zk_perp.State.Laws.Deposits.{Ended}

abbrev pub holding_of : ℕ → Option Account → ℕ × ℕ
holding_of k none = (0, 0)
holding_of k (some a) = holding a k

-- What an account of the state holds of an asset, free and locked.
abbrev pub holdings : ℕ → ℕ → GlobalState → ℕ × ℕ
holdings id k s = holding_of k (Map.lookup id s.accounts)

holdings-update_account :
    (j k id : ℕ) (f : Account → Account) (s : GlobalState)
    → ((a : Account) → Map.lookup j s.accounts ≡ some a → holding (f a) k ≡ holding a k)
    → holdings id k (update_account j f s) ≡ holdings id k s
unfolding update_account
holdings-update_account j k id f s keeps = elim (Option-cases (Map.lookup j s.accounts)) [
  | inl h ↦ rw (h, update_account) refl
  | inr (a, h) ↦
      let same = keeps a h in
      elim (Bool-cases (id == j)) [
        | inl here ↦
            let at_key : id ≡ j = (==_iff id j).0 here in
            let now = ap (holding_of k) (Map.lookup-insert_self j (f a) s.accounts) in
            let before = ap (holding_of k) h in
            rw (h, update_account) (rw at_key (now ∙ same ∙ sym before))
        | inr other ↦
            let ne : id ≢ j = λ e. absurd (false≢true (sym other ∙ (==_iff id j).1 e)) in
            rw (h, update_account)
              (ap (holding_of k) (Map.lookup-insert_ne id j (f a) s.accounts ne))
      ]
]

-- Taking nothing and paying nothing.
deduct_nothing :
    (b : Balance.Balance)
    → (amounts (some (Balance.deduct_locked b 0).0) ≡ amounts (some b))
      × ((Balance.deduct_locked b 0).0.asset_id ≡ b.asset_id)
unfolding Balance.deduct_locked
deduct_nothing b = ground arith

take_margin_nothing :
    (m : Market) (k : ℕ) (a : Account) → holding (take_margin m 0 a) k ≡ holding a k
unfolding take_margin
take_margin_nothing m k a = elim (Option-cases (get_balance a m.quote_asset)) [
  | inl h ↦ rw (h, take_margin) refl
  | inr (b, h) ↦
      let b' = (Balance.deduct_locked b 0).0 in
      let d = deduct_nothing b in
      let read =
        get_balance-put_balance a k m.quote_asset b' b
          (d.1 ∙ asset_id-get_balance a m.quote_asset b h) h in
      rw (h, take_margin)
        (rw (holding-amounts (put_balance a m.quote_asset b') k, read)
          (ground (arith, holding-amounts a k, d.0)))
]

holding-increment_nonce : (k : ℕ) (a : Account) → holding (increment_nonce a) k ≡ holding a k
unfolding increment_nonce free_balance locked_balance Account.get_balance
holding-increment_nonce k a = refl

pay_bonus_nothing :
    (m : Market) (k : ℕ) (a : Account)
    → free_balance a m.quote_asset < 2 ^ 128
    → holding (pay_bonus m 0 a) k ≡ holding a k
unfolding pay_bonus
pay_bonus_nothing m k a fits =
    let same : add_u128 (free_balance a m.quote_asset) 0 ≡ free_balance a m.quote_asset =
      omega arith in
    holding-increment_nonce k (Account.deposit a m.quote_asset 0)
    ∙ holding-deposit a m.quote_asset 0 k
    ∙ ground (arith, same)

-- A position that is closed whole keeps nothing.
decrease_whole :
    (p : Position) (price timestamp : ℕ)
    → 0 < p.size
    → (q : Position) × (pnl : ℤ) × (Position.decrease p p.size price timestamp ≡ some (q, pnl))
      × (q.size ≡ 0)
      × (q.margin ≡ 0)
unfolding Position.decrease Position.decrease_by
decrease_whole p price timestamp pos =
    let r = Position.decrease_by p (min p.size p.size) price timestamp in
    (r.0, r.1, ground arith, ground arith, ground arith)

-- Only an open position is liquidatable.
is_liquidatable_open :
    (p : Position) (price mm : ℕ)
    → mm ≤ 10_000
    → Position.is_liquidatable p price mm ≡ true
    → 0 < p.size
unfolding Position.is_liquidatable Position.margin_ratio Position.is_open
is_liquidatable_open p price mm bound h = ground arith

-- The position of a key is closed: nothing of its size and margin is left.
abbrev pub IsClosed : Option Position → Type 0
IsClosed none = ⊥
IsClosed (some q) = (q.size ≡ 0) × (q.margin ≡ 0)

module _ (x : External) where
  commit_by_id-accounts : (id : ℕ) (s : GlobalState) → (commit_by_id x id s).accounts ≡ s.accounts
  unfolding commit_by_id
  commit_by_id-accounts id s = ground arith

  commit_by_id-positions :
      (id : ℕ) (s : GlobalState) → (commit_by_id x id s).positions ≡ s.positions
  unfolding commit_by_id
  commit_by_id-positions id s = ground arith

  -- The state after a position was closed with some margin to pay out.
  abbrev closed_state : LiquidateTx → Market → Position → ℕ → GlobalState → GlobalState
  closed_state tx m q margin s =
      update_account tx.liquidator_account_id (pay_bonus m (margin / 10)) (
        update_account tx.liquidatee_account_id (take_margin m (margin - margin / 10)) (record s {
          positions = Map.insert (tx.liquidatee_account_id, tx.market_id) q s.positions;
        }))

  close_position-closed_state :
      (tx : LiquidateTx) (m : Market) (p : Position) (o : OraclePrice) (s : GlobalState)
      → 0 < p.size
      → (q : Position) × (q.size ≡ 0)
        × (q.margin ≡ 0)
        × (close_position x tx m p o s ≡ (ok tt, closed_state tx m q 0 s))
  unfolding close_position
  close_position-closed_state tx m p o s pos =
      let (q, pnl, h, size, margin) = decrease_whole p o.price s.system.timestamp pos in
      (q, size, margin, rw (h, close_position) (ap (λ n. (ok tt, closed_state tx m q n s)) margin))

  positions-update_account :
      (id : ℕ) (f : Account → Account) (s : GlobalState)
      → (update_account id f s).positions ≡ s.positions
  unfolding update_account
  positions-update_account id f s = ground arith

  holdings-closed_state :
      (tx : LiquidateTx) (m : Market) (q : Position) (s : GlobalState) (id k : ℕ)
      → (holdings tx.liquidator_account_id m.quote_asset s).0 < 2 ^ 128
      → holdings id k (closed_state tx m q 0 s) ≡ holdings id k s
  holdings-closed_state tx m q s id k fits =
      let s1 = record s {
        positions = Map.insert (tx.liquidatee_account_id, tx.market_id) q s.positions;
      } in
      let s2 = update_account tx.liquidatee_account_id (take_margin m 0) s1 in
      let taken : (j a : ℕ) → holdings j a s2 ≡ holdings j a s = λ j a.
        holdings-update_account tx.liquidatee_account_id a j (take_margin m 0) s1
          (λ b h. take_margin_nothing m a b) in
      holdings-update_account tx.liquidator_account_id k id (pay_bonus m 0) s2 (λ a h.
        pay_bonus_nothing m k a (
          ground
            (arith, taken tx.liquidator_account_id m.quote_asset, ap (holding_of m.quote_asset) h)))
      ∙ taken id k

  -- The state once both accounts are written to their tree.
  abbrev committed : LiquidateTx → GlobalState → GlobalState
  committed tx s =
      commit_by_id x tx.liquidator_account_id (commit_by_id x tx.liquidatee_account_id s)

  settled :
      (tx : LiquidateTx) (m : Market) (q : Position) (s : GlobalState) (id k : ℕ)
      → (holdings tx.liquidator_account_id m.quote_asset s).0 < 2 ^ 128
      → q.size ≡ 0
      → q.margin ≡ 0
      → (holdings id k (committed tx (closed_state tx m q 0 s)) ≡ holdings id k s)
        × IsClosed (
            Map.lookup
              (tx.liquidatee_account_id, tx.market_id)
              (committed tx (closed_state tx m q 0 s)).positions)
  settled tx m q s id k fits size margin =
      let s1 = closed_state tx m q 0 s in
      let s2 = commit_by_id x tx.liquidatee_account_id s1 in
      let accounts =
        commit_by_id-accounts tx.liquidator_account_id s2
        ∙ commit_by_id-accounts tx.liquidatee_account_id s1 in
      let key : ℕ × ℕ = (tx.liquidatee_account_id, tx.market_id) in
      let positions =
        commit_by_id-positions tx.liquidator_account_id s2
        ∙ commit_by_id-positions tx.liquidatee_account_id s1
        ∙ positions-update_account tx.liquidator_account_id (pay_bonus m 0) _
        ∙ positions-update_account tx.liquidatee_account_id (take_margin m 0) _ in
      (
        ap (λ t. holding_of k (Map.lookup id t)) accounts
            ∙ holdings-closed_state tx m q s id k fits,
        subst IsClosed
            (sym (ap (Map.lookup key) positions ∙ Map.lookup-insert_self key q s.positions))
            (size, margin),
      )

  -- A liquidation that succeeds closes the whole position, of whatever quantity it asks for, and
  -- moves no money at all: every account holds of every asset what it held, free and locked, the
  -- liquidator included. One that fails leaves the state as it was, and none panics. The maintenance
  -- margin of the market is at most 100 percent, and what the liquidator holds free is in range.
  pub process_liquidate-holdings :
      (tx : LiquidateTx) (s : GlobalState) (id k : ℕ)
      → ((m : Market)
          → Map.lookup tx.market_id s.markets ≡ some m
          → (m.maintenance_margin_bps ≤ 10_000)
            × ((holdings tx.liquidator_account_id m.quote_asset s).0 < 2 ^ 128))
      → Ended
          (λ t.
            (holdings id k t ≡ holdings id k s)
            × IsClosed (Map.lookup (tx.liquidatee_account_id, tx.market_id) t.positions))
          s
          (process_liquidate x tx s)
  unfolding process_liquidate
  process_liquidate-holdings tx s id k ranges =
      elim (Option-cases (Map.lookup (tx.liquidatee_account_id, tx.market_id) s.positions)) [
        | inl h ↦ ground arith
        | inr (p, h) ↦ elim (Option-cases (Map.lookup tx.market_id s.oracle_prices)) [
          | inl h' ↦ ground arith
          | inr (o, h') ↦ elim (Option-cases (Map.lookup tx.market_id s.markets)) [
            | inl h'' ↦ ground arith
            | inr (m, h'') ↦
                elim (Bool-cases (Position.is_liquidatable p o.price m.maintenance_margin_bps)) [
                  | inl bad ↦
                      let (q, size, margin, closed) = close_position-closed_state tx m p o s (
                        is_liquidatable_open p o.price m.maintenance_margin_bps (ranges m h'').0
                          bad) in
                      let won = settled tx m q s id k (ranges m h'').1 size margin in
                      ground (arith, closed, won)
                  | inr fine ↦ ground arith
                ]
          ]
        ]
      ]
