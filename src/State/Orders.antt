-- ===== src/State/Orders.antt =====
-- Placing and cancelling orders.
use zk_perp.Prelude.{ℕ, not, none, some, List, [], ◌∷◌, ltb, ◌==◌, if◌then◌else◌, nat_eq}
use zk_perp.Prelude.Map
use zk_perp.Prelude.Result.{Result}
use zk_perp.Types.Balance
use zk_perp.Types.Account.{get_balance, put_balance, free_balance, increment_nonce}
use zk_perp.Types.Order.{Order, Fill}
use zk_perp.Types.Market.{Market, calculate_initial_margin, allocate_order_id}
use zk_perp.Types.Transaction.{PlaceOrderTx, CancelOrderTx, to_order, with_fills, with_order_id}
use zk_perp.Orderbook.Book.{OrderBook}
use zk_perp.Orderbook.Matching
use zk_perp.Orderbook.Matching.{MatchingError, MatchResult}
use zk_perp.Merkle.External.{External}
use zk_perp.Merkle.Hypertree
use zk_perp.State.Global.{
  market_not_found, insufficient_balance, matching_error, ProcessResult, GlobalState, Action, pure,
  fail, gets, or_fail, unwrap, guard, modify, ◌>>=◌, ◌>>◌, put_account, root, commit_account,
  success_receipt, account_result,
}
use zk_perp.State.Funds.{with_nonce}
use zk_perp.State.Fills.{process_fill, unlock_margin}

abbrev pub or_matching : {A : Type 0} → Result MatchingError A → Action A
or_matching (Result.ok a) = pure a
or_matching (Result.err e) = fail (matching_error e)

abbrev pub put_book : ℕ → OrderBook → GlobalState → GlobalState
put_book id book s = record s { orderbooks = Map.insert id book s.orderbooks }

-- `contains` and `push` of the affected accounts.
unfoldable pub add_new : ℕ → List ℕ → List ℕ
add_new a [] = a ∷ []
add_new a (b ∷ bs) = if a == b then b ∷ bs else b ∷ add_new a bs

unfoldable pub affected_from : List ℕ → List Fill → List ℕ
unfolding add_new
affected_from acc [] = acc
affected_from acc (f ∷ fs) = affected_from (add_new f.maker_account_id acc) fs

-- The margin of the order moves from free to locked.
unfoldable pub lock_margin : PlaceOrderTx → Market → Action (Unit {0})
unfolding calculate_initial_margin free_balance get_balance put_balance Balance.lock
lock_margin tx m = do
  account ← with_nonce tx.account_id tx.nonce
  let required_margin = calculate_initial_margin m tx.quantity tx.price
  guard (not (ltb (free_balance account m.quote_asset) required_margin)) insufficient_balance
  balance ← or_fail (get_balance account m.quote_asset) insufficient_balance
  let locked = Balance.lock balance required_margin
  guard locked.1 insufficient_balance
  modify (put_account tx.account_id (put_balance account m.quote_asset locked.0))

-- The new order and its id.
unfoldable pub create_order : PlaceOrderTx → Action (ℕ × Order)
unfolding allocate_order_id to_order
create_order tx = do
  system ← gets (λ s. s.system)
  let allocated = allocate_order_id system
  modify (λ s. record s { system = allocated.0 })
  pure (allocated.1, to_order tx allocated.1 system.timestamp)

unfoldable pub match_in_book : ℕ → Order → Action MatchResult
unfolding Matching.match_order
match_in_book market_id order = do
  book ← or_fail (Map.lookup market_id (← gets (λ s. s.orderbooks))) (market_not_found market_id)
  engine ← gets (λ s. s.matching_engine)
  let matched = Matching.match_order engine book order
  modify (put_book market_id matched.0)
  or_matching matched.1

module _ (x : External) where
  unfoldable pub process_fills : List Fill → Market → Action (Unit {0})
  unfolding process_fill
  process_fills [] m = pure tt
  process_fills (f ∷ fs) m = process_fill x f m >> process_fills fs m

  unfoldable pub commit_accounts : List ℕ → GlobalState → GlobalState
  commit_accounts [] s = s
  commit_accounts (id ∷ ids) s =
      commit_accounts ids
        (elim (Map.lookup id s.accounts) [ none ↦ s | some a ↦ commit_account x a s ])

  unfoldable pub process_place_order : PlaceOrderTx → Action ProcessResult
  unfolding lock_margin create_order match_in_book process_fills commit_accounts affected_from
  process_place_order tx = do
    pre_root ← gets (root x)
    market ←
        or_fail (Map.lookup tx.market_id (← gets (λ s. s.markets))) (market_not_found tx.market_id)
    proof ← gets (λ s. Hypertree.prove_account x s.hypertree tx.account_id)
    lock_margin tx market
    created ← create_order tx
    result ← match_in_book tx.market_id created.1
    process_fills result.fills market
    account ← unwrap (Map.lookup tx.account_id (← gets (λ s. s.accounts)))
    modify (put_account tx.account_id (increment_nonce account))
    modify (commit_accounts (affected_from (tx.account_id ∷ []) result.fills))
    s ← gets (λ s. s)
    let receipt = with_order_id (with_fills (success_receipt x s) result.fills) created.0
    pure (record (account_result x pre_root tx.account_id proof s) {
      receipt = receipt;
      match_result = some result;
    })

  unfoldable pub process_cancel_order : CancelOrderTx → Action ProcessResult
  unfolding Matching.cancel_order unlock_margin
  process_cancel_order tx = do
    pre_root ← gets (root x)
    proof ← gets (λ s. Hypertree.prove_account x s.hypertree tx.account_id)
    with_nonce tx.account_id tx.nonce
    book ←
        or_fail (Map.lookup tx.market_id (← gets (λ s. s.orderbooks)))
          (market_not_found tx.market_id)
    engine ← gets (λ s. s.matching_engine)
    let result = Matching.cancel_order engine book tx.order_id tx.account_id
    modify (put_book tx.market_id result.0)
    cancelled ← or_matching result.1
    market ←
        or_fail (Map.lookup tx.market_id (← gets (λ s. s.markets))) (market_not_found tx.market_id)
    account ← unwrap (Map.lookup tx.account_id (← gets (λ s. s.accounts)))
    let account' =
        increment_nonce (unlock_margin market cancelled.remaining_qty cancelled.price account)
    modify (put_account tx.account_id account')
    modify (commit_account x account')
    modify (λ s. record s { hypertree = Hypertree.remove_order x s.hypertree cancelled })
    gets (account_result x pre_root tx.account_id proof)
