-- ===== src/Orderbook/Level.antt =====
-- `PriceLevel` of crates/orderbook/src/book.rs: the orders at one price, oldest first.
use zk_perp.Prelude.{
  ℕ, Bool, Option, none, some, List, [], ◌∷◌, ◌++◌, ◌==◌, if◌then◌else◌, is_empty,
  length as list_length, find,
}
use zk_perp.Prelude.Words.{add_u128, sub_u128}
use zk_perp.Types.Order.{Order}

pub record PriceLevel : Type 0 where
  pub price : ℕ
  pub orders : List Order
  pub total_quantity : ℕ

unfoldable pub new : ℕ → PriceLevel
new price = record { price = price; orders = []; total_quantity = 0 }

unfoldable pub add_order : PriceLevel → Order → PriceLevel
add_order l order = record l {
  orders = l.orders ++ order ∷ [];
  total_quantity = add_u128 l.total_quantity order.remaining_qty;
}

-- The list without the first order of that id.
unfoldable pub without : ℕ → List Order → List Order
without order_id [] = []
without order_id (o ∷ os) = if o.id == order_id then os else o ∷ without order_id os

unfoldable pub find_order : PriceLevel → ℕ → Option Order
find_order l order_id = find (λ (o : Order). o.id == order_id) l.orders

unfoldable pub remove_order : PriceLevel → ℕ → Option (Order × PriceLevel)
unfolding find_order without
remove_order l order_id = elim (find_order l order_id) [
  | none ↦ none
  | some order ↦ some (
    order,
    record l {
      orders = without order_id l.orders;
      total_quantity = sub_u128 l.total_quantity order.remaining_qty;
    },
  )
]

unfoldable pub front : PriceLevel → Option Order
front l = elim l.orders [ [] ↦ none | o ∷ os ↦ some o ]

unfoldable pub pop_front : PriceLevel → Option (Order × PriceLevel)
pop_front l = elim l.orders [
  | [] ↦ none
  | o ∷ os ↦
      some (o, record l { orders = os; total_quantity = sub_u128 l.total_quantity o.remaining_qty })
]

unfoldable pub is_empty_level : PriceLevel → Bool
is_empty_level l = is_empty l.orders

unfoldable pub len : PriceLevel → ℕ
len l = list_length l.orders
