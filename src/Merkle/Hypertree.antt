-- ===== src/Merkle/Hypertree.antt =====
-- The six trees of the state and their combined root: crates/core/src/merkle/hypertree.rs.
use zk_perp.Prelude.{ℕ, List, [], ◌∷◌, ◌++◌, map}
use zk_perp.Prelude.Words.{le_bytes}
use zk_perp.Types.Account.{Account}
use zk_perp.Types.Order.{Order, orderbook_path}
use zk_perp.Types.Position.{Position}
use zk_perp.Merkle.External.{Bytes, External, hash, hash_pair, or_default}
use zk_perp.Merkle.Tree
use zk_perp.Merkle.Tree.{SparseMerkleTree, MerkleProof, default_tree_depth}

pub data TreeId : Type 0 where
  account account_order order_book position pool system : TreeId

pub record HypertreeWitness : Type 0 where
  pub pre_root : Bytes
  pub post_root : Bytes
  pub proofs : List (TreeId × MerkleProof)

pub record Hypertree : Type 0 where
  pub account_tree : SparseMerkleTree
  pub account_order_tree : SparseMerkleTree
  pub orderbook_tree : SparseMerkleTree
  pub position_tree : SparseMerkleTree
  pub pool_tree : SparseMerkleTree
  pub system_tree : SparseMerkleTree

unfoldable pub tree_roots : Hypertree → List Bytes
tree_roots t =
    t.account_tree.root ∷ t.account_order_tree.root ∷ t.orderbook_tree.root ∷ t.position_tree.root
    ∷ t.pool_tree.root ∷ t.system_tree.root ∷ []

unfoldable pub get_tree : Hypertree → TreeId → SparseMerkleTree
get_tree t account = t.account_tree
get_tree t account_order = t.account_order_tree
get_tree t order_book = t.orderbook_tree
get_tree t position = t.position_tree
get_tree t pool = t.pool_tree
get_tree t system = t.system_tree

module _ (x : External) where
  unfoldable pub new : Hypertree
  unfolding Tree.new
  new =
      let t = Tree.new x default_tree_depth in
      record {
        account_tree = t;
        account_order_tree = t;
        orderbook_tree = t;
        position_tree = t;
        pool_tree = t;
        system_tree = t;
      }

  unfoldable pub root : Hypertree → Bytes
  root t =
      let l2 = hash_pair x t.account_tree.root t.account_order_tree.root in
      let l1 = hash_pair x l2 t.orderbook_tree.root in
      let l3 = hash_pair x t.position_tree.root t.pool_tree.root in
      let r1 = hash_pair x l3 t.system_tree.root in hash_pair x l1 r1

  unfoldable pub account_key : ℕ → Bytes
  account_key account_id = hash x (le_bytes 8 account_id)

  unfoldable pub insert_account : Hypertree → Account → Hypertree
  unfolding account_key
  insert_account t a = record t {
    account_tree =
        Tree.insert x t.account_tree (account_key a.id)
          (hash x (or_default (x.serialize_account a)));
  }

  unfoldable pub orderbook_key : Order → Bytes
  unfolding orderbook_path
  orderbook_key o = hash x (orderbook_path o)

  unfoldable pub insert_order : Hypertree → Order → Hypertree
  unfolding orderbook_key
  insert_order t o = record t {
    orderbook_tree =
        Tree.insert x t.orderbook_tree (orderbook_key o)
          (hash x (or_default (x.serialize_order o)));
  }

  unfoldable pub remove_order : Hypertree → Order → Hypertree
  unfolding orderbook_key
  remove_order t o = record t { orderbook_tree = Tree.remove x t.orderbook_tree (orderbook_key o) }

  unfoldable pub position_key : ℕ → ℕ → Bytes
  position_key account_id market_id = hash x (le_bytes 8 account_id ++ le_bytes 4 market_id)

  unfoldable pub insert_position : Hypertree → Position → Hypertree
  unfolding position_key
  insert_position t p = record t {
    position_tree =
        Tree.insert x t.position_tree (position_key p.account_id p.market_id)
          (hash x (or_default (x.serialize_position p)));
  }

  unfoldable pub remove_position : Hypertree → ℕ → ℕ → Hypertree
  unfolding position_key
  remove_position t account_id market_id = record t {
    position_tree = Tree.remove x t.position_tree (position_key account_id market_id);
  }

  unfoldable pub prove_account : Hypertree → ℕ → MerkleProof
  unfolding account_key
  prove_account t account_id = Tree.prove x t.account_tree (account_key account_id)

  unfoldable pub prove_order : Hypertree → Order → MerkleProof
  unfolding orderbook_key
  prove_order t o = Tree.prove x t.orderbook_tree (orderbook_key o)

  unfoldable pub prove_position : Hypertree → ℕ → ℕ → MerkleProof
  unfolding position_key
  prove_position t account_id market_id =
      Tree.prove x t.position_tree (position_key account_id market_id)

  unfoldable pub generate_witness :
      Hypertree → List ℕ → List Order → List (ℕ × ℕ) → HypertreeWitness
  unfolding root prove_account prove_order prove_position
  generate_witness t account_ids orders position_keys = record {
    pre_root = root t;
    post_root = root t;
    proofs =
        map (λ id. (account, prove_account t id)) account_ids
        ++ (map (λ o. (order_book, prove_order t o)) orders
            ++ map (λ (p : ℕ × ℕ). (position, prove_position t p.0 p.1)) position_keys);
  }
