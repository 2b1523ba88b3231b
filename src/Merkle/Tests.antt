-- ===== src/Merkle/Tests.antt =====
-- Writes to a small tree, with a stand-in for the hash.
use zk_perp.Prelude.{◌≡◌, none, some, [], ◌∷◌, ◌++◌, if◌then◌else◌, take, bytes_beq}
use zk_perp.Prelude.Result.{ok}
use zk_perp.Merkle.External.{Bytes, External, zero_hash, zeros}
use zk_perp.Merkle.Tree
use zk_perp.Merkle.Tree.{SparseMerkleTree}
use zk_perp.Merkle.Tree.Laws.{get-insert}

abbrev stand_in : External
stand_in = record {
  sha256 = λ b. take 32 (b ++ zeros 32);
  serialize_account = λ a. some [];
  serialize_order = λ o. some [];
  serialize_position = λ p. some [];
  serialize_transaction = λ t. ok [];
}

abbrev key : Bytes
key = 3 ∷ zeros 31

abbrev value : Bytes
value = 9 ∷ zeros 31

abbrev tree : SparseMerkleTree
tree = record {
  depth = 2;
  root = zero_hash;
  leaves = (key, zero_hash) ∷ [];
  zero_hashes = zero_hash ∷ zero_hash ∷ zero_hash ∷ [];
}

get-insert_example : Tree.get stand_in (Tree.insert stand_in tree key value) key ≡ (
    if bytes_beq key key
    then (if bytes_beq value zero_hash then none else some value)
    else Tree.get stand_in tree key)
get-insert_example = get-insert stand_in tree key value key
