-- ===== src/Merkle/Tree/Laws.antt =====
-- What a write of the sparse Merkle tree does to reads.
use mathlib.Core.Bool.{false≢true}
use zk_perp.Prelude.{
  ◌≡◌, ◌≢◌, ap, sym, ◌∙◌, none, some, arith, if◌then◌else◌, inl, inr, Bool-cases, bytes_eq,
  bytes_beq,
}
use zk_perp.Prelude.Map
use zk_perp.Prelude.Map.{Map}
use zk_perp.Merkle.External.{Bytes, External, zero_hash}
use zk_perp.Merkle.Tree.{SparseMerkleTree, insert, get, recompute_root}

-- The leaves after a write: a zero value is no leaf.
abbrev written : Bytes → Bytes → Map Bytes Bytes → Map Bytes Bytes
written k v m = if bytes_beq v zero_hash then Map.remove k m else Map.insert k v m

lookup-written :
    (j k v : Bytes) (m : Map Bytes Bytes)
    → Map.lookup j (written k v m)
      ≡ (if bytes_beq j k then (if bytes_beq v zero_hash then none else some v) else Map.lookup j m)
lookup-written j k v m = elim (Bool-cases (bytes_beq j k)) [
  | inl same ↦
      let at_key : j ≡ k = (bytes_eq.beq_iff j k).0 same in
      elim (Bool-cases (bytes_beq v zero_hash)) [
        | inl h ↦ rw h (rw same (rw at_key (Map.lookup-remove_self k m)))
        | inr h ↦ rw h (rw same (rw at_key (Map.lookup-insert_self k v m)))
      ]
  | inr other ↦
      let ne : j ≢ k = λ e. absurd (false≢true (sym other ∙ (bytes_eq.beq_iff j k).1 e)) in
      elim (Bool-cases (bytes_beq v zero_hash)) [
        | inl h ↦ rw h (rw other (Map.lookup-remove_ne j k m ne))
        | inr h ↦ rw h (rw other (Map.lookup-insert_ne j k v m ne))
      ]
]

module _ (x : External) where
  leaves-recompute_root : (t : SparseMerkleTree) → (recompute_root x t).leaves ≡ t.leaves
  unfolding recompute_root
  leaves-recompute_root t = ground arith

  leaves-insert :
      (t : SparseMerkleTree) (k v : Bytes) → (insert x t k v).leaves ≡ written k v t.leaves
  unfolding insert
  leaves-insert t k v = leaves-recompute_root (record t { leaves = written k v t.leaves })

  -- A read after a write: the key that was written reads as the value, or as nothing where the value
  -- is the zero hash, and every other key reads as before.
  pub get-insert :
      (t : SparseMerkleTree) (k v j : Bytes)
      → get x (insert x t k v) j
        ≡ (if bytes_beq j k then (if bytes_beq v zero_hash then none else some v) else get x t j)
  unfolding get
  get-insert t k v j = ap (Map.lookup j) (leaves-insert t k v) ∙ lookup-written j k v t.leaves
