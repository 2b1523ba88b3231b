-- ===== src/Merkle/Tree.antt =====
-- The sparse Merkle tree: crates/core/src/merkle/tree.rs. A hash map is walked in the order of its
-- association list; Rust leaves that order open.
pub mod Laws
use zk_perp.Prelude.{
  ℕ, zero, suc, ◌+◌, ◌-◌, ◌/◌, ◌%◌, ◌^◌, Bool, true, false, not, Option, none, some, List, [], ◌∷◌,
  ◌++◌, leb, ltb, ◌==◌, if◌then◌else◌, is_empty, length, get_or, take, bytes_eq, bytes_beq, bits_eq,
  bits_beq,
}
use zk_perp.Prelude.Map
use zk_perp.Prelude.Map.{Map}
use zk_perp.Merkle.External.{Bytes, External, zero_hash, hash_pair}

abbrev pub BitPath : Type 0
BitPath = List Bool

-- A default for a bit, a hash or a byte that is read by index; the indices are in range.
abbrev hash_at : List Bytes → ℕ → Bytes
hash_at hs i = get_or hs i zero_hash

abbrev or_hash : Option Bytes → Bytes → Bytes
or_hash none h = h
or_hash (some k) h = k

pub record MerkleProof : Type 0 where
  pub key : Bytes
  pub value : Bytes
  pub siblings : List Bytes
  pub path : BitPath

pub record SparseMerkleTree : Type 0 where
  pub depth : ℕ
  pub root : Bytes
  pub leaves : Map Bytes Bytes
  pub zero_hashes : List Bytes

abbrev pub default_tree_depth : ℕ
default_tree_depth = 32

-- Bits `i`, `i + 1`, … of a key, the high bit of each byte first.
unfoldable pub path_from : ℕ → ℕ → Bytes → BitPath
path_from zero i key = []
path_from (suc n) i key =
    (get_or key (i / 8) 0 / 2 ^ (7 - i % 8) % 2 == 1) ∷ path_from n (i + 1) key

unfoldable pub key_to_path : Bytes → ℕ → BitPath
unfolding path_from
key_to_path key depth = path_from depth 0 key

-- Whether a path starts with another.
unfoldable pub starts_with : BitPath → BitPath → Bool
starts_with path [] = true
starts_with [] (b ∷ bs) = false
starts_with (a ∷ as') (b ∷ bs) = elim (bits_beq (a ∷ []) (b ∷ [])) [
  | true ↦ starts_with as' bs
  | false ↦ false
]

unfoldable pub has_leaves : ℕ → BitPath → Map Bytes Bytes → Bool
unfolding starts_with key_to_path
has_leaves depth path [] = false
has_leaves depth path ((k, v) ∷ m) =
    if starts_with (key_to_path k depth) path then true else has_leaves depth path m

-- `contains` of the set of parents that are done.
unfoldable pub seen_in : BitPath → List BitPath → Bool
seen_in p [] = false
seen_in p (q ∷ qs) = if bits_beq p q then true else seen_in p qs

-- A path with its last bit flipped.
unfoldable pub flip_last : BitPath → BitPath
flip_last [] = []
flip_last (b ∷ []) = not b ∷ []
flip_last (b ∷ c ∷ bs) = b ∷ flip_last (c ∷ bs)

module _ (x : External) where
  unfoldable pub zeros_from : ℕ → Bytes → List Bytes
  zeros_from zero h = h ∷ []
  zeros_from (suc n) h = h ∷ zeros_from n (hash_pair x h h)

  unfoldable pub compute_zero_hashes : ℕ → List Bytes
  unfolding zeros_from
  compute_zero_hashes depth = zeros_from depth zero_hash

  -- The walk up from a leaf: at step `i` the sibling on this level and the bit of the path.
  unfoldable pub walk_up : List Bytes → ℕ → List Bytes → BitPath → Bytes → Bytes
  walk_up zs i [] path current = current
  walk_up zs i (s ∷ ss) [] current = current
  walk_up zs i (s ∷ ss) (is_right ∷ path) current =
      let sibling_hash = if bytes_beq s zero_hash then hash_at zs i else s in
      walk_up zs (i + 1) ss path
        (if is_right then hash_pair x sibling_hash current else hash_pair x current sibling_hash)

  unfoldable pub verify : MerkleProof → Bytes → Bool
  unfolding walk_up compute_zero_hashes
  verify p root =
      let zs = compute_zero_hashes (length p.siblings) in
      let leaf = if bytes_beq p.value zero_hash then hash_at zs 0 else hash_pair x p.key p.value in
      bytes_beq (walk_up zs 0 p.siblings p.path leaf) root

  unfoldable pub new : ℕ → SparseMerkleTree
  unfolding compute_zero_hashes
  new depth =
      let zs = compute_zero_hashes depth in
      record { depth = depth; root = hash_at zs depth; leaves = []; zero_hashes = zs }

  unfoldable pub get : SparseMerkleTree → Bytes → Option Bytes
  get t key = Map.lookup key t.leaves

  -- The leaf hashes by path.
  unfoldable pub leaf_hashes : ℕ → Map Bytes Bytes → Map BitPath Bytes → Map BitPath Bytes
  unfolding key_to_path
  leaf_hashes depth [] acc = acc
  leaf_hashes depth ((k, v) ∷ m) acc =
      leaf_hashes depth m (Map.insert (key_to_path k depth) (hash_pair x k v) acc)

  -- The hash of a parent from its two children, where an absent child is an empty subtree.
  unfoldable pub parent_hash : Map BitPath Bytes → BitPath → Bytes → Bytes
  parent_hash current parent empty =
      hash_pair x (or_hash (Map.lookup (parent ++ false ∷ []) current) empty)
        (or_hash (Map.lookup (parent ++ true ∷ []) current) empty)

  -- The parents at `level` of the paths of `todo`; `empty` is the hash of an absent child.
  unfoldable pub next_level :
      ℕ
      → Bytes
      → Map BitPath Bytes
      → Map BitPath Bytes
      → List BitPath
      → Map BitPath Bytes
      → Map BitPath Bytes
  unfolding seen_in parent_hash
  next_level level empty current [] processed next = next
  next_level level empty current ((path, h) ∷ todo) processed next =
      let parent = take level path in
      let old = seen_in parent processed in
      next_level level empty current todo (if old then processed else parent ∷ processed)
        (if old then next else Map.insert parent (parent_hash current parent empty) next)

  -- `for level in (0..n).rev()`
  unfoldable pub build_levels : ℕ → ℕ → List Bytes → Map BitPath Bytes → Map BitPath Bytes
  unfolding next_level
  build_levels depth zero zs current = current
  build_levels depth (suc level) zs current =
      build_levels depth level zs
        (next_level level (hash_at zs (depth - level - 1)) current current [] [])

  unfoldable pub recompute_root : SparseMerkleTree → SparseMerkleTree
  unfolding leaf_hashes build_levels
  recompute_root t =
      let top = build_levels t.depth t.depth t.zero_hashes (leaf_hashes t.depth t.leaves []) in
      if is_empty t.leaves
      then record t { root = hash_at t.zero_hashes t.depth }
      else record t { root = or_hash (Map.lookup [] top) (hash_at t.zero_hashes t.depth) }

  unfoldable pub insert : SparseMerkleTree → Bytes → Bytes → SparseMerkleTree
  unfolding recompute_root
  insert t key value = recompute_root (record t {
    leaves =
        if bytes_beq value zero_hash
        then Map.remove key t.leaves
        else Map.insert key value t.leaves;
  })

  unfoldable pub remove : SparseMerkleTree → Bytes → SparseMerkleTree
  unfolding recompute_root
  remove t key = recompute_root (record t { leaves = Map.remove key t.leaves })

  -- The fuel is `depth - level`, so that it ends where the level reaches the depth.
  unfoldable pub compute_subtree_hash :
      ℕ → SparseMerkleTree → Map BitPath Bytes → BitPath → ℕ → Bytes
  unfolding has_leaves
  compute_subtree_hash zero t level_hashes path level =
      or_hash (Map.lookup path level_hashes) (hash_at t.zero_hashes 0)
  compute_subtree_hash (suc n) t level_hashes path level = elim (Map.lookup path level_hashes) [
    | some h ↦ h
    | none ↦ elim (has_leaves t.depth path t.leaves) [
      | false ↦ hash_at t.zero_hashes (t.depth - level)
      | true ↦
          hash_pair x (compute_subtree_hash n t level_hashes (path ++ false ∷ []) (level + 1))
            (compute_subtree_hash n t level_hashes (path ++ true ∷ []) (level + 1))
    ]
  ]

  -- The entries whose path is longer than `level`.
  unfoldable pub longer : ℕ → Map BitPath Bytes → Map BitPath Bytes
  longer level [] = []
  longer level ((p, h) ∷ m) =
      if ltb level (length p) then (p, h) ∷ longer level m else longer level m

  unfoldable pub siblings_from : ℕ → SparseMerkleTree → BitPath → Map BitPath Bytes → List Bytes
  unfolding flip_last compute_subtree_hash next_level longer
  siblings_from zero t path level_hashes = []
  siblings_from (suc level) t path level_hashes =
      let sibling_path = flip_last (take (suc level) path) in
      let sibling = compute_subtree_hash (t.depth - level) t level_hashes sibling_path level in
      let empty = hash_at t.zero_hashes (t.depth - level - 1) in
      let new_hashes = next_level level empty level_hashes (longer level level_hashes) [] [] in
      sibling
      ∷ siblings_from level t path (if is_empty new_hashes then level_hashes else new_hashes)

  unfoldable pub get_siblings : SparseMerkleTree → Bytes → List Bytes
  unfolding siblings_from leaf_hashes key_to_path
  get_siblings t key =
      siblings_from t.depth t (key_to_path key t.depth) (leaf_hashes t.depth t.leaves [])

  unfoldable pub prove : SparseMerkleTree → Bytes → MerkleProof
  unfolding key_to_path get_siblings
  prove t key = record {
    key = key;
    value = or_hash (Map.lookup key t.leaves) zero_hash;
    siblings = get_siblings t key;
    path = key_to_path key t.depth;
  }

  unfoldable pub verify_proof : SparseMerkleTree → MerkleProof → Bool
  unfolding verify
  verify_proof t p = verify p t.root
