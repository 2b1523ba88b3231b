-- ===== src/Merkle/External.antt =====
-- What the program takes from other crates: SHA-256 (sha2) and the binary encodings (bincode), which
-- may fail. `Sha256Hasher` of crates/core/src/merkle/poseidon.rs stands on the first.
use zk_perp.Prelude.Result.{Result}
use zk_perp.Prelude.{String, ℕ, zero, suc, Option, none, some, List, [], ◌∷◌, ◌++◌}
use zk_perp.Types.Account.{Account}
use zk_perp.Types.Order.{Order}
use zk_perp.Types.Position.{Position}
use zk_perp.Types.Transaction.{Transaction}

abbrev pub Bytes : Type 0
Bytes = List ℕ

pub record External : Type 0 where
  pub sha256 : Bytes → Bytes
  pub serialize_account : Account → Option Bytes
  pub serialize_order : Order → Option Bytes
  pub serialize_position : Position → Option Bytes
  pub serialize_transaction : Transaction → Result String Bytes

abbrev pub zeros : ℕ → Bytes
zeros zero = []
zeros (suc n) = 0 ∷ zeros n

abbrev pub zero_hash : Bytes
zero_hash = zeros 32

unfoldable pub hash : External → Bytes → Bytes
hash x input = x.sha256 input

unfoldable pub hash_pair : External → Bytes → Bytes → Bytes
hash_pair x left right = x.sha256 (left ++ right)

-- `unwrap_or_default`
abbrev pub or_default : Option Bytes → Bytes
or_default none = []
or_default (some b) = b
