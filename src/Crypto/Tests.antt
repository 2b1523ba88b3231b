-- ===== src/Crypto/Tests.antt =====
-- A few bytes as text, and a curve whose signatures are 64 zeros.
use zk_perp.Prelude.{
  ℕ, ◌≡◌, ◌≢◌, refl, none, some, [], ◌∷◌, arith, List, length, true, bytes_beq, if◌then◌else◌,
}
use zk_perp.Prelude.Result.{ok, err}
use zk_perp.Types.Transaction.{Transaction, deposit}
use zk_perp.Merkle.External.{External, zeros}
use zk_perp.Crypto.Hex.{from_hex, to_hex, from_hex-to_hex, from_hex-some}
use zk_perp.Crypto.Keys.{
  Curve, Keypair, public_key, sign, sign_transaction, verify_transaction,
  verify_transaction-sign_transaction,
}

from_hex-to_hex_example : from_hex (to_hex (0 ∷ 255 ∷ 18 ∷ [])) ≡ some (ok (0 ∷ 255 ∷ 18 ∷ []))
from_hex-to_hex_example = from_hex-to_hex (0 ∷ 255 ∷ 18 ∷ []) (ground arith)

from_hex-some_example : from_hex (48 ∷ 120 ∷ 97 ∷ 233 ∷ 97 ∷ []) ≢ none
from_hex-some_example = from_hex-some (48 ∷ 120 ∷ 97 ∷ 233 ∷ 97 ∷ [])

abbrev kp : Keypair
kp = record { signing_key = zeros 32 }

abbrev stand_in : External
stand_in = record {
  sha256 = λ b. zeros 32;
  serialize_account = λ a. none;
  serialize_order = λ o. none;
  serialize_position = λ p. none;
  serialize_transaction = λ t. ok (1 ∷ 2 ∷ []);
}

abbrev toy_curve : Curve
toy_curve = record {
  verifying_key = λ k. k;
  sign = λ k m. zeros 64;
  parse_key = λ k. ok tt;
  verify = λ k m s. if bytes_beq s (zeros 64) then ok tt else err "signature";
}

abbrev tx : Transaction
tx = deposit (record { account_id = 1; asset_id = 0; amount = 5; nonce = 1 })

signed : sign_transaction toy_curve stand_in kp tx ≡ ok (record { tx = tx; signature = zeros 64 })
unfolding sign_transaction
signed = refl

size : (m : List ℕ) → length (sign toy_curve kp m) ≡ 64
unfolding sign
size m = refl

signs : (m : List ℕ) → toy_curve.verify (public_key toy_curve kp) m (sign toy_curve kp m) ≡ ok tt
unfolding sign
signs m = refl

verify_transaction-sign_transaction_example :
    (tx ≡ tx)
    × (verify_transaction toy_curve stand_in
          (record { tx = tx; signature = zeros 64 })
          (public_key toy_curve kp)
        ≡ ok true)
verify_transaction-sign_transaction_example =
    verify_transaction-sign_transaction toy_curve stand_in kp tx
      (record { tx = tx; signature = zeros 64 }) refl size signs signed
