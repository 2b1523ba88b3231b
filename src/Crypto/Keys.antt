-- ===== src/Crypto/Keys.antt =====
-- Key pairs and signatures. The curve (ed25519-dalek) is a parameter: keys are seen through these
-- calls alone and stand for themselves as bytes. A call that ends the program returns `none`.
use zk_perp.Prelude.{
  ℕ, ◌<◌, ◌≡◌, refl, ap, sym, Bool, true, false, not, Option, none, some, String, ◌==◌,
  if◌then◌else◌, arith, ==_iff, inl, inr, All, length,
}
use zk_perp.Prelude.Result.{Result, ok, err, ◌>>=◌, ◌>>◌, map_err, Result-cases}
use zk_perp.Types.Transaction.{Transaction, SignedTransaction}
use zk_perp.Merkle.External.{Bytes, External}
use zk_perp.Crypto.Hex
use zk_perp.Crypto.Hex.{Text, to_hex, from_hex-to_hex}

pub record Curve : Type 0 where
  pub verifying_key : Bytes → Bytes
  pub sign : Bytes → Bytes → Bytes
  pub parse_key : Bytes → Result String (Unit {0})
  pub verify : Bytes → Bytes → Bytes → Result String (Unit {0})

pub data CryptoError : Type 0 where
  invalid_signature_length invalid_public_key_length invalid_secret_key_length : ℕ → CryptoError
  verification_failed : CryptoError
  signature_parse_error public_key_parse_error serialization_error : String → CryptoError

pub record Keypair : Type 0 where
  pub signing_key : Bytes

unfoldable pub from_secret_key : Bytes → Keypair
from_secret_key secret = record { signing_key = secret }

-- The random bytes are an argument.
unfoldable pub generate : Bytes → Keypair
generate secret_bytes = record { signing_key = secret_bytes }

unfoldable pub secret_key : Keypair → Bytes
secret_key kp = kp.signing_key

-- The length of a secret that was read.
unfoldable pub secret_of : Bytes → Result CryptoError Keypair
unfolding from_secret_key
secret_of bytes =
    if not (length bytes == 32)
    then err (invalid_secret_key_length (length bytes))
    else ok (from_secret_key bytes)

unfoldable pub from_hex : Text → Option (Result CryptoError Keypair)
unfolding Hex.from_hex secret_of
from_hex hex = elim (Hex.from_hex hex) [
  | none ↦ none
  | some (err e) ↦ some (err (serialization_error e))
  | some (ok bytes) ↦ some (secret_of bytes)
]

-- `from_hex` of the crate, with its own error.
unfoldable pub hex_bytes : Text → Option (Result CryptoError Bytes)
unfolding Hex.from_hex
hex_bytes hex = elim (Hex.from_hex hex) [
  | none ↦ none
  | some read ↦ some (map_err serialization_error read)
]

unfoldable pub hash_transaction : External → Transaction → Option Bytes
hash_transaction x tx = elim (x.serialize_transaction tx) [
  | err e ↦ none
  | ok tx_bytes ↦ some (x.sha256 tx_bytes)
]

module _ (curve : Curve) where
  unfoldable pub public_key : Keypair → Bytes
  public_key kp = curve.verifying_key kp.signing_key

  unfoldable pub sign : Keypair → Bytes → Bytes
  sign kp message = curve.sign kp.signing_key message

  unfoldable pub verify_signature : Bytes → Bytes → Bytes → Result CryptoError Bool
  verify_signature public_key message signature =
      if not (length signature == 64)
      then err (invalid_signature_length (length signature))
      else (map_err public_key_parse_error (curve.parse_key public_key)
          >> (elim (curve.verify public_key message signature) [
            | ok _ ↦ ok true
            | err _ ↦ ok false
          ]))

  module _ (x : External) where
    unfoldable pub sign_transaction : Keypair → Transaction → Result CryptoError SignedTransaction
    unfolding sign
    sign_transaction kp tx = do
      tx_bytes ← map_err serialization_error (x.serialize_transaction tx)
      ok (record { tx = tx; signature = sign kp tx_bytes })

    unfoldable pub verify_transaction : SignedTransaction → Bytes → Result CryptoError Bool
    unfolding verify_signature
    verify_transaction signed_tx public_key = do
      tx_bytes ← map_err serialization_error (x.serialize_transaction signed_tx.tx)
      verify_signature public_key tx_bytes signed_tx.signature

    -- A transaction that was signed verifies under the public key of the pair, and is the one that
    -- was given. The curve must know its own keys, sign in 64 bytes and verify its own signatures.
    pub verify_transaction-sign_transaction :
        (kp : Keypair) (tx : Transaction) (signed_tx : SignedTransaction)
        → curve.parse_key (public_key kp) ≡ ok tt
        → ((m : Bytes) → length (sign kp m) ≡ 64)
        → ((m : Bytes) → curve.verify (public_key kp) m (sign kp m) ≡ ok tt)
        → sign_transaction kp tx ≡ ok signed_tx
        → (signed_tx.tx ≡ tx) × (verify_transaction signed_tx (public_key kp) ≡ ok true)
    unfolding sign_transaction verify_transaction verify_signature
    verify_transaction-sign_transaction kp tx signed_tx known size signs signed =
        elim (Result-cases (x.serialize_transaction tx)) [
          | inr (e, failed) ↦ absurd (ground arith)
          | inl (m, bytes) ↦
              let is_signed : record { tx = tx; signature = sign kp m } ≡ signed_tx =
                ground arith in
              let same : signed_tx.tx ≡ tx = ap (λ (s : SignedTransaction). s.tx) (sym is_signed) in
              let by : signed_tx.signature ≡ sign kp m =
                ap (λ (s : SignedTransaction). s.signature) (sym is_signed) in
              let long : (length (sign kp m) == 64) ≡ true =
                (==_iff (length (sign kp m)) 64).1 (size m) in
              (same, rw (verify_transaction, same, bytes, by, long, known, signs m) refl)
        ]

-- The secret key of a pair, written as hexadecimal digits, gives back the pair.
pub from_hex-secret_key :
    (kp : Keypair)
    → All (λ b. b < 256) kp.signing_key
    → length kp.signing_key ≡ 32
    → from_hex (to_hex (secret_key kp)) ≡ some (ok kp)
unfolding from_hex secret_key secret_of from_secret_key
from_hex-secret_key kp small size =
    let long : (length kp.signing_key == 32) ≡ true = (==_iff (length kp.signing_key) 32).1 size in
    rw (from_hex, secret_key, from_hex-to_hex kp.signing_key small, long) refl
