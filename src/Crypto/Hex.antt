-- ===== src/Crypto/Hex.antt =====
-- The module `hex` and its callers. A text is the list of its code points; its length is in bytes of
-- UTF-8, as `str::len` counts. An index past the end of the characters ends the program: `none`.
use zk_perp.Prelude.{
  ℕ, zero, suc, ◌+◌, ◌-◌, ◌*◌, ◌/◌, ◌%◌, ◌<◌, ◌≡◌, ◌≢◌, refl, ap, ◌∙◌, true, ◌&&◌, Option, none,
  some, List, [], ◌∷◌, String, ltb, leb, ◌==◌, if◌then◌else◌, arith, inl, inr, Bool-cases, All,
  length,
}
use zk_perp.Prelude.Result.{Result, ok, err, Result-cases}
use zk_perp.Merkle.External.{Bytes}

abbrev pub Text : Type 0
Text = List ℕ

-- The text is read, or the program ends.
abbrev pub Decoded : Type 0
Decoded = Option (Result String Bytes)

abbrev pub char_width : ℕ → ℕ
char_width c = if ltb c 128 then 1 else if ltb c 2048 then 2 else if ltb c 65536 then 3 else 4

-- `str::len`
abbrev pub utf8_len : Text → ℕ
utf8_len [] = 0
utf8_len (c ∷ s) = char_width c + utf8_len s

-- `HEX_CHARS[n]`
unfoldable pub hex_char : ℕ → ℕ
hex_char n = if ltb n 10 then 48 + n else 87 + n

unfoldable pub encode : Bytes → Text
unfolding hex_char
encode [] = []
encode (b ∷ bs) = hex_char (b / 16) ∷ hex_char (b % 16) ∷ encode bs

unfoldable pub hex_char_to_nibble : ℕ → Result String ℕ
hex_char_to_nibble c =
    if leb 48 c && leb c 57
    then ok (c - 48)
    else if leb 97 c && leb c 102
    then ok (c - 97 + 10)
    else if leb 65 c && leb c 70
    then ok (c - 65 + 10)
    else err "Invalid hex character"

-- A byte before the bytes of the rest.
abbrev pub push_byte : ℕ → Decoded → Decoded
push_byte b none = none
push_byte b (some (err e)) = some (err e)
push_byte b (some (ok bs)) = some (ok (b ∷ bs))

-- The loop, on the characters that are left and so many pairs.
unfoldable pub decode_pairs : ℕ → Text → Decoded
unfolding hex_char_to_nibble
decode_pairs zero s = some (ok [])
decode_pairs (suc n) [] = none
decode_pairs (suc n) (c ∷ []) = elim (hex_char_to_nibble c) [
  | err e ↦ some (err e)
  | ok high ↦ none
]
decode_pairs (suc n) (c ∷ d ∷ s) = elim (hex_char_to_nibble c) [
  | err e ↦ some (err e)
  | ok high ↦ elim (hex_char_to_nibble d) [
    | err e ↦ some (err e)
    | ok low ↦ push_byte (high * 16 + low) (decode_pairs n s)
  ]
]

unfoldable pub decode : Text → Decoded
unfolding decode_pairs
decode s =
    if utf8_len s % 2 == 0
    then decode_pairs (utf8_len s / 2) s
    else some (err "Hex string must have even length")

-- `trim_start_matches("0x")`
unfoldable pub trim_prefix : Text → Text
trim_prefix [] = []
trim_prefix (c ∷ []) = c ∷ []
trim_prefix (c ∷ d ∷ s) = if (c == 48) && (d == 120) then trim_prefix s else c ∷ d ∷ s

unfoldable pub to_hex : Bytes → Text
unfolding encode
to_hex bytes = encode bytes

unfoldable pub from_hex : Text → Decoded
unfolding decode trim_prefix
from_hex s = decode (trim_prefix s)

hex_char_to_nibble-hex_char : (n : ℕ) → n < 16 → hex_char_to_nibble (hex_char n) ≡ ok n
unfolding hex_char hex_char_to_nibble
hex_char_to_nibble-hex_char n small = ground arith

char_width-hex_char : (n : ℕ) → n < 16 → char_width (hex_char n) ≡ 1
unfolding hex_char
char_width-hex_char n small = ground arith

utf8_len-encode : (bs : Bytes) → All (λ b. b < 256) bs → utf8_len (encode bs) ≡ 2 * length bs
unfolding encode
utf8_len-encode [] small = refl
utf8_len-encode (b ∷ bs) small =
    let high = char_width-hex_char (b / 16) (ground arith) in
    let low = char_width-hex_char (b % 16) (ground arith) in
    ground (arith, high, low, utf8_len-encode bs small.1)

decode_pairs-encode :
    (bs : Bytes) → All (λ b. b < 256) bs → decode_pairs (length bs) (encode bs) ≡ some (ok bs)
unfolding decode_pairs encode
decode_pairs-encode [] small = refl
decode_pairs-encode (b ∷ bs) small =
    let high = hex_char_to_nibble-hex_char (b / 16) (ground arith) in
    let low = hex_char_to_nibble-hex_char (b % 16) (ground arith) in
    rw (decode_pairs, encode, high, low, decode_pairs-encode bs small.1)
      (ap (λ x. some (ok (x ∷ bs))) (ground arith))

decode-encode : (bs : Bytes) → All (λ b. b < 256) bs → decode (encode bs) ≡ some (ok bs)
unfolding decode
decode-encode bs small =
    let size = utf8_len-encode bs small in
    let even : (utf8_len (encode bs) % 2 == 0) ≡ true = ground (arith, size) in
    let half : utf8_len (encode bs) / 2 ≡ length bs = ground (arith, size) in
    rw (decode, even, half) (decode_pairs-encode bs small)

-- Digits have no "0x" before them.
trim_prefix-encode : (bs : Bytes) → All (λ b. b < 256) bs → trim_prefix (encode bs) ≡ encode bs
unfolding trim_prefix encode hex_char
trim_prefix-encode [] small = refl
trim_prefix-encode (b ∷ bs) small = ground arith

-- Bytes written as hexadecimal digits are read back.
pub from_hex-to_hex : (bs : Bytes) → All (λ b. b < 256) bs → from_hex (to_hex bs) ≡ some (ok bs)
unfolding from_hex to_hex
from_hex-to_hex bs small = ap decode (trim_prefix-encode bs small) ∙ decode-encode bs small

-- A character that is a digit is one byte long.
char_width-digit : (c n : ℕ) → hex_char_to_nibble c ≡ ok n → char_width c ≡ 1
unfolding hex_char_to_nibble
char_width-digit c n digit = ground arith

push_byte-some : (b : ℕ) (d : Decoded) → d ≢ none → push_byte b d ≢ none
push_byte-some b none there = λ e. there refl
push_byte-some b (some (ok bs)) there = λ e. cc
push_byte-some b (some (err m)) there = λ e. cc

char_width-pos : (c : ℕ) → 0 < char_width c
char_width-pos c = ground arith

utf8_len-pos : (c : ℕ) (s : Text) → 0 < utf8_len (c ∷ s)
utf8_len-pos c s = ground (arith, char_width-pos c)

decode_pairs-some : (n : ℕ) (s : Text) → 2 * n ≡ utf8_len s → decode_pairs n s ≢ none
unfolding decode_pairs
decode_pairs-some zero s size = λ e. cc
decode_pairs-some (suc n) [] size = λ e. ground arith
decode_pairs-some (suc n) (c ∷ []) size = elim (Result-cases (hex_char_to_nibble c)) [
  | inl (h, digit) ↦ λ e. absurd (ground (arith, char_width-digit c h digit))
  | inr (m, other) ↦ rw (decode_pairs, other) (λ e. cc)
]
decode_pairs-some (suc n) (c ∷ d ∷ s) size = elim (Result-cases (hex_char_to_nibble c)) [
  | inr (m, other) ↦ rw (decode_pairs, other) (λ e. cc)
  | inl (h, digit) ↦ elim (Result-cases (hex_char_to_nibble d)) [
    | inr (m, other) ↦ rw (decode_pairs, digit, other) (λ e. cc)
    | inl (l, digit') ↦
        let rest : 2 * n ≡ utf8_len s =
          ground (arith, char_width-digit c h digit, char_width-digit d l digit') in
        rw (decode_pairs, digit, digit')
          (push_byte-some (h * 16 + l) (decode_pairs n s) (decode_pairs-some n s rest))
  ]
]

-- Reading hexadecimal text never ends the program, whatever the text: the loop, whose bound counts
-- bytes, never asks for a character past the last one.
pub from_hex-some : (s : Text) → from_hex s ≢ none
unfolding from_hex decode
from_hex-some s = elim (Bool-cases (utf8_len (trim_prefix s) % 2 == 0)) [
  | inr odd ↦ rw (from_hex, decode, odd) (λ e. cc)
  | inl even ↦
      let half : 2 * (utf8_len (trim_prefix s) / 2) ≡ utf8_len (trim_prefix s) = ground arith in
      rw (from_hex, decode, even)
        (decode_pairs-some (utf8_len (trim_prefix s) / 2) (trim_prefix s) half)
]
