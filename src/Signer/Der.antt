-- ===== src/Signer/Der.antt =====
-- services/signer-service/src/keys/der.ts: ECDSA signatures in DER, and the low-s rule. Bytes are
-- numbers below 256.
pub mod Bytes
pub mod RoundTrip
use straitsx.Prelude.{
  ℕ, zero, suc, ◌+◌, ◌-◌, ◌*◌, ◌/◌, ◌%◌, ◌≡◌, refl, Bool, true, false, ◌||◌, not, Option, none,
  some, List, [], ◌∷◌, ◌++◌, ltb, leb, ◌==◌, if◌then◌else◌, length, get_elem?, take, drop,
}

abbrev pub secp256k1_order : ℕ
secp256k1_order = 0xfffffffffffffffffffffffffffffffebaaedce6af48a03bbfd25e8cd0364141

-- SECP256K1_ORDER >> 1n
abbrev pub secp256k1_half_order : ℕ
secp256k1_half_order = secp256k1_order / 2

abbrev pub integer_tag : ℕ
integer_tag = 0x02

abbrev pub sequence_tag : ℕ
sequence_tag = 0x30

unfoldable pub is_high_s : ℕ → Bool
is_high_s s = ltb secp256k1_half_order s

unfoldable pub normalise_s : ℕ → ℕ
unfolding is_high_s
normalise_s s = if is_high_s s then secp256k1_order - s else s

-- The errors that the codec throws.
pub data DerError : Type 0 where
  missing_length indefinite_length length_too_large truncated_length : DerError
  not_a_sequence length_mismatch integer_tag_missing integer_empty : DerError
  integer_truncated integer_negative trailing_bytes out_of_range : DerError

pub data Parsed {ℓ} (A : Type ℓ) : Type ℓ where
  ok : A → Parsed A
  err : DerError → Parsed A

infixl 5 ◌>>=◌
abbrev pub ◌>>=◌ {ℓ κ} : {A : Type ℓ} {B : Type κ} → Parsed A → (A → Parsed B) → Parsed B
ok a >>= f = f a
err e >>= f = err e

infixl 5 ◌>>◌
abbrev pub ◌>>◌ {ℓ} : {B : Type ℓ} → Parsed (Unit {0}) → Parsed B → Parsed B
m >> k = m >>= λ _. k

-- `if (!b) throw e`
abbrev pub guard : Bool → DerError → Parsed (Unit {0})
guard true e = ok tt
guard false e = err e

-- `der[offset] === tag`
abbrev pub is_tag : ℕ → Option ℕ → Bool
is_tag tag none = false
is_tag tag (some b) = b == tag

unfoldable pub assert_scalar : ℕ → Parsed ℕ
assert_scalar value = if value == 0 || leb secp256k1_order value then err out_of_range else ok value

-- The loop of the long form: the bytes of a length, the lowest last.
length_bytes : ℕ → ℕ → List ℕ → List ℕ
length_bytes zero remaining bytes = bytes
length_bytes (suc fuel) remaining bytes =
    let rest = length_bytes fuel (remaining / 256) ((remaining % 256) ∷ bytes) in
    if remaining == 0 then bytes else rest

-- `0x80 | count` is a sum, as the count is below 0x80.
unfoldable pub encode_length : ℕ → List ℕ
unfolding length_bytes
encode_length n =
    if ltb n 0x80
    then n ∷ []
    else let bytes = length_bytes (suc n) n [] in (0x80 + length bytes) ∷ bytes

-- The loop over the bytes of a long length.
read_bytes : ℕ → List ℕ → ℕ → ℕ → Parsed ℕ
read_bytes zero der offset n = ok n
read_bytes (suc count) der offset n = elim (get_elem? der offset) [
  | none ↦ err truncated_length
  | some byte ↦ read_bytes count der (offset + 1) (n * 256 + byte)
]

long_length : List ℕ → ℕ → ℕ → Parsed (ℕ × ℕ)
unfolding read_bytes
long_length der offset count =
    if count == 0
    then err indefinite_length
    else if ltb 4 count
    then err length_too_large
    else (do n ← read_bytes count der (offset + 1) 0; ok (n, offset + 1 + count))

-- The length at an offset, and the offset of the first content byte. `first & 0x7f` of a byte from
-- 0x80 on is its excess over 0x80.
unfoldable pub read_length : List ℕ → ℕ → Parsed (ℕ × ℕ)
unfolding long_length
read_length der offset = elim (get_elem? der offset) [
  | none ↦ err missing_length
  | some first ↦
      if ltb first 0x80 then ok (first, offset + 1) else long_length der offset (first - 0x80)
]

-- value.toString(16), as the values of its digits
unfoldable pub nibbles : ℕ → ℕ → List ℕ → List ℕ
nibbles zero n digits = digits
nibbles (suc fuel) n digits =
    let rest = nibbles fuel (n / 16) ((n % 16) ∷ digits) in if n == 0 then digits else rest

-- A zero in front of an odd number of digits.
unfoldable pub pad_even : List ℕ → List ℕ
pad_even digits = if length digits % 2 == 0 then digits else 0 ∷ digits

-- Each pair of digits as a byte.
unfoldable pub pair_up : List ℕ → List ℕ
pair_up [] = []
pair_up (d ∷ []) = d ∷ []
pair_up (d ∷ e ∷ digits) = (d * 16 + e) ∷ pair_up digits

-- A zero byte in front of a byte with the top bit.
unfoldable pub positive : List ℕ → List ℕ
positive [] = []
positive (b ∷ bytes) = if ltb b 0x80 then b ∷ bytes else 0 ∷ b ∷ bytes

unfoldable pub to_der_integer : ℕ → List ℕ
to_der_integer value =
    if value == 0 then 0 ∷ [] else positive (pair_up (pad_even (nibbles (suc value) value [])))

abbrev tagged : ℕ → List ℕ → List ℕ
tagged tag content = tag ∷ (encode_length (length content) ++ content)

unfoldable pub encode_signature_der : ℕ → ℕ → Parsed (List ℕ)
encode_signature_der r s = do
  r' ← assert_scalar r
  s' ← assert_scalar s
  ok (
      tagged sequence_tag
        (tagged integer_tag (to_der_integer r') ++ tagged integer_tag (to_der_integer s')))

-- The content as a big-endian number.
abbrev pub value_from : ℕ → List ℕ → ℕ
value_from acc [] = acc
value_from acc (b ∷ bytes) = value_from (acc * 256 + b) bytes

-- The checks on the content of an INTEGER of the given length.
unfoldable pub integer_content : ℕ → ℕ → List ℕ → Parsed (ℕ × ℕ)
integer_content n next [] = if n == 0 then err integer_empty else err integer_truncated
integer_content n next (b ∷ content) =
    if n == 0
    then err integer_empty
    else if not (length (b ∷ content) == n)
    then err integer_truncated
    else if leb 0x80 b
    then err integer_negative
    else ok (value_from 0 (b ∷ content), next + n)

unfoldable pub read_integer : List ℕ → ℕ → Parsed (ℕ × ℕ)
read_integer der offset =
    if is_tag integer_tag (get_elem? der offset)
    then (do
      (n, next) ← read_length der (offset + 1)
      integer_content n next (take n (drop next der)))
    else err integer_tag_missing

unfoldable pub parse_signature_der : List ℕ → Parsed (ℕ × ℕ)
parse_signature_der der =
    if is_tag sequence_tag (get_elem? der 0)
    then (do
      (seq_length, seq_content) ← read_length der 1
      guard (seq_content + seq_length == length der) length_mismatch
      (r, after_r) ← read_integer der seq_content
      (s, after_s) ← read_integer der after_r
      guard (after_s == seq_content + seq_length) trailing_bytes
      r' ← assert_scalar r
      s' ← assert_scalar s
      ok (r', s'))
    else err not_a_sequence
